-- ===== src/Logs/Tests.antt =====
-- A search of two pages, and the theorems about it.
use cdn_platform.Prelude.{
  ℕ, suc, ◌*◌, ◌≡◌, refl, true, [], ◌∷◌, ◌===◌, none, some, codes, decimal, is_truthy,
  if◌then◌else◌, arith,
}
use cdn_platform.Types.Traffic.{LogPage}
use cdn_platform.Logs.Detail.{name_for}
use cdn_platform.Logs.{
  FilterKey, Edit, key_name, filter_value, Search, LogsState, Event, initial, handle, page_number,
  log_params, applied_search, edit, defaults,
}
use cdn_platform.Logs.Query.{param, param-log_params}
use cdn_platform.Logs.Paging.{Step, Reach, Reach-page_number}

abbrev first_page : LogPage ℕ
first_page = record { logs = []; from = []; to = []; offset = 0; page_size = 50; has_more = true }

-- A state in which the first page is shown, and the one after a click on next.
abbrev shown : LogsState ℕ
shown = handle decimal (initial decimal 9000000) (Event.answered first_page)

abbrev second : LogsState ℕ
second = handle decimal shown Event.next

all_of_it : Unit {0}
unfolding initial handle applied_search edit log_params defaults
all_of_it = tt

moves : (second.offset ≡ 50) × (second.search.from ≡ decimal 5400000)
unfolding all_of_it
moves = (refl, refl)

abbrev edited : Search
edited = applied_search decimal 9000000 (edit defaults (Edit.field FilterKey.path (codes "/api/")))

asks : param (log_params edited 0) (codes "path") ≡ some (codes "/api/")
unfolding all_of_it
asks = refl

two_steps : Reach decimal 50 9000000 second
unfolding all_of_it
two_steps =
    Reach.then_step
      (Reach.then_step Reach.start (Step.answered (initial decimal 9000000) first_page refl refl))
      (Step.next shown)

Reach-page_number_example :
    (n : ℕ) × (second.offset ≡ n * 50)
    × ((page : LogPage ℕ) → second.shown ≡ some page → page_number page ≡ suc n)
Reach-page_number_example = Reach-page_number decimal 50 9000000 (omega arith) two_steps

param-log_params_example :
    let ps = log_params edited 0 in
    (param ps (codes "from") ≡ some edited.from)
    × (param ps (codes "to") ≡ some edited.to)
    × (param ps (codes "offset") ≡ some (decimal 0))
    × ((key : FilterKey)
        → param ps (key_name key) ≡ (
            if is_truthy (filter_value key edited.filters)
            then some (filter_value key edited.filters)
            else none))
param-log_params_example = param-log_params edited 0

unknown : name_for (some ((codes "a", codes "x") ∷ [])) (codes "b") ≡ codes "b"
unfolding name_for ◌===◌
unknown = refl
