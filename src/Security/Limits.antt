-- ===== src/Security/Limits.antt =====
-- What the control plane makes of a rate-limit policy, internal/domain/security.go
-- (`NormalizeRateLimitPolicy`). Its numbers are natural: the dialog's fields have a minimum of 1.
pub mod Classes
use cdn_platform.Prelude.{
  ℕ, ◌+◌, Bool, true, false, not, ◌&&◌, ◌||◌, List, [], ◌∷◌, any, all, Option, none, some, Text,
  is_truthy, trim_by, ltb, leb, ◌==◌, if◌then◌else◌,
}
use cdn_platform.Security.RateDialog.{RatePayload}

pub data LimitError : Type 0 where
  bad_name rps_range threshold_range bad_duration : LimitError
  ban_needs_condition no_classes class_range ban_classes : LimitError

pub data LimitResult : Type 0 where
  ok : RatePayload → LimitResult
  err : LimitError → LimitResult

-- `unicode.IsSpace`, by which `strings.TrimSpace` goes.
unfoldable pub is_go_space : ℕ → Bool
is_go_space c =
    leb 9 c && leb c 13
    || c == 32
    || c == 133
    || c == 160
    || c == 5760
    || leb 8192 c && leb c 8202
    || c == 8232
    || c == 8233
    || c == 8239
    || c == 8287
    || c == 12288

abbrev unit_bytes : ℕ → ℕ
unit_bytes c =
    if ltb c 128 then 1 else if ltb c 2048 then 2 else if leb 55296 c && leb c 57343 then 2 else 3

-- `len(s)` in Go: the bytes of the text in UTF-8. The two units of a surrogate pair share its four.
unfoldable pub utf8_length : Text → ℕ
utf8_length [] = 0
utf8_length (c ∷ s) = unit_bytes c + utf8_length s

unfoldable pub valid_ban_duration : ℕ → Bool
valid_ban_duration seconds =
    any (λ allowed. seconds == allowed) (3600 ∷ 21600 ∷ 43200 ∷ 86400 ∷ 259200 ∷ 604800 ∷ [])

-- `sort.Ints`
unfoldable pub insert_int : ℕ → List ℕ → List ℕ
insert_int n [] = n ∷ []
insert_int n (m ∷ ms) = let rest = insert_int n ms in if leb m n then m ∷ rest else n ∷ m ∷ ms

unfoldable pub sort_ints : List ℕ → List ℕ
unfolding insert_int
sort_ints [] = []
sort_ints (n ∷ ns) = insert_int n (sort_ints ns)

abbrev class_kept : Option ℕ → ℕ → Bool
class_kept none class = true
class_kept (some last) class = not (last == class)

-- The loop over the sorted classes: `none` when a class is out of range, and equal neighbours
-- merged. `last` is the class kept last.
unfoldable pub normalize_classes : Option ℕ → List ℕ → Option (List ℕ)
normalize_classes last [] = some []
normalize_classes last (class ∷ rest) =
    let kept = class_kept last class in
    elim (normalize_classes (some class) rest) [
      | none ↦ none
      | some more ↦
          if ltb class 2 || ltb 5 class
          then none
          else if kept
          then some (class ∷ more)
          else some more
    ]

abbrev pub or_default : ℕ → ℕ → ℕ
or_default default n = if n == 0 then default else n

abbrev with_classes : RatePayload → Option (List ℕ) → LimitResult
with_classes p none = err class_range
with_classes p (some classes) =
    if p.ban_enabled && any (λ c. not (c == 4) && not (c == 5)) classes
    then err ban_classes
    else ok (record p { response_status_classes = classes })

unfoldable pub check_condition : RatePayload → LimitResult
unfolding sort_ints normalize_classes
check_condition p =
    if not p.response_condition_enabled
    then (if p.ban_enabled
        then err ban_needs_condition
        else ok (record p { response_status_classes = [] }))
    else (elim p.response_status_classes [
      | [] ↦ err no_classes
      | c ∷ cs ↦ with_classes p (normalize_classes none (sort_ints (c ∷ cs)))
    ])

-- The trimmed name, and the defaults for absent numbers.
unfoldable pub with_defaults : RatePayload → RatePayload
unfolding is_go_space
with_defaults given = record given {
  name = trim_by is_go_space given.name;
  ban_after_consecutive_429 = or_default 3 given.ban_after_consecutive_429;
  ban_duration_seconds = or_default 3600 given.ban_duration_seconds;
}

unfoldable pub check_policy : RatePayload → LimitResult
unfolding check_condition utf8_length valid_ban_duration
check_policy p =
    if not (is_truthy p.name) || ltb 80 (utf8_length p.name)
    then err bad_name
    else if ltb p.requests_per_second 1 || ltb 100000 p.requests_per_second
    then err rps_range
    else if ltb p.ban_after_consecutive_429 1 || ltb 100 p.ban_after_consecutive_429
    then err threshold_range
    else if not (valid_ban_duration p.ban_duration_seconds)
    then err bad_duration
    else check_condition p

unfoldable pub normalize_rate_limit_policy : RatePayload → LimitResult
unfolding with_defaults check_policy
normalize_rate_limit_policy given = check_policy (with_defaults given)
