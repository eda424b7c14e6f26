-- ===== src/Logs/Query.antt =====
-- The query that is sent (frontend/src/features/logs/logs-page.tsx).
use cdn_platform.Prelude.{
  ℕ, ◌≡◌, ◌∙◌, refl, Bool, true, false, not, ◌&&◌, List, [], ◌∷◌, Option, none, some, Text, codes,
  ◌===◌, ===-self, is_truthy, arith, if◌then◌else◌, decimal,
}
use cdn_platform.Logs.{
  LogFilters, FilterKey, key_name, filter_value, filter_params, filter_keys, Search, log_params,
}

-- `params.get(name)`
abbrev pub param : List (Text × Text) → Text → Option Text
param [] name = none
param ((k, v) ∷ ps) name = if k === name then some v else param ps name

abbrev sent_value : Text → Option Text
sent_value v = if is_truthy v then some v else none

abbrev differ : FilterKey → List FilterKey → Bool
differ key [] = true
differ key (k ∷ keys) = not (key_name k === key_name key) && differ key keys

absent :
    (f : LogFilters) (key : FilterKey) (keys : List FilterKey)
    → differ key keys ≡ true
    → param (filter_params f keys) (key_name key) ≡ none
absent f key [] h = refl
absent f key (k ∷ keys) h = ground (arith, absent f key keys)

-- Where a key stands: no other key of the list has its name.
data Once (key : FilterKey) : List FilterKey → Type 0 where
  here : (keys : List FilterKey) → differ key keys ≡ true → Once key (key ∷ keys)
  later :
      (k : FilterKey) (keys : List FilterKey)
      → (key_name k === key_name key) ≡ false
      → Once key keys
      → Once key (k ∷ keys)

found :
    (f : LogFilters) (key : FilterKey) {keys : List FilterKey}
    → Once key keys
    → param (filter_params f keys) (key_name key) ≡ sent_value (filter_value key f)
found f key (here keys h) = ground (arith, absent f key keys h, ===-self (key_name key))
found f key (later k keys h o) = ground (arith, found f key o)

filter_keys-Once : (key : FilterKey) → Once key filter_keys
unfolding ◌===◌
filter_keys-Once FilterKey.site_id = here _ refl
filter_keys-Once FilterKey.node_id = later _ _ refl (here _ refl)
filter_keys-Once FilterKey.method = later _ _ refl (later _ _ refl (here _ refl))
filter_keys-Once FilterKey.status = later _ _ refl (later _ _ refl (later _ _ refl (here _ refl)))
filter_keys-Once FilterKey.path =
    later _ _ refl (later _ _ refl (later _ _ refl (later _ _ refl (here _ refl))))
filter_keys-Once FilterKey.client_ip =
    later _ _ refl (later _ _ refl (later _ _ refl (later _ _ refl (later _ _ refl (here _ refl)))))
filter_keys-Once FilterKey.cache_status = later _ _ refl (
    later _ _ refl
      (later _ _ refl (later _ _ refl (later _ _ refl (later _ _ refl (here _ refl))))))

-- No filter has the name of one of the three entries that are always sent.
past_times :
    (key : FilterKey) (from to offset : Text) (ps : List (Text × Text))
    → param ((codes "from", from) ∷ (codes "to", to) ∷ (codes "offset", offset) ∷ ps) (key_name key)
      ≡ param ps (key_name key)
unfolding ◌===◌
past_times FilterKey.site_id from to offset ps = refl
past_times FilterKey.node_id from to offset ps = refl
past_times FilterKey.method from to offset ps = refl
past_times FilterKey.status from to offset ps = refl
past_times FilterKey.path from to offset ps = refl
past_times FilterKey.client_ip from to offset ps = refl
past_times FilterKey.cache_status from to offset ps = refl

-- The query has the two times and the offset, and each filter exactly if it is not empty, with its
-- value, under a name of its own.
pub param-log_params :
    (search : Search) (offset : ℕ)
    → let ps = log_params search offset in
      (param ps (codes "from") ≡ some search.from)
      × (param ps (codes "to") ≡ some search.to)
      × (param ps (codes "offset") ≡ some (decimal offset))
      × ((key : FilterKey) → param ps (key_name key) ≡ sent_value (filter_value key search.filters))
unfolding log_params ◌===◌
param-log_params search offset = (
  refl,
  refl,
  refl,
  λ key.
      past_times key search.from search.to (decimal offset) _
      ∙ found search.filters key (filter_keys-Once key),
)
