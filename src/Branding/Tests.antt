-- ===== src/Branding/Tests.antt =====
-- The cache with a codec in place of JSON, and the theorems about it.
use cdn_platform.Prelude.{
  ◌≡◌, ◌⊎◌, refl, ap, true, [], ◌∷◌, ◌++◌, Option, none, some, Text, codes, length, take, drop,
}
use cdn_platform.Types.Settings.{Branding}
use cdn_platform.Branding.{
  Field, Value, value_of, normalize_branding, cache_branding, read_cached_branding, document_title,
  shown_branding, default_branding,
}
use cdn_platform.Branding.Cache.{read-cache_branding}

take_own : (s t : Text) → take (length s) (s ++ t) ≡ s
take_own [] t = refl
take_own (c ∷ s) t = ap (c ∷◌) (take_own s t)

drop_own : (s t : Text) → drop (length s) (s ++ t) ≡ t
drop_own [] t = refl
drop_own (c ∷ s) t = drop_own s t

abbrev encode : Branding → Text
encode b = length b.name ∷ (length b.subtitle ∷ (b.name ++ (b.subtitle ++ b.logo_data_url)))

abbrev decode : Text → Option Value
decode (n ∷ (m ∷ s)) = some (
    Value.object (Field.string (take n s)) (Field.string (take m (drop n s)))
      (Field.string (drop m (drop n s))))
decode _ = none

decode-encode : (b : Branding) → decode (encode b) ≡ some (value_of b)
decode-encode b =
    rw
      (
        take_own b.name (b.subtitle ++ b.logo_data_url),
        drop_own b.name (b.subtitle ++ b.logo_data_url),
        take_own b.subtitle b.logo_data_url,
        drop_own b.subtitle b.logo_data_url,
      )
      refl

abbrev sent : Value
sent =
    Value.object (Field.string (codes " cdn ")) (Field.string [])
      (Field.string (codes "data:text,"))

abbrev kept : Branding
kept = record { name = codes "cdn"; subtitle = []; logo_data_url = [] }

normalizes : normalize_branding sent ≡ some kept
unfolding normalize_branding
normalizes = refl

titles : document_title (shown_branding none none) ≡ codes "simple_cdn · 控制面板"
unfolding document_title shown_branding default_branding
titles = refl

read-cache_branding_example :
    (read_cached_branding encode decode (cache_branding encode decode true sent none)
      ≡ normalize_branding sent)
    ⊎ (normalize_branding sent ≡ none) × (cache_branding encode decode true sent none ≡ none)
read-cache_branding_example = read-cache_branding encode decode decode-encode (λ b. refl) sent none
