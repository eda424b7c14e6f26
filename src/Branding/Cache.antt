-- ===== src/Branding/Cache.antt =====
-- What the cache gives back (frontend/src/hooks/use-branding.ts).
use cdn_platform.Prelude.{
  ◌≡◌, ◌⊎◌, inl, inr, refl, ap, Bool, true, false, [], Option, none, some, Text, trim, is_truthy,
  arith, Bool-cases, if◌then◌else◌,
}
use cdn_platform.Prelude.Strings.Laws.{trim-trim}
use cdn_platform.Types.Settings.{Branding}
use cdn_platform.Branding.{
  Field, Value, kept, is_logo, logo_of, normalize_branding, value_of, cache_branding,
  read_cached_branding,
}

-- A branding that may be shown: it has a name, no spaces at the ends of its texts, and a logo that
-- is missing or a short enough data URL of one of the two image types.
pub record IsNormal (b : Branding) : Type 0 where
  pub name : is_truthy b.name ≡ true
  pub name_trimmed : trim b.name ≡ b.name
  pub subtitle_trimmed : trim b.subtitle ≡ b.subtitle
  pub logo : (b.logo_data_url ≡ []) ⊎ (is_logo b.logo_data_url ≡ true)

logo_of_lem : (f : Field) → (logo_of f ≡ []) ⊎ (is_logo (logo_of f) ≡ true)
unfolding logo_of
logo_of_lem Field.not_string = inl refl
logo_of_lem (Field.string url) = elim (Bool-cases (is_logo url)) [
  | inl e ↦ inr (rw e e)
  | inr e ↦ inl (rw e)
]

passed : {x y : Branding} (b : Bool) → (if b then some x else none) ≡ some y → (b ≡ true) × (x ≡ y)
passed true e = (refl, cc)
passed false e = cc

-- Whatever was stored or sent, a branding that passes is one that may be shown.
pub normalize_branding-IsNormal :
    (v : Value) (b : Branding) → normalize_branding v ≡ some b → IsNormal b
unfolding normalize_branding
normalize_branding-IsNormal (Value.object (Field.string name) (Field.string subtitle) logo) b h =
    let (named, same) = passed (is_truthy (trim name)) h in
    rw⁻¹ same (record {
      name = named;
      name_trimmed = trim-trim name;
      subtitle_trimmed = trim-trim subtitle;
      logo = logo_of_lem logo;
    })
normalize_branding-IsNormal (Value.object (Field.string name) Field.not_string logo) b h = cc
normalize_branding-IsNormal (Value.object Field.not_string subtitle logo) b h = cc
normalize_branding-IsNormal Value.not_object b h = cc

logo_of_self : (url : Text) → (url ≡ []) ⊎ (is_logo url ≡ true) → logo_of (Field.string url) ≡ url
unfolding logo_of
logo_of_self url h = ground arith

-- Normalising a normal branding changes nothing.
normalize_branding_self : (b : Branding) → IsNormal b → normalize_branding (value_of b) ≡ some b
unfolding normalize_branding
normalize_branding_self b h =
    rw (h.name_trimmed, h.name, h.subtitle_trimmed)
      (ap (λ u. some (record b { logo_data_url = u })) (logo_of_self b.logo_data_url h.logo))

module _ (stringify : Branding → Text) (parse : Text → Option Value)
    (parse_stringify : (b : Branding) → parse (stringify b) ≡ some (value_of b))
    (not_empty : (b : Branding) → is_truthy (stringify b) ≡ true) where
  kept_lem :
      (o : Option Branding) (stored : Option Text)
      → ((b : Branding) → o ≡ some b → IsNormal b)
      → (read_cached_branding stringify parse (kept stringify parse true o stored) ≡ o)
        ⊎ (o ≡ none) × (kept stringify parse true o stored ≡ stored)
  unfolding read_cached_branding
  kept_lem none stored normal = inr (refl, refl)
  kept_lem (some b) stored normal =
      inl (rw (not_empty b, parse_stringify b) (normalize_branding_self b (normal b refl)))

  -- With a storage that is available, what is read after a branding was cached is that branding,
  -- normalised; a branding that does not pass leaves what was stored.
  pub read-cache_branding :
      (v : Value) (stored : Option Text)
      → (read_cached_branding stringify parse (cache_branding stringify parse true v stored)
          ≡ normalize_branding v)
        ⊎ (normalize_branding v ≡ none) × (cache_branding stringify parse true v stored ≡ stored)
  unfolding cache_branding
  read-cache_branding v stored =
      kept_lem (normalize_branding v) stored (normalize_branding-IsNormal v)
