-- ===== src/Settings/Forms.antt =====
-- The sections of the settings with one button (frontend/src/features/settings/settings-page.tsx:
-- `BrandingForm`, `DNSForm`, `CacheForm`) and the badge of every section (`FormCard`).
use cdn_platform.Prelude.{
  ℕ, ◌≡◌, ◌↔◌, refl, Bool, true, false, not, ◌&&◌, ◌||◌, [], ◌∷◌, Option, none, some, Text, codes,
  is_truthy, trim, leb, if◌then◌else◌, ◌===◌, eq_of_===, starts_with, Bool-cases, inl, inr,
}
use cdn_platform.Types.Settings.{Branding, Settings}
use cdn_platform.Branding.{default_branding}
use cdn_platform.Settings.Pending.{source_label}

-- The form of the brand: its fields, and whether it is being saved.
pub record BrandingForm : Type 0 where
  pub name : Text
  pub subtitle : Text
  pub logo_data_url : Text
  pub pending : Bool

unfoldable pub branding_form : Branding → BrandingForm
branding_form b = record {
  name = b.name;
  subtitle = b.subtitle;
  logo_data_url = b.logo_data_url;
  pending = false;
}

-- The effect that runs when other settings arrive.
unfoldable pub branding_arrived : Branding → BrandingForm → BrandingForm
branding_arrived b f = record f {
  name = b.name;
  subtitle = b.subtitle;
  logo_data_url = b.logo_data_url;
}

-- The button that restores the defaults changes the fields only.
unfoldable pub restore_defaults : BrandingForm → BrandingForm
unfolding default_branding branding_arrived
restore_defaults f = if f.pending then f else branding_arrived default_branding f

-- The button that saves: `required` asks for a name that is not empty, the button for more than
-- spaces.
unfoldable pub save_branding : BrandingForm → BrandingForm × Option Branding
unfolding trim
save_branding f = if f.pending || not (is_truthy (trim f.name)) then (f, none) else (
  record f { pending = true },
  some (record { name = f.name; subtitle = f.subtitle; logo_data_url = f.logo_data_url }),
)

-- The end of the request, in the form and in the cached settings; the brand is cached too.
abbrev with_branding : Branding → Option Settings → Option Settings
with_branding b none = none
with_branding b (some settings) = some (record settings { branding = b })

unfoldable pub branding_saved :
    Option Branding → BrandingForm × Option Settings → BrandingForm × Option Settings
branding_saved none (f, settings) = (record f { pending = false }, settings)
branding_saved (some b) (f, settings) = (record f { pending = false }, with_branding b settings)

-- `DNSForm` and `CacheForm`: the number that is sent, which the browser keeps within its bounds.
unfoldable pub save_dns : ℕ → Bool → Option ℕ
save_dns ttl pending = if pending || not (leb 60 ttl && leb ttl 300) then none else some ttl

unfoldable pub save_cache : ℕ → Bool → Option ℕ
save_cache size pending = if pending || not (leb 1 size && leb size 1024) then none else some size

-- `text.includes(part)`
unfoldable pub text_includes : Text → Text → Bool
unfolding starts_with
text_includes part [] = starts_with part []
text_includes part (c ∷ s) = starts_with part (c ∷ s) || text_includes part s

-- The tone of the badge of a section: `pending` where the label speaks of the environment.
unfoldable pub card_tone : Text → Text
unfolding text_includes
card_tone source = if text_includes (codes "环境") source then codes "pending" else codes "succeeded"

other :
    (source : Text)
    → (source === codes "database") ≡ true
    → (source === codes "environment") ≡ false
unfolding ◌===◌
other source e = rw (eq_of_=== source (codes "database") e) refl

-- The badge of a section is that of success for every source but the environment, also where nothing
-- is configured.
pub card_tone-source_label :
    (source : Text)
    → (card_tone (source_label source) ≡ codes "succeeded")
      ↔ ((source === codes "environment") ≡ false)
unfolding card_tone source_label text_includes starts_with
card_tone-source_label source = elim (Bool-cases (source === codes "database")) [
  | inl e ↦ rw e ((λ h. other source e), λ h. refl)
  | inr e ↦ elim (Bool-cases (source === codes "environment")) [
    | inl k ↦ rw (e, k) ((λ h. cc), λ h. cc)
    | inr k ↦ rw (e, k) ((λ h. refl), λ h. refl)
  ]
]
