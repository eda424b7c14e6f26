-- ===== src/Branding.antt =====
-- The branding that the browser keeps (frontend/src/hooks/use-branding.ts), and the title and icon
-- made of it (frontend/src/components/branding-sync.tsx).
pub mod Cache
mod Tests
use cdn_platform.Prelude.{
  ℕ, Bool, true, false, ◌&&◌, ◌||◌, List, [], ◌∷◌, ◌++◌, Option, none, some, Text, codes, trim,
  is_truthy, starts_with, leb, length, if◌then◌else◌, ◌or◌,
}
use cdn_platform.Types.Settings.{Branding}

unfoldable pub default_branding : Branding
default_branding = record { name = codes "simple_cdn"; subtitle = codes "控制面板"; logo_data_url = [] }

abbrev pub max_cached_logo_length : ℕ
max_cached_logo_length = 180000

-- A field of a parsed value, and a parsed value, as `typeof` tells them apart. An array is an
-- object that has none of the fields.
pub data Field : Type 0 where
  string : Text → Field
  not_string : Field

pub data Value : Type 0 where
  object : (name subtitle logo_data_url : Field) → Value
  not_object : Value

abbrev pub png_prefix : Text
png_prefix = codes "data:image/png;base64,"

abbrev pub jpeg_prefix : Text
jpeg_prefix = codes "data:image/jpeg;base64,"

unfoldable pub is_logo : Text → Bool
unfolding starts_with
is_logo url =
    leb (length url) max_cached_logo_length
    && (starts_with png_prefix url || starts_with jpeg_prefix url)

unfoldable pub logo_of : Field → Text
unfolding is_logo
logo_of (Field.string url) = if is_logo url then url else []
logo_of Field.not_string = []

-- `normalizeBranding`
unfoldable pub normalize_branding : Value → Option Branding
unfolding trim logo_of
normalize_branding (Value.object (Field.string name) (Field.string subtitle) logo) =
    if is_truthy (trim name)
    then some (record { name = trim name; subtitle = trim subtitle; logo_data_url = logo_of logo })
    else none
normalize_branding _ = none

abbrev pub value_of : Branding → Value
value_of b =
    Value.object (Field.string b.name) (Field.string b.subtitle) (Field.string b.logo_data_url)

-- JSON.stringify, and JSON.parse where it does not throw.
module _ (stringify : Branding → Text) (parse : Text → Option Value) where
  abbrev pub kept : Bool → Option Branding → Option Text → Option Text
  kept available none stored = stored
  kept true (some normalized) stored = some (stringify normalized)
  kept false (some normalized) stored = stored

  -- `cacheBranding` on the item that the storage holds. A storage that is not available keeps it.
  unfoldable pub cache_branding : Bool → Value → Option Text → Option Text
  unfolding normalize_branding
  cache_branding available branding stored = kept available (normalize_branding branding) stored

  abbrev parsed : Option Value → Option Branding
  parsed none = none
  parsed (some value) = normalize_branding value

  -- `readCachedBranding`
  unfoldable pub read_cached_branding : Option Text → Option Branding
  unfolding normalize_branding
  read_cached_branding none = none
  read_cached_branding (some stored) = if is_truthy stored then parsed (parse stored) else none

-- `BrandingSync`: the branding that is shown, the document's title and its icon.
unfoldable pub shown_branding : Option Branding → Option Branding → Branding
shown_branding cached fetched = cached or (fetched or default_branding)

unfoldable pub document_title : Branding → Text
document_title b = if is_truthy b.subtitle then b.name ++ (codes " · " ++ b.subtitle) else b.name

pub record Favicon : Type 0 where
  pub type : Text
  pub href : Text

unfoldable pub favicon : Branding → Option Favicon
unfolding starts_with
favicon b =
    if is_truthy b.logo_data_url
    then some (record {
      type =
          if starts_with (codes "data:image/png") b.logo_data_url
          then codes "image/png"
          else codes "image/jpeg";
      href = b.logo_data_url;
    })
    else none
