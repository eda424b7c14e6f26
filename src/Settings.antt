-- ===== src/Settings.antt =====
-- The settings (frontend/src/features/settings/settings-page.tsx): the image of the console's brand.
pub mod Logo
pub mod Pending
pub mod Cloudflare
pub mod Forms
pub mod Smtp
pub mod Backup
mod Tests
use cdn_platform.Prelude.{
  ℕ, ◌+◌, ◌*◌, ◌/◌, ◌%◌, ◌-◌, ◌==◌, Bool, true, false, not, ◌&&◌, List, [], ◌∷◌, ◌++◌, Text, codes,
  ◌===◌, ltb, length, if◌then◌else◌,
}

-- A chosen file, by its bytes.
pub record File : Type 0 where
  pub type : Text
  pub bytes : List ℕ

abbrev pub max_brand_logo_bytes : ℕ
max_brand_logo_bytes = 131072

abbrev digit : ℕ → ℕ
digit n =
    if ltb n 26
    then 65 + n
    else if ltb n 52
    then 71 + n
    else if ltb n 62
    then n - 4
    else if n == 62
    then 43
    else 47

-- Three bytes are four digits; the last one or two bytes are filled up with equality signs.
unfoldable pub base64 : List ℕ → Text
base64 [] = []
base64 (a ∷ []) = digit (a / 4) ∷ digit (a % 4 * 16) ∷ 61 ∷ 61 ∷ []
base64 (a ∷ b ∷ []) = digit (a / 4) ∷ digit (a % 4 * 16 + b / 16) ∷ digit (b % 16 * 4) ∷ 61 ∷ []
base64 (a ∷ b ∷ c ∷ s) =
    digit (a / 4)
    ∷ digit (a % 4 * 16 + b / 16)
    ∷ digit (b % 16 * 4 + c / 64)
    ∷ digit (c % 64)
    ∷ base64 s

-- `readAsDataURL`, as the platform documents it.
unfoldable pub data_url : File → Text
unfolding base64
data_url file = codes "data:" ++ (file.type ++ (codes ";base64," ++ base64 file.bytes))

pub data LogoResult : Type 0 where
  resolved : Text → LogoResult
  rejected : (message : Text) → LogoResult

-- `readBrandLogo`, for a file that can be read.
unfoldable pub read_brand_logo : File → LogoResult
unfolding data_url ◌===◌
read_brand_logo file =
    if not (file.type === codes "image/png") && not (file.type === codes "image/jpeg")
    then LogoResult.rejected (codes "Logo 仅支持 PNG 或 JPEG 图片")
    else if ltb max_brand_logo_bytes (length file.bytes)
    then LogoResult.rejected (codes "Logo 图片不能超过 128 KiB")
    else LogoResult.resolved (data_url file)
