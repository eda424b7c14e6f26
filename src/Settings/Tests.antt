-- ===== src/Settings/Tests.antt =====
-- A small image.
use cdn_platform.Prelude.{◌≡◌, refl, [], ◌∷◌, Text, codes}
use cdn_platform.Settings.{File, LogoResult, base64, data_url, read_brand_logo}

abbrev image : File
image = record { type = codes "image/png"; bytes = 137 ∷ 80 ∷ 78 ∷ 71 ∷ [] }

abbrev image_url : Text
image_url = codes "data:image/png;base64,iVBORw=="

reads : read_brand_logo image ≡ LogoResult.resolved image_url
unfolding read_brand_logo data_url base64
reads = refl
