-- ===== src/Settings/Logo.antt =====
-- The logo that the form accepts and the one that the browser keeps
-- (frontend/src/features/settings/settings-page.tsx, frontend/src/hooks/use-branding.ts).
use cdn_platform.Prelude.{
  ℕ, ◌+◌, ◌*◌, ◌≤◌, ◌≡◌, ◌⊎◌, inl, inr, refl, Bool, true, false, not, ◌&&◌, List, [], ◌∷◌, ◌++◌,
  Text, codes, ◌===◌, ===_iff, ltb, leb, length, length-append, arith, if◌then◌else◌,
}
use cdn_platform.Branding.{Field, is_logo, logo_of, png_prefix, jpeg_prefix, max_cached_logo_length}
use cdn_platform.Settings.{
  File, LogoResult, base64, data_url, read_brand_logo, max_brand_logo_bytes,
}

length-base64 : (bs : List ℕ) → 3 * length (base64 bs) ≤ 4 * (length bs + 2)
unfolding base64
length-base64 [] = omega arith
length-base64 (a ∷ []) = omega arith
length-base64 (a ∷ b ∷ []) = omega arith
length-base64 (a ∷ b ∷ c ∷ s) = omega (arith, length-base64 s)

-- The two tests of a file, apart from what they are about.
result_parts :
    (png jpeg large : Bool) (m n u v : Text)
    → (if not png && not jpeg
        then LogoResult.rejected m
        else if large
        then LogoResult.rejected n
        else LogoResult.resolved u)
      ≡ LogoResult.resolved v
    → ((png ≡ true) ⊎ (jpeg ≡ true)) × (large ≡ false) × (u ≡ v)
result_parts true jpeg true m n u v e = cc
result_parts true jpeg false m n u v e = (inl refl, refl, cc)
result_parts false true true m n u v e = cc
result_parts false true false m n u v e = (inr refl, refl, cc)
result_parts false false large m n u v e = cc

le_of_not_ltb : (a b : ℕ) → ltb a b ≡ false → b ≤ a
le_of_not_ltb a b h = ground arith

leb_of_le : (a b : ℕ) → a ≤ b → (leb a b && true) ≡ true
leb_of_le a b h = ground arith

-- What it takes to be accepted.
accepted :
    (file : File) (url : Text)
    → read_brand_logo file ≡ LogoResult.resolved url
    → ((file.type ≡ codes "image/png") ⊎ (file.type ≡ codes "image/jpeg"))
      × (length file.bytes ≤ max_brand_logo_bytes)
      × (data_url file ≡ url)
unfolding read_brand_logo
accepted file url e =
    let (type, small, same) =
      result_parts (file.type === codes "image/png") (file.type === codes "image/jpeg")
        (ltb max_brand_logo_bytes (length file.bytes)) _ _ (data_url file) url e in
    (named type, le_of_not_ltb max_brand_logo_bytes (length file.bytes) small, same)
  where
    named :
        ((file.type === codes "image/png") ≡ true) ⊎ ((file.type === codes "image/jpeg") ≡ true)
        → (file.type ≡ codes "image/png") ⊎ (file.type ≡ codes "image/jpeg")
    named (inl png) = inl ((===_iff file.type (codes "image/png")).0 png)
    named (inr jpeg) = inr ((===_iff file.type (codes "image/jpeg")).0 jpeg)

short :
    (prefix : Text) (bs : List ℕ)
    → length prefix ≤ 23
    → length bs ≤ max_brand_logo_bytes
    → (leb (length (prefix ++ base64 bs)) max_cached_logo_length && true) ≡ true
short prefix bs hp hb =
    leb_of_le (length (prefix ++ base64 bs)) max_cached_logo_length
      (omega (arith, length-append prefix (base64 bs), length-base64 bs))

url_is_logo :
    (file : File)
    → (file.type ≡ codes "image/png") ⊎ (file.type ≡ codes "image/jpeg")
    → length file.bytes ≤ max_brand_logo_bytes
    → is_logo (data_url file) ≡ true
unfolding is_logo data_url
url_is_logo file (inl png) small = rw png (short png_prefix file.bytes (omega arith) small)
url_is_logo file (inr jpeg) small = rw jpeg (short jpeg_prefix file.bytes (omega arith) small)

-- Every image that the settings form accepts, of up to 128 KiB, is short enough as a data URL for
-- the browser's copy of the branding, which keeps it unchanged.
pub logo_of-read_brand_logo :
    (file : File) (url : Text)
    → read_brand_logo file ≡ LogoResult.resolved url
    → (is_logo url ≡ true) × (logo_of (Field.string url) ≡ url)
unfolding logo_of
logo_of-read_brand_logo file url e =
    let (type, small, same) = accepted file url e in
    let kept : is_logo url ≡ true = rw⁻¹ same (url_is_logo file type small) in (kept, rw kept refl)
