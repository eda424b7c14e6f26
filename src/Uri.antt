-- ===== src/Uri.antt =====
-- `encodeURIComponent` of the source's language, which every path of a request and of a page uses.
pub mod Segment
use cdn_platform.Prelude.{
  ℕ, ◌+◌, ◌-◌, ◌*◌, ◌/◌, ◌%◌, Bool, true, false, ◌&&◌, ◌||◌, List, [], ◌∷◌, ◌++◌, Option, none,
  some, Text, ltb, leb, ◌==◌, if◌then◌else◌,
}

-- Letters, digits and - _ . ! ~ * ' ( )
abbrev pub is_unreserved : ℕ → Bool
is_unreserved c =
    leb 65 c && leb c 90
    || leb 97 c && leb c 122
    || leb 48 c && leb c 57
    || c == 45
    || c == 95
    || c == 46
    || c == 33
    || c == 126
    || leb 39 c && leb c 42

abbrev pub is_high : ℕ → Bool
is_high c = leb 55296 c && leb c 56319

abbrev pub is_low : ℕ → Bool
is_low c = leb 56320 c && leb c 57343

abbrev pub hex : ℕ → ℕ
hex n = if ltb n 10 then 48 + n else 55 + n

abbrev pub percent : ℕ → Text
percent b = 37 ∷ hex (b / 16) ∷ hex (b % 16) ∷ []

-- A code point in UTF-8, each byte percent-encoded.
abbrev pub escape : ℕ → Text
escape p =
    if ltb p 128
    then percent p
    else if ltb p 2048
    then percent (192 + p / 64) ++ percent (128 + p % 64)
    else if ltb p 65536
    then percent (224 + p / 4096) ++ (percent (128 + p / 64 % 64) ++ percent (128 + p % 64))
    else percent (240 + p / 262144)
      ++ (percent (128 + p / 4096 % 64) ++ (percent (128 + p / 64 % 64) ++ percent (128 + p % 64)))

abbrev pub before : Text → Option Text → Option Text
before s none = none
before s (some t) = some (s ++ t)

-- The rest of a text after the first half of a surrogate pair, if one is open. A half without its
-- other half throws.
unfoldable pub encode_from : Option ℕ → Text → Option Text
encode_from none [] = some []
encode_from (some h) [] = none
encode_from none (c ∷ s) = elim (is_high c) [
  | true ↦ encode_from (some c) s
  | false ↦ elim (is_low c) [
    | true ↦ none
    | false ↦ before (if is_unreserved c then c ∷ [] else escape c) (encode_from none s)
  ]
]
encode_from (some h) (d ∷ s) = elim (is_low d) [
  | true ↦ before (escape (65536 + (h - 55296) * 1024 + (d - 56320))) (encode_from none s)
  | false ↦ none
]

unfoldable pub encode_uri_component : Text → Option Text
unfolding encode_from
encode_uri_component s = encode_from none s
