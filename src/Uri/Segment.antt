-- ===== src/Uri/Segment.antt =====
-- An encoded text is one segment of a path: it holds no slash, no question mark and no number sign.
use cdn_platform.Prelude.{
  ℕ, ◌+◌, ◌*◌, ◌/◌, ◌%◌, ◌<◌, ◌≤◌, ◌-◌, ◌≡◌, refl, Bool, true, false, ◌||◌, [], ◌∷◌, ◌++◌, Option,
  none, some, Text, All, All-append, arith, ◌==◌, Bool-cases, inl, inr, if◌then◌else◌, ltb, ltb→lt,
}
use cdn_platform.Uri.{
  is_high, is_low, is_unreserved, hex, percent, escape, before, encode_from, encode_uri_component,
}

abbrev pub is_segment_unit : ℕ → Bool
is_segment_unit c = is_unreserved c || c == 37

abbrev pub IsSegment : Text → Type 0
IsSegment s = All (λ c. is_segment_unit c ≡ true) s

hex_lem : (n : ℕ) → n < 16 → is_segment_unit (hex n) ≡ true
hex_lem n h = ground arith

percent_lem : (b : ℕ) → b < 256 → IsSegment (percent b)
percent_lem b h = (refl, (hex_lem (b / 16) (omega arith), (hex_lem (b % 16) (omega arith), tt)))

joined : (s t : Text) → IsSegment s → IsSegment t → IsSegment (s ++ t)
joined s t hs ht = All-append (λ c. is_segment_unit c ≡ true) s t hs ht

lead : (b : ℕ) (t : Text) → b < 256 → IsSegment t → IsSegment (percent b ++ t)
lead b t h = joined (percent b) t (percent_lem b h)

either-IsSegment :
    (b : Bool) (s t : Text)
    → (b ≡ true → IsSegment s)
    → IsSegment t
    → IsSegment (if b then s else t)
either-IsSegment true s t hs ht = hs refl
either-IsSegment false s t hs ht = ht

-- Every code point, of one to four bytes.
escape_lem : (p : ℕ) → p < 1114112 → IsSegment (escape p)
escape_lem p h =
    let one = percent (128 + p % 64) in
    let two = percent (128 + p / 64 % 64) ++ one in
    let three = percent (128 + p / 4096 % 64) ++ two in
    let last = percent_lem (128 + p % 64) (omega arith) in
    let last_two = lead (128 + p / 64 % 64) one (omega arith) last in
    either-IsSegment (ltb p 128) _ _ (λ e. percent_lem p (omega (arith, ltb→lt p 128 e)))
      (either-IsSegment (ltb p 2048) _ _
        (λ e. lead (192 + p / 64) one (omega (arith, ltb→lt p 2048 e)) last)
        (either-IsSegment (ltb p 65536) _ _
          (λ e. lead (224 + p / 4096) two (omega (arith, ltb→lt p 65536 e)) last_two)
          (lead (240 + p / 262144) three (omega arith)
            (lead (128 + p / 4096 % 64) two (omega arith) last_two))))

before-IsSegment :
    (s : Text) (o : Option Text)
    → IsSegment s
    → ((u : Text) → o ≡ some u → IsSegment u)
    → (u : Text) → before s o ≡ some u
    → IsSegment u
before-IsSegment s none hs ho u e = cc
before-IsSegment s (some t) hs ho u e =
    let same : (s ++ t) ≡ u = cc in rw⁻¹ same (joined s t hs (ho t refl))

-- A code unit, alone or after the first half of a pair.
unit_lem : (c : ℕ) → c < 65536 → IsSegment (if is_unreserved c then c ∷ [] else escape c)
unit_lem c h =
    either-IsSegment (is_unreserved c) _ _ (λ e. (ground arith, tt)) (escape_lem c (omega arith))

encode_from-IsSegment :
    (pending : Option ℕ) (s : Text)
    → ((h : ℕ) → pending ≡ some h → h < 56320)
    → All (λ c. c < 65536) s
    → (u : Text) → encode_from pending s ≡ some u
    → IsSegment u
unfolding encode_from
encode_from-IsSegment none [] hp hs u e = let empty : [] ≡ u = cc in rw⁻¹ empty tt
encode_from-IsSegment (some h) [] hp hs u e = cc
encode_from-IsSegment none (c ∷ s) hp (hc, hs) u e = elim (Bool-cases (is_high c)) [
  | inl high ↦
      let first : c < 56320 = ground arith in
      encode_from-IsSegment (some c) s (λ h same. let here : c ≡ h = cc in omega arith) hs u
        (rw (encode_from, high) at e)
  | inr other ↦ elim (Bool-cases (is_low c)) [
    | inl low ↦ absurd (cc (rw (encode_from, other, low) at e))
    | inr unit ↦
        before-IsSegment (if is_unreserved c then c ∷ [] else escape c) (encode_from none s)
          (unit_lem c hc) (encode_from-IsSegment none s (λ k. cc) hs) u
          (rw (encode_from, other, unit) at e)
  ]
]
encode_from-IsSegment (some h) (d ∷ s) hp (hd, hs) u e = elim (Bool-cases (is_low d)) [
  | inl low ↦
      let first : h < 56320 = hp h refl in
      let second : d ≤ 57343 = ground arith in
      before-IsSegment (escape (65536 + (h - 55296) * 1024 + (d - 56320))) (encode_from none s)
        (escape_lem (65536 + (h - 55296) * 1024 + (d - 56320)) (omega arith))
        (encode_from-IsSegment none s (λ k. cc) hs) u (rw (encode_from, low) at e)
  | inr other ↦ absurd (cc (rw (encode_from, other) at e))
]

-- What `encodeURIComponent` gives for a text of code units is one segment of a path: it holds only
-- unreserved characters and percent signs, so no slash, question mark or number sign.
pub encode_uri_component-IsSegment :
    (s u : Text) → All (λ c. c < 65536) s → encode_uri_component s ≡ some u → IsSegment u
unfolding encode_uri_component
encode_uri_component-IsSegment s u hs e = encode_from-IsSegment none s (λ h. cc) hs u e
