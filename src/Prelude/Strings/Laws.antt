-- ===== src/Prelude/Strings/Laws.antt =====
-- Laws of the string methods.
use Prim.Native.Nat.{ℕ}
use mathlib.Core.Path.{◌≡◌, refl, ap, ◌∙◌}
use mathlib.Core.Logic.{inl, inr}
use mathlib.Core.Bool.{Bool, true, false}
use mathlib.Core.List.{List, [], ◌∷◌, ◌++◌}
use cdn_platform.Prelude.Tests.{Bool-cases}
use cdn_platform.Prelude.Predicates.{All}
use cdn_platform.Prelude.Strings.{
  Text, is_space, trim_start, trim_end, trim, keep_end, push, split_on,
}

-- The text is empty or begins with no space.
abbrev pub StartsClean : Text → Type 0
StartsClean [] = Unit
StartsClean (c ∷ s) = is_space c ≡ false

trim_start-StartsClean : (s : Text) → StartsClean (trim_start is_space s)
unfolding trim_start
trim_start-StartsClean [] = tt
trim_start-StartsClean (c ∷ s) = elim (Bool-cases (is_space c)) [
  | inl e ↦ rw e (trim_start-StartsClean s)
  | inr e ↦ rw e e
]

keep_end-StartsClean :
    (b : Bool) (c : ℕ) (s : Text) → is_space c ≡ false → StartsClean (keep_end b c s)
keep_end-StartsClean b c (d ∷ s) h = h
keep_end-StartsClean true c [] h = tt
keep_end-StartsClean false c [] h = h

trim_end-StartsClean : (s : Text) → StartsClean s → StartsClean (trim_end is_space s)
unfolding trim_end
trim_end-StartsClean [] h = tt
trim_end-StartsClean (c ∷ s) h = keep_end-StartsClean (is_space c) c (trim_end is_space s) h

trim_start-of-StartsClean : (s : Text) → StartsClean s → trim_start is_space s ≡ s
unfolding trim_start
trim_start-of-StartsClean [] h = refl
trim_start-of-StartsClean (c ∷ s) h = rw h

trim_end-keep_end :
    (c : ℕ) (s : Text)
    → trim_end is_space s ≡ s
    → trim_end is_space (keep_end (is_space c) c s) ≡ keep_end (is_space c) c s
unfolding trim_end
trim_end-keep_end c (d ∷ s) h = rw h
trim_end-keep_end c [] h = elim (Bool-cases (is_space c)) [ inl e ↦ rw e | inr e ↦ rw e (rw e) ]

trim_end-trim_end : (s : Text) → trim_end is_space (trim_end is_space s) ≡ trim_end is_space s
unfolding trim_end
trim_end-trim_end [] = refl
trim_end-trim_end (c ∷ s) = trim_end-keep_end c (trim_end is_space s) (trim_end-trim_end s)

-- Trimming twice is trimming once.
pub trim-trim : (s : Text) → trim (trim s) ≡ trim s
unfolding trim
trim-trim s =
    ap (trim_end is_space)
      (trim_start-of-StartsClean _ (trim_end-StartsClean _ (trim_start-StartsClean s)))
    ∙ trim_end-trim_end (trim_start is_space s)

-- Nothing of a text without spaces is trimmed.
pub trim_end-of-All : (s : Text) → All (λ c. is_space c ≡ false) s → trim_end is_space s ≡ s
unfolding trim_end
trim_end-of-All [] h = refl
trim_end-of-All (c ∷ []) (e, h) = rw e
trim_end-of-All (c ∷ d ∷ s) (e, h) = rw (trim_end-of-All (d ∷ s) h)

pub trim-of-All : (s : Text) → All (λ c. is_space c ≡ false) s → trim s ≡ s
unfolding trim
trim-of-All [] h = refl
trim-of-All (c ∷ s) (e, h) = rw e (trim_end-of-All (c ∷ s) (e, h))

-- What holds of every unit of a text holds of its trimmed form.
module _ {κ} (P : ℕ → Type κ) where
  All-trim_start : (s : Text) → All P s → All P (trim_start is_space s)
  unfolding trim_start
  All-trim_start [] h = tt
  All-trim_start (c ∷ s) (q, h) = elim (Bool-cases (is_space c)) [
    | inl e ↦ rw e (All-trim_start s h)
    | inr e ↦ rw e (q, h)
  ]

  All-keep_end : (b : Bool) (c : ℕ) (s : Text) → P c → All P s → All P (keep_end b c s)
  All-keep_end b c (d ∷ s) q h = (q, h)
  All-keep_end true c [] q h = tt
  All-keep_end false c [] q h = (q, tt)

  All-trim_end : (s : Text) → All P s → All P (trim_end is_space s)
  unfolding trim_end
  All-trim_end [] h = tt
  All-trim_end (c ∷ s) (q, h) =
      All-keep_end (is_space c) c (trim_end is_space s) q (All-trim_end s h)

  pub All-trim : (s : Text) → All P s → All P (trim s)
  unfolding trim
  All-trim s h = All-trim_end (trim_start is_space s) (All-trim_start s h)

module _ (p : ℕ → Bool) where
  -- A text that no separator stands in is one piece.
  pub split_on-of-All : (s : Text) → All (λ c. p c ≡ false) s → split_on p s ≡ s ∷ []
  unfolding split_on
  split_on-of-All [] h = refl
  split_on-of-All (c ∷ s) (e, h) = rw (e, split_on-of-All s h)

  -- A piece ends at the first separator.
  pub split_on-append :
      (s : Text) (c : ℕ) (t : Text)
      → All (λ c. p c ≡ false) s
      → p c ≡ true
      → split_on p (s ++ c ∷ t) ≡ s ∷ split_on p t
  unfolding split_on
  split_on-append [] c t h e = rw e
  split_on-append (d ∷ s) c t (q, h) e = rw (q, split_on-append s c t h e)

  push-free :
      (c : ℕ) (ws : List Text)
      → p c ≡ false
      → All (All (λ c. p c ≡ false)) ws
      → All (All (λ c. p c ≡ false)) (push c ws)
  push-free c [] e h = ((e, tt), tt)
  push-free c (w ∷ ws) e (q, h) = ((e, q), h)

  -- No piece holds a separator.
  pub split_on-free : (s : Text) → All (All (λ c. p c ≡ false)) (split_on p s)
  unfolding split_on
  split_on-free [] = (tt, tt)
  split_on-free (c ∷ s) = elim (Bool-cases (p c)) [
    | inl e ↦ rw e (tt, split_on-free s)
    | inr e ↦ rw e (push-free c (split_on p s) e (split_on-free s))
  ]
