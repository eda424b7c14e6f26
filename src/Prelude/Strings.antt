-- ===== src/Prelude/Strings.antt =====
-- Text as JavaScript holds it, a sequence of UTF-16 code units, and the string methods used.
pub mod Laws
use Prim.Native.Nat.{ℕ, zero, suc, ◌+◌, ◌-◌, ◌≤◌}
use Prim.Native.Char.{code}
use Prim.Native.String.{String}
use mathlib.Core.Path.{◌≡◌, refl, ap}
use mathlib.Core.Logic.{◌↔◌}
use mathlib.Core.Bool.{Bool, true, false, ◌&&◌, ◌||◌}
use mathlib.Core.List.{List, [], ◌∷◌, ◌++◌, map}
use mathlib.Core.Option.{Option, none, some}
use native.Mathlib.Omega.{arith}
use cdn_platform.Prelude.Tests.{leb, ◌==◌, if◌then◌else◌, ==_iff}

abbrev pub Text : Type 0
Text = List ℕ

-- A literal of the source. All of its literals lie in the basic plane.
abbrev pub codes : String → Text
codes String.[] = []
codes (String.◌∷◌ c s) = code c ∷ codes s

infix 50 ◌===◌
unfoldable pub ◌===◌ : Text → Text → Bool
[] === [] = true
[] === (y ∷ t) = false
(x ∷ s) === [] = false
(x ∷ s) === (y ∷ t) = x == y && (s === t)

pub eq_of_=== : (s t : Text) → (s === t) ≡ true → s ≡ t
unfolding ◌===◌
eq_of_=== [] [] h = refl
eq_of_=== [] (y ∷ t) h = cc
eq_of_=== (x ∷ s) [] h = cc
eq_of_=== (x ∷ s) (y ∷ t) h = ground (arith, eq_of_=== s t)

pub ===-self : (s : Text) → (s === s) ≡ true
unfolding ◌===◌
===-self [] = refl
===-self (x ∷ s) = ground (arith, ===-self s)

pub ===_iff : (s t : Text) → ((s === t) ≡ true) ↔ (s ≡ t)
===_iff s t = (eq_of_=== s t, λ e. rw e (===-self t))

-- `Boolean(s)`: the empty text is falsy.
abbrev pub is_truthy : Text → Bool
is_truthy [] = false
is_truthy (x ∷ s) = true

infixr 30 ◌or_text◌
-- `s || d` on texts.
abbrev pub ◌or_text◌ : Text → Text → Text
[] or_text d = d
(x ∷ s) or_text d = x ∷ s

-- White space and line terminators, as `trim` removes them.
abbrev pub is_space : ℕ → Bool
is_space c =
    leb 9 c && leb c 13
    || c == 32
    || c == 160
    || c == 5760
    || leb 8192 c && leb c 8202
    || c == 8232
    || c == 8233
    || c == 8239
    || c == 8287
    || c == 12288
    || c == 65279

unfoldable pub trim_start : (ℕ → Bool) → Text → Text
trim_start space [] = []
trim_start space (c ∷ s) = let rest = trim_start space s in if space c then rest else c ∷ s

abbrev keep_end : Bool → ℕ → Text → Text
keep_end space c (d ∷ s) = c ∷ d ∷ s
keep_end true c [] = []
keep_end false c [] = c ∷ []

unfoldable pub trim_end : (ℕ → Bool) → Text → Text
trim_end space [] = []
trim_end space (c ∷ s) = keep_end (space c) c (trim_end space s)

-- A text without the spaces at its two ends, for a notion of space.
unfoldable pub trim_by : (ℕ → Bool) → Text → Text
unfolding trim_start trim_end
trim_by space s = trim_end space (trim_start space s)

-- `s.trim()`
unfoldable pub trim : Text → Text
unfolding trim_by
trim s = trim_by is_space s

-- `s.startsWith(prefix)`
unfoldable pub starts_with : Text → Text → Bool
starts_with [] s = true
starts_with (c ∷ p) [] = false
starts_with (c ∷ p) (d ∷ s) = c == d && starts_with p s

-- Lower case of the ASCII letters, which is how an ASCII pattern with the flag `i` compares.
abbrev pub fold_case : ℕ → ℕ
fold_case c = if leb b'A' c && leb c b'Z' then c + 32 else c

-- `/^prefix/i.test(s)` for a lower-case ASCII prefix with no special character.
unfoldable pub starts_with_ignoring_case : Text → Text → Bool
unfolding starts_with
starts_with_ignoring_case p s = starts_with p (map fold_case s)

-- `parts.join(separator)`
unfoldable pub join : Text → List Text → Text
join sep [] = []
join sep (w ∷ []) = w
join sep (w ∷ v ∷ ws) = w ++ (sep ++ join sep (v ∷ ws))

abbrev push : ℕ → List Text → List Text
push c [] = (c ∷ []) ∷ []
push c (w ∷ ws) = (c ∷ w) ∷ ws

-- `s.split(/[…]/)` at every unit that passes the test.
unfoldable pub split_on : (ℕ → Bool) → Text → List Text
split_on p [] = [] ∷ []
split_on p (c ∷ s) = let rest = split_on p s in if p c then [] ∷ rest else push c rest

-- `s.includes(part)` for a list of texts.
unfoldable pub includes : List Text → Text → Bool
unfolding ◌===◌
includes [] t = false
includes (s ∷ ss) t = (s === t) || includes ss t
