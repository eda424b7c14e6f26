-- ===== src/Prelude/Sorting/Orders.antt =====
-- Comparisons that order: of numbers, through a function, reversed, and one after another.
use mathlib.Core.Path.{◌≡◌, refl, ap}
use mathlib.Core.Bool.{true}
use native.Mathlib.Omega.{arith}
use cdn_platform.Prelude.Sorting.{
  Sign, negative, neutral, positive, Comparison, opposite, ◌or_sign◌, difference, in_order,
}

-- A total preorder, which `sort` asks of its comparison.
pub record IsPreorder {ℓ} {A : Type ℓ} (c : Comparison A) : Type ℓ where
  pub flips : (x y : A) → c y x ≡ opposite (c x y)
  pub trans :
      (x y z : A) → in_order (c x y) ≡ true → in_order (c y z) ≡ true → in_order (c x z) ≡ true

pub difference-IsPreorder : IsPreorder difference
difference-IsPreorder = record { flips = λ x y. ground arith; trans = λ x y z h k. ground arith }

module _ {ℓ κ} {A : Type ℓ} {B : Type κ} where
  pub through-IsPreorder :
      (f : B → A) (c : Comparison A) → IsPreorder c → IsPreorder (λ x y. c (f x) (f y))
  through-IsPreorder f c h = record {
    flips = λ x y. h.flips (f x) (f y);
    trans = λ x y z. h.trans (f x) (f y) (f z);
  }

-- The signs of one comparison on three elements, and of the one that breaks its ties.
chain :
    (xy yz xz xy' yz' xz' : Sign)
    → (in_order xy ≡ true → in_order yz ≡ true → in_order xz ≡ true)
    → (in_order yz ≡ true → in_order (opposite xz) ≡ true → in_order (opposite xy) ≡ true)
    → (in_order (opposite xz) ≡ true → in_order xy ≡ true → in_order (opposite yz) ≡ true)
    → (in_order xy' ≡ true → in_order yz' ≡ true → in_order xz' ≡ true)
    → in_order (xy or_sign xy') ≡ true
    → in_order (yz or_sign yz') ≡ true
    → in_order (xz or_sign xz') ≡ true
chain positive yz xz a b c' h1 h2 h3 h4 p q = cc
chain xy positive xz a b c' h1 h2 h3 h4 p q = cc
chain xy yz negative a b c' h1 h2 h3 h4 p q = refl
chain negative negative positive a b c' h1 h2 h3 h4 p q = h1 refl refl
chain negative neutral positive a b c' h1 h2 h3 h4 p q = h1 refl refl
chain neutral negative positive a b c' h1 h2 h3 h4 p q = h1 refl refl
chain neutral neutral positive a b c' h1 h2 h3 h4 p q = h1 refl refl
chain negative negative neutral a b c' h1 h2 h3 h4 p q = absurd (cc (h2 refl refl))
chain negative neutral neutral a b c' h1 h2 h3 h4 p q = absurd (cc (h2 refl refl))
chain neutral negative neutral a b c' h1 h2 h3 h4 p q = absurd (cc (h3 refl refl))
chain neutral neutral neutral a b c' h1 h2 h3 h4 p q = h4 p q

module _ {ℓ} {A : Type ℓ} where
  in_order-back :
      (c : Comparison A)
      → IsPreorder c
      → (x y : A) → in_order (opposite (c x y)) ≡ true
      → in_order (c y x) ≡ true
  in_order-back c h x y e = rw (h.flips x y) e

  pub opposite-IsPreorder : (c : Comparison A) → IsPreorder c → IsPreorder (λ x y. opposite (c x y))
  opposite-IsPreorder c h = record {
    flips = λ x y. ap opposite (h.flips x y);
    trans = λ x y z xy yz.
        rw⁻¹ (h.flips x z) (h.trans z y x (in_order-back c h y z yz) (in_order-back c h x y xy));
  }

  pub or_sign-IsPreorder :
      (c d : Comparison A) → IsPreorder c → IsPreorder d → IsPreorder (λ x y. c x y or_sign d x y)
  or_sign-IsPreorder c d hc hd = record {
    flips = λ x y. rw (hc.flips x y, hd.flips x y) (turned (c x y) (d x y));
    trans = λ x y z.
        chain (c x y) (c y z) (c x z) (d x y) (d y z) (d x z) (hc.trans x y z)
          (λ yz zx. rw⁻¹ (hc.flips x y) (hc.trans y z x yz (rw (hc.flips x z) zx)))
          (λ zx xy. rw⁻¹ (hc.flips y z) (hc.trans z x y (rw (hc.flips x z) zx) xy))
          (hd.trans x y z);
  }
    where
      turned : (s t : Sign) → (opposite s or_sign opposite t) ≡ opposite (s or_sign t)
      turned negative t = refl
      turned neutral t = refl
      turned positive t = refl
