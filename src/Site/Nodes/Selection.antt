-- ===== src/Site/Nodes/Selection.antt =====
-- The selection as a set of nodes (frontend/src/features/sites/site-detail-page.tsx).
use cdn_platform.Prelude.{
  ◌≡◌, ◌≢◌, refl, ap, ◌∙◌, Bool, true, false, not, ◌||◌, ◌&&◌, List, [], ◌∷◌, ◌++◌, filter,
  includes, Text, ◌===◌, ===_iff, ===-self, All, Distinct, arith, if◌then◌else◌, Bool-cases, inl,
  inr, All-append, All-filter,
}
use cdn_platform.Site.Nodes.{toggle_node}

includes-append :
    (ss : List Text) (s t : Text) → includes (ss ++ s ∷ []) t ≡ (includes ss t || (s === t))
unfolding includes
includes-append [] s t = ground arith
includes-append (r ∷ ss) s t = ground (arith, includes-append ss s t)

includes-filter :
    (ss : List Text) (s t : Text)
    → includes (filter (λ o. not (o === s)) ss) t ≡ (includes ss t && not (s === t))
unfolding includes
includes-filter [] s t = refl
includes-filter (r ∷ ss) s t =
    ground (arith, includes-filter ss s t, ===_iff r s, ===_iff r t, ===_iff s t)

-- A checkbox changes the node that it stands for, to the value that it shows, and no other.
pub includes-toggle_node :
    (id other : Text) (value : Bool) (selected : List Text)
    → includes (toggle_node id value selected) other
      ≡ (if id === other then value else includes selected other)
unfolding toggle_node
includes-toggle_node id other true selected = ground (arith, includes-append selected id other)
includes-toggle_node id other false selected = ground (arith, includes-filter selected id other)

not_included : (ss : List Text) (s : Text) → includes ss s ≡ false → All (λ t. t ≢ s) ss
unfolding includes
not_included [] s h = tt
not_included (t ∷ ss) s h = ((λ e. cc (h, (===_iff t s).1 e)), not_included ss s (ground arith))

Distinct-append :
    (ss : List Text) (s : Text) → Distinct ss → All (λ t. t ≢ s) ss → Distinct (ss ++ s ∷ [])
Distinct-append [] s d h = (tt, tt)
Distinct-append (t ∷ ss) s (dt, d) (ne, h) =
    (All-append _ ss (s ∷ []) dt (ne, tt), Distinct-append ss s d h)

Distinct-filter : (p : Text → Bool) (ss : List Text) → Distinct ss → Distinct (filter p ss)
Distinct-filter p [] d = tt
Distinct-filter p (s ∷ ss) (ds, d) = elim (Bool-cases (p s)) [
  | inl e ↦ rw e (All-filter _ p ss ds, Distinct-filter p ss d)
  | inr e ↦ rw e (Distinct-filter p ss d)
]

-- The checkbox of a node is shown checked exactly when the selection includes the node, so a click
-- passes the opposite value.
pub click : Text → List Text → List Text
unfolding toggle_node includes
click id selected = toggle_node id (not (includes selected id)) selected

abbrev pub clicks : List Text → List Text → List Text
clicks [] selected = selected
clicks (id ∷ ids) selected = clicks ids (click id selected)

click-Distinct :
    (id : Text) (selected : List Text) → Distinct selected → Distinct (click id selected)
unfolding click
click-Distinct id selected d = elim (Bool-cases (includes selected id)) [
  | inl e ↦ rw e (Distinct-filter _ selected d)
  | inr e ↦ rw e (Distinct-append selected id d (not_included selected id e))
]

-- A sequence of clicks on the boxes never selects a node twice, if none was at first.
pub clicks-Distinct :
    (ids selected : List Text) → Distinct selected → Distinct (clicks ids selected)
clicks-Distinct [] selected d = d
clicks-Distinct (id ∷ ids) selected d =
    clicks-Distinct ids (click id selected) (click-Distinct id selected d)

filter_absent :
    (ss : List Text) (s : Text)
    → includes ss s ≡ false
    → filter (λ o. not (o === s)) (ss ++ s ∷ []) ≡ ss
unfolding includes
filter_absent [] s h = rw (===-self s)
filter_absent (t ∷ ss) s h =
    let other : (t === s) ≡ false = ground arith in
    let rest : includes ss s ≡ false = ground arith in
    rw other (ap (t ∷◌) (filter_absent ss s rest))

-- A second click takes the first one back, order included, on a node that was not selected.
pub click-click :
    (id : Text) (selected : List Text)
    → includes selected id ≡ false
    → click id (click id selected) ≡ selected
unfolding click
click-click id selected h =
    let now : includes (selected ++ id ∷ []) id ≡ true =
      includes-append selected id id ∙ ground (arith, ===-self id) in
    rw h (rw now (filter_absent selected id h))
