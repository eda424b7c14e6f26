-- ===== src/Pagination/Clicks.antt =====
-- A session of button clicks and list changes (frontend/src/components/list-pagination.tsx).
use cdn_platform.Prelude.{ℕ, ◌+◌, ◌≤◌, ◌≡◌, ◌⊎◌, Bool, true, false, List, arith}
use cdn_platform.Pagination.{list_pagination, next_disabled, click_previous, click_next}

module _ {ℓ} {A : Type ℓ} (size : ℕ) where
  -- The list that is shown and the requested page. The list is replaced from outside at any time.
  pub data Step : List A × ℕ → List A × ℕ → Type ℓ where
    previous : (d : Bool) (xs : List A) (r : ℕ) → Step (xs, r) (xs, click_previous d xs size r)
    next : (d : Bool) (xs : List A) (r : ℕ) → Step (xs, r) (xs, click_next d xs size r)
    replace : (xs ys : List A) (r : ℕ) → Step (xs, r) (ys, r)

  pub data Reach : List A × ℕ → List A × ℕ → Type ℓ where
    here : (s : List A × ℕ) → Reach s s
    then_step : {s t u : List A × ℕ} → Reach s t → Step t u → Reach s u

  Step-pos : {s t : List A × ℕ} → Step s t → 1 ≤ s.1 → 1 ≤ t.1
  unfolding click_previous click_next
  Step-pos (previous d xs r) h = ground arith
  Step-pos (next d xs r) h = ground arith
  Step-pos (replace xs ys r) h = h

  -- From a requested page that is at least 1, as the hook's first is, no sequence of clicks and list
  -- changes makes the requested page 0.
  pub Reach-pos : {s t : List A × ℕ} → Reach s t → 1 ≤ s.1 → 1 ≤ t.1
  Reach-pos (here s) h = h
  Reach-pos (then_step r st) h = Step-pos st (Reach-pos r h)

  -- An enabled button moves the shown page by one, a disabled one leaves it.
  pub click_next_lem :
      (d : Bool) (xs : List A) (r : ℕ)
      → 1 ≤ r
      → (next_disabled d (list_pagination xs size r) ≡ true)
          × ((list_pagination xs size (click_next d xs size r)).page
              ≡ (list_pagination xs size r).page)
        ⊎ (next_disabled d (list_pagination xs size r) ≡ false)
          × ((list_pagination xs size (click_next d xs size r)).page
              ≡ (list_pagination xs size r).page + 1)
  unfolding click_next list_pagination
  click_next_lem d xs r h = ground arith

  -- Where there is a next page, a click on next and one on previous show the same page as before,
  -- for a requested page that is at least 1.
  pub click_previous-click_next :
      (xs : List A) (r : ℕ)
      → 1 ≤ r
      → next_disabled false (list_pagination xs size r) ≡ false
      → (list_pagination xs size (click_previous false xs size (click_next false xs size r))).page
        ≡ (list_pagination xs size r).page
  unfolding click_next click_previous list_pagination
  click_previous-click_next xs r h e = ground arith
