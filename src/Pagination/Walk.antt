-- ===== src/Pagination/Walk.antt =====
-- A walk through the pages by the button for the next one
-- (frontend/src/components/list-pagination.tsx).
use cdn_platform.Prelude.{
  ℕ, zero, suc, ◌+◌, ◌≤◌, ◌≡◌, refl, ap, ◌∙◌, min, false, List, length, leb, arith,
}
use cdn_platform.Pagination.{list_pagination, page_count, next_disabled, click_next}

module _ {ℓ} {A : Type ℓ} (xs : List A) (size : ℕ) where
  -- The requested page after a number of clicks.
  unfoldable pub clicks : ℕ → ℕ → ℕ
  unfolding click_next
  clicks zero requested = requested
  clicks (suc n) requested = clicks n (click_next false xs size requested)

  shown_page : (r : ℕ) → (list_pagination xs size r).page ≡ min r (page_count (length xs) size)
  unfolding list_pagination
  shown_page r = refl

  next_page :
      (r : ℕ)
      → 1 ≤ r
      → min (click_next false xs size r) (page_count (length xs) size)
        ≡ min (r + 1) (page_count (length xs) size)
  unfolding click_next next_disabled list_pagination
  next_page r h = ground arith

  next_pos : (r : ℕ) → 1 ≤ r → 1 ≤ click_next false xs size r
  unfolding click_next next_disabled list_pagination
  next_pos r h = ground arith

  clicks_page :
      (n r : ℕ)
      → 1 ≤ r
      → min (clicks n r) (page_count (length xs) size) ≡ min (r + n) (page_count (length xs) size)
  unfolding clicks
  clicks_page zero r h =
      let e : r ≡ r + 0 = omega arith in ap (λ k. min k (page_count (length xs) size)) e
  clicks_page (suc n) r h =
      let pages = page_count (length xs) size in
      let rest = clicks_page n (click_next false xs size r) (next_pos r h) in
      let first = next_page r h in
      let one : min (click_next false xs size r + n) pages ≡ min (r + suc n) pages = omega arith in
      rest ∙ one

  disabled_at :
      (r : ℕ)
      → next_disabled false (list_pagination xs size r)
        ≡ leb (page_count (length xs) size) (min r (page_count (length xs) size))
  unfolding next_disabled list_pagination
  disabled_at r = refl

  full_test : (k pages : ℕ) → leb pages (min k pages) ≡ leb pages k
  full_test k pages = ground arith

  -- A walk by the button for the next page ends: after `n` clicks the page shown is `n` pages on, at
  -- most the last, and the button is disabled from the last page on and not before, so that from the
  -- first page the number of pages less one is the number of clicks that are possible.
  pub clicks-next_disabled :
      (n r : ℕ)
      → 1 ≤ r
      → ((list_pagination xs size (clicks n r)).page ≡ min (r + n) (page_count (length xs) size))
        × (next_disabled false (list_pagination xs size (clicks n r))
            ≡ leb (page_count (length xs) size) (r + n))
  clicks-next_disabled n r h =
      let pages = page_count (length xs) size in
      let here : min (clicks n r) pages ≡ min (r + n) pages = clicks_page n r h in
      (
        shown_page (clicks n r) ∙ here,
        disabled_at (clicks n r) ∙ ap (leb pages) here ∙ full_test (r + n) pages,
      )
