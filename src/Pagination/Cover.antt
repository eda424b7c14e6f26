-- ===== src/Pagination/Cover.antt =====
-- The pages together are the list (frontend/src/hooks/use-list-pagination.ts).
use cdn_platform.Prelude.{
  ℕ, zero, suc, ◌+◌, ◌-◌, ◌*◌, ◌≤◌, ◌<◌, min, ◌≡◌, ap, sym, ◌∙◌, ◌⊎◌, inl, inr, List, [], ◌++◌,
  length, take, drop, length-drop, take-of-le, take-add, drop-drop, arith,
}
use cdn_platform.Pagination.{list_pagination, page_count}
use cdn_platform.Pagination.Bounds.{le-ceil_div-mul}

module _ {ℓ} {A : Type ℓ} (items : List A) (size : ℕ) where
  -- The items of `count` pages, from the requested page `page` on.
  abbrev pub pages_from : ℕ → ℕ → List A
  pages_from page zero = []
  pages_from page (suc count) =
      (list_pagination items size page).items ++ pages_from (suc page) count

  take-bounded :
      (s : ℕ) → take (min (s + size) (length items) - s) (drop s items) ≡ take size (drop s items)
  take-bounded s = elim (split s) [
    | inl inside ↦ ap (λ k. take k (drop s items)) inside
    | inr (short, long) ↦
        take-of-le _ (drop s items) short ∙ sym (take-of-le size (drop s items) long)
  ]
    where
      split :
          (s : ℕ)
          → (min (s + size) (length items) - s ≡ size)
            ⊎ (length (drop s items) ≤ min (s + size) (length items) - s)
              × (length (drop s items) ≤ size)
      split s = grind (arith, length-drop s items)

  page-eq-take :
      (k : ℕ)
      → suc k ≤ page_count (length items) size
      → (list_pagination items size (suc k)).items ≡ take size (drop (k * size) items)
  unfolding list_pagination
  page-eq-take k h =
      let e : (min (suc k) (page_count (length items) size) - 1) * size ≡ k * size =
        ap (λ x. x * size) (at k h) in
      rw e (take-bounded (k * size))
    where
      at :
          (k : ℕ)
          → suc k ≤ page_count (length items) size
          → min (suc k) (page_count (length items) size) - 1 ≡ k
      at k h = omega arith

  pages_from-eq-take :
      (count k : ℕ)
      → k + count ≤ page_count (length items) size
      → pages_from (suc k) count ≡ take (count * size) (drop (k * size) items)
  pages_from-eq-take zero k h =
      let e : 0 ≡ 0 * size = omega arith in ap (λ n. take n (drop (k * size) items)) e
  pages_from-eq-take (suc count) k h =
      let e : suc k * size ≡ k * size + size = omega arith in
      let total : size + count * size ≡ suc count * size = omega arith in
      rw
        (
          page-eq-take k (omega arith),
          pages_from-eq-take count (suc k) (omega arith),
          e,
          ← drop-drop size (k * size) items,
        )
        (take-add size (count * size) (drop (k * size) items)
          ∙ ap (λ n. take n (drop (k * size) items)) total)

  -- Reading the pages from first to last gives every item of the list once, in its order.
  pub pages_from_all : 0 < size → pages_from 1 (page_count (length items) size) ≡ items
  pages_from_all h =
      let pages = page_count (length items) size in
      let e : 0 * size ≡ 0 = omega arith in
      pages_from-eq-take pages 0 (omega arith)
      ∙ ap (λ n. take (pages * size) (drop n items)) e
      ∙ take-of-le (pages * size) items (grind (arith, le-ceil_div-mul (length items) size))
