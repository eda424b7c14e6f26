-- ===== src/Pagination/Bounds.antt =====
-- What a page shows: its bounds and its items (frontend/src/hooks/use-list-pagination.ts).
use cdn_platform.Prelude.{
  ℕ, zero, suc, ◌+◌, ◌-◌, ◌*◌, ◌≤◌, ◌<◌, min, ◌≡◌, ap, ◌⊎◌, List, length, get_elem?, drop,
  length-take, length-drop, get_elem?-slice, arith,
}
use cdn_platform.Pagination.{ListPaginationState, list_pagination, page_count, ceil_div}

pub le-ceil_div-mul : (a b : ℕ) → 0 < b → a ≤ ceil_div a b * b
le-ceil_div-mul a b h = grind arith

pub ceil_div-mul-lt : (a b : ℕ) → 0 < b → ceil_div a b * b < a + b
ceil_div-mul-lt a b h = grind arith

pred_mul-lt :
    (page pages size total : ℕ)
    → page ≤ pages
    → pages * size < total + size
    → 0 < total
    → (page - 1) * size < total
pred_mul-lt zero pages size total h k pos = grind arith
pred_mul-lt (suc page) pages size total h k pos = grind arith

pub start-lt-total :
    (total size page : ℕ)
    → 0 < size
    → 0 < total
    → page ≤ page_count total size
    → (page - 1) * size < total
start-lt-total total size page hs ht h =
    pred_mul-lt page (ceil_div total size) size total (grind (arith, le-ceil_div-mul total size))
      (ceil_div-mul-lt total size hs) ht

pub start-le-total :
    (total size page : ℕ) → 0 < size → page ≤ page_count total size → (page - 1) * size ≤ total
start-le-total zero size page hs h = grind arith
start-le-total (suc total) size page hs h =
    let pos : 0 < suc total = omega arith in
    let below = start-lt-total (suc total) size page hs pos h in omega arith

-- The numbers of a page are consistent with one another and with the list.
pub record IsPage {ℓ} {A : Type ℓ} (items : List A) (p : ListPaginationState A) : Type 0 where
  pub page_pos : 1 ≤ p.page
  pub page-le : p.page ≤ p.total_pages
  pub total : p.total_items ≡ length items
  pub start-le : p.start_index ≤ p.end
  pub end-le : p.end ≤ length items
  pub shown : length p.items ≡ p.end - p.start_index
  pub shown-le : length p.items ≤ p.page_size
  pub label :
      (length items ≡ 0) × (p.start ≡ 0) ⊎ (0 < length items) × (p.start ≡ p.start_index + 1)

module _ {ℓ} {A : Type ℓ} (items : List A) (size requested : ℕ) where
  -- For a positive page size and requested page, the page lies among the pages, its bounds within
  -- the list, it holds the items between its bounds and no more than a page of them, and the row
  -- label starts at 0 exactly for an empty list.
  pub list_pagination-IsPage :
      0 < size → 0 < requested → IsPage items (list_pagination items size requested)
  unfolding list_pagination
  list_pagination-IsPage hs hr =
      let p = list_pagination items size requested in
      let start-le = start-le-total (length items) size p.page hs (omega arith) in
      record {
        page_pos = omega arith;
        page-le = omega arith;
        total = omega arith;
        start-le = omega arith;
        end-le = omega arith;
        shown = omega (
          arith,
          length-take (p.end - p.start_index) (drop p.start_index items),
          length-drop p.start_index items,
        );
        shown-le = omega (arith, length-take (p.end - p.start_index) (drop p.start_index items));
        label = ground arith;
      }

  -- A non-empty list never shows an empty page, however far the requested page is.
  pub list_pagination_nonempty :
      0 < size → 0 < length items → 0 < length (list_pagination items size requested).items
  unfolding list_pagination
  list_pagination_nonempty hs ht =
      let p = list_pagination items size requested in
      let start-lt = start-lt-total (length items) size p.page hs ht (omega arith) in
      omega (
        arith,
        length-take (p.end - p.start_index) (drop p.start_index items),
        length-drop p.start_index items,
      )

  -- The item in row `i` of the page is the list's item at `startIndex + i`.
  pub list_pagination-get_elem? :
      (i : ℕ)
      → i < length (list_pagination items size requested).items
      → get_elem? (list_pagination items size requested).items i
        ≡ get_elem? items ((list_pagination items size requested).start_index + i)
  unfolding list_pagination
  list_pagination-get_elem? i h =
      let p = list_pagination items size requested in
      get_elem?-slice (p.end - p.start_index) items i p.start_index
        (omega (arith, length-take (p.end - p.start_index) (drop p.start_index items)))

-- Lists of one length are paged alike.
pub list_pagination-same_length {ℓ} :
    {A : Type ℓ} (xs ys : List A) (size requested : ℕ)
    → length xs ≡ length ys
    → ((list_pagination xs size requested).page ≡ (list_pagination ys size requested).page)
      × ((list_pagination xs size requested).start_index
          ≡ (list_pagination ys size requested).start_index)
      × (length (list_pagination xs size requested).items
          ≡ length (list_pagination ys size requested).items)
unfolding list_pagination
list_pagination-same_length xs ys size requested e =
    let p = list_pagination xs size requested in
    let q = list_pagination ys size requested in
    let page : p.page ≡ q.page = ap (λ n. min requested (page_count n size)) e in
    let start : p.start_index ≡ q.start_index = ap (λ n. (n - 1) * size) page in
    (
      page,
      start,
      omega (
        arith,
        start,
        length-take (p.end - p.start_index) (drop p.start_index xs),
        length-drop p.start_index xs,
        length-take (q.end - q.start_index) (drop q.start_index ys),
        length-drop q.start_index ys,
      ),
    )
