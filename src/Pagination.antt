-- ===== src/Pagination.antt =====
-- Client-side pagination: frontend/src/hooks/use-list-pagination.ts and the buttons of
-- frontend/src/components/list-pagination.tsx. The hook's only state is the requested page.
pub mod Bounds
pub mod Cover
pub mod Clicks
pub mod Walk
mod Tests
use cdn_platform.Prelude.{
  ℕ, ◌+◌, ◌-◌, ◌*◌, ◌/◌, min, max, Bool, ◌||◌, List, length, slice, leb, ◌==◌, if◌then◌else◌,
}

abbrev pub list_page_size : ℕ
list_page_size = 20

pub record ListPaginationState {ℓ} (A : Type ℓ) : Type ℓ where
  pub items : List A
  pub page : ℕ
  pub page_size : ℕ
  pub total_items : ℕ
  pub total_pages : ℕ
  pub start : ℕ
  pub end : ℕ
  pub start_index : ℕ

-- `Math.ceil(a / b)` for a positive `b`.
abbrev pub ceil_div : ℕ → ℕ → ℕ
ceil_div a b = (a + b - 1) / b

abbrev pub page_count : ℕ → ℕ → ℕ
page_count total size = max 1 (ceil_div total size)

module _ {ℓ} {A : Type ℓ} where
  -- `useListPagination(items, pageSize)` when its state holds `requested`.
  unfoldable pub list_pagination : List A → ℕ → ℕ → ListPaginationState A
  list_pagination items size requested =
      let total = length items in
      let pages = page_count total size in
      let page = min requested pages in
      let start_index = (page - 1) * size in
      let end_index = min (start_index + size) total in
      record {
        items = slice start_index end_index items;
        page = page;
        page_size = size;
        total_items = total;
        total_pages = pages;
        start = if total == 0 then 0 else start_index + 1;
        end = end_index;
        start_index = start_index;
      }

  -- `setPage(nextPage)`: the new requested page.
  unfoldable pub set_page : ListPaginationState A → ℕ → ℕ
  set_page p next = max 1 (min next p.total_pages)

  -- The two buttons of `ListPagination`.
  unfoldable pub previous_disabled : Bool → ListPaginationState A → Bool
  previous_disabled disabled p = disabled || leb p.page 1

  unfoldable pub next_disabled : Bool → ListPaginationState A → Bool
  next_disabled disabled p = disabled || leb p.total_pages p.page

  unfoldable pub click_previous : Bool → List A → ℕ → ℕ → ℕ
  unfolding previous_disabled set_page
  click_previous disabled items size requested =
      let p = list_pagination items size requested in
      if previous_disabled disabled p then requested else set_page p (p.page - 1)

  unfoldable pub click_next : Bool → List A → ℕ → ℕ → ℕ
  unfolding next_disabled set_page
  click_next disabled items size requested =
      let p = list_pagination items size requested in
      if next_disabled disabled p then requested else set_page p (p.page + 1)
