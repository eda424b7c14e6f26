-- ===== src/Site/Forwards/Rows.antt =====
-- A row of a page is the forward that its fields change
-- (frontend/src/features/sites/site-detail-page.tsx).
use cdn_platform.Prelude.{
  ℕ, suc, ◌+◌, ◌<◌, ◌≡◌, ◌≢◌, refl, ◌⊎◌, inl, inr, ap, sym, ◌∙◌, lt-length_of_get_elem?, List, [],
  ◌∷◌, ◌++◌, some, length, get_elem?, take, drop, length-modify, length-erase_idx,
  get_elem?-modify_self, get_elem?-modify_ne, erase_idx-take-drop, arith,
}
use cdn_platform.Types.Site.{TcpForward}
use cdn_platform.Pagination.{list_pagination, list_page_size}
use cdn_platform.Pagination.Bounds.{
  list_pagination-get_elem?, list_pagination-same_length, list_pagination_nonempty,
}
use cdn_platform.Site.Draft.{SiteDraft}
use cdn_platform.Site.Forwards.{ForwardEdit, merge, update, remove_forward, forward_page, row_index}

-- The pages before and after an edit of row `row`.
pub record EditsRow (draft : SiteDraft) (requested row : ℕ) (values : ForwardEdit)
    (shown : TcpForward) (after : SiteDraft) : Type 0 where
  pub here : get_elem? (forward_page after requested).items row ≡ some (merge values shown)
  pub elsewhere :
      (other : ℕ)
      → other < length (forward_page draft requested).items
      → other ≢ row
      → get_elem? (forward_page after requested).items other
        ≡ get_elem? (forward_page draft requested).items other
  pub same_count : length after.tcp_forwards ≡ length draft.tcp_forwards
  pub same_page : (forward_page after requested).page ≡ (forward_page draft requested).page

module _ (draft : SiteDraft) (requested row : ℕ) (values : ForwardEdit) where
  abbrev edited : SiteDraft
  edited = update draft (row_index draft requested row) values

  same_length : length edited.tcp_forwards ≡ length draft.tcp_forwards
  unfolding update
  same_length = length-modify draft.tcp_forwards (row_index draft requested row) (merge values)

  -- Both pages, side by side.
  alike :
      ((forward_page edited requested).page ≡ (forward_page draft requested).page)
      × ((forward_page edited requested).start_index ≡ (forward_page draft requested).start_index)
      × (length (forward_page edited requested).items ≡ length (forward_page draft requested).items)
  unfolding forward_page
  alike =
      list_pagination-same_length edited.tcp_forwards draft.tcp_forwards list_page_size requested
        same_length

  shown_at :
      (d : SiteDraft) (other : ℕ)
      → other < length (forward_page d requested).items
      → get_elem? (forward_page d requested).items other
        ≡ get_elem? d.tcp_forwards ((forward_page d requested).start_index + other)
  unfolding forward_page
  shown_at d other h = list_pagination-get_elem? d.tcp_forwards list_page_size requested other h

  edited_at :
      (other : ℕ)
      → other < length (forward_page draft requested).items
      → get_elem? (forward_page edited requested).items other
        ≡ get_elem? edited.tcp_forwards ((forward_page draft requested).start_index + other)
  edited_at other h =
      shown_at edited other (omega (arith, alike.2))
      ∙ ap (λ s. get_elem? edited.tcp_forwards (s + other)) alike.1

  -- The page of the draft after an edit of a shown row holds, in that row, the edited forward, in
  -- every other row what it held, and it is the same page of as many forwards.
  pub update-EditsRow :
      (shown : TcpForward)
      → get_elem? (forward_page draft requested).items row ≡ some shown
      → EditsRow draft requested row values shown edited
  unfolding update row_index
  update-EditsRow shown h =
      let inside = lt-length_of_get_elem? (forward_page draft requested).items row h in
      record {
        here =
            edited_at row inside
            ∙ get_elem?-modify_self draft.tcp_forwards (row_index draft requested row)
                (merge values) (sym (shown_at draft row inside) ∙ h);
        elsewhere = λ other lt ne.
            edited_at other lt
            ∙ get_elem?-modify_ne draft.tcp_forwards (row_index draft requested row)
                ((forward_page draft requested).start_index + other) (merge values) (omega arith)
            ∙ sym (shown_at draft other lt);
        same_count = same_length;
        same_page = alike.0;
      }

-- Removing a shown row takes exactly the forward of that row out of the list, and the pager then
-- shows a page with rows on it, unless no forward is left.
pub remove_forward-row :
    (draft : SiteDraft) (requested row : ℕ) {shown : TcpForward}
    → get_elem? (forward_page draft requested).items row ≡ some shown
    → let i = row_index draft requested row in
      let after = remove_forward draft i in
      (get_elem? draft.tcp_forwards i ≡ some shown)
      × (after.tcp_forwards ≡ take i draft.tcp_forwards ++ drop (suc i) draft.tcp_forwards)
      × (suc (length after.tcp_forwards) ≡ length draft.tcp_forwards)
      × ((length after.tcp_forwards ≡ 0) ⊎ (0 < length (forward_page after requested).items))
unfolding remove_forward row_index forward_page
remove_forward-row draft requested row h =
    let i = row_index draft requested row in
    let after = remove_forward draft i in
    let inside = lt-length_of_get_elem? (forward_page draft requested).items row h in
    let found =
      sym (list_pagination-get_elem? draft.tcp_forwards list_page_size requested row inside) ∙ h in
    (
      found,
      erase_idx-take-drop draft.tcp_forwards i,
      length-erase_idx draft.tcp_forwards i (lt-length_of_get_elem? draft.tcp_forwards i found),
      empty_or_shown after.tcp_forwards,
    )
  where
    empty_or_shown :
        (xs : List TcpForward)
        → (length xs ≡ 0) ⊎ (0 < length (list_pagination xs list_page_size requested).items)
    empty_or_shown [] = inl refl
    empty_or_shown (x ∷ xs) =
        inr (list_pagination_nonempty (x ∷ xs) list_page_size requested (omega arith) (omega arith))
