-- ===== src/Pagination/Tests.antt =====
-- Tests of the pager, and its theorems at a list of five items in pages of two.
use cdn_platform.Prelude.{ℕ, ◌≡◌, refl, false, List, [], ◌∷◌, arith, min, leb, ◌+◌}
use cdn_platform.Pagination.{list_pagination, page_count, click_previous, click_next, next_disabled}
use cdn_platform.Pagination.Walk.{clicks, clicks-next_disabled}
use cdn_platform.Pagination.Cover.{pages_from, pages_from_all}

abbrev five : List ℕ
five = 1 ∷ 2 ∷ 3 ∷ 4 ∷ 5 ∷ []

last_page :
    ((list_pagination five 2 9).items ≡ 5 ∷ [])
    × ((list_pagination five 2 9).page ≡ 3)
    × ((list_pagination five 2 9).start ≡ 5)
    × ((list_pagination five 2 9).end ≡ 5)
unfolding list_pagination
last_page = (refl, refl, refl, refl)

empty_list :
    ((list_pagination {A = ℕ} [] 2 1).total_pages ≡ 1)
    × ((list_pagination {A = ℕ} [] 2 1).start ≡ 0)
unfolding list_pagination
empty_list = (refl, refl)

some_clicks :
    (click_next false five 2 3 ≡ 3)
    × (click_next false five 2 1 ≡ 2)
    × (click_previous false five 2 1 ≡ 1)
unfolding list_pagination click_next click_previous
some_clicks = (refl, refl, refl)

pages_from_all_example : pages_from five 2 1 (page_count 5 2) ≡ five
pages_from_all_example = pages_from_all five 2 (omega arith)

abbrev one_item : List ℕ
one_item = 1 ∷ []

clicks-next_disabled_example :
    ((list_pagination five 2 (clicks five 2 2 1)).page ≡ min (1 + 2) (page_count 5 2))
    × (next_disabled false (list_pagination five 2 (clicks five 2 2 1))
        ≡ leb (page_count 5 2) (1 + 2))
clicks-next_disabled_example = clicks-next_disabled five 2 2 1 (omega arith)
