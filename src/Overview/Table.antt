-- ===== src/Overview/Table.antt =====
-- The sorted table of the sites (frontend/src/features/overview/overview-page.tsx).
use mathlib.Core.List.{Perm}
use cdn_platform.Prelude.{ℕ, ◌≤◌, ◌≡◌, true, List, [], ◌∷◌, Text, All, arith}
use cdn_platform.Prelude.Sorting.{
  Sign, negative, neutral, positive, Comparison, ◌or_sign◌, difference, in_order,
}
use cdn_platform.Prelude.Sorting.Orders.{
  IsPreorder, difference-IsPreorder, through-IsPreorder, opposite-IsPreorder, or_sign-IsPreorder,
}
use cdn_platform.Prelude.Sorting.Sorted.{
  IsBefore, IsSorted, sort-Perm, sort-IsSorted, Reorders, HasNoTies, sort-Reorders,
}
use cdn_platform.Types.Traffic.{OverviewSite}
use cdn_platform.Overview.{
  SiteSortKey, SortDirection, SiteSort, site_name, compare_names, compare_key, directed,
  compare_sites, sort_overview_sites, name, requests, bytes, ascending, descending,
}

-- What the table shows in the column that it is sorted by, for a column of numbers.
abbrev pub count_of : SiteSortKey → OverviewSite → ℕ
count_of name site = 0
count_of requests site = site.requests
count_of bytes site = site.bytes

abbrev pub IsCountOrder : SortDirection → ℕ → ℕ → Type 0
IsCountOrder ascending a b = a ≤ b
IsCountOrder descending a b = b ≤ a

-- Every row has a count in order with all that stand below it.
abbrev pub HasCountOrder : SiteSort → List OverviewSite → Type 0
HasCountOrder order [] = Unit
HasCountOrder order (x ∷ xs) =
    All (λ y. IsCountOrder order.direction (count_of order.key x) (count_of order.key y)) xs
    × HasCountOrder order xs

count_order :
    (direction : SortDirection) (a b : ℕ) (rest : Sign)
    → in_order (directed direction (difference a b) or_sign rest) ≡ true
    → IsCountOrder direction a b
count_order ascending a b rest h = ground arith
count_order descending a b rest h = ground arith

directed-IsPreorder :
    (direction : SortDirection) (c : Comparison OverviewSite)
    → IsPreorder c
    → IsPreorder (λ x y. directed direction (c x y))
directed-IsPreorder ascending c h = h
directed-IsPreorder descending c h = opposite-IsPreorder c h

last_sign : (a b : Sign) → (a or_sign b) ≡ neutral → b ≡ neutral
last_sign negative b e = cc
last_sign neutral b e = e
last_sign positive b e = cc

module _ (collate : Comparison Text) where
  column_order :
      (key : SiteSortKey) (direction : SortDirection) (x y : OverviewSite) (rest : Sign)
      → in_order (directed direction (compare_key collate key x y) or_sign rest) ≡ true
      → IsCountOrder direction (count_of key x) (count_of key y)
  column_order name ascending x y rest h = omega arith
  column_order name descending x y rest h = omega arith
  column_order requests d x y rest h = count_order d x.requests y.requests rest h
  column_order bytes d x y rest h = count_order d x.bytes y.bytes rest h

  site_order :
      (order : SiteSort) (x y : OverviewSite)
      → IsBefore (compare_sites collate order) x y
      → IsCountOrder order.direction (count_of order.key x) (count_of order.key y)
  unfolding compare_sites
  site_order order x y h =
      column_order order.key order.direction x y
        (compare_names collate x y or_sign collate x.id y.id) h

  row_order :
      (order : SiteSort) (x : OverviewSite) (ys : List OverviewSite)
      → All (IsBefore (compare_sites collate order) x) ys
      → All (λ y. IsCountOrder order.direction (count_of order.key x) (count_of order.key y)) ys
  row_order order x [] h = tt
  row_order order x (y ∷ ys) (e, h) = (site_order order x y e, row_order order x ys h)

  table_order :
      (order : SiteSort) (xs : List OverviewSite)
      → IsSorted (compare_sites collate order) xs
      → HasCountOrder order xs
  table_order order [] h = tt
  table_order order (x ∷ xs) (first, rest) = (row_order order x xs first, table_order order xs rest)

  -- Tied sites have tied ids.
  tied_ids :
      (order : SiteSort) (x y : OverviewSite)
      → compare_sites collate order x y ≡ neutral
      → collate x.id y.id ≡ neutral
  unfolding compare_sites
  tied_ids order x y tied =
      last_sign (compare_names collate x y) (collate x.id y.id)
        (last_sign (directed order.direction (compare_key collate order.key x y)) _ tied)

  module _ (h : IsPreorder collate) where
    names-IsPreorder : IsPreorder (compare_names collate)
    names-IsPreorder = through-IsPreorder site_name collate h

    key-IsPreorder : (key : SiteSortKey) → IsPreorder (compare_key collate key)
    key-IsPreorder name = names-IsPreorder
    key-IsPreorder requests =
        through-IsPreorder (λ site. site.requests) difference difference-IsPreorder
    key-IsPreorder bytes = through-IsPreorder (λ site. site.bytes) difference difference-IsPreorder

    compare_sites-IsPreorder : (order : SiteSort) → IsPreorder (compare_sites collate order)
    unfolding compare_sites
    compare_sites-IsPreorder order =
        or_sign-IsPreorder (λ x y. directed order.direction (compare_key collate order.key x y)) _
          (directed-IsPreorder order.direction (compare_key collate order.key)
            (key-IsPreorder order.key))
          (or_sign-IsPreorder (compare_names collate) (λ x y. collate x.id y.id) names-IsPreorder
            (through-IsPreorder (λ site. site.id) collate h))

    -- For a collator that orders texts, the table has every site once, each row in order with all
    -- rows below it, and the numbers of the sorted column go up or down as the direction says.
    pub sort_overview_sites-HasCountOrder :
        (sites : List OverviewSite) (order : SiteSort)
        → Perm (sort_overview_sites collate sites order) sites
          × IsSorted (compare_sites collate order) (sort_overview_sites collate sites order)
          × HasCountOrder order (sort_overview_sites collate sites order)
    unfolding sort_overview_sites
    sort_overview_sites-HasCountOrder sites order =
        let sorted =
          sort-IsSorted (compare_sites collate order) (compare_sites-IsPreorder order) sites in
        (sort-Perm (compare_sites collate order) sites, sorted, table_order order _ sorted)

    -- For a collator that orders texts and tells the ids of the sites apart, an answer that lists the
    -- sites in another order gives the same table, in either direction and whatever the column: sites
    -- with the same count and the same name are told apart by their ids.
    pub sort_overview_sites-Reorders :
        (sites listed : List OverviewSite) (order : SiteSort)
        → Reorders sites listed
        → HasNoTies (λ x y. collate x.id y.id) sites
        → sort_overview_sites collate sites order ≡ sort_overview_sites collate listed order
    unfolding sort_overview_sites
    sort_overview_sites-Reorders sites listed order r n =
        sort-Reorders (compare_sites collate order) (compare_sites-IsPreorder order) r
          (λ a b p q tied. n a b p q (tied_ids order a b tied))
