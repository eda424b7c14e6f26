-- ===== src/Overview/Tests.antt =====
-- Three sites, two of them with the same number of requests, and the theorems about them.
use mathlib.Core.List.{Perm}
use cdn_platform.Prelude.{ℕ, ◌≡◌, refl, List, [], ◌∷◌, map, Text, codes, inl, inr}
use cdn_platform.Prelude.Sorting.{Comparison, difference, neutral}
use cdn_platform.Prelude.Sorting.Orders.{IsPreorder, difference-IsPreorder, through-IsPreorder}
use cdn_platform.Prelude.Sorting.Sorted.{IsSorted, Reorders, HasNoTies}
use cdn_platform.Types.Traffic.{OverviewSite}
use cdn_platform.Overview.{compare_sites, sort_overview_sites, initial, site_name}
use cdn_platform.Overview.Table.{
  HasCountOrder, sort_overview_sites-HasCountOrder, sort_overview_sites-Reorders,
}

abbrev counted : Text → ℕ → OverviewSite
counted id n = record {
  id = id;
  name = [];
  domains = [];
  requests = n;
  bytes = 0;
  error_requests = 0;
  status_codes = [];
  series = [];
}

abbrev first_unit : Text → ℕ
first_unit [] = 0
first_unit (c ∷ s) = c

abbrev collate : Comparison Text
collate x y = difference (first_unit x) (first_unit y)

collate-IsPreorder : IsPreorder collate
collate-IsPreorder = through-IsPreorder first_unit difference difference-IsPreorder

abbrev listed : List OverviewSite
listed = counted (codes "b") 5 ∷ counted (codes "a") 5 ∷ counted (codes "c") 9 ∷ []

rows :
    map (λ (site : OverviewSite). site.id) (sort_overview_sites collate listed initial.site_sort)
    ≡ codes "c" ∷ codes "a" ∷ codes "b" ∷ []
unfolding sort_overview_sites initial site_name
rows = refl

sort_overview_sites-HasCountOrder_example :
    Perm (sort_overview_sites collate listed initial.site_sort) listed
    × IsSorted
        (compare_sites collate initial.site_sort)
        (sort_overview_sites collate listed initial.site_sort)
    × HasCountOrder initial.site_sort (sort_overview_sites collate listed initial.site_sort)
sort_overview_sites-HasCountOrder_example =
    sort_overview_sites-HasCountOrder collate collate-IsPreorder listed initial.site_sort

abbrev two : List OverviewSite
two = counted (codes "b") 5 ∷ counted (codes "a") 5 ∷ []

moved :
    (c : Comparison OverviewSite) (a b x y : OverviewSite)
    → a ≡ x
    → b ≡ y
    → c a b ≡ neutral
    → c x y ≡ neutral
moved c a b x y p q e = cc

two_tied : HasNoTies (λ x y. collate x.id y.id) two
two_tied a b (inl p) (inl q) e = cc
two_tied a b (inl p) (inr (inl q)) e =
    absurd (cc (moved (λ (x y : OverviewSite). collate x.id y.id) a b _ _ p q e))
two_tied a b (inr (inl p)) (inl q) e =
    absurd (cc (moved (λ (x y : OverviewSite). collate x.id y.id) a b _ _ p q e))
two_tied a b (inr (inl p)) (inr (inl q)) e = cc
two_tied a b (inl p) (inr (inr m)) e = elim m [ ]
two_tied a b (inr (inl p)) (inr (inr m)) e = elim m [ ]
two_tied a b (inr (inr m)) _ e = elim m [ ]

sort_overview_sites-Reorders_example :
    sort_overview_sites collate two initial.site_sort
    ≡ sort_overview_sites collate
        (counted (codes "a") 5 ∷ counted (codes "b") 5 ∷ [])
        initial.site_sort
sort_overview_sites-Reorders_example =
    sort_overview_sites-Reorders collate collate-IsPreorder two
      (counted (codes "a") 5 ∷ counted (codes "b") 5 ∷ []) initial.site_sort
      (Reorders.swap (counted (codes "b") 5) (counted (codes "a") 5) []) two_tied
