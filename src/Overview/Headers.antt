-- ===== src/Overview/Headers.antt =====
-- What the headers of the table announce (frontend/src/features/overview/overview-page.tsx).
use cdn_platform.Prelude.{◌≡◌, refl, if◌then◌else◌}
use cdn_platform.Overview.{
  SiteSortKey, SortDirection, OverviewState, AriaSort, handle_site_sort, next_sort, next_direction,
  aria_sort, aria_direction, same_key,
}

announced :
    (key other : SiteSortKey) (d : SortDirection)
    → aria_sort (record { key = key; direction = d }) other
      ≡ (if same_key key other then aria_direction d else AriaSort.no_order)
unfolding aria_sort
announced key other d = refl

-- A press on a header shows the first page, sorted by that column alone, in the direction that the
-- header's label announced before the press.
pub aria_sort-handle_site_sort :
    (s : OverviewState) (key other : SiteSortKey)
    → (aria_sort (handle_site_sort s key).site_sort other ≡ (
        if same_key key other
        then aria_direction (next_direction s.site_sort key)
        else AriaSort.no_order))
      × ((handle_site_sort s key).page ≡ 1)
unfolding handle_site_sort next_sort next_direction
aria_sort-handle_site_sort s key other = (announced key other _, refl)
