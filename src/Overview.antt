-- ===== src/Overview.antt =====
-- The overview (frontend/src/features/overview): the sorted table of the sites, the error rates and
-- the page of one site.
pub mod Table
pub mod Headers
mod Tests
use cdn_platform.Prelude.{
  ℕ, Bool, true, false, List, [], ◌∷◌, find?, Option, none, some, Text, codes, ◌++◌, ◌or_text◌,
  ◌===◌, leb, ◌==◌, join, is_truthy, if◌then◌else◌,
}
use cdn_platform.Prelude.Sorting.{Sign, Comparison, opposite, ◌or_sign◌, difference, sort}
use cdn_platform.Types.Traffic.{Overview, OverviewSite}
use cdn_platform.Pagination.{ListPaginationState, list_page_size, list_pagination}

pub data SiteSortKey : Type 0 where
  name requests bytes : SiteSortKey

pub data SortDirection : Type 0 where
  ascending descending : SortDirection

pub record SiteSort : Type 0 where
  pub key : SiteSortKey
  pub direction : SortDirection

abbrev pub same_key : SiteSortKey → SiteSortKey → Bool
same_key name name = true
same_key requests requests = true
same_key bytes bytes = true
same_key _ _ = false

-- `direction === "asc" ? "desc" : "asc"`
abbrev pub turned : SortDirection → SortDirection
turned ascending = descending
turned descending = ascending

unfoldable pub default_site_sort_direction : SiteSortKey → SortDirection
default_site_sort_direction name = ascending
default_site_sort_direction _ = descending

-- The sort that a press on a header asks for.
unfoldable pub next_sort : SiteSort → SiteSortKey → SiteSort
unfolding default_site_sort_direction
next_sort current key = record {
  key = key;
  direction =
      if same_key current.key key
      then turned current.direction
      else default_site_sort_direction key;
}

unfoldable pub site_name : OverviewSite → Text
site_name site = (site.name or_text site.id) or_text codes "未命名站点"

-- The sign of a comparison in a direction; `-0` is falsy as `0` is.
abbrev pub directed : SortDirection → Sign → Sign
directed ascending sign = sign
directed descending sign = opposite sign

-- `siteNameCollator.compare` is an argument.
module _ (collate : Comparison Text) where
  abbrev pub compare_names : Comparison OverviewSite
  compare_names left right = collate (site_name left) (site_name right)

  -- The first comparison, by the key.
  abbrev pub compare_key : SiteSortKey → Comparison OverviewSite
  compare_key name = compare_names
  compare_key requests = λ left right. difference left.requests right.requests
  compare_key bytes = λ left right. difference left.bytes right.bytes

  unfoldable pub compare_sites : SiteSort → Comparison OverviewSite
  compare_sites order left right =
      directed order.direction (compare_key order.key left right)
      or_sign (compare_names left right or_sign collate left.id right.id)

  unfoldable pub sort_overview_sites : List OverviewSite → SiteSort → List OverviewSite
  unfolding sort compare_sites
  sort_overview_sites sites order = sort (compare_sites order) sites

-- The page's state, and the press on a header, which leads back to the first page.
pub record OverviewState : Type 0 where
  pub site_sort : SiteSort
  pub page : ℕ

unfoldable pub initial : OverviewState
initial = record { site_sort = record { key = requests; direction = descending }; page = 1 }

unfoldable pub handle_site_sort : OverviewState → SiteSortKey → OverviewState
unfolding next_sort
handle_site_sort s key = record { site_sort = next_sort s.site_sort key; page = 1 }

abbrev pub overview_sites : Option Overview → List OverviewSite
overview_sites none = []
overview_sites (some overview) = overview.sites

-- The rows of the page that is shown.
unfoldable pub shown_sites :
    Comparison Text → Option Overview → OverviewState → ListPaginationState OverviewSite
unfolding sort_overview_sites list_pagination
shown_sites collate overview s =
    list_pagination (sort_overview_sites collate (overview_sites overview) s.site_sort)
      list_page_size s.page

abbrev pub part_of : ℕ → ℕ → ℕ × ℕ
part_of part whole = if whole == 0 then (0, 1) else (part, whole)

-- `errorRate`, as a numerator and a denominator.
unfoldable pub error_rate : Option Overview → ℕ × ℕ
error_rate none = (0, 1)
error_rate (some overview) = part_of overview.totals.error_requests overview.totals.requests

unfoldable pub site_error_rate : OverviewSite → ℕ × ℕ
site_error_rate site = part_of site.error_requests site.requests

pub data StatusTone : Type 0 where
  red amber sky emerald : StatusTone

unfoldable pub status_tone : ℕ → StatusTone
status_tone code =
    if leb 500 code
    then StatusTone.red
    else if leb 400 code
    then StatusTone.amber
    else if leb 300 code
    then StatusTone.sky
    else StatusTone.emerald

-- `OverviewSitePage`: the site of the address.
unfoldable pub site_of_page : Option Overview → Text → Option OverviewSite
unfolding ◌===◌
site_of_page none site_id = none
site_of_page (some overview) site_id =
    find? (λ (site : OverviewSite). site.id === site_id) overview.sites

-- `SortableSiteTableHead`: what the header of a column says of the order, and of a press on it.
pub data AriaSort : Type 0 where
  ascending_order descending_order no_order : AriaSort

abbrev pub aria_direction : SortDirection → AriaSort
aria_direction ascending = AriaSort.ascending_order
aria_direction descending = AriaSort.descending_order

unfoldable pub aria_sort : SiteSort → SiteSortKey → AriaSort
aria_sort order key =
    if same_key order.key key then aria_direction order.direction else AriaSort.no_order

unfoldable pub next_direction : SiteSort → SiteSortKey → SortDirection
unfolding default_site_sort_direction
next_direction order key =
    if same_key order.key key then turned order.direction else default_site_sort_direction key

abbrev pub direction_text : SortDirection → Text
direction_text ascending = codes "升序"
direction_text descending = codes "降序"

unfoldable pub action_label : Text → SiteSort → SiteSortKey → Text
unfolding next_direction
action_label label order key =
    codes "按" ++ (label ++ (direction_text (next_direction order key) ++ codes "排序"))
