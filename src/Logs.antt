-- ===== src/Logs.antt =====
-- The search of access logs (frontend/src/features/logs/logs-page.tsx): the filters, the search that
-- is applied, the query that is sent and the two buttons of the pager.
pub mod Query
pub mod Paging
pub mod Detail
mod Tests
use cdn_platform.Prelude.{
  ℕ, ◌+◌, ◌-◌, ◌*◌, ◌/◌, Bool, true, false, not, ◌||◌, List, [], ◌∷◌, ◌++◌, filter, find?, Option,
  none, some, Text, codes, ◌===◌, ◌==◌, is_truthy, decimal, value_from, if◌then◌else◌, ◌or◌,
}
use cdn_platform.Types.Node.{Node}
use cdn_platform.Types.Site.{Site}
use cdn_platform.Types.Traffic.{LogPage}

pub record LogFilters : Type 0 where
  pub range : Text
  pub site_id : Text
  pub node_id : Text
  pub method : Text
  pub status : Text
  pub path : Text
  pub client_ip : Text
  pub cache_status : Text

unfoldable pub defaults : LogFilters
defaults = record {
  range = codes "1";
  site_id = [];
  node_id = [];
  method = [];
  status = [];
  path = [];
  client_ip = [];
  cache_status = [];
}

-- The filters that are sent, in the order of the source.
pub data FilterKey : Type 0 where
  site_id node_id method status path client_ip cache_status : FilterKey

abbrev pub key_name : FilterKey → Text
key_name FilterKey.site_id = codes "site_id"
key_name FilterKey.node_id = codes "node_id"
key_name FilterKey.method = codes "method"
key_name FilterKey.status = codes "status"
key_name FilterKey.path = codes "path"
key_name FilterKey.client_ip = codes "client_ip"
key_name FilterKey.cache_status = codes "cache_status"

abbrev pub filter_value : FilterKey → LogFilters → Text
filter_value FilterKey.site_id f = f.site_id
filter_value FilterKey.node_id f = f.node_id
filter_value FilterKey.method f = f.method
filter_value FilterKey.status f = f.status
filter_value FilterKey.path f = f.path
filter_value FilterKey.client_ip f = f.client_ip
filter_value FilterKey.cache_status f = f.cache_status

-- `onChange` of the field of a key: the menus stand for the empty text with the value "all", the two
-- inputs send what is typed.
abbrev from_menu : Text → Text
from_menu value = if value === codes "all" then [] else value

pub data Edit : Type 0 where
  range : Text → Edit
  field : FilterKey → Text → Edit

unfoldable pub edit : LogFilters → Edit → LogFilters
unfolding ◌===◌
edit f (Edit.range value) = record f { range = value }
edit f (Edit.field FilterKey.site_id value) = record f { site_id = from_menu value }
edit f (Edit.field FilterKey.node_id value) = record f { node_id = from_menu value }
edit f (Edit.field FilterKey.method value) = record f { method = from_menu value }
edit f (Edit.field FilterKey.status value) = record f { status = from_menu value }
edit f (Edit.field FilterKey.path value) = record f { path = value }
edit f (Edit.field FilterKey.client_ip value) = record f { client_ip = value }
edit f (Edit.field FilterKey.cache_status value) = record f { cache_status = from_menu value }

pub record Search : Type 0 where
  pub filters : LogFilters
  pub from : Text
  pub to : Text

-- `params` of `logSearchURL`, from its first entry to its last.
abbrev pub filter_params : LogFilters → List FilterKey → List (Text × Text)
filter_params f [] = []
filter_params f (key ∷ keys) =
    let rest = filter_params f keys in
    if is_truthy (filter_value key f) then (key_name key, filter_value key f) ∷ rest else rest

abbrev pub filter_keys : List FilterKey
filter_keys =
    FilterKey.site_id ∷ FilterKey.node_id ∷ FilterKey.method ∷ FilterKey.status ∷ FilterKey.path
    ∷ FilterKey.client_ip ∷ FilterKey.cache_status ∷ []

unfoldable pub log_params : Search → ℕ → List (Text × Text)
unfolding decimal
log_params search offset =
    (codes "from", search.from)
    ∷ (codes "to", search.to)
    ∷ (codes "offset", decimal offset)
    ∷ filter_params search.filters filter_keys

-- The page's state; `shown` is the answer to the query of the state, once it is there.
pub record LogsState (Num : Type 0) : Type 0 where
  pub draft : LogFilters
  pub search : Search
  pub offset : ℕ
  pub shown : Option (LogPage Num)

pub data Event (Num : Type 0) : Type 0 where
  change : Edit → Event Num
  submit reset : (now : ℕ) → Event Num
  answered : LogPage Num → Event Num
  previous next : Event Num

module _ {Num : Type 0} where
  -- The buttons are there with an answer; `previous` is disabled at offset 0, `next` without more.
  abbrev go_previous : LogsState Num → Option (LogPage Num) → LogsState Num
  go_previous s none = s
  go_previous s (some page) =
      if s.offset == 0 then s else record s { offset = s.offset - page.page_size; shown = none }

  abbrev go_next : LogsState Num → Option (LogPage Num) → LogsState Num
  go_next s none = s
  go_next s (some page) =
      if page.has_more then record s { offset = s.offset + page.page_size; shown = none } else s

-- The time in milliseconds is an argument, and `iso` is `toISOString`.
module _ (iso : ℕ → Text) where
  unfoldable pub applied_search : ℕ → LogFilters → Search
  unfolding value_from
  applied_search now f = record {
    filters = f;
    from = iso (now - value_from 0 f.range * 60 * 60 * 1000);
    to = iso now;
  }

  module _ {Num : Type 0} where
    unfoldable pub initial : ℕ → LogsState Num
    unfolding applied_search defaults
    initial now = record {
      draft = defaults;
      search = applied_search now defaults;
      offset = 0;
      shown = none;
    }

    unfoldable pub handle : LogsState Num → Event Num → LogsState Num
    unfolding edit applied_search defaults
    handle s (Event.change e) = record s { draft = edit s.draft e }
    handle s (Event.submit now) = record s {
      offset = 0;
      search = applied_search now s.draft;
      shown = none;
    }
    handle s (Event.reset now) = record s {
      draft = defaults;
      offset = 0;
      search = applied_search now defaults;
      shown = none;
    }
    handle s (Event.answered page) = record s { shown = some page }
    handle s Event.previous = go_previous s s.shown
    handle s Event.next = go_next s s.shown

-- The number of the page that is shown.
unfoldable pub page_number : {Num : Type 0} → LogPage Num → ℕ
page_number page = page.offset / page.page_size + 1

abbrev name_of_site : Option Site → Option Text
name_of_site none = none
name_of_site (some site) = some site.name

abbrev name_of_node : Option Node → Option Text
name_of_node none = none
name_of_node (some node) = some node.name

unfoldable pub site_name : Option (List Site) → Text → Text
unfolding ◌===◌
site_name none id = id
site_name (some sites) id = name_of_site (find? (λ s. s.id === id) sites) or id

unfoldable pub node_name : Option (List Node) → Text → Text
unfolding ◌===◌
node_name none id = id
node_name (some nodes) id = name_of_node (find? (λ n. n.id === id) nodes) or id
