-- ===== src/Site/Forwards.antt =====
-- The TCP forwards of the form, frontend/src/features/sites/site-detail-page.tsx (`TCPForwards`).
pub mod Edits
pub mod Rows
mod Tests
use cdn_platform.Prelude.{
  ℕ, ◌+◌, Bool, true, false, List, [], ◌∷◌, ◌++◌, some, Text, length, get_elem?, modify, erase_idx,
  leb, if◌then◌else◌,
}
use cdn_platform.Types.Site.{TcpForward}
use cdn_platform.Pagination.{ListPaginationState, list_pagination, list_page_size}
use cdn_platform.Site.Draft.{SiteDraft}

abbrev pub max_forwards : ℕ
max_forwards = 32

unfoldable pub empty_forward : TcpForward
empty_forward = record {
  name = [];
  listen_port = 0;
  listen_tls = true;
  upstream_host = [];
  upstream_port = 0;
  upstream_tls = true;
  upstream_tls_server_name = some [];
  connect_timeout_seconds = 10;
  idle_timeout_seconds = 300;
}

-- The values that one field of a row passes to `update`. A number is what `Number(…)` reads.
pub data ForwardEdit : Type 0 where
  name : Text → ForwardEdit
  listen_port : ℕ → ForwardEdit
  upstream_host : Text → ForwardEdit
  upstream_port : ℕ → ForwardEdit
  connect_timeout : ℕ → ForwardEdit
  idle_timeout : ℕ → ForwardEdit
  listen_tls : Bool → ForwardEdit
  upstream_tls : Bool → ForwardEdit
  upstream_tls_server_name : Text → ForwardEdit

-- `{ ...item, ...values }`
unfoldable pub merge : ForwardEdit → TcpForward → TcpForward
merge (name v) f = record f { name = v }
merge (listen_port v) f = record f { listen_port = v }
merge (upstream_host v) f = record f { upstream_host = v }
merge (upstream_port v) f = record f { upstream_port = v }
merge (connect_timeout v) f = record f { connect_timeout_seconds = v }
merge (idle_timeout v) f = record f { idle_timeout_seconds = v }
merge (listen_tls v) f = record f { listen_tls = v }
merge (upstream_tls v) f = record f { upstream_tls = v }
merge (upstream_tls_server_name v) f = record f { upstream_tls_server_name = some v }

unfoldable pub update : SiteDraft → ℕ → ForwardEdit → SiteDraft
unfolding merge
update draft index values = record draft {
  tcp_forwards = modify draft.tcp_forwards index (merge values);
}

unfoldable pub add_disabled : SiteDraft → Bool
add_disabled draft = leb max_forwards (length draft.tcp_forwards)

-- A click on a disabled button does nothing.
unfoldable pub add_forward : SiteDraft → SiteDraft
unfolding add_disabled empty_forward
add_forward draft =
    if add_disabled draft
    then draft
    else record draft { tcp_forwards = draft.tcp_forwards ++ empty_forward ∷ [] }

unfoldable pub remove_forward : SiteDraft → ℕ → SiteDraft
remove_forward draft index = record draft { tcp_forwards = erase_idx draft.tcp_forwards index }

-- The page of rows on the screen when the pager's state holds `requested`, and the list index of
-- its row `page_index`.
unfoldable pub forward_page : SiteDraft → ℕ → ListPaginationState TcpForward
unfolding list_pagination
forward_page draft requested = list_pagination draft.tcp_forwards list_page_size requested

unfoldable pub row_index : SiteDraft → ℕ → ℕ → ℕ
unfolding forward_page
row_index draft requested page_index = (forward_page draft requested).start_index + page_index
