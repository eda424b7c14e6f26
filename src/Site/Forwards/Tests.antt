-- ===== src/Site/Forwards/Tests.antt =====
-- Tests of the forwards, and their theorems at a draft with two rows.
use cdn_platform.Prelude.{◌≤◌, ◌≡◌, refl, true, false, [], ◌∷◌, some, codes, length, arith}
use cdn_platform.Types.Site.{TcpForward}
use cdn_platform.Site.Draft.{SiteDraft, empty_draft}
use cdn_platform.Site.Forwards.{
  max_forwards, ForwardEdit, empty_forward, merge, update, add_disabled, add_forward,
  remove_forward, forward_page, row_index,
}
use cdn_platform.Site.Forwards.Edits.{Action, run, length-run}
use cdn_platform.Site.Forwards.Rows.{EditsRow, update-EditsRow}

abbrev imaps : TcpForward
imaps = record {
  name = codes "IMAPS";
  listen_port = 993;
  listen_tls = true;
  upstream_host = codes "mail";
  upstream_port = 143;
  upstream_tls = false;
  upstream_tls_server_name = some [];
  connect_timeout_seconds = 10;
  idle_timeout_seconds = 300;
}

abbrev two_rows : SiteDraft
two_rows = record (empty_draft 60) {
  tcp_forwards = imaps ∷ record imaps { listen_port = 995 } ∷ [];
}

forwards : Unit {0}
unfolding empty_draft empty_forward merge update add_forward remove_forward forward_page row_index
    add_disabled
forwards = tt

edited_port :
    (update two_rows 1 (ForwardEdit.listen_port 2)).tcp_forwards
    ≡ imaps ∷ record imaps { listen_port = 2 } ∷ []
unfolding forwards
edited_port = refl

length-run_example :
    length
      (run two_rows (
        Action.add
        ∷ Action.remove 0
        ∷ Action.edit 0 (ForwardEdit.listen_tls false)
        ∷ [])).tcp_forwards
    ≤ max_forwards
length-run_example =
    length-run (Action.add ∷ Action.remove 0 ∷ Action.edit 0 (ForwardEdit.listen_tls false) ∷ [])
      two_rows (omega arith)

update-EditsRow_example :
    EditsRow two_rows 1 0
      (ForwardEdit.listen_port 7)
      imaps
      (update two_rows (row_index two_rows 1 0) (ForwardEdit.listen_port 7))
unfolding forwards
update-EditsRow_example = update-EditsRow two_rows 1 0 (ForwardEdit.listen_port 7) imaps refl
