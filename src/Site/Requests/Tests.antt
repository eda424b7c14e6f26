-- ===== src/Site/Requests/Tests.antt =====
-- A save of the sample site, its removal and its operations, and the theorems about them.
use cdn_platform.Prelude.{◌≡◌, refl, true, false, [], ◌∷◌, none, some, Text, codes, inr}
use cdn_platform.Types.Site.{Site}
use cdn_platform.Types.Task.{TaskStatus}
use cdn_platform.Site.Samples.{sample_site, task_with, status_with}
use cdn_platform.Site.Draft.{SiteDraft}
use cdn_platform.Site.Draft.Payload.{IsEditable}
use cdn_platform.Site.Page.{Snapshot, initial_page}
use cdn_platform.Site.Requests.{
  certificate, operation_call, operation_toast, Client, save_done, deletion_effect, success,
  invalidate, navigate, sites, encoded_id, delete_call, confirmation,
}
use cdn_platform.Site.Requests.Toasts.{operation_toast_lem}
use cdn_platform.Site.Requests.Saved.{IsSettled, save_done-IsSettled}

abbrev show : SiteDraft → Text
show d = 123 ∷ d.name

deletions :
    (deletion_effect (some (status_with (task_with TaskStatus.succeeded (codes "3"))))
      ≡ success (codes "站点已安全删除") ∷ invalidate sites ∷ navigate (codes "/sites") true ∷ [])
    × (deletion_effect none ≡ [])
    × (encoded_id (some (codes "a/b")) ≡ some (codes "a%2Fb"))
    × ((delete_call (codes "s1") (some sample_site)).body ≡ confirmation (some (codes "Main")))
unfolding deletion_effect encoded_id delete_call
deletions = (refl, refl, refl, refl)

abbrev editable : Site
editable = record sample_site {
  domains = [];
  tcp_only = true;
  primary_origin = record {
    url = codes "https://o.com";
    host_header = [];
    tls_server_name = none;
    enabled = true;
  };
}

editable-IsEditable : IsEditable editable
editable-IsEditable = record {
  domains = tt;
  primary = record { enabled = refl; plain = inr refl };
  backup = tt;
}

abbrev client : Client
client = record {
  page = initial_page;
  cached_sites = some (sample_site ∷ []);
  deletion = none;
  delete_open = false;
}

abbrev rendering : Snapshot
rendering = record {
  site_id = some (codes "s1");
  sites = (save_done show false editable 60 client).0.cached_sites;
  settings_fetched = true;
  default_ttl_seconds = some 60;
}

save_done-IsSettled_example :
    IsSettled show editable (codes "s1") rendering (save_done show false editable 60 client).0
unfolding encoded_id
save_done-IsSettled_example =
    save_done-IsSettled show false editable 60 (sample_site ∷ []) (codes "s1") client rendering
      (λ e. cc) editable-IsEditable refl (record { site_id = refl; sites = refl }) refl

operation_toast_lem_example :
    operation_toast (operation_call (codes "s1") certificate).path ≡ codes "TLS 签发已排队"
operation_toast_lem_example = operation_toast_lem (codes "s1") certificate
