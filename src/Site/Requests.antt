-- ===== src/Site/Requests.antt =====
-- The requests of the site page and what their answers do, frontend/src/features/sites/site-detail-page.tsx
-- (`SiteDetailPage`: `save`, `operation`, `deleteSite`, and the effect that leaves the page of a deleted site).
-- The library that sends them is not modelled: what is here runs when it has an answer.
pub mod Saved
pub mod Toasts
mod Tests
use cdn_platform.Prelude.{
  ℕ, ◌-◌, Bool, true, false, List, [], ◌∷◌, ◌++◌, Option, none, some, ◌or◌, Text, codes, ◌===◌,
  length, drop, if◌then◌else◌,
}
use cdn_platform.Types.Site.{Site}
use cdn_platform.Types.Task.{TaskStatus, PublishStatus, DeploymentTask}
use cdn_platform.Uri.{encode_uri_component, before}
use cdn_platform.Site.Draft.{SiteDraft, SitePayload, site_payload}
use cdn_platform.Site.Operations.{task_of}
use cdn_platform.Site.Page.{PageState, on_saved, cache_saved}

-- `value.endsWith(suffix)`
unfoldable pub ends_with : Text → Text → Bool
unfolding ◌===◌
ends_with suffix value = drop (length value - length suffix) value === suffix

-- A body: none, a configuration, or the confirmation of a removal (`site?.name`).
pub data Body : Type 0 where
  empty : Body
  payload : SitePayload → Body
  confirmation : Option Text → Body

pub record Call : Type 0 where
  pub method : Text
  pub path : Text
  pub body : Body

abbrev sites_path : Text
sites_path = codes "/api/sites/"

-- `encodedID`; it throws, and the page with it, for an id that is no Unicode text.
unfoldable pub encoded_id : Option Text → Option Text
unfolding encode_uri_component
encoded_id site_id = encode_uri_component (site_id or [])

unfoldable pub save_call : Bool → Text → SiteDraft → Call
unfolding site_payload
save_call is_new encoded draft = record {
  method = if is_new then codes "POST" else codes "PUT";
  path = if is_new then codes "/api/sites" else sites_path ++ encoded;
  body = payload (site_payload draft);
}

unfoldable pub delete_call : Text → Option Site → Call
delete_call encoded site = record {
  method = codes "DELETE";
  path = sites_path ++ encoded;
  body = confirmation (elim site [ none ↦ none | some s ↦ some s.name ]);
}

-- The three operations of the panel that are requests.
pub data Operation : Type 0 where
  publish certificate invalidate_cache : Operation

abbrev pub operation_suffix : Operation → Text
operation_suffix publish = codes "/publish"
operation_suffix certificate = codes "/certificate"
operation_suffix invalidate_cache = codes "/invalidate-cache"

unfoldable pub operation_call : Text → Operation → Call
operation_call encoded op = record {
  method = codes "POST";
  path = sites_path ++ (encoded ++ operation_suffix op);
  body = empty;
}

-- Keys of the cached queries; those of one site hold the id of the route, if it has one.
pub data QueryKey : Type 0 where
  sites : QueryKey
  site_tls site_publish site_allowlist : (id : Option Text) → QueryKey

pub data Effect : Type 0 where
  success failure : (message : Text) → Effect
  invalidate : QueryKey → Effect
  navigate : (path : Text) (replace : Bool) → Effect

-- What the page and its caches hold.
pub record Client : Type 0 where
  pub page : PageState
  pub cached_sites : Option (List Site)
  pub deletion : Option PublishStatus
  pub delete_open : Bool

-- An id that cannot be encoded throws instead of the navigation, which is last.
abbrev go_to : Option Text → List Effect
go_to none = []
go_to (some path) = navigate path true ∷ []

module _ (stringify : SiteDraft → Text) where
  unfoldable pub save_done : Bool → Site → ℕ → Client → Client × List Effect
  unfolding on_saved cache_saved encode_uri_component
  save_done is_new saved ttl c = (
    record c {
      page = on_saved stringify saved ttl c.page;
      cached_sites = cache_saved saved c.cached_sites;
    },
    invalidate sites
        ∷ invalidate (site_publish (some saved.id))
        ∷ invalidate (site_allowlist (some saved.id))
        ∷ success (if is_new then codes "站点已创建" else codes "站点配置已保存")
        ∷ (if is_new then go_to (before (codes "/sites/") (encode_uri_component saved.id)) else []),
  )

-- The notice of a started operation, chosen by the path of its request.
unfoldable pub operation_toast : Text → Text
unfolding ends_with
operation_toast path =
    if ends_with (codes "certificate") path
    then codes "TLS 签发已排队"
    else (if ends_with (codes "invalidate-cache") path then codes "缓存失效已发布" else codes "站点发布已启动")

unfoldable pub operation_done : Option Text → Text → List Effect
unfolding operation_toast
operation_done site_id path =
    success (operation_toast path)
    ∷ invalidate (site_tls site_id)
    ∷ invalidate (site_publish site_id)
    ∷ invalidate sites
    ∷ []

unfoldable pub delete_done : PublishStatus → Client → Client × List Effect
delete_done status c = (
  record c { deletion = some status; delete_open = false },
  invalidate sites ∷ success (codes "安全删除已启动") ∷ [],
)

-- `onError` of the three requests, with the message of the error.
unfoldable pub request_failed : Text → List Effect
request_failed message = failure message ∷ []

abbrev is_succeeded : Option DeploymentTask → Bool
is_succeeded none = false
is_succeeded (some task) = elim task.status [ TaskStatus.succeeded ↦ true | _ ↦ false ]

-- The effect that runs when the status of the removal's task changes.
unfoldable pub deletion_effect : Option PublishStatus → List Effect
deletion_effect deletion =
    if is_succeeded (task_of deletion)
    then success (codes "站点已安全删除") ∷ invalidate sites ∷ navigate (codes "/sites") true ∷ []
    else []
