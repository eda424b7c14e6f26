-- ===== src/SiteList.antt =====
-- The list of sites (frontend/src/features/sites/sites-page.tsx): the status and protocol of a row.
pub mod Protocol
mod Tests
use cdn_platform.Prelude.{
  ℕ, Bool, true, false, not, ◌||◌, List, [], ◌∷◌, map, Option, none, some, Text, codes, ◌===◌, ◌==◌,
  fold_case, if◌then◌else◌,
}
use cdn_platform.Types.Site.{Site, TcpForward}
use cdn_platform.Types.Task.{TaskStatus, DeploymentTask, PublishStatus}
use cdn_platform.Site.Task.{active_task}

-- The badge: a status of its own with a label, or the status of a task with its usual label.
pub data SiteBadge : Type 0 where
  deleting stopped published unpublished : SiteBadge
  of_task : TaskStatus → SiteBadge

abbrev task_in : Option PublishStatus → Option DeploymentTask
task_in none = none
task_in (some status) = status.task

abbrev badge_for : Site → Option DeploymentTask → SiteBadge
badge_for site (some task) = SiteBadge.of_task task.status
badge_for site none = if site.published then SiteBadge.published else SiteBadge.unpublished

-- `SiteStatus`
unfoldable pub site_badge : Site → Option PublishStatus → SiteBadge
site_badge site publish =
    if site.deleting
    then SiteBadge.deleting
    else if not site.enabled
    then SiteBadge.stopped
    else badge_for site (task_in publish)

unfoldable pub publish_interval : Option PublishStatus → ℕ
unfolding active_task
publish_interval publish = if active_task (task_in publish) then 2000 else 20000

-- `s.split(":", 1)[0]`: what stands before the first colon.
unfoldable pub before_colon : Text → Text
before_colon [] = []
before_colon (c ∷ s) = let rest = before_colon s in if c == 58 then [] else c ∷ rest

-- The scheme in lower case. The schemes it is compared with are ASCII, and no other letter has one
-- of theirs as its lower case.
unfoldable pub scheme : Text → Text
unfolding before_colon
scheme url = map fold_case (before_colon url)

pub data SiteProtocol : Type 0 where
  tcp_tls http_tcp grpc websocket http_ws_sse : SiteProtocol

abbrev pub scheme_protocol : Text → SiteProtocol
scheme_protocol s =
    if s === codes "grpc" || s === codes "grpcs"
    then SiteProtocol.grpc
    else if s === codes "ws" || s === codes "wss"
    then SiteProtocol.websocket
    else SiteProtocol.http_ws_sse

abbrev pub forwards_protocol : List TcpForward → Text → SiteProtocol
forwards_protocol [] s = scheme_protocol s
forwards_protocol (f ∷ fs) s = SiteProtocol.http_tcp

-- `siteProtocol`
unfoldable pub site_protocol : Site → SiteProtocol
unfolding scheme ◌===◌
site_protocol site =
    if site.tcp_only
    then SiteProtocol.tcp_tls
    else forwards_protocol site.tcp_forwards (scheme site.primary_origin.url)
