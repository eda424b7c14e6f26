-- ===== src/Site/Summary.antt =====
-- What the site page shows beside its form, frontend/src/features/sites/site-detail-page.tsx
-- (`SiteDetailPage`): its header, its panes, the summary of the draft, and the texts of the removal.
pub mod Panes
mod Tests
use cdn_platform.Prelude.{
  ℕ, Bool, true, false, not, ◌&&◌, ◌||◌, List, [], ◌∷◌, ◌++◌, map, length, is_some, Option, none,
  some, ◌or◌, Text, codes, is_truthy, ◌or_text◌, join, decimal, ◌==◌, if◌then◌else◌,
}
use cdn_platform.Types.Site.{Site, TcpForward}
use cdn_platform.Types.Task.{PublishStatus, DeploymentTask}
use cdn_platform.Site.Draft.{SiteDraft}
use cdn_platform.Site.Operations.{task_of}
use cdn_platform.Site.Page.{PageState, Snapshot, is_new, site_of}

unfoldable pub page_title : Bool → Option Site → Text
page_title created site =
    if created then codes "添加站点" else (elim site [ none ↦ codes "站点配置" | some s ↦ s.name ])

unfoldable pub page_description : Option Site → Text
unfolding join
page_description none = codes "创建新的边缘站点配置"
page_description (some s) =
    (join (codes ", ") s.domains or_text codes "无 HTTP 域名") ++ (codes " · " ++ s.id)

-- `sites.isLoading || nodes.isLoading || settings.isLoading || !loadedKey`, where `waiting` says that
-- one of the three queries is loading.
unfoldable pub loading : Bool → PageState → Bool
loading waiting s = waiting || not (is_truthy s.loaded_key)

unfoldable pub not_found : Snapshot → Bool
unfolding site_of
not_found q = not (is_new q) && (is_some q.sites && not (is_some (site_of q)))

unfoldable pub form_shown : Bool → Snapshot → PageState → Bool
unfolding loading site_of
form_shown waiting q s = not (loading waiting s) && (is_new q || is_some (site_of q))

-- The summary of the draft.
unfoldable pub sync_text : Bool → Text
sync_text dirty = if dirty then codes "有未保存的更改" else codes "配置已同步"

abbrev has_rows : List TcpForward → Bool
has_rows [] = false
has_rows (f ∷ rows) = true

unfoldable pub traffic_mode : SiteDraft → Text
traffic_mode d =
    if d.tcp_only
    then codes "仅 TCP / TLS"
    else (if has_rows d.tcp_forwards then codes "HTTP + TCP" else codes "HTTP / gRPC / WS")

unfoldable pub nodes_text : SiteDraft → Text
nodes_text d = decimal (length d.node_ids) ++ codes " 个"

unfoldable pub ttl_text : ℕ → SiteDraft → Text
ttl_text global_ttl d =
    if d.inherit_dns_ttl
    then decimal global_ttl ++ codes " 秒（全局）"
    else decimal d.dns_ttl_seconds ++ codes " 秒"

-- `item.listen_port || "--"`
abbrev port_text : TcpForward → Text
port_text f = if f.listen_port == 0 then codes "--" else decimal f.listen_port

unfoldable pub ports_text : SiteDraft → Text
unfolding join
ports_text d =
    if has_rows d.tcp_forwards
    then join (codes ", ") (map port_text d.tcp_forwards)
    else codes "未配置"

-- The alert above the form of a site that is being removed, and the dialog that asks for the removal.
abbrev detail_of : Option DeploymentTask → Text
detail_of none = []
detail_of (some task) = task.detail or []

unfoldable pub deleting_text : Option PublishStatus → Text
deleting_text deletion = detail_of (task_of deletion) or_text codes "配置已锁定，正在撤销 DNS 并等待边缘节点确认。"

unfoldable pub delete_title : Bool → Text
delete_title deleting = if deleting then codes "重试安全删除" else codes "安全删除站点"

unfoldable pub delete_label : Bool → Text
delete_label deleting = if deleting then codes "重试删除" else codes "开始删除"
