-- ===== src/Site/Detail.antt =====
-- The Chinese wording of a task's detail, frontend/src/features/sites/site-detail-page.tsx
-- (`localizeTaskDetail`). The names that every JavaScript object inherits, such as `constructor`,
-- are taken for details that the table does not hold.
pub mod Wording
mod Tests
use cdn_platform.Prelude.{
  ℕ, Bool, true, false, ◌&&◌, List, [], ◌∷◌, ◌++◌, Option, none, some, Text, codes, is_truthy,
  ◌===◌, ◌==◌, span_digits, if◌then◌else◌,
}

-- The rest of a text behind a prefix.
unfoldable pub strip_prefix : Text → Text → Option Text
strip_prefix [] s = some s
strip_prefix (c ∷ p) [] = none
strip_prefix (c ∷ p) (d ∷ s) = let rest = strip_prefix p s in if c == d then rest else none

abbrev digits_then : Text → Text × Text → Option Text
digits_then after (d, rest) = if is_truthy d && (rest === after) then some d else none

-- `/^before(\d+)after$/`, for an `after` that begins with no digit.
unfoldable pub match_count : Text → Text → Text → Option Text
unfolding strip_prefix span_digits ◌===◌
match_count before after s = elim (strip_prefix before s) [
  | none ↦ none
  | some rest ↦ digits_then after (span_digits rest)
]

abbrev count_pair : Text → Text → Text × Text → Option (Text × Text)
count_pair between after (d, rest) =
    if is_truthy d
    then (elim (match_count between after rest) [ none ↦ none | some e ↦ some (d, e) ])
    else none

-- `/^before(\d+)between(\d+)after$/`, for texts between that begin with no digit.
unfoldable pub match_counts : Text → Text → Text → Text → Option (Text × Text)
unfolding match_count
match_counts before between after s = elim (strip_prefix before s) [
  | none ↦ none
  | some rest ↦ count_pair between after (span_digits rest)
]

abbrev exact : List (Text × Text)
exact =
    (codes "building node configurations", codes "正在生成边缘节点配置")
    ∷ (codes "preparing edge configuration confirmation", codes "正在等待边缘节点确认配置")
    ∷ (
      codes "configuration staged; no active assigned edge nodes to confirm",
      codes "配置已暂存，当前没有需要确认的在线分配节点",
    )
    ∷ (
      codes "publish task did not create edge confirmation targets; retry Publish",
      codes "发布任务未生成边缘确认目标，请重试发布",
    )
    ∷ (codes "queued for DNS-01 certificate issuance", codes "TLS 证书签发已排队")
    ∷ (codes "queued for certificate renewal", codes "TLS 证书续期已排队")
    ∷ (codes "preparing DNS-01 certificate issuance", codes "正在准备 DNS-01 证书签发")
    ∷ (codes "waiting for DNS-01 validation", codes "正在等待 DNS-01 验证")
    ∷ (codes "certificate renewed", codes "TLS 证书已续期")
    ∷ (codes "certificate stored; publish the site to deploy it", codes "TLS 证书已保存，请发布站点以部署到边缘节点")
    ∷ (codes "certificate queue is full; retry Issue TLS", codes "证书任务队列已满，请重试 TLS 签发")
    ∷ (
      codes "certificate issuance interrupted by control-plane shutdown; retry Issue TLS",
      codes "控制面停止导致证书签发中断，请重试 TLS 签发",
    )
    ∷ []

unfoldable pub lookup_exact : List (Text × Text) → Text → Option Text
unfolding ◌===◌
lookup_exact [] s = none
lookup_exact ((k, v) ∷ m) s = let rest = lookup_exact m s in if k === s then some v else rest

abbrev pub applied_by : Text
applied_by = codes "configuration applied by "

abbrev pub active_nodes : Text
active_nodes = codes " active edge node(s)"

abbrev pub not_applied : Text
not_applied = codes " edge node(s) did not apply the configuration"

abbrev change_applied_by : Text
change_applied_by = codes "配置变更已由 "

abbrev affected_online : Text
affected_online = codes " 个受影响的在线边缘节点应用"

-- The three forms with counts, in the order in which they are tried.
unfoldable pub localize_counts : Text → Text
unfolding match_count match_counts
localize_counts detail = elim (match_count applied_by active_nodes detail) [
  | some n ↦ change_applied_by ++ (n ++ affected_online)
  | none ↦ elim (match_counts applied_by (codes " of ") active_nodes detail) [
    | some (n, m) ↦ change_applied_by ++ (n ++ (codes "/" ++ (m ++ affected_online)))
    | none ↦ elim (match_count [] not_applied detail) [
      | some n ↦ n ++ codes " 个受影响的边缘节点未能应用配置"
      | none ↦ detail
    ]
  ]
]

-- An absent detail, and an empty one, is `undefined`.
unfoldable pub localize_task_detail : Option Text → Option Text
unfolding lookup_exact localize_counts
localize_task_detail none = none
localize_task_detail (some []) = none
localize_task_detail (some (c ∷ s)) = elim (lookup_exact exact (c ∷ s)) [
  | some wording ↦ some wording
  | none ↦ some (localize_counts (c ∷ s))
]
