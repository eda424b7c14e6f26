-- ===== src/Site/Detail/Tests.antt =====
-- Tests of the wording of details, and its theorem at two counts.
use cdn_platform.Prelude.{◌≡◌, refl, [], ◌++◌, none, some, codes, decimal}
use cdn_platform.Site.Detail.{localize_task_detail, applied_by, active_nodes, not_applied}
use cdn_platform.Site.Detail.Wording.{localize_task_detail_counts}

details :
    (localize_task_detail (some (codes "certificate renewed")) ≡ some (codes "TLS 证书已续期"))
    × (localize_task_detail (some (codes "3 edge node(s) did not apply the configuration"))
        ≡ some (codes "3 个受影响的边缘节点未能应用配置"))
    × (localize_task_detail (some (codes "other")) ≡ some (codes "other"))
    × (localize_task_detail (some []) ≡ none)
unfolding localize_task_detail
details = (refl, refl, refl, refl)

localize_task_detail_counts_example :
    (localize_task_detail (some (applied_by ++ (decimal 2 ++ active_nodes)))
      ≡ some (codes "配置变更已由 " ++ (decimal 2 ++ codes " 个受影响的在线边缘节点应用")))
    × (localize_task_detail
          (some (applied_by ++ (decimal 2 ++ (codes " of " ++ (decimal 30 ++ active_nodes)))))
        ≡ some (
            codes "配置变更已由 "
            ++ (decimal 2 ++ (codes "/" ++ (decimal 30 ++ codes " 个受影响的在线边缘节点应用")))))
    × (localize_task_detail (some (decimal 2 ++ not_applied))
        ≡ some (decimal 2 ++ codes " 个受影响的边缘节点未能应用配置"))
localize_task_detail_counts_example = localize_task_detail_counts 2 30
