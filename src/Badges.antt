-- ===== src/Badges.antt =====
-- The badge of a status (frontend/src/components/status-badge.tsx, http-status-badge.tsx).
pub mod Labels
mod Tests
use cdn_platform.Prelude.{
  ℕ, ◌/◌, ◌==◌, Bool, true, false, List, [], ◌∷◌, Option, none, some, ◌or◌, Text, codes, ◌===◌,
  if◌then◌else◌,
}

-- `table[key]`
unfoldable pub lookup {ℓ} : {A : Type ℓ} → List (Text × A) → Text → Option A
unfolding ◌===◌
lookup [] key = none
lookup ((k, v) ∷ rows) key = let rest = lookup rows key in if k === key then some v else rest

abbrev pub labels : List (Text × Text)
labels =
    (codes "pending", codes "待激活")
    ∷ (codes "active", codes "运行中")
    ∷ (codes "draining", codes "已暂停")
    ∷ (codes "revoked", codes "已撤销")
    ∷ (codes "uninstalling", codes "卸载中")
    ∷ (codes "uninstalled", codes "已卸载")
    ∷ (codes "queued", codes "排队中")
    ∷ (codes "dispatching", codes "分发中")
    ∷ (codes "applying", codes "应用中")
    ∷ (codes "succeeded", codes "成功")
    ∷ (codes "partial", codes "部分成功")
    ∷ (codes "failed", codes "失败")
    ∷ (codes "rolled_back", codes "已回滚")
    ∷ (codes "ready", codes "已就绪")
    ∷ (codes "committing", codes "正在切换")
    ∷ (codes "completed", codes "已完成")
    ∷ (codes "cancelled", codes "已取消")
    ∷ (codes "canceled", codes "已取消")
    ∷ (codes "preparing", codes "准备中")
    ∷ (codes "running", codes "执行中")
    ∷ (codes "forced", codes "强制完成")
    ∷ []

-- The colours of the class names.
pub data Tone : Type 0 where
  emerald sky amber red : Tone

abbrev pub tones : List (Text × Tone)
tones =
    (codes "active", emerald)
    ∷ (codes "succeeded", emerald)
    ∷ (codes "completed", emerald)
    ∷ (codes "ready", sky)
    ∷ (codes "pending", amber)
    ∷ (codes "queued", amber)
    ∷ (codes "applying", sky)
    ∷ (codes "dispatching", sky)
    ∷ (codes "running", sky)
    ∷ (codes "failed", red)
    ∷ (codes "revoked", red)
    ∷ []

-- What the badge shows: the given label, that of the table, or the status itself.
unfoldable pub badge_label : Text → Option Text → Text
unfolding lookup
badge_label status label = label or (lookup labels status or status)

unfoldable pub badge_tone : Text → Option Tone
unfolding lookup
badge_tone status = lookup tones status

-- `HTTPStatusBadge`: the tone of a status code.
unfoldable pub http_tone : ℕ → Option Tone
http_tone status =
    if status / 100 == 2
    then some emerald
    else if status / 100 == 3
    then some sky
    else if status / 100 == 4
    then some amber
    else if status / 100 == 5
    then some red
    else none
