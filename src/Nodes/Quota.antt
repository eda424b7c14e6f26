-- ===== src/Nodes/Quota.antt =====
-- The cache quota of one node (`CacheQuotaSettings` of
-- frontend/src/features/nodes/node-detail-page.tsx).
use cdn_platform.Prelude.{
  ℕ, ◌≡◌, refl, Bool, List, [], ◌∷◌, Option, none, some, is_some, if◌then◌else◌, ◌or◌, arith,
}
use cdn_platform.Types.Node.{NodeCacheSettings}

pub record QuotaState : Type 0 where
  pub override_enabled : Bool
  pub size : ℕ

unfoldable pub quota_state : NodeCacheSettings → QuotaState
quota_state settings = record {
  override_enabled = is_some settings.override_size_gb;
  size = settings.override_size_gb or settings.default_size_gb;
}

-- The switch, and the input, which is disabled while the switch is off.
pub data QuotaControl : Type 0 where
  toggle : Bool → QuotaControl
  enter : ℕ → QuotaControl

unfoldable pub use_quota : QuotaState → QuotaControl → QuotaState
use_quota s (QuotaControl.toggle v) = record s { override_enabled = v }
use_quota s (QuotaControl.enter v) = if s.override_enabled then record s { size = v } else s

-- `cache_max_size_gb` of the request, and the size that the card shows.
unfoldable pub quota_payload : QuotaState → Option ℕ
quota_payload s = if s.override_enabled then some s.size else none

unfoldable pub effective_size : NodeCacheSettings → QuotaState → ℕ
effective_size settings s = if s.override_enabled then s.size else settings.default_size_gb

abbrev pub quota_session : QuotaState → List QuotaControl → QuotaState
quota_session s [] = s
quota_session s (c ∷ cs) = quota_session (use_quota s c) cs

effective_lem :
    (settings : NodeCacheSettings) (s : QuotaState)
    → effective_size settings s ≡ (quota_payload s or settings.default_size_gb)
unfolding effective_size quota_payload
effective_lem settings s = ground arith

fill_lem :
    (settings : NodeCacheSettings) (o : Option ℕ)
    → settings.override_size_gb ≡ o
    → quota_payload (quota_state settings) ≡ o
unfolding quota_payload quota_state
fill_lem settings none e = rw e refl
fill_lem settings (some n) e = rw e refl

-- The size that the card shows is at every moment the one that the node would have after a save;
-- and saving the form as it was filled sends the override that the node has.
pub quota_lem :
    (settings : NodeCacheSettings) (cs : List QuotaControl)
    → (effective_size settings (quota_session (quota_state settings) cs)
        ≡ (quota_payload (quota_session (quota_state settings) cs) or settings.default_size_gb))
      × (quota_payload (quota_state settings) ≡ settings.override_size_gb)
quota_lem settings cs = (effective_lem settings _, fill_lem settings _ refl)
