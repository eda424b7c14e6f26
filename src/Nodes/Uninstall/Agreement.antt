-- ===== src/Nodes/Uninstall/Agreement.antt =====
-- The panel and the control plane (frontend/src/features/nodes/node-detail-page.tsx,
-- internal/control/uninstall.go).
use cdn_platform.Prelude.{
  ◌↔◌, ◌&&◌, ◌==◌, ◌⊎◌, false, not, arith, ===_iff, [], ◌≡◌, ◌≢◌, inl, inr, refl, sym, ◌∙◌, List,
  ◌∷◌, Bool-cases, Bool, true, Option, none, some, Text, codes, ◌===◌, is_some, and_parts,
}
use cdn_platform.Nodes.Uninstall.Control.{
  ControlState, check, check_prepare, check_upgrade, check_command, check_cancel, check_force,
  check_delete, pending_deletable,
}
use cdn_platform.Types.Node.{NodeStatus, UninstallJob, NodeUninstallStatus}
use cdn_platform.Nodes.Uninstall.{
  Action, current_job, is_shown, is_enabled, is_offered, can_prepare, deletable, deletable_status,
  is_empty, can_generate_command, was_seen, status_in, unless_canceled, can_stop, can_force,
  is_clear,
}

kept_status :
    (statuses : List Text) (o : Option UninstallJob)
    → status_in statuses (unless_canceled o) ≡ true
    → status_in statuses o ≡ true
kept_status statuses none h = h
kept_status statuses (some job) h = elim (Bool-cases (job.status === codes "canceled")) [
  | inl e ↦ absurd (cc (rw e at h))
  | inr e ↦ rw e at h
]

seen_is_some : (o : Option Text) → o ≢ some [] → was_seen o ≡ is_some o
seen_is_some none h = refl
seen_is_some (some []) h = absurd (h refl)
seen_is_some (some (c ∷ t)) h = refl

-- What an offered action still needs in the control plane, which the panel does not look at.
abbrev pub IsReady : ControlState → Text → NodeUninstallStatus → Action → Type 0
IsReady k confirmation status Action.prepare =
    (k.has_provider ≡ true)
    × (k.removes_dns ≡ true)
    × (k.upgrades ≡ false)
    × (was_seen status.node.active_upgrade_task_id ≡ false)
IsReady k confirmation status Action.command = k.has_url ≡ true
IsReady k confirmation status Action.cancel = Unit
IsReady k confirmation status Action.force = confirmation ≡ status.node.name
IsReady k confirmation status Action.delete =
    (confirmation ≡ status.node.name)
    × (k.is_assigned ≡ false)
    × ((status.node.status ≡ NodeStatus.uninstalled) ⊎ (k.never_enrolled ≡ true))

has_job :
    (statuses : List Text) (o : Option UninstallJob)
    → status_in statuses o ≡ true
    → is_some o ≡ true
has_job statuses none h = cc
has_job statuses (some job) h = refl

allowed_deletion :
    (k : ControlState) (node_status : NodeStatus) (fresh : Bool)
    → deletable_status node_status fresh ≡ true
    → (pending_deletable k node_status fresh ≡ true)
      ↔ ((node_status ≡ NodeStatus.uninstalled) ⊎ (k.never_enrolled ≡ true))
allowed_deletion k NodeStatus.uninstalled fresh h = (λ e. inl refl, λ e. refl)
allowed_deletion k NodeStatus.pending fresh h = ground arith
allowed_deletion k NodeStatus.active fresh h = cc
allowed_deletion k NodeStatus.draining fresh h = cc
allowed_deletion k NodeStatus.revoked fresh h = cc
allowed_deletion k NodeStatus.uninstalling fresh h = cc

module _ (k : ControlState) (status : NodeUninstallStatus) where
  preparation_taken :
      can_prepare status.node.status ≡ true
      → is_some (unless_canceled status.job) ≡ false
      → (check_prepare k status ≡ none) ↔ IsReady k [] status Action.prepare
  unfolding check_prepare check_upgrade
  preparation_taken paused first = ground arith

  stoppable : can_generate_command status ≡ true → status_in can_stop status.job ≡ true
  unfolding can_generate_command
  stoppable ready =
      let (empty, rest) =
        and_parts (is_empty status.blockers)
          (status.ready_in_seconds == 0 && status_in can_stop status.job) ready in
      (and_parts (status.ready_in_seconds == 0) (status_in can_stop status.job) rest).1

  command_taken :
      can_generate_command status ≡ true → (check_command k status ≡ none) ↔ (k.has_url ≡ true)
  unfolding check_command can_generate_command
  command_taken ready =
      let there : is_some status.job ≡ true = has_job can_stop status.job (stoppable ready) in
      rw (there, ready) (ground arith)

  forced_end_taken :
      (confirmation : Text)
      → status_in can_force status.job ≡ true
      → is_clear (some status) ≡ true
      → (check_force confirmation status ≡ none) ↔ (confirmation ≡ status.node.name)
  unfolding check_force
  forced_end_taken confirmation active clear = ground (arith, ===_iff confirmation status.node.name)

  deletion_taken :
      (confirmation : Text)
      → status.node.last_heartbeat_at ≢ some []
      → deletable status.node ≡ true
      → (check_delete k confirmation status ≡ none) ↔ IsReady k confirmation status Action.delete
  unfolding check_delete deletable
  deletion_taken confirmation seen h =
      let fresh = not (is_some status.node.last_heartbeat_at) && status.node.applied_version == 0 in
      let allows =
        allowed_deletion k status.node.status fresh
          (rw (seen_is_some status.node.last_heartbeat_at seen) at h) in
      ground (arith, ===_iff confirmation status.node.name)

  -- On the status that the control plane has sent, whose times are not empty and whose flag it has
  -- computed, the control plane takes an action that the panel offers exactly if what the panel does
  -- not look at is in order: for the preparation a provider for DNS that removes the node's records,
  -- and no upgrade under way or left unfinished; for the command its own URL; for the forced end and
  -- the deletion the node's name as confirmation, and for the deletion no site that holds the node and,
  -- where it is not uninstalled, no certificate or state of it. A cancellation it always takes.
  pub is_offered-check :
      (confirmation : Text) (pending : Bool) (action : Action)
      → (status.node.last_heartbeat_at ≢ some [])
      → status.can_generate_command ≡ can_generate_command status
      → is_offered status.node (some status) pending action ≡ true
      → (check k confirmation status action ≡ none) ↔ IsReady k confirmation status action
  unfolding is_offered is_shown is_enabled check check_cancel current_job
  is_offered-check confirmation pending action seen built h =
      let (shown, enabled) =
        and_parts (is_shown (some status) action) (is_enabled status.node pending action) h in
      offered action shown enabled
    where
      offered :
          (a : Action)
          → is_shown (some status) a ≡ true
          → is_enabled status.node pending a ≡ true
          → (check k confirmation status a ≡ none) ↔ IsReady k confirmation status a
      offered Action.prepare s e = preparation_taken (and_parts _ _ e).0 (ground arith)
      offered Action.command s e = command_taken (sym built ∙ (and_parts _ _ s).1)
      offered Action.cancel s e = rw (kept_status can_stop status.job s) (λ same. tt, λ ready. refl)
      offered Action.force s e =
          let (clear, active) = and_parts (is_clear (some status)) _ s in
          forced_end_taken confirmation (kept_status can_force status.job active) clear
      offered Action.delete s e =
          deletion_taken confirmation seen (and_parts (deletable status.node) _ e).0
