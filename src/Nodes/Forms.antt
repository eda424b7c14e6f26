-- ===== src/Nodes/Forms.antt =====
-- The dialogs of the list of nodes (frontend/src/features/nodes/nodes-page.tsx), and on the page of one
-- node the capacity of its server and the bars of its machine
-- (frontend/src/features/nodes/node-detail-page.tsx).
use cdn_platform.Prelude.{
  ℕ, ◌*◌, Bool, true, false, not, ◌&&◌, ◌||◌, List, [], ◌∷◌, Option, none, some, ◌or◌, Text, codes,
  ◌==◌, leb, min, includes, is_truthy, if◌then◌else◌,
}
use cdn_platform.Types.Node.{Node, NginxCapacity, UninstallJob, NodeUninstallStatus}
use cdn_platform.Badges.{lookup}

-- The dialog that adds a node, with its request.
pub record CreateState : Type 0 where
  pub is_open : Bool
  pub name : Text
  pub ip : Text
  pub pending : Bool

-- The browser requires both fields; the name has at most 80 code units while it is typed.
unfoldable pub submit_node : CreateState → CreateState × Option (Text × Text)
submit_node s =
    if s.pending || not (is_truthy s.name && is_truthy s.ip)
    then (s, none)
    else (record s { pending = true }, some (s.name, s.ip))

unfoldable pub node_created : Bool → CreateState → CreateState
node_created true s = record s { pending = false; name = []; ip = []; is_open = false }
node_created false s = record s { pending = false }

abbrev is_empty : Option (List Node) → Bool
is_empty none = true
is_empty (some []) = true
is_empty (some (x ∷ xs)) = false

-- `disabled` of the button that upgrades all nodes.
unfoldable pub bulk_disabled : Option (List Node) → Bool → Bool
bulk_disabled nodes pending = is_empty nodes || pending

-- The label and the tone of a result of it.
unfoldable pub bulk_state_label : Text → Text
unfolding lookup
bulk_state_label state =
    lookup
      ((codes "created", codes "已创建")
        ∷ (codes "already_active", codes "进行中")
        ∷ (codes "up_to_date", codes "已最新")
        ∷ (codes "blocked", codes "受阻")
        ∷ [])
      state
    or state

unfoldable pub bulk_state_status : Text → Text
unfolding lookup
bulk_state_status state =
    lookup
      ((codes "created", codes "queued")
        ∷ (codes "already_active", codes "applying")
        ∷ (codes "up_to_date", codes "succeeded")
        ∷ (codes "blocked", codes "failed")
        ∷ [])
      state
    or state

-- The form of the capacity: what is saved, which the browser keeps within its bounds.
unfoldable pub save_capacity : NginxCapacity → Bool → Option NginxCapacity
save_capacity draft pending =
    if pending
      || not (
          leb draft.worker_processes 128
          && (leb 256 draft.worker_connections && leb draft.worker_connections 65535)
          && (leb 1024 draft.worker_rlimit_nofile && leb draft.worker_rlimit_nofile 65536))
    then none
    else some draft

-- The length of a bar in percent, at most all of it, as a numerator and a denominator.
unfoldable pub usage : ℕ → ℕ → ℕ × ℕ
usage used total = if total == 0 then (0, 1) else (min (used * 100) (total * 100), total)

abbrev ended : List Text
ended = codes "succeeded" ∷ codes "forced" ∷ codes "canceled" ∷ []

abbrev job_interval : Option UninstallJob → Option ℕ
unfolding includes
job_interval none = none
job_interval (some job) = if includes ended job.status then none else some 5000

-- The poll interval of the removal, where `none` is `false`.
unfoldable pub uninstall_interval : Option NodeUninstallStatus → Option ℕ
unfolding includes job_interval
uninstall_interval none = none
uninstall_interval (some status) = job_interval status.job
