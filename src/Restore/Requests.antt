-- ===== src/Restore/Requests.antt =====
-- What has to be typed before a request is sent
-- (frontend/src/features/settings/backup-restore.tsx).
use cdn_platform.Prelude.{
  Bool, true, false, Option, none, some, Text, ◌∷◌, codes, [], ◌≡◌, ◌⊎◌, inl, inr, refl, arith,
  ===_iff, is_some, if◌then◌else◌, ◌||◌, not,
}
use cdn_platform.Types.Console.{RestoreSnapshot}
use cdn_platform.Confirm.{allowed, confirm_disabled}
use cdn_platform.Restore.{
  RestoreState, Event, Request, handle, confirm, confirm_start, confirm_deletion, job_id,
}

-- The request names what its dialog is about and carries the confirmation that was typed for it.
pub data Authorized (s : RestoreState) : Request → Type 0 where
  restore :
      (x : RestoreSnapshot)
      → s.selected ≡ some x
      → (x.short_id ≡ []) ⊎ (s.typed ≡ x.short_id)
      → s.start_pending ≡ false
      → Authorized s (Request.start_restore x.id x.short_id)
  deletion :
      (x : RestoreSnapshot)
      → s.deleting ≡ some x
      → (x.short_id ≡ []) ⊎ (s.typed ≡ x.short_id)
      → s.delete_pending ≡ none
      → Authorized s (Request.delete_snapshot x.id x.short_id)
  commit :
      s.commit_open ≡ true
      → s.typed ≡ codes "RESTORE"
      → s.commit_pending ≡ false
      → Authorized s (Request.commit_restore (job_id s.job) (codes "RESTORE"))
  cancel :
      s.cancel_open ≡ true
      → s.cancel_pending ≡ false
      → Authorized s (Request.cancel_restore (job_id s.job))

-- A button with a confirmation that can be pressed.
enabled_parts :
    (c v : Text) (pending : Bool)
    → confirm_disabled (some c) v pending ≡ false
    → ((c ≡ []) ⊎ (v ≡ c)) × (pending ≡ false)
unfolding confirm_disabled allowed
enabled_parts [] v pending h = (inl refl, ground arith)
enabled_parts (x ∷ c) v pending h = (inr ((===_iff v (x ∷ c)).0 (ground arith)), ground arith)

abbrev chosen : Bool → RestoreState → RestoreState × Option Request → RestoreState × Option Request
chosen refused s sending = if refused then (s, none) else sending

sent :
    (s t : RestoreState) {x r : Request} (b : Bool)
    → (chosen b s (t, some x)).1 ≡ some r
    → (b ≡ false) × (x ≡ r)
sent s t true e = cc
sent s t false e = (refl, cc)

sent_start :
    (s : RestoreState) (o : Option RestoreSnapshot) (r : Request)
    → s.selected ≡ o
    → (confirm_start s o).1 ≡ some r
    → Authorized s r
sent_start s none r e h = cc
sent_start s (some x) r e h =
    let (able, same) = sent s _ (confirm_disabled (some x.short_id) s.typed s.start_pending) h in
    let (typed, free) = enabled_parts x.short_id s.typed s.start_pending able in
    rw⁻¹ same (Authorized.restore x e typed free)

sent_deletion :
    (s : RestoreState) (o : Option RestoreSnapshot) (r : Request)
    → s.deleting ≡ o
    → (confirm_deletion s o).1 ≡ some r
    → Authorized s r
sent_deletion s none r e h = cc
sent_deletion s (some x) r e h =
    let (able, same) =
      sent s _ (confirm_disabled (some x.short_id) s.typed (is_some s.delete_pending)) h in
    let (typed, free) = enabled_parts x.short_id s.typed (is_some s.delete_pending) able in
    rw⁻¹ same (Authorized.deletion x e typed (ground arith))

-- A restore is prepared, and a snapshot deleted, only after the snapshot's short id was typed into
-- the dialog about it (unless it has none); the data are switched only after RESTORE was typed; and
-- no request is sent while one of its kind is in flight. No other event sends a request.
pub handle-Authorized :
    (s : RestoreState) (e : Event) (r : Request) → (handle s e).1 ≡ some r → Authorized s r
unfolding handle confirm
handle-Authorized s Event.confirm_restore r h = sent_start s s.selected r refl h
handle-Authorized s Event.confirm_delete r h = sent_deletion s s.deleting r refl h
handle-Authorized s Event.confirm_commit r h =
    let refused = confirm_disabled (some (codes "RESTORE")) s.typed s.commit_pending in
    let (able, same) = sent s _ (not s.commit_open || refused) h in
    let (typed, free) = enabled_parts (codes "RESTORE") s.typed s.commit_pending (ground arith) in
    rw⁻¹ same (Authorized.commit (ground arith) (ground arith) free)
handle-Authorized s Event.confirm_cancel r h =
    let refused = confirm_disabled none s.typed s.cancel_pending in
    let (able, same) = sent s _ (not s.cancel_open || refused) h in
    rw⁻¹ same (Authorized.cancel (ground arith) (ground arith))
handle-Authorized s _ r h = cc
