-- ===== src/Monitoring/Targets/Sent.antt =====
-- The requests about targets (frontend/src/features/monitoring/monitoring-page.tsx).
use cdn_platform.Prelude.{
  ℕ, ◌≤◌, ◌≡◌, ◌≢◌, refl, Bool, true, false, Text, Option, none, some, get_elem?, Bool-cases, inl,
  inr, arith, not, ◌||◌, trim, is_truthy, ===_iff,
}
use cdn_platform.Types.Monitoring.{MonitoringTarget}
use cdn_platform.Monitoring.{create_disabled}
use cdn_platform.Monitoring.Targets.{
  TargetsState, Editing, Event, Request, handle, has_dialog, renamed, removed, toggled,
  edit_disabled, submit_create, submit_edit, confirm_remove, press_toggle, create, rename, delete,
  toggle,
}
use cdn_platform.Monitoring.Targets.Exclusion.{Session, open_dialogs, Session-open_dialogs}

-- What holds of the state in which a request is sent.
pub record IsCreate (s : TargetsState) (name address : Text) : Type 0 where
  pub shown : s.create_open ≡ true
  pub entered : (s.name ≡ name) × (s.address ≡ address)
  pub full : (is_truthy (trim name) ≡ true) × (is_truthy (trim address) ≡ true)
  pub idle : s.create_pending ≡ false

pub record IsRename (s : TargetsState) (id name : Text) : Type 0 where
  pub dialog : Editing
  pub shown : s.edit ≡ some dialog
  pub of_target : dialog.target.id ≡ id
  pub entered : dialog.name ≡ name
  pub full : is_truthy (trim name) ≡ true
  pub new : trim name ≢ dialog.target.name
  pub idle : dialog.pending ≡ false

pub record IsDelete (s : TargetsState) (id : Text) : Type 0 where
  pub target : MonitoringTarget
  pub shown : s.remove ≡ some target
  pub of_target : target.id ≡ id
  pub idle : s.remove_pending ≡ false

pub record IsToggle (s : TargetsState) (id : Text) : Type 0 where
  pub row : ℕ
  pub target : MonitoringTarget
  pub listed : get_elem? s.targets row ≡ some target
  pub of_target : target.id ≡ id
  pub free : has_dialog s ≡ false
  pub idle : s.toggle_pending ≡ false

abbrev pub Permits : TargetsState → Request → Type 0
Permits s (create name address) = IsCreate s name address
Permits s (rename id name) = IsRename s id name
Permits s (delete id) = IsDelete s id
Permits s (toggle id enabled) = IsToggle s id

created-Permits :
    (s : TargetsState) (r : Request) → (handle submit_create s).1 ≡ some r → Permits s r
unfolding handle create_disabled
created-Permits s r sent =
    elim (Bool-cases (not s.create_open || create_disabled s.name s.address s.create_pending)) [
      | inl e ↦ absurd (cc (rw e at sent))
      | inr e ↦
          let same : create s.name s.address ≡ r = cc (rw e at sent) in
          rw⁻¹ same (record {
            shown = ground arith;
            entered = (refl, refl);
            full = ground arith;
            idle = ground arith;
          })
    ]

renamed-Permits :
    (s : TargetsState) (e : Option Editing) (r : Request)
    → s.edit ≡ e
    → (renamed s e).1 ≡ some r
    → Permits s r
unfolding edit_disabled
renamed-Permits s none r here sent = absurd (cc)
renamed-Permits s (some e) r here sent = elim (Bool-cases (edit_disabled e)) [
  | inl shut ↦ absurd (cc (rw shut at sent))
  | inr free ↦
      let same : rename e.target.id e.name ≡ r = cc (rw free at sent) in
      rw⁻¹ same (record {
        dialog = e;
        shown = here;
        of_target = refl;
        entered = refl;
        full = ground arith;
        new = ground (arith, ===_iff (trim e.name) e.target.name);
        idle = ground arith;
      })
]

removed-Permits :
    (s : TargetsState) (target : Option MonitoringTarget) (r : Request)
    → s.remove ≡ target
    → (removed s target).1 ≡ some r
    → Permits s r
removed-Permits s none r here sent = absurd (cc)
removed-Permits s (some target) r here sent = elim (Bool-cases s.remove_pending) [
  | inl busy ↦ absurd (cc (rw busy at sent))
  | inr idle ↦
      let same : delete target.id ≡ r = cc (rw idle at sent) in
      rw⁻¹ same (record { target = target; shown = here; of_target = refl; idle = idle })
]

toggled-Permits :
    (s : TargetsState) (row : ℕ) (enabled : Bool) (target : Option MonitoringTarget) (r : Request)
    → get_elem? s.targets row ≡ target
    → (toggled s enabled target).1 ≡ some r
    → Permits s r
toggled-Permits s row enabled none r here sent = absurd (cc)
toggled-Permits s row enabled (some target) r here sent =
    elim (Bool-cases (has_dialog s || s.toggle_pending)) [
      | inl busy ↦ absurd (cc (rw busy at sent))
      | inr idle ↦
          let same : toggle target.id enabled ≡ r = cc (rw idle at sent) in
          rw⁻¹ same (record {
            row = row;
            target = target;
            listed = here;
            of_target = refl;
            free = ground arith;
            idle = ground arith;
          })
    ]

permitted : (e : Event) (s : TargetsState) (r : Request) → (handle e s).1 ≡ some r → Permits s r
unfolding handle
permitted submit_create s r sent = created-Permits s r sent
permitted submit_edit s r sent = renamed-Permits s s.edit r refl sent
permitted confirm_remove s r sent = removed-Permits s s.remove r refl sent
permitted (press_toggle row enabled) s r sent =
    toggled-Permits s row enabled (get_elem? s.targets row) r refl sent
permitted e s r sent = absurd (cc)

-- Whatever is pressed, typed and answered: a target is only added from its open dialog, with a name and
-- an address that are not blank; only the target in the open dialog is renamed, to a name that is not
-- blank and, trimmed, not its own; only the one in the open confirmation is deleted; only one that is
-- listed is switched, with no dialog open. No addition, deletion or switch is sent while one of its
-- kind is open, and no renaming while one of the open dialog itself is; renamings of dialogs closed
-- before may still be open then. Never is more than one dialog open.
pub handle-Permits :
    (e : Event) (r : Request) {s : TargetsState}
    → Session s
    → (handle e s).1 ≡ some r
    → Permits s r × (open_dialogs s ≤ 1)
handle-Permits e r {s} run sent = (permitted e s r sent, Session-open_dialogs run)
