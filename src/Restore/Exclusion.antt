-- ===== src/Restore/Exclusion.antt =====
-- Which requests can be in flight together (frontend/src/features/settings/backup-restore.tsx).
use cdn_platform.Prelude.{
  ℕ, ◌+◌, ◌≤◌, Bool, true, false, List, [], ◌∷◌, Option, none, some, is_some, arith, ◌≡◌,
  if◌then◌else◌, refl, not, ◌||◌, ◌&&◌, and_parts, Text, ap, codes,
}
use cdn_platform.Types.Console.{RestoreSnapshot}
use cdn_platform.Confirm.{confirm_disabled}
use cdn_platform.Restore.{
  change, Request, confirm_start, confirm_deletion, deleted, RestoreState, initial, press, busy,
  has_dialog, Event, handle, answer, confirm, row_disabled, can_commit, can_cancel,
}

abbrev bit : Bool → ℕ
bit true = 1
bit false = 0

-- How many of the four requests are in flight, and how many of the four dialogs are open.
abbrev pub in_flight : RestoreState → ℕ
in_flight s =
    bit s.start_pending
    + (bit s.commit_pending + (bit s.cancel_pending + bit (is_some s.delete_pending)))

abbrev pub open_dialogs : RestoreState → ℕ
open_dialogs s =
    bit (is_some s.selected) + (bit (is_some s.deleting) + (bit s.commit_open + bit s.cancel_open))

-- At most one request is in flight, at most one dialog is open, and a dialog that is open beside a
-- request is the one that has sent it.
pub record IsExclusive (s : RestoreState) : Type 0 where
  pub requests : in_flight s ≤ 1
  pub dialogs : open_dialogs s ≤ 1
  pub restore : in_flight s + bit (is_some s.selected) ≤ 1 + bit s.start_pending
  pub delete : in_flight s + bit (is_some s.deleting) ≤ 1 + bit (is_some s.delete_pending)
  pub commit : in_flight s + bit s.commit_open ≤ 1 + bit s.commit_pending
  pub cancel : in_flight s + bit s.cancel_open ≤ 1 + bit s.cancel_pending

abbrev pub run : RestoreState → List Event → RestoreState
run s [] = s
run s (e ∷ es) = run (handle s e).0 es

idle : (s : RestoreState) → busy s ≡ false → in_flight s ≡ 0
idle s h = ground arith

closed : (s : RestoreState) → has_dialog s ≡ false → open_dialogs s ≡ 0
closed s h = ground arith

when-IsExclusive :
    (b : Bool) (s t : RestoreState)
    → IsExclusive s
    → (b ≡ true → IsExclusive t)
    → IsExclusive (if b then t else s)
when-IsExclusive true s t hs ht = ht refl
when-IsExclusive false s t hs ht = hs

unless-IsExclusive :
    (b : Bool) (s t : RestoreState)
    → IsExclusive s
    → (b ≡ false → IsExclusive t)
    → IsExclusive (if b then s else t)
unless-IsExclusive true s t hs ht = hs
unless-IsExclusive false s t hs ht = ht refl

-- A dialog that is opened where none is open and no request is in flight.
opens-IsExclusive :
    (s t : RestoreState)
    → has_dialog s ≡ false
    → busy s ≡ false
    → in_flight t ≡ in_flight s
    → open_dialogs t ≤ 1
    → IsExclusive t
opens-IsExclusive s t quiet free same one =
    let none_runs = idle s free in
    record {
      requests = omega arith;
      dialogs = one;
      restore = omega arith;
      delete = omega arith;
      commit = omega arith;
      cancel = omega arith;
    }

or_parts : (a b : Bool) → (a || b) ≡ false → (a ≡ false) × (b ≡ false)
or_parts a b h = ground arith

not_left : (a b : Bool) → (not a && b) ≡ true → (a ≡ false) × (b ≡ true)
not_left a b h = ground arith

not_right : (a b : Bool) → (a && not b) ≡ true → b ≡ false
not_right a b h = ground arith

commit_free : (s : RestoreState) → can_commit s ≡ true → busy s ≡ false
unfolding can_commit
commit_free s = not_right _ (busy s)

cancel_free : (s : RestoreState) → can_cancel s ≡ true → busy s ≡ false
unfolding can_cancel
cancel_free s h = not_right _ (busy s) (and_parts _ _ h).1

row_free : (s : RestoreState) → row_disabled s ≡ false → busy s ≡ false
unfolding row_disabled
row_free s h = (or_parts (busy s) _ h).0

press-IsExclusive : (s : RestoreState) (e : Event) → IsExclusive s → IsExclusive (press s e)
unfolding press
press-IsExclusive s (Event.press_restore x) h =
    unless-IsExclusive (has_dialog s || row_disabled s) s (record s { selected = some x }) h
      (λ g.
        let (quiet, usable) = or_parts (has_dialog s) (row_disabled s) g in
        let shut = closed s quiet in
        opens-IsExclusive s _ quiet (row_free s usable) refl (omega arith))
press-IsExclusive s (Event.press_delete x) h =
    unless-IsExclusive (has_dialog s || row_disabled s) s (record s { deleting = some x }) h
      (λ g.
        let (quiet, usable) = or_parts (has_dialog s) (row_disabled s) g in
        let shut = closed s quiet in
        opens-IsExclusive s _ quiet (row_free s usable) refl (omega arith))
press-IsExclusive s Event.press_commit h =
    when-IsExclusive (not (has_dialog s) && can_commit s) s (record s { commit_open = true }) h
      (λ g.
        let (quiet, usable) = not_left (has_dialog s) (can_commit s) g in
        let shut = closed s quiet in
        opens-IsExclusive s _ quiet (commit_free s usable) refl (omega arith))
press-IsExclusive s Event.press_cancel h =
    when-IsExclusive (not (has_dialog s) && can_cancel s) s (record s { cancel_open = true }) h
      (λ g.
        let (quiet, usable) = not_left (has_dialog s) (can_cancel s) g in
        let shut = closed s quiet in
        opens-IsExclusive s _ quiet (cancel_free s usable) refl (omega arith))
press-IsExclusive s _ h = h

usable :
    (c : Option Text) (v : Text) (pending : Bool)
    → confirm_disabled c v pending ≡ false
    → pending ≡ false
unfolding confirm_disabled
usable c v pending h = (or_parts _ pending h).1

unless_sent-IsExclusive :
    (b : Bool) (p q : RestoreState × Option Request)
    → IsExclusive p.0
    → (b ≡ false → IsExclusive q.0)
    → IsExclusive (if b then p else q).0
unless_sent-IsExclusive true p q hp hq = hp
unless_sent-IsExclusive false p q hp hq = hq refl

-- A state with one request more than `s`, where none was in flight.
sends-IsExclusive :
    (s t : RestoreState)
    → IsExclusive s
    → in_flight s ≡ 0
    → in_flight t ≡ 1
    → open_dialogs t ≡ open_dialogs s
    → bit (is_some t.selected) ≤ bit t.start_pending
    → bit (is_some t.deleting) ≤ bit (is_some t.delete_pending)
    → bit t.commit_open ≤ bit t.commit_pending
    → bit t.cancel_open ≤ bit t.cancel_pending
    → IsExclusive t
sends-IsExclusive s t h before after same a b c d = record {
  requests = omega arith;
  dialogs = omega (arith, h.dialogs);
  restore = omega arith;
  delete = omega arith;
  commit = omega arith;
  cancel = omega arith;
}

confirm_start-IsExclusive :
    (s : RestoreState) (o : Option RestoreSnapshot)
    → s.selected ≡ o
    → IsExclusive s
    → IsExclusive (confirm_start s o).0
confirm_start-IsExclusive s none e h = h
confirm_start-IsExclusive s (some x) e h =
    unless_sent-IsExclusive (confirm_disabled (some x.short_id) s.typed s.start_pending) (s, none) _
      h
      (λ g.
        let here = ap (λ o. bit (is_some o)) e in
        let free = ap bit (usable (some x.short_id) s.typed s.start_pending g) in
        sends-IsExclusive s (record s { start_pending = true }) h (omega arith) (omega arith) refl
          (omega arith) (omega arith) (omega arith) (omega arith))

confirm_deletion-IsExclusive :
    (s : RestoreState) (o : Option RestoreSnapshot)
    → s.deleting ≡ o
    → IsExclusive s
    → IsExclusive (confirm_deletion s o).0
confirm_deletion-IsExclusive s none e h = h
confirm_deletion-IsExclusive s (some x) e h =
    unless_sent-IsExclusive (confirm_disabled (some x.short_id) s.typed (is_some s.delete_pending))
      (s, none) _ h
      (λ g.
        let here = ap (λ o. bit (is_some o)) e in
        let free = ap bit (usable (some x.short_id) s.typed (is_some s.delete_pending) g) in
        sends-IsExclusive s (record s { delete_pending = some x }) h (omega arith) (omega arith)
          refl (omega arith) (omega arith) (omega arith) (omega arith))

confirm-IsExclusive : (s : RestoreState) (e : Event) → IsExclusive s → IsExclusive (confirm s e).0
unfolding confirm
confirm-IsExclusive s Event.confirm_restore h = confirm_start-IsExclusive s s.selected refl h
confirm-IsExclusive s Event.confirm_delete h = confirm_deletion-IsExclusive s s.deleting refl h
confirm-IsExclusive s Event.confirm_commit h =
    let refused = confirm_disabled (some (codes "RESTORE")) s.typed s.commit_pending in
    unless_sent-IsExclusive (not s.commit_open || refused) (s, none) _ h
      (λ g.
        let (shown, able) = or_parts (not s.commit_open) refused g in
        let here : bit s.commit_open ≡ 1 = ground arith in
        let free = ap bit (usable (some (codes "RESTORE")) s.typed s.commit_pending able) in
        sends-IsExclusive s (record s { commit_pending = true }) h (omega arith) (omega arith) refl
          (omega arith) (omega arith) (omega arith) (omega arith))
confirm-IsExclusive s Event.confirm_cancel h =
    let refused = confirm_disabled none s.typed s.cancel_pending in
    unless_sent-IsExclusive (not s.cancel_open || refused) (s, none) _ h
      (λ g.
        let (shown, able) = or_parts (not s.cancel_open) refused g in
        let here : bit s.cancel_open ≡ 1 = ground arith in
        let free = ap bit (usable none s.typed s.cancel_pending able) in
        sends-IsExclusive s (record s { cancel_pending = true }) h (omega arith) (omega arith) refl
          (omega arith) (omega arith) (omega arith) (omega arith))
confirm-IsExclusive s _ h = h

-- Requests that end and dialogs that close keep the invariant.
record Shrinks (s t : RestoreState) : Type 0 where
  start : bit t.start_pending ≤ bit s.start_pending
  commit : bit t.commit_pending ≤ bit s.commit_pending
  cancel : bit t.cancel_pending ≤ bit s.cancel_pending
  delete : bit (is_some t.delete_pending) ≤ bit (is_some s.delete_pending)
  selected : bit (is_some t.selected) ≤ bit (is_some s.selected)
  deleting : bit (is_some t.deleting) ≤ bit (is_some s.deleting)
  commit_open : bit t.commit_open ≤ bit s.commit_open
  cancel_open : bit t.cancel_open ≤ bit s.cancel_open

Shrinks-IsExclusive : (s t : RestoreState) → Shrinks s t → IsExclusive s → IsExclusive t
Shrinks-IsExclusive s t c h = record {
  requests = omega arith;
  dialogs = omega arith;
  restore = omega arith;
  delete = omega arith;
  commit = omega arith;
  cancel = omega arith;
}

deleted-IsExclusive :
    (s : RestoreState) (o : Option RestoreSnapshot) → IsExclusive s → IsExclusive (deleted s o)
deleted-IsExclusive s none h = h
deleted-IsExclusive s (some x) h = Shrinks-IsExclusive s _ (ground arith) h

answer-IsExclusive : (s : RestoreState) (e : Event) → IsExclusive s → IsExclusive (answer s e)
unfolding answer
answer-IsExclusive s (Event.start_answered (some next)) = Shrinks-IsExclusive s _ (ground arith)
answer-IsExclusive s (Event.start_answered none) = Shrinks-IsExclusive s _ (ground arith)
answer-IsExclusive s (Event.commit_answered (some next)) = Shrinks-IsExclusive s _ (ground arith)
answer-IsExclusive s (Event.commit_answered none) = Shrinks-IsExclusive s _ (ground arith)
answer-IsExclusive s (Event.cancel_answered (some next)) = Shrinks-IsExclusive s _ (ground arith)
answer-IsExclusive s (Event.cancel_answered none) = Shrinks-IsExclusive s _ (ground arith)
answer-IsExclusive s (Event.delete_answered true) = deleted-IsExclusive s s.delete_pending
answer-IsExclusive s (Event.delete_answered false) = Shrinks-IsExclusive s _ (ground arith)
answer-IsExclusive s _ = λ h. h

change-IsExclusive : (s : RestoreState) (e : Event) → IsExclusive s → IsExclusive (change s e)
unfolding change
change-IsExclusive s (Event.type_text v) h =
    when-IsExclusive (has_dialog s) s (record s { typed = v }) h
      (λ g. record {
        requests = h.requests;
        dialogs = h.dialogs;
        restore = h.restore;
        delete = h.delete;
        commit = h.commit;
        cancel = h.cancel;
      })
change-IsExclusive s Event.dismiss h = Shrinks-IsExclusive s _ (ground arith) h
change-IsExclusive s (Event.snapshots_fetched xs) h = Shrinks-IsExclusive s _ (ground arith) h
change-IsExclusive s (Event.job_fetched j) h = Shrinks-IsExclusive s _ (ground arith) h
change-IsExclusive s _ h = h

handle-IsExclusive : (s : RestoreState) (e : Event) → IsExclusive s → IsExclusive (handle s e).0
unfolding handle
handle-IsExclusive s e h =
    answer-IsExclusive _ e
      (change-IsExclusive _ e (press-IsExclusive _ e (confirm-IsExclusive s e h)))

run-IsExclusive : (s : RestoreState) (es : List Event) → IsExclusive s → IsExclusive (run s es)
run-IsExclusive s [] h = h
run-IsExclusive s (e ∷ es) h = run-IsExclusive (handle s e).0 es (handle-IsExclusive s e h)

initial-IsExclusive : IsExclusive initial
unfolding initial
initial-IsExclusive = ground arith

-- Whatever is pressed, typed, answered and refetched, in whatever order: at most one of the four
-- requests is in flight, at most one dialog is open, and a dialog that is open beside a request is
-- the one that has sent it.
pub session-IsExclusive : (es : List Event) → IsExclusive (run initial es)
session-IsExclusive es = run-IsExclusive initial es initial-IsExclusive
