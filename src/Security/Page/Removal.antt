-- ===== src/Security/Page/Removal.antt =====
-- What the security page deletes (frontend/src/features/security/security-page.tsx).
use cdn_platform.Prelude.{
  ◌≡◌, refl, ◌||◌, List, ◌++◌, get_elem?, Option, none, some, Option-cases, is_some, Bool-cases,
  inl, inr,
}
use cdn_platform.Types.Security.{SecurityBan, SecurityOverview}
use cdn_platform.Security.Page.{
  SecurityState, SecurityEvent, Removed, handle, change, has_dialog, removal, unbanned,
  closed_after, with_overview, delete_item, bans_of,
}
use cdn_platform.Security.Page.Shown.{
  WasShown, Session, IsSound, begin, step, brings, answer_of, kept, taken, guarded_press,
}

answered :
    (s t : SecurityState) (a : Option SecurityOverview) (seen : List SecurityOverview)
    → t.overview ≡ s.overview
    → t.remove ≡ s.remove
    → IsSound s seen
    → IsSound (with_overview a t) (answer_of a ++ seen)
answered s t none seen same still h = kept s t seen same still h
answered s t (some o) seen same still h = taken s _ o seen refl (inl still) h

removal_answered :
    (s : SecurityState) (a : Option SecurityOverview) (seen : List SecurityOverview)
    → IsSound s seen
    → IsSound
        (with_overview a (record s { remove_pending = none; remove = closed_after a s.remove }))
        (answer_of a ++ seen)
removal_answered s none seen h = kept s _ seen refl refl h
removal_answered s (some o) seen h = taken s _ o seen refl (inr refl) h

unbanned-IsSound :
    (s : SecurityState) (ban : Option SecurityBan) (seen : List SecurityOverview)
    → IsSound s seen
    → IsSound (unbanned s ban).0 seen
unbanned-IsSound s none seen h = h
unbanned-IsSound s (some ban) seen h = elim (Bool-cases (has_dialog s || s.unban_pending)) [
  | inl e ↦ rw e h
  | inr e ↦ rw e (kept s _ seen refl refl h)
]

removal-IsSound :
    (s : SecurityState) (target : Option Removed) (seen : List SecurityOverview)
    → IsSound s seen
    → IsSound (removal s target).0 seen
removal-IsSound s none seen h = h
removal-IsSound s (some t) seen h = elim (Bool-cases (is_some s.remove_pending)) [
  | inl e ↦ rw e h
  | inr e ↦ rw e (kept s _ seen refl refl h)
]

deploy-IsSound :
    (s : SecurityState) (seen : List SecurityOverview)
    → IsSound s seen
    → IsSound (handle s SecurityEvent.press_deploy).0 seen
unfolding handle
deploy-IsSound s seen h = elim (Bool-cases (has_dialog s || s.deploy_pending)) [
  | inl e ↦ rw e h
  | inr e ↦ rw e (kept s _ seen refl refl h)
]

handle-IsSound :
    (e : SecurityEvent) (s : SecurityState) (seen : List SecurityOverview)
    → IsSound s seen
    → IsSound (handle s e).0 (brings e ++ seen)
unfolding handle change
handle-IsSound SecurityEvent.press_deploy s seen h = deploy-IsSound s seen h
handle-IsSound (SecurityEvent.press_unban i) s seen h =
    unbanned-IsSound s (get_elem? (bans_of s.overview) i) seen h
handle-IsSound SecurityEvent.confirm_remove s seen h = removal-IsSound s s.remove seen h
handle-IsSound SecurityEvent.close_policy s seen h = kept s _ seen refl refl h
handle-IsSound SecurityEvent.close_rate s seen h = kept s _ seen refl refl h
handle-IsSound SecurityEvent.dismiss s seen h = record { held = h.held; shown = λ t e. cc }
handle-IsSound (SecurityEvent.saved o) s seen h = taken s _ o seen refl (inl refl) h
handle-IsSound (SecurityEvent.fetched o) s seen h = taken s _ o seen refl (inl refl) h
handle-IsSound (SecurityEvent.deploy_answered a) s seen h = answered s _ a seen refl refl h
handle-IsSound (SecurityEvent.unban_answered a) s seen h = answered s _ a seen refl refl h
handle-IsSound (SecurityEvent.remove_answered a) s seen h = removal_answered s a seen h
handle-IsSound SecurityEvent.press_new_policy s seen h =
    guarded_press SecurityEvent.press_new_policy s seen h
handle-IsSound SecurityEvent.press_new_rate s seen h =
    guarded_press SecurityEvent.press_new_rate s seen h
handle-IsSound (SecurityEvent.press_policy i) s seen h =
    guarded_press (SecurityEvent.press_policy i) s seen h
handle-IsSound (SecurityEvent.press_rate i) s seen h =
    guarded_press (SecurityEvent.press_rate i) s seen h
handle-IsSound (SecurityEvent.press_remove_policy i) s seen h =
    guarded_press (SecurityEvent.press_remove_policy i) s seen h
handle-IsSound (SecurityEvent.press_remove_rate i) s seen h =
    guarded_press (SecurityEvent.press_remove_rate i) s seen h

Session-IsSound :
    {s : SecurityState} {seen : List SecurityOverview} → Session s seen → IsSound s seen
Session-IsSound begin = record { held = λ o e. cc; shown = λ t e. cc }
Session-IsSound (step e s) = handle-IsSound e _ _ (Session-IsSound s)

sent_removal :
    (s : SecurityState) (target : Option Removed) (t : Removed)
    → (removal s target).1 ≡ some (delete_item t)
    → (target ≡ some t) × (s.remove_pending ≡ none)
sent_removal s none t e = cc
sent_removal s (some u) t e = elim (Option-cases s.remove_pending) [
  | inl idle ↦ (cc (rw idle at e), idle)
  | inr (v, busy) ↦ absurd (cc (rw busy at e))
]

-- Only the confirmation of a removal sends one.
removal_sent :
    (e : SecurityEvent) (s : SecurityState) (t : Removed)
    → (handle s e).1 ≡ some (delete_item t)
    → (s.remove ≡ some t) × (s.remove_pending ≡ none)
unfolding handle
removal_sent SecurityEvent.press_deploy s t e =
    elim (Bool-cases (has_dialog s || s.deploy_pending)) [
      | inl b ↦ absurd (cc (rw b at e))
      | inr b ↦ absurd (cc (rw b at e))
    ]
removal_sent (SecurityEvent.press_unban i) s t e =
    elim (Option-cases (get_elem? (bans_of s.overview) i)) [
      | inl b ↦ absurd (cc (rw b at e))
      | inr (ban, b) ↦ elim (Bool-cases (has_dialog s || s.unban_pending)) [
        | inl c ↦ absurd (cc (rw (b, c) at e))
        | inr c ↦ absurd (cc (rw (b, c) at e))
      ]
    ]
removal_sent SecurityEvent.confirm_remove s t e = sent_removal s s.remove t e
removal_sent SecurityEvent.close_policy s t e = cc
removal_sent SecurityEvent.close_rate s t e = cc
removal_sent SecurityEvent.dismiss s t e = cc
removal_sent (SecurityEvent.saved o) s t e = cc
removal_sent (SecurityEvent.fetched o) s t e = cc
removal_sent (SecurityEvent.deploy_answered a) s t e = cc
removal_sent (SecurityEvent.unban_answered a) s t e = cc
removal_sent (SecurityEvent.remove_answered a) s t e = cc
removal_sent SecurityEvent.press_new_policy s t e = cc
removal_sent SecurityEvent.press_new_rate s t e = cc
removal_sent (SecurityEvent.press_policy i) s t e = cc
removal_sent (SecurityEvent.press_rate i) s t e = cc
removal_sent (SecurityEvent.press_remove_policy i) s t e = cc
removal_sent (SecurityEvent.press_remove_rate i) s t e = cc

-- Whatever is pressed and answered, a removal that the page sends names a rate limit, or a policy that
-- is not built in, of an answer that the page has had, stands in the open confirmation, and is sent
-- while no other removal is open.
pub handle-WasShown :
    (e : SecurityEvent) {s : SecurityState} {seen : List SecurityOverview} (t : Removed)
    → Session s seen
    → (handle s e).1 ≡ some (delete_item t)
    → WasShown seen t × (s.remove ≡ some t) × (s.remove_pending ≡ none)
handle-WasShown e {s} t run sent =
    let (named, idle) = removal_sent e s t sent in
    ((Session-IsSound run).shown t named, named, idle)
