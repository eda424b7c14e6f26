-- ===== src/Security/Page/Shown.antt =====
-- The items that the answers of the security page have shown (frontend/src/features/security/security-page.tsx).
use cdn_platform.Prelude.{
  ℕ, zero, suc, ◌≡◌, refl, sym, ◌∙◌, Bool, true, false, List, [], ◌∷◌, ◌++◌, get_elem?, Option,
  none, some, Text, Member, Bool-cases, ◌⊎◌, inl, inr, if◌then◌else◌,
}
use cdn_platform.Types.Security.{SecurityPolicy, RateLimitPolicy, SecurityOverview}
use cdn_platform.Security.Page.{
  SecurityState, SecurityEvent, Removed, Kind, policy, rate, handle, has_dialog, removable_policy,
  removable_rate, policies_of, rates_of, pressed,
}

-- The item that a removal names is in an answer; a policy that is built in does not count.
abbrev pub Names : Kind → SecurityOverview → Text → Type 0
Names policy overview id =
    (p : SecurityPolicy) × Member p overview.policies × (p.builtin ≡ false) × (p.id ≡ id)
Names rate overview id = (p : RateLimitPolicy) × Member p overview.rate_limit_policies × (p.id ≡ id)

abbrev pub WasShown : List SecurityOverview → Removed → Type 0
WasShown seen t = (o : SecurityOverview) × Member o seen × Names t.kind o t.id

-- The answers that an event brings.
abbrev pub answer_of : Option SecurityOverview → List SecurityOverview
answer_of none = []
answer_of (some overview) = overview ∷ []

abbrev pub brings : SecurityEvent → List SecurityOverview
brings (SecurityEvent.deploy_answered a) = answer_of a
brings (SecurityEvent.remove_answered a) = answer_of a
brings (SecurityEvent.unban_answered a) = answer_of a
brings (SecurityEvent.saved overview) = overview ∷ []
brings (SecurityEvent.fetched overview) = overview ∷ []
brings _ = []

abbrev pub fresh : SecurityState
fresh = record {
  overview = none;
  policy_dialog = none;
  rate_dialog = none;
  remove = none;
  deploy_pending = false;
  remove_pending = none;
  unban_pending = false;
}

-- The states of the page, with the answers so far.
pub data Session : SecurityState → List SecurityOverview → Type 0 where
  begin : Session fresh []
  step :
      (e : SecurityEvent) {s : SecurityState} {seen : List SecurityOverview}
      → Session s seen
      → Session (handle s e).0 (brings e ++ seen)

pub record IsSound (s : SecurityState) (seen : List SecurityOverview) : Type 0 where
  pub held : (o : SecurityOverview) → s.overview ≡ some o → Member o seen
  pub shown : (t : Removed) → s.remove ≡ some t → WasShown seen t

get_elem?-Member {ℓ} :
    {A : Type ℓ} (xs : List A) (i : ℕ) (x : A) → get_elem? xs i ≡ some x → Member x xs
get_elem?-Member [] i x h = cc
get_elem?-Member (y ∷ ys) zero x h = inl cc
get_elem?-Member (y ∷ ys) (suc i) x h = inr (get_elem?-Member ys i x h)

pub kept :
    (s t : SecurityState) (seen : List SecurityOverview)
    → t.overview ≡ s.overview
    → t.remove ≡ s.remove
    → IsSound s seen
    → IsSound t seen
kept s t seen same still h = record {
  held = λ o e. h.held o (sym same ∙ e);
  shown = λ r e. h.shown r (sym still ∙ e);
}

-- An answer that is taken over, where the dialog stays or closes.
pub taken :
    (s t : SecurityState) (o : SecurityOverview) (seen : List SecurityOverview)
    → t.overview ≡ some o
    → (t.remove ≡ s.remove) ⊎ (t.remove ≡ none)
    → IsSound s seen
    → IsSound t (o ∷ seen)
taken s t o seen now (inl still) h = record {
  held = λ q e. inl cc;
  shown = λ r e. let (q, m, names) = h.shown r (sym still ∙ e) in (q, inr m, names);
}
taken s t o seen now (inr gone) h = record { held = λ q e. inl cc; shown = λ r e. cc }

policy_names :
    (seen : List SecurityOverview) (found : Option SecurityPolicy) (old : Option Removed)
    (t : Removed)
    → ((p : SecurityPolicy)
        → found ≡ some p
        → (q : SecurityOverview) × Member q seen × Member p q.policies)
    → ((r : Removed) → old ≡ some r → WasShown seen r)
    → removable_policy found old ≡ some t
    → WasShown seen t
policy_names seen none old t hf ho e = ho t e
policy_names seen (some p) old t hf ho e = elim (Bool-cases p.builtin) [
  | inl b ↦ ho t (rw b at e)
  | inr b ↦
      let (q, m, mp) = hf p refl in
      let same : record { kind = policy; id = p.id; name = p.name } ≡ t = cc (rw b at e) in
      rw⁻¹ same (q, m, (p, mp, b, refl))
]

rate_names :
    (seen : List SecurityOverview) (found : Option RateLimitPolicy) (old : Option Removed)
    (t : Removed)
    → ((p : RateLimitPolicy)
        → found ≡ some p
        → (q : SecurityOverview) × Member q seen × Member p q.rate_limit_policies)
    → ((r : Removed) → old ≡ some r → WasShown seen r)
    → removable_rate found old ≡ some t
    → WasShown seen t
rate_names seen none old t hf ho e = ho t e
rate_names seen (some p) old t hf ho e =
    let (q, m, mp) = hf p refl in
    let same : record { kind = rate; id = p.id; name = p.name } ≡ t = cc in
    rw⁻¹ same (q, m, (p, mp, refl))

policy_row :
    (seen : List SecurityOverview) (o : Option SecurityOverview) (i : ℕ) (p : SecurityPolicy)
    → ((q : SecurityOverview) → o ≡ some q → Member q seen)
    → get_elem? (policies_of o) i ≡ some p
    → (q : SecurityOverview) × Member q seen × Member p q.policies
policy_row seen none i p h e = cc
policy_row seen (some q) i p h e = (q, h q refl, get_elem?-Member q.policies i p e)

rate_row :
    (seen : List SecurityOverview) (o : Option SecurityOverview) (i : ℕ) (p : RateLimitPolicy)
    → ((q : SecurityOverview) → o ≡ some q → Member q seen)
    → get_elem? (rates_of o) i ≡ some p
    → (q : SecurityOverview) × Member q seen × Member p q.rate_limit_policies
rate_row seen none i p h e = cc
rate_row seen (some q) i p h e = (q, h q refl, get_elem?-Member q.rate_limit_policies i p e)

guarded :
    (b : Bool) (s t : SecurityState) (seen : List SecurityOverview)
    → IsSound s seen
    → IsSound t seen
    → IsSound (if b then s else t) seen
guarded true s t seen hs ht = hs
guarded false s t seen hs ht = ht

pressed-IsSound :
    (e : SecurityEvent) (s : SecurityState) (seen : List SecurityOverview)
    → IsSound s seen
    → IsSound (pressed s e) seen
pressed-IsSound (SecurityEvent.press_remove_policy i) s seen h = record {
  held = h.held;
  shown = λ t e.
      policy_names seen (get_elem? (policies_of s.overview) i) s.remove t
        (λ p. policy_row seen s.overview i p h.held) h.shown e;
}
pressed-IsSound (SecurityEvent.press_remove_rate i) s seen h = record {
  held = h.held;
  shown = λ t e.
      rate_names seen (get_elem? (rates_of s.overview) i) s.remove t
        (λ p. rate_row seen s.overview i p h.held) h.shown e;
}
pressed-IsSound SecurityEvent.press_new_policy s seen h = kept s _ seen refl refl h
pressed-IsSound SecurityEvent.press_new_rate s seen h = kept s _ seen refl refl h
pressed-IsSound (SecurityEvent.press_policy i) s seen h = kept s _ seen refl refl h
pressed-IsSound (SecurityEvent.press_rate i) s seen h = kept s _ seen refl refl h
pressed-IsSound _ s seen h = h

pub guarded_press :
    (e : SecurityEvent) (s : SecurityState) (seen : List SecurityOverview)
    → IsSound s seen
    → IsSound (if has_dialog s then s else pressed s e) seen
guarded_press e s seen h =
    guarded (has_dialog s) s (pressed s e) seen h (pressed-IsSound e s seen h)
