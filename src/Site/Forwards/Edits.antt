-- ===== src/Site/Forwards/Edits.antt =====
-- Sessions of edits of the forwards (frontend/src/features/sites/site-detail-page.tsx).
use cdn_platform.Prelude.{
  ℕ, ◌≤◌, ◌≡◌, refl, false, List, [], ◌∷◌, ◌++◌, length, length-append, length-modify,
  length-erase_idx-le, erase_idx, arith, ap,
}
use cdn_platform.Site.Draft.{SiteDraft}
use cdn_platform.Site.Forwards.{
  max_forwards, ForwardEdit, update, add_disabled, add_forward, empty_forward, remove_forward,
}

-- One action on the card.
pub data Action : Type 0 where
  edit : ℕ → ForwardEdit → Action
  add : Action
  remove : ℕ → Action

unfoldable pub act : SiteDraft → Action → SiteDraft
unfolding update add_forward remove_forward
act draft (edit index values) = update draft index values
act draft add = add_forward draft
act draft (remove index) = remove_forward draft index

abbrev pub run : SiteDraft → List Action → SiteDraft
run draft [] = draft
run draft (a ∷ rest) = run (act draft a) rest

act-length :
    (draft : SiteDraft) (a : Action)
    → length draft.tcp_forwards ≤ max_forwards
    → length (act draft a).tcp_forwards ≤ max_forwards
unfolding act
act-length draft (edit index values) h = omega (arith, length-modify {0} draft.tcp_forwards index)
act-length draft add h = ground (arith, length-append draft.tcp_forwards (empty_forward ∷ []))
act-length draft (remove index) h = omega (arith, length-erase_idx-le draft.tcp_forwards index)

-- No sequence of edits, additions and removals takes a draft beyond 32 forwards.
pub length-run :
    (actions : List Action) (draft : SiteDraft)
    → length draft.tcp_forwards ≤ max_forwards
    → length (run draft actions).tcp_forwards ≤ max_forwards
length-run [] draft h = h
length-run (a ∷ rest) draft h = length-run rest (act draft a) (act-length draft a h)

erase_idx-append_last {ℓ} :
    {A : Type ℓ} (xs : List A) (x : A) → erase_idx (xs ++ x ∷ []) (length xs) ≡ xs
erase_idx-append_last [] x = refl
erase_idx-append_last (y ∷ xs) x = ap (y ∷◌) (erase_idx-append_last xs x)

-- Removing the row that an enabled click on add has made gives the draft back.
pub remove_forward-add_forward :
    (draft : SiteDraft)
    → add_disabled draft ≡ false
    → remove_forward (add_forward draft) (length draft.tcp_forwards) ≡ draft
unfolding add_forward remove_forward
remove_forward-add_forward draft h =
    rw h
      λ i. record draft { tcp_forwards = erase_idx-append_last draft.tcp_forwards empty_forward i }
