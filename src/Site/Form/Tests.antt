-- ===== src/Site/Form/Tests.antt =====
-- A form that is sent, and one with a second page of forwards, with the theorem about them.
use cdn_platform.Prelude.{
  ℕ, ◌≡◌, ◌≢◌, refl, true, false, List, [], ◌∷◌, none, some, codes, arith, ◌===◌,
}
use cdn_platform.Types.Site.{TcpForward}
use cdn_platform.Site.Draft.{SiteDraft, site_payload, empty_draft}
use cdn_platform.Site.Forwards.{empty_forward, add_forward}
use cdn_platform.Site.Form.{edit, submit, choose_tab, set_body_size}
use cdn_platform.Site.Form.Bounds.{IsSubmitted, submit-IsSubmitted}

abbrev good_row : TcpForward
good_row = record empty_forward {
  name = codes "IMAPS";
  listen_port = 993;
  upstream_host = codes "mail";
  upstream_port = 993;
}

abbrev copies : ℕ → List TcpForward
copies Prim.Native.Nat.zero = []
copies (Prim.Native.Nat.suc n) = good_row ∷ copies n

abbrev filled : SiteDraft
filled = record (empty_draft 60) { name = codes "Main"; tcp_forwards = copies 2 }

-- A full page of good rows, and an empty row that the button for a new one adds behind it.
abbrev two_pages : SiteDraft
two_pages = add_forward (record filled { tcp_forwards = copies 20 })

presses :
    (submit false false 1 filled ≡ some (site_payload filled))
    × (submit true false 1 filled ≡ none)
    × (submit false false 1 (edit (set_body_size 0) filled) ≡ none)
    × (submit false false 1 (edit (choose_tab (codes "tcp")) (edit (set_body_size 0) filled))
        ≢ none)
unfolding submit edit ◌===◌ empty_draft
presses = (refl, refl, refl, λ e. cc)

-- The page on the screen is valid, and the empty row is sent.
hidden_row :
    (submit false false 1 two_pages ≡ some (site_payload two_pages))
    × (submit false false 2 two_pages ≡ none)
unfolding submit add_forward empty_draft
hidden_row = (refl, refl)

submit-IsSubmitted_example : IsSubmitted 1 filled (site_payload filled)
unfolding submit empty_draft
submit-IsSubmitted_example =
    submit-IsSubmitted false false 1 filled (site_payload filled) (omega arith) refl
