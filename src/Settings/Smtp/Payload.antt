-- ===== src/Settings/Smtp/Payload.antt =====
-- What an untouched form sends (frontend/src/features/settings/settings-page.tsx, `SMTPForm`).
use mathlib.Core.Path.{ap₂}
use mathlib.Core.List.{append_assoc}
use cdn_platform.Prelude.{
  ℕ, ◌≡◌, ◌≢◌, refl, ap, sym, ◌∙◌, true, false, List, [], ◌∷◌, ◌++◌, map, filter, none, Text, codes,
  ◌==◌, ◌or_text◌, is_truthy, trim, split_on, join, All, All-append, filter-eq_self, arith,
  if◌then◌else◌,
}
use cdn_platform.Prelude.Strings.Laws.{split_on-of-All, split_on-append}
use cdn_platform.Types.Settings.{SmtpSettings}
use cdn_platform.Settings.Smtp.{SmtpPayload, smtp_form, smtp_payload, split}

-- A recipient as the settings hold it: not empty, without spaces at its ends, without a comma.
pub record IsRecipient (r : Text) : Type 0 where
  pub not_empty : is_truthy r ≡ true
  pub trimmed : trim r ≡ r
  pub no_comma : All (λ c. (c == 44) ≡ false) r

split_on-join :
    (pre r : Text) (rs : List Text)
    → All (λ c. (c == 44) ≡ false) pre
    → All IsRecipient (r ∷ rs)
    → split_on (λ c. c == 44) (pre ++ join (codes ", ") (r ∷ rs)) ≡ (pre ++ r) ∷ map (32 ∷◌) rs
unfolding join
split_on-join pre r [] hp (hr, h) =
    split_on-of-All (λ c. c == 44) (pre ++ r) (All-append _ pre r hp hr.no_comma)
split_on-join pre r (q ∷ qs) hp (hr, h) =
    let rest : Text = 32 ∷ join (codes ", ") (q ∷ qs) in
    ap (split_on (λ c. c == 44)) (sym (append_assoc pre r (44 ∷ rest)))
    ∙ split_on-append (λ c. c == 44) (pre ++ r) 44 rest (All-append _ pre r hp hr.no_comma) refl
    ∙ ap ((pre ++ r) ∷◌) (split_on-join (32 ∷ []) q qs (refl, tt) h)

trimmed_tail : (rs : List Text) → All IsRecipient rs → map trim (map (32 ∷◌) rs) ≡ rs
unfolding trim
trimmed_tail [] h = refl
trimmed_tail (r ∷ rs) (hr, h) = ap₂ ◌∷◌ hr.trimmed (trimmed_tail rs h)

All-is_truthy : (rs : List Text) → All IsRecipient rs → All (λ r. is_truthy r ≡ true) rs
All-is_truthy [] h = tt
All-is_truthy (r ∷ rs) (hr, h) = (hr.not_empty, All-is_truthy rs h)

-- The recipients that the form shows are read back unchanged.
pub split-join : (rs : List Text) → All IsRecipient rs → split (join (codes ", ") rs) ≡ rs
unfolding split join split_on trim
split-join [] h = refl
split-join (r ∷ rs) (hr, h) =
    ap (λ ws. filter is_truthy (map trim ws)) (split_on-join [] r rs tt (hr, h))
    ∙ ap (filter is_truthy) (ap₂ ◌∷◌ hr.trimmed (trimmed_tail rs h))
    ∙ filter-eq_self is_truthy (r ∷ rs) (All-is_truthy (r ∷ rs) (hr, h))

-- The payload that repeats the settings, with no password.
abbrev pub repeated : SmtpSettings → SmtpPayload
repeated s = record {
  enabled = s.enabled;
  host = s.host;
  port = s.port;
  security = s.security;
  username = s.username;
  from_address = s.from_address;
  recipients = s.recipients;
  notification_categories = s.notification_categories;
  password = none;
}

port_kept : (port : ℕ) → port ≢ 0 → (if port == 0 then 587 else port) ≡ port
port_kept port h = ground arith

text_kept : (s d : Text) → is_truthy s ≡ true → (s or_text d) ≡ s
text_kept [] d h = cc
text_kept (c ∷ s) d h = refl

-- The untouched form of settings with a port, a kind of connection and proper recipients sends them
-- back as they are, and no password, so that saving it changes nothing.
pub smtp_payload-smtp_form :
    (s : SmtpSettings)
    → s.port ≢ 0
    → is_truthy s.security ≡ true
    → All IsRecipient s.recipients
    → smtp_payload (smtp_form s) ≡ repeated s
unfolding smtp_payload smtp_form
smtp_payload-smtp_form s port security recipients =
    rw
      (
        port_kept s.port port,
        text_kept s.security (codes "starttls") security,
        split-join s.recipients recipients,
      )
      refl
