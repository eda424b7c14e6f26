-- ===== src/Certificates/Status.antt =====
-- What the number of sites that need attention, the badges and the remaining validity say of each
-- other (frontend/src/features/certificates/certificates-page.tsx).
use cdn_platform.Prelude.{
  ℕ, ◌≡◌, refl, Bool, true, false, not, ◌&&◌, ◌||◌, Option, none, some, Text, codes, ◌===◌, arith,
  if◌then◌else◌,
}
use cdn_platform.Types.Task.{CertificateSiteStatus}
use cdn_platform.Site.Task.{active_task}
use cdn_platform.Certificates.{
  CertificateStatus, timestamp, certificate_is_valid, needs_attention, certificate_status,
  dated_status, is_due, is_ahead, is_failed, badge,
}

-- The badge is red or yellow.
unfoldable pub warns : CertificateStatus → Bool
unfolding ◌===◌
warns status = status.tone === codes "failed" || status.tone === codes "pending"

-- The badge says that the certificate holds, due for renewal or not.
unfoldable pub says_valid : CertificateStatus → Bool
unfolding ◌===◌
says_valid status = status.label === codes "有效" || status.label === codes "待续期"

-- The branches behind a task that is not active.
abbrev settled : ℕ → Bool → Bool → Bool → Option ℕ → Option ℕ → CertificateStatus
settled now needs failed present not_after due_at =
    if not needs
    then badge (codes "ready") (codes "无需证书")
    else if failed
    then badge (codes "failed") (codes "任务失败")
    else if not present
    then badge (codes "pending") (codes "未签发")
    else dated_status now not_after due_at

settled_warns :
    (now : ℕ) (needs failed present : Bool) (not_after due_at : Option ℕ)
    → warns (settled now needs failed present not_after due_at) ≡ (
        if not needs
        then false
        else if failed || not present
        then true
        else is_due now not_after due_at)
unfolding warns ◌===◌
settled_warns now false failed present not_after due_at = refl
settled_warns now true true present not_after due_at = refl
settled_warns now true false false not_after due_at = refl
settled_warns now true false true none due_at = refl
settled_warns now true false true (some t) none = ground arith
settled_warns now true false true (some t) (some d) = ground arith

settled_valid :
    (now : ℕ) (failed present : Bool) (not_after due_at : Option ℕ)
    → says_valid (settled now true failed present not_after due_at)
      ≡ (not failed && (present && is_ahead now not_after))
unfolding says_valid ◌===◌
settled_valid now true present not_after due_at = refl
settled_valid now false false not_after due_at = refl
settled_valid now false true none due_at = refl
settled_valid now false true (some t) none = ground arith
settled_valid now false true (some t) (some d) = ground arith

module _ (parse_date : Text → Option ℕ) where
  -- A site without an active task is counted as needing attention exactly when its badge is red or
  -- yellow.
  pub warns-certificate_status :
      (site : CertificateSiteStatus) (now : ℕ)
      → active_task site.task ≡ false
      → warns (certificate_status parse_date site now) ≡ needs_attention parse_date site now
  unfolding certificate_status needs_attention warns
  warns-certificate_status site now h = rw h (
      settled_warns now site.needs_certificate (is_failed site.task) site.certificate_present
        (timestamp parse_date site.not_after) (timestamp parse_date site.renewal_due_at))

  -- Of a site that needs a certificate and has neither an active nor a failed task, the badge says
  -- that the certificate holds exactly when the site is counted as valid.
  pub says_valid-certificate_status :
      (site : CertificateSiteStatus) (now : ℕ)
      → site.needs_certificate ≡ true
      → active_task site.task ≡ false
      → is_failed site.task ≡ false
      → says_valid (certificate_status parse_date site now)
        ≡ certificate_is_valid parse_date site now
  unfolding certificate_status certificate_is_valid says_valid
  says_valid-certificate_status site now needs h ok =
      rw (needs, h, ok)
        (settled_valid now false site.certificate_present (timestamp parse_date site.not_after)
          (timestamp parse_date site.renewal_due_at))
