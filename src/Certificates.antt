-- ===== src/Certificates.antt =====
-- The page of the certificates (frontend/src/features/certificates/certificates-page.tsx): the state
-- of a site's certificate, its counts and tabs, and the button that issues or renews it.
pub mod Status
pub mod Remaining
pub mod Action
mod Tests
use cdn_platform.Prelude.{
  ℕ, ◌+◌, ◌-◌, ◌/◌, Bool, true, false, not, ◌&&◌, ◌||◌, List, [], filter, any, Option, none, some,
  Text, codes, ◌===◌, ◌++◌, is_truthy, if◌then◌else◌, ltb, leb,
}
use cdn_platform.Types.Task.{DeploymentTask, TaskStatus, CertificateSiteStatus, CertificateOverview}
use cdn_platform.Site.Task.{active_task}
use cdn_platform.Format.{format_duration, format_date}
use cdn_platform.Uri.{encode_uri_component, before}

-- `site.task?.status === "failed"`
abbrev pub is_failed : Option DeploymentTask → Bool
is_failed none = false
is_failed (some task) = elim task.status [ TaskStatus.failed ↦ true | _ ↦ false ]

-- `site.task?.kind === "renew_certificate"`
abbrev pub renews : Option DeploymentTask → Bool
unfolding ◌===◌
renews none = false
renews (some task) = task.kind === codes "renew_certificate"

-- `site.task?.status ?? "applying"`, the tone of the badge.
abbrev pub status_text : Option DeploymentTask → Text
status_text none = codes "applying"
status_text (some task) = elim task.status [
  | TaskStatus.queued ↦ codes "queued"
  | TaskStatus.dispatching ↦ codes "dispatching"
  | TaskStatus.applying ↦ codes "applying"
  | TaskStatus.succeeded ↦ codes "succeeded"
  | TaskStatus.partial ↦ codes "partial"
  | TaskStatus.failed ↦ codes "failed"
  | TaskStatus.rolled_back ↦ codes "rolled_back"
]

pub record CertificateStatus : Type 0 where
  pub tone : Text
  pub label : Text

abbrev pub badge : Text → Text → CertificateStatus
badge tone label = record { tone = tone; label = label }

pub data CertificateFilter : Type 0 where
  all_sites attention active : CertificateFilter

-- A time that is known and not after `now`, or known and after it.
abbrev pub has_come : ℕ → Option ℕ → Bool
has_come now none = false
has_come now (some time) = leb time now

abbrev pub is_ahead : ℕ → Option ℕ → Bool
is_ahead now none = false
is_ahead now (some time) = ltb now time

abbrev pub is_due : ℕ → Option ℕ → Option ℕ → Bool
is_due now none due_at = true
is_due now (some not_after) due_at = leb not_after now || has_come now due_at

-- The end of `certificateStatus`, for a certificate that is there.
abbrev pub dated_status : ℕ → Option ℕ → Option ℕ → CertificateStatus
dated_status now none due_at = badge (codes "failed") (codes "到期日未知")
dated_status now (some not_after) due_at =
    if leb not_after now
    then badge (codes "failed") (codes "已过期")
    else if has_come now due_at
    then badge (codes "pending") (codes "待续期")
    else badge (codes "succeeded") (codes "有效")

-- `Math.floor((not_after - now) / 1_000)` and the text for it: the seconds are at most 0 where
-- the time is less than a second ahead, and `Math.abs` rounds the time that has passed up.
unfoldable pub validity_text : ℕ → Option ℕ → Text
unfolding format_duration
validity_text now none = codes "未知"
validity_text now (some not_after) =
    if ltb not_after (now + 1000)
    then codes "已过期 " ++ format_duration (some ((now - not_after + 999) / 1000))
    else format_duration (some ((not_after - now) / 1000))

-- The sites of the answer, and those of each tab and number.
abbrev pub sites_of : Option CertificateOverview → List CertificateSiteStatus
sites_of none = []
sites_of (some overview) = overview.sites

-- `parse_date` gives the milliseconds of a date, and `none` where the text is no date.
module _ (parse_date : Text → Option ℕ) where
  unfoldable pub timestamp : Option Text → Option ℕ
  timestamp none = none
  timestamp (some value) = if is_truthy value then parse_date value else none

  unfoldable pub certificate_is_valid : CertificateSiteStatus → ℕ → Bool
  unfolding timestamp
  certificate_is_valid site now =
      site.certificate_present && is_ahead now (timestamp site.not_after)

  unfoldable pub needs_attention : CertificateSiteStatus → ℕ → Bool
  unfolding timestamp
  needs_attention site now =
      if not site.needs_certificate
      then false
      else if is_failed site.task || not site.certificate_present
      then true
      else is_due now (timestamp site.not_after) (timestamp site.renewal_due_at)

  unfoldable pub certificate_status : CertificateSiteStatus → ℕ → CertificateStatus
  unfolding active_task timestamp
  certificate_status site now =
      if not site.needs_certificate
      then badge (codes "ready") (codes "无需证书")
      else if active_task site.task
      then badge (status_text site.task) (if renews site.task then codes "续期中" else codes "签发中")
      else if is_failed site.task
      then badge (codes "failed") (codes "任务失败")
      else if not site.certificate_present
      then badge (codes "pending") (codes "未签发")
      else dated_status now (timestamp site.not_after) (timestamp site.renewal_due_at)

  unfoldable pub remaining_validity : CertificateSiteStatus → ℕ → Text
  unfolding timestamp validity_text
  remaining_validity site now =
      if not site.needs_certificate || not site.certificate_present
      then codes "--"
      else validity_text now (timestamp site.not_after)

  -- `RenewalPlan`: its first line, and the second where there is one.
  unfoldable pub renewal_plan :
      (Text → Option Text) → CertificateSiteStatus → ℕ → Text × Option Text
  unfolding active_task timestamp format_date
  renewal_plan locale_date site now =
      if not site.needs_certificate
      then (codes "无需续期", none)
      else if not site.certificate_present
      then (codes "签发后生成计划", none)
      else if active_task site.task
      then (if renews site.task then codes "正在续期" else codes "正在签发", none)
      else (
        if has_come now (timestamp site.renewal_due_at)
            then codes "已进入续期窗口"
            else format_date locale_date site.renewal_due_at,
        some (if site.enabled && site.published then codes "自动续期已启用" else codes "站点未启用或未发布，自动续期暂停"),
      )

  unfoldable pub filtered :
      Option CertificateOverview → ℕ → CertificateFilter → List CertificateSiteStatus
  unfolding active_task needs_attention
  filtered overview now all_sites = sites_of overview
  filtered overview now attention = filter (λ site. needs_attention site now) (sites_of overview)
  filtered overview now active = filter (λ site. active_task site.task) (sites_of overview)

  unfoldable pub valid_sites : Option CertificateOverview → ℕ → List CertificateSiteStatus
  unfolding certificate_is_valid
  valid_sites overview now =
      filter (λ site. certificate_is_valid site now)
        (filter (λ site. site.needs_certificate) (sites_of overview))

-- Milliseconds to the next poll.
unfoldable pub certificates_interval : Option CertificateOverview → ℕ
unfolding active_task
certificates_interval none = 30000
certificates_interval (some overview) =
    if any (λ site. active_task site.task) overview.sites then 2000 else 30000

-- `DeploymentStatus`: the tone and label of its badge, if it shows one.
unfoldable pub deployment_status : CertificateSiteStatus → Option CertificateStatus
deployment_status site =
    if not site.needs_certificate || not site.certificate_present
    then none
    else some (
        if site.published_after_certificate
        then badge (codes "succeeded") (codes "已部署")
        else badge (codes "pending") (codes "待发布"))
