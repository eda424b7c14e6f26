-- ===== src/Certificates/Tests.antt =====
-- A certificate in its last second, and the theorems about it.
use cdn_platform.Prelude.{
  ℕ, ◌+◌, ◌≡◌, refl, true, false, [], Option, none, some, Text, codes, ltb, starts_with, arith,
}
use cdn_platform.Types.Task.{CertificateSiteStatus}
use cdn_platform.Site.Task.{active_task}
use cdn_platform.Certificates.{
  timestamp, needs_attention, certificate_is_valid, certificate_status, remaining_validity, badge,
}
use cdn_platform.Certificates.Status.{warns, warns-certificate_status}
use cdn_platform.Certificates.Remaining.{expired, starts_with-remaining_validity}
use cdn_platform.Certificates.Action.{press, is_pending}
use cdn_platform.Certificates.Action.Requests.{IsRequest, press-IsRequest}

abbrev shop : CertificateSiteStatus
shop = record {
  site_id = codes "s 1";
  site_name = codes "shop";
  domains = [];
  enabled = true;
  published = true;
  deleting = false;
  needs_certificate = true;
  certificate_present = true;
  certificate_updated_at = none;
  not_after = some (codes "t");
  renewal_due_at = none;
  published_after_certificate = true;
  task = none;
}

-- Every date is the time 10000.
abbrev parse_date : Text → Option ℕ
parse_date text = some 10000

last_second : certificate_status parse_date shop 9500 ≡ badge (codes "succeeded") (codes "有效")
unfolding certificate_status
last_second = refl

posted : (press (record { pending = none }) shop).1 ≡ some (codes "/api/certificates/s%201/renew")
unfolding press is_pending
posted = refl

warns-certificate_status_example :
    warns (certificate_status parse_date shop 9500) ≡ needs_attention parse_date shop 9500
unfolding active_task
warns-certificate_status_example = warns-certificate_status parse_date shop 9500 refl

starts_with-remaining_validity_example :
    (starts_with expired (remaining_validity parse_date shop 9500) ≡ ltb 10000 (9500 + 1000))
    × (certificate_is_valid parse_date shop 9500 ≡ ltb 9500 10000)
unfolding timestamp
starts_with-remaining_validity_example =
    starts_with-remaining_validity parse_date shop 9500 10000 refl refl refl

press-IsRequest_example :
    IsRequest (record { pending = none }) shop (codes "/api/certificates/s%201/renew")
unfolding press is_pending
press-IsRequest_example =
    press-IsRequest (record { pending = none }) shop (codes "/api/certificates/s%201/renew")
      (omega arith, (omega arith, (omega arith, tt))) refl
