-- ===== src/Certificates/Remaining.antt =====
-- The remaining validity beside the state of a certificate
-- (frontend/src/features/certificates/certificates-page.tsx).
use cdn_platform.Prelude.{
  ℕ, ◌+◌, ◌-◌, ◌/◌, ◌≡◌, refl, Bool, true, false, ◌++◌, Option, some, Text, codes, starts_with, ltb,
  if◌then◌else◌,
}
use cdn_platform.Types.Task.{CertificateSiteStatus}
use cdn_platform.Format.{format_duration}
use cdn_platform.Format.Opening.{format_duration_opens}
use cdn_platform.Certificates.{timestamp, certificate_is_valid, remaining_validity, validity_text}

abbrev pub expired : Text
expired = codes "已过期"

choice :
    (b : Bool) (s t : Text)
    → starts_with expired t ≡ false
    → starts_with expired (if b then codes "已过期 " ++ s else t) ≡ b
unfolding starts_with
choice true s t h = refl
choice false s t h = h

expired_text :
    (now time : ℕ) → starts_with expired (validity_text now (some time)) ≡ ltb time (now + 1000)
unfolding validity_text
expired_text now time =
    choice (ltb time (now + 1000)) (format_duration (some ((now - time + 999) / 1000)))
      (format_duration (some ((time - now) / 1000)))
      (format_duration_opens 24050 (codes "过期") refl ((time - now) / 1000))

module _ (parse_date : Text → Option ℕ) where
  -- The remaining validity of a certificate says that it has expired from a second before its end on,
  -- while the certificate counts as valid up to its end.
  pub starts_with-remaining_validity :
      (site : CertificateSiteStatus) (now time : ℕ)
      → site.needs_certificate ≡ true
      → site.certificate_present ≡ true
      → timestamp parse_date site.not_after ≡ some time
      → (starts_with expired (remaining_validity parse_date site now) ≡ ltb time (now + 1000))
        × (certificate_is_valid parse_date site now ≡ ltb now time)
  unfolding remaining_validity certificate_is_valid
  starts_with-remaining_validity site now time needs present dated =
      (rw (needs, present, dated) (expired_text now time), rw (present, dated) refl)
