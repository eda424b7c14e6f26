-- ===== src/Certificates/Action.antt =====
-- The button that issues or renews a certificate and the requests it sends
-- (frontend/src/features/certificates/certificates-page.tsx).
pub mod Requests
use cdn_platform.Prelude.{
  Bool, true, false, not, ◌||◌, Option, none, some, Text, codes, ◌===◌, ◌++◌, if◌then◌else◌,
}
use cdn_platform.Types.Task.{CertificateSiteStatus}
use cdn_platform.Site.Task.{active_task}
use cdn_platform.Uri.{encode_uri_component, before}
use cdn_platform.Certificates.{renews}

abbrev pub path_of : Bool → Option Text → Option Text
path_of present none = none
path_of present (some encoded) = some (
    if present
    then codes "/api/certificates/" ++ (encoded ++ codes "/renew")
    else codes "/api/sites/" ++ (encoded ++ codes "/certificate"))

-- `path` of `CertificateAction`; an id that is no Unicode text throws (`none`).
unfoldable pub action_path : CertificateSiteStatus → Option Text
unfolding encode_uri_component
action_path site = path_of site.certificate_present (encode_uri_component site.site_id)

-- The mutation of the page: the site of the last request, while it is not answered.
pub record ActionState : Type 0 where
  pub pending : Option Text

unfoldable pub is_pending : Option Text → Text → Bool
unfolding ◌===◌
is_pending none id = false
is_pending (some site_id) id = site_id === id

unfoldable pub action_disabled : ActionState → CertificateSiteStatus → Bool
unfolding active_task is_pending
action_disabled s site =
    is_pending s.pending site.site_id || (active_task site.task || site.deleting)

unfoldable pub action_label : CertificateSiteStatus → Text
unfolding active_task
action_label site =
    if active_task site.task
    then if renews site.task then codes "续期中" else codes "签发中"
    else if site.certificate_present
    then codes "手动续期"
    else codes "签发证书"

abbrev pub sent : ActionState → Text → Option Text → ActionState × Option Text
sent s site_id none = (s, none)
sent s site_id (some path) = (record s { pending = some site_id }, some path)

-- A press on the button of a site's row: the state and the path that is posted. There is no button
-- where no certificate is needed.
unfoldable pub press : ActionState → CertificateSiteStatus → ActionState × Option Text
unfolding action_disabled action_path
press s site =
    if not site.needs_certificate || action_disabled s site
    then (s, none)
    else sent s site.site_id (action_path site)

-- The answer to the last request, and the message on success, for the site as it was pressed.
unfoldable pub answered : ActionState → ActionState
answered s = record s { pending = none }

unfoldable pub success_message : CertificateSiteStatus → Text
success_message site = if site.certificate_present then codes "证书续期已排队" else codes "证书签发已排队"
