-- ===== src/Shell/Arrival.antt =====
-- Where the paths of the message centre arrive (frontend/src/App.tsx,
-- frontend/src/components/message-center.tsx).
use cdn_platform.Prelude.{◌<◌, ◌≡◌, true, some, Text, codes, is_truthy, All, if◌then◌else◌}
use cdn_platform.Uri.{encode_uri_component, is_unreserved}
use cdn_platform.Messages.{Target}
use cdn_platform.Shell.{Page, is_part}

-- The page of a site's id, which can be the word of the form for a new one.
abbrev pub page_of_site : Text → Page
page_of_site id = if is_part (codes "new") id then Page.new_site else Page.site id

-- The page of a target.
abbrev pub page_of : Target → Page
page_of Target.nowhere = Page.overview
page_of Target.settings = Page.settings
page_of (Target.site id) = page_of_site id
page_of (Target.node id) = Page.node id

-- An id of code units that is not empty, whose encoding the router decodes.
pub record IsDecoded (decode : Text → Text) (id : Text) : Type 0 where
  pub units : All (λ c. c < 65536) id
  pub present : is_truthy id ≡ true
  pub back : (u : Text) → encode_uri_component id ≡ some u → decode u ≡ id

abbrev pub HasId : (Text → Text) → Target → Type 0
HasId decode Target.nowhere = Unit
HasId decode Target.settings = Unit
HasId decode (Target.site id) = IsDecoded decode id
HasId decode (Target.node id) = IsDecoded decode id

-- The router leaves a part without a percent sign as it is.
abbrev pub KeepsPlain : (Text → Text) → Type 0
KeepsPlain decode = (s : Text) → All (λ c. is_unreserved c ≡ true) s → decode s ≡ s
