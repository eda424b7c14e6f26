-- ===== src/Messages/Tests.antt =====
-- A message about a site whose id looks like a path, and the theorem about it.
use cdn_platform.Prelude.{◌<◌, ◌≡◌, refl, [], ◌∷◌, none, some, Text, codes, All, ltb→lt, length}
use cdn_platform.Types.Console.{Message, Severity}
use cdn_platform.Uri.{encode_uri_component, encode_from}
use cdn_platform.Messages.{target, target_path, open_message, visible_messages, mark_all_disabled}
use cdn_platform.Messages.Paths.{IsConsolePath, open_message-IsConsolePath}

abbrev about : Text → Message
about id = record {
  id = codes "m";
  severity = Severity.warning;
  category = codes "publish";
  title = [];
  body = none;
  resource_type = some (codes "site");
  resource_id = some id;
  read_at = none;
  created_at = [];
}

all_of_it : Unit {0}
unfolding target target_path open_message encode_uri_component encode_from visible_messages
    mark_all_disabled
all_of_it = tt

opens : (open_message (about (codes "../a?é"))).1 ≡ some (codes "/sites/..%2Fa%3F%C3%A9")
unfolding all_of_it
opens = refl

shows :
    length (
      visible_messages
        (codes "unread")
        (some (record { messages = about [] ∷ []; unread_count = 1 })))
    ≡ 1
unfolding all_of_it
shows = refl

units : (id : Text) → some (codes "a/b") ≡ some id → All (λ c. c < 65536) id
units id e =
    let same : codes "a/b" ≡ id = cc in
    rw⁻¹ same (ltb→lt 97 65536 refl, (ltb→lt 47 65536 refl, (ltb→lt 98 65536 refl, tt)))

opens_segment : (open_message (about (codes "a/b"))).1 ≡ some (codes "/sites/a%2Fb")
unfolding all_of_it
opens_segment = refl

open_message-IsConsolePath_example : IsConsolePath (about (codes "a/b")) (codes "/sites/a%2Fb")
open_message-IsConsolePath_example =
    open_message-IsConsolePath (about (codes "a/b")) units (codes "/sites/a%2Fb") opens_segment
