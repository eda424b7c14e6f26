-- ===== src/Messages/Paths.antt =====
-- Where a message can lead (frontend/src/components/message-center.tsx).
use cdn_platform.Prelude.{
  ◌<◌, ◌≡◌, ◌⊎◌, refl, true, Option, none, some, Text, codes, ◌++◌, All, arith, ap, Option-cases,
  Bool-cases, inl, inr, is_truthy, ===_iff, if◌then◌else◌, ◌===◌, ◌||◌,
}
use cdn_platform.Types.Console.{Message}
use cdn_platform.Uri.{encode_uri_component, before}
use cdn_platform.Uri.Segment.{IsSegment, encode_uri_component-IsSegment}
use cdn_platform.Messages.{Target, target, target_path, open_message, resource}

-- The message is about a resource of the kind, whose id is encoded as the segment.
pub record IsResource (message : Message) (kind segment : Text) : Type 0 where
  pub id : Text
  pub of_kind : message.resource_type ≡ some kind
  pub of_id : message.resource_id ≡ some id
  pub present : is_truthy id ≡ true
  pub encoded : encode_uri_component id ≡ some segment
  pub single : IsSegment segment

-- The addresses that a message can open.
pub data IsConsolePath (message : Message) : Text → Type 0 where
  settings :
      (message.category ≡ codes "backup") ⊎ (message.category ≡ codes "restore")
      → IsConsolePath message (codes "/settings")
  site :
      (segment : Text)
      → IsResource message (codes "site") segment
      → IsConsolePath message (codes "/sites/" ++ segment)
  node :
      (segment : Text)
      → IsResource message (codes "node") segment
      → IsConsolePath message (codes "/nodes/" ++ segment)

prefixed :
    (prefix : Text) (o : Option Text) (p : Text)
    → before prefix o ≡ some p
    → (u : Text) × (o ≡ some u) × ((prefix ++ u) ≡ p)
prefixed prefix none p e = cc
prefixed prefix (some u) p e = (u, refl, cc)

resource_lem :
    (kind : Text) (type id : Option Text) (found : Text)
    → resource kind type id ≡ some found
    → (type ≡ some kind) × (id ≡ some found) × (is_truthy found ≡ true)
resource_lem kind none id found e = cc
resource_lem kind (some t) none found e = cc
resource_lem kind (some t) (some id) found e =
    let same : id ≡ found = ground arith in
    let of_kind : t ≡ kind = ground (arith, ===_iff t kind) in
    let present : is_truthy id ≡ true = ground arith in
    (ap some of_kind, ap some same, rw⁻¹ same present)

of_resource :
    (message : Message) (kind id prefix p : Text)
    → ((t : Text) → message.resource_id ≡ some t → All (λ c. c < 65536) t)
    → resource kind message.resource_type message.resource_id ≡ some id
    → before prefix (encode_uri_component id) ≡ some p
    → (segment : Text) × IsResource message kind segment × ((prefix ++ segment) ≡ p)
of_resource message kind id prefix p units found e =
    let (u, encoded, same) = prefixed prefix (encode_uri_component id) p e in
    let (of_kind, of_id, present) =
      resource_lem kind message.resource_type message.resource_id id found in
    (
      u,
      record {
        id = id;
        of_kind = of_kind;
        of_id = of_id;
        present = present;
        encoded = encoded;
        single = encode_uri_component-IsSegment id u (units id of_id) encoded;
      },
      same,
    )

of_category :
    (message : Message) (p : Text)
    → target_path (
        if message.category === codes "backup" || message.category === codes "restore"
        then Target.settings
        else Target.nowhere)
      ≡ some p
    → IsConsolePath message p
unfolding target_path
of_category message p e = elim (Bool-cases (message.category === codes "backup")) [
  | inl backup ↦
      let same : codes "/settings" ≡ p = cc (rw backup at e) in
      rw⁻¹ same (settings (inl ((===_iff message.category (codes "backup")).0 backup)))
  | inr other ↦ elim (Bool-cases (message.category === codes "restore")) [
    | inl restore ↦
        let same : codes "/settings" ≡ p = cc (rw (other, restore) at e) in
        rw⁻¹ same (settings (inr ((===_iff message.category (codes "restore")).0 restore)))
    | inr neither ↦ absurd (cc (rw (other, neither) at e))
  ]
]

-- A message opens no address but the settings, for one about a backup or a restoration, and the one
-- that its resource, a site or a node, has: its resource id, which is not empty, stands there encoded
-- as one segment at the end. The id is of code units, and for a site named `new` the address is that
-- of the form for a new site.
pub open_message-IsConsolePath :
    (message : Message)
    → ((id : Text) → message.resource_id ≡ some id → All (λ c. c < 65536) id)
    → (p : Text) → (open_message message).1 ≡ some p
    → IsConsolePath message p
unfolding open_message target target_path
open_message-IsConsolePath message units p e =
    let about : Text → Option Text =
      λ kind. resource kind message.resource_type message.resource_id in
    elim (Option-cases (about (codes "site"))) [
      | inr (id, found) ↦
          let (u, is_resource, same) =
            of_resource message (codes "site") id (codes "/sites/") p units found (rw found at e) in
          rw⁻¹ same (site u is_resource)
      | inl no_site ↦ elim (Option-cases (about (codes "node"))) [
        | inr (id, found) ↦
            let (u, is_resource, same) =
              of_resource message (codes "node") id (codes "/nodes/") p units found
                (rw (no_site, found) at e) in
            rw⁻¹ same (node u is_resource)
        | inl no_node ↦ of_category message p (rw (no_site, no_node) at e)
      ]
    ]
