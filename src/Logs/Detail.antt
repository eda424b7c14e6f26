-- ===== src/Logs/Detail.antt =====
-- The page of one access log (frontend/src/features/logs/log-detail-page.tsx).
use cdn_platform.Prelude.{
  Bool, List, [], ◌∷◌, filter, find?, Option, none, some, Text, codes, ◌===◌, ◌or_text◌, is_truthy,
  join,
}
use cdn_platform.Types.Traffic.{AccessLog}

-- The entry is only asked for where the address has an id.
unfoldable pub is_asked : Text → Bool
is_asked log_id = is_truthy log_id

-- The headers that the request had, by name.
abbrev pub has_header : Text × Text → Bool
has_header (name, value) = is_truthy value

module _ {Num : Type 0} where
  unfoldable pub headers : AccessLog Num → List (Text × Text)
  headers entry = filter has_header (
      (codes "Host", entry.host)
      ∷ (codes "User-Agent", entry.user_agent)
      ∷ (codes "Referer", entry.referer)
      ∷ (codes "Content-Type", entry.content_type)
      ∷ (codes "Accept", entry.accept)
      ∷ (codes "Range", entry.range)
      ∷ [])

  -- `to_upper_case` is that of the language.
  unfoldable pub protocol_text : (Text → Text) → AccessLog Num → Text
  unfolding join
  protocol_text to_upper_case entry =
      join (codes " · ") (filter is_truthy (to_upper_case entry.scheme ∷ entry.protocol ∷ []))
      or_text codes "--"

-- `nameFor`: an id that is not known is its own name.
abbrev named : Option (Text × Text) → Text → Text
named none id = id
named (some (known, name)) id = name

unfoldable pub name_for : Option (List (Text × Text)) → Text → Text
unfolding ◌===◌
name_for none id = id
name_for (some items) id = named (find? (λ item. item.0 === id) items) id
