-- ===== src/Shell.antt =====
-- The frame of the console: its routes (frontend/src/App.tsx), its header
-- (frontend/src/components/app-shell.tsx) and its sidebar (frontend/src/components/app-sidebar.tsx).
pub mod Arrival
pub mod Active
mod Tests
use cdn_platform.Prelude.{
  ℕ, Bool, true, false, not, ◌&&◌, ◌||◌, List, [], ◌∷◌, ◌++◌, map, filter, length, Option, none,
  some, ◌or◌, Text, codes, ◌===◌, ◌==◌, ltb, fold_case, is_truthy, split_on, starts_with, ◌or_text◌,
  if◌then◌else◌,
}
use cdn_platform.Badges.{lookup}

-- The pages, with the parameter of the address, as the router has decoded it, where they have one.
pub data Page : Type 0 where
  overview logs security monitoring nodes sites new_site certificates settings : Page
  overview_site log monitoring_node node site : (id : Text) → Page

abbrev pub is_slash : ℕ → Bool
is_slash c = c == 47

-- The router compares the fixed parts of an address without regard to case.
unfoldable pub is_part : Text → Text → Bool
unfolding ◌===◌
is_part name segment = map fold_case segment === name

abbrev with_id : Bool → Text → (Text → Page) → Page → Page
with_id here id page other = if here && is_truthy id then page id else other

-- `/sites/new` stands before the address of a site.
abbrev site_page : Text → Page
unfolding is_part
site_page id = if is_part (codes "new") id then Page.new_site else Page.site id

-- The page of the parts between the slashes; every other address leads to the overview.
unfoldable pub route : List Text → Page
unfolding is_part site_page
route [] = Page.overview
route (a ∷ []) =
    if is_part (codes "logs") a
    then Page.logs
    else if is_part (codes "security") a
    then Page.security
    else if is_part (codes "monitoring") a
    then Page.monitoring
    else if is_part (codes "nodes") a
    then Page.nodes
    else if is_part (codes "sites") a
    then Page.sites
    else if is_part (codes "certificates") a
    then Page.certificates
    else if is_part (codes "settings") a
    then Page.settings
    else Page.overview
route (a ∷ id ∷ []) = with_id (is_part (codes "logs") a) id Page.log (
    with_id (is_part (codes "nodes") a) id Page.node
      (with_id (is_part (codes "sites") a) id site_page Page.overview))
route (a ∷ b ∷ id ∷ []) =
    with_id (is_part (codes "overview") a && is_part (codes "sites") b) id Page.overview_site (
      with_id (is_part (codes "monitoring") a && is_part (codes "nodes") b) id Page.monitoring_node
        Page.overview)
route (a ∷ b ∷ c ∷ d ∷ rest) = Page.overview

-- The parts of an address, which starts with a slash; slashes at its end do not count.
abbrev drop_end : Text → List Text → List Text
drop_end [] [] = []
drop_end [] (b ∷ parts) = [] ∷ b ∷ parts
drop_end (c ∷ a) parts = (c ∷ a) ∷ parts

unfoldable pub trim_parts : List Text → List Text
trim_parts [] = []
trim_parts (a ∷ parts) = drop_end a (trim_parts parts)

abbrev behind_first : List Text → List Text
behind_first [] = []
behind_first (a ∷ parts) = parts

-- The router decodes each part of an address before it looks for the route; what it makes of a part is
-- an argument.
unfoldable pub route_of : (Text → Text) → Text → Page
unfolding route split_on trim_parts
route_of decode path = route (map decode (trim_parts (behind_first (split_on is_slash path))))

-- The header: the section of the address, its name and whether a detail is shown.
unfoldable pub segments : Text → List Text
unfolding split_on
segments path = filter is_truthy (split_on is_slash path)

abbrev first_or : Text → List Text → Text
first_or other [] = other
first_or other (a ∷ parts) = a or_text other

unfoldable pub section : Text → Text
unfolding segments
section path = first_or (codes "overview") (segments path)

abbrev pub page_names : List (Text × Text)
page_names =
    (codes "overview", codes "概览")
    ∷ (codes "logs", codes "日志")
    ∷ (codes "security", codes "安全")
    ∷ (codes "monitoring", codes "监测")
    ∷ (codes "nodes", codes "节点")
    ∷ (codes "sites", codes "站点")
    ∷ (codes "settings", codes "设置")
    ∷ []

unfoldable pub section_name : Text → Text
unfolding lookup section
section_name path = lookup page_names (section path) or codes "概览"

unfoldable pub has_detail : Text → Bool
unfolding segments
has_detail path = ltb 1 (length (segments path))

-- The entries of the sidebar, by the name of their section, and whether one is marked.
pub data Entry : Type 0 where
  overview logs security monitoring nodes sites certificates settings : Entry

abbrev pub entry_section : Entry → Text
entry_section Entry.overview = codes "overview"
entry_section Entry.logs = codes "logs"
entry_section Entry.security = codes "security"
entry_section Entry.monitoring = codes "monitoring"
entry_section Entry.nodes = codes "nodes"
entry_section Entry.sites = codes "sites"
entry_section Entry.certificates = codes "certificates"
entry_section Entry.settings = codes "settings"

abbrev pub entry_label : Entry → Text
entry_label Entry.overview = codes "概览"
entry_label Entry.logs = codes "日志"
entry_label Entry.security = codes "安全"
entry_label Entry.monitoring = codes "监测"
entry_label Entry.nodes = codes "节点"
entry_label Entry.sites = codes "站点"
entry_label Entry.certificates = codes "证书"
entry_label Entry.settings = codes "设置"

abbrev pub entry_path : Entry → Text
entry_path entry = 47 ∷ entry_section entry

unfoldable pub is_active : Entry → Text → Bool
unfolding ◌===◌ starts_with
is_active entry path = (path === entry_path entry) || starts_with (entry_path entry ++ 47 ∷ []) path

-- The version under the product's name.
unfoldable pub version_label : Text → Text
unfolding starts_with
version_label version = if starts_with (codes "v") version then version else codes "v" ++ version

-- The mode of the theme (frontend/src/components/theme-toggle.tsx): an unknown one counts as that of
-- the system, and is not set.
abbrev is_mode : Text → Bool
unfolding ◌===◌
is_mode theme =
    (theme === codes "light") || ((theme === codes "dark") || (theme === codes "system"))

unfoldable pub theme_mode : Option Text → Text
unfolding is_mode ◌===◌
theme_mode none = codes "system"
theme_mode (some theme) = if is_truthy theme && is_mode theme then theme else codes "system"

unfoldable pub set_theme : Option Text → Text → Option Text
unfolding is_mode ◌===◌
set_theme theme value = if is_mode value then some value else theme
