-- ===== src/Shell/Active.antt =====
-- The section of an address in the header and in the sidebar
-- (frontend/src/components/app-shell.tsx, app-sidebar.tsx).
use cdn_platform.Prelude.{
  ◌≡◌, refl, true, false, not, [], ◌∷◌, ◌++◌, Text, codes, ◌===◌, is_truthy, starts_with, split_on,
  All, all, ◌or_text◌, arith,
}
use cdn_platform.Prelude.Strings.Laws.{split_on-of-All, split_on-append}
use cdn_platform.Badges.{lookup}
use cdn_platform.Shell.{
  Entry, entry_section, entry_label, entry_path, is_active, is_slash, section, segments,
  section_name,
}

abbrev pub HasNoSlash : Text → Type 0
HasNoSlash s = All (λ c. is_slash c ≡ false) s

-- The addresses of a section: its own, and those below it.
pub data IsBelow : Text → Text → Type 0 where
  top : (part : Text) → HasNoSlash part → is_truthy part ≡ true → IsBelow part (47 ∷ part)
  below :
      (part rest : Text)
      → HasNoSlash part
      → is_truthy part ≡ true
      → IsBelow part (47 ∷ part ++ 47 ∷ rest)

no_prefix : (name part : Text) → HasNoSlash part → starts_with (name ++ 47 ∷ []) part ≡ false
unfolding starts_with
no_prefix [] [] h = refl
no_prefix [] (c ∷ part) (hc, h) = ground arith
no_prefix (d ∷ name) [] h = refl
no_prefix (d ∷ name) (c ∷ part) (hc, h) = ground (arith, no_prefix name part h)

longer : (name part rest : Text) → HasNoSlash name → (part ++ 47 ∷ rest === name) ≡ false
unfolding ◌===◌
longer [] [] rest h = refl
longer [] (c ∷ part) rest h = refl
longer (d ∷ name) [] rest (hd, h) = ground arith
longer (d ∷ name) (c ∷ part) rest (hd, h) = ground (arith, longer name part rest h)

prefix_of_part :
    (name part rest : Text)
    → HasNoSlash name
    → HasNoSlash part
    → starts_with (name ++ 47 ∷ []) (part ++ 47 ∷ rest) ≡ (part === name)
unfolding starts_with ◌===◌
prefix_of_part [] [] rest hn hp = refl
prefix_of_part [] (c ∷ part) rest hn (hc, hp) = ground arith
prefix_of_part (d ∷ name) [] rest (hd, hn) hp = ground arith
prefix_of_part (d ∷ name) (c ∷ part) rest (hd, hn) (hc, hp) =
    ground (arith, prefix_of_part name part rest hn hp)

HasNoSlash-of_all : (s : Text) → all (λ c. not (is_slash c)) s ≡ true → HasNoSlash s
HasNoSlash-of_all [] h = tt
HasNoSlash-of_all (c ∷ s) h = (ground arith, HasNoSlash-of_all s (ground arith))

entry_section-HasNoSlash : (entry : Entry) → HasNoSlash (entry_section entry)
entry_section-HasNoSlash Entry.overview = HasNoSlash-of_all (codes "overview") refl
entry_section-HasNoSlash Entry.logs = HasNoSlash-of_all (codes "logs") refl
entry_section-HasNoSlash Entry.security = HasNoSlash-of_all (codes "security") refl
entry_section-HasNoSlash Entry.monitoring = HasNoSlash-of_all (codes "monitoring") refl
entry_section-HasNoSlash Entry.nodes = HasNoSlash-of_all (codes "nodes") refl
entry_section-HasNoSlash Entry.sites = HasNoSlash-of_all (codes "sites") refl
entry_section-HasNoSlash Entry.certificates = HasNoSlash-of_all (codes "certificates") refl
entry_section-HasNoSlash Entry.settings = HasNoSlash-of_all (codes "settings") refl

whole : (p : Text) → is_truthy p ≡ true → (p or_text codes "overview") ≡ p
whole [] e = cc
whole (c ∷ p) e = refl

marked :
    (entry : Entry) (part path : Text)
    → IsBelow part path
    → is_active entry path ≡ (part === entry_section entry)
unfolding is_active ◌===◌ starts_with
marked entry part path (top p h e) = rw (no_prefix (entry_section entry) p h) (ground arith)
marked entry part path (below p rest h e) =
    let own = entry_section-HasNoSlash entry in
    rw (longer (entry_section entry) p rest own, prefix_of_part (entry_section entry) p rest own h)
      refl

-- The section that the header takes from an address is the part that the address is below.
section_part : (part path : Text) → IsBelow part path → section path ≡ part
unfolding section segments split_on
section_part part path (top p h e) = rw (split_on-of-All is_slash p h, e) (whole p e)
section_part part path (below p rest h e) =
    rw (split_on-append is_slash p 47 rest h refl, e) (whole p e)

-- An entry of the sidebar is marked exactly when the section of the address is the entry's, whatever
-- stands below it.
pub is_active-section :
    (entry : Entry) (part path : Text)
    → IsBelow part path
    → (is_active entry path ≡ (section path === entry_section entry)) × (section path ≡ part)
unfolding is_active ◌===◌ starts_with
is_active-section entry part path b =
    let same = section_part part path b in (rw same (marked entry part path b), same)

-- The header names every section as the sidebar does, but that of the certificates, which it calls
-- the overview.
pub section_name-entry_path :
    (entry : Entry)
    → (section_name (entry_path entry) === entry_label entry)
      ≡ not (entry_section entry === codes "certificates")
unfolding section_name section segments lookup split_on ◌===◌
section_name-entry_path Entry.overview = refl
section_name-entry_path Entry.logs = refl
section_name-entry_path Entry.security = refl
section_name-entry_path Entry.monitoring = refl
section_name-entry_path Entry.nodes = refl
section_name-entry_path Entry.sites = refl
section_name-entry_path Entry.certificates = refl
section_name-entry_path Entry.settings = refl
