-- ===== src/Site/Draft/Domains.antt =====
-- The domain field of the form (frontend/src/features/sites/site-detail-page.tsx, `splitList`).
use cdn_platform.Prelude.{
  ◌≡◌, refl, ap, sym, ◌∙◌, true, false, List, [], ◌∷◌, ◌++◌, map, filter, All, All-append, Text,
  codes, is_space, trim, split_on, join, is_truthy, Bool-cases, inl, inr, filter-eq_self,
}
use mathlib.Core.Path.{ap₂}
use mathlib.Core.List.{append_assoc}
use cdn_platform.Prelude.Strings.Laws.{
  trim-trim, trim-of-All, All-trim, split_on-of-All, split_on-append, split_on-free,
}
use cdn_platform.Site.Draft.{is_separator, split_list}

-- A domain as the form can hold it: not empty, with no space and no separator inside.
pub record IsDomain (d : Text) : Type 0 where
  pub not_empty : is_truthy d ≡ true
  pub no_space : All (λ c. is_space c ≡ false) d
  pub no_separator : All (λ c. is_separator c ≡ false) d

-- A piece of the field: not empty, without spaces at its ends, with no separator inside.
pub record IsPiece (d : Text) : Type 0 where
  pub not_empty : is_truthy d ≡ true
  pub trimmed : trim d ≡ d
  pub no_separator : All (λ c. is_separator c ≡ false) d

-- The field splits at its commas, whatever stands in front of the first domain.
split_on-join :
    (pre d : Text) (ds : List Text)
    → All (λ c. is_separator c ≡ false) pre
    → All IsDomain (d ∷ ds)
    → split_on is_separator (pre ++ join (codes ", ") (d ∷ ds)) ≡ (pre ++ d) ∷ map (32 ∷◌) ds
unfolding join
split_on-join pre d [] hp (hd, h) =
    split_on-of-All is_separator (pre ++ d) (All-append _ pre d hp hd.no_separator)
split_on-join pre d (e ∷ es) hp (hd, h) =
    let rest : Text = 32 ∷ join (codes ", ") (e ∷ es) in
    ap (split_on is_separator) (sym (append_assoc pre d (44 ∷ rest)))
    ∙ split_on-append is_separator (pre ++ d) 44 rest (All-append _ pre d hp hd.no_separator) refl
    ∙ ap ((pre ++ d) ∷◌) (split_on-join (32 ∷ []) e es (refl, tt) h)

map-trim-space : (ds : List Text) → All IsDomain ds → map trim (map (32 ∷◌) ds) ≡ ds
unfolding trim
map-trim-space [] h = refl
map-trim-space (d ∷ ds) (hd, h) = ap₂ ◌∷◌ (trim-of-All d hd.no_space) (map-trim-space ds h)

IsDomain-is_truthy : (ds : List Text) → All IsDomain ds → All (λ d. is_truthy d ≡ true) ds
IsDomain-is_truthy [] h = tt
IsDomain-is_truthy (d ∷ ds) (hd, h) = (hd.not_empty, IsDomain-is_truthy ds h)

-- Domains that are joined for the form are read back unchanged.
pub split_list-join : (ds : List Text) → All IsDomain ds → split_list (join (codes ", ") ds) ≡ ds
unfolding split_list join split_on trim
split_list-join [] h = refl
split_list-join (d ∷ ds) (hd, h) =
    ap (λ ws. filter is_truthy (map trim ws)) (split_on-join [] d ds tt (hd, h))
    ∙ ap (filter is_truthy) (ap₂ ◌∷◌ (trim-of-All d hd.no_space) (map-trim-space ds h))
    ∙ filter-eq_self is_truthy (d ∷ ds) (IsDomain-is_truthy (d ∷ ds) (hd, h))

map-trim-pieces :
    (ws : List Text)
    → All (All (λ c. is_separator c ≡ false)) ws
    → All IsPiece (filter is_truthy (map trim ws))
map-trim-pieces [] h = tt
map-trim-pieces (w ∷ ws) (hw, h) = elim (Bool-cases (is_truthy (trim w))) [
  | inl e ↦ rw e (
    record { not_empty = e; trimmed = trim-trim w; no_separator = All-trim _ w hw },
    map-trim-pieces ws h,
  )
  | inr e ↦ rw e (map-trim-pieces ws h)
]

-- Whatever is typed into the field, each domain that is sent is not empty, has no space at its
-- ends and holds no comma and no line break.
pub split_list-IsPiece : (value : Text) → All IsPiece (split_list value)
unfolding split_list
split_list-IsPiece value = map-trim-pieces _ (split_on-free is_separator value)
