-- ===== src/Site/Detail/Wording.antt =====
-- How the counts of a detail reach its wording.
use cdn_platform.Prelude.{
  ℕ, ◌≡◌, refl, ap, ◌∙◌, Bool, true, false, all, not, and_parts, List, [], ◌∷◌, ◌++◌, none, some,
  Text, codes, is_truthy, ◌===◌, ===-self, is_digit, decimal, arith,
}
use cdn_platform.Prelude.Decimal.Laws.{
  IsDigits, span_digits-append, decimal-IsDigits, decimal-is_truthy,
}
use cdn_platform.Site.Detail.{
  localize_task_detail, localize_counts, strip_prefix, match_count, match_counts, applied_by,
  active_nodes, not_applied, lookup_exact, exact, count_pair, change_applied_by, affected_online,
}

abbrev starts_with_digit : Text → Bool
starts_with_digit [] = false
starts_with_digit (c ∷ s) = is_digit c

strip_prefix-append : (p s : Text) → strip_prefix p (p ++ s) ≡ some s
unfolding strip_prefix
strip_prefix-append [] s = refl
strip_prefix-append (c ∷ p) s = ground (arith, strip_prefix-append p s)

match_count-counted :
    (before : Text) (n : Text) (c : ℕ) (after : Text)
    → IsDigits n
    → is_truthy n ≡ true
    → is_digit c ≡ false
    → match_count before (c ∷ after) (before ++ (n ++ c ∷ after)) ≡ some n
unfolding match_count
match_count-counted before n c after digits full other =
    rw (strip_prefix-append before (n ++ c ∷ after), match_count)
      (rw (span_digits-append n c after digits other, full, ===-self (c ∷ after)))

-- Another text behind the digits: the pattern does not match.
match_count-other :
    (before n : Text) (c : ℕ) (rest after : Text)
    → IsDigits n
    → is_digit c ≡ false
    → ((c ∷ rest) === after) ≡ false
    → match_count before after (before ++ (n ++ c ∷ rest)) ≡ none
unfolding match_count
match_count-other before n c rest after digits other differ =
    rw (strip_prefix-append before (n ++ c ∷ rest), match_count)
      (rw (span_digits-append n c rest digits other) (ground arith))

count_pair_lem :
    (between after d rest m : Text)
    → is_truthy d ≡ true
    → match_count between after rest ≡ some m
    → count_pair between after (d, rest) ≡ some (d, m)
count_pair_lem between after d rest m full e = rw full (rw e)

match_counts-counted :
    (before n : Text) (c : ℕ) (between m : Text) (e : ℕ) (after : Text)
    → IsDigits n
    → is_truthy n ≡ true
    → is_digit c ≡ false
    → IsDigits m
    → is_truthy m ≡ true
    → is_digit e ≡ false
    → match_counts before
        (c ∷ between)
        (e ∷ after)
        (before ++ (n ++ ((c ∷ between) ++ (m ++ e ∷ after))))
      ≡ some (n, m)
unfolding match_counts
match_counts-counted before n c between m e after dn fn oc dm fm oe =
    rw (strip_prefix-append before (n ++ ((c ∷ between) ++ (m ++ e ∷ after))), match_counts)
      (ap (count_pair (c ∷ between) (e ∷ after))
          (span_digits-append n c (between ++ (m ++ e ∷ after)) dn oc)
        ∙ count_pair_lem (c ∷ between) (e ∷ after) n ((c ∷ between) ++ (m ++ e ∷ after)) m fn
            (match_count-counted (c ∷ between) m e after dm fm oe))

-- No detail of the table, and no form that begins with words, begins with a digit.
digits_not_exact :
    (m : List (Text × Text)) (c : ℕ) (s : Text)
    → all (λ entry. not (starts_with_digit entry.0)) m ≡ true
    → is_digit c ≡ true
    → lookup_exact m (c ∷ s) ≡ none
unfolding lookup_exact ◌===◌
digits_not_exact [] c s h e = refl
digits_not_exact (([], v) ∷ m) c s h e = digits_not_exact m c s h e
digits_not_exact ((k ∷ ks, v) ∷ m) c s h e =
    let (p, later) =
      and_parts (not (starts_with_digit (k ∷ ks)))
        (all (λ entry. not (starts_with_digit entry.0)) m) h in
    ground (arith, digits_not_exact m c s later e)

no_words : (c : ℕ) (s : Text) → is_digit c ≡ true → strip_prefix applied_by (c ∷ s) ≡ none
unfolding strip_prefix
no_words c s e = ground arith

no_count :
    (c : ℕ) (s after : Text) → is_digit c ≡ true → match_count applied_by after (c ∷ s) ≡ none
unfolding match_count
no_count c s after e = rw (no_words c s e, match_count)

no_counts :
    (c : ℕ) (s between after : Text)
    → is_digit c ≡ true
    → match_counts applied_by between after (c ∷ s) ≡ none
unfolding match_counts
no_counts c s between after e = rw (no_words c s e, match_counts)

-- A number of nodes that applied the configuration, all of them or out of a total, and a number of
-- nodes that did not, as the control plane prints them.
applied_wording :
    (n : Text)
    → IsDigits n
    → is_truthy n ≡ true
    → localize_task_detail (some (applied_by ++ (n ++ active_nodes)))
      ≡ some (change_applied_by ++ (n ++ affected_online))
unfolding localize_task_detail
applied_wording n digits full = rw (
  match_count-counted applied_by n 32 (codes "active edge node(s)") digits full refl,
  localize_counts,
)

applied_of_wording :
    (n m : Text)
    → IsDigits n
    → is_truthy n ≡ true
    → IsDigits m
    → is_truthy m ≡ true
    → localize_task_detail (some (applied_by ++ (n ++ (codes " of " ++ (m ++ active_nodes)))))
      ≡ some (change_applied_by ++ (n ++ (codes "/" ++ (m ++ affected_online))))
unfolding localize_task_detail
applied_of_wording n m dn fn dm fm =
    rw
      (
        match_count-other applied_by n 32 (codes "of " ++ (m ++ active_nodes)) active_nodes dn refl
            differ,
        localize_counts,
      )
      (rw (
        match_counts-counted applied_by n 32 (codes "of ") m 32 (codes "active edge node(s)") dn fn
          refl dm fm refl))
  where
    differ : ((32 ∷ codes "of " ++ (m ++ active_nodes)) === active_nodes) ≡ false
    differ = refl

not_applied_wording :
    (n : Text)
    → IsDigits n
    → is_truthy n ≡ true
    → localize_task_detail (some (n ++ not_applied)) ≡ some (n ++ codes " 个受影响的边缘节点未能应用配置")
unfolding localize_task_detail
not_applied_wording [] dn fn = cc
not_applied_wording (c ∷ n) dn fn =
    rw (digits_not_exact exact c (n ++ not_applied) table dn.0, localize_task_detail)
      (rw (no_count c (n ++ not_applied) active_nodes dn.0, localize_counts)
        (rw (no_counts c (n ++ not_applied) (codes " of ") active_nodes dn.0) (
          rw (
            match_count-counted [] (c ∷ n) 32 (codes "edge node(s) did not apply the configuration")
              dn fn refl))))
  where
    table : all (λ entry. not (starts_with_digit entry.0)) exact ≡ true
    table = refl

-- The details with counts that the control plane prints (internal/store/store.go) for numbers `n`
-- and `m` keep those numbers in the Chinese wording, in the order in which they stand.
pub localize_task_detail_counts :
    (n m : ℕ)
    → (localize_task_detail (some (applied_by ++ (decimal n ++ active_nodes)))
        ≡ some (change_applied_by ++ (decimal n ++ affected_online)))
      × (localize_task_detail
            (some (applied_by ++ (decimal n ++ (codes " of " ++ (decimal m ++ active_nodes)))))
          ≡ some
              (change_applied_by ++ (decimal n ++ (codes "/" ++ (decimal m ++ affected_online)))))
      × (localize_task_detail (some (decimal n ++ not_applied))
          ≡ some (decimal n ++ codes " 个受影响的边缘节点未能应用配置"))
localize_task_detail_counts n m = (
  applied_wording (decimal n) (decimal-IsDigits n) (decimal-is_truthy n),
  applied_of_wording (decimal n) (decimal m) (decimal-IsDigits n) (decimal-is_truthy n)
      (decimal-IsDigits m) (decimal-is_truthy m),
  not_applied_wording (decimal n) (decimal-IsDigits n) (decimal-is_truthy n),
)
