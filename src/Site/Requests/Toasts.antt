-- ===== src/Site/Requests/Toasts.antt =====
-- The notice of an operation names the operation that was started
-- (frontend/src/features/sites/site-detail-page.tsx).
use cdn_platform.Prelude.{
  ℕ, suc, zero, ◌+◌, ◌-◌, ◌<◌, ◌≤◌, ◌≡◌, ◌≢◌, refl, ap, sym, ◌∙◌, true, false, [], ◌∷◌, ◌++◌, Text,
  codes, ◌===◌, ===_iff, ===-self, length, length-append, drop, arith, Bool-cases, inl, inr,
}
use cdn_platform.Site.Requests.{
  Operation, publish, certificate, invalidate_cache, operation_call, operation_toast, ends_with,
}

drop-append : (a s : Text) → drop (length a) (a ++ s) ≡ s
drop-append [] s = refl
drop-append (c ∷ a) s = drop-append a s

ends_with-append : (a s : Text) → ends_with s (a ++ s) ≡ true
unfolding ends_with
ends_with-append a s =
    let cut : length (a ++ s) - length s ≡ length a = omega (arith, length-append a s) in
    rw (cut, drop-append a s) (===-self s)

-- The last unit of a text; of an empty one, `d`.
abbrev last_or : ℕ → Text → ℕ
last_or d [] = d
last_or d (c ∷ s) = last_or c s

last_or-append : (d : ℕ) (a : Text) (c : ℕ) (s : Text) → last_or d (a ++ c ∷ s) ≡ last_or c s
last_or-append d [] c s = refl
last_or-append d (x ∷ a) c s = last_or-append x a c s

last_or-joined :
    (e : ℕ) (a b : Text) (d : ℕ) (s : Text) → last_or e (a ++ (b ++ d ∷ s)) ≡ last_or d s
last_or-joined e [] b d s = last_or-append e b d s
last_or-joined e (x ∷ a) b d s = last_or-joined x a b d s

last_or-drop : (n d : ℕ) (s : Text) → n < length s → last_or d (drop n s) ≡ last_or d s
last_or-drop zero d s h = refl
last_or-drop (suc n) d [] h = absurd (omega arith)
last_or-drop (suc n) d (c ∷ []) h = absurd (omega arith)
last_or-drop (suc n) d (c ∷ e ∷ s) h = last_or-drop n d (e ∷ s) (omega arith)

ends_with-last_or :
    (d c : ℕ) (s value : Text)
    → 0 < length value
    → ends_with (c ∷ s) value ≡ true
    → last_or d value ≡ last_or c s
unfolding ends_with
ends_with-last_or d c s value some_unit h =
    let n = length value - length (c ∷ s) in
    let same : drop n value ≡ c ∷ s = (===_iff (drop n value) (c ∷ s)).0 h in
    sym (last_or-drop n d value (omega arith)) ∙ ap (last_or d) same

joined : (a b : Text) (c : ℕ) (s : Text) → a ++ (b ++ c ∷ s) ≡ (a ++ (b ++ c ∷ [])) ++ s
joined [] [] c s = refl
joined [] (x ∷ b) c s = ap (x ∷◌) (joined [] b c s)
joined (x ∷ a) b c s = ap (x ∷◌) (joined a b c s)

named_end : (a b : Text) (c : ℕ) (s : Text) → ends_with s (a ++ (b ++ c ∷ s)) ≡ true
named_end a b c s = rw (joined a b c s) (ends_with-append (a ++ (b ++ c ∷ [])) s)

other_end :
    (a b : Text) (e c d : ℕ) (q s : Text)
    → last_or d s ≢ last_or c q
    → ends_with (c ∷ q) (e ∷ (a ++ (b ++ d ∷ s))) ≡ false
other_end a b e c d q s differ = elim (Bool-cases (ends_with (c ∷ q) (e ∷ (a ++ (b ++ d ∷ s))))) [
  | inr e ↦ e
  | inl same ↦
      let ends = ends_with-last_or e c q (e ∷ (a ++ (b ++ d ∷ s))) (omega arith) same in
      absurd (differ (sym (last_or-joined e a b d s) ∙ ends))
]

drop-inside : (w s : Text) (k n : ℕ) → k ≡ length w + n → drop k (w ++ s) ≡ drop n s
drop-inside [] s k n h = let same : k ≡ n = omega arith in ap (λ m. drop m s) same
drop-inside (x ∷ w) s zero n h = absurd (omega arith)
drop-inside (x ∷ w) s (suc k) n h = drop-inside w s k n (omega arith)

ends_with-inside :
    (a b s q : Text) → length q ≤ length s → ends_with q (a ++ (b ++ s)) ≡ ends_with q s
unfolding ends_with
ends_with-inside a b s q h =
    ap (λ t. t === q)
      (drop-inside a (b ++ s) _ (length b + (length s - length q))
          (omega (arith, length-append a (b ++ s), length-append b s))
        ∙ drop-inside b s _ (length s - length q) refl)

-- The wording of a started operation.
abbrev notice : Operation → Text
notice publish = codes "站点发布已启动"
notice certificate = codes "TLS 签发已排队"
notice invalidate_cache = codes "缓存失效已发布"

-- For every text that stands for the id in the path, even one that ends like an operation: the notice,
-- which is chosen by the end of the request's path, is that of the operation that the path asks for.
pub operation_toast_lem :
    (encoded : Text) (op : Operation) → operation_toast (operation_call encoded op).path ≡ notice op
unfolding operation_toast operation_call ends_with
operation_toast_lem encoded publish =
    rw
      (
        other_end (codes "api/sites/") encoded 47 99 47 (codes "ertificate") (codes "publish")
            (λ e. omega arith),
        other_end (codes "api/sites/") encoded 47 105 47 (codes "nvalidate-cache") (codes "publish")
            (λ e. omega arith),
      )
      refl
operation_toast_lem encoded certificate =
    rw (named_end (codes "/api/sites/") encoded 47 (codes "certificate")) refl
operation_toast_lem encoded invalidate_cache =
    rw
      (
        ends_with-inside (codes "/api/sites/") encoded (codes "/invalidate-cache")
            (codes "certificate") (omega arith),
        named_end (codes "/api/sites/") encoded 47 (codes "invalidate-cache"),
      )
      refl
