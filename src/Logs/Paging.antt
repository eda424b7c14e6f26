-- ===== src/Logs/Paging.antt =====
-- The two buttons against a counter of pages (frontend/src/features/logs/logs-page.tsx).
use cdn_platform.Prelude.{
  ℕ, zero, suc, ◌*◌, ◌/◌, ◌<◌, ◌≡◌, refl, ap, ◌∙◌, true, false, Bool-cases, inl, inr, Option, none,
  some, Text, arith, ◌==◌,
}
use native.Mathlib.Nat.{mul-div_cancel}
use cdn_platform.Types.Traffic.{LogPage}
use cdn_platform.Logs.{Edit, LogsState, Event, initial, handle, go_previous, go_next, page_number}

-- What the user sees: a page number that stays, goes back to the first page, or moves by one.
pub data Move : ℕ → ℕ → Type 0 where
  stay : (n : ℕ) → Move n n
  first : (n : ℕ) → Move n 0
  back : (n : ℕ) → Move (suc n) n
  forth : (n : ℕ) → Move n (suc n)

-- The state is at the page `n`, counted from 0, and what is shown answers its query.
pub record IsAt {Num : Type 0} (size n : ℕ) (s : LogsState Num) : Type 0 where
  pub offset : s.offset ≡ n * size
  pub shown :
      (page : LogPage Num)
      → s.shown ≡ some page
      → (page.page_size ≡ size) × (page.offset ≡ s.offset)

module _ (iso : ℕ → Text) {Num : Type 0} (size : ℕ) where
  -- The events; an answer is one to the query of the state, with the server's page size.
  pub data Step : LogsState Num → LogsState Num → Type 0 where
    change : (s : LogsState Num) (e : Edit) → Step s (handle iso s (Event.change e))
    submit : (s : LogsState Num) (now : ℕ) → Step s (handle iso s (Event.submit now))
    reset : (s : LogsState Num) (now : ℕ) → Step s (handle iso s (Event.reset now))
    answered :
        (s : LogsState Num) (page : LogPage Num)
        → page.page_size ≡ size
        → page.offset ≡ s.offset
        → Step s (handle iso s (Event.answered page))
    previous : (s : LogsState Num) → Step s (handle iso s Event.previous)
    next : (s : LogsState Num) → Step s (handle iso s Event.next)

  pub data Reach (now : ℕ) : LogsState Num → Type 0 where
    start : Reach now (initial iso now)
    then_step : {s t : LogsState Num} → Reach now s → Step s t → Reach now t

  -- The state after a button, given what is shown.
  previous-IsAt :
      (n : ℕ) (s : LogsState Num) (o : Option (LogPage Num))
      → 0 < size
      → IsAt size n s
      → s.shown ≡ o
      → (m : ℕ) × Move n m × IsAt size m (go_previous s o)
  previous-IsAt n s none pos h e = (n, stay n, h)
  previous-IsAt zero s (some page) pos h e =
      let first_page : (s.offset == 0) ≡ true = ground arith in (zero, stay zero, rw first_page h)
  previous-IsAt (suc n) s (some page) pos h e =
      let past : 0 < s.offset = omega arith in
      let later : (s.offset == 0) ≡ false = ground (arith, past) in
      (n, back n, rw later (record { offset = omega (arith, (h.shown page e).0); shown = λ p. cc }))

  next-IsAt :
      (n : ℕ) (s : LogsState Num) (o : Option (LogPage Num))
      → IsAt size n s
      → s.shown ≡ o
      → (m : ℕ) × Move n m × IsAt size m (go_next s o)
  next-IsAt n s none h e = (n, stay n, h)
  next-IsAt n s (some page) h e = elim (Bool-cases page.has_more) [
    | inl more ↦ (
      suc n,
      forth n,
      rw more (record { offset = omega (arith, (h.shown page e).0); shown = λ p. cc }),
    )
    | inr last ↦ (n, stay n, rw last h)
  ]

  -- Each event moves the page that is shown as its button says: a change of the filters and an
  -- answer leave it, a search shows the first page, and the buttons move by exactly one page.
  pub Step-Move :
      {s t : LogsState Num} (n : ℕ)
      → 0 < size
      → IsAt size n s
      → Step s t
      → (m : ℕ) × Move n m × IsAt size m t
  unfolding handle
  Step-Move n pos h (change s e) = (n, stay n, record { offset = h.offset; shown = h.shown })
  Step-Move n pos h (submit s now) = (0, first n, record { offset = omega arith; shown = λ p. cc })
  Step-Move n pos h (reset s now) = (0, first n, record { offset = omega arith; shown = λ p. cc })
  Step-Move n pos h (answered s page e o) = (
    n,
    stay n,
    record {
      offset = h.offset;
      shown = λ p same. let answer : page ≡ p = cc in rw⁻¹ answer (e, o);
    },
  )
  Step-Move n pos h (previous s) = previous-IsAt n s s.shown pos h refl
  Step-Move n pos h (next s) = next-IsAt n s s.shown h refl

  Reach-IsAt : (now : ℕ) {s : LogsState Num} → 0 < size → Reach now s → (n : ℕ) × IsAt size n s
  unfolding initial
  Reach-IsAt now pos start = (0, record { offset = omega arith; shown = λ p. cc })
  Reach-IsAt now pos (then_step r st) =
      let (n, at_n) = Reach-IsAt now pos r in
      let (m, move, at_m) = Step-Move n pos at_n st in (m, at_m)

  -- In every session the offset is a whole number of pages, and the page number above the table is
  -- the number of those pages plus one.
  pub Reach-page_number :
      (now : ℕ) {s : LogsState Num}
      → 0 < size
      → Reach now s
      → (n : ℕ) × (s.offset ≡ n * size)
        × ((page : LogPage Num) → s.shown ≡ some page → page_number page ≡ suc n)
  unfolding page_number
  Reach-page_number now pos r =
      let (n, h) = Reach-IsAt now pos r in
      (
        n,
        h.offset,
        λ page e.
            let (same_size, same_offset) = h.shown page e in
            let pages : page.offset / page.page_size ≡ n =
              ap (λ z. page.offset / z) same_size
              ∙ ap (λ o. o / size) (same_offset ∙ h.offset)
              ∙ mul-div_cancel n pos in
            omega arith,
      )
