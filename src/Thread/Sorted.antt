-- ===== src/Thread/Sorted.antt =====
-- `pok_thread_insert_sort` of kernel/core/thread.c keeps the threads of a partition under RMS in the
-- order of their periods.
use pok_lab.Common.{
  ℕ, zero, suc, ◌+◌, ◌-◌, ◌≤◌, ◌<◌, ◌≡◌, ◌≢◌, ℕ_discrete, dec_lt, refl, sym, ap, ◌∙◌, ◌⊎◌, inl, inr,
  true, false, ◌&&◌, arith, leb, update, update_at, update_off, Bool-cases, subst, u16,
}
use pok_lab.Types.{Thread, Threads}
use pok_lab.Thread.{is_sooner, shift, insert_last, pok_thread_insert_sort}

-- What the loop leaves, started at `j`: the threads from `q` to `j` are one slot further, and they
-- are those of a greater period than `val` at the end of the range.
record IsShifted (lo j : ℕ) (val : Thread) (ts : Threads) (r : ℕ × Threads) : Type 0 where
  q : ℕ
  from : lo ≤ q
  upto : q ≤ j + 1
  stops : r.0 + 1 ≡ q
  under : (i : ℕ) → i ≤ q → r.1 i ≡ ts i
  moved : (i : ℕ) → q ≤ i → i ≤ j → r.1 (i + 1) ≡ ts i
  over : (i : ℕ) → j + 1 < i → r.1 i ≡ ts i
  greater : (i : ℕ) → q ≤ i → i ≤ j → is_sooner val (ts i) ≡ true
  least : (q ≡ lo) ⊎ (is_sooner val (ts (q - 1)) ≡ false)

shift-IsShifted :
    (n lo j : ℕ) (val : Thread) (ts : Threads)
    → 1 ≤ lo
    → lo ≤ j + 1
    → j < n + lo
    → IsShifted lo j val ts (shift n lo val j ts)
unfolding shift
shift-IsShifted zero lo j val ts one in_range enough = record {
  q = j + 1;
  from = in_range;
  upto = omega arith;
  stops = refl;
  under = λ i l. refl;
  moved = λ i l h. absurd (omega arith);
  over = λ i l. refl;
  greater = λ i l h. absurd (omega arith);
  least = inl (omega arith);
}
shift-IsShifted (suc n) lo j val ts one in_range enough =
    elim (Bool-cases (leb lo j && is_sooner val (ts j))) [
      | inl go ↦ rw go (
          further (ground (arith, go)) (ground (arith, go)) (
            shift-IsShifted n lo (j - 1) val (update ts (j + 1) (ts j)) one (ground (arith, go))
              (ground (arith, go))))
      | inr stop ↦ rw stop (record {
        q = j + 1;
        from = in_range;
        upto = omega arith;
        stops = refl;
        under = λ i l. refl;
        moved = λ i l h. absurd (omega arith);
        over = λ i l. refl;
        greater = λ i l h. absurd (omega arith);
        least = stopped stop;
      })
    ]
  where
    back : (j : ℕ) → j + 1 - 1 ≡ j
    back j = omega arith

    stopped :
        leb lo j && is_sooner val (ts j) ≡ false
        → (j + 1 ≡ lo) ⊎ (is_sooner val (ts (j + 1 - 1)) ≡ false)
    stopped stop = elim (dec_lt j lo) [
      | yes out ↦ inl (omega arith)
      | no inside ↦ inr (ap (λ x. is_sooner val (ts x)) (back j) ∙ ground (arith, stop, inside))
    ]

    off : (i : ℕ) → i ≢ j + 1 → update ts (j + 1) (ts j) i ≡ ts i
    off i apart = update_off ts (j + 1) i (ts j) apart

    further :
        lo ≤ j
        → is_sooner val (ts j) ≡ true
        → IsShifted lo
            (j - 1)
            val
            (update ts (j + 1) (ts j))
            (shift n lo val (j - 1) (update ts (j + 1) (ts j)))
        → IsShifted lo j val ts (shift n lo val (j - 1) (update ts (j + 1) (ts j)))
    further low greater v = record {
      q = v.q;
      from = v.from;
      upto = omega (arith, v.upto, low);
      stops = v.stops;
      under = λ i l. v.under i l ∙ off i (omega (arith, l, v.upto, low));
      moved = λ i l h. elim (ℕ_discrete i j) [
        | yes last ↦
            v.over (i + 1) (omega arith)
            ∙ ap (λ x. update ts (j + 1) (ts j) (x + 1)) last
            ∙ update_at ts (j + 1) (ts j)
            ∙ ap ts (sym last)
        | no more ↦ v.moved i l (omega arith) ∙ off i (omega arith)
      ];
      over = λ i l. v.over i (omega arith) ∙ off i (omega arith);
      greater = λ i l h. elim (ℕ_discrete i j) [
        | yes last ↦ ap (λ x. is_sooner val (ts x)) last ∙ greater
        | no more ↦ ap (is_sooner val) (sym (off i (omega arith))) ∙ v.greater i l (omega arith)
      ];
      least = elim v.least [
        | inl first ↦ inl first
        | inr not_greater ↦
            inr
              (ap (is_sooner val) (sym (off (v.q - 1) (omega (arith, v.upto, low)))) ∙ not_greater)
      ];
    }

-- The thread of slot `hi` is put into slot `q`, and those from `q` on move up one slot.
pub record IsInserted (lo hi : ℕ) (ts us : Threads) : Type 0 where
  pub q : ℕ
  pub from : lo ≤ q
  pub upto : q ≤ hi
  pub put : us q ≡ ts hi
  pub under : (i : ℕ) → i < q → us i ≡ ts i
  pub moved : (i : ℕ) → q ≤ i → i < hi → us (i + 1) ≡ ts i
  pub over : (i : ℕ) → hi < i → us i ≡ ts i
  pub greater : (i : ℕ) → q ≤ i → i < hi → is_sooner (ts hi) (ts i) ≡ true
  pub least : (q ≡ lo) ⊎ (is_sooner (ts hi) (ts (q - 1)) ≡ false)

insert_last-IsInserted :
    (lo hi : ℕ) (ts : Threads) → 1 ≤ lo → lo ≤ hi → IsInserted lo hi ts (insert_last lo hi ts)
unfolding insert_last
insert_last-IsInserted lo hi ts one range =
    let r = shift hi lo (ts hi) (hi - 1) ts in
    let v = shift-IsShifted hi lo (hi - 1) (ts hi) ts one (omega arith) (omega arith) in
    record {
      q = v.q;
      from = v.from;
      upto = omega (arith, v.upto, range, one);
      put = ap (update r.1 (r.0 + 1) (ts hi)) (sym v.stops) ∙ update_at r.1 (r.0 + 1) (ts hi);
      under = λ i l.
          update_off r.1 (r.0 + 1) i (ts hi) (omega (arith, v.stops, l)) ∙ v.under i (omega arith);
      moved = λ i l h.
          update_off r.1 (r.0 + 1) (i + 1) (ts hi) (omega (arith, v.stops, l))
          ∙ v.moved i l (omega arith);
      over = λ i l.
          update_off r.1 (r.0 + 1) i (ts hi) (omega (arith, v.stops, v.upto, l, one, range))
          ∙ v.over i (omega (arith, one, range));
      greater = λ i l h. v.greater i l (omega arith);
      least = v.least;
    }

-- On a range that does not start at slot 0 and ends below slot 65536, the sort moves the thread of the last slot down to the
-- slot under all threads of a greater period at the end of the range, and these one slot up; every
-- other slot of the table is as before.
pub pok_thread_insert_sort-IsInserted :
    (lo hi : ℕ) (ts : Threads)
    → 1 ≤ lo
    → lo ≤ hi
    → hi < 65536
    → IsInserted lo hi ts (pok_thread_insert_sort lo hi ts)
unfolding pok_thread_insert_sort
pok_thread_insert_sort-IsInserted lo hi ts one range narrow =
    subst (IsInserted lo hi ts)
      (ap (λ l. insert_last l hi ts) low ∙ ap (λ h. insert_last (u16 lo) h ts) high)
      (insert_last-IsInserted lo hi ts one range)
  where
    low : lo ≡ u16 lo
    low = omega arith

    high : hi ≡ u16 hi
    high = omega arith

-- No thread of the slots `lo` to `hi` has a smaller period than the one before it.
abbrev pub IsByPeriod : ℕ → ℕ → Threads → Type 0
IsByPeriod lo hi ts = (i : ℕ) → lo ≤ i → i < hi → is_sooner (ts (i + 1)) (ts i) ≡ false

asymmetric : (s t : Thread) → is_sooner s t ≡ true → is_sooner t s ≡ false
unfolding is_sooner
asymmetric s t h = ground (arith, h)

-- The sort keeps the order, where the numbers of the slots fit in 16 bits and the first is not 0: with
-- the slots before the last one in the order of their periods, the sort leaves all of them in that order.
pub pok_thread_insert_sort-IsByPeriod :
    (lo hi : ℕ) (ts : Threads)
    → 1 ≤ lo
    → lo ≤ hi
    → hi < 65536
    → IsByPeriod lo (hi - 1) ts
    → IsByPeriod lo hi (pok_thread_insert_sort lo hi ts)
pok_thread_insert_sort-IsByPeriod lo hi ts one range narrow sorted i low high =
    let us = pok_thread_insert_sort lo hi ts in
    let v = pok_thread_insert_sort-IsInserted lo hi ts one range narrow in
    elim (dec_lt (i + 1) v.q) [
      | yes before ↦
          at (us (i + 1)) (us i) (v.under (i + 1) before) (v.under i (omega arith))
            (sorted i low (omega (arith, v.upto)))
      | no more ↦ elim (dec_lt i v.q) [
        | yes last ↦
            at (us (i + 1)) (us i) (ap us (next i v.q more last) ∙ v.put)
              (v.under i last ∙ ap ts (previous i v.q more last))
              (elim v.least [ inl first ↦ absurd (omega arith) | inr not_greater ↦ not_greater ])
        | no after ↦ elim (ℕ_discrete i v.q) [
          | yes here ↦
              at (us (i + 1)) (us i) (v.moved i (omega arith) high) (ap us here ∙ v.put)
                (asymmetric (ts hi) (ts i) (v.greater i (omega arith) high))
          | no beyond ↦
              at (us (i + 1)) (us i)
                (v.moved i (omega arith) high ∙ ap ts (sym (again i v.q after beyond)))
                (ap us (sym (again i v.q after beyond))
                  ∙ v.moved (i - 1) (omega arith) (omega arith))
                (sorted (i - 1) (omega (arith, v.from)) (omega arith))
        ]
      ]
    ]
  where
    at :
        (a b : Thread) {s t : Thread}
        → a ≡ s
        → b ≡ t
        → is_sooner s t ≡ false
        → is_sooner a b ≡ false
    at a b p q h = cc

    next : (i q : ℕ) → (i + 1 < q → ⊥) → i < q → i + 1 ≡ q
    next i q more last = omega arith

    previous : (i q : ℕ) → (i + 1 < q → ⊥) → i < q → i ≡ q - 1
    previous i q more last = omega arith

    again : (i q : ℕ) → (i < q → ⊥) → (i ≡ q → ⊥) → i - 1 + 1 ≡ i
    again i q after beyond = omega arith
