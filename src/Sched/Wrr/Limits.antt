-- ===== src/Sched/Wrr/Limits.antt =====
-- Where the weighted round robin of kernel/core/sched.c passes over a thread, and where it hangs.
use pok_lab.Common.{
  ℕ, zero, suc, ◌-◌, ◌≤◌, ◌<◌, ◌≡◌, ◌≢◌, refl, inl, inr, Bool, true, false, none, some, arith, ◌==◌,
  u32_mod, is_positive, ap, sym, ◌∙◌, subst,
}
use mathlib.Core.Option
use mathlib.Core.Bool.{false≢true}
use pok_lab.Types.{Threads}
use pok_lab.Sched.Ring.{next, place}
use pok_lab.Sched.Best.{eligible, NoneEligible}
use pok_lab.Sched.Search.{find_until, find_do, IsFirst, place-ne_from, place-in_ring}
use pok_lab.Sched.Slice.{spend, eligible-spend, slice_left-spend_of_no_capacity}
use pok_lab.Sched.Wrr.{
  pok_sched_part_wrr, wrr_election, wrr_test, wrr_end, IsWrrTest, wrr_from, wrr_start,
}

module _ (fuel idle proc : ℕ) (ts : Threads) (low high prev : ℕ) (small : high < u32_mod)
    (out : high ≤ idle) (no_capacity : is_positive (ts idle).remaining_time_capacity ≡ false) where
  -- The threads of the partition other than `prev` may not run.
  abbrev pub OnlyPrev : Type 0
  OnlyPrev = (i : ℕ) → low ≤ i → i < high → i ≢ prev → eligible ts proc i ≡ false

  not_first :
      (low ≤ prev) × (prev < high)
      → OnlyPrev
      → (e : ℕ) → IsFirst (wrr_test (spend ts idle) proc idle) low high prev 1 e
      → ⊥
  not_first r only e (m, at, p, q, t, b) =
      false≢true (sym (only e (rw at inside.0) (rw at inside.1) (λ h. ne h)) ∙ may_run)
    where
      inside : (low ≤ place low high prev m) × (place low high prev m < high)
      inside = place-in_ring (eligible ts proc) low high prev r small m (omega arith)

      away : (place low high prev m == prev) ≡ false
      away = place-ne_from (eligible ts proc) low high prev r small m p q

      ne : e ≢ prev
      ne h = ground (arith, away, at, h)

      may_run : eligible ts proc e ≡ true
      may_run = sym (eligible-spend ts idle proc e) ∙ left t
        where
          left :
              wrr_test (spend ts idle) proc idle e ≡ true → eligible (spend ts idle) proc e ≡ true
          left t = ground (arith, t)

  idle_turn :
      (low ≤ prev) × (prev < high)
      → OnlyPrev
      → (r : Threads × ℕ) → IsWrrTest fuel idle proc ts low high prev idle r
      → r.1 ≡ idle
  idle_turn r only x (inl (go, e, s)) = e
  idle_turn r only x (inr (stop, s, inl f)) = absurd (
      not_first r only x.1
        (subst (λ i. IsFirst (wrr_test (spend ts idle) proc idle) low high i 1 x.1) from_prev f))
    where
      from_prev : wrr_from idle prev idle ≡ prev
      from_prev = ground arith
  idle_turn r only x (inr (stop, s, inr (b, inl (t, e)))) = e
  idle_turn r only x (inr (stop, s, inr (b, inr (t, e)))) = e

  -- When the processor is idle after the thread `prev` ran, and `prev` is the only thread of the
  -- partition that may run, the weighted round robin elects the idle thread all the same: the walk
  -- ends before it looks at the thread it began from.
  pub wrr_passes_over_prev :
      suc low < high
      → low ≤ prev
      → prev < high
      → OnlyPrev
      → high - low ≤ fuel
      → (r : Threads × ℕ) × (pok_sched_part_wrr fuel idle proc ts low high prev idle ≡ some r)
        × (r.1 ≡ idle)
  wrr_passes_over_prev two p q only enough =
      let (r, eq, w) =
        wrr_election fuel idle proc ts low high prev idle two small out (inr (p, q)) (inl refl)
          (inl (omega arith)) enough in
      (r, eq, idle_turn (p, q) only r w)

  find_until_hangs :
      (test : ℕ → Bool)
      → ((i : ℕ) → low ≤ i → i < high → test i ≡ false)
      → (n i : ℕ) → low ≤ i
      → i < high
      → find_until test low high idle n i ≡ none
  unfolding find_until
  find_until_hangs test fails zero i p q = refl
  find_until_hangs test fails (suc n) i p q =
      rw (other, fails i p q)
        (find_until_hangs test fails n (next low high i) (ground arith) (ground arith))
    where
      other : (i == idle) ≡ false
      other = ground arith

  -- When the previous and the current thread are both the idle thread, as a partition starts, and no
  -- thread of the partition may run, the loop of the weighted round robin never ends: it waits to come
  -- back to the idle thread, which is not on its way.
  pub wrr_hangs :
      low < high
      → NoneEligible ts proc low high
      → pok_sched_part_wrr fuel idle proc ts low high idle idle ≡ none
  unfolding pok_sched_part_wrr find_do
  wrr_hangs filled fails =
      rw (slice_left-spend_of_no_capacity ts idle no_capacity)
        (ap (Option.map (wrr_end idle proc (spend ts idle) idle)) search)
    where
      fails_test : (i : ℕ) → low ≤ i → i < high → wrr_test (spend ts idle) proc idle i ≡ false
      fails_test i p q = rw (eligible-spend ts idle proc i, fails i p q)

      from_idle : wrr_from idle idle idle ≡ idle
      from_idle = ground arith

      start : wrr_start idle low high idle ≡ low
      start = ground arith

      search :
          find_do
            (wrr_test (spend ts idle) proc idle)
            low
            high
            (wrr_from idle idle idle)
            fuel
            (wrr_start idle low high (wrr_from idle idle idle))
          ≡ none
      search =
          rw (from_idle, start, fails_test low (omega arith) filled)
            (find_until_hangs (wrr_test (spend ts idle) proc idle) fails_test fuel
              (next low high low) (ground arith) (ground arith))
