-- ===== src/Sched/Mlfq/Wraps.antt =====
-- Where `pok_sched_part_mlfq` of kernel/core/sched.c takes a level below 0.
use pok_lab.Common.{
  ℕ, ◌-◌, ◌≤◌, ◌<◌, ◌≡◌, ◌≢◌, inl, inr, true, false, some, arith, u32_mod, sym, ◌∙◌, ℕ_discrete,
}
use mathlib.Core.Bool.{false≢true}
use pok_lab.Types.{Threads, Thread}
use pok_lab.Sched.Best.{eligible, IsKnown, IsElection}
use pok_lab.Sched.Slice.{spend, slice_left, eligible-spend}
use pok_lab.Sched.Mlfq.{
  demote, settle, eligible-settle, pok_sched_part_mlfq, IsMlfqTest, mlfq_election,
}

module _ (fuel idle proc : ℕ) (ts : Threads) (low high prev current : ℕ) (filled : low < high)
    (small : high < u32_mod) (p : IsKnown idle low high prev) (c : IsKnown idle low high current)
    (enough : high - low ≤ fuel) where
  module _ (ne : current ≢ idle) (slice : (ts current).remaining_timeslice ≤ 1) where
    no_slice : slice_left (spend ts current) current ≡ false
    unfolding slice_left spend
    no_slice = ground arith

    level_settled :
        (ts current).mlfq_level ≡ 0
        → (settle idle (spend ts current) current current).mlfq_level ≡ 255
    unfolding settle demote spend
    level_settled z = ground arith

    level_other :
        (i : ℕ)
        → i ≢ current
        → (settle idle (spend ts current) current i).mlfq_level ≡ (ts i).mlfq_level
    unfolding settle demote spend
    level_other i d = ground arith

  -- The best by level, when the current thread alone has level 255.
  only_best :
      (ts' : Threads) (e : ℕ)
      → (ts' current).mlfq_level ≡ 255
      → ((i : ℕ) → low ≤ i → i < high → i ≢ current → (ts' i).mlfq_level ≤ 7)
      → low ≤ current
      → current < high
      → eligible ts' proc current ≡ true
      → IsElection ts' (λ (t : Thread). t.mlfq_level) proc idle low high e
      → e ≡ current
  only_best ts' e top others lo hi may (inl b) = elim (ℕ_discrete e current) [
    | yes q ↦ q
    | no n ↦
        absurd
          (omega (arith, b.greatest current lo hi may, others e b.from_low b.below_high n, top))
  ]
  only_best ts' e top others lo hi may (inr (q, none)) =
      absurd (false≢true (sym (none current lo hi) ∙ may))

  -- A thread of level 0 whose slice is over goes up to level 255, since the level is a `uint8_t`: it
  -- is elected again before every other thread of a level that the kernel gives (7 at most).
  pub mlfq_wraps :
      current ≢ idle
      → low ≤ current
      → current < high
      → eligible ts proc current ≡ true
      → (ts current).mlfq_level ≡ 0
      → (ts current).remaining_timeslice ≤ 1
      → ((i : ℕ) → low ≤ i → i < high → i ≢ current → (ts i).mlfq_level ≤ 7)
      → (r : Threads × ℕ) × (pok_sched_part_mlfq fuel idle proc ts low high prev current ≡ some r)
        × (r.1 ≡ current)
        × ((r.0 current).mlfq_level ≡ 255)
  mlfq_wraps ne lo hi may level slice others =
      let (r, eq, h) =
        mlfq_election fuel idle proc ts low high prev current filled small p c enough in
      (r, eq, (elected r h).0, (elected r h).1)
    where
      settled_may : eligible (settle idle (spend ts current) current) proc current ≡ true
      settled_may =
          eligible-settle idle (spend ts current) current proc current
          ∙ eligible-spend ts current proc current
          ∙ may

      elected :
          (r : Threads × ℕ)
          → IsMlfqTest idle proc ts low high current r
          → (r.1 ≡ current) × ((r.0 current).mlfq_level ≡ 255)
      elected r (inl (go, s, e)) = absurd (false≢true (sym (no_slice ne slice) ∙ go))
      elected r (inr (stop, s, h)) = (
        only_best r.0 r.1 (rw s (level_settled ne slice level))
            (λ i a b d. rw (s, level_other ne slice i d) (others i a b d)) lo hi (rw s settled_may)
            h,
        rw s (level_settled ne slice level),
      )
