-- ===== src/Sched/Pwrr/Inversion.antt =====
-- The preemptive weighted round robin of kernel/core/sched.c ends, and inverts no priorities.
use pok_lab.Common.{
  ℕ, ◌-◌, ◌≤◌, ◌<◌, ◌≡◌, refl, ◌⊎◌, inl, inr, true, false, not, ◌&&◌, Option, none, some, arith,
  sym, ◌∙◌, ◌>>=◌, ltb, ◌==◌, u32_mod, Bool-cases,
}
use mathlib.Core.Bool.{false≢true}
use pok_lab.Types.{Threads, Thread}
use pok_lab.Sched.Ring.{place}
use pok_lab.Sched.Best.{
  eligible, IsKnown, IsElection, start_from, start_from-in_ring, elect_best, elect_best_lem,
}
use pok_lab.Sched.Search.{find_until, find_until-IsSearch, IsSearch, place-in_ring}
use pok_lab.Sched.Slice.{
  spend, refill, refill_unless_idle, slice_left, eligible-spend, eligible-refill_unless_idle,
  priority-spend, priority-refill_unless_idle,
}
use pok_lab.Sched.Pwrr.{
  same_priority, pwrr_start, pwrr_lower, pwrr_end, pwrr_turn, pok_sched_part_pwrr,
}

module _ (idle proc : ℕ) (low high : ℕ) where
  -- No thread of the partition that may run has a greater priority than `e`; or `e` is the idle thread
  -- and those that may run have priority 0.
  abbrev pub NoInversion : Threads → ℕ → Type 0
  NoInversion ts e =
      ((i : ℕ) → low ≤ i → i < high → eligible ts proc i ≡ true → (ts i).priority ≤ (ts e).priority)
      ⊎ ((e ≡ idle)
          × ((i : ℕ) → low ≤ i → i < high → eligible ts proc i ≡ true → (ts i).priority ≡ 0))

  Election-NoInversion :
      (ts : Threads) (e : ℕ)
      → IsElection ts (λ (t : Thread). t.priority) proc idle low high e
      → (i : ℕ) → low ≤ i
      → i < high
      → eligible ts proc i ≡ true
      → (ts i).priority ≤ (ts e).priority
  Election-NoInversion ts e (inl b) i p q t = b.greatest i p q t
  Election-NoInversion ts e (inr (eq, n)) i p q t = absurd (false≢true (sym (n i p q) ∙ t))

  module _ (fuel : ℕ) (ts : Threads) (prev current : ℕ) (filled : low < high)
      (small : high < u32_mod) (p : IsKnown idle low high prev) (c : IsKnown idle low high current)
      (enough : high - low ≤ fuel) (out : high ≤ idle) where
    -- The claim for the threads `ts` that a part of the election begins with.
    abbrev Ends : Threads → Option (Threads × ℕ) → Type 0
    Ends ts o = (r : Threads × ℕ) × (o ≡ some r) × NoInversion ts r.1 × IsKnown idle low high r.1

    Election-IsKnown :
        (ts : Threads) (e : ℕ)
        → IsElection ts (λ (t : Thread). t.priority) proc idle low high e
        → IsKnown idle low high e
    Election-IsKnown ts e (inl b) = inr (b.from_low, b.below_high)
    Election-IsKnown ts e (inr (eq, n)) = inl eq

    pwrr_lower_lem :
        (ts : Threads) (e : ℕ)
        → IsElection ts (λ (t : Thread). t.priority) proc idle low high e
        → NoInversion ts (pwrr_lower idle ts current e).1
          × IsKnown idle low high (pwrr_lower idle ts current e).1
    unfolding pwrr_lower
    pwrr_lower_lem ts e h = elim (Bool-cases (ltb 0 (ts e).priority)) [
      | inl up ↦ rw up (inl (Election-NoInversion ts e h), Election-IsKnown ts e h)
      | inr zero ↦ rw zero (
        inr (refl, λ i a b t. ground (arith, zero, Election-NoInversion ts e h i a b t)),
        inl refl,
      )
    ]

    -- No thread that may run precedes the current one.
    abbrev CurrentTops : Threads → Type 0
    CurrentTops ts =
        (i : ℕ)
        → low ≤ i
        → i < high
        → eligible ts proc i ≡ true
        → (ts i).priority ≤ (ts current).priority

    pwrr_end_lem :
        (ts : Threads) (lower same : Option ℕ)
        → CurrentTops ts
        → (e : ℕ) × (lower ≡ some e)
          × IsElection ts (λ (t : Thread). t.priority) proc idle low high e
        → ((i : ℕ)
            → same ≡ some i
            → ((ts i).priority ≡ (ts current).priority) × IsKnown idle low high i)
        → Ends ts (pwrr_end idle proc ts current lower same)
    unfolding pwrr_end
    pwrr_end_lem ts lower (some i) top l s =
        ((ts, i), refl, inl (λ j a b t. omega (arith, (s i refl).0, top j a b t)), (s i refl).1)
    pwrr_end_lem ts lower none top (e, eq, h) s =
        elim (Bool-cases (eligible ts proc current && not (current == idle))) [
          | inl t ↦ rw t ((refill ts current, current), refl, inl top, c)
          | inr f ↦
              rw (f, eq)
                (
                  pwrr_lower idle ts current e,
                  refl,
                  (pwrr_lower_lem ts e h).0,
                  (pwrr_lower_lem ts e h).1,
                )
        ]

    -- Two tables that agree on who may run and on the priorities.
    record Agree (us vs : Threads) : Type 0 where
      may : (i : ℕ) → eligible vs proc i ≡ eligible us proc i
      prio : (i : ℕ) → (vs i).priority ≡ (us i).priority

    Agree-refill : (ts : Threads) → Agree ts (refill_unless_idle idle ts current)
    Agree-refill ts = record {
      may = eligible-refill_unless_idle idle ts current proc;
      prio = priority-refill_unless_idle idle ts current;
    }

    Agree-spend : Agree ts (spend ts current)
    Agree-spend = record { may = eligible-spend ts current proc; prio = priority-spend ts current }

    NoInversion-Agree :
        (ts ts2 : Threads) (e : ℕ) → Agree ts ts2 → NoInversion ts2 e → NoInversion ts e
    NoInversion-Agree ts ts2 e a (inl h) =
        inl (λ i p q t. rw (← a.prio i, ← a.prio e) (h i p q (a.may i ∙ t)))
    NoInversion-Agree ts ts2 e a (inr (eq, h)) =
        inr (eq, λ i p q t. rw (← a.prio i) (h i p q (a.may i ∙ t)))

    Ends-Agree :
        (ts ts2 : Threads) (o : Option (Threads × ℕ)) → Agree ts ts2 → Ends ts2 o → Ends ts o
    Ends-Agree ts ts2 o a (r, eq, h, n) = (r, eq, NoInversion-Agree ts ts2 r.1 a h, n)

    abbrev from : ℕ
    from = start_from idle low prev current

    in_ring : (low ≤ from) × (from < high)
    in_ring = start_from-in_ring idle low high prev current filled p c

    start : pwrr_start idle low high from ≡ place low high from 1
    start = ground (arith, in_ring)

    same_found :
        (ts : Threads) (lower : Option ℕ) (o : Option (Option ℕ))
        → CurrentTops ts
        → (e : ℕ) × (lower ≡ some e)
          × IsElection ts (λ (t : Thread). t.priority) proc idle low high e
        → IsSearch (same_priority ts proc current) low high from 1 o
        → Ends ts (o >>= pwrr_end idle proc ts current lower)
    same_found ts lower none top l (inl (e, eq, f)) = cc
    same_found ts lower none top l (inr (eq, f)) = cc
    same_found ts lower (some same) top l (inl (e, eq, (m, at, p, q, t, b))) =
        pwrr_end_lem ts lower same top l (λ i h. (ground (arith, t, same_is i h), inr (inside i h)))
      where
        same_is : (i : ℕ) → same ≡ some i → i ≡ e
        same_is i h = cc

        inside : (i : ℕ) → same ≡ some i → (low ≤ i) × (i < high)
        inside i h =
            rw (same_is i h, at)
              (place-in_ring (same_priority ts proc current) low high from in_ring small m
                (omega arith))
    same_found ts lower (some same) top l (inr (eq, f)) =
        pwrr_end_lem ts lower same top l (λ i h. absurd (cc))

    pwrr_search :
        (ts : Threads)
        → CurrentTops ts
        → Ends ts (
            find_until
              (same_priority ts proc current)
              low
              high
              from
              fuel
              (pwrr_start idle low high from)
            >>= pwrr_end idle proc ts current
                (elect_best ts (λ t. t.priority) proc idle fuel low high from current))
    pwrr_search ts top =
        same_found ts _ _ top
          (elect_best_lem ts (λ t. t.priority) proc in_ring small idle current fuel enough)
          (rw start (
            find_until-IsSearch (same_priority ts proc current) low high from in_ring small
              (high - low - 1) 1 fuel (omega arith) (omega arith) (omega arith)))

    CurrentTops-Agree : (ts ts2 : Threads) → Agree ts ts2 → CurrentTops ts → CurrentTops ts2
    CurrentTops-Agree ts ts2 a top i p q t =
        rw (a.prio i, a.prio current) (top i p q (sym (a.may i) ∙ t))

    pwrr_turn_lem :
        (ts : Threads) (e : ℕ)
        → IsElection ts (λ (t : Thread). t.priority) proc idle low high e
        → Ends ts (pwrr_turn fuel idle proc ts low high from current e)
    unfolding pwrr_turn
    pwrr_turn_lem ts e h = elim (Bool-cases (ltb (ts current).priority (ts e).priority)) [
      | inl up ↦ rw up (
        (refill_unless_idle idle ts current, e),
        refl,
        inl (Election-NoInversion ts e h),
        Election-IsKnown ts e h,
      )
      | inr down ↦ rw down (elim (Bool-cases (slice_left ts current)) [
        | inl go ↦ rw go ((ts, current), refl, inl (tops down), c)
        | inr stop ↦ rw stop (
            Ends-Agree ts (refill_unless_idle idle ts current) _ (Agree-refill ts) (
              pwrr_search (refill_unless_idle idle ts current) (
                CurrentTops-Agree ts (refill_unless_idle idle ts current) (Agree-refill ts)
                  (tops down))))
      ])
    ]
      where
        tops : ltb (ts current).priority (ts e).priority ≡ false → CurrentTops ts
        tops down i p q t = ground (arith, down, Election-NoInversion ts e h i p q t)

    -- In a partition with threads, none of which is the idle thread, and whose previous and current
    -- threads are its own or idle, the preemptive weighted round robin ends within one round. No
    -- thread that may run has a greater priority than the elected one; or the idle thread is elected
    -- and the threads that may run, if any, have priority 0. It elects a thread of the partition or
    -- the idle thread.
    pub pok_sched_part_pwrr_lem :
        (r : Threads × ℕ) × (pok_sched_part_pwrr fuel idle proc ts low high prev current ≡ some r)
        × NoInversion ts r.1
        × IsKnown idle low high r.1
    unfolding pok_sched_part_pwrr
    pok_sched_part_pwrr_lem =
        let (e, eq, h) =
          elect_best_lem (spend ts current) (λ t. t.priority) proc in_ring small idle current fuel
            enough in
        Ends-Agree ts (spend ts current) _ Agree-spend
          (rw eq (pwrr_turn_lem (spend ts current) e h))
