-- ===== src/Sched/Dispatch/Known.antt =====
-- Every election of kernel/core/sched.c answers a thread of the partition, or the idle thread.
use pok_lab.Common.{
  ℕ, suc, ◌-◌, ◌≤◌, ◌<◌, ◌≡◌, ◌≢◌, refl, ap, ◌⊎◌, inl, inr, true, false, List, [], ◌∷◌, foldl,
  Option, some, arith, ltb, u32_mod, Bool-cases,
}
use mathlib.Core.Option
use pok_lab.Types.{Threads, Thread, SchedFunc, rms, static, pps, pedf, wrr, pwrr, mlfq, rr}
use pok_lab.Sched.Ring.{scan-ring, ring, All-ring, All}
use pok_lab.Sched.Best.{eligible, IsKnown, IsElection, NoneEligible, start_from, start_from-in_ring}
use pok_lab.Sched.Priority.{pok_sched_part_static_lem, pok_sched_part_pps_lem}
use pok_lab.Sched.RoundRobin.{IsNext, pok_sched_part_rms_lem, rr_election, rr_from, may_continue}
use pok_lab.Sched.Search.{place-in_ring}
use pok_lab.Sched.Edf.{Earliest, keep_earliest, choice, no_earliest, pok_sched_part_pedf}
use pok_lab.Sched.Wrr.{wrr_test, wrr_from, IsWrrTest, wrr_election}
use pok_lab.Sched.Pwrr.Inversion.{pok_sched_part_pwrr_lem}
use pok_lab.Sched.Mlfq.{mlfq_election, IsMlfqTest}
use pok_lab.Sched.Dispatch.{sched_call}

-- What an election wants of its partition: two threads or more, none of them the idle thread; previous
-- and current threads that are its own or idle, but not both idle; and a round of fuel.
pub record Ready (fuel idle low high prev current : ℕ) : Type 0 where
  pub filled : suc low < high
  pub small : high < u32_mod
  pub out : high ≤ idle
  pub prev_known : IsKnown idle low high prev
  pub current_known : IsKnown idle low high current
  pub not_both : (prev ≢ idle) ⊎ (current ≢ idle)
  pub enough : high - low ≤ fuel

module _ (idle proc : ℕ) (ts : Threads) (low high : ℕ) where
  Election-IsKnown :
      (us : Threads) (key : Thread → ℕ) (e : ℕ)
      → IsElection us key proc idle low high e
      → IsKnown idle low high e
  Election-IsKnown us key e (inl b) = inr (b.from_low, b.below_high)
  Election-IsKnown us key e (inr (eq, n)) = inl eq

  Turn-IsKnown :
      (from e : ℕ)
      → (low ≤ from) × (from < high)
      → high < u32_mod
      → IsNext ts proc low high from e ⊎ ((e ≡ idle) × NoneEligible ts proc low high)
      → IsKnown idle low high e
  Turn-IsKnown from e r small (inl (m, at, p, q, t, b)) =
      inr (rw at (place-in_ring (eligible ts proc) low high from r small m q))
  Turn-IsKnown from e r small (inr (eq, n)) = inl eq

  module _ (fuel prev current : ℕ) (v : Ready fuel idle low high prev current) where
    open v use {filled, small, out, prev_known, current_known, not_both, enough}

    wrr-IsKnown :
        (r : Threads × ℕ)
        → IsWrrTest fuel idle proc ts low high prev current r
        → IsKnown idle low high r.1
    wrr-IsKnown r (inl (go, e, s)) = rw e current_known
    wrr-IsKnown r (inr (stop, s, inl (m, at, p, q, t, b))) = inr (
        rw at (
          place-in_ring (wrr_test ts proc idle) low high (wrr_from idle prev current) in_ring small
            m (omega arith)))
      where
        in_ring : (low ≤ wrr_from idle prev current) × (wrr_from idle prev current < high)
        in_ring = ground (arith, prev_known, current_known, not_both)
    wrr-IsKnown r (inr (stop, s, inr (b, inl (t, e)))) = rw e current_known
    wrr-IsKnown r (inr (stop, s, inr (b, inr (t, e)))) = inl e

    mlfq-IsKnown :
        (r : Threads × ℕ) → IsMlfqTest idle proc ts low high current r → IsKnown idle low high r.1
    mlfq-IsKnown r (inl (go, s, e)) = rw e current_known
    mlfq-IsKnown r (inr (stop, s, h)) = Election-IsKnown r.0 (λ t. t.mlfq_level) r.1 h

    rr-IsKnown :
        (e : ℕ)
        → ((may_continue ts proc idle current ≡ true) × (e ≡ current))
          ⊎ ((may_continue ts proc idle current ≡ false)
              × (IsNext ts proc low high (rr_from idle low prev current) e
                  ⊎ ((e ≡ idle) × NoneEligible ts proc low high)))
        → IsKnown idle low high e
    rr-IsKnown e (inl (go, q)) = rw q current_known
    rr-IsKnown e (inr (stop, t)) =
        Turn-IsKnown (rr_from idle low prev current) e (ground (arith, prev_known, current_known))
          small t

    keep_earliest-IsKnown :
        (b : Earliest) (x : ℕ)
        → IsKnown idle low high b.max_thread
        → low ≤ x
        → x < high
        → IsKnown idle low high (keep_earliest ts proc b x).max_thread
    unfolding keep_earliest
    keep_earliest-IsKnown b x h p q = ground (arith, h)

    foldl-IsKnown :
        (b : Earliest) (xs : List ℕ)
        → IsKnown idle low high b.max_thread
        → All (λ i. (low ≤ i) × (i < high)) xs
        → IsKnown idle low high (foldl (keep_earliest ts proc) b xs).max_thread
    foldl-IsKnown b [] h a = h
    foldl-IsKnown b (x ∷ xs) h a =
        foldl-IsKnown (keep_earliest ts proc b x) xs (keep_earliest-IsKnown b x h a.0.0 a.0.1) a.1

    abbrev Answers : Option (Threads × ℕ) → Type 0
    Answers o = (r : Threads × ℕ) × (o ≡ some r) × IsKnown idle low high r.1

    pedf-Answers :
        Answers
          (Option.map (λ e. (ts, e)) (pok_sched_part_pedf fuel idle proc ts low high prev current))
    unfolding pok_sched_part_pedf
    pedf-Answers = (
      (ts, choice idle last),
      ap (λ o. Option.map (λ e. (ts, e)) (Option.map (choice idle) o))
          (scan-ring in_ring small (keep_earliest ts proc) fuel (no_earliest idle) enough),
      chosen,
    )
      where
        in_ring :
            (low ≤ start_from idle low prev current) × (start_from idle low prev current < high)
        in_ring =
            start_from-in_ring idle low high prev current (omega arith) prev_known current_known

        last : Earliest
        last =
            foldl (keep_earliest ts proc) (no_earliest idle)
              (ring low high (start_from idle low prev current))

        last_known : IsKnown idle low high last.max_thread
        last_known =
            foldl-IsKnown (no_earliest idle) (ring low high (start_from idle low prev current))
              (inl refl) (All-ring in_ring small (λ i. (low ≤ i) × (i < high)) (λ i a b. (a, b)))

        chosen : IsKnown idle low high (choice idle last)
        chosen = elim (Bool-cases (ltb 0 last.earliest_ddl)) [
          | inl e ↦ rw e last_known
          | inr e ↦ rw e (inl refl)
        ]

    kept :
        (o : Option ℕ) (e : ℕ)
        → o ≡ some e
        → IsKnown idle low high e
        → Answers (Option.map (λ e. (ts, e)) o)
    kept o e eq h = ((ts, e), rw eq refl, h)

    -- Whichever scheduler a ready partition has, its election ends within one round, and answers a
    -- thread of the partition or the idle thread.
    pub sched_call_lem :
        (s : SchedFunc)
        → (r : Threads × ℕ) × (sched_call s fuel idle proc ts low high prev current ≡ some r)
          × IsKnown idle low high r.1
    unfolding sched_call
    sched_call_lem rms =
        let (e, eq, h) =
          pok_sched_part_rms_lem fuel idle proc ts low high small enough prev current
            (omega arith) in
        kept _ e eq (Turn-IsKnown low e (omega arith, omega arith) small h)
    sched_call_lem static =
        let (e, eq, h) =
          pok_sched_part_static_lem fuel idle proc ts low high prev current (omega arith) small
            prev_known current_known enough in
        kept _ e eq (Election-IsKnown ts (λ t. t.priority) e h)
    sched_call_lem pps =
        let (e, eq, h) =
          pok_sched_part_pps_lem fuel idle proc ts low high prev current (omega arith) small
            prev_known current_known enough in
        kept _ e eq (Election-IsKnown ts (λ t. t.priority) e h)
    sched_call_lem pedf = pedf-Answers
    sched_call_lem wrr =
        let (r, eq, h) =
          wrr_election fuel idle proc ts low high prev current filled small out prev_known
            current_known not_both enough in
        (r, eq, wrr-IsKnown r h)
    sched_call_lem pwrr =
        let (r, eq, n, h) =
          pok_sched_part_pwrr_lem idle proc low high fuel ts prev current (omega arith) small
            prev_known current_known enough out in
        (r, eq, h)
    sched_call_lem mlfq =
        let (r, eq, h) =
          mlfq_election fuel idle proc ts low high prev current (omega arith) small prev_known
            current_known enough in
        (r, eq, mlfq-IsKnown r h)
    sched_call_lem rr =
        let (e, eq, h) =
          rr_election fuel idle proc ts low high small enough prev current (omega arith) prev_known
            current_known in
        kept _ e eq (rr-IsKnown e h)
