-- ===== src/Sched/RoundRobin.antt =====
-- `pok_sched_part_rr` and `pok_sched_part_rms` of kernel/core/sched.c: the elections that walk on from
-- a thread to the next one that may run.
use pok_lab.Common.{
  ℕ, ◌-◌, ◌≤◌, ◌<◌, ◌≡◌, refl, ◌⊎◌, inl, inr, Bool, true, false, not, ◌&&◌, ◌||◌, Option, some,
  arith, ◌==◌, if◌then◌else◌, u32_mod, Bool-cases, is_minus_one, is_positive, subst, sym, ◌∙◌, ◌≢◌,
  ◌≤ℤ◌, ℤ, pos, minus_one, ℕ_discrete,
}
use mathlib.Core.Bool.{false≢true}
use mathlib.Core.Option
use pok_lab.Types.{Threads, State, runnable, is_runnable}
use pok_lab.Sched.Ring.{place}
use pok_lab.Sched.Best.{eligible, NoneEligible, IsKnown}
use pok_lab.Sched.Search.{walk, walk-IsWalk, IsWalk, FailBetween, ring_fails, place_last}

-- `if (elected == from && (not runnable or of another processor)) elected = IDLE_THREAD;`
abbrev pub or_idle : Threads → ℕ → ℕ → ℕ → ℕ → ℕ
or_idle ts proc idle from elected =
    if (elected == from) && not (eligible ts proc elected) then idle else elected

-- The walk from `from` on, and the test behind it.
unfoldable pub elect_next : ℕ → ℕ → ℕ → Threads → ℕ → ℕ → ℕ → Option ℕ
elect_next fuel idle proc ts low high from =
    Option.map (or_idle ts proc idle from) (walk (eligible ts proc) low high from fuel from)

-- The rate monotonic election: the threads stand in the order of their periods.
unfoldable pub pok_sched_part_rms : ℕ → ℕ → ℕ → Threads → ℕ → ℕ → ℕ → ℕ → Option ℕ
unfolding elect_next
pok_sched_part_rms fuel idle proc ts index_low index_high prev_thread current_thread =
    elect_next fuel idle proc ts index_low index_high index_low

-- Where the round robin starts from.
abbrev pub rr_from : ℕ → ℕ → ℕ → ℕ → ℕ
rr_from idle low prev current =
    if current == idle then (if prev == idle then low else prev) else current

-- The current thread goes on: it has capacity left, or an infinite one, may run, and is not idle.
abbrev pub may_continue : Threads → ℕ → ℕ → ℕ → Bool
may_continue ts proc idle current =
    (is_positive (ts current).remaining_time_capacity || is_minus_one (ts current).time_capacity)
    && eligible ts proc current
    && not (current == idle)

unfoldable pub pok_sched_part_rr : ℕ → ℕ → ℕ → Threads → ℕ → ℕ → ℕ → ℕ → Option ℕ
unfolding elect_next
pok_sched_part_rr fuel idle proc ts index_low index_high prev_thread current_thread =
    if may_continue ts proc idle current_thread
    then some current_thread
    else elect_next fuel idle proc ts index_low index_high
        (rr_from idle index_low prev_thread current_thread)

-- Thread `current` can go on: it is runnable, belongs to this processor, has capacity left or an infinite
-- one, and is not the idle thread.
pub record GoesOn (ts : Threads) (proc idle current : ℕ) : Type 0 where
  pub runs : (ts current).state ≡ runnable
  pub here : (ts current).processor_affinity ≡ proc
  pub capacity :
      (pos 1 ≤ℤ (ts current).remaining_time_capacity) ⊎ ((ts current).time_capacity ≡ minus_one)
  pub busy : current ≢ idle

-- The walk begins at the current thread, at the previous one if the processor is idle, or at the first
-- one if it was idle before as well.
abbrev pub IsFrom : ℕ → ℕ → ℕ → ℕ → ℕ → Type 0
IsFrom idle low prev current from =
    ((current ≢ idle) × (from ≡ current))
    ⊎ ((current ≡ idle) × (prev ≢ idle) × (from ≡ prev))
    ⊎ ((current ≡ idle) × (prev ≡ idle) × (from ≡ low))

rr_from-IsFrom :
    (idle low prev current : ℕ) → IsFrom idle low prev current (rr_from idle low prev current)
rr_from-IsFrom idle low prev current = elim (ℕ_discrete current idle) [
  | no busy ↦ inl (busy, ground (arith, busy))
  | yes idles ↦ elim (ℕ_discrete prev idle) [
    | no other ↦ inr (inl (idles, other, ground (arith, idles, other)))
    | yes before ↦ inr (inr (idles, before, ground (arith, idles, before)))
  ]
]

module _ (ts : Threads) (proc idle current : ℕ) where
  infinite : (z : ℤ) → is_minus_one z ≡ true → z ≡ minus_one
  infinite z e = ground (arith, e)

  runs_on : (s : State) (p : ℕ) → is_runnable s && (p == proc) ≡ true → (s ≡ runnable) × (p ≡ proc)
  runs_on s p e = ground (arith, e)

  may_continue-GoesOn : may_continue ts proc idle current ≡ true → GoesOn ts proc idle current
  may_continue-GoesOn go = record {
    runs = (runs_on (ts current).state (ts current).processor_affinity (ground (arith, go))).0;
    here = (runs_on (ts current).state (ts current).processor_affinity (ground (arith, go))).1;
    capacity = elim (Bool-cases (is_positive (ts current).remaining_time_capacity)) [
      | inl left ↦ inl (ground (arith, left))
      | inr out ↦ inr (infinite (ts current).time_capacity (ground (arith, go, out)))
    ];
    busy = λ e. ground (arith, go, e);
  }

  GoesOn-may_continue : GoesOn ts proc idle current → may_continue ts proc idle current ≡ true
  GoesOn-may_continue g = elim g.capacity [
    | inl left ↦ rw (g.runs, g.here) (ground (arith, left, g.busy))
    | inr infinite ↦ rw (g.runs, g.here, infinite) (ground (arith, g.busy))
  ]

-- Thread `e` is the first after `from`, in the order of the walk, that may run; `from` comes last.
abbrev pub IsNext : Threads → ℕ → ℕ → ℕ → ℕ → ℕ → Type 0
IsNext ts proc low high from e =
    (m : ℕ) × (e ≡ place low high from m)
    × (1 ≤ m)
    × (m ≤ high - low)
    × (eligible ts proc e ≡ true)
    × FailBetween (eligible ts proc) low high from 1 m

module _ (fuel idle proc : ℕ) (ts : Threads) (low high : ℕ) (small : high < u32_mod)
    (enough : high - low ≤ fuel) where
  module _ (from : ℕ) (in_ring : (low ≤ from) × (from < high)) where
    -- What the election makes of a walk that stopped at `o`.
    abbrev IsTurn : Option ℕ → Type 0
    IsTurn o =
        (e : ℕ) × (o ≡ some e)
        × (IsNext ts proc low high from e ⊎ ((e ≡ idle) × NoneEligible ts proc low high))

    walk_choice :
        (o : Option ℕ)
        → IsWalk (eligible ts proc) low high from 0 o
        → IsTurn (Option.map (or_idle ts proc idle from) o)
    walk_choice o (m, eq, p, q, b, inr (l, t)) =
        (place low high from m, rw eq (ground (arith, t)), inl (m, refl, p, q, t, b))
    walk_choice o (m, eq, p, q, b, inl e) = elim (Bool-cases (eligible ts proc from)) [
      | inl t ↦ (from, rw (eq, last) (ground (arith, t)), inl (m, sym last, p, q, t, b))
      | inr f ↦ (
        idle,
        rw (eq, last) (ground (arith, f)),
        inr (refl, ring_fails (eligible ts proc) low high from in_ring small (rw e at b) f),
      )
    ]
      where
        last : place low high from m ≡ from
        last = rw e (place_last (eligible ts proc) low high from in_ring small)

    elect_next_lem : IsTurn (elect_next fuel idle proc ts low high from)
    unfolding elect_next
    elect_next_lem =
        subst
          (λ i.
            IsTurn (
              Option.map (or_idle ts proc idle from)
                (walk (eligible ts proc) low high from fuel i)))
          first
          (walk_choice _ (
            walk-IsWalk (eligible ts proc) low high from in_ring small (high - low - 1) 0 fuel
              (omega arith) (omega arith)))
      where
        first : place low high from 0 ≡ from
        first = ground arith

  -- The rate monotonic election of a partition with threads ends within one round of it. It elects the
  -- first thread after the partition's first that may run on this processor, in the order of the
  -- table and with the first one last, or the idle thread if none may run.
  pub pok_sched_part_rms_lem :
      (prev current : ℕ)
      → low < high
      → (e : ℕ) × (pok_sched_part_rms fuel idle proc ts low high prev current ≡ some e)
        × (IsNext ts proc low high low e ⊎ ((e ≡ idle) × NoneEligible ts proc low high))
  unfolding pok_sched_part_rms
  pok_sched_part_rms_lem prev current h = elect_next_lem low (omega arith, h)

  -- The same by the code's own tests.
  pub rr_election :
      (prev current : ℕ)
      → low < high
      → IsKnown idle low high prev
      → IsKnown idle low high current
      → (e : ℕ) × (pok_sched_part_rr fuel idle proc ts low high prev current ≡ some e)
        × (((may_continue ts proc idle current ≡ true) × (e ≡ current))
            ⊎ ((may_continue ts proc idle current ≡ false)
                × (IsNext ts proc low high (rr_from idle low prev current) e
                    ⊎ ((e ≡ idle) × NoneEligible ts proc low high))))
  unfolding pok_sched_part_rr
  rr_election prev current h p c = elim (Bool-cases (may_continue ts proc idle current)) [
    | inl go ↦ rw go (current, refl, inl (refl, refl))
    | inr stop ↦
        let (e, eq, turn) = elect_next_lem (rr_from idle low prev current) (ground arith) in
        rw stop (e, eq, inr (refl, turn))
  ]

  -- The round robin election of a partition whose previous and current threads are its own or idle
  -- ends within one round. The current thread goes on if it is runnable, belongs to this processor,
  -- has capacity left or an infinite one, and is not the idle thread. If not, the next thread in the order
  -- of the walk that may run is elected, with the thread that the walk began from last, or the idle
  -- thread if none may run. The walk begins at the current thread, or, if that is the idle one, at
  -- the previous one, or at the partition's first if the previous one is idle too.
  pub pok_sched_part_rr_lem :
      (prev current : ℕ)
      → low < high
      → IsKnown idle low high prev
      → IsKnown idle low high current
      → (e : ℕ) × (pok_sched_part_rr fuel idle proc ts low high prev current ≡ some e)
        × ((GoesOn ts proc idle current × (e ≡ current))
            ⊎ ((¬ GoesOn ts proc idle current)
                × (from : ℕ) × IsFrom idle low prev current from
                × (IsNext ts proc low high from e ⊎ ((e ≡ idle) × NoneEligible ts proc low high))))
  pok_sched_part_rr_lem prev current h p c =
      let (e, eq, answer) = rr_election prev current h p c in
      (
        e,
        eq,
        elim answer [
          | inl (go, same) ↦ inl (may_continue-GoesOn ts proc idle current go, same)
          | inr (stop, turn) ↦ inr (
            (λ g. false≢true (sym stop ∙ GoesOn-may_continue ts proc idle current g)),
            rr_from idle low prev current,
            rr_from-IsFrom idle low prev current,
            turn,
          )
        ],
      )
