-- ===== src/Sched/Mlfq.antt =====
-- `pok_sched_part_mlfq` of kernel/core/sched.c: the multi-level feedback queue. Level 7 is the highest
-- level that a thread is created with.
pub mod Wraps
use pok_lab.Common.{
  ℕ, ◌+◌, ◌-◌, ◌/◌, ◌^◌, ◌≤◌, ◌<◌, ◌≡◌, ◌≢◌, refl, ◌⊎◌, inl, inr, Bool, true, false, not, ◌&&◌,
  Option, some, arith, ◌==◌, if◌then◌else◌, u32_mod, u8, update, sym, ◌∙◌, ℕ_discrete, Bool-cases,
  dec_lt, subst, ap, update_at,
}
use mathlib.Core.Option
use mathlib.Core.Bool.{false≢true}
use pok_lab.Types.{Threads, Thread}
use pok_lab.Sched.Best.{
  eligible, IsKnown, IsElection, start_from, start_from-in_ring, elect_best, elect_best_lem,
}
use pok_lab.Sched.Slice.{
  spend, slice_left, eligible-spend, HasSlice, IsSpent, spend-IsSpent, slice_left-HasSlice,
  HasSlice-slice_left,
}

-- `mlfq_level--;` of a `uint8_t`, `if (mlfq_level < 0) mlfq_level = 0;`, which no `uint8_t` meets, and
-- `remaining_timeslice = (1 << 7 >> mlfq_level);`. A shift by the width or more is read as 0.
unfoldable pub demote : Threads → ℕ → Threads
demote ts t =
    let level = u8 ((ts t).mlfq_level + 255) in
    update ts t (record (ts t) { mlfq_level = level; remaining_timeslice = 128 / 2 ^ level })

-- current_thread != IDLE_THREAD && pok_threads[current_thread].remaining_timeslice == 0
abbrev pub slice_over : ℕ → Threads → ℕ → Bool
slice_over idle ts current = not (current == idle) && ((ts current).remaining_timeslice == 0)

-- The threads as the election leaves them when the current thread does not go on.
unfoldable pub settle : ℕ → Threads → ℕ → Threads
settle idle ts current = if slice_over idle ts current then demote ts current else ts

unfoldable pub pok_sched_part_mlfq : ℕ → ℕ → ℕ → Threads → ℕ → ℕ → ℕ → ℕ → Option (Threads × ℕ)
pok_sched_part_mlfq fuel idle proc ts index_low index_high prev_thread current_thread =
    let ts1 = spend ts current_thread in
    let ts2 = settle idle ts1 current_thread in
    if slice_left ts1 current_thread
    then some (ts1, current_thread)
    else Option.map (λ e. (ts2, e))
        (elect_best ts2 (λ t. t.mlfq_level) proc idle fuel index_low index_high
          (start_from idle index_low prev_thread current_thread) current_thread)

pub eligible-settle :
    (idle : ℕ) (ts : Threads) (current proc i : ℕ)
    → eligible (settle idle ts current) proc i ≡ eligible ts proc i
unfolding settle demote
eligible-settle idle ts current proc i = ground arith

-- What the election answers, by the code's own tests: the current thread with a tick of its slice spent, or
-- the best by level.
abbrev pub IsMlfqTest : ℕ → ℕ → Threads → ℕ → ℕ → ℕ → Threads × ℕ → Type 0
IsMlfqTest idle proc ts low high current (ts', e) =
    ((slice_left (spend ts current) current ≡ true) × (ts' ≡ spend ts current) × (e ≡ current))
    ⊎ ((slice_left (spend ts current) current ≡ false)
        × (ts' ≡ settle idle (spend ts current) current)
        × IsElection ts' (λ (t : Thread). t.mlfq_level) proc idle low high e)

-- Thread `t` goes one level down, from level 0 to 255, and gets the slice of its new level, which is 0 for
-- level 255.
pub record IsDemoted (ts : Threads) (t : ℕ) (ts' : Threads) : Type 0 where
  pub lowest :
      (ts t).mlfq_level ≡ 0 → ts' t ≡ record (ts t) { mlfq_level = 255; remaining_timeslice = 0 }
  pub lower :
      (level : ℕ)
      → level < 255
      → (ts t).mlfq_level ≡ level + 1
      → ts' t ≡ record (ts t) { mlfq_level = level; remaining_timeslice = 128 / 2 ^ level }
  pub others : (i : ℕ) → i ≢ t → ts' i ≡ ts i

-- What the election makes of the threads when the current one does not go on: it is demoted if its slice
-- is over, and else loses a tick of it.
abbrev pub IsSettled : ℕ → Threads → ℕ → Threads → Type 0
IsSettled idle ts current ts' =
    ((current ≢ idle) × ((ts current).remaining_timeslice ≤ 1) × IsDemoted ts current ts')
    ⊎ (((current ≡ idle) ⊎ (1 < (ts current).remaining_timeslice)) × IsSpent ts current ts')

-- The current thread goes on with a tick less, or it is settled and the best by level is elected.
abbrev pub IsMlfq : ℕ → ℕ → Threads → ℕ → ℕ → ℕ → Threads × ℕ → Type 0
IsMlfq idle proc ts low high current (ts', e) =
    (HasSlice ts current × IsSpent ts current ts' × (e ≡ current))
    ⊎ ((¬ HasSlice ts current)
        × IsSettled idle ts current ts'
        × IsElection ts' (λ (t : Thread). t.mlfq_level) proc idle low high e)

module _ (idle : ℕ) (ts : Threads) (current : ℕ) where
  demote-IsDemoted : IsDemoted ts current (demote (spend ts current) current)
  unfolding demote spend
  demote-IsDemoted = record {
    lowest = λ z. ground (arith, z);
    lower = λ level small at. ground (arith, small, at);
    others = λ i off. ground (arith, off);
  }

  settle-IsSettled : IsSettled idle ts current (settle idle (spend ts current) current)
  unfolding settle
  settle-IsSettled = elim (ℕ_discrete current idle) [
    | yes idles ↦
        inr
          (inl idles, subst (IsSpent ts current) (kept (idle_is idles)) (spend-IsSpent ts current))
    | no busy ↦ elim (dec_lt 1 (ts current).remaining_timeslice) [
      | yes more ↦
          inr (inr more, subst (IsSpent ts current) (kept (long more)) (spend-IsSpent ts current))
      | no over ↦ inl (
        busy,
        omega (arith, over),
        subst (IsDemoted ts current) (changed (short busy over)) demote-IsDemoted,
      )
    ]
  ]
    where
      over_now : Bool
      over_now = slice_over idle (spend ts current) current

      kept : over_now ≡ false → spend ts current ≡ settle idle (spend ts current) current
      kept f = rw f refl

      changed :
          over_now ≡ true
          → demote (spend ts current) current ≡ settle idle (spend ts current) current
      changed t = rw t refl

      own_slice :
          (spend ts current current).remaining_timeslice ≡ (ts current).remaining_timeslice - 1
      own_slice = ap (λ (t : Thread). t.remaining_timeslice) (spend-IsSpent ts current).own

      idle_is : current ≡ idle → over_now ≡ false
      idle_is e = ground (arith, e)

      long : 1 < (ts current).remaining_timeslice → over_now ≡ false
      long more = rw own_slice (ground (arith, more))

      short : current ≢ idle → ¬ 1 < (ts current).remaining_timeslice → over_now ≡ true
      short busy over = rw own_slice (ground (arith, busy, over))

module _ (fuel idle proc : ℕ) (ts : Threads) (low high prev current : ℕ) (filled : low < high)
    (small : high < u32_mod) (p : IsKnown idle low high prev) (c : IsKnown idle low high current)
    (enough : high - low ≤ fuel) where
  -- The same by the code's own tests.
  pub mlfq_election :
      (r : Threads × ℕ) × (pok_sched_part_mlfq fuel idle proc ts low high prev current ≡ some r)
      × IsMlfqTest idle proc ts low high current r
  unfolding pok_sched_part_mlfq
  mlfq_election = elim (Bool-cases (slice_left (spend ts current) current)) [
    | inl go ↦ rw go ((spend ts current, current), refl, inl (refl, refl, refl))
    | inr stop ↦
        let ts2 = settle idle (spend ts current) current in
        let (e, eq, h) =
          elect_best_lem ts2 (λ t. t.mlfq_level) proc
            (start_from-in_ring idle low high prev current filled p c) small idle current fuel
            enough in
        rw (stop, eq) ((ts2, e), refl, inr (refl, refl, h))
  ]

  IsMlfqTest-IsMlfq :
      (r : Threads × ℕ)
      → IsMlfqTest idle proc ts low high current r
      → IsMlfq idle proc ts low high current r
  IsMlfqTest-IsMlfq (ts', e) (inl (go, spent, same)) = inl (
    slice_left-HasSlice ts current go,
    subst (IsSpent ts current) (sym spent) (spend-IsSpent ts current),
    same,
  )
  IsMlfqTest-IsMlfq (ts', e) (inr (stop, settled, best)) = inr (
    (λ h. false≢true (sym stop ∙ HasSlice-slice_left ts current h)),
    subst (IsSettled idle ts current) (sym settled) (settle-IsSettled idle ts current),
    best,
  )

  -- In a partition with threads, whose previous and current threads are its own or idle, the MLFQ
  -- election ends within one round. The current thread goes on, with one tick of its slice spent, if
  -- it is runnable and has capacity and a slice of more than one tick left. If not, it goes one level
  -- down, from level 0 to 255, with the slice of the new level, if its slice was of one tick at most
  -- and it is not the idle thread, and it spends a tick otherwise; then a thread of the highest level among
  -- those that may run is elected, or the idle thread if none may. No other thread changes. The slice of
  -- a level is 128 shifted right by it, where a shift by 8 or more is 0.
  pub pok_sched_part_mlfq_lem :
      (r : Threads × ℕ) × (pok_sched_part_mlfq fuel idle proc ts low high prev current ≡ some r)
      × IsMlfq idle proc ts low high current r
  pok_sched_part_mlfq_lem = let (r, eq, h) = mlfq_election in (r, eq, IsMlfqTest-IsMlfq r h)
