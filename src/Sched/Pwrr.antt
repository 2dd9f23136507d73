-- ===== src/Sched/Pwrr.antt =====
-- `pok_sched_part_pwrr` of kernel/core/sched.c: the weighted round robin among threads of the same
-- priority, which a thread of a higher priority preempts.
pub mod Inversion
use pok_lab.Common.{
  ℕ, ◌-◌, ◌≤◌, ◌<◌, ◌≡◌, refl, ◌⊎◌, inl, inr, Bool, true, false, not, ◌&&◌, Option, none, some,
  arith, sym, ◌∙◌, suc, ◌>>=◌, ltb, ◌==◌, if◌then◌else◌, u32_mod, Bool-cases,
}
use mathlib.Core.Option
use mathlib.Core.Option.{some-injective}
use mathlib.Core.Bool.{false≢true}
use pok_lab.Types.{Threads, Thread}
use pok_lab.Sched.Ring.{next, place}
use pok_lab.Sched.Best.{
  eligible, NoneEligible, IsKnown, IsElection, IsBest, start_from, start_from-in_ring, elect_best,
  elect_best_lem,
}
use pok_lab.Sched.Search.{find_until, find_until-IsSearch, IsSearch}
use pok_lab.Sched.Slice.{
  spend, refill, refill_unless_idle, slice_left, eligible-spend, eligible-refill_unless_idle,
  priority-spend, priority-refill_unless_idle,
}

-- A thread that may run and has the current thread's priority.
abbrev pub same_priority : Threads → ℕ → ℕ → ℕ → Bool
same_priority ts proc current i = eligible ts proc i && ((ts i).priority == (ts current).priority)

-- Where the search for such a thread begins.
abbrev pub pwrr_start : ℕ → ℕ → ℕ → ℕ → ℕ
pwrr_start idle low high from = if from == idle then low else next low high from

-- `if (pok_threads[elected].priority > 0)`: elect it and fill the current slice, or else be idle.
unfoldable pub pwrr_lower : ℕ → Threads → ℕ → ℕ → Threads × ℕ
pwrr_lower idle ts current elected =
    if ltb 0 (ts elected).priority
    then (refill_unless_idle idle ts current, elected)
    else (ts, idle)

-- What stands behind the search: the thread found, or the current one, or one of a lower priority.
unfoldable pub pwrr_end : ℕ → ℕ → Threads → ℕ → Option ℕ → Option ℕ → Option (Threads × ℕ)
pwrr_end idle proc ts current lower (some i) = some (ts, i)
pwrr_end idle proc ts current lower none =
    if eligible ts proc current && not (current == idle)
    then some (refill ts current, current)
    else Option.map (pwrr_lower idle ts current) lower

-- The part behind the preemption, for the election `elected` of the first loop.
unfoldable pub pwrr_turn : ℕ → ℕ → ℕ → Threads → ℕ → ℕ → ℕ → ℕ → ℕ → Option (Threads × ℕ)
pwrr_turn fuel idle proc ts low high from current elected =
    if ltb (ts current).priority (ts elected).priority
    then some (refill_unless_idle idle ts current, elected)
    else if slice_left ts current
    then some (ts, current)
    else do
      let ts2 = refill_unless_idle idle ts current
      same ←
          find_until (same_priority ts2 proc current) low high from fuel
            (pwrr_start idle low high from)
      pwrr_end idle proc ts2 current
          (elect_best ts2 (λ t. t.priority) proc idle fuel low high from current) same

unfoldable pub pok_sched_part_pwrr : ℕ → ℕ → ℕ → Threads → ℕ → ℕ → ℕ → ℕ → Option (Threads × ℕ)
pok_sched_part_pwrr fuel idle proc ts index_low index_high prev_thread current_thread = do
  let ts1 = spend ts current_thread
  let from = start_from idle index_low prev_thread current_thread
  elected ← elect_best ts1 (λ t. t.priority) proc idle fuel index_low index_high from current_thread
  pwrr_turn fuel idle proc ts1 index_low index_high from current_thread elected
