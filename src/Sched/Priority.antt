-- ===== src/Sched/Priority.antt =====
-- `pok_sched_part_static` and `pok_sched_part_pps` of kernel/core/sched.c: the election by fixed
-- priority. The two have the same text.
use pok_lab.Common.{ℕ, ◌-◌, ◌≤◌, ◌<◌, ◌≡◌, Option, some, u32_mod}
use pok_lab.Types.{Threads, Thread}
use pok_lab.Sched.Best.{
  elect_best, start_from, IsElection, IsKnown, start_from-in_ring, elect_best_lem,
}

-- The fuel stands first, then IDLE_THREAD, the processor and `pok_threads`; the rest is the call's.
unfoldable pub pok_sched_part_static : ℕ → ℕ → ℕ → Threads → ℕ → ℕ → ℕ → ℕ → Option ℕ
pok_sched_part_static fuel idle proc ts index_low index_high prev_thread current_thread =
    elect_best ts (λ t. t.priority) proc idle fuel index_low index_high
      (start_from idle index_low prev_thread current_thread) current_thread

unfoldable pub pok_sched_part_pps : ℕ → ℕ → ℕ → Threads → ℕ → ℕ → ℕ → ℕ → Option ℕ
pok_sched_part_pps fuel idle proc ts index_low index_high prev_thread current_thread =
    elect_best ts (λ t. t.priority) proc idle fuel index_low index_high
      (start_from idle index_low prev_thread current_thread) current_thread

module _ (fuel idle proc : ℕ) (ts : Threads) (low high prev current : ℕ) (filled : low < high)
    (small : high < u32_mod) (p : IsKnown idle low high prev) (c : IsKnown idle low high current)
    (enough : high - low ≤ fuel) where
  -- In a partition with threads, whose previous and current threads are its own or idle, the static
  -- election ends within one round of the partition. It elects a thread of the partition that may run
  -- on this processor and has the greatest priority among those, or the idle thread if none may run.
  pub pok_sched_part_static_lem :
      (e : ℕ) × (pok_sched_part_static fuel idle proc ts low high prev current ≡ some e)
      × IsElection ts (λ (t : Thread). t.priority) proc idle low high e
  unfolding pok_sched_part_static
  pok_sched_part_static_lem =
      elect_best_lem ts (λ t. t.priority) proc
        (start_from-in_ring idle low high prev current filled p c) small idle current fuel enough

  -- The PPS election ends within one round of the partition too, and elects by the same rule.
  pub pok_sched_part_pps_lem :
      (e : ℕ) × (pok_sched_part_pps fuel idle proc ts low high prev current ≡ some e)
      × IsElection ts (λ (t : Thread). t.priority) proc idle low high e
  unfolding pok_sched_part_pps
  pok_sched_part_pps_lem =
      elect_best_lem ts (λ t. t.priority) proc
        (start_from-in_ring idle low high prev current filled p c) small idle current fuel enough
