-- ===== src/Tests/Global.antt =====
-- Runs of the theorems on the election of partitions and on the processors of a partition.
use pok_lab.Common.{
  ℕ, ◌+◌, ◌<◌, ◌≡◌, refl, true, false, none, some, arith, if◌then◌else◌, ◌==◌, u64, update,
}
use pok_lab.Types.{Threads, Partitions}
use pok_lab.Kernel.{Kernel}
use pok_lab.Sched.Global.{
  activate, activate_inner, activate_outer, activate_waiting_threads, Elected,
  pok_sched_part_global_pps,
}
use pok_lab.Sched.Global.Activate.{activate_waiting_threads_hangs}
use pok_lab.Sched.Global.Elect.{load, sum_runnable, IsHeaviest, pok_sched_part_global_pps_lem}
use pok_lab.Sched.Slots.{
  pok_sched_init, pok_init_slots, init_slots_by, fill_slots, total_slots, pok_elect_partition,
}
use pok_lab.Sched.Slots.Frame.{turns, InSlot, pok_sched_init_lem, pok_elect_partition_lem}
use pok_lab.Processors.{get_proc_real_id, get_proc_partition_id}
use pok_lab.Processors.RoundTrip.{below, get_proc_partition_id-get_proc_real_id}
use pok_lab.Tests.Data.{runner, all_run, part, conf, kernel, at_120}

-- Two partitions of one thread each: the inner loop leaves the counter at 1.
abbrev single : Partitions
single p = record part { nthreads = 1; thread_index_low = p; thread_index_high = p + 1 }

single_below : (i : ℕ) → i < 1 → i < (single i).nthreads
single_below i h = h

activate_hangs_example : activate_waiting_threads true 0 120 single 3 20 all_run ≡ none
activate_hangs_example =
    activate_waiting_threads_hangs true 0 120 single 1 single_below (omega arith) (omega arith) 3
      (omega arith) 20 all_run

-- Two threads of priority 128 in the first partition, and one in the second.
abbrev heavy : Threads
heavy i = record runner { priority = 128 }

abbrev uneven : Partitions
uneven p = if p == 0 then part else record part { nthreads = 1; thread_index_low = 2 }

-- The threads as the activation leaves them.
abbrev activated : Threads
activated = update heavy 0 (heavy 0)

activation : activate_waiting_threads true 0 120 uneven 2 20 heavy ≡ some activated
unfolding activate_waiting_threads activate_outer activate_inner activate
activation = refl

total : sum_runnable activated 0 2 0 ≡ 256
unfolding sum_runnable
total = refl

light : 0 < load activated uneven 1
unfolding sum_runnable
light = omega arith

global_pps_example :
    (r : Elected) × (pok_sched_part_global_pps 20 true 0 120 2 heavy uneven 0 ≡ some r)
    × (r.threads ≡ activated)
    × IsHeaviest (load activated uneven) 2 0 r.partition
global_pps_example =
    pok_sched_part_global_pps_lem 20 true 0 120 2 heavy uneven 0 activated activation

no_error : (pok_sched_init conf kernel).1 ≡ false
unfolding pok_sched_init pok_init_slots init_slots_by fill_slots total_slots
no_error = refl

init_example :
    ((turns conf 2 (pok_sched_init conf kernel).0).sched_current_slot ≡ 0)
    × ((turns conf 2 (pok_sched_init conf kernel).0).sched_next_deadline
        ≡ u64 (
            (pok_sched_init conf kernel).0.sched_next_deadline
            + (pok_sched_init conf kernel).0.sched_major_frame))
init_example = pok_sched_init_lem conf kernel (omega arith) no_error

in_slot : InSlot conf kernel
in_slot = record { sliced = refl; slot_low = omega arith; partition_of = refl }

elect_partition_example :
    (r : Kernel × ℕ) × (pok_elect_partition 20 conf at_120 kernel ≡ some r)
    × InSlot conf (record r.0 { current_partition = r.1 })
    × (r.0.sched_current_slot ≡ 1)
elect_partition_example = pok_elect_partition_lem 20 conf at_120 kernel in_slot

-- The processors 1 and 3 of the machine.
abbrev mask : ℕ → ℕ
mask p = 10

enough : 1 < below 10 64
unfolding below
enough = omega arith

round_trip_example :
    (p : ℕ) × (get_proc_real_id mask 0 1 ≡ some p)
    × (p < 64)
    × (get_proc_partition_id mask 0 p ≡ some 1)
round_trip_example = get_proc_partition_id-get_proc_real_id mask 0 1 enough
