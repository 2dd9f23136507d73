-- ===== src/Tests/Partition.antt =====
-- Runs of the theorems on partitions and on their errors.
use pok_lab.Common.{ℕ, ◌+◌, ◌≤◌, ◌<◌, ◌≡◌, ◌≢◌, refl, ◌⊎◌, some, ◌>>=◌, arith}
use pok_lab.Types.{normal, init_warm, ok, mode, Errno}
use pok_lab.SchedValues.{Sched}
use pok_lab.Kernel.{Kernel, current_part}
use pok_lab.Processors.{real_from, get_proc_real_id}
use pok_lab.Sched.Slots.{pok_global_sched}
use pok_lab.Partition.{Build, Uninit, pok_partition_init}
use pok_lab.Partition.Ranges.{HasProc, IsInitial, IsMain}
use pok_lab.Partition.Init.{CanStart, pok_partition_init_lem}
use pok_lab.Partition.Mode.{pok_partition_set_mode_current}
use pok_lab.Partition.Mode.Change.{MayEnter, CanRestart, Enters}
use pok_lab.Partition.Mode.Request.{pok_partition_set_mode_current_lem}
use pok_lab.Error.{pok_error_thread_create}
use pok_lab.Error.Report.{pok_error_thread_create-refused}
use pok_lab.Tests.Data.{conf, kernel, at_120, part}
use pok_lab.Tests.Thread.{machine, attr}

-- Two partitions of two and three threads.
abbrev build : Build
build = record {
  size = λ i. 1024;
  base_addr = λ i. 4096;
  base_vaddr = λ i. 0;
  nthreads = λ i. i + 2;
  nlockobjs = λ i. 1;
  scheduler = λ i. Sched.rr;
  load = λ i offset. 100 + i;
}

abbrev unset : Uninit
unset = record { attr = attr; thread_id = 77 }

has_proc : (i : ℕ) → HasProc machine i 0
unfolding get_proc_real_id real_from
has_proc i = record { real = refl; exists = refl; own = refl }

can_start : CanStart machine build 2
can_start = record {
  procs = λ i l. (0, has_proc i);
  some_threads = λ i l. omega arith;
  few = omega arith;
  few_locks = omega arith;
}

partition_init_example :
    (k' : Kernel) × (pok_partition_init machine conf build at_120 unset kernel ≡ some (k', ok))
    × ((j : ℕ) → j < 2 → IsInitial build j (k'.partitions j) × IsMain build j k')
    × ((i j : ℕ)
        → i < j
        → j < 2
        → ((k'.partitions i).thread_index_high ≤ (k'.partitions j).thread_index_low)
          × ((k'.partitions i).lockobj_index_high ≤ (k'.partitions j).lockobj_index_low))
partition_init_example = pok_partition_init_lem machine conf build at_120 unset kernel can_start

-- The main thread of the first partition runs.
abbrev initialising : Kernel
initialising = record kernel {
  current_threads = λ p. 0;
  partitions = λ p. record part { mode = init_warm };
}

can_restart : CanRestart machine initialising 0
can_restart = record {
  has = has_proc 0;
  main_proc = refl;
  some_threads = omega arith;
  few = omega arith;
  whole = refl;
}

set_mode_example :
    ((e : Errno) × (pok_partition_set_mode_current 9 machine conf build at_120 unset normal
          initialising
        ≡ some (initialising, e))
      × (e ≢ ok)
      × ¬ MayEnter at_120 initialising normal)
    ⊎ ((k' : Kernel) × MayEnter at_120 initialising normal
        × Enters at_120 initialising normal k'
        × (pok_partition_set_mode_current 9 machine conf build at_120 unset normal initialising
            ≡ (pok_global_sched 9 conf at_120 k' >>= λ k''. some (k'', ok))))
set_mode_example =
    pok_partition_set_mode_current_lem 9 machine conf build at_120 unset initialising 0 normal
      can_restart

handler_example :
    (k' : Kernel) × (pok_error_thread_create machine at_120 unset 600 kernel ≡ some (k', mode))
    × ((current_part k').thread_error ≡ 77)
handler_example = pok_error_thread_create-refused machine at_120 unset 600 kernel refl refl
