-- ===== src/Tests/Thread.antt =====
-- Runs of the theorems on the table of threads.
use pok_lab.Common.{
  ℕ, ◌+◌, ◌≤◌, ◌<◌, ◌≡◌, ◌≢◌, refl, ◌⊎◌, inl, true, false, some, arith, if◌then◌else◌, ◌==◌, pos,
}
use pok_lab.Types.{ThreadAttr, Threads, stopped, runnable, ok, threadattr}
use pok_lab.Kernel.{Kernel}
use pok_lab.Processors.{real_from, get_proc_real_id}
use pok_lab.Thread.{Machine, is_sooner, pok_thread_insert_sort}
use pok_lab.Thread.Sorted.{IsByPeriod, pok_thread_insert_sort-IsByPeriod}
use pok_lab.Thread.Create.{is_rms, pok_partition_thread_create}
use pok_lab.Thread.Create.Known.{MayCreate, pok_partition_thread_create_lem}
use pok_lab.Thread.Services.{pok_thread_suspend_target}
use pok_lab.Thread.Services.Owner.{Accepted, pok_thread_suspend_target_lem}
use pok_lab.Tests.Data.{still, kernel, at_120, second_part}

abbrev pub machine : Machine
machine = record {
  context_create = λ id. 1000 + id;
  stack_addr = λ p i. 4096;
  space_context_create = λ p e c s. e;
  user_stack_size = 8192;
  arch_idle = 1;
  multiprocessing_system = 0;
  processor_affinity = λ p. 1;
}

abbrev pub attr : ThreadAttr
attr = record {
  priority = 9;
  processor_affinity = 0;
  entry = 500;
  period = 10;
  deadline = 8;
  time_capacity = 3;
  stack_size = 0;
  state = stopped;
  is_dynamic = false;
  weight = 2;
}

-- The second partition has created two of its three threads.
abbrev growing : Kernel
growing = record kernel { partitions = λ p. record second_part { thread_index = 2 } }

may_create : MayCreate machine growing attr 1 0
unfolding get_proc_real_id real_from
may_create = record {
  in_time = inl refl;
  room = omega arith;
  small = omega arith;
  real = refl;
  allowed = refl;
}

create_example :
    (k' : Kernel) × (q : ℕ) × (pok_partition_thread_create machine at_120 0 attr 1 growing
      ≡ some (k', ok, 4))
    × ((k'.partitions 1).thread_index ≡ 3)
    × (2 ≤ q)
    × (q ≤ 4)
    × ((k'.threads q).partition ≡ 1)
    × ((k'.threads q).state ≡ runnable)
    × ((k'.threads q).entry ≡ 500)
    × ((q ≡ 4) ⊎ (is_rms second_part.sched ≡ true))
    × ((i : ℕ) → (i < 2) ⊎ (4 < i) → k'.threads i ≡ growing.threads i)
    × ((j : ℕ) → j ≢ 1 → k'.partitions j ≡ growing.partitions j)
create_example =
    pok_partition_thread_create_lem machine at_120 0 attr 1 0 growing may_create
      (λ rms. omega arith)

-- Threads 1 to 3 in the order of their periods, and thread 4 with the period of thread 2.
abbrev by_period : Threads
by_period i = record still { period = pos (if i == 4 then 2 else i) }

ordered : IsByPeriod 1 3 by_period
unfolding is_sooner
ordered i low high = ground (arith, low, high)

sort_example : IsByPeriod 1 4 (pok_thread_insert_sort 1 4 by_period)
sort_example =
    pok_thread_insert_sort-IsByPeriod 1 4 by_period (omega arith) (omega arith) (omega arith)
      ordered

suspend_example :
    (Accepted at_120 kernel 0
      × (k' : Kernel) × (pok_thread_suspend_target at_120 kernel 0 ≡ (k', ok))
      × ((k'.threads 0).state ≡ stopped)
      × ((i : ℕ) → i ≢ 0 → k'.threads i ≡ kernel.threads i))
    ⊎ ((Accepted at_120 kernel 0 → ⊥)
        × (pok_thread_suspend_target at_120 kernel 0 ≡ (kernel, threadattr)))
suspend_example = pok_thread_suspend_target_lem at_120 kernel 0
