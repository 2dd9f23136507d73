-- ===== src/Thread.antt =====
-- kernel/core/thread.c: the table of threads, their creation and the services on them. A failed
-- assertion gives `none`; so does a scheduling that runs out of fuel. The stacks and the contexts of
-- the architecture are parameters.
pub mod Sorted
pub mod Create
pub mod Services
use pok_lab.Common.{
  ℕ, zero, suc, ◌+◌, ◌-◌, ◌*◌, ◌/◌, ◌%◌, ◌^◌, Bool, true, false, not, ◌&&◌, ◌||◌, Option, none,
  some, ◌>>=◌, ltb, leb, ◌==◌, if◌then◌else◌, ℤ, pos, negsuc, ltb_ℤ, minus_one, is_minus_one,
  is_positive, to_u64, to_int64, u8, u16, u32, u64, update,
}
use pok_lab.Types.{
  State, runnable, waiting, wait_next_activation, stopped, delayed_start, Thread, ThreadAttr,
  Threads, Partition, Mode, normal, is_init, SchedFunc, rms, Errno, ok, param, toomany, mode,
  threadattr, idle_thread,
}
use pok_lab.Kernel.{Config, Kernel, Now, current_id, current_part, set_thread}
use pok_lab.Processors.{bit, get_proc_real_id, get_proc_partition_id}
use pok_lab.Sched.Slots.{pok_sched_get_priority_min, pok_sched_get_priority_max, pok_global_sched}
use pok_lab.Sched.Switch.{
  pok_sched_thread, pok_sched_lock_current_thread_timed, pok_sched_stop_self,
}

-- What the architecture and the configuration of the processors give: `pok_context_create` of a
-- thread, `pok_thread_stack_addr` of a partition and an index, `pok_space_context_create` of a
-- partition, an entry, a processor and a stack, POK_USER_STACK_SIZE, the entry `pok_arch_idle`, the
-- number `multiprocessing_system` and the masks `partition_processor_affinity`.
pub record Machine : Type 0 where
  pub context_create : ℕ → ℕ
  pub stack_addr : ℕ → ℕ → ℕ
  pub space_context_create : ℕ → ℕ → ℕ → ℕ → ℕ
  pub user_stack_size : ℕ
  pub arch_idle : ℕ
  pub multiprocessing_system : ℕ
  pub processor_affinity : ℕ → ℕ

-- `pok_threads[j].period > val.period`
unfoldable pub is_sooner : Thread → Thread → Bool
is_sooner val t = ltb_ℤ val.period t.period

-- `while (j >= index_low && pok_threads[j].period > val.period)`, with `n` turns at most: `j` falls
-- at each turn, and the code calls it with `index_low` above 0.
unfoldable pub shift : ℕ → ℕ → Thread → ℕ → Threads → ℕ × Threads
shift zero index_low val j ts = (j, ts)
shift (suc n) index_low val j ts =
    let rest = shift n index_low val (j - 1) (update ts (j + 1) (ts j)) in
    if leb index_low j && is_sooner val (ts j) then rest else (j, ts)

-- The body of the sort, where `index_high` is above 0.
unfoldable pub insert_last : ℕ → ℕ → Threads → Threads
insert_last index_low index_high ts =
    let val = ts index_high in
    let (j, us) = shift index_high index_low val (index_high - 1) ts in update us (j + 1) val

-- Both parameters are a `uint16_t`. An `index_high` that is cut to 0 makes the code read in front of the
-- table, as does an `index_low` that is cut to 0 and a new thread of the smallest period; that is not modelled.
unfoldable pub pok_thread_insert_sort : ℕ → ℕ → Threads → Threads
pok_thread_insert_sort index_low index_high ts = insert_last (u16 index_low) (u16 index_high) ts

-- The body of the loop of `pok_idle_thread_init`: some fields of `pok_threads[i]`, the others of
-- `pok_threads[IDLE_THREAD - i]`.
abbrev pub clear_slice : Thread → Thread
clear_slice t = record t { weight = 0; remaining_timeslice = 0; mlfq_level = 0 }

abbrev pub make_idle : Machine → ℕ → ℕ → Thread → Thread
make_idle m i id t = record t {
  period = minus_one;
  deadline = 0;
  ddl = 0;
  time_capacity = minus_one;
  next_activation = 0;
  remaining_time_capacity = minus_one;
  wakeup_time = 0;
  entry = m.arch_idle;
  processor_affinity = u8 i;
  base_priority = pok_sched_get_priority_min;
  state = runnable;
  sp = m.context_create id;
}

-- The loop over the `n` processors from `i` on; `idle` is IDLE_THREAD.
unfoldable pub idle_from : Machine → ℕ → ℕ → ℕ → Threads → Threads
idle_from m idle_id zero i ts = ts
idle_from m idle_id (suc n) i ts =
    let us = update ts i (clear_slice (ts i)) in
    idle_from m idle_id n (i + 1)
      (update us (idle_id - i) (make_idle m i (idle_id - i) (us (idle_id - i))))

unfoldable pub pok_idle_thread_init : Machine → Config → Now → Threads → Threads
pok_idle_thread_init m c w ts = idle_from m (idle_thread c.nb_threads w.proc) c.nb_processors 0 ts

abbrev pub fresh : Thread → Thread
fresh t = record t {
  period = minus_one;
  deadline = 0;
  ddl = 0;
  weight = 0;
  remaining_timeslice = 0;
  mlfq_level = 0;
  time_capacity = minus_one;
  remaining_time_capacity = minus_one;
  next_activation = 0;
  wakeup_time = 0;
  state = stopped;
  processor_affinity = 0;
}

unfoldable pub fresh_from : ℕ → ℕ → Threads → Threads
fresh_from zero i ts = ts
fresh_from (suc n) i ts = fresh_from n (i + 1) (update ts i (fresh (ts i)))

-- The threads of the `n` partitions from `j` on, counted.
unfoldable pub total_threads : (ℕ → Partition) → ℕ → ℕ → ℕ → ℕ
total_threads ps zero j total = total
total_threads ps (suc n) j total = total_threads ps n (j + 1) (u32 (total + (ps j).nthreads))

-- The second part is whether the code calls `pok_kernel_error`.
unfoldable pub pok_thread_init : Machine → Config → Now → Kernel → Kernel × Bool
pok_thread_init m c w k = (
  record k { threads = pok_idle_thread_init m c w (fresh_from c.nb_threads 0 k.threads) },
  not (total_threads k.partitions c.nb_partitions 0 0 == c.nb_threads - 1 - c.nb_processors),
)
