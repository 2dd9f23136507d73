-- ===== src/Thread/Create.antt =====
-- `pok_partition_thread_create` of kernel/core/thread.c, in builds with the RMS and the MLFQ
-- schedulers. The error that it raises for a full partition is not modelled.
pub mod Known
use pok_lab.Common.{
  ℕ, zero, suc, ◌+◌, ◌-◌, Bool, true, false, not, ◌&&◌, ◌||◌, Option, none, some, ltb, leb, ◌==◌,
  if◌then◌else◌, minus_one, to_int64, u32, u64, update,
}
use pok_lab.Types.{
  runnable, Thread, ThreadAttr, Threads, Partition, Mode, is_init, Errno, ok, toomany, mode,
}
use pok_lab.SchedValues.{Sched}
use pok_lab.Kernel.{Config, Kernel, Now, set_partition}
use pok_lab.Processors.{bit, get_proc_real_id}
use pok_lab.Thread.{Machine, pok_thread_insert_sort}
use pok_lab.Sched.Slots.{pok_sched_get_priority_min, pok_sched_get_priority_max}

abbrev pub with_priority : ThreadAttr → Thread → Thread
with_priority a t =
    if leb a.priority pok_sched_get_priority_max && leb pok_sched_get_priority_min a.priority
    then record t { priority = a.priority; base_priority = a.priority }
    else t

abbrev pub with_period : ℕ → ThreadAttr → Thread → Thread
with_period now a t =
    if ltb 0 a.period
    then record t { period = to_int64 a.period; next_activation = u64 (now + a.period) }
    else t

abbrev pub with_deadline : ℕ → ThreadAttr → Thread → Thread
with_deadline now a t =
    if ltb 0 a.deadline then record t { deadline = a.deadline; ddl = u64 (a.deadline + now) } else t

abbrev pub with_weight : ThreadAttr → Thread → Thread
with_weight a t =
    if ltb 0 a.weight then record t { weight = a.weight; remaining_timeslice = a.weight } else t

abbrev pub with_capacity : ThreadAttr → Thread → Thread
with_capacity a t =
    if ltb 0 a.time_capacity
    then record t {
      time_capacity = to_int64 a.time_capacity;
      remaining_time_capacity = to_int64 a.time_capacity;
    }
    else record t { remaining_time_capacity = minus_one; time_capacity = minus_one }

-- The thread in its slot of the table, before the table is sorted.
unfoldable pub created : Machine → ℕ → ℕ → ThreadAttr → ℕ → ℕ → Thread → Thread
created m now partition_id a proc stack_vaddr t =
    let u =
      with_capacity a
        (with_weight a (with_deadline now a (with_period now a (with_priority a t)))) in
    record u {
      mlfq_level = 7;
      remaining_timeslice = 1;
      processor_affinity = proc;
      state = runnable;
      wakeup_time = now;
      sp = m.space_context_create partition_id a.entry proc stack_vaddr;
      partition = partition_id;
      entry = a.entry;
      init_stack_addr = stack_vaddr;
    }

-- The assertions on the processor of the thread.
abbrev pub proc_allowed : Machine → Partition → ℕ → ThreadAttr → ℕ → Bool
proc_allowed m p partition_id a proc =
    (if m.multiprocessing_system == 0 then proc == 0 else ltb proc m.multiprocessing_system)
    && (bit (m.processor_affinity partition_id) proc == 1)
    && (if p.thread_main_entry == a.entry then proc == p.thread_main_proc else true)

abbrev pub is_rms : Sched → Bool
is_rms Sched.rms = true
is_rms _ = false

-- In a partition under RMS, the new thread takes its place by its period.
unfoldable pub sort_created : Partition → ℕ → Threads → Threads
sort_created p id ts =
    if is_rms p.sched && ltb p.thread_index_low id
    then pok_thread_insert_sort (u32 (p.thread_index_low + 1)) id ts
    else ts

abbrev pub count_thread : Partition → Partition
count_thread p = record p { thread_index = u32 (p.thread_index + 1) }

-- The creation once there is room, in slot `id` on processor `proc`.
unfoldable pub create_in : Machine → Now → ℕ → ThreadAttr → ℕ → ℕ → Kernel → Kernel
create_in m w partition_id a id proc k =
    let k1 = set_partition k partition_id count_thread in
    let stack_vaddr = m.stack_addr partition_id (k1.partitions partition_id).thread_index in
    record k1 {
      threads =
          sort_created (k1.partitions partition_id) id (
            update k1.threads id
              (created m w.tick partition_id a proc stack_vaddr (k1.threads id)));
    }

-- The processor's number is asked for on entry here; the code asks for it when it has filled most of
-- the thread's fields, and nothing in between depends on it. `*thread_id` is the last part.
unfoldable pub pok_partition_thread_create :
    Machine → Now → ℕ → ThreadAttr → ℕ → Kernel → Option (Kernel × Errno × ℕ)
pok_partition_thread_create m w thread_id a partition_id k =
    let p = k.partitions partition_id in
    let id = u32 (p.thread_index_low + p.thread_index) in
    if not (is_init p.mode) && not a.is_dynamic
    then some (k, mode, thread_id)
    else if leb p.thread_index_high id
    then some (k, toomany, thread_id)
    else if ltb id p.thread_index_low
    then none
    else elim (get_proc_real_id m.processor_affinity partition_id a.processor_affinity) [
      | none ↦ none
      | some proc ↦
          if proc_allowed m p partition_id a proc
          then some (create_in m w partition_id a id proc k, ok, id)
          else none
    ]
