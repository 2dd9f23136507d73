-- ===== src/Sched/Switch.antt =====
-- `pok_elect_thread`, `pok_sched_thread`, `pok_sched_context_switch` and the functions round them of
-- kernel/core/sched.c, on the kernel's state. Builds without POK_NEEDS_DDL_PUNISH; the machine's own
-- `pok_context_switch` and the message that ends an interrupt between processors change none of it. The
-- assertion that an activated thread has a capacity is left out, as in a build without assertions.
pub mod Known
use pok_lab.Common.{
  ℕ, zero, suc, ◌+◌, ◌-◌, Bool, true, false, not, ◌&&◌, ◌||◌, Option, none, some, ◌>>=◌, ltb, leb,
  ◌==◌, if◌then◌else◌, ℤ, pos, is_positive, ◌-ℤ◌, to_u64, to_int64, u8, u32, u64, update,
}
use pok_lab.Types.{
  Thread, Threads, Partition, Partitions, Mode, init_cold, init_warm, normal, is_init, State,
  runnable, waiting, lock, stopped, wait_next_activation, is_runnable, is_wait_next_activation,
  Errno, ok, thread,
}
use pok_lab.Kernel.{
  Config, Kernel, Now, current_id, current_part, idle_of, set_thread, set_partition,
}
use pok_lab.Sched.Global.{wake}
use pok_lab.Sched.Dispatch.{sched_call}

-- `if (WAIT_NEXT_ACTIVATION && next_activation <= now)`: the absolute deadline of the period that
-- begins is set here.
abbrev pub begin_period : ℕ → Thread → Thread
begin_period now t =
    if is_wait_next_activation t.state && leb t.next_activation now
    then record t {
      ddl = u64 (t.next_activation + t.deadline);
      state = runnable;
      remaining_time_capacity = t.time_capacity;
      next_activation = u64 (t.next_activation + to_u64 t.period);
    }
    else t

-- The body of the loop that unlocks the threads whose time has come.
unfoldable pub refresh : Config → Now → Thread → Thread
refresh c w t =
    if t.processor_affinity == w.proc then begin_period w.tick (wake c.needs_locks w.tick t) else t

-- `for (i = 0; i < nthreads; i++)` over the threads from `low + i` on, `n` of them.
unfoldable pub refresh_from : Config → Now → ℕ → ℕ → ℕ → Threads → Threads
refresh_from c w low zero i ts = ts
refresh_from c w low (suc n) i ts =
    refresh_from c w low n (i + 1) (update ts (u32 (low + i)) (refresh c w (ts (u32 (low + i)))))

-- The current thread pays a tick of its capacity, and waits for its next period if none is left.
unfoldable pub charge : Thread → Thread
charge t =
    if is_positive t.time_capacity
    then (let left = t.remaining_time_capacity -ℤ pos 1 in
        record t {
          remaining_time_capacity = left;
          state = if is_positive left then t.state else wait_next_activation;
        })
    else t

-- The current thread is the idle thread, or the main or the error thread of the current partition.
abbrev pub exempt : Config → Now → Kernel → Bool
exempt c w k =
    (current_id w k == idle_of c w)
    || (current_id w k == (current_part k).thread_main)
    || (current_id w k == (current_part k).thread_error)

unfoldable pub charge_current : Config → Now → Kernel → Kernel
charge_current c w k = if exempt c w k then k else set_thread k (current_id w k) charge

-- The error thread is the partition's current one, and runnable.
abbrev pub error_goes_on : Now → Kernel → ℕ → Bool
error_goes_on w k p =
    ((k.partitions p).current_thread w.proc == (k.partitions p).thread_error)
    && is_runnable (k.threads ((k.partitions p).current_thread w.proc)).state

-- In NORMAL mode: the error thread if it is current and runnable, or what the scheduler elects.
unfoldable pub elect_normal : ℕ → Config → Now → Kernel → ℕ → Option (Kernel × ℕ)
elect_normal fuel c w k p =
    let part = k.partitions p in
    if error_goes_on w k p then some (k, part.thread_error) else do
      let k' = charge_current c w k
      (ts, e) ←
          sched_call part.sched_func fuel (idle_of c w) w.proc k'.threads part.thread_index_low
            part.thread_index_high (part.prev_thread w.proc) (part.current_thread w.proc)
      some (record k' { threads = ts }, e)

-- The `switch` on the mode of the partition.
unfoldable pub elect_by_mode : ℕ → Config → Now → Kernel → ℕ → Mode → Option (Kernel × ℕ)
elect_by_mode fuel c w k p init_cold = some (
  k,
  if w.proc == (k.partitions p).thread_main_proc then (k.partitions p).thread_main else idle_of c w,
)
elect_by_mode fuel c w k p init_warm = some (
  k,
  if w.proc == (k.partitions p).thread_main_proc then (k.partitions p).thread_main else idle_of c w,
)
elect_by_mode fuel c w k p normal = elect_normal fuel c w k p
elect_by_mode fuel c w k p _ = some (k, idle_of c w)

-- `end_time` of the elected thread, if the current thread has a capacity.
unfoldable pub set_end_time : Now → Kernel → ℕ → Kernel
set_end_time w k e =
    if is_positive (k.threads (current_id w k)).time_capacity
    then set_thread k e
        (λ t. record t { end_time = u64 (w.tick + to_u64 t.remaining_time_capacity) })
    else k

unfoldable pub pok_elect_thread : ℕ → Config → Now → Kernel → ℕ → Option (Kernel × ℕ)
pok_elect_thread fuel c w k new_partition_id = do
  let part = k.partitions new_partition_id
  let k1 = record k { threads = refresh_from c w part.thread_index_low part.nthreads 0 k.threads }
  (k2, e) ← elect_by_mode fuel c w k1 new_partition_id part.mode
  some (set_end_time w k2 e, e)

-- The partition records the elected thread, and the one before it unless that is the idle thread.
unfoldable pub record_elected : Config → Now → ℕ → Partition → Partition
record_elected c w e p =
    if p.current_thread w.proc == e
    then p
    else if p.current_thread w.proc == idle_of c w
    then record p { current_thread = update p.current_thread w.proc e }
    else record p {
      prev_thread = update p.prev_thread w.proc (p.current_thread w.proc);
      current_thread = update p.current_thread w.proc e;
    }

-- The processor runs the elected thread from here on.
unfoldable pub pok_sched_context_switch : Now → Kernel → ℕ → Kernel
pok_sched_context_switch w k elected_id =
    if current_id w k == elected_id
    then k
    else record k { current_threads = update k.current_threads w.proc elected_id }

-- `uint8_t elected_thread = pok_elect_thread(...)` keeps the low byte of the identifier.
unfoldable pub pok_sched_thread : ℕ → Config → Now → Kernel → Option Kernel
pok_sched_thread fuel c w k = do
  (k', elected) ← pok_elect_thread fuel c w k k.current_partition
  let e = u8 elected
  some (pok_sched_context_switch w (set_partition k' k'.current_partition (record_elected c w e)) e)

-- `multiprocessing_system` is 0 on a single processor. Another processor is sent a message.
unfoldable pub pok_threads_schedule_one_proc : ℕ → Config → Now → ℕ → ℕ → Kernel → Option Kernel
pok_threads_schedule_one_proc fuel c w multiprocessing_system dest k =
    if multiprocessing_system == 0
    then (if dest == 0 then pok_sched_thread fuel c w k else none)
    else if dest == w.proc
    then pok_sched_thread fuel c w k
    else some k

unfoldable pub pok_threads_schedule_every_proc : ℕ → Config → Now → Kernel → Option Kernel
pok_threads_schedule_every_proc fuel c w k = pok_sched_thread fuel c w k

unfoldable pub pok_sched_unlock_thread : Kernel → ℕ → Kernel
pok_sched_unlock_thread k thread_id = set_thread k thread_id (λ t. record t { state = runnable })

unfoldable pub pok_sched_lock_current_thread : Now → Kernel → Kernel
pok_sched_lock_current_thread w k = set_thread k (current_id w k) (λ t. record t { state = lock })

unfoldable pub pok_sched_lock_current_thread_timed : Now → Kernel → ℕ → Kernel
pok_sched_lock_current_thread_timed w k time =
    set_thread k (current_id w k) (λ t. record t { state = waiting; wakeup_time = time })

unfoldable pub pok_sched_stop_thread : Kernel → ℕ → Kernel
pok_sched_stop_thread k tid = set_thread k tid (λ t. record t { state = stopped })

unfoldable pub pok_sched_lock_thread : Kernel → ℕ → Kernel
pok_sched_lock_thread k thread_id = set_thread k thread_id (λ t. record t { state = lock })

unfoldable pub pok_sched_stop_self : ℕ → Config → Now → Kernel → Option Kernel
pok_sched_stop_self fuel c w k =
    pok_sched_thread fuel c w (set_thread k (current_id w k) (λ t. record t { state = stopped }))

unfoldable pub pok_sched_end_period : ℕ → Config → Now → Kernel → Option (Kernel × Errno)
pok_sched_end_period fuel c w k = do
  k' ← pok_sched_thread fuel c w (
      set_thread k (current_id w k)
        (λ t. record t { state = wait_next_activation; remaining_time_capacity = pos 0 }))
  some (k', ok)

unfoldable pub pok_sched_activate_error_thread : Now → Kernel → Kernel
pok_sched_activate_error_thread w k =
    let e = (current_part k).thread_error in
    if e == 0
    then k
    else pok_sched_context_switch w
        (set_thread k e (λ t. record t {
          priority = 255;
          remaining_time_capacity = pos 1000;
          period = pos 100;
          next_activation = 0;
          state = runnable;
        }))
        e

-- `*thread_id` is the second part, left alone on an error.
unfoldable pub pok_sched_get_current : Config → Now → Kernel → ℕ → Errno × ℕ
pok_sched_get_current c w k thread_id =
    if (current_part k).thread_error == 0
    then (thread, thread_id)
    else if (current_id w k == c.nb_threads - 1) || (current_id w k == idle_of c w)
    then (thread, thread_id)
    else (ok, current_id w k)
