-- ===== src/Thread/Services.antt =====
-- The services on threads of kernel/core/thread.c. POK_GETTICK() is that of the call; a service that
-- schedules gives `none` if the scheduling does not return.
pub mod Owner
use pok_lab.Common.{
  ℕ, ◌+◌, ◌*◌, Bool, true, false, ◌&&◌, ◌||◌, Option, none, some, ◌>>=◌, ltb, ◌==◌, if◌then◌else◌,
  is_minus_one, is_positive, to_u64, u64, u8,
}
use pok_lab.Types.{
  runnable, waiting, wait_next_activation, stopped, delayed_start, Thread, ThreadAttr, Mode, normal,
  Errno, ok, param, threadattr,
}
use pok_lab.Kernel.{Config, Kernel, Now, current_id, current_part, set_thread}
use pok_lab.Processors.{get_proc_partition_id}
use pok_lab.Thread.{Machine}
use pok_lab.Sched.Slots.{pok_global_sched}
use pok_lab.Sched.Switch.{
  pok_sched_thread, pok_sched_lock_current_thread_timed, pok_sched_stop_self,
}

unfoldable pub pok_thread_sleep : ℕ → Config → Now → Kernel → ℕ → Option (Kernel × Errno)
pok_thread_sleep fuel c w k us = do
  k' ←
      pok_sched_thread fuel c w (pok_sched_lock_current_thread_timed w k (u64 (us * 1000 + w.tick)))
  some (k', ok)

unfoldable pub pok_thread_sleep_until : ℕ → Config → Now → Kernel → ℕ → Option (Kernel × Errno)
pok_thread_sleep_until fuel c w k us = do
  k' ← pok_sched_thread fuel c w (pok_sched_lock_current_thread_timed w k (u64 (us * 1000)))
  some (k', ok)

unfoldable pub pok_thread_suspend : ℕ → Config → Now → Kernel → Option (Kernel × Errno)
pok_thread_suspend fuel c w k = do k' ← pok_sched_stop_self fuel c w k; some (k', ok)

unfoldable pub pok_thread_restart : Machine → ℕ → Kernel → Kernel × Errno
pok_thread_restart m tid k = (
  set_thread k tid (λ t. record t {
    remaining_time_capacity = t.time_capacity;
    state = wait_next_activation;
    wakeup_time = 0;
    sp = m.space_context_create t.partition t.entry t.processor_affinity t.init_stack_addr;
  }),
  ok,
)

-- `thread_index_low > id || thread_index_high < id`
unfoldable pub is_refused : Kernel → ℕ → Bool
is_refused k id =
    ltb id (current_part k).thread_index_low || ltb (current_part k).thread_index_high id

abbrev pub is_normal : Mode → Bool
is_normal normal = true
is_normal _ = false

-- A thread without a period starts, at once or after the delay.
abbrev pub start_aperiodic : ℕ → ℕ → Thread → Thread
start_aperiodic now ns t =
    if ns == 0
    then record t {
      state = runnable;
      end_time =
          if is_positive t.time_capacity then u64 (now + to_u64 t.time_capacity) else t.end_time;
    }
    else record t { state = waiting; wakeup_time = u64 (now + ns) }

abbrev pub start_periodic : ℕ → ℕ → Thread → Thread
start_periodic now ns t = record t {
  next_activation = u64 (ns + now);
  end_time = u64 (t.deadline + u64 (ns + now));
}

-- The delay is kept until the partition is in NORMAL mode.
abbrev pub start_later : ℕ → Thread → Thread
start_later ns t = record t { state = delayed_start; wakeup_time = ns }

unfoldable pub pok_thread_delayed_start :
    ℕ → Config → Now → Kernel → ℕ → ℕ → Option (Kernel × Errno)
pok_thread_delayed_start fuel c w k id us =
    let ns = u64 (1000 * us) in
    let k1 = set_thread k id (λ t. record t { priority = t.base_priority }) in
    let at_normal = is_normal (k1.partitions (k1.threads id).partition).mode in
    let now = pok_global_sched fuel c w (set_thread k1 id (start_aperiodic w.tick ns)) in
    let later = some (set_thread k1 id (start_later ns), ok) in
    if is_refused k id
    then some (k, threadattr)
    else if is_minus_one (k1.threads id).period
    then (if at_normal then (now >>= λ k'. some (k', ok)) else later)
    else if at_normal
    then some (set_thread k1 id (start_periodic w.tick ns), ok)
    else later

-- `none` where the processor of the thread is none of the current partition's.
unfoldable pub pok_thread_get_status :
    Machine → Kernel → ℕ → ThreadAttr → Option (Errno × ThreadAttr)
pok_thread_get_status m k id attr =
    let t = k.threads id in
    if is_refused k id
    then some (param, attr)
    else get_proc_partition_id m.processor_affinity k.current_partition t.processor_affinity
      >>= λ proc. some (
        ok,
        record attr {
          deadline = t.end_time;
          state = t.state;
          priority = t.priority;
          entry = t.entry;
          period = to_u64 t.period;
          time_capacity = to_u64 t.time_capacity;
          stack_size = m.user_stack_size;
          processor_affinity = proc;
        },
      )

unfoldable pub pok_thread_set_priority : ℕ → Config → Now → Kernel → ℕ → ℕ → Option (Kernel × Errno)
pok_thread_set_priority fuel c w k id priority =
    if is_refused k id
    then some (k, param)
    else pok_global_sched fuel c w (set_thread k id (λ t. record t { priority = u8 priority }))
      >>= λ k'. some (k', ok)

unfoldable pub pok_thread_resume : ℕ → Config → Now → Kernel → ℕ → Option (Kernel × Errno)
pok_thread_resume fuel c w k id =
    if is_refused k id
    then some (k, threadattr)
    else pok_global_sched fuel c w
        (set_thread k id (λ t. record t { wakeup_time = w.tick; state = runnable }))
      >>= λ k'. some (k', ok)

unfoldable pub pok_thread_suspend_target : Now → Kernel → ℕ → Kernel × Errno
pok_thread_suspend_target w k id =
    if is_refused k id || (id == current_id w k)
    then (k, threadattr)
    else (set_thread k id (λ t. record t { state = stopped }), ok)
