-- ===== src/Partition/Mode.antt =====
-- kernel/core/partition.c: the modes of a partition, the services on the current one, and those of its
-- error handler on threads. A call that schedules returns when its thread runs again; the state
-- then is not the one of the scheduling, which is what the model gives.
pub mod Start
pub mod Change
pub mod Request
use pok_lab.Common.{
  ℕ, zero, suc, ◌+◌, Bool, true, false, not, ◌&&◌, ◌||◌, Option, none, some, ◌>>=◌, ltb, ◌==◌,
  if◌then◌else◌, is_minus_one, is_positive, to_u64, u32, u64, update,
}
use pok_lab.Types.{
  runnable, waiting, wait_next_activation, delayed_start, State, is_delayed_start, Thread, Threads,
  Partition, Mode, init_cold, init_warm, normal, idle, restart, stopped, is_init, StartCondition,
  Errno, ok, partition_mode, thread, threadattr,
}
use pok_lab.Kernel.{Config, Kernel, Now, current_id, current_part, set_partition, set_thread}
use pok_lab.Thread.{Machine}
use pok_lab.Thread.Services.{pok_thread_restart, is_refused}
use pok_lab.Sched.Switch.{pok_sched_stop_thread}
use pok_lab.Sched.Slots.{pok_global_sched}
use pok_lab.Partition.{Build, Uninit, pok_partition_reinit}

-- A thread with a delay, when its partition becomes NORMAL at the time `now`: the delay of a thread
-- without a period counts from now on.
abbrev pub released : ℕ → State → Thread → Thread
released now s t = record t {
  state = s;
  wakeup_time = u64 (t.wakeup_time + now);
  end_time =
      if is_positive t.time_capacity
      then u64 (u64 (t.wakeup_time + now) + to_u64 t.time_capacity)
      else t.end_time;
}

-- That of a periodic thread counts from the next major frame on.
abbrev pub postponed : ℕ → ℕ → Thread → Thread
postponed major_frame activation t =
    let first = u64 (t.wakeup_time + major_frame + activation) in
    record t {
      next_activation = first;
      end_time = u64 (first + to_u64 t.time_capacity);
      state = wait_next_activation;
    }

-- The body of the loop over the threads.
unfoldable pub start_thread : ℕ → ℕ → ℕ → Thread → Thread
start_thread now major_frame activation t =
    if not (is_delayed_start t.state)
    then t
    else if is_minus_one t.period
    then released now (if t.wakeup_time == 0 then runnable else waiting) t
    else if t.wakeup_time == 0
    then released now runnable t
    else postponed major_frame activation t

-- `n` threads from the one with the number `i` of the partition on.
unfoldable pub start_from : ℕ → ℕ → ℕ → (Thread → Thread) → Threads → Threads
start_from zero i low f ts = ts
start_from (suc n) i low f ts =
    start_from n (i + 1) low f (update ts (u32 (low + i)) (f (ts (u32 (low + i)))))

-- The threads are those of the current partition, as many as the partition `pid` has.
abbrev pub start_all : Now → ℕ → Kernel → Kernel
start_all w pid k = record k {
  threads =
      start_from (k.partitions pid).nthreads 0 (current_part k).thread_index_low
        (start_thread w.tick k.sched_major_frame (current_part k).activation) k.threads;
}

abbrev pub is_idle : Mode → Bool
is_idle idle = true
is_idle _ = false

abbrev pub is_cold : Mode → Bool
is_cold init_cold = true
is_cold _ = false

abbrev pub is_warm : Mode → Bool
is_warm init_warm = true
is_warm _ = false

-- The current thread is the error handler of the current partition.
abbrev pub in_handler : Now → Kernel → Bool
in_handler w k =
    not ((current_part k).thread_error == 0) && (current_id w k == (current_part k).thread_error)

abbrev pub with_mode : ℕ → Mode → Kernel → Kernel
with_mode pid m k = set_partition k pid (λ p. record p { mode = m })

-- The main thread, which asks for the mode NORMAL, stops.
unfoldable pub enter_normal : Now → ℕ → Kernel → Kernel × Errno
enter_normal w pid k =
    if is_idle (k.partitions pid).mode || not (current_id w k == (current_part k).thread_main)
    then (k, partition_mode)
    else let k' = start_all w pid (with_mode pid normal k) in
      (pok_sched_stop_thread k' (k'.partitions pid).thread_main, ok)

unfoldable pub enter_stopped : Now → ℕ → Kernel → Kernel × Errno
enter_stopped w pid k =
    if in_handler w k then (with_mode pid stopped k, ok) else (k, partition_mode)

unfoldable pub enter_init :
    Machine → Config → Build → Now → Uninit → ℕ → Mode → Kernel → Option (Kernel × Errno)
enter_init m c b w u pid mode k =
    if is_cold (k.partitions pid).mode && is_warm mode
    then some (k, partition_mode)
    else if in_handler w k
    then (do k' ← pok_partition_reinit m c b w u pid (with_mode pid mode k); some (k', ok))
    else some (k, partition_mode)

-- The `switch` on the mode, up to the scheduling that each case ends with.
unfoldable pub change_mode :
    Machine → Config → Build → Now → Uninit → ℕ → Mode → Kernel → Option (Kernel × Errno)
change_mode m c b w u pid normal k = some (enter_normal w pid k)
change_mode m c b w u pid stopped k = some (enter_stopped w pid k)
change_mode m c b w u pid init_warm k = enter_init m c b w u pid init_warm k
change_mode m c b w u pid init_cold k = enter_init m c b w u pid init_cold k
change_mode m c b w u pid _ k = some (k, partition_mode)

abbrev pub schedule_if_ok : ℕ → Config → Now → Errno → Kernel → Option (Kernel × Errno)
schedule_if_ok fuel c w ok k = do k' ← pok_global_sched fuel c w k; some (k', ok)
schedule_if_ok fuel c w e k = some (k, e)

unfoldable pub pok_partition_set_mode :
    ℕ → Machine → Config → Build → Now → Uninit → ℕ → Mode → Kernel → Option (Kernel × Errno)
pok_partition_set_mode fuel m c b w u pid mode k = do
  (k', e) ← change_mode m c b w u pid mode k
  schedule_if_ok fuel c w e k'

unfoldable pub pok_partition_set_mode_current :
    ℕ → Machine → Config → Build → Now → Uninit → Mode → Kernel → Option (Kernel × Errno)
pok_partition_set_mode_current fuel m c b w u mode k =
    if not (current_id w k == (current_part k).thread_main)
      && not (current_id w k == (current_part k).thread_error)
    then some (k, thread)
    else pok_partition_set_mode fuel m c b w u k.current_partition mode k

-- What the services that read the current partition store, with POK_ERRNO_OK.
unfoldable pub pok_current_partition_get_id : Kernel → ℕ
pok_current_partition_get_id k = k.current_partition

unfoldable pub pok_current_partition_get_period : Kernel → ℕ
pok_current_partition_get_period k = (current_part k).period

unfoldable pub pok_current_partition_get_duration : Kernel → ℕ
pok_current_partition_get_duration k = k.sched_slots k.current_partition

unfoldable pub pok_current_partition_get_operating_mode : Kernel → Mode
pok_current_partition_get_operating_mode k = (current_part k).mode

unfoldable pub pok_current_partition_get_lock_level : Kernel → ℕ
pok_current_partition_get_lock_level k = (current_part k).lock_level

unfoldable pub pok_current_partition_get_start_condition : Kernel → StartCondition
pok_current_partition_get_start_condition k = (current_part k).start_condition

-- A thread of the current partition by its number in the partition, for the error handler.
unfoldable pub pok_partition_stop_thread : ℕ → Config → Now → ℕ → Kernel → Option (Kernel × Errno)
pok_partition_stop_thread fuel c w tid k =
    let id = u32 (tid + (current_part k).thread_index_low) in
    if not (current_id w k == (current_part k).thread_error)
    then some (k, thread)
    else if is_refused k id
    then some (k, threadattr)
    else do k' ← pok_global_sched fuel c w (pok_sched_stop_thread k id); some (k', ok)

unfoldable pub pok_partition_restart_thread :
    ℕ → Machine → Config → Now → ℕ → Kernel → Option (Kernel × Errno)
pok_partition_restart_thread fuel m c w tid k =
    let id = u32 (tid + (current_part k).thread_index_low) in
    if not (current_id w k == (current_part k).thread_error)
    then some (k, thread)
    else if is_refused k id
    then some (k, threadattr)
    else do k' ← pok_global_sched fuel c w (pok_thread_restart m id k).0; some (k', ok)
