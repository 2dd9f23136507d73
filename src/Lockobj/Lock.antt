-- ===== src/Lockobj/Lock.antt =====
-- `pok_lockobj_lock` and `pok_lockobj_unlock` of kernel/core/lockobj.c. A call that makes its thread
-- wait is cut in two at the scheduling: what it does before, and what it does once the thread runs
-- again. A failed assertion gives `none`, and so does a scheduling that does not return. `n` is
-- POK_CONFIG_NB_THREADS.
pub mod Held
pub mod Lost
pub mod Reach
use pok_lab.Common.{
  ℕ, suc, ◌+◌, ◌-◌, Bool, true, false, not, ◌&&◌, Option, none, some, ◌>>=◌, ltb, leb, ◌==◌,
  if◌then◌else◌, u64,
}
use pok_lab.Types.{Threads, Errno, ok, timeout, lockobj_notready}
use pok_lab.Kernel.{Config, Kernel, Now, current_id}
use pok_lab.Sched.Switch.{
  pok_sched_thread, pok_sched_unlock_thread, pok_sched_lock_current_thread,
  pok_sched_lock_current_thread_timed, pok_threads_schedule_one_proc,
}
use pok_lab.Lockobj.{Lockobj, Step, returns, waits}
use pok_lab.Lockobj.Queue.{
  pok_lockobj_enqueue, pok_lockobj_dequeue, pok_lockobj_get_head, pok_lockobj_remove_thread,
}
use pok_lab.Lockobj.Create.{is_semaphore}

-- `timeout > 0 ? timeout + POK_GETTICK() : 0`; without attributes the timeout is 0.
abbrev pub deadline_of : ℕ → ℕ → ℕ
deadline_of now span = if ltb 0 span then u64 (span + now) else 0

-- The current thread waits, till the deadline if there is one.
abbrev pub lock_current : Now → Kernel → ℕ → Kernel
lock_current w k deadline =
    if ltb 0 deadline
    then pok_sched_lock_current_thread_timed w k deadline
    else pok_sched_lock_current_thread w k

-- What becomes of the object in a `pok_lockobj_lock` up to the scheduling: whether the thread waits.
unfoldable pub take : ℕ → Threads → ℕ → Lockobj → Option (Lockobj × Bool)
take n ts thread obj =
    if ltb 0 obj.current_value
    then (if obj.fifo.is_empty
        then some (record obj { current_value = obj.current_value - 1 }, false)
        else none)
    else some (
      record obj { fifo = (pok_lockobj_enqueue n ts thread obj.queueing_policy obj.fifo).0 },
      true,
    )

-- The scheduling of a thread that has to wait, or the return of one that has the object.
unfoldable pub after_take :
    ℕ → Config → Now → Kernel → ℕ → Lockobj × Bool → Option (Kernel × Lockobj × Step)
after_take fuel c w k deadline (taken, true) = do
  k' ← pok_sched_thread fuel c w (lock_current w k deadline)
  some (k', taken, waits deadline)
after_take fuel c w k deadline (taken, false) = some (k, taken, returns ok)

-- `span` is the timeout of the attributes, 0 without them.
unfoldable pub pok_lockobj_lock :
    ℕ → ℕ → Config → Now → Kernel → Lockobj → ℕ → Option (Kernel × Lockobj × Step)
pok_lockobj_lock fuel n c w k obj span =
    if not obj.initialized
    then some (k, obj, returns lockobj_notready)
    else take n k.threads (current_id w k) obj >>= λ r.
        after_take fuel c w k (deadline_of w.tick span) r

-- The rest of `pok_lockobj_lock`, once `thread` runs again at the time `now`.
unfoldable pub lock_resumed : ℕ → ℕ → ℕ → ℕ → Lockobj → Lockobj × Errno
lock_resumed n now thread deadline obj =
    if not (deadline == 0) && leb deadline now
    then (record obj { fifo = (pok_lockobj_remove_thread n thread obj.fifo).0 }, timeout)
    else (obj, ok)

-- Some resources are available before the unlock.
abbrev pub scenario_1 : Lockobj → Lockobj
scenario_1 obj = record obj {
  current_value =
      if is_semaphore obj.kind
      then (if ltb obj.current_value obj.max_value
          then obj.current_value + 1
          else obj.current_value)
      else 1;
}

-- The three scenarios of `pok_lockobj_unlock` on the object: the thread that gets it, if any.
unfoldable pub give : ℕ → Lockobj → Option (Lockobj × Option ℕ)
give n obj =
    if ltb 0 obj.current_value
    then (if obj.fifo.is_empty then some (scenario_1 obj, none) else none)
    else if obj.fifo.is_empty
    then some (record obj { current_value = 1 }, none)
    else some (
      record obj { fifo = (pok_lockobj_dequeue n obj.fifo).0 },
      some (pok_lockobj_get_head obj.fifo),
    )

-- The thread that gets the object runs again, and its processor is scheduled, unless the call comes
-- from `pok_lockobj_eventwait`.
unfoldable pub hand_over : ℕ → Config → Now → ℕ → Kernel → Lockobj → Option ℕ → Option Kernel
hand_over fuel c w multiprocessing_system k obj none = some k
hand_over fuel c w multiprocessing_system k obj (some to_unblock) =
    let k1 = pok_sched_unlock_thread k to_unblock in
    if obj.eventspin
    then some k1
    else pok_threads_schedule_one_proc fuel c w multiprocessing_system
        (k1.threads to_unblock).processor_affinity k1

unfoldable pub pok_lockobj_unlock :
    ℕ → ℕ → Config → Now → ℕ → Kernel → Lockobj → Option (Kernel × Lockobj × Errno)
pok_lockobj_unlock fuel n c w multiprocessing_system k obj =
    if not obj.initialized
    then some (k, obj, lockobj_notready)
    else give n obj >>= λ r.
        hand_over fuel c w multiprocessing_system k r.0 r.1 >>= λ k'. some (k', r.0, ok)
