-- ===== src/Lockobj/Event.antt =====
-- The events of kernel/core/lockobj.c. A wait is cut at its schedulings, as a lock is; `n` is
-- POK_CONFIG_NB_THREADS. A signal or a broadcast that is asked for while `eventspin` is held would not
-- go on, and is not modelled.
pub mod Wake
use pok_lab.Common.{
  ℕ, zero, suc, ◌+◌, Bool, true, false, not, ◌&&◌, Option, none, some, ◌>>=◌, leb, ltb, ◌==◌,
  if◌then◌else◌,
}
use pok_lab.Types.{Thread, Errno, ok, einval, unavailable, notfound, timeout, lockobj_notready}
use pok_lab.Kernel.{Config, Kernel, Now, current_id}
use pok_lab.Sched.Switch.{
  pok_sched_thread, pok_sched_unlock_thread, pok_threads_schedule_one_proc,
  pok_threads_schedule_every_proc,
}
use pok_lab.Lockobj.{Fifo, priority, Lockobj, Step, returns, waits}
use pok_lab.Lockobj.Queue.{
  pok_lockobj_enqueue, pok_lockobj_dequeue, pok_lockobj_get_head, pok_lockobj_remove_thread,
}
use pok_lab.Lockobj.Create.{is_event}
use pok_lab.Lockobj.Lock.{deadline_of, lock_current, pok_lockobj_lock, pok_lockobj_unlock}

abbrev pub is_ok : Errno → Bool
is_ok ok = true
is_ok _ = false

-- The thread joins the queue of the event, and waits.
unfoldable pub join_event :
    ℕ → ℕ → Config → Now → ℕ → Kernel → Lockobj → Option (Kernel × Lockobj × Step)
join_event fuel n c w deadline k obj =
    pok_sched_thread fuel c w (lock_current w k deadline) >>= λ k'. some (
      k',
      record obj {
        eventspin = false;
        event_fifo = (pok_lockobj_enqueue n k.threads (current_id w k) priority obj.event_fifo).0;
      },
      waits deadline,
    )

-- What follows the unlock inside `pok_lockobj_eventwait`.
unfoldable pub after_unlock :
    ℕ → ℕ → Config → Now → ℕ → Kernel × Lockobj × Errno → Option (Kernel × Lockobj × Step)
after_unlock fuel n c w deadline (k, obj, ret) =
    if is_ok ret
    then join_event fuel n c w deadline k obj
    else some (k, record obj { eventspin = false }, returns unavailable)

-- `pok_lockobj_eventwait` up to the scheduling; `span` is the timeout, 0 for none.
unfoldable pub pok_lockobj_eventwait :
    ℕ → ℕ → Config → Now → ℕ → Kernel → Lockobj → ℕ → Option (Kernel × Lockobj × Step)
pok_lockobj_eventwait fuel n c w multiprocessing_system k obj span =
    if not obj.initialized
    then some (k, record obj { eventspin = false }, returns lockobj_notready)
    else if not (is_event obj.kind)
    then some (k, record obj { eventspin = false }, returns einval)
    else pok_lockobj_unlock fuel n c w multiprocessing_system k (record obj { eventspin = true })
      >>= λ r. after_unlock fuel n c w (deadline_of w.tick span) r

-- The status of a wait for the event, once the thread runs again: it takes the object's lock again,
-- by a call of `pok_lockobj_lock` that may wait.
unfoldable pub event_resumed :
    ℕ → ℕ → Config → Now → Kernel → Lockobj → ℕ → Option (Errno × Kernel × Lockobj × Step)
event_resumed fuel n c w k obj deadline =
    let late = not (deadline == 0) && leb deadline w.tick in
    let left =
      if late
      then record obj {
        eventspin = false;
        event_fifo = (pok_lockobj_remove_thread n (current_id w k) obj.event_fifo).0;
      }
      else obj in
    pok_lockobj_lock fuel n c w k left 0 >>= λ r. some (if late then timeout else ok, r.0, r.1, r.2)

-- What `pok_lockobj_eventwait` returns, from the statuses of the wait and of the lock.
unfoldable pub event_status : Errno → Errno → Errno
event_status ret_wait ret_lock = if is_ok ret_lock then ret_wait else ret_lock

unfoldable pub pok_lockobj_eventsignal :
    ℕ → ℕ → Config → Now → ℕ → Kernel → Lockobj → Option (Kernel × Lockobj × Errno)
pok_lockobj_eventsignal fuel n c w multiprocessing_system k obj =
    if obj.event_fifo.is_empty
    then some (k, record obj { eventspin = false }, notfound)
    else (let tmp = pok_lockobj_get_head obj.event_fifo in
        let k1 = pok_sched_unlock_thread k tmp in
        pok_threads_schedule_one_proc fuel c w multiprocessing_system
          (k1.threads tmp).processor_affinity k1
        >>= λ k'. some (
          k',
          record obj { eventspin = false; event_fifo = (pok_lockobj_dequeue n obj.event_fifo).0 },
          ok,
        ))

-- `while (!pok_lockobj_fifo_is_empty(&obj->event_fifo))`, one turn for each thread that waits; the
-- last part is `resched`.
unfoldable pub wake_all : ℕ → ℕ → Kernel → Fifo → Bool → Option (Kernel × Fifo × Bool)
wake_all n zero k f resched = if f.is_empty then some (k, f, resched) else none
wake_all n (suc turns) k f resched =
    let rest =
      wake_all n turns (pok_sched_unlock_thread k (pok_lockobj_get_head f))
        (pok_lockobj_dequeue n f).0 true in
    if f.is_empty then some (k, f, resched) else rest

unfoldable pub after_wake :
    ℕ → Config → Now → Lockobj → Kernel × Fifo × Bool → Option (Kernel × Lockobj × Errno)
after_wake fuel c w obj (k, f, true) = do
  k' ← pok_threads_schedule_every_proc fuel c w k
  some (k', record obj { eventspin = false; event_fifo = f }, ok)
after_wake fuel c w obj (k, f, false) =
    some (k, record obj { eventspin = false; event_fifo = f }, ok)

unfoldable pub pok_lockobj_eventbroadcast :
    ℕ → ℕ → Config → Now → Kernel → Lockobj → Option (Kernel × Lockobj × Errno)
pok_lockobj_eventbroadcast fuel n c w k obj =
    wake_all n n k obj.event_fifo false >>= λ r. after_wake fuel c w obj r
