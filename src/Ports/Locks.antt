-- ===== src/Ports/Locks.antt =====
-- The calls of kernel/middleware on the lock of a port, and how a call on a port goes on after them.
use pok_lab.Common.{ℕ, Option, some, ◌>>=◌}
use pok_lab.Types.{Errno}
use pok_lab.Kernel.{Config, Kernel, Now, current_id}
use pok_lab.Lockobj.{Lockobj, Step}
use pok_lab.Lockobj.Lock.{pok_lockobj_lock, lock_resumed, pok_lockobj_unlock}
use pok_lab.Lockobj.Event.{pok_lockobj_eventwait, event_resumed, pok_lockobj_eventbroadcast}
use pok_lab.Ports.Table.{Deployment, State, set_port}

-- What a call does not change: the build, the processor of each affinity, and the fuel of the
-- schedulers.
pub record Context : Type 0 where
  pub fuel : ℕ
  pub conf : Config
  pub multiprocessing_system : ℕ
  pub deployment : Deployment

-- Where a call waits: for the lock of the port, for the event up to a deadline, or for the lock again,
-- with the status of the wait for the event.
pub data Pause : Type 0 where
  at_lock : Pause
  at_event : ℕ → Pause
  at_event_lock : Errno → Pause

pub data Progress : Type 0 where
  done : Errno → Progress
  paused : Pause → Progress

abbrev pub with_lock_of : State → ℕ → Kernel → Lockobj → State
with_lock_of s id k obj = record (set_port s id (λ p. record p { lock = obj })) { kernel = k }

-- pok_lockobj_lock(&pok_ports[id].lock, NULL)
unfoldable pub lock_port : Context → Now → State → ℕ → Option (State × Step)
lock_port x w s id = do
  (k, obj, step) ← pok_lockobj_lock x.fuel x.conf.nb_threads x.conf w s.kernel (s.ports id).lock 0
  some (with_lock_of s id k obj, step)

-- The lock of the port, for a thread that has waited for it without a deadline.
abbrev pub locked_port : Context → Now → State → ℕ → State
locked_port x w s id =
    with_lock_of s id s.kernel
      (lock_resumed x.conf.nb_threads w.tick (current_id w s.kernel) 0 (s.ports id).lock).0

-- pok_lockobj_unlock(&pok_ports[id].lock, NULL)
unfoldable pub unlock_port : Context → Now → State → ℕ → Option (State × Errno)
unlock_port x w s id = do
  (k, obj, ret) ←
      pok_lockobj_unlock x.fuel x.conf.nb_threads x.conf w x.multiprocessing_system s.kernel
        (s.ports id).lock
  some (with_lock_of s id k obj, ret)

-- pok_lockobj_eventwait(&pok_ports[id].lock, span)
unfoldable pub wait_port : Context → Now → State → ℕ → ℕ → Option (State × Step)
wait_port x w s id span = do
  (k, obj, step) ←
      pok_lockobj_eventwait x.fuel x.conf.nb_threads x.conf w x.multiprocessing_system s.kernel
        (s.ports id).lock span
  some (with_lock_of s id k obj, step)

-- The status of the wait, and how it goes on to the lock.
unfoldable pub resume_port : Context → Now → State → ℕ → ℕ → Option (State × Errno × Step)
resume_port x w s id deadline = do
  (ret_wait, k, obj, step) ←
      event_resumed x.fuel x.conf.nb_threads x.conf w s.kernel (s.ports id).lock deadline
  some (with_lock_of s id k obj, ret_wait, step)

-- pok_lockobj_eventbroadcast(&pok_ports[id].lock)
unfoldable pub broadcast_port : Context → Now → ℕ → State → Option State
broadcast_port x w id s = do
  (k, obj, ret) ←
      pok_lockobj_eventbroadcast x.fuel x.conf.nb_threads x.conf w s.kernel (s.ports id).lock
  some (with_lock_of s id k obj)
