-- ===== src/Ports/Send.antt =====
-- kernel/middleware/portqueueingsend.c. A call is cut where
-- its thread waits: each part is a function, from the state in which the thread runs again.
pub mod Free
pub mod Outcome
use pok_lab.Common.{ℕ, Bool, true, false, not, Option, none, some, ◌>>=◌, ltb, ◌==◌, if◌then◌else◌}
use pok_lab.Types.{Errno, ok, einval, eperm, port, size, kind, direction, full}
use pok_lab.Kernel.{Now}
use pok_lab.Lockobj.{Step, returns, waits}
use pok_lab.Lockobj.Lock.{deadline_of}
use pok_lab.Lockobj.Event.{is_ok, event_status}
use pok_lab.Ports.{
  Bytes, Direction, outgoing, incoming, is_queueing, pok_own_port, pok_port_available_size,
  pok_port_write,
}
use pok_lab.Ports.Table.{State, set_port}
use pok_lab.Ports.Locks.{
  Context, at_lock, at_event, at_event_lock, Progress, done, paused, lock_port, locked_port,
  unlock_port, wait_port, resume_port,
}

abbrev pub is_outgoing : Direction → Bool
is_outgoing outgoing = true
is_outgoing _ = false

abbrev pub is_incoming : Direction → Bool
is_incoming incoming = true
is_incoming _ = false

abbrev pub owns : Context → State → ℕ → Bool
owns x s id = pok_own_port x.deployment.nb_ports x.deployment.owners s.kernel.current_partition id

-- The tests of a sending; `null` is whether there are no data.
unfoldable pub send_guard : Context → State → ℕ → Bool → ℕ → Errno
send_guard x s id null len =
    if ltb x.deployment.nb_ports id
    then einval
    else if len == 0
    then size
    else if null
    then einval
    else if not (owns x s id)
    then port
    else if not (s.ports id).is_ready
    then port
    else if ltb (s.ports id).length len
    then size
    else if not (is_outgoing (s.ports id).direction)
    then direction
    else if not ((s.ports id).partition == s.kernel.current_partition)
    then eperm
    else if not (is_queueing (s.ports id).kind)
    then kind
    else ok

-- An unlock, whose status is not read, and the return of a status.
abbrev pub leave : Context → Now → State → ℕ → Errno → Option (State × Progress)
leave x w s id e = do (s', ret) ← unlock_port x w s id; some (s', done e)

-- How a wait for the event goes on. Before its scheduling it returns nothing but errors.
abbrev pub after_wait : Context → Now → ℕ → State × Step → Option (State × Progress)
after_wait x w id (s, returns e) = leave x w s id e
after_wait x w id (s, waits deadline) = some (s, paused (at_event deadline))

-- pok_port_write(id, msg, len), whose status is not read
abbrev pub written : Now → State → ℕ → Bytes → ℕ → State
written w s id msg len =
    let r = pok_port_write w s.bytes (s.ports id) msg len in
    record (set_port s id (λ _. r.1)) { bytes = r.0 }

abbrev pub to_flush : State → ℕ → State
to_flush s id = set_port s id (λ p. record p { must_be_flushed = true })

-- A sending from the loop on. `until` is `timeout`, to which the time has been added.
unfoldable pub send_locked : Context → Now → State → ℕ → Bytes → ℕ → ℕ → Option (State × Progress)
send_locked x w s id msg len until =
    if ltb (pok_port_available_size (s.ports id)) len
    then (if until == 0
        then leave x w s id full
        else wait_port x w s id until >>= λ r. after_wait x w id r)
    else do
      (s', ret) ← unlock_port x w (to_flush (written w s id msg len) id) id
      some (s', done ret)

-- `if (timeout != 0) timeout = timeout + POK_GETTICK()`, once the port is locked.
abbrev pub send_lock : Context → Now → ℕ → Bytes → ℕ → ℕ → State × Step → Option (State × Progress)
send_lock x w id msg len timeout (s, waits deadline) = some (s, paused at_lock)
send_lock x w id msg len timeout (s, returns e) =
    if is_ok e then send_locked x w s id msg len (deadline_of w.tick timeout) else some (s, done e)

unfoldable pub pok_port_queueing_send :
    Context → Now → State → ℕ → Option Bytes → ℕ → ℕ → Option (State × Progress)
pok_port_queueing_send x w s id none len timeout = some (s, done (send_guard x s id true len))
pok_port_queueing_send x w s id (some msg) len timeout =
    let guard = send_guard x s id false len in
    if is_ok guard
    then (lock_port x w s id >>= λ r. send_lock x w id msg len timeout r)
    else some (s, done guard)

-- A sending whose thread waited for the lock.
unfoldable pub send_resumed : Context → Now → State → ℕ → Bytes → ℕ → ℕ → Option (State × Progress)
send_resumed x w s id msg len timeout =
    send_locked x w (locked_port x w s id) id msg len (deadline_of w.tick timeout)

unfoldable pub send_after_event :
    Context → Now → ℕ → Bytes → ℕ → ℕ → Errno → State × Step → Option (State × Progress)
send_after_event x w id msg len until ret_wait (s, waits deadline) =
    some (s, paused (at_event_lock ret_wait))
send_after_event x w id msg len until ret_wait (s, returns ret_lock) =
    let e = event_status ret_wait ret_lock in
    if is_ok e then send_locked x w s id msg len until else leave x w s id e

-- A sending whose thread waited for the event up to `deadline`, or for the lock after it.
unfoldable pub send_event_resumed :
    Context → Now → State → ℕ → Bytes → ℕ → ℕ → ℕ → Option (State × Progress)
send_event_resumed x w s id msg len until deadline =
    resume_port x w s id deadline >>= λ r. send_after_event x w id msg len until r.1 (r.0, r.2)

unfoldable pub send_event_lock_resumed :
    Context → Now → State → ℕ → Bytes → ℕ → ℕ → Errno → Option (State × Progress)
send_event_lock_resumed x w s id msg len until ret_wait =
    send_after_event x w id msg len until ret_wait (locked_port x w s id, returns ok)
