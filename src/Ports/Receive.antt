-- ===== src/Ports/Receive.antt =====
-- kernel/middleware/portqueueingreceive.c, cut where its thread waits, and portqueueingstatus.c.
pub mod Free
pub mod Outcome
use pok_lab.Common.{ℕ, not, Option, some, ◌>>=◌, ltb, ◌==◌, if◌then◌else◌}
use pok_lab.Types.{Errno, ok, einval, port, kind, direction, empty}
use pok_lab.Kernel.{Now}
use pok_lab.Lockobj.{Step, returns, waits}
use pok_lab.Lockobj.Lock.{deadline_of}
use pok_lab.Lockobj.Event.{is_ok, event_status}
use pok_lab.Ports.{Direction, Bytes, memcpy, is_queueing, pok_port_consumed_size, pok_port_get}
use pok_lab.Ports.Table.{State, set_port}
use pok_lab.Ports.Locks.{
  Context, at_lock, at_event_lock, Progress, done, paused, lock_port, locked_port, unlock_port,
  wait_port, resume_port,
}
use pok_lab.Ports.Send.{owns, is_incoming, leave, after_wait}

-- The state, the buffer `data`, `*len`, and how far the call is.
abbrev pub Received : Type 0
Received = State × Bytes × ℕ × Progress

unfoldable pub receive_guard : Context → State → ℕ → ℕ → Errno
receive_guard x s id maxlen =
    if maxlen == 0
    then einval
    else if ltb x.deployment.nb_ports id
    then einval
    else if not (owns x s id)
    then port
    else if not (s.ports id).is_ready
    then port
    else if not (is_queueing (s.ports id).kind)
    then kind
    else if not (is_incoming (s.ports id).direction)
    then direction
    else ok

-- The part of the buffer that is cleared.
abbrev pub cleared : State → ℕ → ℕ → Bytes → Bytes
cleared s id maxlen out =
    memcpy out 0 (λ i. 0) 0 (if ltb (s.ports id).length maxlen then (s.ports id).length else maxlen)

-- A part of the call that stores nothing.
abbrev pub with_nothing : Bytes → Option (State × Progress) → Option Received
with_nothing out o = o >>= λ r. some (r.0, out, 0, r.1)

-- The read, and the unlock.
unfoldable pub take_message : Context → Now → State → ℕ → ℕ → Bytes → Option Received
take_message x w s id maxlen out =
    let clen = pok_port_consumed_size (s.ports id) in
    let rlen = if ltb clen maxlen then clen else maxlen in
    let r = pok_port_get s.bytes (s.ports id) out rlen in
    unlock_port x w (set_port s id (λ _. r.0)) id >>= λ u.
    some (u.0, r.1, if is_ok r.2 then rlen else 0, done ok)

-- A reception from the loop on.
unfoldable pub receive_locked : Context → Now → State → ℕ → ℕ → Bytes → ℕ → Option Received
receive_locked x w s id maxlen out until =
    if not (s.ports id).is_empty
    then take_message x w s id maxlen out
    else if until == 0
    then with_nothing out (leave x w s id empty)
    else with_nothing out (wait_port x w s id until >>= λ r. after_wait x w id r)

abbrev pub receive_lock : Context → Now → ℕ → ℕ → Bytes → ℕ → State × Step → Option Received
receive_lock x w id maxlen out until (s, waits deadline) = some (s, out, 0, paused at_lock)
receive_lock x w id maxlen out until (s, returns e) =
    if is_ok e then receive_locked x w s id maxlen out until else some (s, out, 0, done e)

unfoldable pub pok_port_queueing_receive :
    Context → Now → State → ℕ → ℕ → ℕ → Bytes → Option Received
pok_port_queueing_receive x w s id timeout maxlen out =
    let guard = receive_guard x s id maxlen in
    if is_ok guard
    then (lock_port x w s id >>= λ r.
        receive_lock x w id maxlen (cleared s id maxlen out) (deadline_of w.tick timeout) r)
    else some (s, out, 0, done guard)

-- A reception whose thread waited for the lock.
unfoldable pub receive_resumed : Context → Now → State → ℕ → ℕ → Bytes → ℕ → Option Received
receive_resumed x w s id maxlen out until =
    receive_locked x w (locked_port x w s id) id maxlen out until

unfoldable pub receive_after_event :
    Context → Now → ℕ → ℕ → Bytes → ℕ → Errno → State × Step → Option Received
receive_after_event x w id maxlen out until ret_wait (s, waits deadline) =
    some (s, out, 0, paused (at_event_lock ret_wait))
receive_after_event x w id maxlen out until ret_wait (s, returns ret_lock) =
    let e = event_status ret_wait ret_lock in
    if is_ok e
    then receive_locked x w s id maxlen out until
    else with_nothing out (leave x w s id e)

-- A reception whose thread waited for the event up to `deadline`, or for the lock after it.
unfoldable pub receive_event_resumed :
    Context → Now → State → ℕ → ℕ → Bytes → ℕ → ℕ → Option Received
receive_event_resumed x w s id maxlen out until deadline = resume_port x w s id deadline >>= λ r.
    receive_after_event x w id maxlen out until r.1 (r.0, r.2)

unfoldable pub receive_event_lock_resumed :
    Context → Now → State → ℕ → ℕ → Bytes → ℕ → Errno → Option Received
receive_event_lock_resumed x w s id maxlen out until ret_wait =
    receive_after_event x w id maxlen out until ret_wait (locked_port x w s id, returns ok)

-- pok_port_queueing_status_t
pub record Status : Type 0 where
  pub length : ℕ
  pub direction : Direction
  pub waiting_processes : ℕ

unfoldable pub pok_port_queueing_status : Context → State → ℕ → Status → Status × Errno
pok_port_queueing_status x s id status =
    if ltb x.deployment.nb_ports id
    then (status, einval)
    else if not (owns x s id)
    then (status, port)
    else if not (s.ports id).is_ready
    then (status, einval)
    else if not (is_queueing (s.ports id).kind)
    then (status, einval)
    else if not ((s.ports id).partition == s.kernel.current_partition)
    then (status, einval)
    else (
      record {
        length = (s.ports id).length;
        direction = (s.ports id).direction;
        waiting_processes = 0;
      },
      ok,
    )
