-- ===== src/Ports/Sampling.antt =====
-- kernel/middleware/portsamplingwrite.c, portsamplingread.c and portsamplingstatus.c. A call that waits for
-- the lock of the port goes on with what follows the lock.
use pok_lab.Common.{
  ℕ, ◌+◌, ◌-◌, Bool, true, false, not, Option, none, some, ◌>>=◌, ltb, ◌==◌, if◌then◌else◌, u32,
  u32_mod, u64,
}
use pok_lab.Types.{Errno, ok, einval, port, direction, mode, empty}
use pok_lab.Kernel.{Now}
use pok_lab.Lockobj.{Step, returns, waits}
use pok_lab.Lockobj.Event.{is_ok}
use pok_lab.Ports.{Kind, sampling, Direction, Port, Bytes, pok_port_get}
use pok_lab.Ports.Table.{State, set_port}
use pok_lab.Ports.Locks.{
  Context, at_lock, Progress, done, paused, lock_port, locked_port, unlock_port,
}
use pok_lab.Ports.Send.{owns, is_outgoing, is_incoming, written, to_flush}

unfoldable pub write_guard : Context → State → ℕ → Bool → ℕ → Errno
write_guard x s id null len =
    if null
    then einval
    else if ltb x.deployment.nb_ports id
    then einval
    else if not (owns x s id)
    then port
    else if not (s.ports id).is_ready
    then einval
    else if ltb (s.ports id).length len
    then einval
    else if not (is_outgoing (s.ports id).direction)
    then direction
    else ok

-- What follows the lock; its status is not read.
unfoldable pub write_locked : Context → Now → State → ℕ → Bytes → ℕ → Option (State × Progress)
write_locked x w s id msg len = do
  (s', ret) ← unlock_port x w (written w s id msg len) id
  some (to_flush s' id, done ok)

abbrev pub write_lock : Context → Now → ℕ → Bytes → ℕ → State × Step → Option (State × Progress)
write_lock x w id msg len (s, waits deadline) = some (s, paused at_lock)
write_lock x w id msg len (s, returns e) = write_locked x w s id msg len

unfoldable pub pok_port_sampling_write :
    Context → Now → State → ℕ → Option Bytes → ℕ → Option (State × Progress)
pok_port_sampling_write x w s id none len = some (s, done (write_guard x s id true len))
pok_port_sampling_write x w s id (some msg) len =
    let guard = write_guard x s id false len in
    if is_ok guard
    then (lock_port x w s id >>= λ r. write_lock x w id msg len r)
    else some (s, done guard)

unfoldable pub write_resumed : Context → Now → State → ℕ → Bytes → ℕ → Option (State × Progress)
write_resumed x w s id msg len = write_locked x w (locked_port x w s id) id msg len

abbrev pub is_sampling : Kind → Bool
is_sampling sampling = true
is_sampling _ = false

unfoldable pub read_guard : Context → State → ℕ → Bool → Errno
read_guard x s id null =
    if null
    then einval
    else if ltb x.deployment.nb_ports id
    then einval
    else if not (owns x s id)
    then port
    else if not (s.ports id).is_ready
    then port
    else if not (is_sampling (s.ports id).kind)
    then einval
    else if not (is_incoming (s.ports id).direction)
    then mode
    else ok

-- `last_receive + refresh < POK_GETTICK()`, negated.
abbrev pub is_valid : Now → Port → Bool
is_valid w p = not (ltb (u64 (p.last_receive + p.refresh)) w.tick)

abbrev pub is_empty_status : Errno → Bool
is_empty_status empty = true
is_empty_status _ = false

-- The state, the buffer `data`, what is stored to `*len` and `*valid` if anything is, and how far
-- the call is.
abbrev pub Sampled : Type 0
Sampled = State × Bytes × Option (ℕ × Bool) × Progress

-- What follows the test of the pointer. Other errors of the read than an empty port are not seen.
unfoldable pub read_message : Context → Now → State → ℕ → Bytes → Option Sampled
read_message x w s id out =
    let r = pok_port_get s.bytes (s.ports id) out (s.ports id).length in
    let left = set_port s id (λ _. r.0) in
    unlock_port x w left id >>= λ u. some (
      u.0,
      r.1,
      (if is_empty_status r.2
          then some (0, false)
          else some ((left.ports id).length, is_valid w (left.ports id))),
      done (if is_empty_status r.2 then empty else ok),
    )

-- What follows the lock. `check` is pok_check_ptr_in_partition, on the partition, the pointer and a
-- size, which is that of the port with the partition's number; `address` is that of `data`. The
-- return with an error keeps the lock.
unfoldable pub read_locked :
    Context → (ℕ → ℕ → ℕ → Bool) → Now → State → ℕ → ℕ → Bytes → Option Sampled
read_locked x check w s id address out =
    let pid = s.kernel.current_partition in
    let ptr = u32 (address + u32_mod - (s.kernel.partitions pid).base_addr) in
    if not (check pid ptr (s.ports pid).length)
    then some (s, out, none, done einval)
    else read_message x w s id out

abbrev pub read_lock :
    Context → (ℕ → ℕ → ℕ → Bool) → Now → ℕ → ℕ → Bytes → State × Step → Option Sampled
read_lock x check w id address out (s, waits deadline) = some (s, out, none, paused at_lock)
read_lock x check w id address out (s, returns e) = read_locked x check w s id address out

-- `address` is 0 for NULL.
unfoldable pub pok_port_sampling_read :
    Context → (ℕ → ℕ → ℕ → Bool) → Now → State → ℕ → ℕ → Bytes → Option Sampled
pok_port_sampling_read x check w s id address out =
    let guard = read_guard x s id (address == 0) in
    if is_ok guard
    then (lock_port x w s id >>= λ r. read_lock x check w id address out r)
    else some (s, out, none, done guard)

unfoldable pub read_resumed :
    Context → (ℕ → ℕ → ℕ → Bool) → Now → State → ℕ → ℕ → Bytes → Option Sampled
read_resumed x check w s id address out =
    read_locked x check w (locked_port x w s id) id address out

-- pok_port_sampling_status_t
pub record SamplingStatus : Type 0 where
  pub length : ℕ
  pub direction : Direction
  pub refresh : ℕ
  pub validity : Bool

unfoldable pub pok_port_sampling_status :
    Context → Now → State → ℕ → SamplingStatus → SamplingStatus × Errno
pok_port_sampling_status x w s id status =
    if ltb x.deployment.nb_ports id
    then (status, einval)
    else if not (owns x s id)
    then (status, port)
    else if not (s.ports id).is_ready
    then (status, einval)
    else if not (is_sampling (s.ports id).kind)
    then (status, einval)
    else if not ((s.ports id).partition == s.kernel.current_partition)
    then (status, einval)
    else (
      record {
        length = (s.ports id).length;
        direction = (s.ports id).direction;
        refresh = (s.ports id).refresh;
        validity = is_valid w (s.ports id);
      },
      ok,
    )
