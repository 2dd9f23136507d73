-- ===== src/Ports.antt =====
-- kernel/middleware/portutils.c, in builds with queueing and sampling ports: the bytes of all ports are
-- one memory, `pok_queue.data`, and a port is a ring in it or a single message.
pub mod RoundTrip
pub mod Overrun
pub mod Table
pub mod Locks
pub mod Send
pub mod Receive
pub mod Sampling
pub mod Flush
pub mod Virtual
use pok_lab.Common.{
  ℕ, suc, ◌+◌, ◌-◌, ◌%◌, Bool, true, false, not, ◌&&◌, leb, ltb, ◌==◌, if◌then◌else◌, u32, u32_mod,
}
use pok_lab.Types.{Errno, ok, einval, size, empty}
use pok_lab.Kernel.{Now}
use pok_lab.Lockobj.{Discipline, Lockobj}

-- pok_port_kinds_t, with any other value of the field as the last one.
pub data Kind : Type 0 where
  queueing sampling no_kind : Kind

-- pok_port_directions_t, with any other value of the field as the last one.
pub data Direction : Type 0 where
  incoming outgoing no_direction : Direction

-- pok_port_t, without `identifier`, which no code sets or reads.
pub record Port : Type 0 where
  pub partition : ℕ
  pub index : ℕ
  pub is_full : Bool
  pub length : ℕ
  pub off_b : ℕ
  pub off_e : ℕ
  pub direction : Direction
  pub discipline : Discipline
  pub is_ready : Bool
  pub is_empty : Bool
  pub kind : Kind
  pub refresh : ℕ
  pub last_receive : ℕ
  pub lock : Lockobj
  pub must_be_flushed : Bool

-- Bytes, as a function of their address.
abbrev pub Bytes : Type 0
Bytes = ℕ → ℕ

-- `n` bytes of `from`, from `source` on, copied to `dest`.
unfoldable pub memcpy : Bytes → ℕ → Bytes → ℕ → ℕ → Bytes
memcpy mem dest from source n i =
    if leb dest i && ltb i (dest + n) then from (source + (i - dest)) else mem i

-- `off_b - off_e` is below 0 where `off_b < off_e`, and wraps in the 32 bits of the result.
unfoldable pub pok_port_available_size : Port → ℕ
pok_port_available_size p =
    if p.is_full
    then 0
    else if ltb p.off_b p.off_e
    then u32 (u32_mod + p.off_b - p.off_e)
    else u32 (p.length - p.off_e + p.off_b)

unfoldable pub pok_port_consumed_size : Port → ℕ
pok_port_consumed_size p =
    if p.is_empty
    then 0
    else if ltb p.off_b p.off_e
    then p.off_e - p.off_b
    else u32 (p.length - p.off_b + p.off_e)

-- The two `memcpy` of a read that passes the end of the ring, or the one of a read that does not.
unfoldable pub read_ring : ℕ → ℕ → ℕ → Bytes → Bytes → ℕ → Bytes
read_ring index length off_b mem out n =
    let first = length - off_b in
    if ltb length (u32 (off_b + n))
    then memcpy (memcpy out 0 mem (index + off_b) first) first mem index (n - first)
    else memcpy out 0 mem (index + off_b) n

-- The port after a read.
abbrev pub advanced_b : Port → ℕ → Port
advanced_b p n =
    let off_b = u32 (p.off_b + n) % p.length in
    if off_b == p.off_e
    then record p { off_b = off_b; is_empty = true; is_full = false }
    else record p { off_b = off_b }

unfoldable pub get_from : Kind → Bytes → Port → Bytes → ℕ → Port × Bytes × Errno
get_from queueing mem p out n =
    if p.is_empty
    then (p, out, einval)
    else if ltb p.length n
    then (p, out, size)
    else (advanced_b p n, read_ring p.index p.length p.off_b mem out n, ok)
get_from sampling mem p out n =
    if p.is_empty
    then (p, out, empty)
    else if ltb p.length n
    then (p, out, size)
    else (p, memcpy out 0 mem (p.index + p.off_b) n, ok)
get_from no_kind mem p out n = (p, out, einval)

unfoldable pub pok_port_get : Bytes → Port → Bytes → ℕ → Port × Bytes × Errno
pok_port_get mem p out n = get_from p.kind mem p out n

unfoldable pub write_ring : ℕ → ℕ → ℕ → Bytes → Bytes → ℕ → Bytes
write_ring index length off_e mem from n =
    let first = length - off_e in
    if ltb length (u32 (off_e + n))
    then memcpy (memcpy mem (index + off_e) from 0 first) index from first (n - first)
    else memcpy mem (index + off_e) from 0 n

-- The port after a write.
abbrev pub advanced_e : Port → ℕ → Port
advanced_e p n =
    let off_e = u32 (p.off_e + n) % p.length in
    record p {
      off_e = off_e;
      is_full = if off_e == p.off_b then true else p.is_full;
      is_empty = false;
    }

unfoldable pub write_to : Kind → Now → Bytes → Port → Bytes → ℕ → Bytes × Port × Errno
write_to queueing w mem p from n =
    if p.is_full
    then (mem, p, size)
    else if ltb p.length n
    then (mem, p, size)
    else (write_ring p.index p.length p.off_e mem from n, advanced_e p n, ok)
write_to sampling w mem p from n = if ltb p.length n then (mem, p, size) else (
  memcpy mem (p.index + p.off_e) from 0 n,
  record p { is_empty = false; last_receive = w.tick },
  ok,
)
write_to no_kind w mem p from n = (mem, p, einval)

unfoldable pub pok_port_write : Now → Bytes → Port → Bytes → ℕ → Bytes × Port × Errno
pok_port_write w mem p from n = write_to p.kind w mem p from n

abbrev pub is_queueing : Kind → Bool
is_queueing queueing = true
is_queueing _ = false

-- The length of a transfer from port `s` to port `d`.
abbrev pub transfer_length : Port → Port → ℕ
transfer_length d s =
    if is_queueing s.kind
    then (if ltb (pok_port_consumed_size s) (pok_port_available_size d)
        then pok_port_consumed_size s
        else pok_port_available_size d)
    else s.length

-- The two ports after the copy of `len` bytes: the destination, then the source.
unfoldable pub transferred : Port → Port → ℕ → Port × Port
transferred d s len =
    if is_queueing s.kind
    then (
      record d { off_e = u32 (d.off_e + len) % d.length; is_empty = false },
      record s {
        off_b = u32 (s.off_b + len) % s.length;
        is_empty = if u32 (s.off_b + len) % s.length == s.off_e then true else s.is_empty;
        is_full = false;
      },
    )
    else (record d { is_empty = false }, record s { is_empty = true; is_full = false })

-- The transfer between two different ports.
unfoldable pub pok_port_transfer : Bytes → Port → Port → Bytes × Port × Port × Errno
pok_port_transfer mem d s =
    let len = transfer_length d s in
    if s.is_empty
    then (mem, d, s, empty)
    else if not (is_queueing s.kind) && not (s.length == d.length)
    then (mem, d, s, size)
    else if is_queueing s.kind && (pok_port_consumed_size s == 0)
    then (mem, d, s, size)
    else if len == 0
    then (mem, d, s, size)
    else (
      memcpy mem (d.index + d.off_e) mem (s.index + s.off_b) len,
      (transferred d s len).0,
      (transferred d s len).1,
      ok,
    )

-- `owners` is POK_CONFIG_PARTITIONS_PORTS, read at `port` up to POK_CONFIG_NB_PORTS itself.
unfoldable pub pok_own_port : ℕ → (ℕ → ℕ) → ℕ → ℕ → Bool
pok_own_port nb_ports owners partition port =
    if ltb nb_ports port then false else owners port == partition
