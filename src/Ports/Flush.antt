-- ===== src/Ports/Flush.antt =====
-- kernel/middleware/portflushall.c: the messages of the OUT ports are copied to the ports that they are
-- connected to. The buffer has POK_PORT_MAX_SIZE bytes, as a port has at most.
pub mod Steps
pub mod Delivery
use pok_lab.Common.{ℕ, zero, suc, ◌+◌, Bool, true, false, not, Option, some, ◌>>=◌, if◌then◌else◌}
use pok_lab.Types.{Mode, normal, idle}
use pok_lab.Kernel.{Now}
use pok_lab.Lockobj.Event.{is_ok}
use pok_lab.Ports.{pok_port_consumed_size, pok_port_get}
use pok_lab.Ports.Table.{State, set_port}
use pok_lab.Ports.Locks.{Context, broadcast_port}
use pok_lab.Ports.Send.{is_outgoing, is_incoming, written}

-- pok_ports_nb_ports_by_partition, pok_ports_by_partition, pok_ports_nb_destinations,
-- pok_ports_destinations and pok_global_ports_to_local_ports.
pub record Routes : Type 0 where
  pub nb_by_partition : ℕ → ℕ
  pub by_partition : ℕ → ℕ → ℕ
  pub nb_destinations : ℕ → ℕ
  pub destinations : ℕ → ℕ → ℕ
  pub to_local : ℕ → ℕ

-- One destination of a message of `len` bytes.
unfoldable pub deliver : Context → Now → ℕ → ℕ → State → Option State
deliver x w len local_dest s =
    if not (s.ports local_dest).is_ready
    then some s
    else if not (is_incoming (s.ports local_dest).direction)
    then some s
    else broadcast_port x w local_dest (written w s local_dest s.buffer_flush len)

-- `n` destinations of the port `local`, from the one with the number `j` on.
unfoldable pub deliver_from : Context → Routes → Now → ℕ → ℕ → ℕ → ℕ → State → Option State
deliver_from x r w len local zero j s = some s
deliver_from x r w len local (suc n) j s = do
  s' ← deliver x w len (r.to_local (r.destinations local j)) s
  deliver_from x r w len local n (j + 1) s'

-- The message of a port has been read to the buffer.
unfoldable pub flush_read : Context → Routes → Now → ℕ → ℕ → State → Option State
flush_read x r w len local s = do
  s1 ← deliver_from x r w len local (r.nb_destinations local) 0 s
  s2 ← broadcast_port x w local s1
  some (set_port s2 local (λ p. record p { must_be_flushed = false }))

-- The body of the loop over the ports of a partition.
unfoldable pub flush_port : Context → Routes → Now → ℕ → State → Option State
flush_port x r w local s =
    let p = s.ports local in
    let len = pok_port_consumed_size p in
    let got = pok_port_get s.bytes p s.buffer_flush len in
    if not (is_outgoing p.direction)
    then some s
    else if p.is_empty
    then some s
    else if not p.must_be_flushed
    then some s
    else if not (is_ok got.2)
    then some (record (set_port s local (λ _. got.0)) { buffer_flush = got.1 })
    else flush_read x r w len local
        (record (set_port s local (λ _. got.0)) { buffer_flush = got.1 })

unfoldable pub flush_from : Context → Routes → Now → ℕ → ℕ → ℕ → State → Option State
flush_from x r w pid zero i s = some s
flush_from x r w pid (suc n) i s = do
  s' ← flush_port x r w (r.by_partition pid i) s
  flush_from x r w pid n (i + 1) s'

unfoldable pub pok_port_flush_partition : Context → Routes → Now → ℕ → State → Option State
pok_port_flush_partition x r w pid s = flush_from x r w pid (r.nb_by_partition pid) 0 s

abbrev pub is_flushed : Mode → Bool
is_flushed normal = true
is_flushed idle = true
is_flushed _ = false

-- `n` partitions from `p` on.
unfoldable pub flush_partitions : Context → Routes → Now → ℕ → ℕ → State → Option State
flush_partitions x r w zero p s = some s
flush_partitions x r w (suc n) p s = do
  s' ←
      if is_flushed (s.kernel.partitions p).mode then pok_port_flush_partition x r w p s else some s
  flush_partitions x r w n (p + 1) s'

unfoldable pub pok_port_flushall : Context → Routes → Now → State → Option State
pok_port_flushall x r w s = flush_partitions x r w x.conf.nb_partitions 0 s
