-- ===== src/Ports/Virtual.antt =====
-- kernel/middleware/portvirtualid.c, portvirtualgetglobal.c, portvirtualnbdestinations.c,
-- portvirtualdestination.c and portvirtualutils.c. POK_PORT_KIND_VIRTUAL is the number of
-- POK_PORT_KIND_SAMPLING.
use pok_lab.Common.{ℕ, ◌⊎◌, Bool, not, ◌&&◌, ltb, if◌then◌else◌, List}
use pok_lab.Types.{Errno, ok, port}
use pok_lab.Ports.{Kind, sampling, Bytes, memcpy}
use pok_lab.Ports.Table.{State, same_kind, id_from}
use pok_lab.Ports.Locks.{Context}
use pok_lab.Ports.Send.{owns}
use pok_lab.Ports.Flush.{Routes}

abbrev pub virtual : Kind
virtual = sampling

unfoldable pub pok_port_virtual_id : Context → State → List ℕ → Errno ⊎ ℕ
pok_port_virtual_id x s name =
    id_from virtual x.deployment s.kernel.current_partition name x.deployment.nb_ports 0

-- The tests that the three services on a virtual port begin with.
abbrev pub is_foreign : Context → State → ℕ → Bool
is_foreign x s id =
    not (ltb id x.deployment.nb_ports && owns x s id && same_kind (x.deployment.kinds id) virtual)

-- `*global`, and what is returned. `local_to_global` is pok_local_ports_to_global_ports.
unfoldable pub pok_port_virtual_get_global : Context → (ℕ → ℕ) → State → ℕ → ℕ → ℕ × Errno
pok_port_virtual_get_global x local_to_global s local global =
    if is_foreign x s local then (global, port) else (local_to_global local, ok)

-- `*result`, and what is returned.
unfoldable pub pok_port_virtual_nb_destinations : Context → Routes → State → ℕ → ℕ → ℕ × Errno
pok_port_virtual_nb_destinations x r s id result =
    if is_foreign x s id then (result, port) else (r.nb_destinations id, ok)

-- The destination `n`, up to the number of destinations itself.
unfoldable pub pok_port_virtual_destination : Context → Routes → State → ℕ → ℕ → ℕ → ℕ × Errno
pok_port_virtual_destination x r s id n result =
    if is_foreign x s id
    then (result, port)
    else if ltb (r.nb_destinations id) n
    then (result, port)
    else (r.destinations id n, ok)

-- `*node`, with POK_ERRNO_OK. `nodes` is pok_ports_nodes.
unfoldable pub pok_port_virtual_node : (ℕ → ℕ) → ℕ → ℕ
pok_port_virtual_node nodes id = nodes id

-- The six bytes of `addr`, with POK_ERRNO_OK. `nodes_addr` is pok_nodes_addr.
unfoldable pub pok_node_mac_addr : (ℕ → Bytes) → ℕ → Bytes → Bytes
pok_node_mac_addr nodes_addr node_id addr = memcpy addr 0 (nodes_addr node_id) 0 6
