-- ===== src/Ports/Table.antt =====
-- The table of ports: kernel/middleware/portinit.c, queueinit.c, portcreate.c, portqueueingid.c,
-- portsamplingid.c, portqueueingcreate.c and portsamplingcreate.c, without debugging. What the default
-- handlers of errors do is nothing.
pub mod Cells
pub mod Layout
use pok_lab.Common.{
  ℕ, zero, suc, ◌+◌, ◌-◌, ◌⊎◌, inl, inr, Bool, true, false, not, ◌&&◌, ◌||◌, List, [], ◌∷◌, ltb,
  ◌==◌, if◌then◌else◌, u32, u32_mod, update,
}
use pok_lab.Types.{Errno, ok, einval, port, notfound, exists, discipline}
use pok_lab.Kernel.{Kernel}
use pok_lab.Lockobj.{Discipline, event, standard, Attr}
use pok_lab.Lockobj.Create.{pok_lockobj_create}
use pok_lab.Ports.{
  Kind, queueing, sampling, no_kind, Direction, no_direction, Port, Bytes, pok_own_port,
}

-- The tables of the deployment: POK_CONFIG_NB_PORTS, POK_CONFIG_PARTITIONS_PORTS, pok_ports_names as
-- the characters of each name, and pok_ports_kind.
pub record Deployment : Type 0 where
  pub nb_ports : ℕ
  pub owners : ℕ → ℕ
  pub names : ℕ → List ℕ
  pub kinds : ℕ → Kind

-- The kernel, pok_ports, pok_queue, and pok_buffer_flush.
pub record State : Type 0 where
  pub kernel : Kernel
  pub ports : ℕ → Port
  pub bytes : Bytes
  pub queue_size : ℕ
  pub available_size : ℕ
  pub buffer_flush : Bytes

-- pok_ports[id] = f(pok_ports[id])
abbrev pub set_port : State → ℕ → (Port → Port) → State
set_port s id f = record s { ports = update s.ports id (f (s.ports id)) }

-- POK_PORT_MAX_SIZE
abbrev pub port_max_size : ℕ
port_max_size = 512

unfoldable pub pok_queue_init : State → State
pok_queue_init s = record s { queue_size = 1024; available_size = 1024 }

abbrev pub emptied : Port → Port
emptied p = record p {
  length = 0;
  off_b = 0;
  off_e = 0;
  is_empty = true;
  is_full = false;
  index = 0;
  is_ready = false;
  kind = no_kind;
  last_receive = 0;
  must_be_flushed = false;
}

-- `n` ports from `i` on.
unfoldable pub init_from : ℕ → ℕ → State → State
init_from zero i s = s
init_from (suc n) i s = init_from n (i + 1) (set_port s i emptied)

-- Ports of unknown partitions are reported to `pok_kernel_error`.
unfoldable pub pok_port_init : Deployment → State → State
pok_port_init d s = init_from d.nb_ports 0 s

-- `strcmp(a, b) == 0`
unfoldable pub same_name : List ℕ → List ℕ → Bool
same_name [] [] = true
same_name [] (y ∷ ys) = false
same_name (x ∷ xs) [] = false
same_name (x ∷ xs) (y ∷ ys) = (x == y) && same_name xs ys

abbrev pub same_kind : Kind → Kind → Bool
same_kind queueing queueing = true
same_kind sampling sampling = true
same_kind no_kind no_kind = true
same_kind _ _ = false

-- The search of `pok_port_queueing_id` and `pok_port_sampling_id` in `n` ports from `i` on: an error,
-- or the identifier.
unfoldable pub id_from : Kind → Deployment → ℕ → List ℕ → ℕ → ℕ → Errno ⊎ ℕ
id_from kind d partition name zero i = inl notfound
id_from kind d partition name (suc n) i =
    let rest = id_from kind d partition name n (i + 1) in
    if same_name name (d.names i) && same_kind (d.kinds i) kind
    then (if pok_own_port d.nb_ports d.owners partition i then inr i else inl port)
    else rest

unfoldable pub pok_port_queueing_id : Deployment → State → List ℕ → Errno ⊎ ℕ
pok_port_queueing_id d s name = id_from queueing d s.kernel.current_partition name d.nb_ports 0

unfoldable pub pok_port_sampling_id : Deployment → State → List ℕ → Errno ⊎ ℕ
pok_port_sampling_id d s name = id_from sampling d s.kernel.current_partition name d.nb_ports 0

abbrev pub is_known_direction : Direction → Bool
is_known_direction no_direction = false
is_known_direction _ = true

-- `is_empty` and `must_be_flushed` are those of `pok_port_init`.
abbrev pub opened : ℕ → ℕ → ℕ → Direction → Kind → Port → Port
opened index partition length way kind p = record p {
  index = index;
  off_b = 0;
  off_e = 0;
  length = length;
  is_full = false;
  partition = partition;
  direction = way;
  is_ready = true;
  kind = kind;
}

-- The port `gid` takes the bytes of the queue from the first one that is not taken.
abbrev pub open_port : State → ℕ → ℕ → Direction → Kind → State
open_port s gid length way kind =
    record (set_port s gid (
      opened (u32 (s.queue_size + u32_mod - s.available_size)) s.kernel.current_partition length way
        kind)) { available_size = u32 (s.available_size + u32_mod - length) }

-- What follows the search. The result has `*id` and what is returned.
unfoldable pub create_found :
    Deployment → State → ℕ → Direction → Kind → ℕ → Errno ⊎ ℕ → State × ℕ × Errno
create_found d s length way kind id (inl e) = (s, id, e)
create_found d s length way kind id (inr gid) =
    if not (pok_own_port d.nb_ports d.owners s.kernel.current_partition gid)
    then (s, id, port)
    else if (s.ports gid).is_ready
    then (s, gid, exists)
    else (open_port s gid length way kind, gid, ok)

unfoldable pub create_kind :
    Deployment → State → List ℕ → ℕ → Direction → Kind → ℕ → State × ℕ × Errno
create_kind d s name length way queueing id =
    create_found d s length way queueing id (pok_port_queueing_id d s name)
create_kind d s name length way sampling id =
    create_found d s length way sampling id (pok_port_sampling_id d s name)
create_kind d s name length way no_kind id = (s, id, einval)

unfoldable pub pok_port_create :
    Deployment → State → List ℕ → ℕ → Direction → Kind → ℕ → State × ℕ × Errno
pok_port_create d s name length way kind id =
    if ltb port_max_size length
    then (s, id, port)
    else if ltb s.available_size length
    then (s, id, port)
    else if not (is_known_direction way)
    then (s, id, port)
    else create_kind d s name length way kind id

-- The attributes that the code sets; the others are not set, and not read for an event.
abbrev pub lock_attr : Attr → Attr
lock_attr unset = record unset { kind = event; locking_policy = standard }

abbrev pub with_lock : Attr → State → ℕ → State × Errno
with_lock unset s id =
    let r = pok_lockobj_create (s.ports id).lock (lock_attr unset) in
    (set_port s id (λ p. record p { lock = r.0 }), r.1)

unfoldable pub queueing_created : Attr → Discipline → State × ℕ × Errno → State × ℕ × Errno
queueing_created unset how (s, id, ok) =
    let r = with_lock unset (set_port s id (λ p. record p { discipline = how })) id in
    (r.0, id, r.1)
queueing_created unset how (s, id, exists) = (s, id, ok)
queueing_created unset how (s, id, e) = (s, id, e)

abbrev pub is_fifo : Discipline → Bool
is_fifo Discipline.fifo = true
is_fifo _ = false

unfoldable pub pok_port_queueing_create :
    Deployment → Attr → State → List ℕ → ℕ → Direction → Discipline → ℕ → State × ℕ × Errno
pok_port_queueing_create d unset s name length way how id =
    if not (is_fifo how)
    then (s, id, discipline)
    else queueing_created unset how (pok_port_create d s name length way queueing id)

unfoldable pub sampling_created : Attr → ℕ → State × ℕ × Errno → State × ℕ × Errno
sampling_created unset refresh (s, id, ok) =
    let opened_port = set_port s id (λ p. record p { refresh = refresh; last_receive = 0 }) in
    let r = with_lock unset opened_port id in (r.0, id, r.1)
sampling_created unset refresh (s, id, e) = (s, id, e)

unfoldable pub pok_port_sampling_create :
    Deployment → Attr → State → List ℕ → ℕ → Direction → ℕ → ℕ → State × ℕ × Errno
pok_port_sampling_create d unset s name length way refresh id =
    sampling_created unset refresh (pok_port_create d s name length way sampling id)
