-- ===== src/Lockobj/Create.antt =====
-- The creation of lock objects in kernel/core/lockobj.c.
use pok_lab.Common.{
  ℕ, zero, suc, ◌+◌, ◌-◌, Bool, true, false, not, ltb, ◌==◌, if◌then◌else◌, u32, update,
}
use pok_lab.Types.{
  Partitions, is_init, Errno, ok, mode, lockobj_unavailable, lockobj_kind, lockobj_policy,
}
use pok_lab.Kernel.{Config, Kernel, current_part}
use pok_lab.Lockobj.{
  Kind, semaphore, event, no_kind, priority, Policy, no_policy, Attr, Lockobj, Lockobjs,
}
use pok_lab.Lockobj.Queue.{pok_lockobj_fifo_init}

-- The objects that the partitions have, counted over the `n` partitions from `i` on.
unfoldable pub total_lockobjects : Partitions → ℕ → ℕ → ℕ → ℕ
total_lockobjects ps zero i total = total
total_lockobjects ps (suc n) i total =
    total_lockobjects ps n (i + 1) (u32 (total + (ps i).nlockobjs))

unfoldable pub reset_from : ℕ → ℕ → Lockobjs → Lockobjs
reset_from zero i os = os
reset_from (suc n) i os =
    reset_from n (i + 1) (update os i (record (os i) { current_value = 1; initialized = false }))

-- `nb_lockobjects` is POK_CONFIG_NB_LOCKOBJECTS; the second part is whether the code calls
-- `pok_kernel_error`.
unfoldable pub pok_lockobj_init : Config → ℕ → Partitions → Lockobjs → Lockobjs × Bool
pok_lockobj_init c nb_lockobjects ps os = (
  reset_from nb_lockobjects 0 os,
  not (total_lockobjects ps c.nb_partitions 0 0 == nb_lockobjects),
)

abbrev pub is_known_policy : Policy → Bool
is_known_policy no_policy = false
is_known_policy _ = true

abbrev pub is_known_kind : Kind → Bool
is_known_kind no_kind = false
is_known_kind _ = true

abbrev pub is_event : Kind → Bool
is_event event = true
is_event _ = false

abbrev pub is_semaphore : Kind → Bool
is_semaphore semaphore = true
is_semaphore _ = false

-- The object that a creation leaves.
abbrev pub created : Attr → Lockobj → Lockobj
created attr obj = record obj {
  fifo = pok_lockobj_fifo_init obj.fifo;
  event_fifo = pok_lockobj_fifo_init obj.event_fifo;
  queueing_policy = if is_event attr.kind then priority else attr.queueing_policy;
  locking_policy = attr.locking_policy;
  kind = attr.kind;
  initialized = true;
  current_value = if is_semaphore attr.kind then attr.initial_value else 1;
  max_value = if is_semaphore attr.kind then attr.max_value else obj.max_value;
}

unfoldable pub pok_lockobj_create : Lockobj → Attr → Lockobj × Errno
pok_lockobj_create obj attr =
    if not (is_known_policy attr.locking_policy)
    then (obj, lockobj_policy)
    else if not (is_known_kind attr.kind)
    then (obj, lockobj_kind)
    else (created attr obj, ok)

-- `while (mid < upper_bound)`, `n` turns: the first object that is not initialised, or the bound.
unfoldable pub find_free : ℕ → ℕ → Lockobjs → ℕ
find_free zero mid os = mid
find_free (suc n) mid os =
    let rest = find_free n (mid + 1) os in if (os mid).initialized then rest else mid

-- `*id` is the last part.
unfoldable pub pok_lockobj_partition_create : Kernel → ℕ → Attr → Lockobjs → Lockobjs × Errno × ℕ
pok_lockobj_partition_create k id attr os =
    let p = current_part k in
    let low = p.lockobj_index_low in
    let mid = find_free (p.lockobj_index_high - low) low os in
    if not (is_init p.mode)
    then (os, mode, id)
    else if ltb mid p.lockobj_index_high
    then (
      update os mid (pok_lockobj_create (os mid) attr).0,
      (pok_lockobj_create (os mid) attr).1,
      mid,
    )
    else (os, lockobj_unavailable, id)
