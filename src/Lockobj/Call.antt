-- ===== src/Lockobj/Call.antt =====
-- `pok_lockobj_partition_wrapper` of kernel/core/lockobj.c: the calls of a partition on its objects.
pub mod Isolation
use pok_lab.Common.{
  ℕ, Bool, true, false, not, ◌||◌, Option, some, ◌>>=◌, ltb, if◌then◌else◌, update,
}
use pok_lab.Types.{Errno, einval}
use pok_lab.Kernel.{Config, Kernel, Now, current_part}
use pok_lab.Lockobj.{
  Kind, mutex, semaphore, event, no_kind, Lockobj, Lockobjs, Operation, lock, unlock, wait, signal,
  broadcast, no_operation, Step, returns,
}
use pok_lab.Lockobj.Lock.{pok_lockobj_lock, pok_lockobj_unlock}
use pok_lab.Lockobj.Event.{
  pok_lockobj_eventwait, pok_lockobj_eventsignal, pok_lockobj_eventbroadcast,
}

-- pok_lockobj_lockattr_t, less the field that no code reads.
pub record LockAttr : Type 0 where
  pub operation : Operation
  pub obj_kind : Kind
  pub timeout : ℕ

abbrev pub is_same_kind : Kind → Kind → Bool
is_same_kind mutex mutex = true
is_same_kind semaphore semaphore = true
is_same_kind event event = true
is_same_kind no_kind no_kind = true
is_same_kind _ _ = false

-- A call that returned.
abbrev pub done : Kernel × Lockobj × Errno → Option (Kernel × Lockobj × Step)
done (k, obj, ret) = some (k, obj, returns ret)

-- The `switch` on the operation.
unfoldable pub operate :
    ℕ → ℕ → Config → Now → ℕ → Kernel → Lockobj → ℕ → Operation → Option (Kernel × Lockobj × Step)
operate fuel n c w multi k obj span lock = pok_lockobj_lock fuel n c w k obj span
operate fuel n c w multi k obj span unlock =
    pok_lockobj_unlock fuel n c w multi k obj >>= λ r. done r
operate fuel n c w multi k obj span wait = pok_lockobj_eventwait fuel n c w multi k obj span
operate fuel n c w multi k obj span signal =
    pok_lockobj_eventsignal fuel n c w multi k obj >>= λ r. done r
operate fuel n c w multi k obj span broadcast =
    pok_lockobj_eventbroadcast fuel n c w k obj >>= λ r. done r
operate fuel n c w multi k obj span no_operation = some (k, obj, returns einval)

-- The identifier is none of the current partition's, or the object is of another kind.
unfoldable pub is_foreign : Kernel → Lockobjs → ℕ → LockAttr → Bool
is_foreign k os id attr =
    ltb id (current_part k).lockobj_index_low
    || not (ltb id (current_part k).lockobj_index_high)
    || not (is_same_kind (os id).kind attr.obj_kind)

unfoldable pub pok_lockobj_partition_wrapper :
    ℕ → ℕ → Config → Now → ℕ → Kernel → Lockobjs → ℕ → LockAttr → Option (Kernel × Lockobjs × Step)
pok_lockobj_partition_wrapper fuel n c w multi k os id attr =
    if is_foreign k os id attr
    then some (k, os, returns einval)
    else operate fuel n c w multi k (os id) attr.timeout attr.operation >>= λ r.
        some (r.0, update os id r.1, r.2)
