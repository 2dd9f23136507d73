-- ===== src/Lockobj.antt =====
-- kernel/core/lockobj.c and kernel/include/core/lockobj.h: the objects that threads lock and wait for,
-- and the queues of the threads that wait.
pub mod Queue
pub mod Create
pub mod Lock
pub mod Event
pub mod Call
use pok_lab.Common.{ℕ, Bool}
use pok_lab.Types.{Errno}

-- pok_lockobj_kind_t, with any other value of the enumeration's type as the last one.
pub data Kind : Type 0 where
  mutex semaphore event no_kind : Kind

-- pok_queueing_discipline_t
pub data Discipline : Type 0 where
  fifo priority no_discipline : Discipline

-- pok_locking_policy_t
pub data Policy : Type 0 where
  standard pip pcp no_policy : Policy

-- pok_lockobj_fifo_t; the buffer has POK_CONFIG_NB_THREADS places.
pub record Fifo : Type 0 where
  pub head : ℕ
  pub last : ℕ
  pub is_empty : Bool
  pub buffer : ℕ → ℕ

-- pok_lockobj_attr_t
pub record Attr : Type 0 where
  pub kind : Kind
  pub locking_policy : Policy
  pub queueing_policy : Discipline
  pub initial_value : ℕ
  pub max_value : ℕ

-- pok_lockobj_t. `spin` is taken and given back inside every call, and `eventspin` is whether that
-- lock is held.
pub record Lockobj : Type 0 where
  pub eventspin : Bool
  pub fifo : Fifo
  pub event_fifo : Fifo
  pub locking_policy : Policy
  pub queueing_policy : Discipline
  pub kind : Kind
  pub initialized : Bool
  pub current_value : ℕ
  pub max_value : ℕ

-- pok_partitions_lockobjs
abbrev pub Lockobjs : Type 0
Lockobjs = ℕ → Lockobj

-- pok_lockobj_operation_t
pub data Operation : Type 0 where
  lock unlock wait signal broadcast no_operation : Operation

-- How a call leaves its thread: it returned a status, or the thread waits, till a deadline that is 0
-- if it has none.
pub data Step : Type 0 where
  returns : Errno → Step
  waits : ℕ → Step
