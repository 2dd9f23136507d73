-- ===== src/Kernel.antt =====
-- The state of the kernel's scheduler: the global variables of kernel/core/sched.c, thread.c and
-- partition.c, and the constants of a configuration that a build generates.
use pok_lab.Common.{ℕ, Bool, update}
use pok_lab.Types.{Thread, Threads, Partition, Partitions, idle_thread}

-- The function that the pointer `sched_partiton_func` names.
pub data PartitionFunc : Type 0 where
  global_timeslice global_pps global_pedf : PartitionFunc

-- POK_CONFIG_NB_THREADS, POK_CONFIG_NB_PARTITIONS, POK_CONFIG_NB_PROCESSORS,
-- POK_CONFIG_SCHEDULING_NBSLOTS, POK_CONFIG_SCHEDULING_SLOTS, POK_CONFIG_SCHEDULING_SLOTS_ALLOCATION,
-- POK_CONFIG_SCHEDULING_MAJOR_FRAME, POK_CONFIG_BASE_SLOT_LENGTH and POK_CONFIG_GLOBAL_SCHEDULER;
-- `needs_locks` is whether the build has lock objects or ports, `needs_ports` whether it has ports.
pub record Config : Type 0 where
  pub nb_threads : ℕ
  pub nb_partitions : ℕ
  pub nb_processors : ℕ
  pub nb_slots : ℕ
  pub slots : ℕ → ℕ
  pub slots_allocation : ℕ → ℕ
  pub major_frame : ℕ
  pub base_slot_length : ℕ
  pub global_scheduler : PartitionFunc
  pub needs_locks : Bool
  pub needs_ports : Bool

pub record Kernel : Type 0 where
  pub threads : Threads
  pub partitions : Partitions
  pub current_threads : ℕ → ℕ
  pub current_partition : ℕ
  pub new_partition : Bool
  pub sched_slots : ℕ → ℕ
  pub sched_slots_allocation : ℕ → ℕ
  pub sched_major_frame : ℕ
  pub sched_next_deadline : ℕ
  pub sched_next_major_frame : ℕ
  pub sched_next_flush : ℕ
  pub sched_current_slot : ℕ
  pub sched_partition_func : PartitionFunc

-- What a call reads of the machine: pok_get_proc_id() and POK_GETTICK().
pub record Now : Type 0 where
  pub proc : ℕ
  pub tick : ℕ

-- POK_SCHED_CURRENT_THREAD
abbrev pub current_id : Now → Kernel → ℕ
current_id w k = k.current_threads w.proc

-- POK_CURRENT_PARTITION
abbrev pub current_part : Kernel → Partition
current_part k = k.partitions k.current_partition

-- IDLE_THREAD
abbrev pub idle_of : Config → Now → ℕ
idle_of c w = idle_thread c.nb_threads w.proc

-- pok_threads[t] = f(pok_threads[t])
abbrev pub set_thread : Kernel → ℕ → (Thread → Thread) → Kernel
set_thread k t f = record k { threads = update k.threads t (f (k.threads t)) }

-- pok_partitions[p] = f(pok_partitions[p])
abbrev pub set_partition : Kernel → ℕ → (Partition → Partition) → Kernel
set_partition k p f = record k { partitions = update k.partitions p (f (k.partitions p)) }
