-- ===== src/Partition.antt =====
-- kernel/core/partition.c: the set-up of the partitions and of their main threads, in builds with all
-- schedulers of threads and with lock objects. A failed assertion of a creation gives `none`.
pub mod Ranges
pub mod Init
pub mod Mode
use pok_lab.Common.{
  ℕ, zero, suc, ◌+◌, ◌-◌, Bool, Option, none, some, ◌>>=◌, ltb, if◌then◌else◌, update, u8, u32,
  u32_mod, u64_mod,
}
use pok_lab.SchedValues.{Sched}
use pok_lab.Types.{
  ThreadAttr, SchedFunc, ErrorStatus, Partition, normal_start, init_warm, Errno, ok, idle_thread,
}
use pok_lab.Kernel.{Config, Kernel, Now, set_partition, idle_of}
use pok_lab.Processors.{get_default_proc_real_id}
use pok_lab.Thread.{Machine}
use pok_lab.Thread.Create.{pok_partition_thread_create}

-- What a build and the loader say of the partitions: POK_CONFIG_PARTITIONS_SIZE, the address of each
-- partition and that address in its own space, POK_CONFIG_PARTITIONS_NTHREADS,
-- POK_CONFIG_PARTITIONS_NLOCKOBJECTS, POK_CONFIG_PARTITIONS_SCHEDULER, and the entry that
-- `pok_loader_load_partition` finds for a partition and an offset.
pub record Build : Type 0 where
  pub size : ℕ → ℕ
  pub base_addr : ℕ → ℕ
  pub base_vaddr : ℕ → ℕ
  pub nthreads : ℕ → ℕ
  pub nlockobjs : ℕ → ℕ
  pub scheduler : ℕ → Sched
  pub load : ℕ → ℕ → ℕ

-- The local variables that the code reads or keeps without having set them.
pub record Uninit : Type 0 where
  pub attr : ThreadAttr
  pub thread_id : ℕ

-- POK_ERROR_KIND_INVALID
abbrev pub error_kind_invalid : ℕ
error_kind_invalid = 9

-- INFINITE_TIME_VALUE, in a `uint64_t`
abbrev pub infinite_time_value : ℕ
infinite_time_value = u64_mod - 1

abbrev pub sched_func_of : Sched → SchedFunc
sched_func_of Sched.rms = SchedFunc.rms
sched_func_of Sched.static = SchedFunc.static
sched_func_of Sched.pps = SchedFunc.pps
sched_func_of Sched.pedf = SchedFunc.pedf
sched_func_of Sched.wrr = SchedFunc.wrr
sched_func_of Sched.pwrr = SchedFunc.pwrr
sched_func_of Sched.mlfq = SchedFunc.mlfq
sched_func_of _ = SchedFunc.rr

unfoldable pub pok_partition_setup_scheduler : Build → ℕ → Kernel → Kernel
pok_partition_setup_scheduler b pid k =
    set_partition k pid (λ p. record p { sched_func = sched_func_of (b.scheduler pid) })

abbrev pub main_attr : Uninit → ℕ → ThreadAttr
main_attr u entry = record (u.attr) {
  entry = entry;
  priority = 1;
  deadline = 0;
  period = infinite_time_value;
  time_capacity = infinite_time_value;
  processor_affinity = 0;
}

-- `main_thread` has no value yet when the creation fails.
unfoldable pub pok_partition_setup_main_thread : Machine → Now → Uninit → ℕ → Kernel → Option Kernel
pok_partition_setup_main_thread m w u pid k = do
  (k', _, main_thread) ←
      pok_partition_thread_create m w u.thread_id (main_attr u (k.partitions pid).thread_main_entry)
        pid k
  some (set_partition k' pid (λ p. record p { thread_main = main_thread }))

-- The message is left as it is.
abbrev pub no_error : ErrorStatus → ErrorStatus
no_error e = record e {
  failed_thread = 0;
  failed_addr = 0;
  error_kind = error_kind_invalid;
  msg_size = 0;
}

-- What `pok_partition_reinit` sets before the main thread is made.
abbrev pub renewed : Config → Build → Now → ℕ → Partition → Partition
renewed c b w pid p = record p {
  sched_func = sched_func_of (b.scheduler pid);
  thread_index = 0;
  current_thread = update p.current_thread w.proc p.thread_index_low;
  prev_thread = update p.prev_thread w.proc (idle_of c w);
  thread_error = 0;
  error_status = no_error p.error_status;
  thread_main_entry = b.load pid (u32 (p.base_addr + u32_mod - p.base_vaddr));
}

unfoldable pub pok_partition_reinit :
    Machine → Config → Build → Now → Uninit → ℕ → Kernel → Option Kernel
pok_partition_reinit m c b w u pid k =
    pok_partition_setup_main_thread m w u pid (set_partition k pid (renewed c b w pid))

-- `for (j = 0; j < n; j++) table[j] = f(j)`
abbrev pub fill : ℕ → (ℕ → ℕ) → (ℕ → ℕ) → ℕ → ℕ
fill n f table j = if ltb j n then f j else table j

-- The partition `i` before its main thread is made. Without debugging, the error that
-- `pok_partition_error` reports of a partition with no threads has no effect.
abbrev pub prepared : Config → Build → ℕ → ℕ → ℕ → ℕ → Partition → Partition
prepared c b proc i threads_index lockobj_index p = record p {
  base_addr = b.base_addr i;
  base_vaddr = b.base_vaddr i;
  size = b.size i;
  sched = b.scheduler i;
  sched_func = sched_func_of (b.scheduler i);
  thread_index_low = threads_index;
  nthreads = b.nthreads i;
  thread_index_high = u32 (threads_index + b.nthreads i);
  activation = 0;
  period = 0;
  thread_index = 0;
  thread_main = 0;
  thread_main_proc = proc;
  current_thread = fill c.nb_processors (idle_thread c.nb_threads) p.current_thread;
  prev_thread = fill c.nb_processors (idle_thread c.nb_threads) p.prev_thread;
  mode = init_warm;
  lockobj_index_low = lockobj_index;
  lockobj_index_high = u8 (lockobj_index + u8 (b.nlockobjs i));
  nlockobjs = u8 (b.nlockobjs i);
  thread_error = 0;
  error_status = no_error p.error_status;
  thread_main_entry = b.load i (u32 (b.base_addr i + u32_mod - b.base_vaddr i));
  lock_level = 0;
  start_condition = normal_start;
}

-- The body of the loop of `pok_partition_init`. Every processor runs the thread KERNEL_THREAD.
unfoldable pub init_partition :
    Machine → Config → Build → Now → Uninit → ℕ → ℕ → ℕ → Kernel → Option Kernel
init_partition m c b w u i threads_index lockobj_index k = do
  proc ← get_default_proc_real_id m.processor_affinity i
  pok_partition_setup_main_thread m w u i
      (record (set_partition k i (prepared c b proc i threads_index lockobj_index)) {
        current_threads = fill c.nb_processors (λ _. c.nb_threads - 1) k.current_threads;
      })

-- `n` partitions from `i` on.
unfoldable pub init_from :
    ℕ → Machine → Config → Build → Now → Uninit → ℕ → ℕ → ℕ → Kernel → Option Kernel
init_from zero m c b w u i threads_index lockobj_index k = some k
init_from (suc n) m c b w u i threads_index lockobj_index k = do
  k' ← init_partition m c b w u i threads_index lockobj_index k
  init_from n m c b w u (i + 1) (u32 (threads_index + b.nthreads i))
      (u8 (lockobj_index + u8 (b.nlockobjs i))) k'

unfoldable pub pok_partition_init :
    Machine → Config → Build → Now → Uninit → Kernel → Option (Kernel × Errno)
pok_partition_init m c b w u k = do k' ← init_from c.nb_partitions m c b w u 0 0 0 k; some (k', ok)
