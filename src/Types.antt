-- ===== src/Types.antt =====
-- The data of the kernel: `pok_thread_t` and `pok_thread_attr_t` of kernel/include/core/thread.h,
-- `pok_partition_t` of kernel/include/core/partition.h, the enumerations of sched.h, schedvalues.h
-- and errno.h, and the global tables of thread.c, partition.c and sched.c as one record.
-- A field of unsigned type is a natural number, wrapped where the code computes it; `int64_t` is ℤ.
-- Pointers and stack pointers are numbers. An array is a function of its index.
use pok_lab.Common.{ℕ, ◌-◌, Bool, ℤ}
use pok_lab.SchedValues.{Sched}

-- pok_state_t
pub data State : Type 0 where
  stopped runnable waiting lock wait_next_activation delayed_start : State

-- thread->state == s
abbrev pub is_runnable : State → Bool
is_runnable runnable = Bool.true
is_runnable _ = Bool.false

abbrev pub is_waiting : State → Bool
is_waiting waiting = Bool.true
is_waiting _ = Bool.false

abbrev pub is_wait_next_activation : State → Bool
is_wait_next_activation wait_next_activation = Bool.true
is_wait_next_activation _ = Bool.false

abbrev pub is_delayed_start : State → Bool
is_delayed_start delayed_start = Bool.true
is_delayed_start _ = Bool.false

-- pok_thread_t
pub record Thread : Type 0 where
  pub priority : ℕ
  pub period : ℤ
  pub deadline : ℕ
  pub time_capacity : ℤ
  pub remaining_time_capacity : ℤ
  pub next_activation : ℕ
  pub state : State
  pub end_time : ℕ
  pub wakeup_time : ℕ
  pub entry : ℕ
  pub partition : ℕ
  pub sp : ℕ
  pub init_stack_addr : ℕ
  pub base_priority : ℕ
  pub processor_affinity : ℕ
  pub ddl : ℕ
  pub weight : ℕ
  pub remaining_timeslice : ℕ
  pub mlfq_level : ℕ

-- pok_thread_attr_t
pub record ThreadAttr : Type 0 where
  pub priority : ℕ
  pub processor_affinity : ℕ
  pub entry : ℕ
  pub period : ℕ
  pub deadline : ℕ
  pub time_capacity : ℕ
  pub stack_size : ℕ
  pub state : State
  pub is_dynamic : Bool
  pub weight : ℕ

-- The table `pok_threads`.
abbrev pub Threads : Type 0
Threads = ℕ → Thread

-- pok_partition_mode_t
pub data Mode : Type 0 where
  init_cold init_warm normal idle restart stopped : Mode

-- mode == INIT_COLD or mode == INIT_WARM
abbrev pub is_init : Mode → Bool
is_init init_cold = Bool.true
is_init init_warm = Bool.true
is_init _ = Bool.false

-- The function that the pointer `sched_func` names.
pub data SchedFunc : Type 0 where
  rms static pps pedf wrr pwrr mlfq rr : SchedFunc

-- pok_start_condition_t
pub data StartCondition : Type 0 where
  normal_start partition_restart hm_module_restart hm_partition_restart : StartCondition

-- pok_error_status_t
pub record ErrorStatus : Type 0 where
  pub error_kind : ℕ
  pub failed_thread : ℕ
  pub failed_addr : ℕ
  pub msg : ℕ → ℕ
  pub msg_size : ℕ

-- pok_partition_t, less its name, which nothing reads, and the bounds of I/O.
pub record Partition : Type 0 where
  pub base_addr : ℕ
  pub base_vaddr : ℕ
  pub size : ℕ
  pub nthreads : ℕ
  pub period : ℕ
  pub sched : Sched
  pub sched_func : SchedFunc
  pub activation : ℕ
  pub prev_thread : ℕ → ℕ
  pub current_thread : ℕ → ℕ
  pub thread_index_low : ℕ
  pub thread_index_high : ℕ
  pub thread_index : ℕ
  pub lockobj_index_low : ℕ
  pub lockobj_index_high : ℕ
  pub nlockobjs : ℕ
  pub thread_error : ℕ
  pub error_status : ErrorStatus
  pub thread_main : ℕ
  pub thread_main_entry : ℕ
  pub thread_main_proc : ℕ
  pub mode : Mode
  pub priority : ℕ
  pub deadline : ℕ
  pub lock_level : ℕ
  pub start_condition : StartCondition

abbrev pub Partitions : Type 0
Partitions = ℕ → Partition

-- pok_ret_t
pub data Errno : Type 0 where
  ok einval unavailable param toomany eperm thread threadattr : Errno
  port notfound direction size empty kind full timeout mode exists discipline : Errno
  lockobj_unavailable lockobj_notready lockobj_kind lockobj_policy partition_mode : Errno

-- IDLE_THREAD, in `uint32_t` arithmetic that does not wrap for the thread counts of a configuration.
abbrev pub idle_thread : ℕ → ℕ → ℕ
idle_thread nb_threads proc = nb_threads - 2 - proc
