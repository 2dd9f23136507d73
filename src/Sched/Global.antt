-- ===== src/Sched/Global.antt =====
-- The election of partitions by the threads that they hold: `caculate_and_update_priority`,
-- `caculate_and_update_deadline`, `activate_waiting_threads`, `pok_sched_part_global_pps` and
-- `pok_sched_part_global_pedf` of kernel/core/sched.c.
pub mod Activate
pub mod Elect
use pok_lab.Common.{
  ℕ, zero, suc, ◌+◌, ◌-◌, Bool, ◌&&◌, Option, none, some, ◌>>=◌, ltb, leb, ◌==◌, if◌then◌else◌,
  to_u64, u8, u32, u64, u64_mod, update,
}
use pok_lab.Types.{
  Thread, Threads, Partition, Partitions, is_runnable, is_waiting, is_wait_next_activation,
  runnable,
}

-- `if (WAITING && wakeup_time <= now) state = RUNNABLE;`, in builds with locks or ports.
abbrev pub wake : Bool → ℕ → Thread → Thread
wake needs_locks now t =
    if needs_locks && is_waiting t.state && leb t.wakeup_time now
    then record t { state = runnable }
    else t

-- `if (WAIT_NEXT_ACTIVATION && next_activation <= now)`: a new period begins.
abbrev pub release : ℕ → Thread → Thread
release now t =
    if is_wait_next_activation t.state && leb t.next_activation now
    then record t {
      state = runnable;
      remaining_time_capacity = t.time_capacity;
      next_activation = u64 (t.next_activation + to_u64 t.period);
    }
    else t

-- The body of the inner loop of `activate_waiting_threads`.
unfoldable pub activate : Bool → ℕ → ℕ → Thread → Thread
activate needs_locks proc now t =
    if t.processor_affinity == proc then release now (wake needs_locks now t) else t

-- `for (i = 0; i < pok_partitions[i].nthreads; i++)`, with the counter that it leaves: the index of
-- the partition is the counter of the thread.
unfoldable pub activate_inner : Bool → ℕ → ℕ → Partitions → ℕ → ℕ → Threads → Option (ℕ × Threads)
activate_inner needs_locks proc now ps zero i ts = none
activate_inner needs_locks proc now ps (suc fuel) i ts =
    let t = u32 ((ps i).thread_index_low + i) in
    let rest =
      activate_inner needs_locks proc now ps fuel (u8 (i + 1))
        (update ts t (activate needs_locks proc now (ts t))) in
    if ltb i (ps i).nthreads then rest else some (i, ts)

-- `for (uint8_t i = 0; i < POK_CONFIG_NB_PARTITIONS; i++)`, whose counter the inner loop sets.
unfoldable pub activate_outer : Bool → ℕ → ℕ → Partitions → ℕ → ℕ → ℕ → ℕ → Threads → Option Threads
activate_outer needs_locks proc now ps nb inner_fuel zero i ts = none
activate_outer needs_locks proc now ps nb inner_fuel (suc fuel) i ts =
    let rest = activate_inner needs_locks proc now ps inner_fuel 0 ts >>= λ (k, us).
    activate_outer needs_locks proc now ps nb inner_fuel fuel (u8 (k + 1)) us in
    if ltb i nb then rest else some ts

unfoldable pub activate_waiting_threads :
    Bool → ℕ → ℕ → Partitions → ℕ → ℕ → Threads → Option Threads
activate_waiting_threads needs_locks proc now ps nb fuel ts =
    activate_outer needs_locks proc now ps nb fuel fuel 0 ts

-- The inner loop of `caculate_and_update_priority`, with `priority` a `uint8_t`.
unfoldable pub add_priorities : Threads → ℕ → ℕ → ℕ → ℕ → ℕ
add_priorities ts low zero j priority = priority
add_priorities ts low (suc n) j priority = add_priorities ts low n (j + 1) (
    if is_runnable (ts (u32 (low + j))).state
    then u8 (priority + (ts (u32 (low + j))).priority)
    else priority)

-- pok_partitions[i].priority = priority;
abbrev pub with_priority : Threads → Partition → Partition
with_priority ts p = record p { priority = add_priorities ts p.thread_index_low p.nthreads 0 0 }

-- The outer loop, over the `n` partitions from `i` on.
unfoldable pub caculate_and_update_priority : Threads → ℕ → ℕ → Partitions → Partitions
caculate_and_update_priority ts zero i ps = ps
caculate_and_update_priority ts (suc n) i ps = caculate_and_update_priority ts n (i + 1) (
    update ps i
      (record (ps i) { priority = add_priorities ts (ps i).thread_index_low (ps i).nthreads 0 0 }))

-- The inner loop of `caculate_and_update_deadline`.
unfoldable pub least_deadline : Threads → ℕ → ℕ → ℕ → ℕ → ℕ
least_deadline ts low zero j deadline = deadline
least_deadline ts low (suc n) j deadline = least_deadline ts low n (j + 1) (
    if is_runnable (ts (u32 (low + j))).state && ltb (ts (u32 (low + j))).ddl deadline
    then (ts (u32 (low + j))).ddl
    else deadline)

-- pok_partitions[i].deadline = deadline;
abbrev pub with_deadline : Threads → Partition → Partition
with_deadline ts p = record p {
  deadline = least_deadline ts p.thread_index_low p.nthreads 0 (u64_mod - 1);
}

unfoldable pub caculate_and_update_deadline : Threads → ℕ → ℕ → Partitions → Partitions
caculate_and_update_deadline ts zero i ps = ps
caculate_and_update_deadline ts (suc n) i ps = caculate_and_update_deadline ts n (i + 1) (
    update ps i (record (ps i) {
      deadline = least_deadline ts (ps i).thread_index_low (ps i).nthreads 0 (u64_mod - 1);
    }))

-- The election loop of `pok_sched_part_global_pps`: `max_priority` and `next_partition`.
unfoldable pub greatest_priority : Partitions → ℕ → ℕ → ℕ → ℕ → ℕ
greatest_priority ps zero i max_priority next_partition = next_partition
greatest_priority ps (suc n) i max_priority next_partition =
    let higher = ltb max_priority (ps i).priority in
    greatest_priority ps n (i + 1) (if higher then (ps i).priority else max_priority)
      (if higher then i else next_partition)

-- The election loop of `pok_sched_part_global_pedf`: `min_deadline` and `next_partition`.
unfoldable pub earliest_deadline : Partitions → ℕ → ℕ → ℕ → ℕ → ℕ
earliest_deadline ps zero i min_deadline next_partition = next_partition
earliest_deadline ps (suc n) i min_deadline next_partition =
    let earlier = ltb (ps i).deadline min_deadline in
    earliest_deadline ps n (i + 1) (if earlier then (ps i).deadline else min_deadline)
      (if earlier then i else next_partition)

-- What the two elections answer: the tables as they leave them, and the partition.
pub record Elected : Type 0 where
  pub threads : Threads
  pub partitions : Partitions
  pub partition : ℕ

unfoldable pub pok_sched_part_global_pps :
    ℕ → Bool → ℕ → ℕ → ℕ → Threads → Partitions → ℕ → Option Elected
pok_sched_part_global_pps fuel needs_locks proc now nb ts ps current_partition = do
  us ← activate_waiting_threads needs_locks proc now ps nb fuel ts
  let qs = caculate_and_update_priority us nb 0 ps
  some (record {
    threads = us;
    partitions = qs;
    partition = greatest_priority qs nb 0 0 current_partition;
  })

unfoldable pub pok_sched_part_global_pedf :
    ℕ → Bool → ℕ → ℕ → ℕ → Threads → Partitions → ℕ → Option Elected
pok_sched_part_global_pedf fuel needs_locks proc now nb ts ps current_partition = do
  us ← activate_waiting_threads needs_locks proc now ps nb fuel ts
  let qs = caculate_and_update_deadline us nb 0 ps
  some (record {
    threads = us;
    partitions = qs;
    partition = earliest_deadline qs nb 0 (u64_mod - 1) current_partition;
  })
