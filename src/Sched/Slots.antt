-- ===== src/Sched/Slots.antt =====
-- The slots of the time frame and the election of a partition in kernel/core/sched.c: `pok_init_slots`,
-- `pok_setup_scheduler_global`, `pok_sched_init`, `pok_elect_partition`, `pok_global_sched`. Builds
-- with more than one partition, fewer than 256 slots, and the default policy for flushing ports.
pub mod Frame
use pok_lab.Common.{
  ℕ, zero, suc, ◌+◌, ◌*◌, ◌%◌, Bool, true, false, not, ◌&&◌, Option, none, some, ◌>>=◌, ltb, leb,
  ◌==◌, if◌then◌else◌, u8, u64, update,
}
use pok_lab.Types.{Threads, Partition, Partitions, Mode, is_init}
use pok_lab.Kernel.{PartitionFunc, global_timeslice, global_pps, global_pedf, Config, Kernel, Now}
use pok_lab.Sched.Global.{Elected, pok_sched_part_global_pps, pok_sched_part_global_pedf}
use pok_lab.Sched.Switch.{pok_sched_thread}

-- `for (i = 0; i < POK_CONFIG_SCHEDULING_NBSLOTS; i++)`, `n` slots from `i` on, of the configuration's.
unfoldable pub fill_slots : (ℕ → ℕ) → (ℕ → ℕ) → ℕ → ℕ → Kernel → Kernel
fill_slots length allocation zero i k = k
fill_slots length allocation (suc n) i k = fill_slots length allocation n (i + 1) (record k {
  sched_slots = update k.sched_slots i (length i);
  sched_slots_allocation = update k.sched_slots_allocation i (u8 (allocation i));
})

-- One slot of the base length for each partition, or the slots of the configuration.
unfoldable pub init_slots_by : PartitionFunc → Config → Kernel → Kernel
init_slots_by global_timeslice c k =
    record (fill_slots (λ i. u64 (c.slots i)) c.slots_allocation c.nb_slots 0 k) {
      sched_major_frame = u64 c.major_frame;
    }
init_slots_by _ c k = record (fill_slots (λ i. u64 c.base_slot_length) (λ i. i) c.nb_slots 0 k) {
  sched_major_frame = u64 (c.nb_slots * c.base_slot_length);
}

unfoldable pub pok_init_slots : Config → Kernel → Kernel
pok_init_slots c k = init_slots_by c.global_scheduler c k

unfoldable pub pok_setup_scheduler_global : Config → Kernel → Kernel
pok_setup_scheduler_global c k = record k { sched_partition_func = c.global_scheduler }

-- The loop that adds the slots' lengths up in `total_time`.
unfoldable pub total_slots : (ℕ → ℕ) → ℕ → ℕ → ℕ → ℕ
total_slots slots zero slot total_time = total_time
total_slots slots (suc n) slot total_time =
    total_slots slots n (slot + 1) (u64 (total_time + slots slot))

-- The second part is whether the code calls `pok_kernel_error`.
unfoldable pub pok_sched_init : Config → Kernel → Kernel × Bool
pok_sched_init c k =
    let k1 = pok_init_slots c k in
    (
      pok_setup_scheduler_global c (record k1 {
        sched_current_slot = 0;
        sched_next_major_frame = k1.sched_major_frame;
        sched_next_deadline = k1.sched_slots 0;
        sched_next_flush = 0;
        current_partition = k1.sched_slots_allocation 0;
      }),
      not (total_slots k1.sched_slots c.nb_slots 0 0 == k1.sched_major_frame),
    )

unfoldable pub pok_sched_get_priority_min : ℕ
pok_sched_get_priority_min = 0

unfoldable pub pok_sched_get_priority_max : ℕ
pok_sched_get_priority_max = 255

unfoldable pub pok_sched_part_global_timeslice : Kernel → ℕ
pok_sched_part_global_timeslice k = k.sched_slots_allocation k.sched_current_slot

-- The call through the pointer `sched_partiton_func`.
unfoldable pub global_call : PartitionFunc → ℕ → Config → Now → Kernel → Option (Kernel × ℕ)
global_call global_timeslice fuel c w k = some (k, pok_sched_part_global_timeslice k)
global_call global_pps fuel c w k = do
  e ←
      pok_sched_part_global_pps fuel c.needs_locks w.proc w.tick c.nb_partitions k.threads
        k.partitions k.current_partition
  some (record k { threads = e.threads; partitions = e.partitions }, e.partition)
global_call global_pedf fuel c w k = do
  e ←
      pok_sched_part_global_pedf fuel c.needs_locks w.proc w.tick c.nb_partitions k.threads
        k.partitions k.current_partition
  some (record k { threads = e.threads; partitions = e.partitions }, e.partition)

-- The next major frame, set when the current one is over, in a build with ports.
unfoldable pub next_frame : Config → ℕ → Kernel → Kernel
next_frame c now k =
    if c.needs_ports && leb k.sched_next_major_frame now
    then record k { sched_next_major_frame = u64 (k.sched_next_major_frame + k.sched_major_frame) }
    else k

-- The next slot and its deadline.
unfoldable pub next_slot : Config → Kernel → Kernel
next_slot c k =
    let slot = (k.sched_current_slot + 1) % c.nb_slots in
    record k {
      sched_current_slot = slot;
      sched_next_deadline = u64 (k.sched_next_deadline + k.sched_slots slot);
    }

-- What the slot that `next_slot` entered elects: its own partition while that one initialises, else
-- what the partition scheduler says.
unfoldable pub elect_in_slot : ℕ → Config → Now → Kernel → Option (Kernel × ℕ)
elect_in_slot fuel c w k =
    let next_partition = k.sched_slots_allocation k.sched_current_slot in
    if is_init (k.partitions next_partition).mode
    then some (k, next_partition)
    else global_call k.sched_partition_func fuel c w k

unfoldable pub pok_elect_partition : ℕ → Config → Now → Kernel → Option (Kernel × ℕ)
pok_elect_partition fuel c w k =
    if leb k.sched_next_deadline w.tick
    then elect_in_slot fuel c w (next_slot c (next_frame c w.tick k))
    else some (k, k.current_partition)

-- The processor that takes the clock's interrupt: it elects a partition, then one of its threads. The
-- switch of address spaces and the rendezvous, by which `pok_global_sched_thread` differs from
-- `pok_sched_thread`, change no state of the model.
unfoldable pub pok_global_sched : ℕ → Config → Now → Kernel → Option Kernel
pok_global_sched fuel c w k = do
  (k', elected_partition) ← pok_elect_partition fuel c w k
  let e = u8 elected_partition
  pok_sched_thread fuel c w
      (record k' { new_partition = not (e == k.current_partition); current_partition = e })
