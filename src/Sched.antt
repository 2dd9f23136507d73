-- ===== src/Sched.antt =====
-- kernel/core/sched.c: the election of threads and of partitions.
pub mod Ring
pub mod Best
pub mod Priority
pub mod Search
pub mod RoundRobin
pub mod Edf
pub mod Slice
pub mod Wrr
pub mod Pwrr
pub mod Mlfq
pub mod Global
pub mod Dispatch
pub mod Switch
pub mod Slots
