-- ===== src/Tests.antt =====
-- Concrete runs of the theorems of the other modules.
mod Data
mod Sched
mod Global
mod Thread
mod Lockobj
mod Ports
mod Allocator
mod Partition
