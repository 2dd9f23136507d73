-- ===== src/Lib.antt =====
-- POK, a partitioned real-time kernel: the election of threads and partitions, the table of threads, the
-- modes of partitions, the objects that threads lock and wait for, the ports between partitions, and the
-- allocator of memory inside a partition.
--
-- The parts. kernel/core/sched.c decides at every tick which partition a processor executes and which
-- thread of it. `pok_global_sched` elects a partition by the slots of the major frame or by a partition
-- scheduler, then `pok_sched_thread` unlocks the threads whose time has come, charges the current thread
-- for the tick, and calls the scheduler that the partition was given. kernel/core/thread.c creates threads in
-- the range of the table that a partition owns, and changes their state on behalf of the partition.
-- kernel/core/lockobj.c makes threads wait in queues and wakes them, and calls the scheduler for both.
-- kernel/core/partition.c gives each partition its range of threads and of lock objects, and changes its
-- mode when its main thread or its error handler asks. kernel/core/error.c keeps the last error of a
-- partition and wakes the handler. kernel/core/multiprocessing.c numbers the processors of a partition.
-- kernel/middleware keeps the bytes that partitions send to each other: portutils.c reads and writes them,
-- the services on ports lock a port and make threads wait for bytes or for room, and
-- portflushall.c copies messages from port to port at each major frame.
-- libpok/core/allocator.c, linked into a partition, gives its memory to `malloc` and takes it back.
--
-- The state. Kernel.antt has the global variables of sched.c, thread.c and partition.c as one record
-- `Kernel`, the constants that a build generates as `Config`, and what a call reads of the machine, the
-- processor and the clock, as `Now`. Types.antt has `pok_thread_t`, `pok_partition_t` and the
-- enumerations. A table is a function of its index; an unsigned number is a natural number, wrapped where
-- the code computes it; `int64_t` is ℤ. A lock object is a record beside the
-- kernel or in a port. Ports/Table.antt has the kernel, the table of ports and their bytes, which are a
-- function of their address, as the record `State`.
--
-- The files.
--   Common, Common/*: the names of the libraries, words, signed integers, lists and tests.
--   Sched/Ring, Best, Search, Slice: the loops that the schedulers share, with their properties.
--   Sched/Priority, RoundRobin, Edf, Wrr, Pwrr, Mlfq: the functions `pok_sched_part_*` on threads.
--   Sched/Dispatch: the call through `sched_func`, and what all schedulers have in common.
--   Sched/Switch: `pok_elect_thread`, `pok_sched_thread` and the functions on the state of a thread.
--   Sched/Global: `activate_waiting_threads` and the elections of partitions by priority or deadline.
--   Sched/Slots: slots, major frame, `pok_elect_partition` and `pok_global_sched`.
--   Processors: kernel/core/multiprocessing.c.
--   Thread, Thread/Create, Thread/Services: kernel/core/thread.c.
--   Lockobj/Queue, Create, Lock, Event, Call: kernel/core/lockobj.c.
--   SchedValues, Partition, Partition/Mode: kernel/core/partition.c.
--   Error: kernel/core/error.c.
--   Ports: kernel/middleware/portutils.c, with both kinds of ports in the build.
--   Ports/Table: the table of ports, kernel/middleware/port*create.c, port*id.c, portinit.c, queueinit.c.
--   Ports/Locks, Send, Receive, Sampling: the services on ports, kernel/middleware/port*.c.
--   Ports/Flush: kernel/middleware/portflushall.c.
--   Ports/Virtual: kernel/middleware/portvirtual*.c.
--   Allocator: libpok/core/allocator.c.
--   Tests: the theorems at concrete data.
-- A child module of one of these (Known, Limits, Frame, Held and so on) has proofs only.
--
-- Loops and fuel. A `for` loop is a recursion on the turns that are left. The walks of the schedulers and
-- of the activation have fuel, and `none` stands for a loop that goes on: one round of the partition, its
-- number of threads, is enough for every scheduler, and the cases in which no fuel is enough are among
-- the results. `none` also stands for a failed assertion in thread.c, lockobj.c and multiprocessing.c. A
-- walk round a queue of `n` places takes `n` turns at most, and the theorems on it show that it
-- stops by the test of the code.
--
-- A call that makes its thread wait is cut in two at the scheduling: what it does before, and what it
-- does when the thread runs again, at any later time and in any later state.
--
-- Not modelled. The rendezvous between processors, the context switch of the machine and the memory of
-- the partitions: what thread.c takes from the architecture is the record `Machine`, what partition.c
-- takes from the configuration and the loader is the record `Build`, and a local variable that is read
-- without having been set is a field of `Uninit`. Builds with
-- POK_NEEDS_DDL_PUNISH, and the output for debugging. The assertion of sched.c that an activated thread
-- has a capacity. The default handlers of errors, which print or do nothing, and the call of
-- `pok_port_flushall` in the election of a partition; a transfer from a port to itself. A table of 256
-- slots or more, or a partition of 256 threads or more, for which the counters of a byte in sched.c do
-- not end. A shift by 32 or more in sched.c, which C leaves undefined, is read as 0. A sort of threads
-- where a number that is cut to 16 bits is 0, for which the code may read in front of the table.
pub mod Common
pub mod SchedValues
pub mod Types
pub mod Kernel
pub mod Sched
pub mod Processors
pub mod Thread
pub mod Lockobj
pub mod Partition
pub mod Ports
pub mod Error
pub mod Allocator
pub mod Tests
