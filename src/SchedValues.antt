-- ===== src/SchedValues.antt =====
-- kernel/include/core/schedvalues.h: the schedulers that a configuration may name.

-- pok_sched_t
pub data Sched : Type 0 where
  fifo rr global_timeslice rms edf llf static pps pedf wrr pwrr global_pps global_pedf mlfq : Sched
