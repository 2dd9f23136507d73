-- ===== src/Sched/Dispatch.antt =====
-- The call `new_partition->sched_func(...)` of kernel/core/sched.c: the election functions behind one
-- signature, with the threads as the election leaves them.
pub mod Known
use pok_lab.Common.{ℕ, Option}
use mathlib.Core.Option
use pok_lab.Types.{Threads, SchedFunc, rms, static, pps, pedf, wrr, pwrr, mlfq, rr}
use pok_lab.Sched.Priority.{pok_sched_part_static, pok_sched_part_pps}
use pok_lab.Sched.RoundRobin.{pok_sched_part_rms, pok_sched_part_rr}
use pok_lab.Sched.Edf.{pok_sched_part_pedf}
use pok_lab.Sched.Wrr.{pok_sched_part_wrr}
use pok_lab.Sched.Pwrr.{pok_sched_part_pwrr}
use pok_lab.Sched.Mlfq.{pok_sched_part_mlfq}

-- The elections that leave the threads alone.
abbrev keep : Threads → Option ℕ → Option (Threads × ℕ)
keep ts = Option.map (λ e. (ts, e))

unfoldable pub sched_call : SchedFunc → ℕ → ℕ → ℕ → Threads → ℕ → ℕ → ℕ → ℕ → Option (Threads × ℕ)
sched_call rms f i p ts lo hi pr cu = keep ts (pok_sched_part_rms f i p ts lo hi pr cu)
sched_call static f i p ts lo hi pr cu = keep ts (pok_sched_part_static f i p ts lo hi pr cu)
sched_call pps f i p ts lo hi pr cu = keep ts (pok_sched_part_pps f i p ts lo hi pr cu)
sched_call pedf f i p ts lo hi pr cu = keep ts (pok_sched_part_pedf f i p ts lo hi pr cu)
sched_call wrr f i p ts lo hi pr cu = pok_sched_part_wrr f i p ts lo hi pr cu
sched_call pwrr f i p ts lo hi pr cu = pok_sched_part_pwrr f i p ts lo hi pr cu
sched_call mlfq f i p ts lo hi pr cu = pok_sched_part_mlfq f i p ts lo hi pr cu
sched_call rr f i p ts lo hi pr cu = keep ts (pok_sched_part_rr f i p ts lo hi pr cu)
