-- ===== src/Tests/Sched.antt =====
-- Runs of the theorems on the election of threads.
use pok_lab.Common.{ℕ, ◌≤◌, ◌<◌, ◌≡◌, ◌≢◌, refl, ◌⊎◌, inl, inr, false, none, some, arith, ◌==◌}
use pok_lab.Types.{Thread, Threads, pps}
use pok_lab.Kernel.{Kernel, current_id, current_part}
use pok_lab.Sched.Best.{IsKnown, IsElection, NoneEligible, eligible}
use pok_lab.Sched.Priority.{pok_sched_part_static, pok_sched_part_static_lem}
use pok_lab.Sched.RoundRobin.{pok_sched_part_rr, GoesOn, IsFrom, IsNext, pok_sched_part_rr_lem}
use pok_lab.Sched.Edf.{pok_sched_part_pedf, IsEarliest, pok_sched_part_pedf_lem}
use pok_lab.Sched.Wrr.{pok_sched_part_wrr, IsWrr, pok_sched_part_wrr_lem}
use pok_lab.Sched.Wrr.Limits.{wrr_passes_over_prev, wrr_hangs}
use pok_lab.Sched.Pwrr.{pok_sched_part_pwrr}
use pok_lab.Sched.Pwrr.Inversion.{NoInversion, pok_sched_part_pwrr_lem}
use pok_lab.Sched.Mlfq.{pok_sched_part_mlfq, IsMlfq, pok_sched_part_mlfq_lem}
use pok_lab.Sched.Dispatch.{sched_call}
use pok_lab.Sched.Dispatch.Known.{Ready, sched_call_lem}
use pok_lab.Sched.Switch.{pok_sched_thread}
use pok_lab.Sched.Switch.Known.{IsSound, pok_sched_thread_lem}
use pok_lab.Tests.Data.{all_run, all_still, first_runs, conf, kernel, at_120}

own : (t : ℕ) → t < 2 → IsKnown 9 0 2 t
own t h = inr (omega arith, h)

static_example :
    (e : ℕ) × (pok_sched_part_static 2 9 0 all_run 0 2 0 1 ≡ some e)
    × IsElection all_run (λ (t : Thread). t.priority) 0 9 0 2 e
static_example =
    pok_sched_part_static_lem 2 9 0 all_run 0 2 0 1 (omega arith) (omega arith)
      (own 0 (omega arith)) (own 1 (omega arith)) (omega arith)

rr_example :
    (e : ℕ) × (pok_sched_part_rr 2 9 0 all_run 0 2 0 1 ≡ some e)
    × ((GoesOn all_run 0 9 1 × (e ≡ 1))
        ⊎ ((¬ GoesOn all_run 0 9 1)
            × (from : ℕ) × IsFrom 9 0 0 1 from
            × (IsNext all_run 0 0 2 from e ⊎ ((e ≡ 9) × NoneEligible all_run 0 0 2))))
rr_example =
    pok_sched_part_rr_lem 2 9 0 all_run 0 2 (omega arith) (omega arith) 0 1 (omega arith)
      (own 0 (omega arith)) (own 1 (omega arith))

pedf_example :
    (e : ℕ) × (pok_sched_part_pedf 2 9 0 all_run 0 2 0 1 ≡ some e)
    × (IsEarliest all_run 0 0 2 e ⊎ ((e ≡ 9) × NoneEligible all_run 0 0 2))
pedf_example =
    pok_sched_part_pedf_lem 2 9 0 all_run 0 2 0 1 (omega arith) (omega arith) (own 0 (omega arith))
      (own 1 (omega arith)) (omega arith) (λ i l h e. omega arith)

wrr_example :
    (r : Threads × ℕ) × (pok_sched_part_wrr 2 9 0 all_run 0 2 0 1 ≡ some r)
    × IsWrr 2 9 0 all_run 0 2 0 1 r
wrr_example =
    pok_sched_part_wrr_lem 2 9 0 all_run 0 2 0 1 (omega arith) (omega arith) (omega arith)
      (own 0 (omega arith)) (own 1 (omega arith)) (inl (omega arith)) (omega arith)

-- Thread 0 ran before the idle thread, and is the only one that may run.
passes_over_example :
    (r : Threads × ℕ) × (pok_sched_part_wrr 2 9 0 first_runs 0 2 0 9 ≡ some r) × (r.1 ≡ 9)
passes_over_example =
    wrr_passes_over_prev 2 9 0 first_runs 0 2 0 (omega arith) (omega arith) refl (omega arith)
      (omega arith) (omega arith) others (omega arith)
  where
    differs : (i : ℕ) → i ≢ 0 → i == 0 ≡ false
    differs i other = ground (arith, other)

    others : (i : ℕ) → 0 ≤ i → i < 2 → i ≢ 0 → eligible first_runs 0 i ≡ false
    others i l h other = rw (differs i other) refl

pwrr_example :
    (r : Threads × ℕ) × (pok_sched_part_pwrr 2 9 0 all_run 0 2 0 1 ≡ some r)
    × NoInversion 9 0 0 2 all_run r.1
    × IsKnown 9 0 2 r.1
pwrr_example =
    pok_sched_part_pwrr_lem 9 0 0 2 2 all_run 0 1 (omega arith) (omega arith) (own 0 (omega arith))
      (own 1 (omega arith)) (omega arith) (omega arith)

mlfq_example :
    (r : Threads × ℕ) × (pok_sched_part_mlfq 2 9 0 all_run 0 2 0 1 ≡ some r)
    × IsMlfq 9 0 all_run 0 2 1 r
mlfq_example =
    pok_sched_part_mlfq_lem 2 9 0 all_run 0 2 0 1 (omega arith) (omega arith) (own 0 (omega arith))
      (own 1 (omega arith)) (omega arith)

ready : Ready 2 9 0 2 0 1
ready = record {
  filled = omega arith;
  small = omega arith;
  out = omega arith;
  prev_known = own 0 (omega arith);
  current_known = own 1 (omega arith);
  not_both = inl (omega arith);
  enough = omega arith;
}

sched_call_example :
    (r : Threads × ℕ) × (sched_call pps 2 9 0 all_run 0 2 0 1 ≡ some r) × IsKnown 9 0 2 r.1
sched_call_example = sched_call_lem 9 0 all_run 0 2 2 0 1 ready pps

sound : IsSound conf at_120 (current_part kernel)
sound = record {
  filled = omega arith;
  out = omega arith;
  prev_known = inr (omega arith, omega arith);
  current_known = inr (omega arith, omega arith);
  not_both = inl (omega arith);
  main_low = omega arith;
  main_high = omega arith;
}

sched_thread_example :
    (k' : Kernel) × (pok_sched_thread 2 conf at_120 kernel ≡ some k')
    × IsSound conf at_120 (current_part k')
    × (current_id at_120 k' ≡ (current_part k').current_thread 0)
    × (k'.current_partition ≡ 0)
sched_thread_example = pok_sched_thread_lem conf at_120 2 kernel (omega arith) sound (omega arith)

hangs_example : pok_sched_part_wrr 50 9 0 all_still 0 2 9 9 ≡ none
hangs_example =
    wrr_hangs 50 9 0 all_still 0 2 0 (omega arith) (omega arith) refl (omega arith) (λ i l h. refl)
