-- ===== src/Sched/Global/Activate.antt =====
-- `activate_waiting_threads` of kernel/core/sched.c: its two loops share one counter.
use pok_lab.Common.{
  ℕ, zero, suc, ◌+◌, ◌≤◌, ◌<◌, ◌≡◌, ◌≢◌, refl, ◌⊎◌, inl, inr, Bool, true, false, none, some, arith,
  ltb, u8, ℕ_discrete,
}
use pok_lab.Types.{Threads, Partitions}
use pok_lab.Sched.Global.{activate_inner, activate_outer, activate_waiting_threads}

module _ (needs_locks : Bool) (proc now : ℕ) (ps : Partitions) (k : ℕ)
    (below : (i : ℕ) → i < k → i < (ps i).nthreads) (at : (ps k).nthreads ≤ k)
    (byte : suc k < 256) where
  -- The inner loop, whatever the threads are, either runs out of fuel or stops at `k`.
  inner_exit :
      (fuel i : ℕ) (ts : Threads)
      → i ≤ k
      → (activate_inner needs_locks proc now ps fuel i ts ≡ none)
        ⊎ ((us : Threads) × (activate_inner needs_locks proc now ps fuel i ts ≡ some (k, us)))
  unfolding activate_inner
  inner_exit zero i ts h = inl refl
  inner_exit (suc fuel) i ts h = elim (ℕ_discrete i k) [
    | yes e ↦ inr (ts, rw e (rw stop refl))
    | no ne ↦ rw (more ne, step ne) (inner_exit fuel (suc i) _ (omega arith))
  ]
    where
      stop : ltb k (ps k).nthreads ≡ false
      stop = ground arith

      more : i ≢ k → ltb i (ps i).nthreads ≡ true
      more ne = ground (arith, below i)

      step : i ≢ k → u8 (i + 1) ≡ suc i
      step ne = omega arith

  outer_hangs :
      (nb : ℕ)
      → suc k < nb
      → (m n i : ℕ) (ts : Threads) → i < nb
      → activate_outer needs_locks proc now ps nb m n i ts ≡ none
  unfolding activate_outer
  outer_hangs nb h m zero i ts l = refl
  outer_hangs nb h m (suc n) i ts l = rw inside (elim (inner_exit m 0 ts (omega arith)) [
    | inl e ↦ rw e
    | inr (us, e) ↦ rw (e, step) (outer_hangs nb h m n (suc k) us h)
  ])
    where
      inside : ltb i nb ≡ true
      inside = ground arith

      step : u8 (k + 1) ≡ suc k
      step = omega arith

  -- The first index whose partition has no more threads than that index is where the inner loop
  -- leaves the counter. If a partition follows the next one, the outer loop begins again at that
  -- index, and `activate_waiting_threads` never ends: no fuel is enough.
  pub activate_waiting_threads_hangs :
      (nb : ℕ)
      → suc k < nb
      → (fuel : ℕ) (ts : Threads)
      → activate_waiting_threads needs_locks proc now ps nb fuel ts ≡ none
  unfolding activate_waiting_threads
  activate_waiting_threads_hangs nb h fuel ts = outer_hangs nb h fuel fuel 0 ts (omega arith)
