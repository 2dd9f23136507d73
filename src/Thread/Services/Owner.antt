-- ===== src/Thread/Services/Owner.antt =====
-- Whose threads the services of kernel/core/thread.c reach: the tests of the identifier.
use pok_lab.Common.{
  ℕ, ◌≤◌, ◌≡◌, ◌≢◌, refl, ◌⊎◌, inl, inr, true, false, ◌||◌, arith, ◌==◌, update_at, update_off, ap,
  Bool-cases,
}
use pok_lab.Types.{Thread, stopped, ok, threadattr}
use pok_lab.Kernel.{Kernel, Now, current_id, current_part, set_thread}
use pok_lab.Thread.Services.{is_refused, pok_thread_suspend_target}

-- The target is in the range that the test lets through, which has the upper bound in it.
abbrev pub Accepted : Now → Kernel → ℕ → Type 0
Accepted w k id =
    ((current_part k).thread_index_low ≤ id)
    × (id ≤ (current_part k).thread_index_high)
    × (id ≢ current_id w k)

-- A suspension of another thread either finds the identifier in the range from the first slot of the
-- current partition to the slot behind its last one, not the running thread's, stops that thread and
-- changes nothing else of the table; or it is refused and changes nothing.
pub pok_thread_suspend_target_lem :
    (w : Now) (k : Kernel) (id : ℕ)
    → (Accepted w k id
        × (k' : Kernel) × (pok_thread_suspend_target w k id ≡ (k', ok))
        × ((k'.threads id).state ≡ stopped)
        × ((i : ℕ) → i ≢ id → k'.threads i ≡ k.threads i))
      ⊎ ((Accepted w k id → ⊥) × (pok_thread_suspend_target w k id ≡ (k, threadattr)))
unfolding pok_thread_suspend_target is_refused
pok_thread_suspend_target_lem w k id =
    elim (Bool-cases (is_refused k id || (id == current_id w k))) [
      | inl refused ↦ inr (rw refused (refuses refused, refl))
      | inr taken ↦ inl (
        accepts taken,
        set_thread k id stop,
        rw taken refl,
        ap (λ (t : Thread). t.state) (update_at k.threads id (stop (k.threads id))),
        λ i other. update_off k.threads id i (stop (k.threads id)) other,
      )
    ]
  where
    stop : Thread → Thread
    stop t = record t { state = stopped }

    refuses : is_refused k id || (id == current_id w k) ≡ true → Accepted w k id → ⊥
    refuses refused a = ground (arith, refused, a)

    accepts : is_refused k id || (id == current_id w k) ≡ false → Accepted w k id
    accepts taken = ground (arith, taken)
