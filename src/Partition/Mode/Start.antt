-- ===== src/Partition/Mode/Start.antt =====
-- What happens to a thread, and the loop of kernel/core/partition.c over the threads of a partition that becomes NORMAL.
use pok_lab.Common.{
  ℕ, zero, suc, ◌+◌, ◌≤◌, ◌<◌, ◌≡◌, ◌⊎◌, inl, inr, refl, sym, ap, ◌∙◌, arith, update, update_at,
  update_off, u32, u32_mod, ℕ_discrete, if◌then◌else◌, is_positive, to_u64, u64_mod, minus_one, ◌≢◌,
  ◌%◌, is_minus_one, ◌==◌, Bool-cases, true, false,
}
use pok_lab.Types.{
  runnable, waiting, wait_next_activation, delayed_start, State, is_delayed_start, Thread, Threads,
}
use pok_lab.Partition.Mode.{released, start_thread, start_from}

-- The end of a thread's time, which begins at `first`: that of before if it has no capacity.
abbrev pub end_after : ℕ → Thread → ℕ
end_after first t =
    if is_positive t.time_capacity then (first + to_u64 t.time_capacity) % u64_mod else t.end_time

-- How a thread `t` starts at the time `now`. Without a delayed
-- start it stays as it is; without a delay it runs from now on; a thread without a period waits for
-- its delay, which begins now; a periodic one waits for its delay behind the next major frame.
pub record IsStarted (now major_frame activation : ℕ) (t t' : Thread) : Type 0 where
  pub others : t.state ≢ delayed_start → t' ≡ t
  pub at_once :
      t.state ≡ delayed_start
      → t.wakeup_time ≡ 0
      → t' ≡ record t {
        state = runnable;
        wakeup_time = now % u64_mod;
        end_time = end_after (now % u64_mod) t;
      }
  pub later :
      t.state ≡ delayed_start
      → t.wakeup_time ≢ 0
      → t.period ≡ minus_one
      → t' ≡ record t {
        state = waiting;
        wakeup_time = (t.wakeup_time + now) % u64_mod;
        end_time = end_after ((t.wakeup_time + now) % u64_mod) t;
      }
  pub next_frame :
      t.state ≡ delayed_start
      → t.wakeup_time ≢ 0
      → t.period ≢ minus_one
      → t' ≡ record t {
        state = wait_next_activation;
        next_activation = (t.wakeup_time + major_frame + activation) % u64_mod;
        end_time =
            ((t.wakeup_time + major_frame + activation) % u64_mod + to_u64 t.time_capacity)
            % u64_mod;
      }

pub start_thread-IsStarted :
    (now major_frame activation : ℕ) (t : Thread)
    → IsStarted now major_frame activation t (start_thread now major_frame activation t)
unfolding start_thread
start_thread-IsStarted now major_frame activation t = record {
  others = λ other. rw (delayed-fails t.state other) refl;
  at_once = λ delayed none.
      rw (delayed-holds t.state delayed) rw (equal-holds none)
        (elim (Bool-cases (is_minus_one t.period)) [
          | inl once ↦ rw once (at_now none)
          | inr periodic ↦ rw periodic (at_now none)
        ]);
  later = λ delayed some once.
      rw (delayed-holds t.state delayed) rw (equal-fails some) rw (once-holds once) refl;
  next_frame = λ delayed some periodic.
      rw (delayed-holds t.state delayed) rw (equal-fails some) rw (once-fails periodic) refl;
}
  where
    sum_now : t.wakeup_time ≡ 0 → t.wakeup_time + now ≡ now
    sum_now none = omega (arith, none)

    at_now :
        t.wakeup_time ≡ 0
        → released now runnable t ≡ record t {
          state = runnable;
          wakeup_time = now % u64_mod;
          end_time = end_after (now % u64_mod) t;
        }
    at_now none =
        ap
          (λ n. record t {
            state = runnable;
            wakeup_time = n % u64_mod;
            end_time = end_after (n % u64_mod) t;
          })
          (sum_now none)

    delayed-holds : (s : State) → s ≡ delayed_start → is_delayed_start s ≡ true
    delayed-holds s e = ground (arith, e)

    delayed-fails : (s : State) → s ≢ delayed_start → is_delayed_start s ≡ false
    delayed-fails s e = ground (arith, e)

    equal-holds : t.wakeup_time ≡ 0 → (t.wakeup_time == 0) ≡ true
    equal-holds e = ground (arith, e)

    equal-fails : t.wakeup_time ≢ 0 → (t.wakeup_time == 0) ≡ false
    equal-fails e = ground (arith, e)

    once-holds : t.period ≡ minus_one → is_minus_one t.period ≡ true
    once-holds e = ground (arith, e)

    once-fails : t.period ≢ minus_one → is_minus_one t.period ≡ false
    once-fails e = ground (arith, e)

module _ (f : Thread → Thread) (low : ℕ) where
  -- A thread outside the range stays as it is.
  pub start_from-off :
      (n i j : ℕ) (ts : Threads)
      → low + (i + n) < u32_mod
      → (j < low + i) ⊎ (low + (i + n) ≤ j)
      → start_from n i low f ts j ≡ ts j
  unfolding start_from
  start_from-off zero i j ts few out = refl
  start_from-off (suc n) i j ts few out =
      start_from-off n (i + 1) j (update ts (u32 (low + i)) (f (ts (u32 (low + i))))) (omega arith)
        (ground (arith, out))
      ∙ update_off ts (u32 (low + i)) j _ (ground (arith, out, few))

  -- A thread of the range is changed, once.
  pub start_from-at :
      (n i j : ℕ) (ts : Threads)
      → low + (i + n) < u32_mod
      → i ≤ j
      → j < i + n
      → start_from n i low f ts (low + j) ≡ f (ts (low + j))
  unfolding start_from
  start_from-at zero i j ts few from to = absurd (omega arith)
  start_from-at (suc n) i j ts few from to = elim (ℕ_discrete j i) [
    | yes here ↦
        start_from-off n (i + 1) (low + j) (update ts (u32 (low + i)) (f (ts (u32 (low + i)))))
          (omega arith) (inl (omega arith))
        ∙ ap (update ts (u32 (low + i)) (f (ts (u32 (low + i))))) (word here)
        ∙ update_at ts (u32 (low + i)) _
        ∙ ap (λ k. f (ts k)) (sym (word here))
    | no away ↦
        start_from-at n (i + 1) j (update ts (u32 (low + i)) (f (ts (u32 (low + i))))) (omega arith)
          (omega arith) (omega arith)
        ∙ ap f (update_off ts (u32 (low + i)) (low + j) _ (omega arith))
  ]
    where
      word : j ≡ i → low + j ≡ u32 (low + i)
      word here = omega arith
