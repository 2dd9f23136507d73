-- ===== src/Sched/Slice.antt =====
-- The time slices of the weighted and multi-level elections of kernel/core/sched.c.
use pok_lab.Common.{
  ℕ, ◌-◌, ◌<◌, ◌≡◌, ◌≢◌, ◌≤ℤ◌, pos, Bool, true, false, ◌&&◌, arith, ltb, ◌==◌, if◌then◌else◌,
  is_positive, update,
}
use pok_lab.Types.{State, runnable, Threads, is_runnable}
use pok_lab.Sched.Best.{eligible}

-- `if (pok_threads[t].remaining_timeslice > 0) pok_threads[t].remaining_timeslice--;`
unfoldable pub spend : Threads → ℕ → Threads
spend ts t =
    if ltb 0 (ts t).remaining_timeslice
    then update ts t (record (ts t) { remaining_timeslice = (ts t).remaining_timeslice - 1 })
    else ts

-- pok_threads[t].remaining_timeslice = pok_threads[t].weight;
unfoldable pub refill : Threads → ℕ → Threads
refill ts t = update ts t (record (ts t) { remaining_timeslice = (ts t).weight })

-- The same, `if (t != IDLE_THREAD)`.
unfoldable pub refill_unless_idle : ℕ → Threads → ℕ → Threads
unfolding refill
refill_unless_idle idle ts t = if t == idle then ts else refill ts t

-- The thread is runnable and has capacity and slice left.
unfoldable pub slice_left : Threads → ℕ → Bool
slice_left ts t =
    is_runnable (ts t).state
    && is_positive (ts t).remaining_time_capacity
    && ltb 0 (ts t).remaining_timeslice

-- The thread goes on behind this tick: it is runnable, has capacity left, and a slice of more than one tick.
pub record HasSlice (ts : Threads) (t : ℕ) : Type 0 where
  pub runs : (ts t).state ≡ runnable
  pub capacity : pos 1 ≤ℤ (ts t).remaining_time_capacity
  pub slice : 1 < (ts t).remaining_timeslice

-- A tick of the slice of `t` is spent, if there is one.
pub record IsSpent (ts : Threads) (t : ℕ) (ts' : Threads) : Type 0 where
  pub own : ts' t ≡ record (ts t) { remaining_timeslice = (ts t).remaining_timeslice - 1 }
  pub others : (i : ℕ) → i ≢ t → ts' i ≡ ts i

-- The slice of `t` is the weight of the thread again; the idle thread spends a tick instead.
pub record IsRefilled (idle : ℕ) (ts : Threads) (t : ℕ) (ts' : Threads) : Type 0 where
  pub own : t ≢ idle → ts' t ≡ record (ts t) { remaining_timeslice = (ts t).weight }
  pub idles :
      t ≡ idle → ts' t ≡ record (ts t) { remaining_timeslice = (ts t).remaining_timeslice - 1 }
  pub others : (i : ℕ) → i ≢ t → ts' i ≡ ts i

module _ (ts : Threads) (t : ℕ) where
  state_runs : (s : State) → is_runnable s ≡ true → s ≡ runnable
  state_runs s e = ground (arith, e)

  pub spend-IsSpent : IsSpent ts t (spend ts t)
  unfolding spend
  spend-IsSpent = record { own = ground arith; others = λ i off. ground (arith, off) }

  pub slice_left-HasSlice : slice_left (spend ts t) t ≡ true → HasSlice ts t
  unfolding slice_left spend
  slice_left-HasSlice go = record {
    runs = state_runs (ts t).state (ground (arith, go));
    capacity = ground (arith, go);
    slice = ground (arith, go);
  }

  pub HasSlice-slice_left : HasSlice ts t → slice_left (spend ts t) t ≡ true
  unfolding slice_left spend
  HasSlice-slice_left h = rw h.runs (ground (arith, h.capacity, h.slice))

  -- When the slice is filled again behind the tick.
  pub refill-IsRefilled : (idle : ℕ) → IsRefilled idle ts t (refill_unless_idle idle (spend ts t) t)
  unfolding refill_unless_idle spend refill
  refill-IsRefilled idle = record {
    own = λ busy. ground (arith, busy);
    idles = λ e. ground (arith, e);
    others = λ i off. ground (arith, off);
  }

-- Slices do not change which threads may run.
pub eligible-spend :
    (ts : Threads) (t proc i : ℕ) → eligible (spend ts t) proc i ≡ eligible ts proc i
unfolding spend
eligible-spend ts t proc i = ground arith

pub eligible-refill_unless_idle :
    (idle : ℕ) (ts : Threads) (t proc i : ℕ)
    → eligible (refill_unless_idle idle ts t) proc i ≡ eligible ts proc i
unfolding refill_unless_idle
eligible-refill_unless_idle idle ts t proc i = ground arith

pub eligible-refill :
    (ts : Threads) (t proc i : ℕ) → eligible (refill ts t) proc i ≡ eligible ts proc i
unfolding refill
eligible-refill ts t proc i = ground arith

pub priority-spend : (ts : Threads) (t i : ℕ) → (spend ts t i).priority ≡ (ts i).priority
unfolding spend
priority-spend ts t i = ground arith

pub priority-refill_unless_idle :
    (idle : ℕ) (ts : Threads) (t i : ℕ)
    → (refill_unless_idle idle ts t i).priority ≡ (ts i).priority
unfolding refill_unless_idle
priority-refill_unless_idle idle ts t i = ground arith

-- A thread with no capacity, such as the idle thread, has no slice left.
pub slice_left-spend_of_no_capacity :
    (ts : Threads) (t : ℕ)
    → is_positive (ts t).remaining_time_capacity ≡ false
    → slice_left (spend ts t) t ≡ false
unfolding spend slice_left
slice_left-spend_of_no_capacity ts t h = ground arith
