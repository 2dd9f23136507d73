-- ===== src/Sched/Wrr.antt =====
-- `pok_sched_part_wrr` of kernel/core/sched.c: the weighted round robin.
pub mod Limits
use pok_lab.Common.{
  ℕ, suc, ◌-◌, ◌≤◌, ◌<◌, ◌≡◌, ◌≢◌, refl, ◌⊎◌, inl, inr, Bool, true, false, not, ◌&&◌, Option, none,
  some, arith, ◌==◌, if◌then◌else◌, u32_mod, Bool-cases, subst, sym, ap, ◌∙◌, fun_ext, ℕ_discrete,
}
use mathlib.Core.Option
use pok_lab.Types.{Threads}
use pok_lab.Sched.Ring.{next, place}
use pok_lab.Sched.Best.{eligible, IsKnown}
use pok_lab.Sched.Search.{find_do, find_do-IsSearch, IsSearch, IsFirst, FailBetween}
use pok_lab.Sched.Slice.{
  spend, refill, refill_unless_idle, slice_left, eligible-spend, HasSlice, IsSpent, IsRefilled,
  spend-IsSpent, slice_left-HasSlice, HasSlice-slice_left, refill-IsRefilled,
}
use mathlib.Core.Bool.{false≢true}

-- current_thread != IDLE_THREAD ? current_thread : prev_thread
abbrev pub wrr_from : ℕ → ℕ → ℕ → ℕ
wrr_from idle prev current = if current == idle then prev else current

-- Where the search begins: the partition's first thread, or the one after `from`.
abbrev pub wrr_start : ℕ → ℕ → ℕ → ℕ → ℕ
wrr_start idle low high from = if from == idle then low else next low high from

-- The thread may run and is not the idle thread.
abbrev pub wrr_test : Threads → ℕ → ℕ → ℕ → Bool
wrr_test ts proc idle i = eligible ts proc i && not (i == idle)

-- What stands behind the search: the thread that was found, or the current one again, or idle. The
-- current thread's slice is filled again in each case.
unfoldable pub wrr_end : ℕ → ℕ → Threads → ℕ → Option ℕ → Threads × ℕ
unfolding refill refill_unless_idle
wrr_end idle proc ts current (some i) = (refill_unless_idle idle ts current, i)
wrr_end idle proc ts current none =
    if eligible ts proc current && not (current == idle)
    then (refill ts current, current)
    else (refill_unless_idle idle ts current, idle)

unfoldable pub pok_sched_part_wrr : ℕ → ℕ → ℕ → Threads → ℕ → ℕ → ℕ → ℕ → Option (Threads × ℕ)
pok_sched_part_wrr fuel idle proc ts index_low index_high prev_thread current_thread =
    let ts1 = spend ts current_thread in
    let from = wrr_from idle prev_thread current_thread in
    if slice_left ts1 current_thread
    then some (ts1, current_thread)
    else Option.map (wrr_end idle proc ts1 current_thread) (
        find_do (wrr_test ts1 proc idle) index_low index_high from fuel
          (wrr_start idle index_low index_high from))

module _ (fuel idle proc : ℕ) (ts : Threads) (low high prev current : ℕ) where
  -- The thread that is elected when the current thread does not go on: the first one behind `from`
  -- that passes the test, or else the current one if it passes it, or else the idle one.
  abbrev pub IsTurnOf : (ℕ → Bool) → ℕ → ℕ → Type 0
  IsTurnOf test from e =
      IsFirst test low high from 1 e
      ⊎ (FailBetween test low high from 1 (high - low)
          × (((test current ≡ true) × (e ≡ current)) ⊎ ((test current ≡ false) × (e ≡ idle))))

  abbrev pub IsWrrTurn : Threads → ℕ → Type 0
  IsWrrTurn ts1 e = IsTurnOf (wrr_test ts1 proc idle) (wrr_from idle prev current) e

  abbrev pub IsWrrTest : Threads × ℕ → Type 0
  IsWrrTest (ts', e) =
      ((slice_left (spend ts current) current ≡ true) × (e ≡ current) × (ts' ≡ spend ts current))
      ⊎ ((slice_left (spend ts current) current ≡ false)
          × (ts' ≡ refill_unless_idle idle (spend ts current) current)
          × IsWrrTurn (spend ts current) e)

  -- The walk begins behind the current thread, or behind the previous one if the processor is idle.
  abbrev pub IsBehind : ℕ → Type 0
  IsBehind from = ((current ≢ idle) × (from ≡ current)) ⊎ ((current ≡ idle) × (from ≡ prev))

  -- The current thread goes on with a tick less, or its slice is filled again and the next one runs.
  abbrev pub IsWrr : Threads × ℕ → Type 0
  IsWrr (ts', e) =
      (HasSlice ts current × (e ≡ current) × IsSpent ts current ts')
      ⊎ ((¬ HasSlice ts current)
          × IsRefilled idle ts current ts'
          × (from : ℕ) × IsBehind from
          × IsTurnOf (λ i. eligible ts proc i && not (i == idle)) from e)

  abbrev IsWrrEnd : Threads → Threads × ℕ → Type 0
  IsWrrEnd ts1 (ts', e) = (ts' ≡ refill_unless_idle idle ts1 current) × IsWrrTurn ts1 e

  refill_of_test :
      (ts1 : Threads)
      → wrr_test ts1 proc idle current ≡ true
      → refill ts1 current ≡ refill_unless_idle idle ts1 current
  unfolding refill refill_unless_idle
  refill_of_test ts1 t = rw other
    where
      other : (current == idle) ≡ false
      other = ground (arith, t)

  wrr_end_lem :
      (ts1 : Threads) (o : Option ℕ)
      → IsSearch (wrr_test ts1 proc idle) low high (wrr_from idle prev current) 1 (some o)
      → IsWrrEnd ts1 (wrr_end idle proc ts1 current o)
  unfolding wrr_end
  wrr_end_lem ts1 (some i) (inl (e, eq, f)) = (
    refl,
    inl (subst (IsFirst (wrr_test ts1 proc idle) low high (wrr_from idle prev current) 1) (cc) f),
  )
  wrr_end_lem ts1 (some i) (inr (eq, b)) = cc
  wrr_end_lem ts1 none (inl (e, eq, f)) = cc
  wrr_end_lem ts1 none (inr (eq, b)) = elim (Bool-cases (wrr_test ts1 proc idle current)) [
    | inl t ↦ rw t (refill_of_test ts1 t, inr (b, inl (refl, refl)))
    | inr f ↦ rw f (refl, inr (b, inr (refl, refl)))
  ]

  wrr_end_found :
      (ts1 : Threads) (o : Option (Option ℕ))
      → IsSearch (wrr_test ts1 proc idle) low high (wrr_from idle prev current) 1 o
      → (r : Threads × ℕ) × (Option.map (wrr_end idle proc ts1 current) o ≡ some r) × IsWrrEnd ts1 r
  wrr_end_found ts1 none (inl (e, eq, f)) = cc
  wrr_end_found ts1 none (inr (eq, b)) = cc
  wrr_end_found ts1 (some o) h = (wrr_end idle proc ts1 current o, refl, wrr_end_lem ts1 o h)

  -- The same by the code's own tests.
  pub wrr_election :
      suc low < high
      → high < u32_mod
      → high ≤ idle
      → IsKnown idle low high prev
      → IsKnown idle low high current
      → (prev ≢ idle) ⊎ (current ≢ idle)
      → high - low ≤ fuel
      → (r : Threads × ℕ) × (pok_sched_part_wrr fuel idle proc ts low high prev current ≡ some r)
        × IsWrrTest r
  unfolding pok_sched_part_wrr
  wrr_election two small out p c one enough =
      elim (Bool-cases (slice_left (spend ts current) current)) [
        | inl go ↦ rw go ((spend ts current, current), refl, inl (refl, refl, refl))
        | inr stop ↦
            rw stop
              let ts1 = spend ts current in
                let (r, eq, h) = wrr_end_found ts1 _ (
                  rw start (
                    find_do-IsSearch (wrr_test ts1 proc idle) low high (wrr_from idle prev current)
                      in_ring small 1 fuel (omega arith) enough)) in
                (r, eq, inr (refl, h.0, h.1))
      ]
    where
      in_ring : (low ≤ wrr_from idle prev current) × (wrr_from idle prev current < high)
      in_ring = ground (arith, one)

      start :
          wrr_start idle low high (wrr_from idle prev current)
          ≡ place low high (wrr_from idle prev current) 1
      start = ground (arith, in_ring)

  wrr_from-IsBehind : IsBehind (wrr_from idle prev current)
  wrr_from-IsBehind = elim (ℕ_discrete current idle) [
    | no busy ↦ inl (busy, ground (arith, busy))
    | yes idles ↦ inr (idles, ground (arith, idles))
  ]

  test-spend : wrr_test (spend ts current) proc idle ≡ (λ i. eligible ts proc i && not (i == idle))
  test-spend = fun_ext (λ i. ap (λ b. b && not (i == idle)) (eligible-spend ts current proc i))

  IsWrrTest-IsWrr : (r : Threads × ℕ) → IsWrrTest r → IsWrr r
  IsWrrTest-IsWrr (ts', e) (inl (go, same, spent)) = inl (
    slice_left-HasSlice ts current go,
    same,
    subst (IsSpent ts current) (sym spent) (spend-IsSpent ts current),
  )
  IsWrrTest-IsWrr (ts', e) (inr (stop, filled, turn)) = inr (
    (λ h. false≢true (sym stop ∙ HasSlice-slice_left ts current h)),
    subst (IsRefilled idle ts current) (sym filled) (refill-IsRefilled ts current idle),
    wrr_from idle prev current,
    wrr_from-IsBehind,
    subst (λ test. IsTurnOf test (wrr_from idle prev current) e) test-spend turn,
  )

  -- In a partition with two threads or more, none of which is the idle thread, and whose previous and
  -- current threads are its own or idle but not both idle, the weighted round robin ends within one
  -- round. The current thread goes on, with one tick of its slice spent, if it is runnable and has
  -- capacity and a slice of more than one tick left. If not, its slice is its weight again (the idle
  -- thread spends a tick instead), and the next thread that may run is elected; when the walk back to where
  -- it began finds none, the current thread itself if it may run, else the idle one. The walk begins
  -- behind the current thread, or behind the previous one if the processor is idle. No other thread
  -- changes.
  pub pok_sched_part_wrr_lem :
      suc low < high
      → high < u32_mod
      → high ≤ idle
      → IsKnown idle low high prev
      → IsKnown idle low high current
      → (prev ≢ idle) ⊎ (current ≢ idle)
      → high - low ≤ fuel
      → (r : Threads × ℕ) × (pok_sched_part_wrr fuel idle proc ts low high prev current ≡ some r)
        × IsWrr r
  pok_sched_part_wrr_lem two small out p c one enough =
      let (r, eq, h) = wrr_election two small out p c one enough in (r, eq, IsWrrTest-IsWrr r h)
