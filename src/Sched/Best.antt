-- ===== src/Sched/Best.antt =====
-- The loop of kernel/core/sched.c that keeps the thread of the greatest key among those that may run
-- on this processor: the key is `priority` in the static, PPS and PWRR elections and `mlfq_level` in
-- the MLFQ election.
use pok_lab.Common.{
  ℕ, ◌-◌, ◌≤◌, ◌<◌, ◌≡◌, ◌⊎◌, inl, inr, Bool, true, false, ◌&&◌, List, [], ◌∷◌, foldl, Option, ap,
  sym, subst, ◌∙◌, Bool-cases, some, arith, ◌==◌, if◌then◌else◌, ℤ, pos, ltb_ℤ, minus_one, ◌≤ℤ◌,
  u32_mod, refl,
}
use mathlib.Core.Option
use pok_lab.Types.{Threads, Thread, is_runnable}
use pok_lab.Sched.Ring.{scan, scan-ring, ring, ring-All, All-ring, All}

-- pok_threads[i].state == POK_STATE_RUNNABLE && pok_threads[i].processor_affinity == current_proc
abbrev pub eligible : Threads → ℕ → ℕ → Bool
eligible ts proc i = is_runnable (ts i).state && ((ts i).processor_affinity == proc)

-- The variables `max_prio`, an `int32_t`, and `max_thread`.
pub record Best : Type 0 where
  pub max_prio : ℤ
  pub max_thread : ℕ

-- One round: if the thread may run and its key is above `max_prio`, keep it.
unfoldable pub keep_best : Threads → (Thread → ℕ) → ℕ → Best → ℕ → Best
keep_best ts key proc b i =
    if eligible ts proc i && ltb_ℤ b.max_prio (pos (key (ts i)))
    then record { max_prio = pos (key (ts i)); max_thread = i }
    else b

-- max_prio >= 0 ? max_thread : IDLE_THREAD
abbrev pub choice : ℕ → Best → ℕ
choice idle b = if ltb_ℤ b.max_prio (pos 0) then idle else b.max_thread

-- `int32_t max_prio = -1; uint32_t max_thread = current_thread;`
abbrev pub no_best : ℕ → Best
no_best current = record { max_prio = minus_one; max_thread = current }

-- The loop from `from` on, and the choice behind it.
unfoldable pub elect_best : Threads → (Thread → ℕ) → ℕ → ℕ → ℕ → ℕ → ℕ → ℕ → ℕ → Option ℕ
elect_best ts key proc idle fuel low high from current =
    Option.map (choice idle)
      (scan (keep_best ts key proc) low high from fuel from (no_best current))

-- `from = current_thread != IDLE_THREAD ? current_thread : prev_thread;`
-- `if (prev_thread == IDLE_THREAD) from = index_low;`
unfoldable pub start_from : ℕ → ℕ → ℕ → ℕ → ℕ
start_from idle low prev current =
    if prev == idle then low else if current == idle then prev else current

-- Thread `e` may run on `proc`, lies in the partition, and no other such thread has a greater key.
pub record IsBest (ts : Threads) (key : Thread → ℕ) (proc low high e : ℕ) : Type 0 where
  pub may_run : eligible ts proc e ≡ true
  pub from_low : low ≤ e
  pub below_high : e < high
  pub greatest : (i : ℕ) → low ≤ i → i < high → eligible ts proc i ≡ true → key (ts i) ≤ key (ts e)

-- No thread of the partition may run on `proc`.
abbrev pub NoneEligible : Threads → ℕ → ℕ → ℕ → Type 0
NoneEligible ts proc low high = (i : ℕ) → low ≤ i → i < high → eligible ts proc i ≡ false

-- What an election answers: the best thread, or the idle thread if none may run.
abbrev pub IsElection : Threads → (Thread → ℕ) → ℕ → ℕ → ℕ → ℕ → ℕ → Type 0
IsElection ts key proc idle low high e =
    IsBest ts key proc low high e ⊎ ((e ≡ idle) × NoneEligible ts proc low high)

-- A thread that the partition records as its own: one of its threads, or the idle thread.
abbrev pub IsKnown : ℕ → ℕ → ℕ → ℕ → Type 0
IsKnown idle low high t = (t ≡ idle) ⊎ ((low ≤ t) × (t < high))

pub start_from-in_ring :
    (idle low high prev current : ℕ)
    → low < high
    → IsKnown idle low high prev
    → IsKnown idle low high current
    → (low ≤ start_from idle low prev current) × (start_from idle low prev current < high)
unfolding start_from
start_from-in_ring idle low high prev current h p c = ground arith

module _ (ts : Threads) (key : Thread → ℕ) (proc : ℕ) where
  -- The kept thread is the one before, or one of the partition that may run, with its key.
  abbrev Source : ℕ → ℕ → Best → Best → Type 0
  Source low high b r =
      (r ≡ b)
      ⊎ ((eligible ts proc r.max_thread ≡ true)
          × (r.max_prio ≡ pos (key (ts r.max_thread)))
          × (low ≤ r.max_thread)
          × (r.max_thread < high))

  abbrev Dominates : Best → ℕ → Type 0
  Dominates r i = eligible ts proc i ≡ true → pos (key (ts i)) ≤ℤ r.max_prio

  -- What the loop knows after the threads `xs`, begun with `b`.
  record Kept (low high : ℕ) (b : Best) (xs : List ℕ) (r : Best) : Type 0 where
    grows : b.max_prio ≤ℤ r.max_prio
    bounds : All (Dominates r) xs
    source : Source low high b r

  record Step (low high : ℕ) (b : Best) (x : ℕ) (r : Best) : Type 0 where
    grows : b.max_prio ≤ℤ r.max_prio
    bounds : Dominates r x
    source : Source low high b r

  keep_best-Step :
      (low high : ℕ) (b : Best) (x : ℕ)
      → low ≤ x
      → x < high
      → Step low high b x (keep_best ts key proc b x)
  unfolding keep_best
  keep_best-Step low high b x p q =
      elim (Bool-cases (eligible ts proc x && ltb_ℤ b.max_prio (pos (key (ts x))))) [
        | inl e ↦ rw e (record {
          grows = ground arith;
          bounds = ground arith;
          source = inr (ground arith, refl, p, q);
        })
        | inr e ↦ rw e (record { grows = ground arith; bounds = ground arith; source = inl refl })
      ]

  Source-trans :
      (low high : ℕ) {b c r : Best}
      → Source low high b c
      → Source low high c r
      → Source low high b r
  Source-trans low high (inl e) (inl e2) = inl (e2 ∙ e)
  Source-trans low high (inr s) (inl e2) = inr (
      subst
        (λ (r : Best).
          (eligible ts proc r.max_thread ≡ true)
          × (r.max_prio ≡ pos (key (ts r.max_thread)))
          × (low ≤ r.max_thread)
          × (r.max_thread < high))
        (sym e2) s)
  Source-trans low high _ (inr s) = inr s

  Kept-cons :
      (low high : ℕ) (b c r : Best) (x : ℕ) (xs : List ℕ)
      → Step low high b x c
      → Kept low high c xs r
      → Kept low high b (x ∷ xs) r
  Kept-cons low high b c r x xs s k = record {
    grows = omega arith;
    bounds = (λ e. ground (arith, s.bounds e), k.bounds);
    source = Source-trans low high s.source k.source;
  }

  foldl-Kept :
      (low high : ℕ) (b : Best) (xs : List ℕ)
      → All (λ i. (low ≤ i) × (i < high)) xs
      → Kept low high b xs (foldl (keep_best ts key proc) b xs)
  foldl-Kept low high b [] h = record { grows = omega arith; bounds = tt; source = inl refl }
  foldl-Kept low high b (x ∷ xs) h =
      Kept-cons low high b (keep_best ts key proc b x) _ x xs
        (keep_best-Step low high b x h.0.0 h.0.1)
        (foldl-Kept low high (keep_best ts key proc b x) xs h.1)

  module _ {low high from : ℕ} (in_ring : (low ≤ from) × (from < high))
      (small : high < u32_mod) where
    module _ (current : ℕ) (r : Best)
        (k : Kept low high (no_best current) (ring low high from) r) where
      dominated : (i : ℕ) → low ≤ i → i < high → Dominates r i
      dominated = ring-All in_ring small (Dominates r) k.bounds

      none_eligible : ltb_ℤ r.max_prio (pos 0) ≡ true → NoneEligible ts proc low high
      none_eligible e i p q = elim (Bool-cases (eligible ts proc i)) [
        | inl t ↦ absurd (above (dominated i p q t))
        | inr f ↦ f
      ]
        where
          above : pos (key (ts i)) ≤ℤ r.max_prio → ⊥
          above h = ground arith

      thread-IsBest :
          ltb_ℤ r.max_prio (pos 0) ≡ false
          → Source low high (no_best current) r
          → IsBest ts key proc low high r.max_thread
      thread-IsBest e (inl b) = absurd (ground (arith, ap (λ (b : Best). b.max_prio) b))
      thread-IsBest e (inr s) = record {
        may_run = s.0;
        from_low = s.2;
        below_high = s.3;
        greatest = λ i p q t. ground (arith, s.1, dominated i p q t);
      }

      choice-IsElection : (idle : ℕ) → IsElection ts key proc idle low high (choice idle r)
      choice-IsElection idle = elim (Bool-cases (ltb_ℤ r.max_prio (pos 0))) [
        | inl e ↦ rw e (inr (refl, none_eligible e))
        | inr e ↦ rw e (inl (thread-IsBest e k.source))
      ]

    -- The loop ends, with the best thread, or with the idle thread if none may run.
    pub elect_best_lem :
        (idle current fuel : ℕ)
        → high - low ≤ fuel
        → (e : ℕ) × (elect_best ts key proc idle fuel low high from current ≡ some e)
          × IsElection ts key proc idle low high e
    unfolding elect_best
    elect_best_lem idle current fuel h =
        let r = foldl (keep_best ts key proc) (no_best current) (ring low high from) in
        (
          choice idle r,
          ap (Option.map (choice idle)) (scan-ring in_ring small (keep_best ts key proc) fuel _ h),
          choice-IsElection current r
              (foldl-Kept low high _ (ring low high from)
                (All-ring in_ring small (λ i. (low ≤ i) × (i < high)) (λ i p q. (p, q))))
              idle,
        )
