-- ===== src/Sched/Edf.antt =====
-- `pok_sched_part_pedf` of kernel/core/sched.c: the election of the earliest absolute deadline.
use pok_lab.Common.{
  ℕ, ◌-◌, ◌≤◌, ◌<◌, ◌≡◌, ◌∙◌, refl, sym, ap, subst, ◌⊎◌, inl, inr, true, false, ◌&&◌, ◌||◌, List,
  [], ◌∷◌, foldl, Option, some, arith, ltb, leb, if◌then◌else◌, u32_mod, Bool-cases,
}
use mathlib.Core.Option
use pok_lab.Types.{Threads}
use pok_lab.Sched.Ring.{scan, scan-ring, ring, ring-All, All-ring, All}
use pok_lab.Sched.Best.{eligible, NoneEligible, IsKnown, start_from, start_from-in_ring}

-- The variables `earliest_ddl` and `max_thread`.
pub record Earliest : Type 0 where
  pub earliest_ddl : ℕ
  pub max_thread : ℕ

-- One round: a thread that may run is kept if its deadline is earlier, or if `earliest_ddl` is 0.
unfoldable pub keep_earliest : Threads → ℕ → Earliest → ℕ → Earliest
keep_earliest ts proc b i =
    if eligible ts proc i && (ltb (ts i).ddl b.earliest_ddl || leb b.earliest_ddl 0)
    then record { earliest_ddl = (ts i).ddl; max_thread = i }
    else b

-- earliest_ddl > 0 ? max_thread : IDLE_THREAD
abbrev pub choice : ℕ → Earliest → ℕ
choice idle b = if ltb 0 b.earliest_ddl then b.max_thread else idle

-- `uint64_t earliest_ddl = 0; uint32_t max_thread = IDLE_THREAD;`
abbrev pub no_earliest : ℕ → Earliest
no_earliest idle = record { earliest_ddl = 0; max_thread = idle }

unfoldable pub pok_sched_part_pedf : ℕ → ℕ → ℕ → Threads → ℕ → ℕ → ℕ → ℕ → Option ℕ
pok_sched_part_pedf fuel idle proc ts index_low index_high prev_thread current_thread =
    let from = start_from idle index_low prev_thread current_thread in
    Option.map (choice idle)
      (scan (keep_earliest ts proc) index_low index_high from fuel from (no_earliest idle))

-- Thread `e` may run, lies in the partition, and no other such thread has an earlier deadline.
pub record IsEarliest (ts : Threads) (proc low high e : ℕ) : Type 0 where
  pub may_run : eligible ts proc e ≡ true
  pub from_low : low ≤ e
  pub below_high : e < high
  pub earliest : (i : ℕ) → low ≤ i → i < high → eligible ts proc i ≡ true → (ts e).ddl ≤ (ts i).ddl

-- Every thread of the partition that may run has a deadline.
abbrev pub HaveDeadlines : Threads → ℕ → ℕ → ℕ → Type 0
HaveDeadlines ts proc low high =
    (i : ℕ) → low ≤ i → i < high → eligible ts proc i ≡ true → 0 < (ts i).ddl

module _ (ts : Threads) (proc low high : ℕ) where
  abbrev Source : Earliest → Earliest → Type 0
  Source b r =
      (r ≡ b)
      ⊎ ((eligible ts proc r.max_thread ≡ true)
          × (r.earliest_ddl ≡ (ts r.max_thread).ddl)
          × (low ≤ r.max_thread)
          × (r.max_thread < high))

  Source-trans : {b c r : Earliest} → Source b c → Source c r → Source b r
  Source-trans (inl e) (inl e2) = inl (e2 ∙ e)
  Source-trans (inr s) (inl e2) = inr (
      subst
        (λ (r : Earliest).
          (eligible ts proc r.max_thread ≡ true)
          × (r.earliest_ddl ≡ (ts r.max_thread).ddl)
          × (low ≤ r.max_thread)
          × (r.max_thread < high))
        (sym e2) s)
  Source-trans _ (inr s) = inr s

  -- The kept deadline is the thread's or earlier, and is one.
  abbrev Covers : Earliest → ℕ → Type 0
  Covers r i = eligible ts proc i ≡ true → (0 < r.earliest_ddl) × (r.earliest_ddl ≤ (ts i).ddl)

  record Kept (b : Earliest) (xs : List ℕ) (r : Earliest) : Type 0 where
    falls : 0 < b.earliest_ddl → (0 < r.earliest_ddl) × (r.earliest_ddl ≤ b.earliest_ddl)
    bounds : All (Covers r) xs
    source : Source b r

  record Step (b : Earliest) (x : ℕ) (r : Earliest) : Type 0 where
    falls : 0 < b.earliest_ddl → (0 < r.earliest_ddl) × (r.earliest_ddl ≤ b.earliest_ddl)
    bounds : Covers r x
    source : Source b r

  keep_earliest-Step :
      (b : Earliest) (x : ℕ)
      → (eligible ts proc x ≡ true → 0 < (ts x).ddl)
      → low ≤ x
      → x < high
      → Step b x (keep_earliest ts proc b x)
  unfolding keep_earliest
  keep_earliest-Step b x d p q =
      elim (Bool-cases
        (eligible ts proc x && (ltb (ts x).ddl b.earliest_ddl || leb b.earliest_ddl 0))) [
          | inl e ↦ rw e (record {
            falls = λ h. ground (arith, d);
            bounds = λ t. ground (arith, d t);
            source = inr (ground arith, refl, p, q);
          })
          | inr e ↦ rw e (record {
            falls = λ h. ground arith;
            bounds = λ t. ground (arith, d t);
            source = inl refl;
          })
        ]

  Kept-cons :
      (b c r : Earliest) (x : ℕ) (xs : List ℕ) → Step b x c → Kept c xs r → Kept b (x ∷ xs) r
  Kept-cons b c r x xs s k = record {
    falls = λ h. ground (arith, s.falls h, k.falls);
    bounds = (λ e. ground (arith, s.bounds e, k.falls), k.bounds);
    source = Source-trans s.source k.source;
  }

  foldl-Kept :
      (b : Earliest) (xs : List ℕ)
      → HaveDeadlines ts proc low high
      → All (λ i. (low ≤ i) × (i < high)) xs
      → Kept b xs (foldl (keep_earliest ts proc) b xs)
  foldl-Kept b [] d h = record { falls = λ p. ground arith; bounds = tt; source = inl refl }
  foldl-Kept b (x ∷ xs) d h =
      Kept-cons b (keep_earliest ts proc b x) _ x xs
        (keep_earliest-Step b x (d x h.0.0 h.0.1) h.0.0 h.0.1)
        (foldl-Kept (keep_earliest ts proc b x) xs d h.1)

  foldl-skip :
      (b : Earliest) (xs : List ℕ)
      → All (λ i. eligible ts proc i ≡ false) xs
      → foldl (keep_earliest ts proc) b xs ≡ b
  unfolding keep_earliest
  foldl-skip b [] h = refl
  foldl-skip b (x ∷ xs) h = rw h.0 (foldl-skip b xs h.1)

  keep_earliest-zero :
      (b : Earliest) (x : ℕ)
      → eligible ts proc x ≡ true
      → (ts x).ddl ≡ 0
      → (keep_earliest ts proc b x).earliest_ddl ≡ 0
  unfolding keep_earliest
  keep_earliest-zero b x t z = ground (arith, t, z)

module _ (fuel idle proc : ℕ) (ts : Threads) (low high prev current : ℕ) (filled : low < high)
    (small : high < u32_mod) (p : IsKnown idle low high prev) (c : IsKnown idle low high current)
    (enough : high - low ≤ fuel) where
  abbrev from : ℕ
  from = start_from idle low prev current

  in_ring : (low ≤ from) × (from < high)
  in_ring = start_from-in_ring idle low high prev current filled p c

  abbrev last : Earliest
  last = foldl (keep_earliest ts proc) (no_earliest idle) (ring low high from)

  pedf-last : pok_sched_part_pedf fuel idle proc ts low high prev current ≡ some (choice idle last)
  unfolding pok_sched_part_pedf
  pedf-last =
      ap (Option.map (choice idle))
        (scan-ring in_ring small (keep_earliest ts proc) fuel (no_earliest idle) enough)

  module _ (r : Earliest)
      (k : Kept ts proc low high (no_earliest idle) (ring low high from) r) where
    covered : (i : ℕ) → low ≤ i → i < high → Covers ts proc low high r i
    covered = ring-All in_ring small (Covers ts proc low high r) k.bounds

    none_eligible : ltb 0 r.earliest_ddl ≡ false → NoneEligible ts proc low high
    none_eligible e i a b = elim (Bool-cases (eligible ts proc i)) [
      | inl t ↦ absurd (above (covered i a b t).0)
      | inr f ↦ f
    ]
      where
        above : 0 < r.earliest_ddl → ⊥
        above h = ground arith

    thread-IsEarliest :
        ltb 0 r.earliest_ddl ≡ true
        → Source ts proc low high (no_earliest idle) r
        → IsEarliest ts proc low high r.max_thread
    thread-IsEarliest e (inl b) = absurd (ground (arith, ap (λ (b : Earliest). b.earliest_ddl) b))
    thread-IsEarliest e (inr s) = record {
      may_run = s.0;
      from_low = s.2;
      below_high = s.3;
      earliest = λ i a b t. ground (arith, s.1, covered i a b t);
    }

    choice-IsEarliest :
        IsEarliest ts proc low high (choice idle r)
        ⊎ ((choice idle r ≡ idle) × NoneEligible ts proc low high)
    choice-IsEarliest = elim (Bool-cases (ltb 0 r.earliest_ddl)) [
      | inl e ↦ rw e (inl (thread-IsEarliest e k.source))
      | inr e ↦ rw e (inr (refl, none_eligible e))
    ]

  -- If every thread of the partition that may run has a deadline, the EDF election ends within one
  -- round and elects one of these threads whose absolute deadline no other precedes, or the idle
  -- thread if none may run.
  pub pok_sched_part_pedf_lem :
      HaveDeadlines ts proc low high
      → (e : ℕ) × (pok_sched_part_pedf fuel idle proc ts low high prev current ≡ some e)
        × (IsEarliest ts proc low high e ⊎ ((e ≡ idle) × NoneEligible ts proc low high))
  pok_sched_part_pedf_lem d = (
    choice idle last,
    pedf-last,
    choice-IsEarliest last (
        foldl-Kept ts proc low high (no_earliest idle) (ring low high from) d
          (All-ring in_ring small (λ i. (low ≤ i) × (i < high)) (λ i a b. (a, b)))),
  )
