-- ===== src/Sched/Global/Elect.antt =====
-- The partition that the priority and the deadline elections of kernel/core/sched.c choose.
use pok_lab.Common.{
  ℕ, zero, suc, ◌+◌, ◌%◌, ◌≤◌, ◌<◌, ◌≡◌, ◌≢◌, ◌∙◌, refl, ap, ◌⊎◌, inl, inr, Bool, true, false, some,
  arith, ltb, ◌==◌, if◌then◌else◌, u8, u32, Bool-cases, ℕ_discrete, update,
}
use pok_lab.Types.{Threads, Partition, Partitions, is_runnable}
use pok_lab.Sched.Global.{
  Elected, add_priorities, with_priority, caculate_and_update_priority, greatest_priority,
  pok_sched_part_global_pps, activate_waiting_threads,
}

-- The sum of the priorities of the runnable threads from `low + j` on, `n` of them, with no bound.
unfoldable pub sum_runnable : Threads → ℕ → ℕ → ℕ → ℕ
sum_runnable ts low zero j = 0
sum_runnable ts low (suc n) j =
    (if is_runnable (ts (u32 (low + j))).state then (ts (u32 (low + j))).priority else 0)
    + sum_runnable ts low n (j + 1)

add_priorities-eq-sum :
    (ts : Threads) (low n j acc : ℕ)
    → acc < 256
    → add_priorities ts low n j acc ≡ (acc + sum_runnable ts low n j) % 256
unfolding add_priorities sum_runnable
add_priorities-eq-sum ts low zero j acc h = omega arith
add_priorities-eq-sum ts low (suc n) j acc h =
    elim (Bool-cases (is_runnable (ts (u32 (low + j))).state)) [
      | inl r ↦ rw r (
          omega (
            arith,
            add_priorities-eq-sum ts low n (j + 1) (u8 (acc + (ts (u32 (low + j))).priority))
                (omega arith),
          ))
      | inr s ↦ rw s (omega (arith, add_priorities-eq-sum ts low n (j + 1) acc h))
    ]

-- A claim at `i` and at each of the `n` numbers behind it.
at_or_after {ℓ} :
    (P : ℕ → Type ℓ) (i n : ℕ)
    → P i
    → ((j : ℕ) → i + 1 ≤ j → j < i + 1 + n → P j)
    → (j : ℕ) → i ≤ j
    → j < i + suc n
    → P j
at_or_after P i n here after j p q = elim (ℕ_discrete j i) [
  | yes e ↦ rw e here
  | no ne ↦ after j (omega arith) (omega arith)
]

update_self {ℓ} : {A : Type ℓ} (f : ℕ → A) (i : ℕ) (v : A) → update f i v i ≡ v
update_self f i v = rw same
  where
    same : (i == i) ≡ true
    same = ground arith

update-ne {ℓ} : {A : Type ℓ} (f : ℕ → A) (i j : ℕ) (v : A) → j ≢ i → update f i v j ≡ f j
update-ne f i j v ne = rw other
  where
    other : (j == i) ≡ false
    other = ground arith

caculate_priority-before :
    (ts : Threads) (n i : ℕ) (ps : Partitions) (p : ℕ)
    → p < i
    → caculate_and_update_priority ts n i ps p ≡ ps p
unfolding caculate_and_update_priority
caculate_priority-before ts zero i ps p h = refl
caculate_priority-before ts (suc n) i ps p h =
    caculate_priority-before ts n (i + 1) _ p (omega arith) ∙ update-ne ps i p _ (omega arith)

-- The update gives each partition the sum of its runnable threads' priorities, modulo 256.
pub priority-caculate :
    (ts : Threads) (n i : ℕ) (ps : Partitions) (p : ℕ)
    → i ≤ p
    → p < i + n
    → (caculate_and_update_priority ts n i ps p).priority
      ≡ sum_runnable ts (ps p).thread_index_low (ps p).nthreads 0 % 256
unfolding caculate_and_update_priority
priority-caculate ts zero i ps p h k = absurd (omega arith)
priority-caculate ts (suc n) i ps p h k = elim (ℕ_discrete p i) [
  | yes e ↦ rw e (
      ap (λ (q : Partition). q.priority)
        (caculate_priority-before ts n (i + 1) _ i (omega arith)
          ∙ update_self ps i (with_priority ts (ps i)))
      ∙ omega (arith, add_priorities-eq-sum ts (ps i).thread_index_low (ps i).nthreads 0 0))
  | no ne ↦
      priority-caculate ts n (i + 1) _ p (omega arith) (omega arith)
      ∙ ap (λ (q : Partition). sum_runnable ts q.thread_index_low q.nthreads 0 % 256)
          (update-ne ps i p _ ne)
]

module _ (ps : Partitions) where
  -- The partition `r` that the loop over the `n` partitions from `i` on elects, begun with `max` and
  -- `next`: `next` if none exceeds `max`, or else the first of the greatest priority.
  abbrev IsGreatest : ℕ → ℕ → ℕ → ℕ → ℕ → Type 0
  IsGreatest n i max next r =
      ((r ≡ next) × ((j : ℕ) → i ≤ j → j < i + n → (ps j).priority ≤ max))
      ⊎ ((i ≤ r)
          × (r < i + n)
          × (max < (ps r).priority)
          × ((j : ℕ) → i ≤ j → j < i + n → (ps j).priority ≤ (ps r).priority)
          × ((j : ℕ) → i ≤ j → j < r → (ps j).priority < (ps r).priority))

  greatest_priority_lem :
      (n i max next : ℕ) → IsGreatest n i max next (greatest_priority ps n i max next)
  unfolding greatest_priority
  greatest_priority_lem zero i max next = inl (refl, λ j p q. absurd (omega arith))
  greatest_priority_lem (suc n) i max next = elim (Bool-cases (ltb max (ps i).priority)) [
    | inl up ↦ rw up (higher up _ (greatest_priority_lem n (i + 1) (ps i).priority i))
    | inr down ↦ rw down (lower down _ (greatest_priority_lem n (i + 1) max next))
  ]
    where
      higher :
          ltb max (ps i).priority ≡ true
          → (r : ℕ) → IsGreatest n (i + 1) (ps i).priority i r
          → IsGreatest (suc n) i max next r
      higher up r (inl (e, h)) = inr (
        omega arith,
        omega arith,
        rw e (ground arith),
        at_or_after (λ j. (ps j).priority ≤ (ps r).priority) i n (rw e (omega arith))
            (λ j a b. rw e (h j a b)),
        λ j a b. absurd (omega arith),
      )
      higher up r (inr (p, q, m, g, f)) = inr (
        omega arith,
        omega arith,
        ground (arith, m),
        at_or_after (λ j. (ps j).priority ≤ (ps r).priority) i n (omega arith) g,
        λ j a b.
            at_or_after (λ j. j < r → (ps j).priority < (ps r).priority) i n (λ _. m)
              (λ j a b c. f j a c) j a (omega arith) b,
      )

      lower :
          ltb max (ps i).priority ≡ false
          → (r : ℕ) → IsGreatest n (i + 1) max next r
          → IsGreatest (suc n) i max next r
      lower down r (inl (e, h)) =
          inl (e, at_or_after (λ j. (ps j).priority ≤ max) i n (ground arith) h)
      lower down r (inr (p, q, m, g, f)) = inr (
        omega arith,
        omega arith,
        m,
        at_or_after (λ j. (ps j).priority ≤ (ps r).priority) i n (ground (arith, m)) g,
        λ j a b.
            at_or_after (λ j. j < r → (ps j).priority < (ps r).priority) i n
              (λ _. ground (arith, m)) (λ j a b c. f j a c) j a (omega arith) b,
      )

-- The load that the priority election compares: the sum of the priorities of the partition's runnable
-- threads, as the byte that holds it.
abbrev pub load : Threads → Partitions → ℕ → ℕ
load ts ps p = sum_runnable ts (ps p).thread_index_low (ps p).nthreads 0 % 256

-- Partition `r` is the first of the greatest load among the first `nb`; or all loads are 0, and `r`
-- is the current one.
abbrev pub IsHeaviest : (ℕ → ℕ) → ℕ → ℕ → ℕ → Type 0
IsHeaviest load nb current r =
    ((r ≡ current) × ((p : ℕ) → p < nb → load p ≡ 0))
    ⊎ ((r < nb)
        × (0 < load r)
        × ((p : ℕ) → p < nb → load p ≤ load r)
        × ((p : ℕ) → p < r → load p < load r))

heaviest :
    (us : Threads) (ps : Partitions) (nb current r : ℕ)
    → IsGreatest (caculate_and_update_priority us nb 0 ps) nb 0 0 current r
    → IsHeaviest (load us ps) nb current r
heaviest us ps nb current r (inl (e, h)) = inl (
  e,
  λ p l. omega (
    arith,
    h p (omega arith) (omega arith),
    priority-caculate us nb 0 ps p (omega arith) (omega arith),
  ),
)
heaviest us ps nb current r (inr (a, b, m, g, f)) = inr (
  omega arith,
  omega (arith, m, at_most r (omega arith)),
  λ p l. omega (arith, g p (omega arith) (omega arith), at_most p l, at_most r (omega arith)),
  λ p l. omega (arith, f p (omega arith) l, at_most p (omega arith), at_most r (omega arith)),
)
  where
    at_most : (p : ℕ) → p < nb → (caculate_and_update_priority us nb 0 ps p).priority ≡ load us ps p
    at_most p l = priority-caculate us nb 0 ps p (omega arith) (omega arith)

-- When the threads have been activated, the priority election of partitions elects the first one of
-- the greatest load. If all loads are 0 it stays with the current partition.
pub pok_sched_part_global_pps_lem :
    (fuel : ℕ) (needs_locks : Bool) (proc now nb : ℕ) (ts : Threads) (ps : Partitions) (current : ℕ)
    (us : Threads)
    → activate_waiting_threads needs_locks proc now ps nb fuel ts ≡ some us
    → (r : Elected) × (pok_sched_part_global_pps fuel needs_locks proc now nb ts ps current
        ≡ some r)
      × (r.threads ≡ us)
      × IsHeaviest (load us ps) nb current r.partition
unfolding pok_sched_part_global_pps
pok_sched_part_global_pps_lem fuel needs_locks proc now nb ts ps current us e = (
  record {
    threads = us;
    partitions = caculate_and_update_priority us nb 0 ps;
    partition = greatest_priority (caculate_and_update_priority us nb 0 ps) nb 0 0 current;
  },
  rw e refl,
  refl,
  heaviest us ps nb current _
      (greatest_priority_lem (caculate_and_update_priority us nb 0 ps) nb 0 0 current),
)

-- A partition whose runnable threads' priorities add up to 256 loses the election to every partition
-- of a load above 0, however low.
pub pps_overflow :
    (fuel : ℕ) (needs_locks : Bool) (proc now nb : ℕ) (ts : Threads) (ps : Partitions) (current : ℕ)
    (us : Threads) (p q : ℕ)
    → activate_waiting_threads needs_locks proc now ps nb fuel ts ≡ some us
    → sum_runnable us (ps p).thread_index_low (ps p).nthreads 0 ≡ 256
    → q < nb
    → 0 < load us ps q
    → (r : Elected) × (pok_sched_part_global_pps fuel needs_locks proc now nb ts ps current
        ≡ some r)
      × (r.partition ≢ p)
pps_overflow fuel needs_locks proc now nb ts ps current us p q e full lq light =
    let (r, eq, t, h) =
      pok_sched_part_global_pps_lem fuel needs_locks proc now nb ts ps current us e in
    (r, eq, λ same. beaten r.partition same h)
  where
    beaten : (r : ℕ) → r ≡ p → IsHeaviest (load us ps) nb current r → ⊥
    beaten r same (inl (c, z)) = omega (arith, z q lq)
    beaten r same (inr (l, pos, g, f)) = omega (arith, pos, ap (load us ps) same, full)
