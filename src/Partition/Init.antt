-- ===== src/Partition/Init.antt =====
-- `pok_partition_init` of kernel/core/partition.c: the loop over the partitions.
use pok_lab.Common.{
  ℕ, zero, suc, ◌+◌, ◌-◌, ◌≤◌, ◌<◌, ◌≡◌, ◌≢◌, refl, sym, subst, ap, ◌∙◌, some, ◌>>=◌, arith, u8,
  u32, u32_mod, ℕ_discrete,
}
use pok_lab.Types.{ok}
use pok_lab.Kernel.{Config, Kernel, Now}
use pok_lab.Thread.{Machine}
use pok_lab.Partition.{Build, Uninit, init_partition, init_from, pok_partition_init}
use pok_lab.Partition.Ranges.{before, HasProc, IsInitial, IsMain, init_partition_lem}

-- All partitions from the first one to the one before `n`.
pub record CanStart (m : Machine) (b : Build) (n : ℕ) : Type 0 where
  pub procs : (i : ℕ) → i < n → (proc : ℕ) × HasProc m i proc
  pub some_threads : (i : ℕ) → i < n → 0 < b.nthreads i
  pub few : before b.nthreads n < u32_mod
  pub few_locks : before b.nlockobjs n < 256

before-next : (f : ℕ → ℕ) (i : ℕ) → before f (i + 1) ≡ before f i + f i
before-next f i = ap (before f) (one_more i)
  where
    one_more : (i : ℕ) → i + 1 ≡ suc i
    one_more i = omega arith

before_mono : (f : ℕ → ℕ) (i d : ℕ) → before f i ≤ before f (d + i)
before_mono f i zero = subst (λ j. before f i ≤ before f j) (from_zero i) (omega arith)
  where
    from_zero : (i : ℕ) → i ≡ zero + i
    from_zero i = omega arith
before_mono f i (suc d) =
    subst (λ j. before f i ≤ before f j) (out d i) (omega (arith, before_mono f i d))
  where
    out : (d i : ℕ) → suc (d + i) ≡ suc d + i
    out d i = omega arith

before_le : (f : ℕ → ℕ) (i n : ℕ) → i ≤ n → before f i ≤ before f n
before_le f i n l = subst (λ j. before f i ≤ before f j) (rest i n l) (before_mono f i (n - i))
  where
    rest : (i n : ℕ) → i ≤ n → n - i + i ≡ n
    rest i n l = omega arith

-- The partition and its main thread are the same in both kernels.
same-IsMain :
    (b : Build) (i : ℕ) (k k' : Kernel)
    → k'.threads (before b.nthreads i) ≡ k.threads (before b.nthreads i)
    → IsMain b i k
    → IsMain b i k'
same-IsMain b i k k' thread main = record {
  owner = ap (λ t. t.partition) thread ∙ main.owner;
  runs = ap (λ t. t.state) thread ∙ main.runs;
  entry = ap (λ t. t.entry) thread ∙ main.entry;
}

-- What the loop leaves from the partition `i` on.
record Inits (b : Build) (top i : ℕ) (k k' : Kernel) : Type 0 where
  made : (j : ℕ) → i ≤ j → j < top → IsInitial b j (k'.partitions j) × IsMain b j k'
  earlier : (j : ℕ) → j < i → k'.partitions j ≡ k.partitions j
  below : (j : ℕ) → j < before b.nthreads i → k'.threads j ≡ k.threads j

module _ (m : Machine) (c : Config) (b : Build) (w : Now) (u : Uninit) (top : ℕ)
    (can : CanStart m b top) where
  one_more :
      (i : ℕ) (k k1 k2 : Kernel)
      → i < top
      → IsInitial b i (k1.partitions i)
      → IsMain b i k1
      → ((j : ℕ) → j ≢ i → k1.partitions j ≡ k.partitions j)
      → ((j : ℕ) → j < before b.nthreads i → k1.threads j ≡ k.threads j)
      → Inits b top (i + 1) k1 k2
      → Inits b top i k k2
  one_more i k k1 k2 l initial main others below rest = record {
    made = λ j from to. elim (ℕ_discrete j i) [
      | yes here ↦ subst (λ n. IsInitial b n (k2.partitions n) × IsMain b n k2) (sym here) own
      | no away ↦ rest.made j (omega arith) to
    ];
    earlier = λ j before. rest.earlier j (omega arith) ∙ others j (omega arith);
    below = λ j low. rest.below j (omega (arith, before-next b.nthreads i)) ∙ below j low;
  }
    where
      own : IsInitial b i (k2.partitions i) × IsMain b i k2
      own = (
        subst (IsInitial b i) (sym (rest.earlier i (omega arith))) initial,
        same-IsMain b i k1 k2
            (rest.below (before b.nthreads i)
              (omega (arith, before-next b.nthreads i, can.some_threads i l)))
            main,
      )

  init_from_lem :
      (n i threads_index lockobj_index : ℕ) (k : Kernel)
      → i + n ≡ top
      → threads_index ≡ before b.nthreads i
      → lockobj_index ≡ before b.nlockobjs i
      → (k' : Kernel) × (init_from n m c b w u i threads_index lockobj_index k ≡ some k')
        × Inits b top i k k'
  unfolding init_from
  init_from_lem zero i ti li k count et el = (
    k,
    refl,
    record { made = λ j l h. absurd (omega arith); earlier = λ j l. refl; below = λ j l. refl },
  )
  init_from_lem (suc n) i ti li k count et el =
      let (proc, has) = can.procs i (omega arith) in
      let few : before b.nthreads (suc i) < u32_mod =
        omega (arith, can.few, before_le b.nthreads (suc i) top (omega arith)) in
      let few_locks : before b.nlockobjs (suc i) < 256 =
        omega (arith, can.few_locks, before_le b.nlockobjs (suc i) top (omega arith)) in
      let (k1, done, initial, main, others, below) =
        init_partition_lem m c b w u i proc k has (can.some_threads i (omega arith)) few
          few_locks in
      let (k2, rest, inits) =
        init_from_lem n (i + 1) (u32 (ti + b.nthreads i)) (u8 (li + u8 (b.nlockobjs i))) k1
          (omega arith) (omega (arith, et, few, before-next b.nthreads i))
          (omega (arith, el, few_locks, before-next b.nlockobjs i)) in
      (
        k2,
        ap
              (λ o. o >>= λ k'.
                init_from n m c b w u (i + 1) (u32 (ti + b.nthreads i))
                  (u8 (li + u8 (b.nlockobjs i))) k')
              (ap (λ x. init_partition m c b w u i x li k) et
                ∙ ap (λ y. init_partition m c b w u i (before b.nthreads i) y k) el
                ∙ done)
            ∙ rest,
        one_more i k k1 k2 (omega arith) initial main others below inits,
      )

-- The partitions do not share a thread or a lock object: each one's ranges end where the next one's
-- begin, whatever the kernel was before; each main thread belongs to its partition, is runnable, and has
-- the entry that the loader gave for the partition and the distance between its two addresses; each partition is in the mode INIT_WARM and has no handler of errors.
-- This holds where the default processors exist, no partition is without threads, and the numbers of
-- threads and of lock objects stay below the 32 and the 8 bits that they are counted in.
pub pok_partition_init_lem :
    (m : Machine) (c : Config) (b : Build) (w : Now) (u : Uninit) (k : Kernel)
    → CanStart m b c.nb_partitions
    → (k' : Kernel) × (pok_partition_init m c b w u k ≡ some (k', ok))
      × ((j : ℕ) → j < c.nb_partitions → IsInitial b j (k'.partitions j) × IsMain b j k')
      × ((i j : ℕ)
          → i < j
          → j < c.nb_partitions
          → ((k'.partitions i).thread_index_high ≤ (k'.partitions j).thread_index_low)
            × ((k'.partitions i).lockobj_index_high ≤ (k'.partitions j).lockobj_index_low))
unfolding pok_partition_init
pok_partition_init_lem m c b w u k can =
    let (k', done, inits) =
      init_from_lem m c b w u c.nb_partitions can c.nb_partitions 0 0 0 k (omega arith) refl refl in
    (
      k',
      ap (λ o. o >>= λ k''. some (k'', ok)) done,
      λ j l. inits.made j (omega arith) l,
      λ i j l h.
          let p = (inits.made i (omega arith) (omega arith)).0 in
          let q = (inits.made j (omega arith) h).0 in
          (
            omega (arith, p.high, q.low, before_le b.nthreads (suc i) j l),
            omega (arith, p.lock_high, q.lock_low, before_le b.nlockobjs (suc i) j l),
          ),
    )
