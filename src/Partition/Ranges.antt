-- ===== src/Partition/Ranges.antt =====
-- What `pok_partition_init` of kernel/core/partition.c gives to each partition.
use pok_lab.Common.{
  ℕ, zero, suc, ◌+◌, ◌<◌, ◌≡◌, ◌≢◌, inl, sym, ap, ◌∙◌, Bool, true, some, ◌>>=◌, ◌-◌, ◌%◌, ◌&&◌,
  mod_below, arith, ltb, ◌==◌, if◌then◌else◌, update_at, update_off, u32_mod,
}
use pok_lab.Types.{runnable, Partition, init_warm, is_init, Errno}
use pok_lab.Kernel.{Config, Kernel, Now, set_partition}
use pok_lab.Processors.{bit, get_proc_real_id, get_default_proc_real_id}
use pok_lab.Thread.{Machine}
use pok_lab.Thread.Create.{create_in, count_thread, proc_allowed}
use pok_lab.Thread.Create.Known.{
  MayCreate, next_id, create_ok, create_in-partition, create_in-other, create_in-below,
  create_in-first,
}
use pok_lab.Partition.{
  Build, Uninit, init_partition, fill, main_attr, prepared, pok_partition_setup_main_thread,
}

-- The sum of the first `i` numbers.
abbrev pub before : (ℕ → ℕ) → ℕ → ℕ
before f zero = 0
before f (suc i) = before f i + f i

-- The default processor of the partition exists, and the partition may use it.
pub record HasProc (m : Machine) (i proc : ℕ) : Type 0 where
  pub real : get_proc_real_id m.processor_affinity i 0 ≡ some proc
  pub exists :
      (if m.multiprocessing_system == 0 then proc == 0 else ltb proc m.multiprocessing_system)
      ≡ true
  pub own : (bit (m.processor_affinity i) proc == 1) ≡ true

-- Where the loader finds the main thread of partition `i`, with the distance from the partition's
-- addresses to those of the memory, in 32 bits.
abbrev pub loaded_entry : Build → ℕ → ℕ
loaded_entry b i = b.load i ((b.base_addr i + u32_mod - b.base_vaddr i) % u32_mod)

-- The partition has its own threads and lock objects, behind those of the partitions before, its main
-- thread is the first of its threads, and it is in the mode INIT_WARM.
pub record IsInitial (b : Build) (i : ℕ) (p : Partition) : Type 0 where
  pub low : p.thread_index_low ≡ before b.nthreads i
  pub high : p.thread_index_high ≡ before b.nthreads (suc i)
  pub index : p.thread_index ≡ 1
  pub main : p.thread_main ≡ before b.nthreads i
  pub lock_low : p.lockobj_index_low ≡ before b.nlockobjs i
  pub lock_high : p.lockobj_index_high ≡ before b.nlockobjs (suc i)
  pub no_handler : p.thread_error ≡ 0
  pub in_mode : p.mode ≡ init_warm
  pub entry : p.thread_main_entry ≡ loaded_entry b i

-- The main thread.
pub record IsMain (b : Build) (i : ℕ) (k : Kernel) : Type 0 where
  pub owner : (k.threads (before b.nthreads i)).partition ≡ i
  pub runs : (k.threads (before b.nthreads i)).state ≡ runnable
  pub entry : (k.threads (before b.nthreads i)).entry ≡ loaded_entry b i

-- The main thread is made where a thread may be.
pub main_lem :
    (m : Machine) (w : Now) (u : Uninit) (pid proc : ℕ) (k : Kernel)
    → MayCreate m k (main_attr u (k.partitions pid).thread_main_entry) pid proc
    → pok_partition_setup_main_thread m w u pid k
      ≡ some (
          set_partition
            (create_in m w pid
              (main_attr u (k.partitions pid).thread_main_entry)
              (next_id k pid)
              proc
              k)
            pid
            (λ p. record p { thread_main = next_id k pid }))
unfolding pok_partition_setup_main_thread
main_lem m w u pid proc k may =
    ap
      (λ o. o >>= λ (r : Kernel × Errno × ℕ).
        some (set_partition r.0 pid (λ p. record p { thread_main = r.2 })))
      (create_ok m w u.thread_id (main_attr u (k.partitions pid).thread_main_entry) pid proc k may)

module _ (m : Machine) (c : Config) (b : Build) (w : Now) (u : Uninit) (i proc : ℕ) (k : Kernel)
    (has : HasProc m i proc) (some_threads : 0 < b.nthreads i)
    (few : before b.nthreads (suc i) < u32_mod) (few_locks : before b.nlockobjs (suc i) < 256) where
  abbrev t : ℕ
  t = before b.nthreads i

  abbrev own : Partition
  own = prepared c b proc i t (before b.nlockobjs i) (k.partitions i)

  -- Before the main thread is made.
  abbrev set_up : Kernel
  set_up = record (set_partition k i (λ p. own)) {
    current_threads = fill c.nb_processors (λ _. c.nb_threads - 1) k.current_threads;
  }

  set_up_own : set_up.partitions i ≡ own
  set_up_own = update_at k.partitions i own

  may : MayCreate m set_up (main_attr u (set_up.partitions i).thread_main_entry) i proc
  may = record {
    in_time = inl (ap (λ (p : Partition). is_init p.mode) set_up_own);
    room = omega (
      arith,
      some_threads,
      few,
      ap (λ (p : Partition). p.thread_index_low) set_up_own,
      ap (λ (p : Partition). p.thread_index) set_up_own,
      ap (λ (p : Partition). p.thread_index_high) set_up_own,
    );
    small = omega (arith, few, ap (λ (p : Partition). p.thread_index_high) set_up_own);
    real = has.real;
    allowed =
        ap (λ (p : Partition). proc_allowed m p i (main_attr u p.thread_main_entry) proc) set_up_own
        ∙ all_true _ _ own.thread_main_entry proc has.exists has.own;
  }
    where
      all_true :
          (x y : Bool) (e n : ℕ)
          → x ≡ true
          → y ≡ true
          → x && y && (if e == e then n == n else true) ≡ true
      all_true x y e n hx hy = ground (arith, hx, hy)

  -- The partition and its main thread, when that one is made.
  abbrev made : Kernel
  made =
      create_in m w i (main_attr u (set_up.partitions i).thread_main_entry) (next_id set_up i) proc
        set_up

  abbrev started : Kernel
  started = set_partition made i (λ p. record p { thread_main = next_id set_up i })

  first_id : next_id set_up i ≡ t
  first_id = ap (λ (p : Partition). p.thread_index_low + p.thread_index) set_up_own ∙ omega arith

  started_own : started.partitions i ≡ record (count_thread own) { thread_main = next_id set_up i }
  started_own =
      update_at made.partitions i _
      ∙ ap (λ (p : Partition). record p { thread_main = next_id set_up i })
          (create_in-partition m w i (main_attr u (set_up.partitions i).thread_main_entry)
              (next_id set_up i) proc set_up
            ∙ ap count_thread set_up_own)

  started-IsInitial : IsInitial b i (started.partitions i)
  started-IsInitial = record {
    low = ap (λ (p : Partition). p.thread_index_low) started_own;
    high = ap (λ (p : Partition). p.thread_index_high) started_own ∙ mod_below _ u32_mod few;
    index = ap (λ (p : Partition). p.thread_index) started_own ∙ omega arith;
    main = ap (λ (p : Partition). p.thread_main) started_own ∙ first_id;
    lock_low = ap (λ (p : Partition). p.lockobj_index_low) started_own;
    lock_high = ap (λ (p : Partition). p.lockobj_index_high) started_own ∙ omega (arith, few_locks);
    no_handler = ap (λ (p : Partition). p.thread_error) started_own;
    in_mode = ap (λ (p : Partition). p.mode) started_own;
    entry = ap (λ (p : Partition). p.thread_main_entry) started_own;
  }

  started-IsMain : IsMain b i started
  started-IsMain =
      let first =
        create_in-first m w i (main_attr u (set_up.partitions i).thread_main_entry)
          (next_id set_up i) proc set_up low_id in
      record {
        owner = ap (λ n. (made.threads n).partition) (sym first_id) ∙ first.0;
        runs = ap (λ n. (made.threads n).state) (sym first_id) ∙ first.1;
        entry =
            ap (λ n. (made.threads n).entry) (sym first_id)
            ∙ first.2
            ∙ ap (λ (p : Partition). p.thread_main_entry) set_up_own;
      }
    where
      low_id : (set_up.partitions i).thread_index_low ≡ next_id set_up i
      low_id = ap (λ (p : Partition). p.thread_index_low) set_up_own ∙ sym first_id

  kept_below : (j : ℕ) → j < t → started.threads j ≡ k.threads j
  kept_below j below =
      create_in-below m w i (main_attr u (set_up.partitions i).thread_main_entry) (next_id set_up i)
        proc set_up j (omega (arith, below, ap (λ (p : Partition). p.thread_index_low) set_up_own))
        (ap (λ (p : Partition). p.thread_index_low) set_up_own ∙ sym first_id)

  begins : init_partition m c b w u i t (before b.nlockobjs i) k ≡ some started
  unfolding init_partition get_default_proc_real_id
  begins =
      ap (λ o. o >>= λ pr. pok_partition_setup_main_thread m w u i (with_proc pr)) has.real
      ∙ main_lem m w u i proc set_up may
    where
      with_proc : ℕ → Kernel
      with_proc pr = record (set_partition k i (prepared c b pr i t (before b.nlockobjs i))) {
        current_threads = fill c.nb_processors (λ _. c.nb_threads - 1) k.current_threads;
      }

  pub init_partition_lem :
      (k' : Kernel) × (init_partition m c b w u i t (before b.nlockobjs i) k ≡ some k')
      × IsInitial b i (k'.partitions i)
      × IsMain b i k'
      × ((j : ℕ) → j ≢ i → k'.partitions j ≡ k.partitions j)
      × ((j : ℕ) → j < t → k'.threads j ≡ k.threads j)
  init_partition_lem = (
    started,
    begins,
    started-IsInitial,
    started-IsMain,
    λ j other.
        update_off made.partitions i j _ other
        ∙ create_in-other m w i (main_attr u (set_up.partitions i).thread_main_entry)
            (next_id set_up i) proc set_up j other
        ∙ update_off k.partitions i j own other,
    kept_below,
  )
