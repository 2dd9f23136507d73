-- ===== src/Thread/Create/Known.antt =====
-- What `pok_partition_thread_create` of kernel/core/thread.c does to the table of threads, and which
-- thread the identifier that it returns names.
use pok_lab.Common.{
  ℕ, ◌+◌, ◌≤◌, ◌<◌, ◌≡◌, ◌≢◌, refl, sym, ap, ◌∙◌, ◌⊎◌, inl, inr, Bool, true, false, not, ◌&&◌, some,
  arith, leb, ltb, u32, u32_mod, update, update_at, update_off, Bool-cases, subst,
}
use pok_lab.Types.{runnable, Mode, Thread, ThreadAttr, Threads, Partition, is_init, ok}
use pok_lab.Kernel.{Kernel, Now, set_partition}
use pok_lab.Processors.{get_proc_real_id}
use pok_lab.Thread.{Machine}
use pok_lab.Thread.Sorted.{pok_thread_insert_sort-IsInserted}
use pok_lab.Thread.Create.{
  created, count_thread, proc_allowed, is_rms, sort_created, create_in, pok_partition_thread_create,
}

-- A place of the new thread between slot `low` and its own slot `id`, with the rest of the table.
record IsPlaced (p : Partition) (id : ℕ) (ts us : Threads) : Type 0 where
  q : ℕ
  low : p.thread_index_low ≤ q
  high : q ≤ id
  put : us q ≡ ts id
  by_rms : (q ≡ id) ⊎ (is_rms p.sched ≡ true)
  rest : (i : ℕ) → (i < p.thread_index_low) ⊎ (id < i) → us i ≡ ts i

sort_created-IsPlaced :
    (p : Partition) (id : ℕ) (ts : Threads)
    → p.thread_index_low ≤ id
    → (is_rms p.sched ≡ true → p.thread_index_low < id → id < 65536)
    → IsPlaced p id ts (sort_created p id ts)
unfolding sort_created
sort_created-IsPlaced p id ts range narrow =
    elim (Bool-cases (is_rms p.sched && ltb p.thread_index_low id)) [
      | inl sorts ↦
          let above : p.thread_index_low < id = ground (arith, sorts) in
          let few = narrow (ground (arith, sorts)) above in
          let v =
            pok_thread_insert_sort-IsInserted (p.thread_index_low + 1) id ts (omega arith)
              (omega arith) few in
          let word : u32 (p.thread_index_low + 1) ≡ p.thread_index_low + 1 = omega arith in
          rw (sorts, word)
            (record {
              q = v.q;
              low = omega (arith, v.from);
              high = v.upto;
              put = v.put;
              by_rms = inr (ground (arith, sorts));
              rest = λ i out. elim out [
                | inl before ↦ v.under i (omega (arith, v.from))
                | inr after ↦ v.over i after
              ];
            })
      | inr stays ↦ rw stays (record {
        q = id;
        low = range;
        high = omega arith;
        put = refl;
        by_rms = inl refl;
        rest = λ i out. refl;
      })
    ]

-- A call that may create: the partition initialises or the thread is dynamic, there is a slot left,
-- and the thread's processor is one of the partition's, as the assertions want it.
pub record MayCreate (m : Machine) (k : Kernel) (a : ThreadAttr) (pid proc : ℕ) : Type 0 where
  pub in_time : (is_init (k.partitions pid).mode ≡ true) ⊎ (a.is_dynamic ≡ true)
  pub room :
      (k.partitions pid).thread_index_low + (k.partitions pid).thread_index
      < (k.partitions pid).thread_index_high
  pub small : (k.partitions pid).thread_index_high < u32_mod
  pub real : get_proc_real_id m.processor_affinity pid a.processor_affinity ≡ some proc
  pub allowed : proc_allowed m (k.partitions pid) pid a proc ≡ true

-- The first free slot of the partition.
abbrev pub next_id : Kernel → ℕ → ℕ
next_id k pid = (k.partitions pid).thread_index_low + (k.partitions pid).thread_index

pub create_ok :
    (m : Machine) (w : Now) (tid : ℕ) (a : ThreadAttr) (pid proc : ℕ) (k : Kernel)
    → MayCreate m k a pid proc
    → pok_partition_thread_create m w tid a pid k
      ≡ some (create_in m w pid a (next_id k pid) proc k, ok, next_id k pid)
unfolding pok_partition_thread_create
create_ok m w tid a pid proc k v =
    let p = k.partitions pid in
    rw
      (
        open_for p.mode a.is_dynamic v.in_time,
        room (next_id k pid) p.thread_index_high v.room v.small,
        above p.thread_index_low p.thread_index p.thread_index_high v.room v.small,
        v.real,
        v.allowed,
      )
      (ap (λ id. some (create_in m w pid a id proc k, ok, id))
        (word (next_id k pid) p.thread_index_high v.room v.small))
  where
    open_for :
        (s : Mode) (d : Bool) → (is_init s ≡ true) ⊎ (d ≡ true) → not (is_init s) && not d ≡ false
    open_for s d in_time = ground (arith, in_time)

    word : (x high : ℕ) → x < high → high < u32_mod → u32 x ≡ x
    word x high h small = omega arith

    room : (x high : ℕ) → x < high → high < u32_mod → leb high (u32 x) ≡ false
    room x high h small = ground (arith, h, small)

    above : (low n high : ℕ) → low + n < high → high < u32_mod → ltb (u32 (low + n)) low ≡ false
    above low n high h small = ground (arith, h, small)

-- A creation that may take place, with an identifier of 16 bits if the
-- partition is under RMS, returns POK_ERRNO_OK and the identifier of the partition's first free
-- slot, and the partition's next free slot is the one behind it. The new thread, which is runnable and
-- belongs to the partition, stands in the slots from the partition's first one to that one: in the
-- slot named by the identifier unless the partition is under RMS. No slot before the partition's first
-- one or behind the new one changes, and no other partition does.
pub pok_partition_thread_create_lem :
    (m : Machine) (w : Now) (tid : ℕ) (a : ThreadAttr) (pid proc : ℕ) (k : Kernel)
    → MayCreate m k a pid proc
    → (is_rms (k.partitions pid).sched ≡ true → next_id k pid < 65536)
    → (k' : Kernel) × (q : ℕ) × (pok_partition_thread_create m w tid a pid k
        ≡ some (k', ok, next_id k pid))
      × ((k'.partitions pid).thread_index ≡ (k.partitions pid).thread_index + 1)
      × ((k.partitions pid).thread_index_low ≤ q)
      × (q ≤ next_id k pid)
      × ((k'.threads q).partition ≡ pid)
      × ((k'.threads q).state ≡ runnable)
      × ((k'.threads q).entry ≡ a.entry)
      × ((q ≡ next_id k pid) ⊎ (is_rms (k.partitions pid).sched ≡ true))
      × ((i : ℕ)
          → (i < (k.partitions pid).thread_index_low) ⊎ (next_id k pid < i)
          → k'.threads i ≡ k.threads i)
      × ((j : ℕ) → j ≢ pid → k'.partitions j ≡ k.partitions j)
unfolding create_in created
pok_partition_thread_create_lem m w tid a pid proc k v narrow =
    let id = next_id k pid in
    let k' = create_in m w pid a id proc k in
    let p = (set_partition k pid count_thread).partitions pid in
    let own = update_at k.partitions pid (count_thread (k.partitions pid)) in
    let stack_vaddr = m.stack_addr pid p.thread_index in
    let new = created m w.tick pid a proc stack_vaddr (k.threads id) in
    let low = ap (λ (p : Partition). p.thread_index_low) own in
    let s =
      sort_created-IsPlaced p id (update k.threads id new) (omega (arith, low))
        (λ rms above. narrow (ap (λ (p : Partition). is_rms p.sched) (sym own) ∙ rms)) in
    let put = s.put ∙ update_at k.threads id new in
    (
      k',
      s.q,
      create_ok m w tid a pid proc k v,
      ap (λ (p : Partition). p.thread_index) own ∙ (omega (arith, v.room, v.small)),
      omega (arith, low, s.low),
      s.high,
      ap (λ (t : Thread). t.partition) put,
      ap (λ (t : Thread). t.state) put,
      ap (λ (t : Thread). t.entry) put,
      elim s.by_rms [
        | inl here ↦ inl here
        | inr rms ↦ inr (sym (ap (λ (p : Partition). is_rms p.sched) own) ∙ rms)
      ],
      λ i out.
          s.rest i (subst (λ l. (i < l) ⊎ (id < i)) (sym low) out)
          ∙ update_off k.threads id i new (apart i out),
      λ j other. update_off k.partitions pid j (count_thread (k.partitions pid)) other,
    )
  where
    apart :
        (i : ℕ)
        → (i < (k.partitions pid).thread_index_low) ⊎ (next_id k pid < i)
        → i ≢ next_id k pid
    apart i out = ground (arith, out)

module _ (m : Machine) (w : Now) (pid : ℕ) (a : ThreadAttr) (id proc : ℕ) (k : Kernel) where
  pub create_in-partition :
      (create_in m w pid a id proc k).partitions pid ≡ count_thread (k.partitions pid)
  unfolding create_in
  create_in-partition = update_at k.partitions pid (count_thread (k.partitions pid))

  pub create_in-other :
      (j : ℕ) → j ≢ pid → (create_in m w pid a id proc k).partitions j ≡ k.partitions j
  unfolding create_in
  create_in-other j other = update_off k.partitions pid j (count_thread (k.partitions pid)) other

  own_low :
      ((set_partition k pid count_thread).partitions pid).thread_index_low
      ≡ (k.partitions pid).thread_index_low
  own_low =
      ap (λ (p : Partition). p.thread_index_low)
        (update_at k.partitions pid (count_thread (k.partitions pid)))

  pub create_in-below :
      (i : ℕ)
      → i < (k.partitions pid).thread_index_low
      → (k.partitions pid).thread_index_low ≡ id
      → (create_in m w pid a id proc k).threads i ≡ k.threads i
  unfolding create_in
  create_in-below i below range =
      let p = (set_partition k pid count_thread).partitions pid in
      let new = created m w.tick pid a proc (m.stack_addr pid p.thread_index) (k.threads id) in
      let s =
        sort_created-IsPlaced p id (update k.threads id new) (omega (arith, own_low, range))
          (λ rms above. absurd (omega (arith, own_low, range))) in
      s.rest i (inl (omega (arith, own_low))) ∙ update_off k.threads id i new (omega arith)

  -- The first thread of a partition.
  pub create_in-first :
      (k.partitions pid).thread_index_low ≡ id
      → (((create_in m w pid a id proc k).threads id).partition ≡ pid)
        × (((create_in m w pid a id proc k).threads id).state ≡ runnable)
        × (((create_in m w pid a id proc k).threads id).entry ≡ a.entry)
  unfolding create_in created
  create_in-first low =
      let p = (set_partition k pid count_thread).partitions pid in
      let new = created m w.tick pid a proc (m.stack_addr pid p.thread_index) (k.threads id) in
      let s =
        sort_created-IsPlaced p id (update k.threads id new) (omega (arith, own_low, low))
          (λ rms above. absurd (omega (arith, own_low, low))) in
      let here : s.q ≡ id = omega (arith, own_low, s.low, s.high) in
      let put =
        ap (create_in m w pid a id proc k).threads (sym here)
        ∙ s.put
        ∙ update_at k.threads id new in
      (
        ap (λ (t : Thread). t.partition) put,
        ap (λ (t : Thread). t.state) put,
        ap (λ (t : Thread). t.entry) put,
      )
