-- ===== src/Sched/Switch/Known.antt =====
-- A processor runs, in kernel/core/sched.c, only threads of the partition being executed, or its own
-- idle thread.
use pok_lab.Common.{
  ℕ, suc, ◌-◌, ◌≤◌, ◌<◌, ◌≡◌, ◌≢◌, refl, sym, subst, ap, ◌∙◌, ◌⊎◌, inl, inr, true, Option, some,
  arith, ◌==◌, if◌then◌else◌, u8, Bool-cases, update, update_at, is_positive,
}
use pok_lab.Types.{Threads, Partition, Mode, init_cold, init_warm, normal}
use pok_lab.Kernel.{Config, Kernel, Now, current_id, current_part, idle_of, set_partition}
use pok_lab.Sched.Best.{IsKnown}
use pok_lab.Sched.Dispatch.Known.{Ready, sched_call_lem}
use pok_lab.Sched.Switch.{
  exempt, error_goes_on, charge_current, elect_normal, elect_by_mode, set_end_time,
  pok_elect_thread, record_elected, pok_sched_context_switch, pok_sched_thread, refresh_from,
}

-- The partition's threads on this processor: two or more, below the idle thread; the previous and the
-- current one are its own or idle, but not both idle, and the main thread is its own.
pub record IsSound (c : Config) (w : Now) (p : Partition) : Type 0 where
  pub filled : suc p.thread_index_low < p.thread_index_high
  pub out : p.thread_index_high ≤ idle_of c w
  pub prev_known :
      IsKnown (idle_of c w) p.thread_index_low p.thread_index_high (p.prev_thread w.proc)
  pub current_known :
      IsKnown (idle_of c w) p.thread_index_low p.thread_index_high (p.current_thread w.proc)
  pub not_both : (p.prev_thread w.proc ≢ idle_of c w) ⊎ (p.current_thread w.proc ≢ idle_of c w)
  pub main_low : p.thread_index_low ≤ p.thread_main
  pub main_high : p.thread_main < p.thread_index_high

module _ (c : Config) (w : Now) where
  abbrev Known : Partition → ℕ → Type 0
  Known p e = IsKnown (idle_of c w) p.thread_index_low p.thread_index_high e

  -- What an election changes of the kernel: the threads alone.
  record Rest (k k' : Kernel) : Type 0 where
    parts : k'.partitions ≡ k.partitions
    part : k'.current_partition ≡ k.current_partition
    running : k'.current_threads ≡ k.current_threads

  charge_current-Rest : (k : Kernel) → Rest k (charge_current c w k)
  unfolding charge_current
  charge_current-Rest k = elim (Bool-cases (exempt c w k)) [
    | inl p ↦ rw p (record { parts = refl; part = refl; running = refl })
    | inr n ↦ rw n (record { parts = refl; part = refl; running = refl })
  ]

  set_end_time-Rest : (k : Kernel) (e : ℕ) → Rest k (set_end_time w k e)
  unfolding set_end_time
  set_end_time-Rest k e =
      elim (Bool-cases (is_positive (k.threads (current_id w k)).time_capacity)) [
        | inl p ↦ rw p (record { parts = refl; part = refl; running = refl })
        | inr n ↦ rw n (record { parts = refl; part = refl; running = refl })
      ]

  Rest-trans : (k l m : Kernel) → Rest k l → Rest l m → Rest k m
  Rest-trans k l m a b = record {
    parts = b.parts ∙ a.parts;
    part = b.part ∙ a.part;
    running = b.running ∙ a.running;
  }

  main_or_idle :
      (k : Kernel) (p : ℕ)
      → IsSound c w (k.partitions p)
      → Known (k.partitions p) (
          if w.proc == (k.partitions p).thread_main_proc
          then (k.partitions p).thread_main
          else idle_of c w)
  main_or_idle k p v = ground (arith, v)

  module _ (fuel : ℕ) (small : c.nb_threads ≤ 256) where
    abbrev Answers : Kernel → Partition → Option (Kernel × ℕ) → Type 0
    Answers k p o = (r : Kernel × ℕ) × (o ≡ some r) × Rest k r.0 × Known p r.1

    ready :
        (p : Partition)
        → IsSound c w p
        → p.thread_index_high - p.thread_index_low ≤ fuel
        → Ready fuel
            (idle_of c w)
            p.thread_index_low
            p.thread_index_high
            (p.prev_thread w.proc)
            (p.current_thread w.proc)
    ready p v enough = record {
      filled = v.filled;
      small = omega arith;
      out = v.out;
      prev_known = v.prev_known;
      current_known = v.current_known;
      not_both = v.not_both;
      enough = enough;
    }

    elect_normal_lem :
        (k : Kernel) (p : ℕ)
        → IsSound c w (k.partitions p)
        → (k.partitions p).thread_index_high - (k.partitions p).thread_index_low ≤ fuel
        → Answers k (k.partitions p) (elect_normal fuel c w k p)
    unfolding elect_normal
    elect_normal_lem k p v enough = elim (Bool-cases (error_goes_on w k p)) [
      | inl go ↦ rw go (
        (k, (k.partitions p).thread_error),
        refl,
        record { parts = refl; part = refl; running = refl },
        error_known go,
      )
      | inr stop ↦
          let (r, eq, h) =
            sched_call_lem (idle_of c w) w.proc (charge_current c w k).threads
              (k.partitions p).thread_index_low (k.partitions p).thread_index_high fuel
              ((k.partitions p).prev_thread w.proc) ((k.partitions p).current_thread w.proc)
              (ready (k.partitions p) v enough) (k.partitions p).sched_func in
          rw (stop, eq)
            (
              (record (charge_current c w k) { threads = r.0 }, r.1),
              refl,
              with_threads r.0 (charge_current-Rest k),
              h,
            )
    ]
      where
        error_known :
            error_goes_on w k p ≡ true → Known (k.partitions p) (k.partitions p).thread_error
        error_known go = subst (Known (k.partitions p)) same v.current_known
          where
            same : (k.partitions p).current_thread w.proc ≡ (k.partitions p).thread_error
            same = ground (arith, go)

        with_threads :
            (ts : Threads)
            → Rest k (charge_current c w k)
            → Rest k (record (charge_current c w k) { threads = ts })
        with_threads ts a = record { parts = a.parts; part = a.part; running = a.running }

    elect_by_mode_lem :
        (k : Kernel) (p : ℕ) (m : Mode)
        → IsSound c w (k.partitions p)
        → (k.partitions p).thread_index_high - (k.partitions p).thread_index_low ≤ fuel
        → Answers k (k.partitions p) (elect_by_mode fuel c w k p m)
    unfolding elect_by_mode
    elect_by_mode_lem k p init_cold v enough =
        (_, refl, record { parts = refl; part = refl; running = refl }, main_or_idle k p v)
    elect_by_mode_lem k p init_warm v enough =
        (_, refl, record { parts = refl; part = refl; running = refl }, main_or_idle k p v)
    elect_by_mode_lem k p normal v enough = elect_normal_lem k p v enough
    elect_by_mode_lem k p _ v enough =
        (_, refl, record { parts = refl; part = refl; running = refl }, inl refl)

    elect_lem :
        (k : Kernel)
        → IsSound c w (current_part k)
        → (current_part k).thread_index_high - (current_part k).thread_index_low ≤ fuel
        → Answers k (current_part k) (pok_elect_thread fuel c w k k.current_partition)
    unfolding pok_elect_thread
    elect_lem k v enough =
        let part = current_part k in
        let k1 = record k {
          threads = refresh_from c w part.thread_index_low part.nthreads 0 k.threads;
        } in
        let (r, eq, a, h) = elect_by_mode_lem k1 k.current_partition part.mode v enough in
        (
          (set_end_time w r.0 r.1, r.1),
          rw eq refl,
          Rest-trans k r.0 _ (record { parts = a.parts; part = a.part; running = a.running })
              (set_end_time-Rest r.0 r.1),
          h,
        )

    low_byte : (p : Partition) (e : ℕ) → IsSound c w p → Known p e → u8 e ≡ e
    low_byte p e v h = omega arith

  record_elected-IsSound :
      (p : Partition) (e : ℕ)
      → IsSound c w p
      → Known p e
      → IsSound c w (record_elected c w e p) × ((record_elected c w e p).current_thread w.proc ≡ e)
  unfolding record_elected
  record_elected-IsSound p e v h = elim (Bool-cases (p.current_thread w.proc == e)) [
    | inl same ↦ rw same (v, ground (arith, same))
    | inr other ↦ elim (Bool-cases (p.current_thread w.proc == idle_of c w)) [
      | inl at_idle ↦
          rw (other, at_idle)
            (
              record {
                filled = v.filled;
                out = v.out;
                prev_known = v.prev_known;
                current_known = new_known;
                not_both = inl (ground (arith, v.not_both, at_idle));
                main_low = v.main_low;
                main_high = v.main_high;
              },
              update_at p.current_thread w.proc e,
            )
      | inr busy ↦
          rw (other, busy)
            (
              record {
                filled = v.filled;
                out = v.out;
                prev_known =
                    subst (Known p) (sym (update_at p.prev_thread w.proc (p.current_thread w.proc)))
                      v.current_known;
                current_known = new_known;
                not_both = inl (ground (arith, busy));
                main_low = v.main_low;
                main_high = v.main_high;
              },
              update_at p.current_thread w.proc e,
            )
    ]
  ]
    where
      new_known : Known p (update p.current_thread w.proc e w.proc)
      new_known = subst (Known p) (sym (update_at p.current_thread w.proc e)) h

  -- What the switch of context leaves, and what the processor then runs.
  switched :
      (k : Kernel) (e : ℕ)
      → ((pok_sched_context_switch w k e).partitions ≡ k.partitions)
        × ((pok_sched_context_switch w k e).current_partition ≡ k.current_partition)
        × (current_id w (pok_sched_context_switch w k e) ≡ e)
  unfolding pok_sched_context_switch
  switched k e = elim (Bool-cases (current_id w k == e)) [
    | inl same ↦ rw same (refl, refl, ground (arith, same))
    | inr other ↦ rw other (refl, refl, ground arith)
  ]

  recorded :
      (k : Kernel) (p : Partition) (e : ℕ)
      → (current_part k ≡ p)
      → (current_part (set_partition k k.current_partition (record_elected c w e))
          ≡ record_elected c w e p)
  recorded k p e same =
      update_at k.partitions k.current_partition (record_elected c w e (current_part k))
      ∙ ap (record_elected c w e) same

  -- On a configuration of at most 256 threads, where the current partition is sound and its threads
  -- are no more than the fuel, a scheduling of the threads returns. The processor then runs the thread
  -- that the current partition records as its current one, which is a thread of the partition or the
  -- idle thread, and the partition is sound as before.
  pub pok_sched_thread_lem :
      (fuel : ℕ) (k : Kernel)
      → c.nb_threads ≤ 256
      → IsSound c w (current_part k)
      → (current_part k).thread_index_high - (current_part k).thread_index_low ≤ fuel
      → (k' : Kernel) × (pok_sched_thread fuel c w k ≡ some k')
        × IsSound c w (current_part k')
        × (current_id w k' ≡ (current_part k').current_thread w.proc)
        × (k'.current_partition ≡ k.current_partition)
  unfolding pok_sched_thread
  pok_sched_thread_lem fuel k small v enough =
      let (r, eq, a, h) = elect_lem fuel small k v enough in
      let e = u8 r.1 in
      let self = recorded r.0 (current_part k) e ((λ i. a.parts i (a.part i))) in
      let (sound, here) =
        record_elected-IsSound (current_part k) e v
          (subst (Known (current_part k)) (sym (low_byte fuel small (current_part k) r.1 v h)) h) in
      let set = set_partition r.0 r.0.current_partition (record_elected c w e) in
      let (ps, p, now) = switched set e in
      let current = (λ i. ps i (p i)) ∙ self in
      (
        pok_sched_context_switch w set e,
        rw eq refl,
        subst (IsSound c w) (sym current) sound,
        now ∙ sym here ∙ ap (λ q. q.current_thread w.proc) (sym current),
        p ∙ a.part,
      )
