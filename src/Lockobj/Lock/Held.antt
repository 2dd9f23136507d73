-- ===== src/Lockobj/Lock/Held.antt =====
-- The states that a lock object of kernel/core/lockobj.c reaches: none waits for one that is free, so
-- the assertions of `pok_lockobj_lock` and `pok_lockobj_unlock` hold.
use pok_lab.Common.{
  ℕ, ◌+◌, ◌-◌, ◌≤◌, ◌<◌, ◌≡◌, ◌≢◌, refl, sym, ap, ◌∙◌, ◌⊎◌, inl, inr, Bool, true, false, Option,
  none, some, arith, ltb, if◌then◌else◌, Bool-cases, subst,
}
use pok_lab.Types.{Threads, Errno}
use pok_lab.Lockobj.{Discipline, fifo, priority, no_discipline, Fifo, Lockobj}
use pok_lab.Lockobj.Queue.{pok_lockobj_enqueue, pok_lockobj_dequeue, pok_lockobj_get_head}
use pok_lab.Lockobj.Queue.Slot.{count, item, IsFifo}
use pok_lab.Lockobj.Queue.Ends.{enqueue_last_lem, pok_lockobj_dequeue_lem}
use pok_lab.Lockobj.Queue.Insert.{enqueue_sorted_lem}
use pok_lab.Lockobj.Create.{is_semaphore}
use pok_lab.Lockobj.Lock.{scenario_1, take, give}

-- The object is free only while no thread waits for it. It is at most one resource, or at most the
-- maximum of a semaphore, which is not 0.
pub record IsHeld (n : ℕ) (obj : Lockobj) : Type 0 where
  pub valid : IsFifo n obj.fifo
  pub free : 0 < obj.current_value → obj.fifo.is_empty ≡ true
  pub known : obj.queueing_policy ≢ no_discipline
  pub cap : obj.current_value ≤ (if is_semaphore obj.kind then obj.max_value else 1)
  pub positive : 0 < (if is_semaphore obj.kind then obj.max_value else 1)

enqueue-grows :
    (n : ℕ) (ts : Threads) (thread : ℕ) (d : Discipline) (f : Fifo)
    → IsFifo n f
    → count n f < n
    → d ≢ no_discipline
    → IsFifo n (pok_lockobj_enqueue n ts thread d f).0
      × (count n (pok_lockobj_enqueue n ts thread d f).0 ≡ count n f + 1)
unfolding pok_lockobj_enqueue
enqueue-grows n ts thread fifo f v room known =
    let (f', eq, v', more, here, rest) = enqueue_last_lem n thread f v room in
    (
      subst (λ (r : Fifo × Errno). IsFifo n r.0) (sym eq) v',
      ap (λ (r : Fifo × Errno). count n r.0) eq ∙ more,
    )
enqueue-grows n ts thread priority f v room known =
    let (f', p, eq, v', more, low, here, first, behind, stops) =
      enqueue_sorted_lem n ts thread f v room in
    (
      subst (λ (r : Fifo × Errno). IsFifo n r.0) (sym eq) v',
      ap (λ (r : Fifo × Errno). count n r.0) eq ∙ more,
    )
enqueue-grows n ts thread no_discipline f v room known = absurd (known refl)

-- A lock on such an object, by a thread for which the queue has room, fails no assertion: either the
-- object was free, one resource is taken and the thread goes on; or none was left, and the thread
-- joins the queue and waits. Either way the object is in such a state again.
pub take-IsHeld :
    (n : ℕ) (ts : Threads) (thread : ℕ) (obj : Lockobj)
    → IsHeld n obj
    → count n obj.fifo < n
    → (obj' : Lockobj) × (blocked : Bool) × (take n ts thread obj ≡ some (obj', blocked))
      × IsHeld n obj'
      × (((blocked ≡ false) × (obj.current_value ≡ obj'.current_value + 1) × (obj'.fifo ≡ obj.fifo))
          ⊎ ((blocked ≡ true)
              × (obj'.current_value ≡ 0)
              × (obj.current_value ≡ 0)
              × (count n obj'.fifo ≡ count n obj.fifo + 1)))
unfolding take
take-IsHeld n ts thread obj v room = elim (Bool-cases (ltb 0 obj.current_value)) [
  | inl free ↦
      let one : 0 < obj.current_value = ground (arith, free) in
      let obj' = record obj { current_value = obj.current_value - 1 } in
      (
        obj',
        false,
        rw (free, v.free one) refl,
        record {
          valid = v.valid;
          free = λ l. v.free one;
          known = v.known;
          cap = omega (arith, v.cap);
          positive = v.positive;
        },
        inl (refl, omega arith, refl),
      )
  | inr taken ↦
      let zero : obj.current_value ≡ 0 = ground (arith, taken) in
      let (valid, more) =
        enqueue-grows n ts thread obj.queueing_policy obj.fifo v.valid room v.known in
      let obj' = record obj {
        fifo = (pok_lockobj_enqueue n ts thread obj.queueing_policy obj.fifo).0;
      } in
      (
        obj',
        true,
        rw taken refl,
        record {
          valid = valid;
          free = λ l. absurd (omega arith);
          known = v.known;
          cap = v.cap;
          positive = v.positive;
        },
        inr (refl, zero, zero, more),
      )
]

scenario_1-cap :
    (obj : Lockobj)
    → 0 < obj.current_value
    → obj.current_value ≤ (if is_semaphore obj.kind then obj.max_value else 1)
    → 0 < (if is_semaphore obj.kind then obj.max_value else 1)
    → ((scenario_1 obj).current_value ≤ (if is_semaphore obj.kind then obj.max_value else 1))
      × (0 < (scenario_1 obj).current_value)
scenario_1-cap obj one cap positive = ground (arith, one, cap, positive)

-- An unlock of such an object fails no assertion. If a thread waits, no resource was left: the
-- head of the queue gets the object and leaves the queue, the others keep their order, and none is left
-- again. Otherwise no thread
-- gets it, and the object is free. Either way the object is in such a state again.
pub give-IsHeld :
    (n : ℕ) (obj : Lockobj)
    → IsHeld n obj
    → (obj' : Lockobj) × (heir : Option ℕ) × (give n obj ≡ some (obj', heir))
      × IsHeld n obj'
      × (((heir ≡ none)
            × (obj.fifo.is_empty ≡ true)
            × (obj'.fifo ≡ obj.fifo)
            × (0 < obj'.current_value))
          ⊎ ((heir ≡ some (item n obj.fifo 0))
              × (obj.fifo.is_empty ≡ false)
              × (obj.current_value ≡ 0)
              × (obj'.current_value ≡ 0)
              × (count n obj.fifo ≡ count n obj'.fifo + 1)
              × ((i : ℕ) → i < count n obj'.fifo → item n obj'.fifo i ≡ item n obj.fifo (i + 1))))
unfolding give
give-IsHeld n obj v = elim (Bool-cases (ltb 0 obj.current_value)) [
  | inl free ↦
      let one : 0 < obj.current_value = ground (arith, free) in
      let (cap, more) = scenario_1-cap obj one v.cap v.positive in
      (
        scenario_1 obj,
        none,
        rw (free, v.free one) refl,
        record {
          valid = v.valid;
          free = λ l. v.free one;
          known = v.known;
          cap = cap;
          positive = v.positive;
        },
        inl (refl, v.free one, refl, more),
      )
  | inr taken ↦ elim (Bool-cases obj.fifo.is_empty) [
    | inl alone ↦ (
      record obj { current_value = 1 },
      none,
      rw (taken, alone) refl,
      record {
        valid = v.valid;
        free = λ l. alone;
        known = v.known;
        cap = omega (arith, v.positive);
        positive = v.positive;
      },
      inl (refl, alone, refl, omega arith),
    )
    | inr queue ↦
        let zero : obj.current_value ≡ 0 = ground (arith, taken) in
        let (f', eq, v', less, head, rest) = pok_lockobj_dequeue_lem n obj.fifo v.valid queue in
        (
          record obj { fifo = (pok_lockobj_dequeue n obj.fifo).0 },
          some (pok_lockobj_get_head obj.fifo),
          rw (taken, queue) refl,
          record {
            valid = subst (λ (r : Fifo × Errno). IsFifo n r.0) (sym eq) v';
            free = λ l. absurd (omega arith);
            known = v.known;
            cap = v.cap;
            positive = v.positive;
          },
          inr (
            ap some head,
            queue,
            zero,
            zero,
            less ∙ ap (λ (r : Fifo × Errno). count n r.0 + 1) (sym eq),
            subst
                (λ (r : Fifo × Errno).
                  (i : ℕ) → i < count n r.0 → item n r.0 i ≡ item n obj.fifo (i + 1))
                (sym eq) rest,
          ),
        )
  ]
]
