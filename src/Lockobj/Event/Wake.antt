-- ===== src/Lockobj/Event/Wake.antt =====
-- A broadcast of kernel/core/lockobj.c wakes every thread that waits for the event.
use pok_lab.Common.{
  ℕ, zero, suc, ◌+◌, ◌-◌, ◌≤◌, ◌<◌, ◌≡◌, ◌≢◌, refl, sym, ap, ◌∙◌, inl, inr, Bool, true, false, none,
  some, arith, if◌then◌else◌, Bool-cases, subst, update, update_at, update_off, ℕ_discrete,
}
use pok_lab.Types.{Thread, runnable}
use pok_lab.Kernel.{Kernel}
use pok_lab.Sched.Switch.{pok_sched_unlock_thread}
use pok_lab.Lockobj.{Fifo}
use pok_lab.Lockobj.Queue.{pok_lockobj_dequeue, pok_lockobj_get_head}
use pok_lab.Lockobj.Queue.Slot.{count, item, IsFifo}
use pok_lab.Lockobj.Queue.Ends.{dequeued, count_none, count_some}
use pok_lab.Lockobj.Event.{wake_all}

-- The threads that waited run again, and no other thread has changed.
pub record IsWoken (n : ℕ) (k : Kernel) (f : Fifo) (k' : Kernel) : Type 0 where
  pub woken : (i : ℕ) → i < count n f → (k'.threads (item n f i)).state ≡ runnable
  pub others : (t : ℕ) → ((i : ℕ) → i < count n f → item n f i ≢ t) → k'.threads t ≡ k.threads t
  pub awake : (t : ℕ) → (k.threads t).state ≡ runnable → (k'.threads t).state ≡ runnable

-- A turn of the loop, and the turns behind it.
one-IsWoken :
    (n : ℕ) (k k' : Kernel) (f d : Fifo) (head : ℕ)
    → count n f ≡ count n d + 1
    → head ≡ item n f 0
    → ((i : ℕ) → i < count n d → item n d i ≡ item n f (i + 1))
    → IsWoken n (pok_sched_unlock_thread k head) d k'
    → IsWoken n k f k'
unfolding pok_sched_unlock_thread
one-IsWoken n k k' f d head less first items w = record {
  woken = λ i l. elim (ℕ_discrete i 0) [
    | yes at_head ↦
        subst (λ t. (k'.threads t).state ≡ runnable) (first ∙ ap (item n f) (sym at_head))
          (w.awake head runs)
    | no later ↦
        subst (λ t. (k'.threads t).state ≡ runnable)
          (items (i - 1) (omega arith) ∙ ap (item n f) (omega arith))
          (w.woken (i - 1) (omega arith))
  ];
  others = λ t out.
      w.others t (λ i l e. out (i + 1) (omega arith) (sym (items i l) ∙ e))
      ∙ update_off k.threads head t (run (k.threads head))
          (λ e. out 0 (omega arith) (sym first ∙ sym e));
  awake = λ t already. w.awake t (still t already);
}
  where
    run : Thread → Thread
    run t = record t { state = runnable }

    runs : (update k.threads head (run (k.threads head)) head).state ≡ runnable
    runs = ap (λ (t : Thread). t.state) (update_at k.threads head (run (k.threads head)))

    still :
        (t : ℕ)
        → (k.threads t).state ≡ runnable
        → (update k.threads head (run (k.threads head)) t).state ≡ runnable
    still t already = elim (ℕ_discrete t head) [
      | yes same ↦ ap (λ t. (update k.threads head (run (k.threads head)) t).state) same ∙ runs
      | no other ↦
          ap (λ (t : Thread). t.state) (update_off k.threads head t (run (k.threads head)) other)
          ∙ already
    ]

none-IsWoken : (n : ℕ) (k : Kernel) (f : Fifo) → count n f ≡ 0 → IsWoken n k f k
none-IsWoken n k f nobody = record {
  woken = λ i l. absurd (omega arith);
  others = λ t out. refl;
  awake = λ t already. already;
}

wake_ends :
    (n turns : ℕ) (k : Kernel) (f : Fifo) (resched : Bool)
    → f.is_empty ≡ true
    → wake_all n turns k f resched ≡ some (k, f, resched)
unfolding wake_all
wake_ends n zero k f resched alone = ap (λ b. if b then some (k, f, resched) else none) alone
wake_ends n (suc turns) k f resched alone =
    ap
      (λ b.
        if b
        then some (k, f, resched)
        else wake_all n turns (pok_sched_unlock_thread k (pok_lockobj_get_head f))
            (pok_lockobj_dequeue n f).0 true)
      alone

wake_turn :
    (n turns : ℕ) (k : Kernel) (f : Fifo) (resched : Bool)
    → f.is_empty ≡ false
    → wake_all n (suc turns) k f resched
      ≡ wake_all n turns
          (pok_sched_unlock_thread k (pok_lockobj_get_head f))
          (pok_lockobj_dequeue n f).0
          true
unfolding wake_all
wake_turn n turns k f resched queue =
    ap
      (λ b.
        if b
        then some (k, f, resched)
        else wake_all n turns (pok_sched_unlock_thread k (pok_lockobj_get_head f))
            (pok_lockobj_dequeue n f).0 true)
      queue

-- `resched` of a broadcast.
abbrev pub resched_of : Fifo → Bool → Bool
resched_of f resched = if f.is_empty then resched else true

resched_true : (f : Fifo) → resched_of f true ≡ true
resched_true f = elim (Bool-cases f.is_empty) [
  | inl e ↦ ap (λ b. if b then true else true) e
  | inr e ↦ ap (λ b. if b then true else true) e
]

abbrev Woken : (n turns : ℕ) → Kernel → Fifo → Bool → Type 0
Woken n turns k f resched =
    (k' : Kernel) × (f' : Fifo) × (resched' : Bool) × (wake_all n turns k f resched
      ≡ some (k', f', resched'))
    × (f'.is_empty ≡ true)
    × IsWoken n k f k'
    × (resched' ≡ resched_of f resched)

none-Woken :
    (n turns : ℕ) (k : Kernel) (f : Fifo) (resched : Bool)
    → IsFifo n f
    → f.is_empty ≡ true
    → Woken n turns k f resched
none-Woken n turns k f resched v alone = (
  k,
  f,
  resched,
  wake_ends n turns k f resched alone,
  alone,
  none-IsWoken n k f (count_none n f v alone),
  sym (ap (λ b. if b then resched else true) alone),
)

-- The loop of a broadcast, with a turn for each thread that waits, ends with the queue empty. All
-- threads of the queue are runnable then, a thread that was runnable still is, and those that were not
-- in the queue are as before; `resched` is set if a thread waited, and as before if not.
pub wake_all-IsWoken :
    (n turns : ℕ) (k : Kernel) (f : Fifo) (resched : Bool)
    → IsFifo n f
    → count n f ≤ turns
    → (k' : Kernel) × (f' : Fifo) × (resched' : Bool) × (wake_all n turns k f resched
        ≡ some (k', f', resched'))
      × (f'.is_empty ≡ true)
      × IsWoken n k f k'
      × (resched' ≡ resched_of f resched)
wake_all-IsWoken n zero k f resched v enough = elim (Bool-cases f.is_empty) [
  | inl alone ↦ none-Woken n zero k f resched v alone
  | inr queue ↦ absurd (omega (arith, count_some n f v queue))
]
wake_all-IsWoken n (suc turns) k f resched v enough = elim (Bool-cases f.is_empty) [
  | inl alone ↦ none-Woken n (suc turns) k f resched v alone
  | inr queue ↦
      let (valid, less, head, items) = dequeued n f v queue in
      let d = (pok_lockobj_dequeue n f).0 in
      let k1 = pok_sched_unlock_thread k (pok_lockobj_get_head f) in
      let (k', f', resched', eq, alone, w, r) =
        wake_all-IsWoken n turns k1 d true valid (omega arith) in
      (
        k',
        f',
        resched',
        wake_turn n turns k f resched queue ∙ eq,
        alone,
        one-IsWoken n k k' f d (pok_lockobj_get_head f) less head items w,
        r ∙ resched_true d ∙ sym (ap (λ b. if b then resched else true) queue),
      )
]
