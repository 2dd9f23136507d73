-- ===== src/Lockobj/Queue/Ends.antt =====
-- The two ends of a queue of kernel/core/lockobj.c: the FIFO discipline and the removal of the head.
use pok_lab.Common.{
  ℕ, ◌+◌, ◌-◌, ◌%◌, ◌<◌, ◌≡◌, refl, sym, ap, ◌∙◌, true, false, not, ◌&&◌, arith, ◌==◌, update,
  update_at, update_off, subst,
}
use pok_lab.Types.{Errno, ok}
use pok_lab.Lockobj.{Fifo}
use pok_lab.Lockobj.Queue.{enqueue_last, pok_lockobj_dequeue, pok_lockobj_get_head}
use pok_lab.Lockobj.Queue.Slot.{
  slot, count, item, IsFifo, slot-low, slot-next, slot-apart, count-bound, last-slot, count-of,
  slot-zero, slot-shift, slot-home, slot-away,
}

pub count_none : (n : ℕ) (f : Fifo) → IsFifo n f → f.is_empty ≡ true → count n f ≡ 0
unfolding count
count_none n f v none = rw none refl

pub count_some : (n : ℕ) (f : Fifo) → IsFifo n f → f.is_empty ≡ false → 0 < count n f
unfolding count
count_some n f v some = ground (arith, v, some)

is_full :
    (n : ℕ) (f : Fifo) → IsFifo n f → count n f < n → not f.is_empty && (f.last == f.head) ≡ false
unfolding count
is_full n f v room = ground (arith, v, room)

-- A thread that joins a queue with room by the FIFO discipline stands behind all others, which keep
-- their positions; the queue is one longer, and the call returns POK_ERRNO_OK.
pub enqueue_last_lem :
    (n thread : ℕ) (f : Fifo)
    → IsFifo n f
    → count n f < n
    → (f' : Fifo) × (enqueue_last n thread f ≡ (f', ok))
      × IsFifo n f'
      × (count n f' ≡ count n f + 1)
      × (item n f' (count n f) ≡ thread)
      × ((i : ℕ) → i < count n f → item n f' i ≡ item n f i)
unfolding enqueue_last
enqueue_last_lem n thread f v room =
    let f' = record f {
      buffer = update f.buffer f.last thread;
      last = (f.last + 1) % n;
      is_empty = false;
    } in
    let end = last-slot n f v in
    let last = ap (λ x. (x + 1) % n) end ∙ slot-next n f.head (count n f) v.head_low room in
    let v' : IsFifo n f' = record {
      head_low = v.head_low;
      last_low =
          subst (λ x. x < n) (sym last)
            (slot-low n f.head (count n f + 1) v.head_low (omega arith));
      meet = λ e. absurd (ground (arith, e));
    } in
    (
      f',
      rw (is_full n f v room) refl,
      v',
      count-of n f' (count n f + 1) v' (omega arith) last (λ e. absurd (ground (arith, e)))
          (λ e. omega arith),
      ap (update f.buffer f.last thread) (sym end) ∙ update_at f.buffer f.last thread,
      λ i l. update_off f.buffer f.last (slot n f.head i) thread (λ e.
          slot-apart n f.head i (count n f) v.head_low (omega arith) room (omega arith) (e ∙ end)),
    )

-- The head of a queue of waiting threads leaves it: the call returns POK_ERRNO_OK, the queue is one
-- shorter, and every other thread is one position further to the front.
pub pok_lockobj_dequeue_lem :
    (n : ℕ) (f : Fifo)
    → IsFifo n f
    → f.is_empty ≡ false
    → (f' : Fifo) × (pok_lockobj_dequeue n f ≡ (f', ok))
      × IsFifo n f'
      × (count n f ≡ count n f' + 1)
      × (pok_lockobj_get_head f ≡ item n f 0)
      × ((i : ℕ) → i < count n f' → item n f' i ≡ item n f (i + 1))
unfolding pok_lockobj_dequeue pok_lockobj_get_head
pok_lockobj_dequeue_lem n f v some =
    let c = count n f - 1 in
    let positive = count_some n f v some in
    let bound = count-bound n f v in
    let head =
      ap (λ x. (x + 1) % n) (sym (slot-zero n f.head v.head_low))
      ∙ slot-next n f.head 0 v.head_low (omega arith) in
    let low = subst (λ x. x < n) (sym head) (slot-low n f.head 1 v.head_low (omega arith)) in
    let f' = record f { head = (f.head + 1) % n; is_empty = f.last == (f.head + 1) % n } in
    let end =
      last-slot n f v
      ∙ back n f positive
      ∙ sym (slot-shift n f.head c v.head_low (omega arith))
      ∙ ap (λ h. slot n h c) (sym head) in
    let v' : IsFifo n f' = record {
      head_low = low;
      last_low = v.last_low;
      meet = λ e. ground (arith, e);
    } in
    let less =
      count-of n f' c v' (omega arith) end
        (λ e. slot-home n f'.head c low (omega arith) (sym end ∙ ground (arith, e)))
        (λ e. slot-away n f'.head c f.last low end e) in
    (
      f',
      rw some refl,
      v',
      (omega (arith, less, positive)),
      ap f.buffer (sym (slot-zero n f.head v.head_low)),
      λ i l. ap f.buffer (
          ap (λ h. slot n h i) head
          ∙ slot-shift n f.head i v.head_low (omega (arith, l, less, bound))),
    )
  where
    back :
        (n : ℕ) (f : Fifo)
        → 0 < count n f
        → slot n f.head (count n f) ≡ slot n f.head (count n f - 1 + 1)
    back n f positive = ap (slot n f.head) (omega arith)

-- The same of the queue that is left, as the callers take it.
pub dequeued :
    (n : ℕ) (f : Fifo)
    → IsFifo n f
    → f.is_empty ≡ false
    → IsFifo n (pok_lockobj_dequeue n f).0
      × (count n f ≡ count n (pok_lockobj_dequeue n f).0 + 1)
      × (pok_lockobj_get_head f ≡ item n f 0)
      × ((i : ℕ)
          → i < count n (pok_lockobj_dequeue n f).0
          → item n (pok_lockobj_dequeue n f).0 i ≡ item n f (i + 1))
dequeued n f v some =
    let (f', eq, v', less, head, rest) = pok_lockobj_dequeue_lem n f v some in
    subst
      (λ (r : Fifo × Errno).
        IsFifo n r.0
        × (count n f ≡ count n r.0 + 1)
        × (pok_lockobj_get_head f ≡ item n f 0)
        × ((i : ℕ) → i < count n r.0 → item n r.0 i ≡ item n f (i + 1)))
      (sym eq) (v', less, head, rest)
