-- ===== src/Lockobj/Queue/Insert.antt =====
-- The priority discipline of kernel/core/lockobj.c: where a thread joins the queue, and what becomes
-- of those behind it.
pub mod Room
use pok_lab.Common.{
  ℕ, zero, suc, ◌+◌, ◌-◌, ◌%◌, ◌≤◌, ◌<◌, ◌≡◌, ◌≢◌, refl, sym, ap, ◌∙◌, ◌⊎◌, inl, inr, Bool, true,
  false, not, ◌&&◌, arith, leb, ltb, ◌==◌, if◌then◌else◌, update, update_at, update_off, Bool-cases,
  subst, dec_lt, ℕ_discrete,
}
use pok_lab.Types.{Threads, Errno, ok}
use pok_lab.Lockobj.{Fifo}
use pok_lab.Lockobj.Queue.{place_of, make_room, enqueue_sorted}
use pok_lab.Lockobj.Queue.Slot.{
  slot, count, item, IsFifo, slot-low, slot-next, slot-apart, count-bound, last-slot, count-of,
  slot-zero,
}
use pok_lab.Lockobj.Queue.Insert.Room.{IsMoved, make_room-IsMoved}

-- The waiting thread at position `y` comes before `thread`.
abbrev pub goes_first : ℕ → Threads → ℕ → Fifo → ℕ → Bool
goes_first n ts thread f y = leb (ts thread).priority (ts (item n f y)).priority

-- Position `p` is the first from `x` on whose thread does not come before `thread`, or the end.
record IsPlace (n : ℕ) (ts : Threads) (thread : ℕ) (f : Fifo) (x i : ℕ) : Type 0 where
  p : ℕ
  at : i ≡ slot n f.head p
  from : x ≤ p
  upto : p ≤ count n f
  first : (y : ℕ) → x ≤ y → y < p → goes_first n ts thread f y ≡ true
  stops : (p ≡ count n f) ⊎ (goes_first n ts thread f p ≡ false)

is_end :
    (n x : ℕ) (f : Fifo)
    → IsFifo n f
    → x ≤ count n f
    → count n f < n
    → slot n f.head x == f.last ≡ true
    → x ≡ count n f
is_end n x f v le room e = elim (ℕ_discrete x (count n f)) [
  | yes same ↦ same
  | no other ↦ absurd (
      slot-apart n f.head x (count n f) v.head_low (omega arith) room other
        (equal (slot n f.head x) f.last e ∙ last-slot n f v))
]
  where
    equal : (a b : ℕ) → a == b ≡ true → a ≡ b
    equal a b e = ground (arith, e)

place_of-IsPlace :
    (n fuel : ℕ) (ts : Threads) (thread : ℕ) (f : Fifo) (x : ℕ)
    → IsFifo n f
    → count n f < n
    → x ≤ count n f
    → count n f ≤ x + fuel
    → IsPlace n ts thread f x (place_of n fuel ts thread f (slot n f.head x))
unfolding place_of
place_of-IsPlace n zero ts thread f x v room le enough = record {
  p = x;
  at = refl;
  from = omega arith;
  upto = le;
  first = λ y l h. absurd (omega arith);
  stops = inl (omega arith);
}
place_of-IsPlace n (suc fuel) ts thread f x v room le enough =
    elim (Bool-cases (slot n f.head x == f.last)) [
      | inl end ↦ rw end (here (inl (is_end n x f v le room end)))
      | inr inside ↦ elim (Bool-cases (goes_first n ts thread f x)) [
        | inl go ↦
            rw (inside, go)
              (further go (before_end inside) (
                place_of-IsPlace n fuel ts thread f (x + 1) v room
                  (omega (arith, before_end inside)) (omega arith)))
        | inr stop ↦ rw (inside, stop) (here (inr stop))
      ]
    ]
  where
    here :
        (x ≡ count n f) ⊎ (goes_first n ts thread f x ≡ false)
        → IsPlace n ts thread f x (slot n f.head x)
    here stops = record {
      p = x;
      at = refl;
      from = omega arith;
      upto = le;
      first = λ y l h. absurd (omega arith);
      stops = stops;
    }

    before_end : slot n f.head x == f.last ≡ false → x < count n f
    before_end inside = elim (ℕ_discrete x (count n f)) [
      | yes end ↦
          absurd (
            differ (slot n f.head x) f.last inside (ap (slot n f.head) end ∙ sym (last-slot n f v)))
      | no other ↦ omega arith
    ]
      where
        differ : (a b : ℕ) → a == b ≡ false → a ≡ b → ⊥
        differ a b e same = ground (arith, e, same)

    further :
        goes_first n ts thread f x ≡ true
        → x < count n f
        → IsPlace n ts thread f (x + 1) (place_of n fuel ts thread f (slot n f.head (x + 1)))
        → IsPlace n ts thread f x (place_of n fuel ts thread f ((slot n f.head x + 1) % n))
    further go inside w = record {
      p = w.p;
      at = ap (place_of n fuel ts thread f) (slot-next n f.head x v.head_low (omega arith)) ∙ w.at;
      from = omega (arith, w.from);
      upto = w.upto;
      first = λ y l h. elim (ℕ_discrete y x) [
        | yes same ↦ ap (goes_first n ts thread f) same ∙ go
        | no other ↦ w.first y (omega arith) h
      ];
      stops = w.stops;
    }

-- A thread that joins a queue with room by the priority discipline stands behind the threads at the
-- front whose priority is not below its own, and before the first one of a smaller priority; all
-- others keep their order. The queue is one longer, and the call returns POK_ERRNO_OK.
pub enqueue_sorted_lem :
    (n : ℕ) (ts : Threads) (thread : ℕ) (f : Fifo)
    → IsFifo n f
    → count n f < n
    → (f' : Fifo) × (p : ℕ) × (enqueue_sorted n ts thread f ≡ (f', ok))
      × IsFifo n f'
      × (count n f' ≡ count n f + 1)
      × (p ≤ count n f)
      × (item n f' p ≡ thread)
      × ((y : ℕ) → y < p → (item n f' y ≡ item n f y) × (goes_first n ts thread f y ≡ true))
      × ((y : ℕ) → p ≤ y → y < count n f → item n f' (y + 1) ≡ item n f y)
      × ((p ≡ count n f) ⊎ (goes_first n ts thread f p ≡ false))
unfolding enqueue_sorted
enqueue_sorted_lem n ts thread f v room =
    let c = count n f in
    let i = place_of n n ts thread f f.head in
    let f' = record f {
      buffer = update (make_room n n i f.last f.buffer) i thread;
      is_empty = false;
      last = (f.last + 1) % n;
    } in
    let w = place_of-IsPlace n n ts thread f 0 v room (omega arith) (omega arith) in
    let at = ap (place_of n n ts thread f) (sym (slot-zero n f.head v.head_low)) ∙ w.at in
    let end = last-slot n f v in
    let last = ap (λ x. (x + 1) % n) end ∙ slot-next n f.head c v.head_low room in
    let v' : IsFifo n f' = record {
      head_low = v.head_low;
      last_low = subst (λ x. x < n) (sym last) (slot-low n f.head (c + 1) v.head_low (omega arith));
      meet = λ e. absurd (ground (arith, e));
    } in
    let m = make_room-IsMoved n f.head n w.p c f.buffer v.head_low room w.upto (omega arith) in
    let same =
      ap (λ i. make_room n n i f.last f.buffer) at
      ∙ ap (λ l. make_room n n (slot n f.head w.p) l f.buffer) end in
    (
      f',
      w.p,
      refl,
      v',
      count-of n f' (c + 1) v' (omega arith) last (λ e. absurd (ground (arith, e)))
          (λ e. omega arith),
      w.upto,
      ap (update (make_room n n i f.last f.buffer) i thread) (sym at)
          ∙ update_at (make_room n n i f.last f.buffer) i thread,
      λ y l. (
        update_off (make_room n n i f.last f.buffer) i (slot n f.head y) thread (λ e.
              slot-apart n f.head y w.p v.head_low (omega (arith, w.upto)) (omega (arith, w.upto))
                (omega arith) (e ∙ at))
            ∙ ap (λ r. r (slot n f.head y)) same
            ∙ m.under y (omega arith),
        w.first y (omega arith) l,
      ),
      λ y l h.
          update_off (make_room n n i f.last f.buffer) i (slot n f.head (y + 1)) thread (λ e.
            slot-apart n f.head (y + 1) w.p v.head_low (omega arith) (omega (arith, w.upto))
              (omega arith) (e ∙ at))
          ∙ ap (λ r. r (slot n f.head (y + 1))) same
          ∙ m.moved y l h,
      w.stops,
    )
