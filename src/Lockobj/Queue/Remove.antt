-- ===== src/Lockobj/Queue/Remove.antt =====
-- `pok_lockobj_remove_thread` of kernel/core/lockobj.c: a thread leaves the queue at any position.
pub mod Close
use pok_lab.Common.{
  ℕ, zero, suc, ◌+◌, ◌-◌, ◌%◌, ◌≤◌, ◌<◌, ◌≡◌, ◌≢◌, refl, sym, ap, ◌∙◌, ◌⊎◌, inl, inr, Bool, true,
  false, arith, ◌==◌, if◌then◌else◌, Bool-cases, subst, ℕ_discrete,
}
use pok_lab.Types.{Errno, ok, notfound}
use pok_lab.Lockobj.{Fifo}
use pok_lab.Lockobj.Queue.{find, before, close_up, take_out, pok_lockobj_remove_thread}
use pok_lab.Lockobj.Queue.Slot.{
  slot, count, item, IsFifo, slot-low, slot-next, slot-apart_up, before-slot, count-bound,
  last-slot, count-of, slot-zero, slot-home, slot-away,
}
use pok_lab.Lockobj.Queue.Ends.{count_none, count_some}
use pok_lab.Lockobj.Queue.Remove.Close.{close_up-IsClosed}

-- No thread at the positions from `x` to before `y` is `thread`.
abbrev pub Absent : ℕ → ℕ → Fifo → ℕ → ℕ → Type 0
Absent n thread f x y = (z : ℕ) → x ≤ z → z < y → item n f z ≢ thread

-- The thread is first found at position `p`, from `x` on.
pub record IsAt (n thread : ℕ) (f : Fifo) (x p : ℕ) : Type 0 where
  pub from : x ≤ p
  pub upto : p < count n f
  pub here : item n f p ≡ thread
  pub first : Absent n thread f x p

abbrev Found : ℕ → ℕ → Fifo → ℕ → ℕ → Type 0
Found n thread f x i =
    ((p : ℕ) × IsAt n thread f x p × (i ≡ slot n f.head p))
    ⊎ (Absent n thread f x (count n f) × (i ≡ n))

find-Found :
    (n fuel thread : ℕ) (f : Fifo) (x : ℕ)
    → IsFifo n f
    → x < count n f
    → count n f ≤ x + fuel
    → Found n thread f x (find n fuel thread f (slot n f.head x))
unfolding find
find-Found n zero thread f x v inside enough = absurd (omega arith)
find-Found n (suc fuel) thread f x v inside enough = elim (Bool-cases (item n f x == thread)) [
  | inl hit ↦ rw hit (
      inl (
        x,
        record {
          from = omega arith;
          upto = inside;
          here = equal (item n f x) thread hit;
          first = λ z l h. absurd (omega arith);
        },
        refl,
      ))
  | inr miss ↦ elim (ℕ_discrete (x + 1) (count n f)) [
    | yes end ↦
        rw
          (
            miss,
            same ((slot n f.head x + 1) % n) f.last
                (next ∙ ap (slot n f.head) end ∙ sym (last-slot n f v)),
          )
          (inr (λ z l h. at_x miss z (omega arith), refl))
    | no more ↦
        rw (miss, other ((slot n f.head x + 1) % n) f.last (goes_on more))
          (further miss (find-Found n fuel thread f (x + 1) v (omega arith) (omega arith)))
  ]
]
  where
    equal : (a b : ℕ) → a == b ≡ true → a ≡ b
    equal a b e = ground (arith, e)

    same : (a b : ℕ) → a ≡ b → a == b ≡ true
    same a b e = ground (arith, e)

    other : (a b : ℕ) → a ≢ b → a == b ≡ false
    other a b e = ground (arith, e)

    differ : (a b : ℕ) → a == b ≡ false → a ≢ b
    differ a b e = ground (arith, e)

    next : (slot n f.head x + 1) % n ≡ slot n f.head (x + 1)
    next = slot-next n f.head x v.head_low (omega (arith, count-bound n f v))

    at_x : item n f x == thread ≡ false → (z : ℕ) → z ≡ x → item n f z ≢ thread
    at_x miss z e h = differ (item n f x) thread miss (ap (item n f) (sym e) ∙ h)

    goes_on : x + 1 ≢ count n f → (slot n f.head x + 1) % n ≢ f.last
    goes_on more e =
        slot-apart_up n f.head (x + 1) (count n f) v.head_low (omega arith)
          (omega (arith, count-bound n f v)) (omega arith) (count-bound n f v) more
          (sym next ∙ e ∙ last-slot n f v)

    further :
        item n f x == thread ≡ false
        → Found n thread f (x + 1) (find n fuel thread f (slot n f.head (x + 1)))
        → Found n thread f x (find n fuel thread f ((slot n f.head x + 1) % n))
    further miss (inl (p, w, eq)) = inl (
      p,
      record {
        from = omega (arith, w.from);
        upto = w.upto;
        here = w.here;
        first = λ z l h. later miss z (w.first z) l h;
      },
      ap (find n fuel thread f) next ∙ eq,
    )
      where
        later :
            item n f x == thread ≡ false
            → (z : ℕ) → (x + 1 ≤ z → z < p → item n f z ≢ thread)
            → x ≤ z
            → z < p
            → item n f z ≢ thread
        later miss z w l h = elim (ℕ_discrete z x) [
          | yes e ↦ at_x miss z e
          | no e ↦ w (omega arith) h
        ]
    further miss (inr (w, eq)) = inr (
      (λ z l h. elim (ℕ_discrete z x) [ yes e ↦ at_x miss z e | no e ↦ w z (omega arith) h ]),
      ap (find n fuel thread f) next ∙ eq,
    )

-- A queue without the thread at position `p`.
pub record IsWithout (n : ℕ) (f f' : Fifo) (p : ℕ) : Type 0 where
  pub valid : IsFifo n f'
  pub shorter : count n f ≡ count n f' + 1
  pub under : (z : ℕ) → z < p → item n f' z ≡ item n f z
  pub behind : (z : ℕ) → p ≤ z → z < count n f' → item n f' z ≡ item n f (z + 1)

take_out-IsWithout :
    (n p : ℕ) (f : Fifo)
    → IsFifo n f
    → p < count n f
    → IsWithout n f (take_out n (slot n f.head p) f) p
unfolding take_out
take_out-IsWithout n p f v inside =
    let e = count n f - 1 in
    let bound = count-bound n f v in
    let end =
      ap (before n) (last-slot n f v ∙ back (count n f) (omega arith))
      ∙ before-slot n f.head e v.head_low (omega arith) in
    let f' = take_out n (slot n f.head p) f in
    let v' : IsFifo n f' = record {
      head_low = v.head_low;
      last_low = subst (λ x. x < n) (sym end) (slot-low n f.head e v.head_low (omega arith));
      meet = λ m. sym (equal (before n f.last) f.head m);
    } in
    let less =
      count-of n f' e v' (omega arith) end
        (λ m.
          slot-home n f.head e v.head_low (omega arith)
            (sym end ∙ equal (before n f.last) f.head m))
        (λ m. slot-away n f.head e (before n f.last) v.head_low end m) in
    let w =
      close_up-IsClosed n f.head n p e f.buffer v.head_low (omega arith) (omega arith)
        (omega arith) in
    let same = ap (λ l. close_up n n l (slot n f.head p) f.buffer) end in
    record {
      valid = v';
      shorter = omega (arith, less, inside);
      under = λ z l. ap (λ r. r (slot n f.head z)) same ∙ w.under z l;
      behind = λ z l h. ap (λ r. r (slot n f.head z)) same ∙ w.moved z l (omega (arith, less, h));
    }
  where
    equal : (a b : ℕ) → a == b ≡ true → a ≡ b
    equal a b e = ground (arith, e)

    back : (c : ℕ) → 0 < c → slot n f.head c ≡ slot n f.head (c - 1 + 1)
    back c some = ap (slot n f.head) (omega arith)

-- The removal of a thread from a queue either takes out the first place where the thread waits, with
-- POK_ERRNO_OK, and all others keep their order; or the thread does not wait there, the call returns
-- POK_ERRNO_NOTFOUND and the queue is as before.
pub pok_lockobj_remove_thread_lem :
    (n thread : ℕ) (f : Fifo)
    → IsFifo n f
    → ((p : ℕ) × (f' : Fifo) × IsAt n thread f 0 p
        × (pok_lockobj_remove_thread n thread f ≡ (f', ok))
        × IsWithout n f f' p)
      ⊎ (Absent n thread f 0 (count n f) × (pok_lockobj_remove_thread n thread f ≡ (f, notfound)))
unfolding pok_lockobj_remove_thread
pok_lockobj_remove_thread_lem n thread f v = elim (Bool-cases f.is_empty) [
  | inl none ↦ inr ((λ z l h. absurd (omega (arith, count_none n f v none))), ap start none)
  | inr some ↦
      let found =
        find-Found n n thread f 0 v (count_some n f v some) (omega (arith, count-bound n f v)) in
      elim found [
        | inl (p, w, eq) ↦
            let at = ap (find n n thread f) (sym (slot-zero n f.head v.head_low)) ∙ eq in
            inl (
              p,
              take_out n (slot n f.head p) f,
              w,
              ap start some
                  ∙ ap (λ t. finish t (t == n)) at
                  ∙ ap (finish (slot n f.head p)) (inside p (omega (arith, w.upto))),
              take_out-IsWithout n p f v w.upto,
            )
        | inr (w, eq) ↦
            let at = ap (find n n thread f) (sym (slot-zero n f.head v.head_low)) ∙ eq in
            inr (w, ap start some ∙ ap (λ t. finish t (t == n)) at ∙ ap (finish n) (same n))
      ]
]
  where
    finish : ℕ → Bool → Fifo × Errno
    finish tmp missing = if missing then (f, notfound) else (take_out n tmp f, ok)

    start : Bool → Fifo × Errno
    start none =
        if none
        then (f, notfound)
        else if find n n thread f f.head == n
        then (f, notfound)
        else (take_out n (find n n thread f f.head) f, ok)

    same : (a : ℕ) → a == a ≡ true
    same a = ground arith

    inside : (p : ℕ) → p < count n f → slot n f.head p == n ≡ false
    inside p l =
        below (slot n f.head p) (slot-low n f.head p v.head_low (omega (arith, count-bound n f v)))
      where
        below : (a : ℕ) → a < n → a == n ≡ false
        below a l = ground (arith, l)
