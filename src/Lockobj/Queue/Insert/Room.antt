-- ===== src/Lockobj/Queue/Insert/Room.antt =====
-- The loop of `pok_lockobj_enqueue` in kernel/core/lockobj.c that moves the threads behind the new one.
use pok_lab.Common.{
  ℕ, zero, suc, ◌+◌, ◌-◌, ◌≤◌, ◌<◌, ◌≡◌, ◌≢◌, refl, sym, ap, ◌∙◌, true, false, arith, ◌==◌, update,
  update_at, update_off, ℕ_discrete,
}
use pok_lab.Lockobj.Queue.{before, make_room}
use pok_lab.Lockobj.Queue.Slot.{slot, slot-apart, before-slot}

-- The threads at the positions from `p` to before `y` are one place further.
pub record IsMoved (n h p y : ℕ) (b r : ℕ → ℕ) : Type 0 where
  pub under : (z : ℕ) → z ≤ p → r (slot n h z) ≡ b (slot n h z)
  pub moved : (z : ℕ) → p ≤ z → z < y → r (slot n h (z + 1)) ≡ b (slot n h z)
  pub over : (z : ℕ) → y < z → z < n → r (slot n h z) ≡ b (slot n h z)

pub make_room-IsMoved :
    (n h fuel p y : ℕ) (b : ℕ → ℕ)
    → h < n
    → y < n
    → p ≤ y
    → y ≤ p + fuel
    → IsMoved n h p y b (make_room n fuel (slot n h p) (slot n h y) b)
unfolding make_room
make_room-IsMoved n h zero p y b low room le enough = record {
  under = λ z l. refl;
  moved = λ z l u. absurd (omega arith);
  over = λ z l u. refl;
}
make_room-IsMoved n h (suc fuel) p y b low room le enough = elim (ℕ_discrete y p) [
  | yes same ↦
      rw (equal (slot n h y) (slot n h p) (ap (slot n h) same)) (record {
        under = λ z l. refl;
        moved = λ z l u. absurd (omega arith);
        over = λ z l u. refl;
      })
  | no other ↦
      rw (differ (slot n h y) (slot n h p) (slot-apart n h y p low room (omega arith) other)) (
        further (omega arith) (
          make_room-IsMoved n h fuel p (y - 1) (update b (slot n h y) (b (slot n h (y - 1)))) low
            (omega arith) (omega arith) (omega arith)))
]
  where
    equal : (a b : ℕ) → a ≡ b → a == b ≡ true
    equal a b e = ground (arith, e)

    differ : (a b : ℕ) → a ≢ b → a == b ≡ false
    differ a b e = ground (arith, e)

    up : (y : ℕ) → p < y → slot n h y ≡ slot n h (y - 1 + 1)
    up y less = ap (slot n h) (omega arith)

    off :
        (z : ℕ)
        → z < n
        → z ≢ y
        → update b (slot n h y) (b (slot n h (y - 1))) (slot n h z) ≡ b (slot n h z)
    off z l other =
        update_off b (slot n h y) (slot n h z) (b (slot n h (y - 1)))
          (slot-apart n h z y low l room other)

    further :
        p < y
        → IsMoved n h p (y - 1) (update b (slot n h y) (b (slot n h (y - 1)))) (
            make_room n fuel
              (slot n h p)
              (slot n h (y - 1))
              (update b (slot n h y) (b (slot n h (y - 1)))))
        → IsMoved n h p y b (
            make_room n fuel
              (slot n h p)
              (before n (slot n h y))
              (update b (slot n h y) (b (before n (slot n h y)))))
    further less v =
        let x = y - 1 in
        let next = ap (before n) (up y less) ∙ before-slot n h x low (omega arith) in
        let b' = update b (slot n h y) (b (slot n h x)) in
        let same = ap (λ s. make_room n fuel (slot n h p) s (update b (slot n h y) (b s))) next in
        record {
          under = λ z l.
              ap (λ r. r (slot n h z)) same ∙ v.under z l ∙ off z (omega arith) (omega arith);
          moved = λ z l u. ap (λ r. r (slot n h (z + 1))) same ∙ elim (ℕ_discrete z x) [
            | yes last ↦
                v.over (z + 1) (omega arith) (omega arith)
                ∙ ap b' (ap (slot n h) (omega arith))
                ∙ update_at b (slot n h y) (b (slot n h x))
                ∙ ap (λ z. b (slot n h z)) (sym last)
            | no inner ↦ v.moved z l (omega arith) ∙ off z (omega arith) (omega arith)
          ];
          over = λ z l u.
              ap (λ r. r (slot n h z)) same ∙ v.over z (omega arith) u ∙ off z u (omega arith);
        }
