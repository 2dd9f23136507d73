-- ===== src/Lockobj/Queue/Remove/Close.antt =====
-- The loop of `pok_lockobj_remove_thread` in kernel/core/lockobj.c that closes the gap.
use pok_lab.Common.{
  ℕ, zero, suc, ◌+◌, ◌%◌, ◌≤◌, ◌<◌, ◌≡◌, ◌≢◌, refl, sym, ap, ◌∙◌, true, false, arith, ◌==◌, update,
  update_at, update_off, ℕ_discrete,
}
use pok_lab.Lockobj.Queue.{close_up}
use pok_lab.Lockobj.Queue.Slot.{slot, slot-apart, slot-next}

-- The threads at the positions behind `y`, up to `e`, are one place nearer to the head.
pub record IsClosed (n h y e : ℕ) (b r : ℕ → ℕ) : Type 0 where
  pub under : (z : ℕ) → z < y → r (slot n h z) ≡ b (slot n h z)
  pub moved : (z : ℕ) → y ≤ z → z < e → r (slot n h z) ≡ b (slot n h (z + 1))

pub close_up-IsClosed :
    (n h fuel y e : ℕ) (b : ℕ → ℕ)
    → h < n
    → e < n
    → y ≤ e
    → e ≤ y + fuel
    → IsClosed n h y e b (close_up n fuel (slot n h e) (slot n h y) b)
unfolding close_up
close_up-IsClosed n h zero y e b low room le enough = record {
  under = λ z l. refl;
  moved = λ z l u. absurd (omega arith);
}
close_up-IsClosed n h (suc fuel) y e b low room le enough = elim (ℕ_discrete y e) [
  | yes same ↦
      rw (equal (slot n h y) (slot n h e) (ap (slot n h) same))
        (record { under = λ z l. refl; moved = λ z l u. absurd (omega arith) })
  | no other ↦
      rw (differ (slot n h y) (slot n h e) (slot-apart n h y e low (omega arith) room other)) (
        further (omega arith) (
          close_up-IsClosed n h fuel (y + 1) e (update b (slot n h y) (b (slot n h (y + 1)))) low
            room (omega arith) (omega arith)))
]
  where
    equal : (a b : ℕ) → a ≡ b → a == b ≡ true
    equal a b e = ground (arith, e)

    differ : (a b : ℕ) → a ≢ b → a == b ≡ false
    differ a b e = ground (arith, e)

    off :
        (z : ℕ)
        → z < n
        → z ≢ y
        → update b (slot n h y) (b (slot n h (y + 1))) (slot n h z) ≡ b (slot n h z)
    off z l other =
        update_off b (slot n h y) (slot n h z) (b (slot n h (y + 1)))
          (slot-apart n h z y low l (omega arith) other)

    further :
        y < e
        → IsClosed n h (y + 1) e (update b (slot n h y) (b (slot n h (y + 1)))) (
            close_up n fuel
              (slot n h e)
              (slot n h (y + 1))
              (update b (slot n h y) (b (slot n h (y + 1)))))
        → IsClosed n h y e b (
            close_up n fuel
              (slot n h e)
              ((slot n h y + 1) % n)
              (update b (slot n h y) (b ((slot n h y + 1) % n))))
    further less v =
        let same =
          ap (λ s. close_up n fuel (slot n h e) s (update b (slot n h y) (b s)))
            (slot-next n h y low (omega arith)) in
        record {
          under = λ z l.
              ap (λ r. r (slot n h z)) same
              ∙ v.under z (omega arith)
              ∙ off z (omega arith) (omega arith);
          moved = λ z l u. ap (λ r. r (slot n h z)) same ∙ elim (ℕ_discrete z y) [
            | yes here ↦
                v.under z (omega arith)
                ∙ ap (λ z. update b (slot n h y) (b (slot n h (y + 1))) (slot n h z)) here
                ∙ update_at b (slot n h y) (b (slot n h (y + 1)))
                ∙ ap (λ z. b (slot n h (z + 1))) (sym here)
            | no later ↦ v.moved z (omega arith) u ∙ off (z + 1) (omega arith) (omega arith)
          ];
        }
