-- ===== src/Ports/Overrun.antt =====
-- What a write that is longer than the free room does to a ring, in kernel/middleware/portutils.c.
use pok_lab.Common.{
  ℕ, ◌+◌, ◌-◌, ◌≤◌, ◌<◌, ◌≡◌, refl, ap, ◌∙◌, true, false, arith, ltb, if◌then◌else◌, u32,
}
use pok_lab.Types.{Errno, ok, size}
use pok_lab.Kernel.{Now}
use pok_lab.Ports.{Port, queueing, Bytes, memcpy, write_ring, advanced_e, write_to, pok_port_write}
use pok_lab.Ports.RoundTrip.{memcpy-at}

-- A write of more bytes than are free puts one of them in the place of the first byte of the ring.
over-first :
    (index length b e : ℕ) (mem from : Bytes) (n : ℕ)
    → b < e
    → e < length
    → length - e + b < n
    → n ≤ length
    → length < 2147483648
    → write_ring index length e mem from n (index + b) ≡ from (length - e + b)
unfolding write_ring
over-first index length b e mem from n less low over fits small =
    rw (wraps length e n (omega arith) fits small low) (
      memcpy-at (memcpy mem (index + e) from 0 (length - e)) index from (length - e)
        (n - (length - e)) (index + b) b (length - e + b) refl (omega arith) refl)
  where
    wraps :
        (length e n : ℕ)
        → length < e + n
        → n ≤ length
        → length < 2147483648
        → e < length
        → ltb length (u32 (e + n)) ≡ true
    wraps length e n over fits small low = ground (arith, over, fits, small, low)

-- A queueing port that is not full and holds bytes, the first before the end: a write of more bytes
-- than are free, but not of more than the ring has, is accepted, and the first byte that was not read
-- is overwritten.
pub pok_port_write-overrun :
    (w : Now) (mem : Bytes) (p : Port) (from : Bytes) (n : ℕ)
    → p.kind ≡ queueing
    → p.is_full ≡ false
    → p.off_b < p.off_e
    → p.off_e < p.length
    → p.length - p.off_e + p.off_b < n
    → n ≤ p.length
    → p.length < 2147483648
    → (mem' : Bytes) × (p' : Port) × (pok_port_write w mem p from n ≡ (mem', p', ok))
      × (p'.off_b ≡ p.off_b)
      × (mem' (p.index + p.off_b) ≡ from (p.length - p.off_e + p.off_b))
unfolding pok_port_write write_to
pok_port_write-overrun w mem p from n kind not_full less low over fits small = (
  write_ring p.index p.length p.off_e mem from n,
  advanced_e p n,
  written,
  refl,
  over-first p.index p.length p.off_b p.off_e mem from n less low over fits small,
)
  where
    stored : Bytes × Port × Errno
    stored = (write_ring p.index p.length p.off_e mem from n, advanced_e p n, ok)

    ltb_false : (a b : ℕ) → b ≤ a → ltb a b ≡ false
    ltb_false a b le = ground (arith, le)

    written : pok_port_write w mem p from n ≡ stored
    written =
        ap (λ kd. write_to kd w mem p from n) kind
        ∙ ap (λ b. if b then (mem, p, size) else if ltb p.length n then (mem, p, size) else stored)
            not_full
        ∙ ap (λ b. if b then (mem, p, size) else stored) (ltb_false p.length n fits)
