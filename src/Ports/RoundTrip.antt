-- ===== src/Ports/RoundTrip.antt =====
-- What a queueing port of kernel/middleware/portutils.c gives back of what was written to it.
use pok_lab.Common.{
  ℕ, ◌+◌, ◌-◌, ◌%◌, ◌≤◌, ◌<◌, ◌≡◌, refl, ap, ◌∙◌, ◌⊎◌, inl, inr, Bool, true, false, arith, leb, ltb,
  ◌&&◌, ◌==◌, if◌then◌else◌, Bool-cases, dec_lt, u32,
}
use pok_lab.Types.{Errno, ok, size}
use pok_lab.Kernel.{Now}
use pok_lab.Ports.{
  Port, queueing, Bytes, memcpy, read_ring, advanced_b, get_from, pok_port_get, write_ring,
  advanced_e, write_to, pok_port_write,
}

-- The bytes at the places of a copy, and elsewhere.
memcpy-inside :
    (mem : Bytes) (dest : ℕ) (from : Bytes) (source n i : ℕ)
    → i < n
    → memcpy mem dest from source n (dest + i) ≡ from (source + i)
unfolding memcpy
memcpy-inside mem dest from source n i low =
    rw (inside dest n i low) (ap (λ x. from (source + x)) (back dest i))
  where
    inside : (d n i : ℕ) → i < n → leb d (d + i) && ltb (d + i) (d + n) ≡ true
    inside d n i low = ground (arith, low)

    back : (d i : ℕ) → d + i - d ≡ i
    back d i = omega arith

-- The same, with the address and the byte's source given by equations.
pub memcpy-at :
    (mem : Bytes) (dest : ℕ) (from : Bytes) (source n a i b : ℕ)
    → a ≡ dest + i
    → i < n
    → source + i ≡ b
    → memcpy mem dest from source n a ≡ from b
memcpy-at mem dest from source n a i b at low is =
    ap (memcpy mem dest from source n) at ∙ memcpy-inside mem dest from source n i low ∙ ap from is

memcpy-outside :
    (mem : Bytes) (dest : ℕ) (from : Bytes) (source n i : ℕ)
    → (i < dest) ⊎ (dest + n ≤ i)
    → memcpy mem dest from source n i ≡ mem i
unfolding memcpy
memcpy-outside mem dest from source n i out = rw (outside dest n i out) refl
  where
    outside : (d n i : ℕ) → (i < d) ⊎ (d + n ≤ i) → leb d i && ltb i (d + n) ≡ false
    outside d n i out = ground (arith, out)

-- A read that starts where a write started gives the bytes that were written.
pub read-write :
    (index length off : ℕ) (mem from out : Bytes) (n i : ℕ)
    → off < length
    → n ≤ length
    → length < 2147483648
    → i < n
    → read_ring index length off (write_ring index length off mem from n) out n i ≡ from i
unfolding read_ring write_ring
read-write index length off mem from out n i low fits small inside =
    elim (Bool-cases (ltb length (u32 (off + n)))) [
      | inr straight ↦ rw straight (
          memcpy-at out 0 (memcpy mem (index + off) from 0 n) (index + off) n i i (index + off + i)
            (omega arith) inside refl
          ∙ memcpy-at mem (index + off) from 0 n (index + off + i) i i refl inside (omega arith))
      | inl wraps ↦ rw wraps (elim (dec_lt i (length - off)) [
        | yes front ↦
            memcpy-outside (memcpy out 0 (both mem) (index + off) (length - off)) (length - off)
              (both mem) index (n - (length - off)) i (inl front)
            ∙ memcpy-at out 0 (both mem) (index + off) (length - off) i i (index + off + i)
                (omega arith) front refl
            ∙ memcpy-outside (memcpy mem (index + off) from 0 (length - off)) index from
                (length - off) (n - (length - off)) (index + off + i) (inr (omega arith))
            ∙ memcpy-at mem (index + off) from 0 (length - off) (index + off + i) i i refl front
                (omega arith)
        | no back ↦
            memcpy-at (memcpy out 0 (both mem) (index + off) (length - off)) (length - off)
              (both mem) index (n - (length - off)) i (i - (length - off))
              (index + (i - (length - off))) (omega arith) (omega arith) refl
            ∙ memcpy-at (memcpy mem (index + off) from 0 (length - off)) index from (length - off)
                (n - (length - off)) (index + (i - (length - off))) (i - (length - off)) i refl
                (omega arith) (omega arith)
      ])
    ]
  where
    both : Bytes → Bytes
    both mem =
        memcpy (memcpy mem (index + off) from 0 (length - off)) index from (length - off)
          (n - (length - off))

test_false : (a b : ℕ) → b ≤ a → ltb a b ≡ false
test_false a b le = ground (arith, le)

-- A write that fits in a queueing port that is not full.
pub write_fits :
    (w : Now) (mem : Bytes) (p : Port) (from : Bytes) (n : ℕ)
    → p.kind ≡ queueing
    → p.is_full ≡ false
    → n ≤ p.length
    → pok_port_write w mem p from n
      ≡ (write_ring p.index p.length p.off_e mem from n, advanced_e p n, ok)
unfolding pok_port_write write_to
write_fits w mem p from n kind not_full fits =
    ap (λ kd. write_to kd w mem p from n) kind
    ∙ ap (λ b. if b then (mem, p, size) else if ltb p.length n then (mem, p, size) else stored)
        not_full
    ∙ ap (λ b. if b then (mem, p, size) else stored) (test_false p.length n fits)
  where
    stored : Bytes × Port × Errno
    stored = (write_ring p.index p.length p.off_e mem from n, advanced_e p n, ok)

-- A read behind such a write.
pub get_written :
    (mem : Bytes) (p : Port) (out : Bytes) (n : ℕ)
    → p.kind ≡ queueing
    → n ≤ p.length
    → pok_port_get mem (advanced_e p n) out n
      ≡ (advanced_b (advanced_e p n) n, read_ring p.index p.length p.off_b mem out n, ok)
unfolding pok_port_get get_from
get_written mem p out n kind fits =
    ap (λ kd. get_from kd mem (advanced_e p n) out n) kind
    ∙ ap (λ b. if b then (advanced_e p n, out, size) else fetched) (test_false p.length n fits)
  where
    fetched : Port × Bytes × Errno
    fetched = (advanced_b (advanced_e p n) n, read_ring p.index p.length p.off_b mem out n, ok)

-- A queueing port that is empty, with its offsets together and inside it: a write of some bytes
-- that fit is accepted, and a read of as many bytes afterwards is too, gives the same bytes, and leaves
-- the port empty again.
pub pok_port_get-pok_port_write :
    (w : Now) (mem : Bytes) (p : Port) (from out : Bytes) (n : ℕ)
    → p.kind ≡ queueing
    → p.is_full ≡ false
    → p.off_b ≡ p.off_e
    → p.off_e < p.length
    → n ≤ p.length
    → p.length < 2147483648
    → (mem' : Bytes) × (p' : Port) × (pok_port_write w mem p from n ≡ (mem', p', ok))
      × (p'' : Port) × (out' : Bytes) × (pok_port_get mem' p' out n ≡ (p'', out', ok))
      × ((i : ℕ) → i < n → out' i ≡ from i)
      × (p''.is_empty ≡ true)
      × (p''.is_full ≡ false)
pok_port_get-pok_port_write w mem p from out n kind not_full together low fits small =
    let mem' = write_ring p.index p.length p.off_e mem from n in
    let p' = advanced_e p n in
    (
      mem',
      p',
      write_fits w mem p from n kind not_full fits,
      advanced_b p' n,
      read_ring p.index p.length p.off_b mem' out n,
      get_written mem' p out n kind fits,
      λ i inside.
          ap (λ o. read_ring p.index p.length o mem' out n i) together
          ∙ read-write p.index p.length p.off_e mem from out n i low fits small inside,
      ap (λ b. (moved b).is_empty) same,
      ap (λ b. (moved b).is_full) same,
    )
  where
    eqb_true : (a b : ℕ) → a ≡ b → (a == b) ≡ true
    eqb_true a b e = ground (arith, e)

    same : (u32 (p.off_b + n) % p.length == u32 (p.off_e + n) % p.length) ≡ true
    same = eqb_true _ _ (ap (λ o. u32 (o + n) % p.length) together)

    moved : Bool → Port
    moved b =
        let p' = advanced_e p n in
        let off_b = u32 (p.off_b + n) % p.length in
        if b
        then record p' { off_b = off_b; is_empty = true; is_full = false }
        else record p' { off_b = off_b }
