-- ===== src/Processors/RoundTrip.antt =====
-- The two numberings of kernel/core/multiprocessing.c are each other's inverse.
use pok_lab.Common.{
  ℕ, zero, suc, ◌+◌, ◌-◌, ◌≤◌, ◌<◌, ◌≡◌, sym, ap, ◌∙◌, true, dec_lt, some, arith, leb, ◌==◌, u8,
}
use pok_lab.Processors.{bit, real_from, get_proc_real_id, count_from, get_proc_partition_id}

-- The processors of the mask below `i`.
unfoldable pub below : ℕ → ℕ → ℕ
below tmp zero = 0
below tmp (suc i) = below tmp i + bit tmp i

bit-small : (tmp i : ℕ) → bit tmp i ≤ 1
bit-small tmp i = omega arith

below-bound : (tmp i : ℕ) → below tmp i ≤ i
unfolding below
below-bound tmp zero = omega arith
below-bound tmp (suc i) = omega (arith, below-bound tmp i, bit-small tmp i)

below-next : (tmp i : ℕ) → below tmp (i + 1) ≡ below tmp i + bit tmp i
unfolding below
below-next tmp i = ap (below tmp) (plus_one i)
  where
    plus_one : (i : ℕ) → i + 1 ≡ suc i
    plus_one i = omega arith

one_on : (tmp i : ℕ) → i < 64 → u8 (below tmp i + bit tmp i) ≡ below tmp (i + 1)
one_on tmp i small = omega (arith, below-bound tmp i, bit-small tmp i) ∙ sym (below-next tmp i)

count_from-below :
    (n tmp i m : ℕ) → n + i ≡ m → m ≤ 64 → count_from n tmp i (below tmp i) ≡ below tmp m
unfolding count_from
count_from-below zero tmp i m at small = ap (below tmp) (omega arith)
count_from-below (suc n) tmp i m at small =
    ap (count_from n tmp (i + 1)) (one_on tmp i (omega arith))
    ∙ count_from-below n tmp (i + 1) m (omega arith) small

-- The loop ends once it has counted more processors than the number that is asked for.
real_from-ends : (n tmp t c proc : ℕ) → t < c → real_from n tmp t c proc ≡ some (proc - 1)
unfolding real_from
real_from-ends zero tmp t c proc more = ground arith
real_from-ends (suc n) tmp t c proc more = ground arith

-- The loop, where it has counted the processors below `proc`.
real_from-below :
    (n tmp t proc : ℕ)
    → n + proc ≡ 64
    → below tmp proc ≤ t
    → t < below tmp 64
    → (p : ℕ) × (real_from n tmp t (below tmp proc) proc ≡ some p)
      × (below tmp p ≡ t)
      × (bit tmp p ≡ 1)
      × (p < 64)
unfolding real_from
real_from-below zero tmp t proc at low many =
    absurd (omega (arith, ap (below tmp) (at_end proc at), low, many))
  where
    at_end : (proc : ℕ) → 0 + proc ≡ 64 → proc ≡ 64
    at_end proc at = omega arith
real_from-below (suc n) tmp t proc at low many = elim (dec_lt t (below tmp (proc + 1))) [
  | yes more ↦ (
    proc,
    rw (sub t (below tmp proc) low) (
        rw (one_on tmp proc (omega arith))
          (real_from-ends n tmp t (below tmp (proc + 1)) (proc + 1) more ∙ ap some (back proc))),
    omega (arith, below-next tmp proc, bit-small tmp proc),
    omega (arith, below-next tmp proc, bit-small tmp proc),
    omega arith,
  )
  | no less ↦
      let (p, eq, count, set, under) =
        real_from-below n tmp t (proc + 1) (omega arith) (omega arith) many in
      (
        p,
        rw (sub t (below tmp proc) low) (rw (one_on tmp proc (omega arith)) eq),
        count,
        set,
        under,
      )
]
  where
    back : (proc : ℕ) → proc + 1 - 1 ≡ proc
    back proc = omega arith

    sub : (t c : ℕ) → c ≤ t → leb c t ≡ true
    sub t c low = ground arith

-- A processor that a partition numbers, below the number of processors of its mask, is one of the
-- machine, below 64, and the machine's number leads back to the partition's: neither function fails
-- an assertion.
pub get_proc_partition_id-get_proc_real_id :
    (affinity : ℕ → ℕ) (pid t : ℕ)
    → t < below (affinity pid) 64
    → (p : ℕ) × (get_proc_real_id affinity pid t ≡ some p)
      × (p < 64)
      × (get_proc_partition_id affinity pid p ≡ some t)
unfolding get_proc_real_id get_proc_partition_id below
get_proc_partition_id-get_proc_real_id affinity pid t many =
    let tmp = affinity pid in
    let (p, eq, count, set, small) = real_from-below 64 tmp t 0 (omega arith) (omega arith) many in
    (p, eq, small, rw (is_one (bit tmp p) set) (ap some (counted p small ∙ count)))
  where
    is_one : (b : ℕ) → b ≡ 1 → (b == 1) ≡ true
    is_one b set = ground arith

    counted : (p : ℕ) → p < 64 → count_from p (affinity pid) 0 0 ≡ below (affinity pid) p
    counted p small = count_from-below p (affinity pid) 0 p (omega arith) (omega arith)
