-- ===== src/Sched/Ring.antt =====
-- The walk round the threads of a partition that the election loops of kernel/core/sched.c share:
-- `i++; if (i >= index_high) i = index_low;`, from some thread on until it comes back there.
use pok_lab.Common.{
  subst, ℕ_discrete, dec_lt, ℕ, zero, suc, ◌+◌, ◌-◌, ◌≤◌, ◌<◌, ◌≡◌, true, false, List, [], ◌∷◌,
  foldl, Option, none, some, arith, leb, ◌==◌, if◌then◌else◌, u32, u32_mod,
}

-- i++; if (i >= index_high) i = index_low;
abbrev pub next : ℕ → ℕ → ℕ → ℕ
next low high i = if leb high (u32 (i + 1)) then low else u32 (i + 1)

-- do { s = body(i, s); i = next(i); } while (i != from); `none` means that the fuel ran out.
pub scan {ℓ} : {S : Type ℓ} → (S → ℕ → S) → ℕ → ℕ → ℕ → ℕ → ℕ → S → Option S
scan body low high from zero i s = none
scan body low high from (suc fuel) i s =
    let rest = scan body low high from fuel (next low high i) (body s i) in
    if next low high i == from then some (body s i) else rest

-- The thread that is `k` places past `from` on the ring of the threads from `low` up to `high`.
abbrev pub place : ℕ → ℕ → ℕ → ℕ → ℕ
place low high from k = if leb high (from + k) then from + k - (high - low) else from + k

-- The threads at the places from `k` on, `r` of them.
abbrev pub visits : ℕ → ℕ → ℕ → ℕ → ℕ → List ℕ
visits low high from k zero = []
visits low high from k (suc r) = place low high from k ∷ visits low high from (suc k) r

-- All the threads of the ring, in the order of the walk that starts at `from`.
abbrev pub ring : ℕ → ℕ → ℕ → List ℕ
ring low high from = visits low high from 0 (high - low)

-- A predicate at every element of a list.
abbrev pub All {ℓ} : (ℕ → Type ℓ) → List ℕ → Type ℓ
All P [] = Unit
All P (x ∷ xs) = P x × All P xs

module _ {low high from : ℕ} (in_ring : (low ≤ from) × (from < high)) (small : high < u32_mod) where
  pub next-place :
      (k : ℕ)
      → suc k < high - low
      → next low high (place low high from k) ≡ place low high from (suc k)
  next-place k h = ground arith

  next_last : (k : ℕ) → suc k ≡ high - low → (next low high (place low high from k) == from) ≡ true
  next_last k h = ground arith

  pub place-ne : (k : ℕ) → suc k < high - low → (place low high from (suc k) == from) ≡ false
  place-ne k h = ground arith

  scan-visits {ℓ} :
      {S : Type ℓ} (body : S → ℕ → S) (r k fuel : ℕ) (s : S)
      → suc r + k ≡ high - low
      → suc r ≤ fuel
      → scan body low high from fuel (place low high from k) s
        ≡ some (foldl body s (visits low high from k (suc r)))
  unfolding scan
  scan-visits body r k zero s e h = elim h [ ]
  scan-visits body zero k (suc fuel) s e h = rw (next_last k (omega arith))
  scan-visits body (suc r) k (suc fuel) s e h = rw (next-place k (omega arith)) (
      rw (place-ne k (omega arith)) (scan-visits body r (suc k) fuel _ (omega arith) (omega arith)))

  -- The walk ends within as many rounds as the ring has threads, and meets each of them in order.
  pub scan-ring {ℓ} :
      {S : Type ℓ} (body : S → ℕ → S) (fuel : ℕ) (s : S)
      → high - low ≤ fuel
      → scan body low high from fuel from s ≡ some (foldl body s (ring low high from))
  scan-ring body fuel s h =
      subst
        (λ n. scan body low high from fuel from s ≡ some (foldl body s (visits low high from 0 n)))
        size
        (subst
          (λ i.
            scan body low high from fuel i s
            ≡ some (foldl body s (visits low high from 0 (suc (high - low - 1)))))
          first (scan-visits body (high - low - 1) 0 fuel s (omega arith) (omega arith)))
    where
      size : suc (high - low - 1) ≡ high - low
      size = omega arith

      first : place low high from 0 ≡ from
      first = ground arith

  All-visits {ℓ} :
      (P : ℕ → Type ℓ)
      → ((i : ℕ) → low ≤ i → i < high → P i)
      → (r k : ℕ) → r + k ≤ high - low
      → All P (visits low high from k r)
  All-visits P p zero k h = tt
  All-visits P p (suc r) k h = (
    p (place low high from k) (ground arith) (ground arith),
    All-visits P p r (suc k) (omega arith),
  )

  -- The walk stays in the ring.
  pub All-ring {ℓ} :
      (P : ℕ → Type ℓ) → ((i : ℕ) → low ≤ i → i < high → P i) → All P (ring low high from)
  All-ring P p = All-visits P p (high - low) 0 (omega arith)

  visits-All {ℓ} :
      (P : ℕ → Type ℓ) (r k m : ℕ)
      → All P (visits low high from k r)
      → k ≤ m
      → m < k + r
      → P (place low high from m)
  visits-All P zero k m a p q = absurd (omega arith)
  visits-All P (suc r) k m a p q = elim (ℕ_discrete m k) [
    | yes e ↦ rw e a.0
    | no ne ↦ visits-All P r (suc k) m a.1 (omega arith) (omega arith)
  ]

  -- The walk meets every thread of the ring.
  pub ring-All {ℓ} :
      (P : ℕ → Type ℓ) → All P (ring low high from) → (i : ℕ) → low ≤ i → i < high → P i
  ring-All P a i p q = elim (dec_lt i from) [
    | yes l ↦
        subst P (above l)
          (visits-All P (high - low) 0 (i + (high - low) - from) a (omega arith) (omega arith))
    | no g ↦
        subst P (below g) (visits-All P (high - low) 0 (i - from) a (omega arith) (omega arith))
  ]
    where
      above : i < from → place low high from (i + (high - low) - from) ≡ i
      above l = ground arith

      below : ¬ (i < from) → place low high from (i - from) ≡ i
      below g = ground arith
