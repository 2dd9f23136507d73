-- ===== src/Sched/Search.antt =====
-- The loops of kernel/core/sched.c that walk round the threads of a partition until a thread passes a
-- test, and the law of each: it ends, at the first thread in the order of the walk that passes.
use pok_lab.Common.{
  ℕ, zero, suc, ◌+◌, ◌-◌, ◌≤◌, ◌<◌, ◌≡◌, refl, ◌⊎◌, inl, inr, Bool, true, false, ◌||◌, Option, none,
  some, arith, ◌==◌, if◌then◌else◌, u32_mod, Bool-cases, ℕ_discrete, dec_lt,
}
use pok_lab.Sched.Ring.{next, place}

-- do { i = next(i); } while (i != from && !test(i)); the answer is the last `i`.
unfoldable pub walk : (ℕ → Bool) → ℕ → ℕ → ℕ → ℕ → ℕ → Option ℕ
walk test low high from zero i = none
walk test low high from (suc fuel) i =
    let rest = walk test low high from fuel (next low high i) in
    if next low high i == from || test (next low high i) then some (next low high i) else rest

-- while (i != from) { if (test(i)) return i; i = next(i); } where `some none` is the loop's end by its
-- condition, and `none` means that the fuel ran out.
unfoldable pub find_until : (ℕ → Bool) → ℕ → ℕ → ℕ → ℕ → ℕ → Option (Option ℕ)
find_until test low high from zero i = none
find_until test low high from (suc fuel) i =
    let rest = find_until test low high from fuel (next low high i) in
    if i == from then some none else if test i then some (some i) else rest

-- do { if (test(i)) return i; i = next(i); } while (i != from);
unfoldable pub find_do : (ℕ → Bool) → ℕ → ℕ → ℕ → ℕ → ℕ → Option (Option ℕ)
find_do test low high from fuel i =
    if test i then some (some i) else find_until test low high from fuel (next low high i)

module _ (test : ℕ → Bool) (low high from : ℕ) where
  -- The threads at the places from `k` up to `m`, without `m`, fail the test.
  abbrev pub FailBetween : ℕ → ℕ → Type 0
  FailBetween k m = (j : ℕ) → k ≤ j → j < m → test (place low high from j) ≡ false

  -- Thread `e` is the first that passes at a place from `k` on, before `from` is met again.
  abbrev pub IsFirst : ℕ → ℕ → Type 0
  IsFirst k e =
      (m : ℕ) × (e ≡ place low high from m)
      × (k ≤ m)
      × (m < high - low)
      × (test e ≡ true)
      × FailBetween k m

  -- What a search from place `k` answers.
  abbrev pub IsSearch : ℕ → Option (Option ℕ) → Type 0
  IsSearch k o =
      ((e : ℕ) × (o ≡ some (some e)) × IsFirst k e) ⊎ ((o ≡ some none) × FailBetween k (high - low))

  -- Where the walk stops: at the first place past `k` that passes, or back at `from`.
  abbrev pub IsWalk : ℕ → Option ℕ → Type 0
  IsWalk k o =
      (m : ℕ) × (o ≡ some (place low high from m))
      × (k < m)
      × (m ≤ high - low)
      × FailBetween (suc k) m
      × ((m ≡ high - low) ⊎ ((m < high - low) × (test (place low high from m) ≡ true)))

  FailBetween-suc :
      (k m : ℕ) → test (place low high from k) ≡ false → FailBetween (suc k) m → FailBetween k m
  FailBetween-suc k m f h j p q = elim (ℕ_discrete j k) [
    | yes e ↦ rw e f
    | no ne ↦ h j (omega arith) q
  ]

  module _ (in_ring : (low ≤ from) × (from < high)) (small : high < u32_mod) where
    pub place_last : place low high from (high - low) ≡ from
    place_last = ground arith

    pub next-place_le :
        (k : ℕ)
        → k < high - low
        → next low high (place low high from k) ≡ place low high from (suc k)
    next-place_le k h = ground arith

    pub place-ne_from : (k : ℕ) → 1 ≤ k → k < high - low → (place low high from k == from) ≡ false
    place-ne_from k p q = ground arith

    place-eq_from : (k : ℕ) → k ≡ high - low → (place low high from k == from) ≡ true
    place-eq_from k e = ground arith

    IsSearch-suc :
        (k : ℕ) (o : Option (Option ℕ))
        → test (place low high from k) ≡ false
        → IsSearch (suc k) o
        → IsSearch k o
    IsSearch-suc k o f (inl (e, eq, (m, at, p, q, t, b))) =
        inl (e, eq, (m, at, omega arith, q, t, FailBetween-suc k m f b))
    IsSearch-suc k o f (inr (eq, b)) = inr (eq, FailBetween-suc k (high - low) f b)

    IsFirst-here :
        (k : ℕ)
        → k < high - low
        → test (place low high from k) ≡ true
        → IsFirst k (place low high from k)
    IsFirst-here k q t = (k, refl, omega arith, q, t, λ j a b. absurd (omega arith))

    pub find_until-IsSearch :
        (r k fuel : ℕ)
        → r + k ≡ high - low
        → 1 ≤ k
        → r < fuel
        → IsSearch k (find_until test low high from fuel (place low high from k))
    unfolding find_until
    find_until-IsSearch r k zero e p h = absurd (omega arith)
    find_until-IsSearch zero k (suc fuel) e p h =
        inr (rw (place-eq_from k (omega arith)), λ j p q. absurd (omega arith))
    find_until-IsSearch (suc r) k (suc fuel) e p h =
        rw (place-ne_from k p (omega arith)) (elim (Bool-cases (test (place low high from k))) [
          | inl t ↦ rw t (inl (place low high from k, refl, IsFirst-here k (omega arith) t))
          | inr f ↦
              rw (f, next-place_le k (omega arith))
                (IsSearch-suc k _ f
                  (find_until-IsSearch r (suc k) fuel (omega arith) (omega arith) (omega arith)))
        ])

    -- The do-while form, from a place that is not the last.
    pub find_do-IsSearch :
        (k fuel : ℕ)
        → k < high - low
        → high - low ≤ fuel
        → IsSearch k (find_do test low high from fuel (place low high from k))
    unfolding find_do
    find_do-IsSearch k fuel h enough = elim (Bool-cases (test (place low high from k))) [
      | inl t ↦ rw t (inl (place low high from k, refl, IsFirst-here k h t))
      | inr f ↦
          rw (f, next-place_le k h)
            (IsSearch-suc k _ f (
              find_until-IsSearch (high - low - suc k) (suc k) fuel (omega arith) (omega arith)
                (omega arith)))
    ]

    IsWalk-suc :
        (k : ℕ) (o : Option ℕ)
        → test (place low high from (suc k)) ≡ false
        → IsWalk (suc k) o
        → IsWalk k o
    IsWalk-suc k o f (m, eq, p, q, b, c) = (m, eq, omega arith, q, FailBetween-suc (suc k) m f b, c)

    pub walk-IsWalk :
        (r k fuel : ℕ)
        → suc r + k ≡ high - low
        → r < fuel
        → IsWalk k (walk test low high from fuel (place low high from k))
    unfolding walk
    walk-IsWalk r k zero e h = absurd (omega arith)
    walk-IsWalk zero k (suc fuel) e h =
        rw (next-place_le k (omega arith), place-eq_from (suc k) (omega arith))
          (suc k, refl, omega arith, omega arith, λ j a b. absurd (omega arith), inl (omega arith))
    walk-IsWalk (suc r) k (suc fuel) e h =
        rw (next-place_le k (omega arith), place-ne_from (suc k) (omega arith) (omega arith))
          (elim (Bool-cases (test (place low high from (suc k)))) [
            | inl t ↦ rw t (
              suc k,
              refl,
              omega arith,
              omega arith,
              λ j a b. absurd (omega arith),
              inr (omega arith, t),
            )
            | inr f ↦
                rw f (IsWalk-suc k _ f (walk-IsWalk r (suc k) fuel (omega arith) (omega arith)))
          ])

    -- If all places but the first fail and `from` fails, the whole ring fails.
    pub ring_fails :
        FailBetween 1 (high - low)
        → test from ≡ false
        → (i : ℕ) → low ≤ i
        → i < high
        → test i ≡ false
    ring_fails b f i p q = elim (dec_lt i from) [
      | yes l ↦ rw (← before l) (b (i + (high - low) - from) (omega arith) (omega arith))
      | no g ↦ elim (ℕ_discrete i from) [
        | yes e ↦ rw e f
        | no ne ↦ rw (← after g) (b (i - from) (omega arith) (omega arith))
      ]
    ]
      where
        before : i < from → place low high from (i + (high - low) - from) ≡ i
        before l = ground arith

        after : ¬ (i < from) → place low high from (i - from) ≡ i
        after g = ground arith

    pub place-in_ring :
        (k : ℕ) → k ≤ high - low → (low ≤ place low high from k) × (place low high from k < high)
    place-in_ring k h = ground arith
