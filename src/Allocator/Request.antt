-- ===== src/Allocator/Request.antt =====
-- `pok_allocator_allocate` of libpok/core/allocator.c: what a request gets.
use pok_lab.Common.{
  ℕ, zero, suc, ◌+◌, ◌-◌, ◌≤◌, ◌<◌, ◌≡◌, ◌⊎◌, inl, inr, refl, ap, ◌∙◌, false, none, some, arith,
  leb, Bool-cases, ℕ_discrete,
}
use pok_lab.Allocator.{Allocator, Limits, check_init, fits, allocate_from, pok_allocator_allocate}
use pok_lab.Allocator.Tiled.{IsTiled, IsReady, IsSmall, check_init-IsTiled}
use pok_lab.Allocator.Heap.{Serves, take_space-Serves}

-- The loop finds a free space that is large enough, or there is none.
allocate_from-Serves :
    (c : Limits) (a : Allocator) (n : ℕ) (turns i : ℕ)
    → IsSmall c
    → IsTiled c a
    → a.used_spaces < c.nb_spaces
    → i + turns ≡ a.used_spaces
    → ((p : ℕ) × ((allocate_from turns i a n).1 ≡ some p)
        × Serves c a (allocate_from turns i a n).0 p n)
      ⊎ ((allocate_from turns i a n ≡ (a, none))
          × ((j : ℕ) → i ≤ j → j < a.used_spaces → fits a n j ≡ false))
unfolding allocate_from
allocate_from-Serves c a n zero i small v more turns = inr (refl, λ j l k. absurd (omega arith))
allocate_from-Serves c a n (suc turns) i small v more count = elim (Bool-cases (fits a n i)) [
  | inl hit ↦ rw hit (
      inl (
        (a.spaces i).start,
        refl,
        take_space-Serves c a i n small v (omega arith) (ground (arith, hit)) (ground (arith, hit))
            more,
      ))
  | inr miss ↦ rw miss (elim (allocate_from-Serves c a n turns (i + 1) small v more (omega arith)) [
    | inl found ↦ inl found
    | inr (same, none_fits) ↦ inr (
      same,
      λ j l k. elim (ℕ_discrete j i) [
        | yes here ↦ ap (fits a n) here ∙ miss
        | no away ↦ none_fits j (omega arith) k
      ],
    )
  ])
]

-- A request, in a memory that is set up or not: it is refused only if the table is full but for one place
-- or no free piece is long enough, and then nothing changes; else it gets as many bytes as it asked
-- for, inside the memory and apart from all that is in use, which stays in use, and nothing
-- else comes into use.
pub pok_allocator_allocate_lem :
    (c : Limits) (a : Allocator) (n : ℕ)
    → IsSmall c
    → IsReady c a
    → ((p : ℕ) × (a' : Allocator) × (pok_allocator_allocate c a n ≡ (a', some p))
        × Serves c (check_init c a) a' p n)
      ⊎ ((pok_allocator_allocate c a n ≡ (check_init c a, none))
          × IsTiled c (check_init c a)
          × ((c.nb_spaces ≤ (check_init c a).used_spaces + 1)
              ⊎ ((j : ℕ) → j < (check_init c a).used_spaces → fits (check_init c a) n j ≡ false)))
unfolding pok_allocator_allocate
pok_allocator_allocate_lem c a n small ready =
    let v = check_init-IsTiled c a small ready in
    elim (Bool-cases (leb (c.nb_spaces - 1) (check_init c a).used_spaces)) [
      | inl no_place ↦ rw no_place (inr (refl, v, inl (ground (arith, no_place))))
      | inr places ↦
          rw places
            (elim (allocate_from-Serves c (check_init c a) n (check_init c a).used_spaces 0 small v
              (ground (arith, places)) (omega arith)) [
                | inl (p, e, served) ↦ inl (
                  p,
                  (allocate_from (check_init c a).used_spaces 0 (check_init c a) n).0,
                  ap (λ r. ((allocate_from (check_init c a).used_spaces 0 (check_init c a) n).0, r))
                      e,
                  served,
                )
                | inr (same, none_fits) ↦ inr (same, v, inr (λ j l. none_fits j (omega arith) l))
              ])
    ]
