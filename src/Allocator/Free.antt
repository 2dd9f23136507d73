-- ===== src/Allocator/Free.antt =====
-- `pok_allocator_free` of libpok/core/allocator.c: that it ends, and what it does where nothing is merged.
use pok_lab.Common.{
  ℕ, zero, suc, ◌+◌, ◌≤◌, ◌<◌, ◌≡◌, ◌≢◌, ◌⊎◌, refl, ap, ◌∙◌, true, false, Option, none, some, arith,
  ◌==◌, if◌then◌else◌, ℕ_discrete, update_off, update_at,
}
use pok_lab.Allocator.{
  Space, Allocator, Limits, check_init, end_of, neighbour, grow, join, pok_allocator_merge_space,
  space_at, set_free, pok_allocator_free,
}
use pok_lab.Allocator.Tiled.{IsTiled, IsReady, IsSmall, check_init-IsTiled, check_init-ready}
use pok_lab.Allocator.Heap.{same-IsTiled}
use pok_lab.Allocator.Delete.{delete-used}

module _ (n : ℕ) (c : Limits) (space : ℕ) (a : Allocator) where
  pub merge-single : a.used_spaces ≡ 1 → pok_allocator_merge_space (suc n) c space a ≡ some a
  unfolding pok_allocator_merge_space
  merge-single single = ap (λ m. if m == 1 then some a else after m) single
    where
      after : ℕ → Option Allocator
      after m = elim (neighbour m 0 space a.spaces) [
        | none ↦ some a
        | some (space2, first, second) ↦
            pok_allocator_merge_space n c space2 (join c first second a)
      ]

  pub merge-by :
      {o : Option (ℕ × ℕ × ℕ)}
      → 1 < a.used_spaces
      → neighbour a.used_spaces 0 space a.spaces ≡ o
      → pok_allocator_merge_space (suc n) c space a ≡ elim o [
        | none ↦ some a
        | some (space2, first, second) ↦
            pok_allocator_merge_space n c space2 (join c first second a)
      ]
  unfolding pok_allocator_merge_space
  merge-by several e =
      ap (λ b. if b then some a else after (neighbour a.used_spaces 0 space a.spaces))
        (not_one a.used_spaces several)
      ∙ ap after e
    where
      not_one : (m : ℕ) → 1 < m → (m == 1) ≡ false
      not_one m l = ground (arith, l)

      after : Option (ℕ × ℕ × ℕ) → Option Allocator
      after o = elim o [
        | none ↦ some a
        | some (space2, first, second) ↦
            pok_allocator_merge_space n c space2 (join c first second a)
      ]

-- Each call of itself leaves one space less.
pok_allocator_merge_space-ends :
    (n : ℕ) (c : Limits) (space : ℕ) (a : Allocator)
    → 0 < a.used_spaces
    → a.used_spaces ≤ n
    → a.used_spaces < 4294967296
    → (a' : Allocator) × (pok_allocator_merge_space n c space a ≡ some a')
pok_allocator_merge_space-ends zero c space a some_used enough small = absurd (omega arith)
pok_allocator_merge_space-ends (suc n) c space a some_used enough small =
    elim (ℕ_discrete a.used_spaces 1) [
      | yes single ↦ (a, merge-single n c space a single)
      | no several ↦
          further (omega arith) (neighbour a.used_spaces 0 space a.spaces) refl
            (λ space2 first second.
              pok_allocator_merge_space-ends n c space2 (join c first second a)
                (omega (arith, delete-used c second (grow first second a) some_used small))
                (omega (arith, delete-used c second (grow first second a) some_used small))
                (omega (arith, delete-used c second (grow first second a) some_used small)))
    ]
  where
    further :
        1 < a.used_spaces
        → (o : Option (ℕ × ℕ × ℕ)) → neighbour a.used_spaces 0 space a.spaces ≡ o
        → ((space2 first second : ℕ)
            → (a' : Allocator) × (pok_allocator_merge_space n c space2 (join c first second a)
                ≡ some a'))
        → (a' : Allocator) × (pok_allocator_merge_space (suc n) c space a ≡ some a')
    further several none e ends = (a, merge-by n c space a several e)
    further several (some (space2, first, second)) e ends =
        let (a', done) = ends space2 first second in (a', merge-by n c space a several e ∙ done)

-- Nothing beside `space` can be merged with it.
abbrev pub IsLone : Allocator → ℕ → Type 0
IsLone a space =
    (j : ℕ)
    → j < a.used_spaces
    → j ≢ space
    → ((a.spaces j).allocated ≡ true)
      ⊎ (((a.spaces space).start ≢ end_of (a.spaces j))
          × ((a.spaces j).start ≢ end_of (a.spaces space)))

pub neighbour-lone :
    (a : Allocator) (space turns i : ℕ)
    → IsLone a space
    → i + turns ≤ a.used_spaces
    → neighbour turns i space a.spaces ≡ none
unfolding neighbour
neighbour-lone a space zero i lone l = refl
neighbour-lone a space (suc turns) i lone l =
    passed (ℕ_discrete i space) (neighbour-lone a space turns (i + 1) lone (omega arith))
  where
    passed :
        Dec (i ≡ space)
        → neighbour turns (i + 1) space a.spaces ≡ none
        → neighbour (suc turns) i space a.spaces ≡ none
    passed (yes here) ih = ground (arith, here, ih)
    passed (no away) ih = ground (arith, ih, lone i (omega arith) away)

pub space_at-first :
    (s : ℕ → Space) (ptr k turns i : ℕ)
    → ((j : ℕ) → j < k → (s j).start ≢ ptr)
    → (s k).start ≡ ptr
    → i ≤ k
    → k < i + turns
    → space_at turns i s ptr ≡ some k
unfolding space_at
space_at-first s ptr k zero i off at l r = absurd (omega arith)
space_at-first s ptr k (suc turns) i off at l r = elim (ℕ_discrete i k) [
  | yes here ↦ ground (arith, at, ap (λ j. (s j).start) here, here)
  | no away ↦ ground (
    arith,
    off i (omega arith),
    space_at-first s ptr k turns (i + 1) off at (omega arith) (omega arith),
  )
]

-- What a release does, by the place of the pointer's space.
abbrev freed : Limits → Allocator → Option ℕ → Option Allocator
freed c a none = some a
freed c a (some i) = pok_allocator_merge_space (suc a.used_spaces) c i (set_free i a)

free-freed :
    (c : Limits) (ptr : ℕ) (a : Allocator)
    → pok_allocator_free c ptr a
      ≡ freed c
          (check_init c a)
          (space_at (check_init c a).used_spaces 0 (check_init c a).spaces ptr)
unfolding pok_allocator_free
free-freed c ptr a = ground arith

pub free-found :
    (c : Limits) (ptr : ℕ) (a : Allocator) (k : ℕ)
    → a.initialized ≡ true
    → k < a.used_spaces
    → ((j : ℕ) → j < k → (a.spaces j).start ≢ ptr)
    → (a.spaces k).start ≡ ptr
    → pok_allocator_free c ptr a ≡ pok_allocator_merge_space (suc a.used_spaces) c k (set_free k a)
free-found c ptr a k ready used off at =
    free-freed c ptr a
    ∙ ap (λ x. freed c x (space_at x.used_spaces 0 x.spaces ptr)) (check_init-ready c a ready)
    ∙ ap (freed c a)
        (space_at-first a.spaces ptr k a.used_spaces 0 off at (omega arith) (omega arith))

pub free-unmerged :
    (c : Limits) (ptr : ℕ) (a : Allocator) (k : ℕ)
    → a.initialized ≡ true
    → k < a.used_spaces
    → ((j : ℕ) → j < k → (a.spaces j).start ≢ ptr)
    → (a.spaces k).start ≡ ptr
    → IsLone a k
    → pok_allocator_free c ptr a ≡ some (set_free k a)
free-unmerged c ptr a k ready used off at lone =
    free-found c ptr a k ready used off at ∙ unmerged (ℕ_discrete a.used_spaces 1)
  where
    off_k : (j : ℕ) → j ≢ k → (set_free k a).spaces j ≡ a.spaces j
    off_k j away = update_off a.spaces k j _ away

    still_lone : IsLone (set_free k a) k
    still_lone j l away = ground (arith, lone j l away, off_k j away)

    unmerged :
        Dec (a.used_spaces ≡ 1)
        → pok_allocator_merge_space (suc a.used_spaces) c k (set_free k a) ≡ some (set_free k a)
    unmerged (yes single) = merge-single a.used_spaces c k (set_free k a) single
    unmerged (no several) =
        merge-by a.used_spaces c k (set_free k a) (omega arith)
          (neighbour-lone (set_free k a) k a.used_spaces 0 still_lone (omega arith))

-- In a table that tiles the memory, a pointer to a piece, where no earlier piece starts and no free piece
-- stands beside it: the piece is not allocated any more, at the same place and with the same size;
-- the other pieces and their number stay the same, and the table still tiles the memory.
pub pok_allocator_free-lone :
    (c : Limits) (ptr : ℕ) (a : Allocator) (k : ℕ)
    → IsTiled c a
    → k < a.used_spaces
    → ((j : ℕ) → j < k → (a.spaces j).start ≢ ptr)
    → (a.spaces k).start ≡ ptr
    → IsLone a k
    → (a' : Allocator) × (pok_allocator_free c ptr a ≡ some a')
      × ((a'.spaces k).allocated ≡ false)
      × ((a'.spaces k).start ≡ (a.spaces k).start)
      × ((a'.spaces k).size ≡ (a.spaces k).size)
      × ((j : ℕ) → j ≢ k → a'.spaces j ≡ a.spaces j)
      × (a'.used_spaces ≡ a.used_spaces)
      × IsTiled c a'
pok_allocator_free-lone c ptr a k v used off at lone = (
  set_free k a,
  free-unmerged c ptr a k v.ready used off at lone,
  ap (λ s. s.allocated) own,
  ap (λ s. s.start) own,
  ap (λ s. s.size) own,
  λ j away. update_off a.spaces k j _ away,
  refl,
  same-IsTiled c a (set_free k a).spaces (λ j. ground arith) (λ j. ground arith) v,
)
  where
    own : (set_free k a).spaces k ≡ record (a.spaces k) { allocated = false }
    own = update_at a.spaces k _

-- A release ends, in a memory that is set up or not, and whatever the pointer is.
pub pok_allocator_free-ends :
    (c : Limits) (ptr : ℕ) (a : Allocator)
    → IsSmall c
    → IsReady c a
    → (a' : Allocator) × (pok_allocator_free c ptr a ≡ some a')
pok_allocator_free-ends c ptr a small ready =
    let (a', done) = ends (space_at b.used_spaces 0 b.spaces ptr) in (a', free-freed c ptr a ∙ done)
  where
    b : Allocator
    b = check_init c a

    v : IsTiled c b
    v = check_init-IsTiled c a small ready

    ends : (o : Option ℕ) → (a' : Allocator) × (freed c b o ≡ some a')
    ends none = (b, refl)
    ends (some i) =
        pok_allocator_merge_space-ends (suc b.used_spaces) c i (set_free i b) v.some_used
          (omega arith) (omega (arith, v.room, small.table))
