-- ===== src/Allocator/Lost.antt =====
-- Pieces in use that `pok_allocator_merge_space` of libpok/core/allocator.c takes for free ones.
use pok_lab.Common.{
  ℕ, zero, suc, ◌+◌, ◌-◌, ◌≤◌, ◌<◌, ◌≡◌, ◌≢◌, inl, inr, refl, ap, ◌∙◌, true, false, some, arith,
}
use pok_lab.Allocator.{
  Allocator, Limits, neighbour, grow, join, set_free, pok_allocator_merge_space, pok_allocator_free,
  pok_allocator_allocate, allocate_from, check_init,
}
use pok_lab.Allocator.Delete.{delete-initialized}
use pok_lab.Allocator.Free.{free-unmerged, free-found, merge-single, IsLone}
use pok_lab.Allocator.Joined.{piece, join-grown, join-moved, join-used, merge-join}
use pok_lab.Allocator.Three.{Sizes, IsThree, three, three-IsThree}

-- A request where one free space is the whole memory.
whole-request :
    (c : Limits) (a : Allocator) (n : ℕ)
    → a.initialized ≡ true
    → a.used_spaces ≡ 1
    → a.spaces 0 ≡ piece 0 c.memory_size false
    → 5 < c.nb_spaces
    → n ≤ c.memory_size
    → (pok_allocator_allocate c a n).1 ≡ some 0
unfolding pok_allocator_allocate allocate_from check_init
whole-request c a n ready used at places l = ground (arith, ready, used, at, places, l)

module _ (c : Limits) (a : Allocator) (x y z : ℕ) (v : Sizes c x y z) (h : IsThree c a x y z) where
  abbrev r : ℕ
  r = c.memory_size - (x + y + z)

  -- The second piece has no free one beside it.
  second-IsLone : IsLone a 1
  second-IsLone zero l away = inl (ap (λ t. t.allocated) h.at_0)
  second-IsLone (suc zero) l away = absurd (away refl)
  second-IsLone (suc (suc zero)) l away = inl (ap (λ t. t.allocated) h.at_2)
  second-IsLone (suc (suc (suc zero))) l away = inr (
    (λ e. ground (arith, h.at_1, h.at_3, e, v.first, v.second, v.third, v.all, v.memory)),
    (λ e. ground (arith, h.at_1, h.at_3, e, v.first, v.second, v.third, v.all, v.memory)),
  )
  second-IsLone (suc (suc (suc (suc j)))) l away = absurd (omega (arith, h.used))

  not_first : (j : ℕ) → j < 1 → (a.spaces j).start ≢ x
  not_first zero l e = omega (arith, ap (λ t. t.start) h.at_0, e, v.first)
  not_first (suc j) l e = absurd (omega arith)

  second_freed : pok_allocator_free c x a ≡ some (set_free 1 a)
  second_freed =
      free-unmerged c x a 1 h.ready (omega (arith, h.used)) not_first (ap (λ t. t.start) h.at_1)
        second-IsLone

  abbrev a2 : Allocator
  a2 = set_free 0 (set_free 1 a)

  abbrev a3 : Allocator
  a3 = join c 0 1 a2

  abbrev a4 : Allocator
  a4 = join c 0 1 a3

  abbrev a5 : Allocator
  a5 = join c 0 1 a4

  a3_0 : a3.spaces 0 ≡ piece 0 (x + y) false
  a3_0 =
      join-grown c 0 1 a2 (λ e. cc) 0 x y false (omega arith)
        (ap (λ t. piece t.start t.size false) h.at_0) (ap (λ t. t.size) h.at_1)
        (omega (arith, v.all, v.memory))

  a3_1 : a3.spaces 1 ≡ piece (x + y) z true
  a3_1 = join-moved c 0 1 a2 (λ e. cc) 1 (λ e. cc) (omega arith) (omega (arith, v.places)) ∙ h.at_2

  a3_2 : a3.spaces 2 ≡ piece (x + y + z) r false
  a3_2 = join-moved c 0 1 a2 (λ e. cc) 2 (λ e. cc) (omega arith) (omega (arith, v.places)) ∙ h.at_3

  a4_0 : a4.spaces 0 ≡ piece 0 (x + y + z) false
  a4_0 =
      join-grown c 0 1 a3 (λ e. cc) 0 (x + y) z false (omega arith) a3_0 (ap (λ t. t.size) a3_1)
        (omega (arith, v.all, v.memory))

  a4_1 : a4.spaces 1 ≡ piece (x + y + z) r false
  a4_1 = join-moved c 0 1 a3 (λ e. cc) 1 (λ e. cc) (omega arith) (omega (arith, v.places)) ∙ a3_2

  a5_0 : a5.spaces 0 ≡ piece 0 (x + y + z + r) false
  a5_0 =
      join-grown c 0 1 a4 (λ e. cc) 0 (x + y + z) r false (omega arith) a4_0 (ap (λ t. t.size) a4_1)
        (omega (arith, v.all, v.memory))

  a3_used : a3.used_spaces ≡ 3
  a3_used = join-used c 0 1 a2 (λ e. cc) 3 h.used (omega arith)

  a4_used : a4.used_spaces ≡ 2
  a4_used = join-used c 0 1 a3 (λ e. cc) 2 a3_used (omega arith)

  a5_used : a5.used_spaces ≡ 1
  a5_used = join-used c 0 1 a4 (λ e. cc) 1 a4_used (omega arith)

  beside_2 : neighbour 4 0 0 a2.spaces ≡ some (1, 0, 1)
  unfolding neighbour
  beside_2 = ground (arith, h.at_0, h.at_1, v.first, v.second, v.all, v.memory)

  beside_3 : neighbour 3 0 1 a3.spaces ≡ some (0, 0, 1)
  unfolding neighbour
  beside_3 = ground (arith, a3_0, a3_1, v.first, v.second, v.all, v.memory)

  beside_4 : neighbour 2 0 0 a4.spaces ≡ some (1, 0, 1)
  unfolding neighbour
  beside_4 = ground (arith, a4_0, a4_1, v.first, v.second, v.all, v.memory)

  first_freed : pok_allocator_free c 0 (set_free 1 a) ≡ some a5
  first_freed =
      free-found c 0 (set_free 1 a) 0 h.ready (omega (arith, h.used)) (λ j l. absurd (omega arith))
        (ap (λ t. t.start) h.at_0)
      ∙ ap (λ m. pok_allocator_merge_space (suc m) c 0 a2) h.used
      ∙ merge-join 4 c 0 a2 4 1 0 1 h.used (omega arith) beside_2
      ∙ merge-join 3 c 1 a3 3 0 0 1 a3_used (omega arith) beside_3
      ∙ merge-join 2 c 0 a4 2 1 0 1 a4_used (omega arith) beside_4
      ∙ merge-single 1 c 1 a5 a5_used

  a5_ready : a5.initialized ≡ true
  a5_ready =
      delete-initialized c 1 (grow 0 1 a4)
      ∙ delete-initialized c 1 (grow 0 1 a3)
      ∙ delete-initialized c 1 (grow 0 1 a2)
      ∙ h.ready

  all_free : a5.spaces 0 ≡ piece 0 c.memory_size false
  all_free = a5_0 ∙ ap (λ k. piece 0 k false) (omega (arith, v.all))

-- Three requests in a memory that is not yet set up, of sizes that leave some of it. When the second piece
-- is freed and then the first one, the third is free too though it was not given back: the table is one
-- free space of the whole memory, and the next request, of any size up to all of it, gets the memory
-- from 0 on, the bytes of the third piece among it.
pub pok_allocator_free-loses :
    (c : Limits) (a : Allocator) (x y z : ℕ)
    → Sizes c x y z
    → a.initialized ≡ false
    → (a1 a2 : Allocator) × (pok_allocator_free c x (three c a x y z) ≡ some a1)
      × (pok_allocator_free c 0 a1 ≡ some a2)
      × (a2.used_spaces ≡ 1)
      × (a2.spaces 0 ≡ piece 0 c.memory_size false)
      × ((n : ℕ) → n ≤ c.memory_size → (pok_allocator_allocate c a2 n).1 ≡ some 0)
pok_allocator_free-loses c a x y z v raw =
    let h = three-IsThree c a x y z v raw in
    let t = three c a x y z in
    (
      set_free 1 t,
      a5 c t x y z v h,
      second_freed c t x y z v h,
      first_freed c t x y z v h,
      a5_used c t x y z v h,
      all_free c t x y z v h,
      λ n l.
          whole-request c (a5 c t x y z v h) n (a5_ready c t x y z v h) (a5_used c t x y z v h)
            (all_free c t x y z v h) v.places l,
    )
