-- ===== src/Allocator/Leak.antt =====
-- Memory that `pok_allocator_free` of libpok/core/allocator.c takes out of the table.
use pok_lab.Common.{
  ℕ, zero, suc, ◌+◌, ◌-◌, ◌<◌, ◌≡◌, ◌≢◌, inl, inr, refl, ap, ◌∙◌, true, false, none, some, arith,
}
use pok_lab.Allocator.{
  Allocator, Limits, neighbour, grow, join, set_free, pok_allocator_merge_space, pok_allocator_free,
  pok_allocator_allocate, allocate_from, check_init, no_space,
}
use pok_lab.Allocator.Delete.{delete-initialized}
use pok_lab.Allocator.Free.{free-unmerged, free-found, merge-single, IsLone}
use pok_lab.Allocator.Joined.{piece, join-grown, join-under, join-moved, join-used, merge-join}
use pok_lab.Allocator.Three.{Sizes, IsThree, three, three-IsThree}

module _ (c : Limits) (a : Allocator) (x y z : ℕ) (v : Sizes c x y z) (h : IsThree c a x y z) where
  abbrev r : ℕ
  r = c.memory_size - (x + y + z)

  first-IsLone : IsLone a 0
  first-IsLone zero l away = absurd (away refl)
  first-IsLone (suc zero) l away = inl (ap (λ t. t.allocated) h.at_1)
  first-IsLone (suc (suc zero)) l away = inl (ap (λ t. t.allocated) h.at_2)
  first-IsLone (suc (suc (suc zero))) l away = inr (
    (λ e. ground (arith, h.at_0, h.at_3, e, v.first, v.second, v.third, v.all, v.memory)),
    (λ e. ground (arith, h.at_0, h.at_3, e, v.first, v.second, v.third, v.all, v.memory)),
  )
  first-IsLone (suc (suc (suc (suc j)))) l away = absurd (omega (arith, h.used))

  first_freed : pok_allocator_free c 0 a ≡ some (set_free 0 a)
  first_freed =
      free-unmerged c 0 a 0 h.ready (omega (arith, h.used)) (λ j l. absurd (omega arith))
        (ap (λ t. t.start) h.at_0) first-IsLone

  abbrev a2 : Allocator
  a2 = set_free 2 (set_free 0 a)

  abbrev a3 : Allocator
  a3 = join c 2 3 a2

  abbrev a4 : Allocator
  a4 = join c 3 0 a3

  abbrev a5 : Allocator
  a5 = join c 0 1 a4

  a3_0 : a3.spaces 0 ≡ piece 0 x false
  a3_0 =
      join-under c 2 3 a2 (λ e. cc) 0 (λ e. cc) (omega arith)
      ∙ ap (λ t. piece t.start t.size false) h.at_0

  a3_1 : a3.spaces 1 ≡ piece x y true
  a3_1 = join-under c 2 3 a2 (λ e. cc) 1 (λ e. cc) (omega arith) ∙ h.at_1

  a3_2 : a3.spaces 2 ≡ piece (x + y) (z + r) false
  a3_2 =
      join-grown c 2 3 a2 (λ e. cc) (x + y) z r false (omega arith)
        (ap (λ t. piece t.start t.size false) h.at_2) (ap (λ t. t.size) h.at_3)
        (omega (arith, v.all, v.memory))

  a3_3 : a3.spaces 3 ≡ no_space
  a3_3 = join-moved c 2 3 a2 (λ e. cc) 3 (λ e. cc) (omega arith) (omega (arith, v.places)) ∙ h.at_4

  a4_0 : a4.spaces 0 ≡ piece x y true
  a4_0 = join-moved c 3 0 a3 (λ e. cc) 0 (λ e. cc) (omega arith) (omega (arith, v.places)) ∙ a3_1

  a4_1 : a4.spaces 1 ≡ piece (x + y) (z + r) false
  a4_1 = join-moved c 3 0 a3 (λ e. cc) 1 (λ e. cc) (omega arith) (omega (arith, v.places)) ∙ a3_2

  a5_0 : a5.spaces 0 ≡ piece x (y + (z + r)) true
  a5_0 =
      join-grown c 0 1 a4 (λ e. cc) x y (z + r) true (omega arith) a4_0 (ap (λ t. t.size) a4_1)
        (omega (arith, v.all, v.memory))

  a3_used : a3.used_spaces ≡ 3
  a3_used = join-used c 2 3 a2 (λ e. cc) 3 h.used (omega arith)

  a4_used : a4.used_spaces ≡ 2
  a4_used = join-used c 3 0 a3 (λ e. cc) 2 a3_used (omega arith)

  a5_used : a5.used_spaces ≡ 1
  a5_used = join-used c 0 1 a4 (λ e. cc) 1 a4_used (omega arith)

  beside_2 : neighbour 4 0 2 a2.spaces ≡ some (3, 2, 3)
  unfolding neighbour
  beside_2 =
      ground (arith, h.at_0, h.at_1, h.at_2, h.at_3, v.first, v.second, v.third, v.all, v.memory)

  beside_3 : neighbour 3 0 3 a3.spaces ≡ some (0, 3, 0)
  unfolding neighbour
  beside_3 = ground (arith, a3_0, a3_3, v.first, v.second, v.all, v.memory)

  beside_4 : neighbour 2 0 0 a4.spaces ≡ some (1, 0, 1)
  unfolding neighbour
  beside_4 = ground (arith, a4_0, a4_1, v.first, v.second, v.all, v.memory)

  third_off : (j : ℕ) → j < 2 → ((set_free 0 a).spaces j).start ≢ x + y
  third_off zero l e = omega (arith, ap (λ t. t.start) h.at_0, e, v.first)
  third_off (suc zero) l e = omega (arith, ap (λ t. t.start) h.at_1, e, v.second)
  third_off (suc (suc j)) l e = absurd (omega arith)

  third_freed : pok_allocator_free c (x + y) (set_free 0 a) ≡ some a5
  third_freed =
      free-found c (x + y) (set_free 0 a) 2 h.ready (omega (arith, h.used)) third_off
        (ap (λ t. t.start) h.at_2)
      ∙ ap (λ m. pok_allocator_merge_space (suc m) c 2 a2) h.used
      ∙ merge-join 4 c 2 a2 4 3 2 3 h.used (omega arith) beside_2
      ∙ merge-join 3 c 3 a3 3 0 3 0 a3_used (omega arith) beside_3
      ∙ merge-join 2 c 0 a4 2 1 0 1 a4_used (omega arith) beside_4
      ∙ merge-single 1 c 1 a5 a5_used

  a5_ready : a5.initialized ≡ true
  a5_ready =
      delete-initialized c 1 (grow 0 1 a4)
      ∙ delete-initialized c 0 (grow 3 0 a3)
      ∙ delete-initialized c 3 (grow 2 3 a2)
      ∙ h.ready

-- A request where the only space is in use.
no-request :
    (c : Limits) (a : Allocator) (n : ℕ)
    → a.initialized ≡ true
    → a.used_spaces ≡ 1
    → (a.spaces 0).allocated ≡ true
    → (pok_allocator_allocate c a n).1 ≡ none
unfolding pok_allocator_allocate allocate_from check_init
no-request c a n ready used at = ground (arith, ready, used, at)

-- Three requests in a memory that is not yet set up, of sizes that leave some of it. When the first piece
-- is freed and then the third one, one space is left in the table: it starts at the second piece, is in
-- use, and holds all the memory from there on, while the first piece is in no space. All later requests
-- are refused, though only the second piece is in use.
pub pok_allocator_free-leaks :
    (c : Limits) (a : Allocator) (x y z : ℕ)
    → Sizes c x y z
    → a.initialized ≡ false
    → (a1 a2 : Allocator) × (pok_allocator_free c 0 (three c a x y z) ≡ some a1)
      × (pok_allocator_free c (x + y) a1 ≡ some a2)
      × (a2.used_spaces ≡ 1)
      × (a2.spaces 0 ≡ piece x (c.memory_size - x) true)
      × ((n : ℕ) → (pok_allocator_allocate c a2 n).1 ≡ none)
pok_allocator_free-leaks c a x y z v raw =
    let h = three-IsThree c a x y z v raw in
    let t = three c a x y z in
    let one = a5_0 c t x y z v h in
    (
      set_free 0 t,
      a5 c t x y z v h,
      first_freed c t x y z v h,
      third_freed c t x y z v h,
      a5_used c t x y z v h,
      one ∙ ap (λ k. piece x k true) (omega (arith, v.all)),
      λ n.
          no-request c (a5 c t x y z v h) n (a5_ready c t x y z v h) (a5_used c t x y z v h)
            (ap (λ s. s.allocated) one),
    )
