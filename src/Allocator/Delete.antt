-- ===== src/Allocator/Delete.antt =====
-- `pok_allocator_delete_space` of libpok/core/allocator.c: where the spaces stand afterwards.
use pok_lab.Common.{
  ℕ, zero, suc, ◌+◌, ◌-◌, ◌≤◌, ◌<◌, ◌≡◌, refl, sym, ap, ◌∙◌, arith, ℕ_discrete, update, update_at,
  update_off,
}
use pok_lab.Allocator.{Space, Allocator, Limits, move_down, pok_allocator_delete_space}

move_down-under : (n tmp i : ℕ) (s : ℕ → Space) → i < tmp → move_down n tmp s i ≡ s i
unfolding move_down
move_down-under zero tmp i s l = refl
move_down-under (suc n) tmp i s l =
    move_down-under n (tmp + 1) i (update s tmp (s (tmp + 1))) (omega arith)
    ∙ update_off s tmp i (s (tmp + 1)) (omega arith)

move_down-moved :
    (n tmp i : ℕ) (s : ℕ → Space) → tmp ≤ i → i < tmp + n → move_down n tmp s i ≡ s (i + 1)
unfolding move_down
move_down-moved zero tmp i s l k = absurd (omega arith)
move_down-moved (suc n) tmp i s l k = elim (ℕ_discrete i tmp) [
  | yes here ↦
      move_down-under n (tmp + 1) i (update s tmp (s (tmp + 1))) (omega arith)
      ∙ ap (update s tmp (s (tmp + 1))) here
      ∙ update_at s tmp (s (tmp + 1))
      ∙ ap (λ j. s (j + 1)) (sym here)
  | no away ↦
      move_down-moved n (tmp + 1) i (update s tmp (s (tmp + 1))) (omega arith) (omega arith)
      ∙ update_off s tmp (i + 1) (s (tmp + 1)) (omega arith)
]

module _ (c : Limits) (space : ℕ) (a : Allocator) where
  pub delete-under :
      (i : ℕ) → i < space → (pok_allocator_delete_space c space a).spaces i ≡ a.spaces i
  unfolding pok_allocator_delete_space
  delete-under i l = move_down-under (c.nb_spaces - space) space i a.spaces l

  pub delete-moved :
      (i : ℕ)
      → space ≤ i
      → i < c.nb_spaces
      → (pok_allocator_delete_space c space a).spaces i ≡ a.spaces (i + 1)
  unfolding pok_allocator_delete_space
  delete-moved i l k = move_down-moved (c.nb_spaces - space) space i a.spaces l (omega arith)

  pub delete-used :
      0 < a.used_spaces
      → a.used_spaces < 4294967296
      → (pok_allocator_delete_space c space a).used_spaces ≡ a.used_spaces - 1
  unfolding pok_allocator_delete_space
  delete-used some_used small = omega arith

  pub delete-initialized : (pok_allocator_delete_space c space a).initialized ≡ a.initialized
  unfolding pok_allocator_delete_space
  delete-initialized = refl
