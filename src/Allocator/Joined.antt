-- ===== src/Allocator/Joined.antt =====
-- A step of `pok_allocator_merge_space` in libpok/core/allocator.c, and the tables that it leaves.
use pok_lab.Common.{
  ℕ, suc, ◌+◌, ◌≤◌, ◌<◌, ◌≡◌, ◌≢◌, ap, ◌∙◌, Bool, some, arith, update_at, update_off, u32,
  mod_below,
}
use pok_lab.Allocator.{Space, Allocator, Limits, neighbour, grow, join, pok_allocator_merge_space}
use pok_lab.Allocator.Delete.{delete-under, delete-moved, delete-used}
use pok_lab.Allocator.Free.{merge-by}

abbrev pub piece : ℕ → ℕ → Bool → Space
piece start size allocated = record { start = start; size = size; allocated = allocated }

module _ (c : Limits) (first second : ℕ) (a : Allocator) (apart : first ≢ second) where
  -- The piece that stays, where it does not move, has the sizes of both.
  pub join-grown :
      (start m n : ℕ) (b : Bool)
      → first < second
      → a.spaces first ≡ piece start m b
      → (a.spaces second).size ≡ n
      → m + n < 4294967296
      → (join c first second a).spaces first ≡ piece start (m + n) b
  join-grown start m n b l at long small =
      delete-under c second (grow first second a) first l
      ∙ update_at a.spaces first _
      ∙ ap (λ t. piece t.start (u32 (t.size + (a.spaces second).size)) t.allocated) at
      ∙ ap (λ k. piece start (u32 (m + k)) b) long
      ∙ ap (λ k. piece start k b) (mod_below (m + n) 4294967296 small)

  pub join-under : (i : ℕ) → i ≢ first → i < second → (join c first second a).spaces i ≡ a.spaces i
  join-under i off l =
      delete-under c second (grow first second a) i l ∙ update_off a.spaces first i _ off

  pub join-moved :
      (i : ℕ)
      → suc i ≢ first
      → second ≤ i
      → i < c.nb_spaces
      → (join c first second a).spaces i ≡ a.spaces (suc i)
  join-moved i off l k =
      delete-moved c second (grow first second a) i l k
      ∙ ap (grow first second a).spaces (omega arith)
      ∙ update_off a.spaces first (suc i) _ off

  pub join-used :
      (n : ℕ) → a.used_spaces ≡ suc n → n < 4294967295 → (join c first second a).used_spaces ≡ n
  join-used n used small =
      delete-used c second (grow first second a) (omega arith) (omega arith) ∙ omega arith

-- One call that merges, where the number of spaces is known.
pub merge-join :
    (n : ℕ) (c : Limits) (space : ℕ) (a : Allocator) (m space2 first second : ℕ)
    → a.used_spaces ≡ m
    → 1 < m
    → neighbour m 0 space a.spaces ≡ some (space2, first, second)
    → pok_allocator_merge_space (suc n) c space a
      ≡ pok_allocator_merge_space n c space2 (join c first second a)
merge-join n c space a m space2 first second used several beside =
    merge-by n c space a (omega arith) (ap (λ k. neighbour k 0 space a.spaces) used ∙ beside)
