-- ===== src/Allocator.antt =====
-- libpok/core/allocator.c, the memory of a partition for `malloc` and `free`. A pointer is an offset into
-- `pok_allocator_memspace`; the cell of `spaces` behind the last one is what memory holds there.
pub mod Tiled
pub mod Split
pub mod Heap
pub mod Request
pub mod Delete
pub mod Free
pub mod Joined
pub mod Three
pub mod Lost
pub mod Leak
use pok_lab.Common.{
  ℕ, zero, suc, ◌+◌, ◌-◌, ◌%◌, Bool, true, false, not, ◌&&◌, ◌||◌, Option, none, some, leb, ◌==◌,
  if◌then◌else◌, update, u32, u32_mod,
}

-- pok_allocator_space_t
pub record Space : Type 0 where
  pub start : ℕ
  pub size : ℕ
  pub allocated : Bool

-- The global variables.
pub record Allocator : Type 0 where
  pub spaces : ℕ → Space
  pub used_spaces : ℕ
  pub initialized : Bool

-- POK_CONFIG_ALLOCATOR_MEMORY_SIZE and POK_CONFIG_ALLOCATOR_NB_SPACES
pub record Limits : Type 0 where
  pub memory_size : ℕ
  pub nb_spaces : ℕ

abbrev pub no_space : Space
no_space = record { start = 0; size = 0; allocated = false }

-- The loop over the first `n` spaces.
unfoldable pub clear : ℕ → (ℕ → Space) → ℕ → Space
clear zero s = s
clear (suc n) s = update (clear n s) n no_space

-- POK_ALLOCATOR_CHECK_INIT
unfoldable pub check_init : Limits → Allocator → Allocator
check_init c a = if a.initialized then a else record {
  spaces =
      update (clear c.nb_spaces a.spaces) 0
        (record { start = 0; size = c.memory_size; allocated = false });
  used_spaces = 1;
  initialized = true;
}

-- The space serves the request as a whole, or is split in two.
unfoldable pub take_space : ℕ → Allocator → ℕ → Allocator
take_space i a needed_size =
    let s = a.spaces i in
    if s.size == needed_size
    then record a { spaces = update a.spaces i (record s { allocated = true }) }
    else record a {
      used_spaces = u32 (a.used_spaces + 1);
      spaces =
          update (update a.spaces i (record s { allocated = true; size = needed_size }))
            a.used_spaces
            (record {
              start = u32 (s.start + needed_size);
              size = s.size - needed_size;
              allocated = false;
            });
    }

abbrev pub fits : Allocator → ℕ → ℕ → Bool
fits a needed_size i = not (a.spaces i).allocated && leb needed_size (a.spaces i).size

-- The loop over the spaces from `i` on.
unfoldable pub allocate_from : ℕ → ℕ → Allocator → ℕ → Allocator × Option ℕ
allocate_from zero i a needed_size = (a, none)
allocate_from (suc n) i a needed_size =
    let rest = allocate_from n (i + 1) a needed_size in
    if fits a needed_size i then (take_space i a needed_size, some (a.spaces i).start) else rest

unfoldable pub pok_allocator_allocate : Limits → Allocator → ℕ → Allocator × Option ℕ
pok_allocator_allocate c a needed_size =
    let a' = check_init c a in
    if leb (c.nb_spaces - 1) a'.used_spaces
    then (a', none)
    else allocate_from a'.used_spaces 0 a' needed_size

-- The spaces from `tmp` on move one place down.
unfoldable pub move_down : ℕ → ℕ → (ℕ → Space) → ℕ → Space
move_down zero tmp s = s
move_down (suc n) tmp s = move_down n (tmp + 1) (update s tmp (s (tmp + 1)))

unfoldable pub pok_allocator_delete_space : Limits → ℕ → Allocator → Allocator
pok_allocator_delete_space c space a = record a {
  spaces = move_down (c.nb_spaces - space) space a.spaces;
  used_spaces = u32 (a.used_spaces + u32_mod - 1);
}

abbrev pub end_of : Space → ℕ
end_of s = u32 (s.start + s.size)

-- The first free space beside `space`; then the one of the two that stands before the other, which
-- grows, and the other, which goes.
unfoldable pub neighbour : ℕ → ℕ → ℕ → (ℕ → Space) → Option (ℕ × ℕ × ℕ)
neighbour zero i space s = none
neighbour (suc n) i space s =
    let rest = neighbour n (i + 1) space s in
    if (i == space) || (s i).allocated
    then rest
    else if (s space).start == end_of (s i)
    then some (i, i, space)
    else if (s i).start == end_of (s space)
    then some (i, space, i)
    else rest

-- The space `i` grows by the size of `j`.
abbrev pub grow : ℕ → ℕ → Allocator → Allocator
grow i j a = record a {
  spaces =
      update a.spaces i
        (record (a.spaces i) { size = u32 ((a.spaces i).size + (a.spaces j).size) });
}

abbrev pub join : Limits → ℕ → ℕ → Allocator → Allocator
join c first second a = pok_allocator_delete_space c second (grow first second a)

-- Each call merges two spaces and calls itself; `none` stands for calls that go on.
unfoldable pub pok_allocator_merge_space : ℕ → Limits → ℕ → Allocator → Option Allocator
pok_allocator_merge_space zero c space a = none
pok_allocator_merge_space (suc n) c space a =
    if a.used_spaces == 1 then some a else elim (neighbour a.used_spaces 0 space a.spaces) [
      | none ↦ some a
      | some (space2, first, second) ↦ pok_allocator_merge_space n c space2 (join c first second a)
    ]

-- The first space that starts at the pointer.
unfoldable pub space_at : ℕ → ℕ → (ℕ → Space) → ℕ → Option ℕ
space_at zero i s ptr = none
space_at (suc n) i s ptr =
    let rest = space_at n (i + 1) s ptr in if ptr == (s i).start then some i else rest

abbrev pub set_free : ℕ → Allocator → Allocator
set_free i a = record a { spaces = update a.spaces i (record (a.spaces i) { allocated = false }) }

unfoldable pub pok_allocator_free : Limits → ℕ → Allocator → Option Allocator
pok_allocator_free c ptr a =
    let a' = check_init c a in
    elim (space_at a'.used_spaces 0 a'.spaces ptr) [
      | none ↦ some a'
      | some i ↦ pok_allocator_merge_space (suc a'.used_spaces) c i (set_free i a')
    ]
