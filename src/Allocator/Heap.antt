-- ===== src/Allocator/Heap.antt =====
-- The pieces of memory in use, and what a request in libpok/core/allocator.c does to them.
use pok_lab.Common.{
  ℕ, suc, ◌+◌, ◌-◌, ◌≤◌, ◌<◌, ◌≡◌, ◌≢◌, ◌⊎◌, inl, inr, sym, ap, ◌∙◌, true, false, arith, ◌==◌,
  Bool-cases, ℕ_discrete, update, update_at, update_off, u32, mod_below,
}
use pok_lab.Allocator.{Space, Allocator, Limits, take_space}
use pok_lab.Allocator.Tiled.{total-same, IsTiled, IsSmall, Changed, changes}
use pok_lab.Allocator.Split.{cut-IsTiled}

-- The abstract view: `m` bytes at `q` are in use.
abbrev pub IsLive : Allocator → ℕ → ℕ → Type 0
IsLive a q m =
    (i : ℕ) × (i < a.used_spaces)
    × ((a.spaces i).allocated ≡ true)
    × ((a.spaces i).start ≡ q)
    × ((a.spaces i).size ≡ m)

-- `n` bytes at `p` come into use, apart from all that was in use, and nothing else changes.
pub record Serves (c : Limits) (a a' : Allocator) (p n : ℕ) : Type 0 where
  pub tiled : IsTiled c a'
  pub inside : p + n ≤ c.memory_size
  pub live : IsLive a' p n
  pub kept : (q m : ℕ) → IsLive a q m → IsLive a' q m × ((q + m ≤ p) ⊎ (p + n ≤ q))
  pub only : (q m : ℕ) → IsLive a' q m → ((q ≡ p) × (m ≡ n)) ⊎ IsLive a q m

-- A table with the same pieces, whatever their use is.
pub same-IsTiled :
    (c : Limits) (a : Allocator) (t : ℕ → Space)
    → ((j : ℕ) → (t j).start ≡ (a.spaces j).start)
    → ((j : ℕ) → (t j).size ≡ (a.spaces j).size)
    → IsTiled c a
    → IsTiled c (record a { spaces = t })
same-IsTiled c a t starts sizes v = record {
  ready = v.ready;
  some_used = v.some_used;
  room = v.room;
  within = λ j l. omega (arith, starts j, sizes j, v.within j l);
  apart =
      λ j k l m other. ground (arith, starts j, sizes j, starts k, sizes k, v.apart j k l m other);
  whole = total-same a.used_spaces t a.spaces (λ j l. sizes j) ∙ v.whole;
}

module _ (c : Limits) (a : Allocator) (i : ℕ) (n : ℕ) (small : IsSmall c) (v : IsTiled c a)
    (used : i < a.used_spaces) (idle : (a.spaces i).allocated ≡ false) where
  -- A piece in use is another one than the piece that is taken.
  other_piece : (j : ℕ) → (a.spaces j).allocated ≡ true → j ≢ i
  other_piece j busy e = ground (arith, busy, idle, ap (λ k. (a.spaces k).allocated) e)

  module _ (enough : n ≤ (a.spaces i).size) where
    beside :
        (q m j : ℕ)
        → j < a.used_spaces
        → j ≢ i
        → (a.spaces j).start ≡ q
        → (a.spaces j).size ≡ m
        → (q + m ≤ (a.spaces i).start) ⊎ ((a.spaces i).start + n ≤ q)
    beside q m j l off at long = ground (arith, v.apart j i l used off)

  module _ (exact : (a.spaces i).size ≡ n) where
    abbrev whole_piece : Space
    whole_piece = record (a.spaces i) { allocated = true }

    kept_start : (j : ℕ) → (update a.spaces i whole_piece j).start ≡ (a.spaces j).start
    kept_start j = ground arith

    kept_size : (j : ℕ) → (update a.spaces i whole_piece j).size ≡ (a.spaces j).size
    kept_size j = ground arith

    whole-Serves :
        Serves c a (record a { spaces = update a.spaces i whole_piece }) (a.spaces i).start n
    whole-Serves = record {
      tiled = same-IsTiled c a (update a.spaces i whole_piece) kept_start kept_size v;
      inside = omega (arith, v.within i used);
      live = (
        i,
        used,
        ap (λ t. t.allocated) (update_at a.spaces i whole_piece),
        kept_start i,
        kept_size i ∙ exact,
      );
      kept = λ q m h.
          let off = other_piece h.0 h.2 in
          (
            (
              h.0,
              h.1,
              ap (λ t. t.allocated) (update_off a.spaces i h.0 whole_piece off) ∙ h.2,
              kept_start h.0 ∙ h.3,
              kept_size h.0 ∙ h.4,
            ),
            beside (omega (arith, exact)) q m h.0 h.1 off h.3 h.4,
          );
      only = λ q m h. elim (ℕ_discrete h.0 i) [
        | yes here ↦ inl (
          sym h.3 ∙ kept_start h.0 ∙ ap (λ k. (a.spaces k).start) here,
          sym h.4 ∙ kept_size h.0 ∙ ap (λ k. (a.spaces k).size) here ∙ exact,
        )
        | no away ↦ inr (
          h.0,
          h.1,
          ap (λ t. t.allocated) (sym (update_off a.spaces i h.0 whole_piece away)) ∙ h.2,
          sym (kept_start h.0) ∙ h.3,
          sym (kept_size h.0) ∙ h.4,
        )
      ];
    }

  module _ (enough : n ≤ (a.spaces i).size) (more : a.used_spaces < c.nb_spaces) where
    abbrev cut_left : Space
    cut_left = record (a.spaces i) { allocated = true; size = n }

    abbrev cut_right : Space
    cut_right = record {
      start = u32 ((a.spaces i).start + n);
      size = (a.spaces i).size - n;
      allocated = false;
    }

    abbrev cut_table : ℕ → Space
    cut_table = update (update a.spaces i cut_left) a.used_spaces cut_right

    grown : u32 (a.used_spaces + 1) ≡ a.used_spaces + 1
    grown = mod_below (a.used_spaces + 1) 4294967296 (omega (arith, small.table))

    at_left : cut_table i ≡ cut_left
    at_left =
        update_off (update a.spaces i cut_left) a.used_spaces i cut_right (omega arith)
        ∙ update_at a.spaces i cut_left

    at_old : (j : ℕ) → j < a.used_spaces → j ≢ i → cut_table j ≡ a.spaces j
    at_old j l away =
        update_off (update a.spaces i cut_left) a.used_spaces j cut_right (omega arith)
        ∙ update_off a.spaces i j cut_left away

    only_of :
        (q m j : ℕ)
        → j < suc a.used_spaces
        → (cut_table j).allocated ≡ true
        → (cut_table j).start ≡ q
        → (cut_table j).size ≡ m
        → Changed a.spaces i cut_left a.used_spaces cut_right j
        → ((q ≡ (a.spaces i).start) × (m ≡ n)) ⊎ IsLive a q m
    only_of q m j l busy at long (inl (e, f)) = cc
    only_of q m j l busy at long (inr (inl (e, d, f))) =
        inl (sym at ∙ ap (λ t. t.start) f, sym long ∙ ap (λ t. t.size) f)
    only_of q m j l busy at long (inr (inr (e, d, f))) = inr (
      j,
      omega arith,
      ap (λ t. t.allocated) (sym f) ∙ busy,
      ap (λ t. t.start) (sym f) ∙ at,
      ap (λ t. t.size) (sym f) ∙ long,
    )

    cut-Serves :
        Serves c a
          (record a { used_spaces = u32 (a.used_spaces + 1); spaces = cut_table })
          (a.spaces i).start
          n
    cut-Serves = record {
      tiled = cut-IsTiled c a i n small v used enough more;
      inside = omega (arith, v.within i used);
      live = (
        i,
        omega (arith, grown),
        ap (λ t. t.allocated) at_left,
        ap (λ t. t.start) at_left,
        ap (λ t. t.size) at_left,
      );
      kept = λ q m h.
          let off = other_piece h.0 h.2 in
          let same = at_old h.0 h.1 off in
          (
            (
              h.0,
              omega (arith, grown, h.1),
              ap (λ t. t.allocated) same ∙ h.2,
              ap (λ t. t.start) same ∙ h.3,
              ap (λ t. t.size) same ∙ h.4,
            ),
            beside enough q m h.0 h.1 off h.3 h.4,
          );
      only = λ q m h.
          only_of q m h.0 (omega (arith, grown, h.1)) h.2 h.3 h.4
            (changes a.spaces i cut_left a.used_spaces cut_right h.0);
    }

    pub take_space-Serves : Serves c a (take_space i a n) (a.spaces i).start n
    unfolding take_space
    take_space-Serves = elim (Bool-cases ((a.spaces i).size == n)) [
      | inl exact ↦ rw exact (whole-Serves (ground (arith, exact)))
      | inr longer ↦ rw longer cut-Serves
    ]
