-- ===== src/Allocator/Three.antt =====
-- The table of libpok/core/allocator.c after the first three requests.
use pok_lab.Common.{
  ℕ, zero, suc, ℕ_discrete, update_at, update_off, ◌+◌, ◌-◌, ◌≤◌, ◌<◌, ◌≡◌, refl, ap, ◌∙◌, true,
  false, none, some, sym, subst, leb, ◌==◌, mod_below, if◌then◌else◌, arith, update,
}
use pok_lab.Allocator.{
  Space, Allocator, Limits, check_init, clear, take_space, fits, allocate_from,
  pok_allocator_allocate, no_space,
}
use pok_lab.Allocator.Tiled.{check_init-raw}
use pok_lab.Allocator.Joined.{piece}

-- Three requests, one after the other.
abbrev pub three : Limits → Allocator → ℕ → ℕ → ℕ → Allocator
three c a x y z =
    (pok_allocator_allocate c (pok_allocator_allocate c (pok_allocator_allocate c a x).0 y).0 z).0

-- Three pieces in use and the rest of the memory.
pub record IsThree (c : Limits) (a : Allocator) (x y z : ℕ) : Type 0 where
  pub ready : a.initialized ≡ true
  pub used : a.used_spaces ≡ 4
  pub at_0 : a.spaces 0 ≡ piece 0 x true
  pub at_1 : a.spaces 1 ≡ piece x y true
  pub at_2 : a.spaces 2 ≡ piece (x + y) z true
  pub at_3 : a.spaces 3 ≡ piece (x + y + z) (c.memory_size - (x + y + z)) false
  pub at_4 : a.spaces 4 ≡ no_space

-- The numbers of the requests.
pub record Sizes (c : Limits) (x y z : ℕ) : Type 0 where
  pub first : 0 < x
  pub second : 0 < y
  pub third : 0 < z
  pub all : x + y + z < c.memory_size
  pub memory : c.memory_size < 4294967296
  pub places : 5 < c.nb_spaces
  pub table : c.nb_spaces < 4294967296

cleared : (n i : ℕ) (s : ℕ → Space) → i < n → clear n s i ≡ no_space
unfolding clear
cleared zero i s l = absurd (omega arith)
cleared (suc n) i s l = elim (ℕ_discrete i n) [
  | yes last ↦ ap (update (clear n s) n no_space) last ∙ update_at (clear n s) n no_space
  | no before ↦ update_off (clear n s) n i no_space before ∙ cleared n i s (omega arith)
]

abbrev state : ℕ → (ℕ → Space) → Allocator
state m s = record { spaces = s; used_spaces = m; initialized = true }

-- The last space is cut.
abbrev cut : (ℕ → Space) → ℕ → ℕ → ℕ → ℕ → ℕ → Space
cut s m start r n =
    update (update s m (piece start n true)) (suc m) (piece (start + n) (r - n) false)

module _ (m start r n : ℕ) (s : ℕ → Space) (busy : (j : ℕ) → j < m → (s j).allocated ≡ true)
    (last : s m ≡ piece start r false) (less : n < r) (fit : start + r < 4294967296)
    (few : m < 100) where
  take-last : take_space m (state (suc m) s) n ≡ state (suc (suc m)) (cut s m start r n)
  unfolding take_space
  take-last = rw last (
      rw (differ r n less) (
        rw (mod_below (start + n) 4294967296 (omega arith)) (
          rw (mod_below (suc m + 1) 4294967296 (omega arith))
            (ap (λ k. record (state k (cut s m start r n)) { used_spaces = k }) (one_more m)))))
    where
      differ : (r n : ℕ) → n < r → (r == n) ≡ false
      differ r n l = ground (arith, l)

      one_more : (m : ℕ) → suc m + 1 ≡ suc (suc m)
      one_more m = omega arith

  fits_last : fits (state (suc m) s) n m ≡ true
  fits_last = ground (arith, last, less)

  from-last :
      (turns i : ℕ)
      → i + turns ≡ suc m
      → i ≤ m
      → allocate_from turns i (state (suc m) s) n
        ≡ (state (suc (suc m)) (cut s m start r n), some start)
  unfolding allocate_from
  from-last zero i count l = absurd (omega arith)
  from-last (suc turns) i count l = elim (ℕ_discrete i m) [
    | yes here ↦
        ap
          (λ k.
            if fits (state (suc m) s) n k
            then (take_space k (state (suc m) s) n, some (s k).start)
            else allocate_from turns (i + 1) (state (suc m) s) n)
          here
        ∙ ap
            (λ b.
              if b
              then (take_space m (state (suc m) s) n, some (s m).start)
              else allocate_from turns (i + 1) (state (suc m) s) n)
            fits_last
        ∙ ap (λ a. (a, some (s m).start)) take-last
        ∙ ap (λ t. (state (suc (suc m)) (cut s m start r n), some t.start)) last
    | no before ↦
        ground (arith, busy i (omega arith), from-last turns (i + 1) (omega arith) (omega arith))
  ]

  request :
      (c : Limits)
      → suc (suc m) < c.nb_spaces
      → pok_allocator_allocate c (state (suc m) s) n
        ≡ (state (suc (suc m)) (cut s m start r n), some start)
  unfolding pok_allocator_allocate check_init
  request c room =
      ap (λ b. if b then (state (suc m) s, none) else allocate_from (suc m) 0 (state (suc m) s) n)
        (places c.nb_spaces m room)
      ∙ from-last (suc m) 0 (omega arith) (omega arith)
    where
      places : (nb m : ℕ) → suc (suc m) < nb → leb (nb - 1) (suc m) ≡ false
      places nb m l = ground (arith, l)

raw-request :
    (c : Limits) (a : Allocator) (n : ℕ)
    → a.initialized ≡ false
    → pok_allocator_allocate c a n
      ≡ pok_allocator_allocate c
          (state 1 (update (clear c.nb_spaces a.spaces) 0 (piece 0 c.memory_size false)))
          n
unfolding pok_allocator_allocate check_init
raw-request c a n raw =
    ap
      (λ b.
        if leb (c.nb_spaces - 1) b.used_spaces
        then (b, none)
        else allocate_from b.used_spaces 0 b n)
      (check_init-raw c a raw)

pub three-IsThree :
    (c : Limits) (a : Allocator) (x y z : ℕ)
    → Sizes c x y z
    → a.initialized ≡ false
    → IsThree c (three c a x y z) x y z
three-IsThree c a x y z v raw = subst (λ b. IsThree c b x y z) (sym steps) shape
  where
    s1 : ℕ → Space
    s1 = update (clear c.nb_spaces a.spaces) 0 (piece 0 c.memory_size false)

    s2 : ℕ → Space
    s2 = cut s1 0 0 c.memory_size x

    s3 : ℕ → Space
    s3 = cut s2 1 (0 + x) (c.memory_size - x) y

    s4 : ℕ → Space
    s4 = cut s3 2 (0 + x + y) (c.memory_size - x - y) z

    busy_1 : (j : ℕ) → j < 1 → (s2 j).allocated ≡ true
    busy_1 zero l = refl
    busy_1 (suc j) l = absurd (omega arith)

    busy_2 : (j : ℕ) → j < 2 → (s3 j).allocated ≡ true
    busy_2 zero l = refl
    busy_2 (suc zero) l = refl
    busy_2 (suc (suc j)) l = absurd (omega arith)

    shape : IsThree c (state 4 s4) x y z
    shape = record {
      ready = refl;
      used = refl;
      at_0 = refl;
      at_1 = ap (λ k. piece k y true) (omega arith);
      at_2 = ap (λ k. piece k z true) (omega arith);
      at_3 =
          ap (λ k. piece k (c.memory_size - x - y - z) false) (omega arith)
          ∙ ap (λ k. piece (x + y + z) k false) (omega arith);
      at_4 = cleared c.nb_spaces 4 a.spaces (omega (arith, v.places));
    }

    steps : three c a x y z ≡ state 4 s4
    steps =
        ap (λ r. (pok_allocator_allocate c (pok_allocator_allocate c r.0 y).0 z).0)
          (raw-request c a x raw
            ∙ request 0 0 c.memory_size x s1 (λ j l. absurd (omega arith)) refl
                (omega (arith, v.all)) (omega (arith, v.memory)) (omega arith) c
                (omega (arith, v.places)))
        ∙ ap (λ r. (pok_allocator_allocate c r.0 z).0)
            (request 1 (0 + x) (c.memory_size - x) y s2 busy_1 refl (omega (arith, v.all))
              (omega (arith, v.memory, v.all)) (omega arith) c (omega (arith, v.places)))
        ∙ ap (λ r. r.0)
            (request 2 (0 + x + y) (c.memory_size - x - y) z s3 busy_2 refl (omega (arith, v.all))
              (omega (arith, v.memory, v.all)) (omega arith) c (omega (arith, v.places)))
