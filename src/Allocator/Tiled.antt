-- ===== src/Allocator/Tiled.antt =====
-- The spaces of libpok/core/allocator.c as pieces of the memory.
use pok_lab.Common.{
  ℕ, zero, suc, ◌+◌, ◌≤◌, ◌<◌, ◌≡◌, ◌≢◌, ◌⊎◌, inl, inr, refl, sym, subst, ap, ◌∙◌, true, false,
  arith, if◌then◌else◌, ℕ_discrete, update, update_at, update_off,
}
use pok_lab.Allocator.{Space, Allocator, Limits, clear, check_init}

-- The sizes of the first `n` spaces.
abbrev pub total : ℕ → (ℕ → Space) → ℕ
total zero s = 0
total (suc n) s = total n s + (s n).size

-- One space ends where the other starts, or before.
abbrev pub Apart : Space → Space → Type 0
Apart s t = (s.start + s.size ≤ t.start) ⊎ (t.start + t.size ≤ s.start)

-- The used spaces lie in the memory, do not overlap, and add up to it.
pub record IsTiled (c : Limits) (a : Allocator) : Type 0 where
  pub ready : a.initialized ≡ true
  pub some_used : 0 < a.used_spaces
  pub room : a.used_spaces ≤ c.nb_spaces
  pub within : (i : ℕ) → i < a.used_spaces → (a.spaces i).start + (a.spaces i).size ≤ c.memory_size
  pub apart :
      (i j : ℕ) → i < a.used_spaces → j < a.used_spaces → i ≢ j → Apart (a.spaces i) (a.spaces j)
  pub whole : total a.used_spaces a.spaces ≡ c.memory_size

-- The memory and the table have room for the numbers of the code.
pub record IsSmall (c : Limits) : Type 0 where
  pub memory : c.memory_size < 4294967296
  pub places : 0 < c.nb_spaces
  pub table : c.nb_spaces < 4294967296

-- The table that the first call sets up.
fresh : Limits → Allocator → Allocator
fresh c a = record {
  spaces =
      update (clear c.nb_spaces a.spaces) 0
        (record { start = 0; size = c.memory_size; allocated = false });
  used_spaces = 1;
  initialized = true;
}

fresh-IsTiled : (c : Limits) (a : Allocator) → IsSmall c → IsTiled c (fresh c a)
unfolding fresh
fresh-IsTiled c a small = record {
  ready = refl;
  some_used = omega arith;
  room = omega (arith, small.places);
  within = λ i l. ground (arith, l);
  apart = λ i j l k other. absurd (other (omega arith));
  whole = omega arith;
}

-- The memory before the first call, or between two calls.
abbrev pub IsReady : Limits → Allocator → Type 0
IsReady c a = (a.initialized ≡ false) ⊎ IsTiled c a

pub check_init-raw :
    (c : Limits) (a : Allocator)
    → a.initialized ≡ false
    → check_init c a ≡ record {
      spaces =
          update
            (clear c.nb_spaces a.spaces)
            0
            (record { start = 0; size = c.memory_size; allocated = false });
      used_spaces = 1;
      initialized = true;
    }
unfolding check_init fresh
check_init-raw c a raw = ap (λ b. if b then a else fresh c a) raw

pub check_init-ready : (c : Limits) (a : Allocator) → a.initialized ≡ true → check_init c a ≡ a
unfolding check_init fresh
check_init-ready c a ready = ap (λ b. if b then a else fresh c a) ready

pub check_init-IsTiled :
    (c : Limits) (a : Allocator) → IsSmall c → IsReady c a → IsTiled c (check_init c a)
unfolding check_init fresh
check_init-IsTiled c a small (inl raw) =
    subst (λ b. IsTiled c (if b then a else fresh c a)) (sym raw) (fresh-IsTiled c a small)
check_init-IsTiled c a small (inr v) = subst (IsTiled c) (sym (check_init-ready c a v.ready)) v

pub total-same :
    (n : ℕ) (s t : ℕ → Space) → ((i : ℕ) → i < n → (s i).size ≡ (t i).size) → total n s ≡ total n t
total-same zero s t same = refl
total-same (suc n) s t same =
    omega (arith, total-same n s t (λ i l. same i (omega arith)), same n (omega arith))

-- A space behind the first `n` does not count.
pub total-update_off :
    (n i : ℕ) (s : ℕ → Space) (x : Space) → n ≤ i → total n (update s i x) ≡ total n s
total-update_off n i s x l =
    total-same n (update s i x) s (λ j k. ap (λ t. t.size) (update_off s i j x (omega arith)))

-- One of the first `n` spaces takes another size.
pub total-update :
    (n i : ℕ) (s : ℕ → Space) (x : Space)
    → i < n
    → total n (update s i x) + (s i).size ≡ total n s + x.size
total-update zero i s x l = absurd (omega arith)
total-update (suc n) i s x l = elim (ℕ_discrete i n) [
  | yes last ↦ omega (
    arith,
    total-update_off n i s x (omega arith),
    ap (λ t. t.size) (ap (update s i x) (sym last) ∙ update_at s i x),
    ap (λ j. (s j).size) last,
  )
  | no before ↦ omega (
    arith,
    total-update n i s x (omega arith),
    ap (λ t. t.size) (update_off s i n x (λ e. before (sym e))),
  )
]

-- What stands at the place `j` when the place `i` changes to `x` and the place `k` to `y`.
abbrev pub Changed : (ℕ → Space) → ℕ → Space → ℕ → Space → ℕ → Type 0
Changed s i x k y j =
    ((j ≡ k) × (update (update s i x) k y j ≡ y))
    ⊎ ((j ≢ k) × (j ≡ i) × (update (update s i x) k y j ≡ x))
    ⊎ ((j ≢ k) × (j ≢ i) × (update (update s i x) k y j ≡ s j))

pub changes : (s : ℕ → Space) (i : ℕ) (x : Space) (k : ℕ) (y : Space) (j : ℕ) → Changed s i x k y j
changes s i x k y j = elim (ℕ_discrete j k) [
  | yes last ↦ inl (last, ap (update (update s i x) k y) last ∙ update_at (update s i x) k y)
  | no off ↦ elim (ℕ_discrete j i) [
    | yes here ↦ inr (
        inl (
          off,
          here,
          update_off (update s i x) k j y off ∙ ap (update s i x) here ∙ update_at s i x,
        ))
    | no away ↦ inr (inr (off, away, update_off (update s i x) k j y off ∙ update_off s i j x away))
  ]
]
