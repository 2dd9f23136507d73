-- ===== src/Common/Words.antt =====
-- Unsigned machine words as natural numbers below a power of two, the conversions between them and
-- the signed ones, and the one-cell update of a table.
use Prim.Native.Nat.{ℕ, suc, ◌+◌, ◌-◌, ◌%◌, ◌≤◌, ◌<◌}
use mathlib.Core.Path.{◌≡◌, refl}
use mathlib.Core.Logic.{◌≢◌, inl, inr}
use native.Mathlib.Omega.{arith}
use native.Mathlib.Nat.{mod_self}
use pok_lab.Common.Tests.{ltb, ◌==◌, if◌then◌else◌, Bool-cases}
use pok_lab.Common.Int.{ℤ, pos, negsuc}

abbrev pub u8 : ℕ → ℕ
u8 n = n % 256

abbrev pub u16 : ℕ → ℕ
u16 n = n % 65536

abbrev pub u32_mod : ℕ
u32_mod = 4294967296

abbrev pub u32 : ℕ → ℕ
u32 n = n % u32_mod

abbrev pub u64_mod : ℕ
u64_mod = 18446744073709551616

abbrev pub u64 : ℕ → ℕ
u64 n = n % u64_mod

abbrev pub u64_half : ℕ
u64_half = 9223372036854775808

-- A `uint64_t` stored in an `int64_t`, in two's complement.
abbrev pub to_int64 : ℕ → ℤ
to_int64 n = if ltb n u64_half then pos n else negsuc (u64_mod - 1 - n)

-- An `int64_t` used as a `uint64_t`.
abbrev pub to_u64 : ℤ → ℕ
to_u64 (pos n) = n
to_u64 (negsuc n) = u64_mod - suc n

module _ {ℓ} {A : Type ℓ} where
  -- table[i] = v
  abbrev pub update : (ℕ → A) → ℕ → A → ℕ → A
  update f i v j = if j == i then v else f j

pub mod_below : (x n : ℕ) → x < n → x % n ≡ x
mod_below x n h = grind arith

pub mod_same : (n : ℕ) → n % n ≡ 0
mod_same n = mod_self n

pub mod_low : (x n : ℕ) → 0 < n → x % n < n
mod_low x n h = grind arith

module _ {ℓ} {A : Type ℓ} where
  pub update_at : (f : ℕ → A) (i : ℕ) (a : A) → update f i a i ≡ a
  update_at f i a = elim (Bool-cases (i == i)) [
    | inl same ↦ rw same refl
    | inr other ↦ ground (arith, other)
  ]

  pub update_off : (f : ℕ → A) (i j : ℕ) (a : A) → j ≢ i → update f i a j ≡ f j
  update_off f i j a apart = elim (Bool-cases (j == i)) [
    | inl same ↦ ground (arith, same, apart)
    | inr other ↦ rw other refl
  ]

pub mod_wrap : (x n : ℕ) → n ≤ x → x < n + n → x % n ≡ x - n
mod_wrap x n h l = grind arith
