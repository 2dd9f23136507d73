-- ===== src/Tests/Allocator.antt =====
-- Runs of the theorems on the allocator.
use pok_lab.Common.{
  ℕ, zero, suc, ◌+◌, ◌≤◌, ◌<◌, ◌≡◌, ◌≢◌, ◌⊎◌, inl, inr, refl, true, false, none, some, arith,
}
use pok_lab.Allocator.{
  Allocator, Limits, no_space, check_init, fits, pok_allocator_allocate, pok_allocator_free,
}
use pok_lab.Allocator.Tiled.{IsSmall, IsTiled}
use pok_lab.Allocator.Heap.{Serves}
use pok_lab.Allocator.Request.{pok_allocator_allocate_lem}
use pok_lab.Allocator.Free.{IsLone, pok_allocator_free-lone, pok_allocator_free-ends}
use pok_lab.Allocator.Joined.{piece}
use pok_lab.Allocator.Three.{Sizes, three}
use pok_lab.Allocator.Lost.{pok_allocator_free-loses}
use pok_lab.Allocator.Leak.{pok_allocator_free-leaks}

-- The sizes that the code sets when the configuration does not.
abbrev default_limits : Limits
default_limits = record { memory_size = 16384; nb_spaces = 100 }

abbrev not_set_up : Allocator
not_set_up = record { spaces = λ i. no_space; used_spaces = 0; initialized = false }

-- A piece of 100 bytes in use, and the rest.
abbrev one_used : Allocator
one_used = record {
  spaces = λ i. elim i [
    | zero ↦ piece 0 100 true
    | suc j ↦ elim j [ zero ↦ piece 100 16284 true | suc k ↦ no_space ]
  ];
  used_spaces = 2;
  initialized = true;
}

default-IsSmall : IsSmall default_limits
default-IsSmall = record { memory = omega arith; places = omega arith; table = omega arith }

one_used-IsTiled : IsTiled default_limits one_used
one_used-IsTiled = record {
  ready = refl;
  some_used = omega arith;
  room = omega arith;
  within = within;
  apart = apart;
  whole = refl;
}
  where
    within : (i : ℕ) → i < 2 → (one_used.spaces i).start + (one_used.spaces i).size ≤ 16384
    within zero l = omega arith
    within (suc zero) l = omega arith
    within (suc (suc i)) l = absurd (omega arith)

    apart :
        (i j : ℕ)
        → i < 2
        → j < 2
        → i ≢ j
        → ((one_used.spaces i).start + (one_used.spaces i).size ≤ (one_used.spaces j).start)
          ⊎ ((one_used.spaces j).start + (one_used.spaces j).size ≤ (one_used.spaces i).start)
    apart zero zero l k other = absurd (other refl)
    apart zero (suc zero) l k other = inl (omega arith)
    apart (suc zero) zero l k other = inr (omega arith)
    apart (suc zero) (suc zero) l k other = absurd (other refl)
    apart zero (suc (suc j)) l k other = absurd (omega arith)
    apart (suc zero) (suc (suc j)) l k other = absurd (omega arith)
    apart (suc (suc i)) j l k other = absurd (omega arith)

default-Sizes : Sizes default_limits 10 20 30
default-Sizes = record {
  first = omega arith;
  second = omega arith;
  third = omega arith;
  all = omega arith;
  memory = omega arith;
  places = omega arith;
  table = omega arith;
}

request_example :
    ((p : ℕ) × (a' : Allocator) × (pok_allocator_allocate default_limits not_set_up 100
        ≡ (a', some p))
      × Serves default_limits (check_init default_limits not_set_up) a' p 100)
    ⊎ ((pok_allocator_allocate default_limits not_set_up 100
          ≡ (check_init default_limits not_set_up, none))
        × IsTiled default_limits (check_init default_limits not_set_up)
        × ((100 ≤ (check_init default_limits not_set_up).used_spaces + 1)
            ⊎ ((j : ℕ)
                → j < (check_init default_limits not_set_up).used_spaces
                → fits (check_init default_limits not_set_up) 100 j ≡ false)))
request_example =
    pok_allocator_allocate_lem default_limits not_set_up 100 default-IsSmall (inl refl)

lone_example :
    (a' : Allocator) × (pok_allocator_free default_limits 100 one_used ≡ some a')
    × ((a'.spaces 1).allocated ≡ false)
    × ((a'.spaces 1).start ≡ (one_used.spaces 1).start)
    × ((a'.spaces 1).size ≡ (one_used.spaces 1).size)
    × ((j : ℕ) → j ≢ 1 → a'.spaces j ≡ one_used.spaces j)
    × (a'.used_spaces ≡ one_used.used_spaces)
    × IsTiled default_limits a'
lone_example =
    pok_allocator_free-lone default_limits 100 one_used 1 one_used-IsTiled (omega arith) not_first
      refl lone
  where
    not_first : (j : ℕ) → j < 1 → (one_used.spaces j).start ≢ 100
    not_first zero l e = omega (arith, e)
    not_first (suc j) l e = absurd (omega arith)

    lone : IsLone one_used 1
    lone zero l away = inl refl
    lone (suc zero) l away = absurd (away refl)
    lone (suc (suc j)) l away = absurd (omega arith)

ends_example : (a' : Allocator) × (pok_allocator_free default_limits 100 one_used ≡ some a')
ends_example =
    pok_allocator_free-ends default_limits 100 one_used default-IsSmall (inr one_used-IsTiled)

loses_example :
    (a1 a2 : Allocator) × (pok_allocator_free default_limits 10
        (three default_limits not_set_up 10 20 30)
      ≡ some a1)
    × (pok_allocator_free default_limits 0 a1 ≡ some a2)
    × (a2.used_spaces ≡ 1)
    × (a2.spaces 0 ≡ piece 0 16384 false)
    × ((n : ℕ) → n ≤ 16384 → (pok_allocator_allocate default_limits a2 n).1 ≡ some 0)
loses_example = pok_allocator_free-loses default_limits not_set_up 10 20 30 default-Sizes refl

leaks_example :
    (a1 a2 : Allocator) × (pok_allocator_free default_limits 0
        (three default_limits not_set_up 10 20 30)
      ≡ some a1)
    × (pok_allocator_free default_limits 30 a1 ≡ some a2)
    × (a2.used_spaces ≡ 1)
    × (a2.spaces 0 ≡ piece 10 16374 true)
    × ((n : ℕ) → (pok_allocator_allocate default_limits a2 n).1 ≡ none)
leaks_example = pok_allocator_free-leaks default_limits not_set_up 10 20 30 default-Sizes refl
