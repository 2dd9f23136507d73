-- ===== src/Sched/Slots/Frame.antt =====
-- The time frame of kernel/core/sched.c: the slots follow one another with the period of the major
-- frame, and the time-sliced scheduler runs the partition of the current slot.
use pok_lab.Common.{
  ℕ, zero, suc, ◌+◌, ◌-◌, ◌%◌, ◌<◌, ◌≡◌, refl, sym, ap, subst, ◌∙◌, inl, inr, ◌&&◌, false, some,
  arith, leb, if◌then◌else◌, u64, u64_mod, Bool-cases, mod_below, mod_same, mod_low,
}
use pok_lab.Types.{is_init}
use pok_lab.Kernel.{Config, Kernel, Now, global_timeslice}
use pok_lab.Sched.Slots.{
  pok_setup_scheduler_global, total_slots, pok_sched_init, pok_sched_part_global_timeslice,
  global_call, next_frame, next_slot, elect_in_slot, pok_elect_partition,
}

-- The lengths of `n` slots from `i` on, added up.
unfoldable sum : (ℕ → ℕ) → ℕ → ℕ → ℕ
sum slots zero i = 0
sum slots (suc n) i = slots i + sum slots n (i + 1)

-- `n` changes of slot.
unfoldable pub turns : Config → ℕ → Kernel → Kernel
turns c zero k = k
turns c (suc n) k = turns c n (next_slot c k)

total_slots-sum :
    (slots : ℕ → ℕ) (n i t : ℕ) → t < u64_mod → total_slots slots n i t ≡ u64 (t + sum slots n i)
unfolding total_slots sum
total_slots-sum slots zero i t small = omega arith
total_slots-sum slots (suc n) i t small =
    total_slots-sum slots n (i + 1) (u64 (t + slots i)) (omega arith) ∙ (omega arith)

-- The state one slot on, short of the last slot.
abbrev advanced : Kernel → Kernel
advanced k = record k {
  sched_current_slot = k.sched_current_slot + 1;
  sched_next_deadline = u64 (k.sched_next_deadline + k.sched_slots (k.sched_current_slot + 1));
}

next_slot-advanced :
    (c : Config) (k : Kernel) → k.sched_current_slot + 1 < c.nb_slots → next_slot c k ≡ advanced k
unfolding next_slot
next_slot-advanced c k inside = rw (mod_below (k.sched_current_slot + 1) c.nb_slots inside) refl

turns-sum :
    (c : Config) (n : ℕ) (k : Kernel)
    → k.sched_current_slot + n < c.nb_slots
    → ((turns c n k).sched_current_slot ≡ k.sched_current_slot + n)
      × (u64 (turns c n k).sched_next_deadline
          ≡ u64 (k.sched_next_deadline + sum k.sched_slots n (k.sched_current_slot + 1)))
      × ((turns c n k).sched_slots ≡ k.sched_slots)
unfolding turns sum
turns-sum c zero k inside = (omega arith, omega arith, refl)
turns-sum c (suc n) k inside =
    let (slot, deadline, slots) = turns-sum c n (advanced k) (omega arith) in
    let step = ap (turns c n) (next_slot-advanced c k (omega arith)) in
    (
      ap (λ l. l.sched_current_slot) step ∙ slot ∙ (omega arith),
      ap (λ l. u64 l.sched_next_deadline) step ∙ deadline ∙ (omega arith),
      ap (λ l. l.sched_slots) step ∙ slots,
    )

turns-snoc : (c : Config) (n : ℕ) (k : Kernel) → turns c (suc n) k ≡ next_slot c (turns c n k)
unfolding turns
turns-snoc c zero k = refl
turns-snoc c (suc n) k = turns-snoc c n (next_slot c k)

last_slot : (slot nb_slots : ℕ) → slot + 1 ≡ nb_slots → (slot + 1) % nb_slots ≡ 0
last_slot slot nb_slots last = ap (λ m. m % nb_slots) last ∙ mod_same nb_slots

carry : (d e x : ℕ) {s t : ℕ} → u64 d ≡ u64 (e + s) → s ≡ t → u64 (d + x) ≡ u64 (e + (x + t))
carry d e x deadline same = omega arith

-- From the first slot, as many changes of slot as there are slots: the first slot again.
frame :
    (c : Config) (n : ℕ) (k : Kernel)
    → c.nb_slots ≡ suc n
    → k.sched_current_slot ≡ 0
    → ((turns c (suc n) k).sched_current_slot ≡ 0)
      × ((turns c (suc n) k).sched_next_deadline
          ≡ u64 (k.sched_next_deadline + sum k.sched_slots (suc n) 0))
unfolding next_slot sum
frame c n k slots first =
    let (slot, deadline, same) = turns-sum c n k (omega arith) in
    let last = turns-snoc c n k in
    let from_one = ap (λ i. sum k.sched_slots n (i + 1)) first in
    let again = last_slot (turns c n k).sched_current_slot c.nb_slots (omega arith) in
    (
      ap (λ l. l.sched_current_slot) last ∙ again,
      ap (λ l. l.sched_next_deadline) last
          ∙ ap (λ x. u64 ((turns c n k).sched_next_deadline + (turns c n k).sched_slots x)) again
          ∙ ap (λ f. u64 ((turns c n k).sched_next_deadline + f 0)) same
          ∙ carry (turns c n k).sched_next_deadline k.sched_next_deadline (k.sched_slots 0) deadline
              from_one,
    )

-- When the check of `pok_sched_init` raises no error, as many changes of slot as there are slots lead
-- from the initial state back to the first slot, with the deadline one major frame later.
pub pok_sched_init_lem :
    (c : Config) (k : Kernel)
    → 0 < c.nb_slots
    → (pok_sched_init c k).1 ≡ false
    → ((turns c c.nb_slots (pok_sched_init c k).0).sched_current_slot ≡ 0)
      × ((turns c c.nb_slots (pok_sched_init c k).0).sched_next_deadline
          ≡ u64 (
              (pok_sched_init c k).0.sched_next_deadline
              + (pok_sched_init c k).0.sched_major_frame))
unfolding pok_sched_init pok_setup_scheduler_global
pok_sched_init_lem c k some_slots no_error =
    let l = (pok_sched_init c k).0 in
    let all : suc (c.nb_slots - 1) ≡ c.nb_slots = omega arith in
    let (slot, deadline) = frame c (c.nb_slots - 1) l (omega arith) refl in
    let total = total_slots-sum l.sched_slots c.nb_slots 0 0 (omega arith) in
    (
      subst (λ m. (turns c m l).sched_current_slot ≡ 0) all slot,
      subst
            (λ m.
              (turns c m l).sched_next_deadline
              ≡ u64 (l.sched_next_deadline + sum l.sched_slots m 0))
            all deadline
          ∙ ground (arith, no_error, total),
    )

-- The time-sliced scheduler is chosen, the current slot is one of the frame, and the partition of the
-- kernel is that of the slot.
pub record InSlot (c : Config) (k : Kernel) : Type 0 where
  pub sliced : k.sched_partition_func ≡ global_timeslice
  pub slot_low : k.sched_current_slot < c.nb_slots
  pub partition_of : k.current_partition ≡ k.sched_slots_allocation k.sched_current_slot

elect_in_slot-sliced :
    (fuel : ℕ) (c : Config) (w : Now) (k : Kernel)
    → k.sched_partition_func ≡ global_timeslice
    → elect_in_slot fuel c w k ≡ some (k, k.sched_slots_allocation k.sched_current_slot)
unfolding elect_in_slot global_call pok_sched_part_global_timeslice
elect_in_slot-sliced fuel c w k sliced =
    let next_partition = k.sched_slots_allocation k.sched_current_slot in
    elim (Bool-cases (is_init (k.partitions next_partition).mode)) [
      | inl starting ↦ rw starting refl
      | inr started ↦ rw (started, sliced) refl
    ]

-- What the changes of slot and of frame leave.
next-kept :
    (c : Config) (now : ℕ) (k : Kernel)
    → ((next_slot c (next_frame c now k)).sched_partition_func ≡ k.sched_partition_func)
      × ((next_slot c (next_frame c now k)).sched_current_slot
          ≡ (k.sched_current_slot + 1) % c.nb_slots)
unfolding next_slot next_frame
next-kept c now k = elim (Bool-cases (c.needs_ports && leb k.sched_next_major_frame now)) [
  | inl over ↦ rw over (refl, refl)
  | inr goes_on ↦ rw goes_on (refl, refl)
]

-- Where the time-sliced scheduler runs the partition of the slot, an election of a partition returns,
-- at any time and in any mode of the partitions, and the kernel that switches to the elected partition
-- runs the partition of its slot again. The slot is the next one if the deadline has passed, and
-- the same one if not.
pub pok_elect_partition_lem :
    (fuel : ℕ) (c : Config) (w : Now) (k : Kernel)
    → InSlot c k
    → (r : Kernel × ℕ) × (pok_elect_partition fuel c w k ≡ some r)
      × InSlot c (record r.0 { current_partition = r.1 })
      × (r.0.sched_current_slot ≡ (
          if leb k.sched_next_deadline w.tick
          then (k.sched_current_slot + 1) % c.nb_slots
          else k.sched_current_slot))
unfolding pok_elect_partition
pok_elect_partition_lem fuel c w k v = elim (Bool-cases (leb k.sched_next_deadline w.tick)) [
  | inl over ↦
      let l = next_slot c (next_frame c w.tick k) in
      let (sliced, slot) = next-kept c w.tick k in
      rw over (
        (l, l.sched_slots_allocation l.sched_current_slot),
        elect_in_slot-sliced fuel c w l (sliced ∙ v.sliced),
        record {
          sliced = sliced ∙ v.sliced;
          slot_low =
              subst (λ i. i < c.nb_slots) (sym slot)
                (mod_low (k.sched_current_slot + 1) c.nb_slots (omega arith));
          partition_of = refl;
        },
        slot,
      )
  | inr goes_on ↦ rw goes_on (
    (k, k.current_partition),
    refl,
    record { sliced = v.sliced; slot_low = v.slot_low; partition_of = v.partition_of },
    refl,
  )
]
