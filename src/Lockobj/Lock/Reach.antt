-- ===== src/Lockobj/Lock/Reach.antt =====
-- The states that a lock object of kernel/core/lockobj.c reaches from its creation on.
use pok_lab.Common.{
  ℕ, ◌≤◌, ◌<◌, ◌≡◌, ◌≢◌, refl, sym, ap, ◌∙◌, inl, inr, Bool, true, false, not, ◌&&◌, Option, none,
  some, arith, leb, ◌==◌, if◌then◌else◌, Bool-cases, subst,
}
use pok_lab.Types.{Threads, Errno, ok, lockobj_kind, lockobj_policy}
use pok_lab.Lockobj.{
  Kind, mutex, semaphore, event, no_kind, priority, no_discipline, Attr, Fifo, Lockobj,
}
use pok_lab.Lockobj.Queue.{pok_lockobj_fifo_init}
use pok_lab.Lockobj.Queue.Slot.{count, IsFifo}
use pok_lab.Lockobj.Queue.Ends.{count_none}
use pok_lab.Lockobj.Queue.Remove.{pok_lockobj_remove_thread_lem}
use pok_lab.Lockobj.Create.{
  is_event, is_semaphore, is_known_policy, is_known_kind, created, pok_lockobj_create,
}
use pok_lab.Lockobj.Lock.{take, give, lock_resumed}
use pok_lab.Lockobj.Lock.Held.{IsHeld, take-IsHeld, give-IsHeld}

-- Every state of an object from its creation with the attributes `attr` on: locks by threads for which the
-- queue has room, unlocks, and locks that end, at any time and for any thread.
pub data Reached (n : ℕ) (attr : Attr) : Lockobj → Type 0 where
  creation :
      (obj : Lockobj) {obj' : Lockobj}
      → pok_lockobj_create obj attr ≡ (obj', ok)
      → Reached n attr obj'
  locked :
      {obj obj' : Lockobj} (ts : Threads) (thread : ℕ) (blocked : Bool)
      → Reached n attr obj
      → count n obj.fifo < n
      → take n ts thread obj ≡ some (obj', blocked)
      → Reached n attr obj'
  unlocked :
      {obj obj' : Lockobj} (heir : Option ℕ)
      → Reached n attr obj
      → give n obj ≡ some (obj', heir)
      → Reached n attr obj'
  ended :
      {obj : Lockobj} (now thread deadline : ℕ)
      → Reached n attr obj
      → Reached n attr (lock_resumed n now thread deadline obj).0

-- What the creation does not check: an object that is no event has one of the two disciplines, and a
-- semaphore begins with no more resources than the most it may have, which is not 0.
pub record IsSound (attr : Attr) : Type 0 where
  pub known : attr.kind ≢ event → attr.queueing_policy ≢ no_discipline
  pub cap : attr.kind ≡ semaphore → attr.initial_value ≤ attr.max_value
  pub positive : attr.kind ≡ semaphore → 0 < attr.max_value

-- A creation that succeeds makes the object of the attributes.
create-created :
    (attr : Attr) (obj obj' : Lockobj)
    → pok_lockobj_create obj attr ≡ (obj', ok)
    → obj' ≡ created attr obj
unfolding pok_lockobj_create
create-created attr obj obj' eq = elim (Bool-cases (is_known_policy attr.locking_policy)) [
  | inr unknown ↦ absurd (refused lockobj_policy (λ e. cc) (sym (answer unknown) ∙ eq))
  | inl known ↦ elim (Bool-cases (is_known_kind attr.kind)) [
    | inr unknown ↦ absurd (refused lockobj_kind (λ e. cc) (sym (answer_kind known unknown) ∙ eq))
    | inl kind ↦ ap (λ (r : Lockobj × Errno). r.0) (sym eq ∙ answer_ok known kind)
  ]
]
  where
    refused : (e : Errno) → e ≢ ok → ◌≡◌ {A = Lockobj × Errno} (obj, e) (obj', ok) → ⊥
    refused e bad h = bad (ap (λ (r : Lockobj × Errno). r.1) h)

    answer :
        is_known_policy attr.locking_policy ≡ false
        → pok_lockobj_create obj attr ≡ (obj, lockobj_policy)
    answer h = rw h refl

    answer_kind :
        is_known_policy attr.locking_policy ≡ true
        → is_known_kind attr.kind ≡ false
        → pok_lockobj_create obj attr ≡ (obj, lockobj_kind)
    answer_kind h h' = rw h rw h' refl

    answer_ok :
        is_known_policy attr.locking_policy ≡ true
        → is_known_kind attr.kind ≡ true
        → pok_lockobj_create obj attr ≡ (created attr obj, ok)
    answer_ok h h' = rw h rw h' refl

created-IsHeld :
    (n : ℕ) (attr : Attr) (obj : Lockobj) → 0 < n → IsSound attr → IsHeld n (created attr obj)
unfolding pok_lockobj_fifo_init
created-IsHeld n attr obj some_threads sound = record {
  valid = record { head_low = some_threads; last_low = some_threads; meet = λ e. refl };
  free = λ l. refl;
  known = policy attr.kind sound.known;
  cap = bound attr.kind sound.cap;
  positive = above attr.kind sound.positive;
}
  where
    policy :
        (kind : Kind)
        → (kind ≢ event → attr.queueing_policy ≢ no_discipline)
        → (if is_event kind then priority else attr.queueing_policy) ≢ no_discipline
    policy event known = λ e. absurd (ground (arith, e))
    policy mutex known = known (λ e. ground (arith, e))
    policy semaphore known = known (λ e. ground (arith, e))
    policy no_kind known = known (λ e. ground (arith, e))

    bound :
        (kind : Kind)
        → (kind ≡ semaphore → attr.initial_value ≤ attr.max_value)
        → (if is_semaphore kind then attr.initial_value else 1) ≤ (
            if is_semaphore kind
            then (if is_semaphore kind then attr.max_value else obj.max_value)
            else 1)
    bound event cap = omega arith
    bound mutex cap = omega arith
    bound semaphore cap = cap refl
    bound no_kind cap = omega arith

    above :
        (kind : Kind)
        → (kind ≡ semaphore → 0 < attr.max_value)
        → 0 < (
            if is_semaphore kind
            then (if is_semaphore kind then attr.max_value else obj.max_value)
            else 1)
    above event positive = omega arith
    above mutex positive = omega arith
    above semaphore positive = positive refl
    above no_kind positive = omega arith

lock_resumed-IsHeld :
    (n now thread deadline : ℕ) (obj : Lockobj)
    → IsHeld n obj
    → IsHeld n (lock_resumed n now thread deadline obj).0
unfolding lock_resumed
lock_resumed-IsHeld n now thread deadline obj v =
    elim (Bool-cases (not (deadline == 0) && leb deadline now)) [
      | inl late ↦ rw late (elim (pok_lockobj_remove_thread_lem n thread obj.fifo v.valid) [
        | inl (p, f', at, eq, w) ↦ record {
          valid = subst (λ (r : Fifo × Errno). IsFifo n r.0) (sym eq) w.valid;
          free = λ l. absurd (omega (arith, at.upto, count_none n obj.fifo v.valid (v.free l)));
          known = v.known;
          cap = v.cap;
          positive = v.positive;
        }
        | inr (absent, eq) ↦
            subst (λ (r : Fifo × Errno). IsHeld n (record obj { fifo = r.0 })) (sym eq) v
      ])
      | inr early ↦ rw early v
    ]

abbrev object_of {ℓ} : {A : Type ℓ} → Lockobj → Option (Lockobj × A) → Lockobj
object_of obj none = obj
object_of obj (some (next, a)) = next

-- In a build with threads, for an object that is created with attributes where one that is no event has a
-- known queueing discipline, and a semaphore an initial value of at most its maximum, which is not 0:
-- every state that it reaches is one in which no thread waits for it while it is free, and no more
-- resources are left than the most it may have.
pub Reached-IsHeld :
    (n : ℕ) (attr : Attr)
    → 0 < n
    → IsSound attr
    → (obj : Lockobj) → Reached n attr obj
    → IsHeld n obj
Reached-IsHeld n attr some_threads sound obj' (creation obj eq) =
    subst (IsHeld n) (sym (create-created attr obj obj' eq))
      (created-IsHeld n attr obj some_threads sound)
Reached-IsHeld n attr some_threads sound _ (locked {obj} {obj'} ts thread blocked reached room eq) =
    let (next, b, eq', v, rest) =
      take-IsHeld n ts thread obj (Reached-IsHeld n attr some_threads sound obj reached) room in
    subst (IsHeld n) (ap (object_of obj) (sym eq' ∙ eq)) v
Reached-IsHeld n attr some_threads sound _ (unlocked {obj} {obj'} heir reached eq) =
    let (next, h, eq', v, rest) =
      give-IsHeld n obj (Reached-IsHeld n attr some_threads sound obj reached) in
    subst (IsHeld n) (ap (object_of obj) (sym eq' ∙ eq)) v
Reached-IsHeld n attr some_threads sound _ (ended {obj} now thread deadline reached) =
    lock_resumed-IsHeld n now thread deadline obj
      (Reached-IsHeld n attr some_threads sound obj reached)
