-- ===== src/Tests/Lockobj.antt =====
-- Runs of the theorems on lock objects.
use pok_lab.Common.{
  update, inr, ℕ, ◌+◌, ◌≤◌, ◌<◌, ◌≡◌, ◌≢◌, refl, ap, ◌∙◌, ◌⊎◌, Bool, true, false, Option, none,
  some, arith, if◌then◌else◌, ◌==◌,
}
use pok_lab.Types.{Threads, ok, notfound, timeout}
use pok_lab.Kernel.{Kernel}
use pok_lab.Lockobj.{Lockobjs, unlock, returns, semaphore, priority, standard, Fifo, Attr, Lockobj}
use pok_lab.Lockobj.Queue.{enqueue_sorted, pok_lockobj_remove_thread}
use pok_lab.Lockobj.Queue.Slot.{slot, count, item, IsFifo}
use pok_lab.Lockobj.Queue.Insert.{goes_first, enqueue_sorted_lem}
use pok_lab.Lockobj.Queue.Remove.{Absent, IsAt, IsWithout, pok_lockobj_remove_thread_lem}
use pok_lab.Lockobj.Create.{created, pok_lockobj_create}
use pok_lab.Lockobj.Lock.{pok_lockobj_unlock, hand_over, give, lock_resumed}
use pok_lab.Lockobj.Lock.Held.{IsHeld, give-IsHeld}
use pok_lab.Lockobj.Lock.Lost.{lock_resumed-lost}
use pok_lab.Lockobj.Lock.Reach.{Reached, IsSound, creation, ended, Reached-IsHeld}
use pok_lab.Lockobj.Event.{wake_all}
use pok_lab.Lockobj.Event.Wake.{IsWoken, resched_of, wake_all-IsWoken}
use pok_lab.Lockobj.Call.{LockAttr, operate, is_foreign, pok_lockobj_partition_wrapper}
use pok_lab.Lockobj.Call.Isolation.{pok_lockobj_partition_wrapper_lem}
use pok_lab.Tests.Data.{conf, at_120, runner, kernel}

-- Threads 4 and 7 wait, at the places 3 and 0 of a ring of four.
abbrev two_wait : Fifo
two_wait = record { head = 3; last = 1; is_empty = false; buffer = λ i. if i == 3 then 4 else 7 }

two_valid : IsFifo 4 two_wait
two_valid = record { head_low = omega arith; last_low = omega arith; meet = λ e. ground (arith, e) }

two : count 4 two_wait ≡ 2
unfolding count
two = refl

room : count 4 two_wait < 4
room = omega (arith, two)

-- Thread 4 has the priority 4, thread 7 the priority 7, and so on.
abbrev by_number : Threads
by_number i = record runner { priority = i }

sorted_example :
    (f' : Fifo) × (p : ℕ) × (enqueue_sorted 4 by_number 5 two_wait ≡ (f', ok))
    × IsFifo 4 f'
    × (count 4 f' ≡ count 4 two_wait + 1)
    × (p ≤ count 4 two_wait)
    × (item 4 f' p ≡ 5)
    × ((y : ℕ)
        → y < p
        → (item 4 f' y ≡ item 4 two_wait y) × (goes_first 4 by_number 5 two_wait y ≡ true))
    × ((y : ℕ) → p ≤ y → y < count 4 two_wait → item 4 f' (y + 1) ≡ item 4 two_wait y)
    × ((p ≡ count 4 two_wait) ⊎ (goes_first 4 by_number 5 two_wait p ≡ false))
sorted_example = enqueue_sorted_lem 4 by_number 5 two_wait two_valid room

remove_example :
    ((p : ℕ) × (f' : Fifo) × IsAt 4 7 two_wait 0 p
      × (pok_lockobj_remove_thread 4 7 two_wait ≡ (f', ok))
      × IsWithout 4 two_wait f' p)
    ⊎ (Absent 4 7 two_wait 0 (count 4 two_wait)
        × (pok_lockobj_remove_thread 4 7 two_wait ≡ (two_wait, notfound)))
remove_example = pok_lockobj_remove_thread_lem 4 7 two_wait two_valid

-- A semaphore whose one resource is taken, and for which threads 4 and 7 wait.
abbrev taken : Lockobj
taken = record {
  eventspin = false;
  fifo = two_wait;
  event_fifo = two_wait;
  locking_policy = standard;
  queueing_policy = priority;
  kind = semaphore;
  initialized = true;
  current_value = 0;
  max_value = 1;
}

taken-IsHeld : IsHeld 4 taken
taken-IsHeld = record {
  valid = two_valid;
  free = λ l. absurd (omega arith);
  known = λ e. ground (arith, e);
  cap = omega arith;
  positive = omega arith;
}

give_example :
    (obj' : Lockobj) × (heir : Option ℕ) × (give 4 taken ≡ some (obj', heir))
    × IsHeld 4 obj'
    × (((heir ≡ none)
          × (two_wait.is_empty ≡ true)
          × (obj'.fifo ≡ two_wait)
          × (0 < obj'.current_value))
        ⊎ ((heir ≡ some (item 4 two_wait 0))
            × (two_wait.is_empty ≡ false)
            × (taken.current_value ≡ 0)
            × (obj'.current_value ≡ 0)
            × (count 4 two_wait ≡ count 4 obj'.fifo + 1)
            × ((i : ℕ) → i < count 4 obj'.fifo → item 4 obj'.fifo i ≡ item 4 two_wait (i + 1))))
give_example = give-IsHeld 4 taken taken-IsHeld

apart : item 4 two_wait 1 ≢ item 4 two_wait 0
unfolding slot
apart = omega arith

second : (z : ℕ) → 1 ≤ z → z < count 4 two_wait → 1 ≡ z
second z low high = omega (arith, low, high, two)

once : Absent 4 (item 4 two_wait 0) two_wait 1 (count 4 two_wait)
once z low high e = apart (ap (item 4 two_wait) (second z low high) ∙ e)

lost_example :
    (obj' : Lockobj) × (give 4 taken ≡ some (obj', some (item 4 two_wait 0)))
    × (lock_resumed 4 60 (item 4 two_wait 0) 50 obj' ≡ (obj', timeout))
    × (obj'.current_value ≡ 0)
lost_example = lock_resumed-lost 4 60 50 taken taken-IsHeld refl once (omega arith) (omega arith)

abbrev attr : Attr
attr = record {
  kind = semaphore;
  locking_policy = standard;
  queueing_policy = priority;
  initial_value = 1;
  max_value = 1;
}

reached : Reached 4 attr (lock_resumed 4 60 7 50 (created attr taken)).0
unfolding pok_lockobj_create
reached = ended 60 7 50 (creation taken refl)

attr-IsSound : IsSound attr
attr-IsSound = record {
  known = λ e. λ h. ground (arith, h);
  cap = λ e. omega arith;
  positive = λ e. omega arith;
}

reached_example : IsHeld 4 (lock_resumed 4 60 7 50 (created attr taken)).0
reached_example =
    Reached-IsHeld 4 attr (omega arith) attr-IsSound (lock_resumed 4 60 7 50 (created attr taken)).0
      reached

wake_example :
    (k' : Kernel) × (f' : Fifo) × (resched' : Bool) × (wake_all 4 4 kernel two_wait false
      ≡ some (k', f', resched'))
    × (f'.is_empty ≡ true)
    × IsWoken 4 kernel two_wait k'
    × (resched' ≡ resched_of two_wait false)
wake_example = wake_all-IsWoken 4 4 kernel two_wait false two_valid (omega (arith, two))

-- Object 0 is the partition's, and it unlocks that one, which is free already.
abbrev call : LockAttr
call = record { operation = unlock; obj_kind = semaphore; timeout = 0 }

abbrev free : Lockobj
free = record taken { current_value = 1; fifo = record two_wait { is_empty = true; last = 3 } }

abbrev objects : Lockobjs
objects i = free

unlocks :
    pok_lockobj_partition_wrapper 2 4 conf at_120 0 kernel objects 0 call
    ≡ some (kernel, update objects 0 free, returns ok)
unfolding pok_lockobj_partition_wrapper operate is_foreign pok_lockobj_unlock give hand_over
unlocks = refl

isolation_example : update objects 0 free 1 ≡ objects 1
isolation_example =
    pok_lockobj_partition_wrapper_lem 2 4 conf at_120 0 kernel kernel objects
      (update objects 0 free) 0 call (returns ok) unlocks 1 (inr (omega arith))
