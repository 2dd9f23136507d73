-- ===== src/Lockobj/Lock/Lost.antt =====
-- A deadline and an unlock that meet in kernel/core/lockobj.c.
use pok_lab.Common.{
  ℕ, ◌+◌, ◌≤◌, ◌<◌, ◌≡◌, sym, ap, ◌∙◌, inl, inr, Bool, true, false, not, ◌&&◌, some, arith, leb,
  ◌==◌, if◌then◌else◌,
}
use pok_lab.Types.{Errno, ok, timeout, notfound}
use pok_lab.Lockobj.{Fifo, Lockobj}
use pok_lab.Lockobj.Queue.{pok_lockobj_remove_thread}
use pok_lab.Lockobj.Queue.Slot.{count, item, IsFifo}
use pok_lab.Lockobj.Queue.Remove.{Absent, pok_lockobj_remove_thread_lem}
use pok_lab.Lockobj.Lock.{give, lock_resumed}
use pok_lab.Lockobj.Lock.Held.{IsHeld, give-IsHeld}

expired :
    (deadline now : ℕ)
    → 0 < deadline
    → deadline ≤ now
    → not (deadline == 0) && leb deadline now ≡ true
expired deadline now set late = ground (arith, set, late)

gone :
    (n thread : ℕ) (f : Fifo)
    → IsFifo n f
    → Absent n thread f 0 (count n f)
    → pok_lockobj_remove_thread n thread f ≡ (f, notfound)
gone n thread f v absent = elim (pok_lockobj_remove_thread_lem n thread f v) [
  | inl (p, f', at, eq, w) ↦ absurd (absent p (omega arith) at.upto at.here)
  | inr (a, eq) ↦ eq
]

-- The head of the queue of an object, waiting there once, gets the object by an unlock, and runs again
-- when its deadline is past: its lock returns POK_ERRNO_TIMEOUT, yet no resource is left
-- and the queue is as the unlock left it, so the resource that it got is lost.
pub lock_resumed-lost :
    (n now deadline : ℕ) (obj : Lockobj)
    → IsHeld n obj
    → obj.fifo.is_empty ≡ false
    → Absent n (item n obj.fifo 0) obj.fifo 1 (count n obj.fifo)
    → 0 < deadline
    → deadline ≤ now
    → (obj' : Lockobj) × (give n obj ≡ some (obj', some (item n obj.fifo 0)))
      × (lock_resumed n now (item n obj.fifo 0) deadline obj' ≡ (obj', timeout))
      × (obj'.current_value ≡ 0)
unfolding lock_resumed
lock_resumed-lost n now deadline obj v queue once set late =
    let (obj', heir, eq, v', outcome) = give-IsHeld n obj v in
    elim outcome [
      | inl (h, alone, same, free) ↦ absurd (ground (arith, queue, alone))
      | inr (h, full, was, zero, less, items) ↦
          let thread = item n obj.fifo 0 in
          (
            obj',
            eq ∙ ap (λ x. some (obj', x)) h,
            ap (resumed obj') (expired deadline now set late)
                ∙ ap (λ (r : Fifo × Errno). (record obj' { fifo = r.0 }, timeout))
                    (gone n thread obj'.fifo v'.valid (λ i low l e.
                      once (i + 1) (omega arith) (omega (arith, less, l)) (sym (items i l) ∙ e))),
            zero,
          )
    ]
  where
    resumed : Lockobj → Bool → Lockobj × Errno
    resumed obj' late =
        if late
        then (
          record obj' { fifo = (pok_lockobj_remove_thread n (item n obj.fifo 0) obj'.fifo).0 },
          timeout,
        )
        else (obj', ok)
