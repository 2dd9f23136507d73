-- ===== src/Ports/Send/Outcome.antt =====
-- What a sending of kernel/middleware/portqueueingsend.c does when no thread has the lock of its port.
use pok_lab.Common.{
  ℕ, ◌≡◌, refl, sym, ap, ◌∙◌, Option, some, ◌>>=◌, ◌==◌, if◌then◌else◌, ℕ_discrete, subst,
}
use pok_lab.Types.{ok, full}
use pok_lab.Kernel.{Now}
use pok_lab.Lockobj.Lock.{deadline_of}
use pok_lab.Ports.{Port, Bytes}
use pok_lab.Ports.Table.{State}
use pok_lab.Ports.Table.Cells.{set_port_at, set_port_off, relock}
use pok_lab.Ports.Locks.{Context, Progress, done, with_lock_of, unlock_port, wait_port}
use pok_lab.Ports.Send.{leave, after_wait}
use pok_lab.Ports.Send.Free.{
  IsFree, unlock-taken, taken, IsUntouched, locked, locked_at, value_taken, given_back, marked,
}

module _ (x : Context) (w : Now) (s : State) (id : ℕ) (msg : Bytes) (len timeout : ℕ)
    (free : IsFree (s.ports id).lock) where
  abbrev until : ℕ
  until = deadline_of w.tick timeout

  abbrev start : State
  start = locked x w s id msg len free

  abbrev fail : Option (State × Progress)
  fail =
      if until == 0
      then leave x w start id full
      else wait_port x w start id until >>= λ r. after_wait x w id r

  abbrev write : Option (State × Progress)
  write = unlock_port x w (marked x w s id msg len free) id >>= λ r. some (r.0, done r.1)

  abbrev pub released : State
  released =
      with_lock_of start id start.kernel (record ((start.ports id).lock) { current_value = 1 })

  pub gives_back : unlock_port x w start id ≡ some (released, ok)
  gives_back =
      unlock-taken x w start id
        (ap (λ (p : Port). p.lock.initialized) (locked_at x w s id msg len free) ∙ free.initialized)
        (ap (λ (p : Port). p.lock.current_value) (locked_at x w s id msg len free)
          ∙ value_taken x w s id msg len free)
        (ap (λ (p : Port). p.lock.fifo.is_empty) (locked_at x w s id msg len free)
          ∙ free.none_waits)

  pub released-IsUntouched : IsUntouched s released
  released-IsUntouched = record {
    bytes = refl;
    ports = λ j. elim (ℕ_discrete j id) [
      | yes here ↦
          subst (λ i. released.ports i ≡ s.ports i) (sym here)
            (set_port_at start id (relock (record ((start.ports id).lock) { current_value = 1 }))
              ∙ ap (λ (p : Port). relock (record (p.lock) { current_value = 1 }) p)
                  (locked_at x w s id msg len free)
              ∙ ap (λ l. relock l (s.ports id)) (given_back x w s id msg len free))
      | no off ↦
          set_port_off start id j (relock (record ((start.ports id).lock) { current_value = 1 }))
            off
          ∙ set_port_off s id j (relock (taken (s.ports id).lock)) off
    ];
    kernel = refl;
  }
