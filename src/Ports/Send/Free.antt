-- ===== src/Ports/Send/Free.antt =====
-- The steps of a sending of kernel/middleware/portqueueingsend.c to a port whose lock no thread has.
use pok_lab.Common.{ℕ, ◌-◌, ◌≤◌, ◌<◌, ◌≡◌, ◌≢◌, refl, sym, ap, ◌∙◌, true, false, some, arith, ltb}
use pok_lab.Types.{ok}
use pok_lab.Kernel.{Now}
use pok_lab.Lockobj.{Lockobj, returns}
use pok_lab.Lockobj.Lock.{take, after_take, pok_lockobj_lock, give, hand_over, pok_lockobj_unlock}
use pok_lab.Lockobj.Event.{is_ok}
use pok_lab.Ports.{
  Kind, queueing, sampling, no_kind, Port, Bytes, is_queueing, pok_port_available_size, write_ring,
  advanced_e, pok_port_write,
}
use pok_lab.Ports.RoundTrip.{write_fits}
use pok_lab.Ports.Table.{State}
use pok_lab.Ports.Table.Cells.{set_port_at, set_port_off, relock}
use pok_lab.Ports.Locks.{Context, with_lock_of, lock_port, unlock_port}
use pok_lab.Ports.Send.{owns, is_outgoing, send_guard, written, to_flush}

-- The lock is there, and no thread has it or waits for it.
pub record IsFree (obj : Lockobj) : Type 0 where
  pub initialized : obj.initialized ≡ true
  pub current_value : obj.current_value ≡ 1
  pub none_waits : obj.fifo.is_empty ≡ true

-- The port is one of the current partition for sending, and can have a message of this length.
pub record MaySend (x : Context) (s : State) (id len : ℕ) : Type 0 where
  pub low : id ≤ x.deployment.nb_ports
  pub some_bytes : 0 < len
  pub owned : owns x s id ≡ true
  pub ready : (s.ports id).is_ready ≡ true
  pub fits : len ≤ (s.ports id).length
  pub outgoing : is_outgoing (s.ports id).direction ≡ true
  pub partition : (s.ports id).partition ≡ s.kernel.current_partition
  pub queue : is_queueing (s.ports id).kind ≡ true

pub guard-MaySend :
    (x : Context) (s : State) (id len : ℕ)
    → is_ok (send_guard x s id false len) ≡ true
    → MaySend x s id len
unfolding send_guard
guard-MaySend x s id len e = record {
  low = ground (arith, e);
  some_bytes = ground (arith, e);
  owned = ground (arith, e);
  ready = ground (arith, e);
  fits = ground (arith, e);
  outgoing = ground (arith, e);
  partition = ground (arith, e);
  queue = ground (arith, e);
}

pub MaySend-guard :
    (x : Context) (s : State) (id len : ℕ)
    → MaySend x s id len
    → is_ok (send_guard x s id false len) ≡ true
unfolding send_guard
MaySend-guard x s id len may = ground (
  arith, may.low, may.some_bytes, may.owned, may.ready, may.fits, may.outgoing, may.partition,
  may.queue,
)

abbrev pub taken : Lockobj → Lockobj
taken obj = record obj { current_value = obj.current_value - 1 }

pub lock-free :
    (x : Context) (w : Now) (s : State) (id : ℕ)
    → IsFree (s.ports id).lock
    → lock_port x w s id ≡ some (with_lock_of s id s.kernel (taken (s.ports id).lock), returns ok)
unfolding lock_port pok_lockobj_lock take after_take
lock-free x w s id free = rw (free.initialized, some_left, free.none_waits) refl
  where
    some_left : ltb 0 (s.ports id).lock.current_value ≡ true
    some_left = ground (arith, free.current_value)

pub unlock-taken :
    (x : Context) (w : Now) (s : State) (id : ℕ)
    → (s.ports id).lock.initialized ≡ true
    → (s.ports id).lock.current_value ≡ 0
    → (s.ports id).lock.fifo.is_empty ≡ true
    → unlock_port x w s id
      ≡ some (with_lock_of s id s.kernel (record ((s.ports id).lock) { current_value = 1 }), ok)
unfolding unlock_port pok_lockobj_unlock give hand_over
unlock-taken x w s id there has none_waits = rw (there, has, none_waits) refl

pub queueing_of : (k : Kind) → is_queueing k ≡ true → k ≡ queueing
queueing_of queueing e = refl
queueing_of sampling e = absurd (ground (arith, e))
queueing_of no_kind e = absurd (ground (arith, e))

not_full : (p : Port) (len : ℕ) → 0 < len → len ≤ pok_port_available_size p → p.is_full ≡ false
unfolding pok_port_available_size
not_full p len some_bytes room = ground (arith, some_bytes, room)

-- The message is in the ring of the port, which is to be flushed.
pub record IsSent (s : State) (id : ℕ) (msg : Bytes) (len : ℕ) (s' : State) : Type 0 where
  pub bytes :
      s'.bytes
      ≡ write_ring (s.ports id).index (s.ports id).length (s.ports id).off_e s.bytes msg len
  pub port : s'.ports id ≡ record (advanced_e (s.ports id) len) { must_be_flushed = true }
  pub others : (j : ℕ) → j ≢ id → s'.ports j ≡ s.ports j
  pub kernel : s'.kernel ≡ s.kernel

pub record IsUntouched (s s' : State) : Type 0 where
  pub bytes : s'.bytes ≡ s.bytes
  pub ports : (j : ℕ) → s'.ports j ≡ s.ports j
  pub kernel : s'.kernel ≡ s.kernel

module _ (x : Context) (w : Now) (s : State) (id : ℕ) (msg : Bytes) (len : ℕ)
    (free : IsFree (s.ports id).lock) where
  abbrev pub locked : State
  locked = with_lock_of s id s.kernel (taken (s.ports id).lock)

  pub locked_at : locked.ports id ≡ relock (taken (s.ports id).lock) (s.ports id)
  locked_at = set_port_at s id (relock (taken (s.ports id).lock))

  pub value_taken : (s.ports id).lock.current_value - 1 ≡ 0
  value_taken = omega (arith, free.current_value)

  -- The lock that is given back is the one that was taken.
  pub given_back : record ((s.ports id).lock) { current_value = 1 } ≡ (s.ports id).lock
  given_back = ap (λ v. record ((s.ports id).lock) { current_value = v }) (sym free.current_value)

  abbrev pub marked : State
  marked = to_flush (written w locked id msg len) id

  module _ (may : MaySend x s id len) (room : len ≤ pok_port_available_size (s.ports id)) where
    writes : pok_port_write w s.bytes (locked.ports id) msg len ≡ (
      write_ring (s.ports id).index (s.ports id).length (s.ports id).off_e s.bytes msg len,
      advanced_e (relock (taken (s.ports id).lock) (s.ports id)) len,
      ok,
    )
    writes =
        ap (λ q. pok_port_write w s.bytes q msg len) locked_at
        ∙ write_fits w s.bytes (relock (taken (s.ports id).lock) (s.ports id)) msg len
            (queueing_of (s.ports id).kind may.queue)
            (not_full (s.ports id) len may.some_bytes room) may.fits

    marked_at :
        marked.ports id ≡ record (advanced_e (relock (taken (s.ports id).lock) (s.ports id)) len) {
          must_be_flushed = true;
        }
    marked_at =
        set_port_at (written w locked id msg len) id (λ p. record p { must_be_flushed = true })
        ∙ ap (λ (p : Port). record p { must_be_flushed = true })
            (set_port_at locked id (λ _. (pok_port_write w s.bytes (locked.ports id) msg len).1)
              ∙ ap (λ r. r.1) writes)

    abbrev pub sent : State
    sent =
        with_lock_of marked id marked.kernel (record ((marked.ports id).lock) { current_value = 1 })

    pub unlocks : unlock_port x w marked id ≡ some (sent, ok)
    unlocks =
        unlock-taken x w marked id
          (ap (λ (p : Port). p.lock.initialized) marked_at ∙ free.initialized)
          (ap (λ (p : Port). p.lock.current_value) marked_at ∙ value_taken)
          (ap (λ (p : Port). p.lock.fifo.is_empty) marked_at ∙ free.none_waits)

    pub sent-IsSent : IsSent s id msg len sent
    sent-IsSent = record {
      bytes = ap (λ r. r.0) writes;
      port =
          set_port_at marked id (relock (record ((marked.ports id).lock) { current_value = 1 }))
          ∙ ap (λ (p : Port). relock (record (p.lock) { current_value = 1 }) p) marked_at
          ∙ ap (λ l. record (advanced_e (relock l (s.ports id)) len) { must_be_flushed = true })
              given_back;
      others = λ j off.
          set_port_off marked id j (relock (record ((marked.ports id).lock) { current_value = 1 }))
            off
          ∙ set_port_off (written w locked id msg len) id j
              (λ p. record p { must_be_flushed = true }) off
          ∙ set_port_off locked id j (λ _. (pok_port_write w s.bytes (locked.ports id) msg len).1)
              off
          ∙ set_port_off s id j (relock (taken (s.ports id).lock)) off;
      kernel = refl;
    }
