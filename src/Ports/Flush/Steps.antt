-- ===== src/Ports/Flush/Steps.antt =====
-- The steps of a flush of kernel/middleware/portflushall.c to one port that is empty.
use pok_lab.Common.{
  ℕ, zero, suc, ◌+◌, ◌-◌, ◌%◌, ◌≤◌, ◌<◌, ◌≡◌, ◌≢◌, refl, ap, ◌∙◌, true, false, not, Option, some,
  arith, ltb, if◌then◌else◌, dec_lt, u32, update_at, mod_below, mod_wrap,
}
use pok_lab.Types.{ok}
use pok_lab.Kernel.{Kernel, Now}
use pok_lab.Lockobj.{Lockobj, Fifo}
use pok_lab.Lockobj.Event.{wake_all, after_wake, pok_lockobj_eventbroadcast}
use pok_lab.Ports.{
  Port, Direction, Bytes, queueing, write_ring, advanced_e, pok_port_consumed_size, pok_port_get,
  pok_port_write,
}
use pok_lab.Ports.RoundTrip.{write_fits}
use pok_lab.Ports.Table.{State, set_port}
use pok_lab.Ports.Table.Cells.{set_port_at, set_port_off, relock}
use pok_lab.Ports.Locks.{Context, with_lock_of, broadcast_port}
use pok_lab.Ports.Send.{is_outgoing, is_incoming, written}
use pok_lab.Ports.Flush.{Routes, deliver, deliver_from, flush_read, flush_port}

-- A queueing port without bytes, for whose events no thread waits.
pub record IsFresh (p : Port) : Type 0 where
  pub kind_of : p.kind ≡ queueing
  pub not_full : p.is_full ≡ false
  pub together : p.off_b ≡ p.off_e
  pub low : p.off_e < p.length
  pub small : p.length < 2147483648
  pub quiet : p.lock.event_fifo.is_empty ≡ true

-- As many bytes as were written are there to be read.
pub consumed_size-written :
    (p : Port) (n : ℕ)
    → IsFresh p
    → 0 < n
    → n ≤ p.length
    → pok_port_consumed_size (advanced_e p n) ≡ n
unfolding pok_port_consumed_size
consumed_size-written p n fresh some_bytes fits = elim (dec_lt (p.off_e + n) p.length) [
  | yes inside ↦ rw (stays inside, more inside) (omega (arith, fresh.together))
  | no wraps ↦ rw (turns wraps, less wraps) (omega (arith, fresh.together, fresh.low, fresh.small))
]
  where
    stays : p.off_e + n < p.length → u32 (p.off_e + n) % p.length ≡ p.off_e + n
    stays inside = grind (arith, fresh.small)

    turns : ¬ (p.off_e + n < p.length) → u32 (p.off_e + n) % p.length ≡ p.off_e + n - p.length
    turns wraps =
        ap (λ o. o % p.length)
          (mod_below (p.off_e + n) 4294967296 (omega (arith, fits, fresh.low, fresh.small)))
        ∙ mod_wrap (p.off_e + n) p.length (omega arith) (omega (arith, fits, fresh.low))

    more : p.off_e + n < p.length → ltb p.off_b (p.off_e + n) ≡ true
    more inside = ground (arith, fresh.together, some_bytes)

    less : ¬ (p.off_e + n < p.length) → ltb p.off_b (p.off_e + n - p.length) ≡ false
    less wraps = ground (arith, fresh.together, fits, fresh.low)

-- What a broadcast does to a lock for whose events no thread waits.
abbrev pub quiet_lock : Lockobj → Lockobj
quiet_lock obj = record obj { eventspin = false }

pub wake_all-none :
    (n : ℕ) (k : Kernel) (f : Fifo)
    → f.is_empty ≡ true
    → wake_all n n k f false ≡ some (k, f, false)
unfolding wake_all
wake_all-none zero k f none_waits = rw none_waits refl
wake_all-none (suc n) k f none_waits = rw none_waits refl

pub broadcast-quiet :
    (x : Context) (w : Now) (id : ℕ) (s : State)
    → (s.ports id).lock.event_fifo.is_empty ≡ true
    → broadcast_port x w id s ≡ some (with_lock_of s id s.kernel (quiet_lock (s.ports id).lock))
unfolding broadcast_port pok_lockobj_eventbroadcast after_wake
broadcast-quiet x w id s quiet =
    rw (wake_all-none x.conf.nb_threads s.kernel (s.ports id).lock.event_fifo quiet) refl

abbrev pub unmark : Port → Port
unmark p = record p { must_be_flushed = false }

module _ (x : Context) (r : Routes) (w : Now) where
  -- The read of a port whose message is due.
  pub flush_port-reads :
      (a len : ℕ) (s : State) (p q : Port) (buf : Bytes)
      → s.ports a ≡ p
      → is_outgoing p.direction ≡ true
      → p.is_empty ≡ false
      → p.must_be_flushed ≡ true
      → pok_port_consumed_size p ≡ len
      → pok_port_get s.bytes p s.buffer_flush len ≡ (q, buf, ok)
      → flush_port x r w a s
        ≡ flush_read x r w len a (record (set_port s a (λ _. q)) { buffer_flush = buf })
  unfolding flush_port
  flush_port-reads a len s p q buf at out filled due consumed got =
      rw (at, consumed, got, out, filled, due) refl

  -- The state behind the write to a fresh port and the broadcast on it.
  abbrev pub delivered : ℕ → ℕ → State → State
  delivered n b s =
      let s' = written w s b s.buffer_flush n in
      with_lock_of s' b s'.kernel (quiet_lock (s'.ports b).lock)

  pub written_at :
      (s : State) (b n : ℕ) (msg : Bytes)
      → IsFresh (s.ports b)
      → n ≤ (s.ports b).length
      → (written w s b msg n).ports b ≡ advanced_e (s.ports b) n
  written_at s b n msg fresh fits =
      update_at s.ports b _
      ∙ ap (λ r. r.1) (write_fits w s.bytes (s.ports b) msg n fresh.kind_of fresh.not_full fits)

  pub written_bytes :
      (s : State) (b n : ℕ) (msg : Bytes)
      → IsFresh (s.ports b)
      → n ≤ (s.ports b).length
      → (written w s b msg n).bytes
        ≡ write_ring (s.ports b).index (s.ports b).length (s.ports b).off_e s.bytes msg n
  written_bytes s b n msg fresh fits =
      ap (λ r. r.0) (write_fits w s.bytes (s.ports b) msg n fresh.kind_of fresh.not_full fits)

  pub deliver-fresh :
      (s : State) (b n : ℕ)
      → IsFresh (s.ports b)
      → (s.ports b).is_ready ≡ true
      → is_incoming (s.ports b).direction ≡ true
      → n ≤ (s.ports b).length
      → deliver x w n b s ≡ some (delivered n b s)
  unfolding deliver
  deliver-fresh s b n fresh ready in_b fits =
      ap (λ c. if not c then some s else if not (is_incoming dir) then some s else sent) ready
      ∙ ap (λ c. if not c then some s else sent) in_b
      ∙ broadcast-quiet x w b (written w s b s.buffer_flush n) (
          ap (λ (p : Port). p.lock.event_fifo.is_empty) (written_at s b n s.buffer_flush fresh fits)
          ∙ fresh.quiet)
    where
      dir : Direction
      dir = (s.ports b).direction

      sent : Option State
      sent = broadcast_port x w b (written w s b s.buffer_flush n)

  abbrev pub flushed : ℕ → State → State
  flushed a s =
      set_port (with_lock_of s a s.kernel (quiet_lock (s.ports a).lock)) a
        (λ p. record p { must_be_flushed = false })

  pub flush_read-one :
      (a b len : ℕ) (s s' : State)
      → r.nb_destinations a ≡ 1
      → r.to_local (r.destinations a 0) ≡ b
      → deliver x w len b s ≡ some s'
      → (s'.ports a).lock.event_fifo.is_empty ≡ true
      → flush_read x r w len a s ≡ some (flushed a s')
  unfolding flush_read deliver_from
  flush_read-one a b len s s' one route done quiet =
      rw (one, route, done, broadcast-quiet x w a s' quiet) refl

  -- What the broadcast and the mark at the end of a flush leave.
  pub flushed_off : (a b : ℕ) (s : State) → b ≢ a → (flushed a s).ports b ≡ s.ports b
  flushed_off a b s off =
      set_port_off (with_lock_of s a s.kernel (quiet_lock (s.ports a).lock)) a b unmark off
      ∙ set_port_off s a b (relock (quiet_lock (s.ports a).lock)) off

  pub flushed_at :
      (a : ℕ) (s : State)
      → (flushed a s).ports a ≡ unmark (relock (quiet_lock (s.ports a).lock) (s.ports a))
  flushed_at a s =
      set_port_at (with_lock_of s a s.kernel (quiet_lock (s.ports a).lock)) a unmark
      ∙ ap unmark (set_port_at s a (relock (quiet_lock (s.ports a).lock)))

  pub delivered_off : (n b a : ℕ) (s : State) → a ≢ b → (delivered n b s).ports a ≡ s.ports a
  delivered_off n b a s off =
      set_port_off (written w s b s.buffer_flush n) b a
        (relock (quiet_lock ((written w s b s.buffer_flush n).ports b).lock)) off
      ∙ set_port_off s b a (λ _. (pok_port_write w s.bytes (s.ports b) s.buffer_flush n).1) off

  pub delivered_at :
      (n b : ℕ) (s : State)
      → IsFresh (s.ports b)
      → n ≤ (s.ports b).length
      → (delivered n b s).ports b ≡ advanced_e (relock (quiet_lock (s.ports b).lock) (s.ports b)) n
  delivered_at n b s fresh fits =
      set_port_at (written w s b s.buffer_flush n) b
        (relock (quiet_lock ((written w s b s.buffer_flush n).ports b).lock))
      ∙ ap (λ (p : Port). relock (quiet_lock p.lock) p) (written_at s b n s.buffer_flush fresh fits)
