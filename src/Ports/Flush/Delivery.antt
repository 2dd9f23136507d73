-- ===== src/Ports/Flush/Delivery.antt =====
-- A message on its way from the writer of a port over kernel/middleware/portflushall.c to the reader of
-- another one.
use pok_lab.Common.{
  ℕ, ◌+◌, ◌%◌, ◌≤◌, ◌<◌, ◌≡◌, ◌≢◌, refl, sym, subst, ap, ◌∙◌, inl, inr, true, false, some, arith,
  ◌==◌, Bool-cases, u32,
}
use pok_lab.Types.{ok}
use pok_lab.Kernel.{Now}
use pok_lab.Lockobj.{Lockobj}
use pok_lab.Ports.{
  Port, Bytes, write_ring, read_ring, advanced_e, advanced_b, pok_port_get, pok_port_write,
}
use pok_lab.Ports.RoundTrip.{get_written, read-write}
use pok_lab.Ports.Table.{State, set_port}
use pok_lab.Ports.Table.Cells.{set_port_at, set_port_off, relock}
use pok_lab.Ports.Locks.{Context}
use pok_lab.Ports.Send.{is_outgoing, is_incoming, written, to_flush}
use pok_lab.Ports.Flush.{Routes, flush_read, flush_port}
use pok_lab.Ports.Flush.Steps.{
  IsFresh, consumed_size-written, quiet_lock, flush_port-reads, delivered, written_at,
  written_bytes, deliver-fresh, flushed, flush_read-one, flushed_off, flushed_at, delivered_off,
  delivered_at,
}

advanced_b-lock : (p : Port) (n : ℕ) → (advanced_b p n).lock ≡ p.lock
advanced_b-lock p n = elim (Bool-cases (u32 (p.off_b + n) % p.length == p.off_e)) [
  | inl same ↦ rw same refl
  | inr other ↦ rw other refl
]

drained : (p : Port) (n : ℕ) → IsFresh p → (advanced_b (advanced_e p n) n).is_empty ≡ true
drained p n fresh = rw (same (ap (λ o. u32 (o + n) % p.length) fresh.together)) refl
  where
    same :
        u32 (p.off_b + n) % p.length ≡ u32 (p.off_e + n) % p.length
        → (u32 (p.off_b + n) % p.length == u32 (p.off_e + n) % p.length) ≡ true
    same e = ground (arith, e)

content :
    (p : Port) (mem from out : Bytes) (n i : ℕ)
    → IsFresh p
    → n ≤ p.length
    → i < n
    → read_ring p.index p.length p.off_b (write_ring p.index p.length p.off_e mem from n) out n i
      ≡ from i
content p mem from out n i fresh fits inside =
    ap (λ o. read_ring p.index p.length o (write_ring p.index p.length p.off_e mem from n) out n i)
      fresh.together
    ∙ read-write p.index p.length p.off_e mem from out n i fresh.low fits fresh.small inside

-- The write to a port of the queue, the flush of it, and the read of its one destination.
module _ (x : Context) (r : Routes) (w : Now) (s : State) (a b n : ℕ) (msg : Bytes)
    (from_a : IsFresh (s.ports a)) (to_b : IsFresh (s.ports b)) (differ : b ≢ a)
    (out_a : is_outgoing (s.ports a).direction ≡ true) (ready_b : (s.ports b).is_ready ≡ true)
    (in_b : is_incoming (s.ports b).direction ≡ true) (one : r.nb_destinations a ≡ 1)
    (route : r.to_local (r.destinations a 0) ≡ b) (some_bytes : 0 < n)
    (fits_a : n ≤ (s.ports a).length) (fits_b : n ≤ (s.ports b).length) where
  abbrev sent : State
  sent = to_flush (written w s a msg n) a

  abbrev due : Port
  due = record (s.ports a) { must_be_flushed = true }

  due-IsFresh : IsFresh due
  due-IsFresh = record {
    kind_of = from_a.kind_of;
    not_full = from_a.not_full;
    together = from_a.together;
    low = from_a.low;
    small = from_a.small;
    quiet = from_a.quiet;
  }

  sent_at : sent.ports a ≡ advanced_e due n
  sent_at =
      set_port_at (written w s a msg n) a (λ p. record p { must_be_flushed = true })
      ∙ ap (λ (p : Port). record p { must_be_flushed = true })
          (written_at x r w s a n msg from_a fits_a)

  sent_off : sent.ports b ≡ s.ports b
  sent_off =
      set_port_off (written w s a msg n) a b (λ p. record p { must_be_flushed = true }) differ
      ∙ set_port_off s a b (λ _. (pok_port_write w s.bytes (s.ports a) msg n).1) differ

  abbrev taken : Bytes
  taken =
      read_ring (s.ports a).index (s.ports a).length (s.ports a).off_b sent.bytes s.buffer_flush n

  abbrev was_read : State
  was_read = record (set_port sent a (λ _. advanced_b (advanced_e due n) n)) {
    buffer_flush = taken;
  }

  flush-reads : flush_port x r w a sent ≡ flush_read x r w n a was_read
  flush-reads =
      flush_port-reads x r w a n sent (advanced_e due n) (advanced_b (advanced_e due n) n) taken
        sent_at out_a refl refl (consumed_size-written due n due-IsFresh some_bytes fits_a)
        (get_written sent.bytes due s.buffer_flush n from_a.kind_of fits_a)

  taken-msg : (i : ℕ) → i < n → taken i ≡ msg i
  taken-msg i inside =
      ap
        (λ m. read_ring (s.ports a).index (s.ports a).length (s.ports a).off_b m s.buffer_flush n i)
        (written_bytes x r w s a n msg from_a fits_a)
      ∙ content (s.ports a) s.bytes msg s.buffer_flush n i from_a fits_a inside

  read_off : was_read.ports b ≡ s.ports b
  read_off = set_port_off sent a b (λ _. advanced_b (advanced_e due n) n) differ ∙ sent_off

  abbrev end_state : State
  end_state = flushed x r w a (delivered x r w n b was_read)

  there-IsFresh : IsFresh (was_read.ports b)
  there-IsFresh = subst IsFresh (sym read_off) to_b

  fits_there : n ≤ (was_read.ports b).length
  fits_there = omega (arith, ap (λ (p : Port). p.length) read_off, fits_b)

  source_after : (delivered x r w n b was_read).ports a ≡ advanced_b (advanced_e due n) n
  source_after =
      delivered_off x r w n b a was_read (λ e. differ (sym e))
      ∙ set_port_at sent a (λ _. advanced_b (advanced_e due n) n)

  flush-ends : flush_port x r w a sent ≡ some end_state
  flush-ends =
      flush-reads
      ∙ flush_read-one x r w a b n was_read (delivered x r w n b was_read) one route
          (deliver-fresh x r w was_read b n there-IsFresh
            (ap (λ (p : Port). p.is_ready) read_off ∙ ready_b)
            (ap (λ (p : Port). is_incoming p.direction) read_off ∙ in_b) fits_there)
          (ap (λ (p : Port). p.lock.event_fifo.is_empty) source_after
            ∙ ap (λ (l : Lockobj). l.event_fifo.is_empty) (advanced_b-lock (advanced_e due n) n)
            ∙ from_a.quiet)

  end_off : end_state.ports b ≡ advanced_e (relock (quiet_lock (s.ports b).lock) (s.ports b)) n
  end_off =
      flushed_off x r w a b (delivered x r w n b was_read) differ
      ∙ delivered_at x r w n b was_read there-IsFresh fits_there
      ∙ ap (λ (p : Port). advanced_e (relock (quiet_lock p.lock) p) n) read_off

  end_bytes :
      end_state.bytes
      ≡ write_ring (s.ports b).index (s.ports b).length (s.ports b).off_e was_read.bytes taken n
  end_bytes =
      written_bytes x r w was_read b n taken there-IsFresh fits_there
      ∙ ap (λ (p : Port). write_ring p.index p.length p.off_e was_read.bytes taken n) read_off

  got_there :
      (out : Bytes) (i : ℕ)
      → i < n
      → read_ring (s.ports b).index (s.ports b).length (s.ports b).off_b end_state.bytes out n i
        ≡ msg i
  got_there out i inside =
      ap (λ m. read_ring (s.ports b).index (s.ports b).length (s.ports b).off_b m out n i) end_bytes
      ∙ content (s.ports b) was_read.bytes taken out n i to_b fits_b inside
      ∙ taken-msg i inside

  end_others : (j : ℕ) → j ≢ a → j ≢ b → end_state.ports j ≡ s.ports j
  end_others j not_a not_b =
      flushed_off x r w a j (delivered x r w n b was_read) not_a
      ∙ delivered_off x r w n b j was_read not_b
      ∙ set_port_off sent a j (λ _. advanced_b (advanced_e due n) n) not_a
      ∙ set_port_off (written w s a msg n) a j (λ p. record p { must_be_flushed = true }) not_a
      ∙ set_port_off s a j (λ _. (pok_port_write w s.bytes (s.ports a) msg n).1) not_a

  -- A message that is written to an empty queueing port goes over the flush to its one destination,
  -- another empty queueing port with room for it: the flush returns, a read of the destination
  -- gives the bytes of the message, the source is empty again and is not flushed another time, and
  -- neither the threads nor a third port change. No thread waits for one of the ports.
  pub flush_port-written :
      (out : Bytes)
      → (s' : State) × (flush_port x r w a (to_flush (written w s a msg n) a) ≡ some s')
        × ((p : Port) × (out' : Bytes) × (pok_port_get s'.bytes (s'.ports b) out n ≡ (p, out', ok))
            × ((i : ℕ) → i < n → out' i ≡ msg i))
        × ((s'.ports a).is_empty ≡ true)
        × ((s'.ports a).must_be_flushed ≡ false)
        × (s'.kernel ≡ s.kernel)
        × ((j : ℕ) → j ≢ a → j ≢ b → s'.ports j ≡ s.ports j)
  flush_port-written out = (
    end_state,
    flush-ends,
    (
      advanced_b (advanced_e (relock (quiet_lock (s.ports b).lock) (s.ports b)) n) n,
      read_ring (s.ports b).index (s.ports b).length (s.ports b).off_b end_state.bytes out n,
      ap (λ p. pok_port_get end_state.bytes p out n) end_off
          ∙ get_written end_state.bytes (relock (quiet_lock (s.ports b).lock) (s.ports b)) out n
              to_b.kind_of fits_b,
      got_there out,
    ),
    ap (λ (p : Port). p.is_empty) (flushed_at x r w a (delivered x r w n b was_read))
        ∙ ap (λ (p : Port). p.is_empty) source_after
        ∙ drained due n due-IsFresh,
    ap (λ (p : Port). p.must_be_flushed) (flushed_at x r w a (delivered x r w n b was_read)),
    refl,
    end_others,
  )
