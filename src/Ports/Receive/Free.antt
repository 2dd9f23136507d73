-- ===== src/Ports/Receive/Free.antt =====
-- The steps of a reception of kernel/middleware/portqueueingreceive.c from a port whose lock no thread has.
use pok_lab.Common.{
  ℕ, ◌+◌, ◌%◌, ◌≤◌, ◌<◌, ◌≡◌, ◌≢◌, refl, sym, ap, ◌∙◌, inl, inr, true, false, some, ◌>>=◌, arith,
  ltb, ◌==◌, if◌then◌else◌, Bool-cases, u32,
}
use pok_lab.Types.{Errno, ok, einval, size}
use pok_lab.Kernel.{Now}
use pok_lab.Lockobj.{Lockobj}
use pok_lab.Lockobj.Event.{is_ok}
use pok_lab.Ports.{
  Port, Bytes, queueing, is_queueing, read_ring, advanced_b, get_from, pok_port_consumed_size,
  pok_port_get,
}
use pok_lab.Ports.Table.{State, set_port}
use pok_lab.Ports.Table.Cells.{set_port_at, set_port_off, relock}
use pok_lab.Ports.Locks.{Context, done, with_lock_of, unlock_port}
use pok_lab.Ports.Send.{owns, is_incoming}
use pok_lab.Ports.Send.Free.{
  IsFree, unlock-taken, taken, queueing_of, locked, locked_at, value_taken, given_back,
}
use pok_lab.Ports.Receive.{receive_guard, cleared, take_message}

-- The port is one of the current partition for receiving, and some bytes are asked for.
pub record MayReceive (x : Context) (s : State) (id maxlen : ℕ) : Type 0 where
  pub some_bytes : 0 < maxlen
  pub low : id ≤ x.deployment.nb_ports
  pub owned : owns x s id ≡ true
  pub ready : (s.ports id).is_ready ≡ true
  pub queue : is_queueing (s.ports id).kind ≡ true
  pub incoming : is_incoming (s.ports id).direction ≡ true

pub guard-MayReceive :
    (x : Context) (s : State) (id maxlen : ℕ)
    → is_ok (receive_guard x s id maxlen) ≡ true
    → MayReceive x s id maxlen
unfolding receive_guard
guard-MayReceive x s id maxlen e = record {
  some_bytes = ground (arith, e);
  low = ground (arith, e);
  owned = ground (arith, e);
  ready = ground (arith, e);
  queue = ground (arith, e);
  incoming = ground (arith, e);
}

pub MayReceive-guard :
    (x : Context) (s : State) (id maxlen : ℕ)
    → MayReceive x s id maxlen
    → is_ok (receive_guard x s id maxlen) ≡ true
unfolding receive_guard
MayReceive-guard x s id maxlen may =
    ground (arith, may.some_bytes, may.low, may.owned, may.ready, may.queue, may.incoming)

-- A read of bytes that are there.
get_fits :
    (mem : Bytes) (p : Port) (out : Bytes) (n : ℕ)
    → p.kind ≡ queueing
    → p.is_empty ≡ false
    → n ≤ p.length
    → pok_port_get mem p out n ≡ (advanced_b p n, read_ring p.index p.length p.off_b mem out n, ok)
unfolding pok_port_get get_from
get_fits mem p out n kind filled fits =
    ap (λ kd. get_from kd mem p out n) kind
    ∙ ap (λ b. if b then (p, out, einval) else if ltb p.length n then (p, out, size) else fetched)
        filled
    ∙ ap (λ b. if b then (p, out, size) else fetched) (test p.length n fits)
  where
    fetched : Port × Bytes × Errno
    fetched = (advanced_b p n, read_ring p.index p.length p.off_b mem out n, ok)

    test : (a b : ℕ) → b ≤ a → ltb a b ≡ false
    test a b le = ground (arith, le)

advanced_b-relock :
    (p : Port) (l : Lockobj) (n : ℕ) → advanced_b (relock l p) n ≡ relock l (advanced_b p n)
advanced_b-relock p l n = elim (Bool-cases (u32 (p.off_b + n) % p.length == p.off_e)) [
  | inl same ↦ rw same refl
  | inr other ↦ rw other refl
]

-- The first `n` bytes of the ring are read.
pub record IsTaken (s : State) (id n : ℕ) (s' : State) : Type 0 where
  pub port : s'.ports id ≡ advanced_b (s.ports id) n
  pub others : (j : ℕ) → j ≢ id → s'.ports j ≡ s.ports j
  pub bytes : s'.bytes ≡ s.bytes
  pub kernel : s'.kernel ≡ s.kernel

-- The bytes that are read: as many as are there, or as are asked for.
abbrev pub rlen : State → ℕ → ℕ → ℕ
rlen s id maxlen =
    if ltb (pok_port_consumed_size (s.ports id)) maxlen
    then pok_port_consumed_size (s.ports id)
    else maxlen

module _ (x : Context) (w : Now) (s : State) (id maxlen : ℕ) (out : Bytes)
    (free : IsFree (s.ports id).lock) where
  abbrev start : State
  start = locked x w s id out maxlen free

  abbrev blank : Bytes
  blank = cleared s id maxlen out

  pub start_at : start.ports id ≡ relock (taken (s.ports id).lock) (s.ports id)
  start_at = locked_at x w s id out maxlen free

  length_there :
      (if ltb (pok_port_consumed_size (start.ports id)) maxlen
        then pok_port_consumed_size (start.ports id)
        else maxlen)
      ≡ (rlen s id maxlen)
  unfolding pok_port_consumed_size
  length_there =
      ap (λ p. if ltb (pok_port_consumed_size p) maxlen then pok_port_consumed_size p else maxlen)
        start_at

  -- The port behind the read.
  abbrev drawn : State
  drawn = set_port start id (λ _. advanced_b (start.ports id) (rlen s id maxlen))

  drawn_at :
      drawn.ports id ≡ relock (taken (s.ports id).lock) (advanced_b (s.ports id) (rlen s id maxlen))
  drawn_at =
      set_port_at start id (λ _. advanced_b (start.ports id) (rlen s id maxlen))
      ∙ ap (λ p. advanced_b p (rlen s id maxlen)) start_at
      ∙ advanced_b-relock (s.ports id) (taken (s.ports id).lock) (rlen s id maxlen)

  abbrev pub ended : State
  ended = with_lock_of drawn id drawn.kernel (record ((drawn.ports id).lock) { current_value = 1 })

  gives_up : unlock_port x w drawn id ≡ some (ended, ok)
  gives_up =
      unlock-taken x w drawn id (ap (λ (p : Port). p.lock.initialized) drawn_at ∙ free.initialized)
        (ap (λ (p : Port). p.lock.current_value) drawn_at ∙ value_taken x w s id out maxlen free)
        (ap (λ (p : Port). p.lock.fifo.is_empty) drawn_at ∙ free.none_waits)

  lock_kept : (p : Port) (n : ℕ) → relock p.lock (advanced_b p n) ≡ advanced_b p n
  lock_kept p n = sym (advanced_b-relock p p.lock n)

  pub ended-IsTaken : IsTaken s id (rlen s id maxlen) ended
  ended-IsTaken = record {
    port =
        set_port_at drawn id (relock (record ((drawn.ports id).lock) { current_value = 1 }))
        ∙ ap (λ (p : Port). relock (record (p.lock) { current_value = 1 }) p) drawn_at
        ∙ ap (λ l. relock l (advanced_b (s.ports id) (rlen s id maxlen)))
            (given_back x w s id out maxlen free)
        ∙ lock_kept (s.ports id) (rlen s id maxlen);
    others = λ j off.
        set_port_off drawn id j (relock (record ((drawn.ports id).lock) { current_value = 1 })) off
        ∙ set_port_off start id j (λ _. advanced_b (start.ports id) (rlen s id maxlen)) off
        ∙ set_port_off s id j (relock (taken (s.ports id).lock)) off;
    bytes = refl;
    kernel = refl;
  }

  abbrev read_bytes : Bytes
  read_bytes =
      read_ring (s.ports id).index (s.ports id).length (s.ports id).off_b s.bytes blank
        (rlen s id maxlen)

  -- What the loop does with bytes in the port.
  module _ (may : MayReceive x s id maxlen) (filled : (s.ports id).is_empty ≡ false)
      (inside : pok_port_consumed_size (s.ports id) ≤ (s.ports id).length) where
    rlen_fits : (rlen s id maxlen) ≤ (s.ports id).length
    rlen_fits = elim (Bool-cases (ltb (pok_port_consumed_size (s.ports id)) maxlen)) [
      | inl less ↦ rw less inside
      | inr more ↦ rw more (omega (arith, at_most more, inside))
    ]
      where
        at_most :
            ltb (pok_port_consumed_size (s.ports id)) maxlen ≡ false
            → maxlen ≤ pok_port_consumed_size (s.ports id)
        at_most more = ground (arith, more)

    gets :
        pok_port_get s.bytes (start.ports id) blank (rlen s id maxlen)
        ≡ (advanced_b (start.ports id) (rlen s id maxlen), read_bytes, ok)
    gets =
        get_fits s.bytes (start.ports id) blank (rlen s id maxlen)
          (ap (λ (p : Port). p.kind) start_at ∙ queueing_of (s.ports id).kind may.queue)
          (ap (λ (p : Port). p.is_empty) start_at ∙ filled)
          (omega (arith, ap (λ (p : Port). p.length) start_at, rlen_fits))
        ∙ ap
            (λ (p : Port). (
              advanced_b (start.ports id) (rlen s id maxlen),
              read_ring p.index p.length p.off_b s.bytes blank (rlen s id maxlen),
              ok,
            ))
            start_at

    pub takes :
        take_message x w start id maxlen blank
        ≡ some (ended, read_bytes, (rlen s id maxlen), done ok)
    unfolding take_message
    takes =
        ap
          (λ n.
            let r = pok_port_get s.bytes (start.ports id) blank n in
            unlock_port x w (set_port start id (λ _. r.0)) id >>= λ u.
            some (u.0, r.1, if is_ok r.2 then n else 0, done ok))
          length_there
        ∙ ap
            (λ r. unlock_port x w (set_port start id (λ _. r.0)) id >>= λ u.
              some (u.0, r.1, if is_ok r.2 then (rlen s id maxlen) else 0, done ok))
            gets
        ∙ ap (λ o. o >>= λ u. some (u.0, read_bytes, (rlen s id maxlen), done ok)) gives_up
