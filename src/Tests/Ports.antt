-- ===== src/Tests/Ports.antt =====
-- Runs of the theorems on ports.
use pok_lab.Common.{
  ℕ, ◌+◌, ◌<◌, ◌≡◌, ◌≢◌, refl, ◌⊎◌, true, false, some, [], ◌∷◌, arith, ◌==◌, if◌then◌else◌,
}
use pok_lab.Types.{ok}
use pok_lab.Lockobj.{Discipline, standard, event, priority, Fifo, Lockobj}
use pok_lab.Ports.{Port, Direction, Bytes, queueing, pok_port_get, pok_port_write}
use pok_lab.Ports.RoundTrip.{pok_port_get-pok_port_write}
use pok_lab.Ports.Overrun.{pok_port_write-overrun}
use pok_lab.Ports.Table.{Deployment, State, pok_port_create}
use pok_lab.Ports.Table.Layout.{IsLaid, Refuses, Creates, pok_port_create_lem}
use pok_lab.Ports.Locks.{Context}
use pok_lab.Ports.Send.{written, to_flush}
use pok_lab.Ports.Flush.{Routes, flush_port}
use pok_lab.Ports.Flush.Steps.{IsFresh}
use pok_lab.Ports.Flush.Delivery.{flush_port-written}
use pok_lab.Tests.Data.{at_120, kernel, conf}

abbrev no_fifo : Fifo
no_fifo = record { head = 0; last = 0; is_empty = true; buffer = λ i. 0 }

abbrev event_lock : Lockobj
event_lock = record {
  eventspin = false;
  fifo = no_fifo;
  event_fifo = no_fifo;
  locking_policy = standard;
  queueing_policy = priority;
  kind = event;
  initialized = true;
  current_value = 1;
  max_value = 0;
}

-- A ring of eight bytes at 16, whose offsets stand at 6.
abbrev ring : Port
ring = record {
  partition = 0;
  index = 16;
  is_full = false;
  length = 8;
  off_b = 6;
  off_e = 6;
  direction = Direction.outgoing;
  discipline = Discipline.fifo;
  is_ready = true;
  is_empty = true;
  kind = queueing;
  refresh = 0;
  last_receive = 0;
  lock = event_lock;
  must_be_flushed = false;
}

-- A ring with six bytes, so with room for two.
abbrev six : Port
six = record ring { off_b = 1; off_e = 7; is_empty = false }

abbrev zeros : Bytes
zeros _ = 0

abbrev message : Bytes
message i = i + 100

-- Five bytes pass the end of the ring.
write_example :
    (mem' : Bytes) × (p' : Port) × (pok_port_write at_120 zeros ring message 5 ≡ (mem', p', ok))
    × (p'' : Port) × (out' : Bytes) × (pok_port_get mem' p' zeros 5 ≡ (p'', out', ok))
    × ((i : ℕ) → i < 5 → out' i ≡ message i)
    × (p''.is_empty ≡ true)
    × (p''.is_full ≡ false)
write_example =
    pok_port_get-pok_port_write at_120 zeros ring message zeros 5 refl refl refl (omega arith)
      (omega arith) (omega arith)

-- Three bytes on a ring with room for two: the third one takes the place of the first of the ring.
overrun_example :
    (mem' : Bytes) × (p' : Port) × (pok_port_write at_120 zeros six message 3 ≡ (mem', p', ok))
    × (p'.off_b ≡ 1)
    × (mem' 17 ≡ 102)
overrun_example =
    pok_port_write-overrun at_120 zeros six message 3 refl refl (omega arith) (omega arith)
      (omega arith) (omega arith) (omega arith)

abbrev deployment : Deployment
deployment = record { nb_ports = 2; owners = λ i. 0; names = λ i. i ∷ []; kinds = λ i. queueing }

-- No port is open.
abbrev closed : State
closed = record {
  kernel = kernel;
  ports = λ i. record ring { is_ready = false };
  bytes = zeros;
  queue_size = 1024;
  available_size = 1024;
  buffer_flush = zeros;
}

closed-IsLaid : IsLaid closed
closed-IsLaid = record {
  small = omega arith;
  fits = omega arith;
  within = λ i ready. cc;
  apart = λ i j differ ready_i ready_j. cc;
}

open_example :
    Refuses closed (pok_port_create deployment closed (1 ∷ []) 64 Direction.outgoing queueing 9)
    ⊎ Creates deployment closed
        (1 ∷ [])
        64
        Direction.outgoing
        queueing
        (pok_port_create deployment closed (1 ∷ []) 64 Direction.outgoing queueing 9)
open_example =
    pok_port_create_lem deployment closed (1 ∷ []) 64 Direction.outgoing queueing 9 closed-IsLaid

-- Port 0 is connected to port 1.
abbrev connected : State
connected = record closed {
  ports = λ i. if i == 1 then record ring { direction = Direction.incoming; index = 24 } else ring;
}

abbrev routes : Routes
routes = record {
  nb_by_partition = λ p. 1;
  by_partition = λ p i. 0;
  nb_destinations = λ i. 1;
  destinations = λ i j. 1;
  to_local = λ i. i;
}

abbrev context : Context
context = record { fuel = 9; conf = conf; multiprocessing_system = 0; deployment = deployment }

source-IsFresh : IsFresh (connected.ports 0)
source-IsFresh = record {
  kind_of = refl;
  not_full = refl;
  together = refl;
  low = omega arith;
  small = omega arith;
  quiet = refl;
}

destination-IsFresh : IsFresh (connected.ports 1)
destination-IsFresh = record {
  kind_of = refl;
  not_full = refl;
  together = refl;
  low = omega arith;
  small = omega arith;
  quiet = refl;
}

delivery_example :
    (s' : State) × (flush_port context routes at_120 0
        (to_flush (written at_120 connected 0 message 5) 0)
      ≡ some s')
    × ((p : Port) × (out' : Bytes) × (pok_port_get s'.bytes (s'.ports 1) zeros 5 ≡ (p, out', ok))
        × ((i : ℕ) → i < 5 → out' i ≡ message i))
    × ((s'.ports 0).is_empty ≡ true)
    × ((s'.ports 0).must_be_flushed ≡ false)
    × (s'.kernel ≡ connected.kernel)
    × ((j : ℕ) → j ≢ 0 → j ≢ 1 → s'.ports j ≡ connected.ports j)
delivery_example =
    flush_port-written context routes at_120 connected 0 1 5 message source-IsFresh
      destination-IsFresh (omega arith) refl refl refl refl refl (omega arith) (omega arith)
      (omega arith) zeros

-- Port 0 is to be read, and has six bytes.
abbrev filled : State
filled = record connected { ports = λ i. record six { direction = Direction.incoming } }
