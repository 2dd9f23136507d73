-- ===== src/Ports/Receive/Outcome.antt =====
-- What a reception of kernel/middleware/portqueueingreceive.c does when no thread has the lock of its
-- port.
use pok_lab.Common.{ℕ, Option, ◌>>=◌, ◌==◌, if◌then◌else◌}
use pok_lab.Types.{empty}
use pok_lab.Kernel.{Now}
use pok_lab.Lockobj.Lock.{deadline_of}
use pok_lab.Ports.{Bytes}
use pok_lab.Ports.Table.{State}
use pok_lab.Ports.Locks.{Context, wait_port}
use pok_lab.Ports.Send.{leave, after_wait}
use pok_lab.Ports.Send.Free.{IsFree, locked}
use pok_lab.Ports.Receive.{Received, cleared, with_nothing}

module _ (x : Context) (w : Now) (s : State) (id timeout maxlen : ℕ) (out : Bytes)
    (free : IsFree (s.ports id).lock) where
  abbrev until : ℕ
  until = deadline_of w.tick timeout

  abbrev start : State
  start = locked x w s id out maxlen free

  abbrev blank : Bytes
  blank = cleared s id maxlen out

  abbrev fail : Option Received
  fail =
      if until == 0
      then with_nothing blank (leave x w start id empty)
      else with_nothing blank (wait_port x w start id until >>= λ r. after_wait x w id r)
