-- ===== src/Ports/Table/Cells.antt =====
-- One port of the table of kernel/middleware, and the others, after an assignment to it.
use pok_lab.Common.{ℕ, ◌≡◌, ◌≢◌, update_at, update_off}
use pok_lab.Lockobj.{Lockobj}
use pok_lab.Ports.{Port}
use pok_lab.Ports.Table.{State, set_port}

pub set_port_at :
    (s : State) (id : ℕ) (f : Port → Port) → (set_port s id f).ports id ≡ f (s.ports id)
set_port_at s id f = update_at s.ports id (f (s.ports id))

pub set_port_off :
    (s : State) (id j : ℕ) (f : Port → Port) → j ≢ id → (set_port s id f).ports j ≡ s.ports j
set_port_off s id j f off = update_off s.ports id j (f (s.ports id)) off

abbrev pub relock : Lockobj → Port → Port
relock obj p = record p { lock = obj }
