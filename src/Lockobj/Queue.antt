-- ===== src/Lockobj/Queue.antt =====
-- The queue of waiting threads of kernel/core/lockobj.c, a ring of `n` places, `n` being
-- POK_CONFIG_NB_THREADS. A walk round the ring takes `n` turns at most.
pub mod Slot
pub mod Ends
pub mod Insert
pub mod Remove
use pok_lab.Common.{
  ℕ, zero, suc, ◌+◌, ◌-◌, ◌%◌, Bool, true, false, not, ◌&&◌, leb, ◌==◌, if◌then◌else◌, update,
}
use pok_lab.Types.{Thread, Threads, Errno, ok, param, notfound, empty, full}
use pok_lab.Lockobj.{Fifo, Discipline, fifo, priority}

unfoldable pub pok_lockobj_fifo_init : Fifo → Fifo
pok_lockobj_fifo_init f = record f { head = 0; last = 0; is_empty = true }

unfoldable pub pok_lockobj_get_head : Fifo → ℕ
pok_lockobj_get_head f = f.buffer f.head

-- `j ? (j - 1) : (POK_CONFIG_NB_THREADS - 1)`
abbrev pub before : ℕ → ℕ → ℕ
before n j = if j == 0 then n - 1 else j - 1

-- The walk from the head to the first thread of a smaller priority, or to the end.
unfoldable pub place_of : ℕ → ℕ → Threads → ℕ → Fifo → ℕ → ℕ
place_of n zero ts thread f i = i
place_of n (suc fuel) ts thread f i =
    let rest = place_of n fuel ts thread f ((i + 1) % n) in
    if not (i == f.last) && leb (ts thread).priority (ts (f.buffer i)).priority then rest else i

-- `for (j = fifo->last; j != i; j = before(j)) buffer[j] = buffer[before(j)]`
unfoldable pub make_room : ℕ → ℕ → ℕ → ℕ → (ℕ → ℕ) → (ℕ → ℕ)
make_room n zero i j buffer = buffer
make_room n (suc fuel) i j buffer =
    let rest = make_room n fuel i (before n j) (update buffer j (buffer (before n j))) in
    if j == i then buffer else rest

-- The branch of POK_QUEUEING_DISCIPLINE_FIFO
unfoldable pub enqueue_last : ℕ → ℕ → Fifo → Fifo × Errno
enqueue_last n thread f = if not f.is_empty && (f.last == f.head) then (f, full) else (
  record f { buffer = update f.buffer f.last thread; last = (f.last + 1) % n; is_empty = false },
  ok,
)

-- The branch of POK_QUEUEING_DISCIPLINE_PRIORITY
unfoldable pub enqueue_sorted : ℕ → Threads → ℕ → Fifo → Fifo × Errno
enqueue_sorted n ts thread f =
    let i = place_of n n ts thread f f.head in
    (
      record f {
        buffer = update (make_room n n i f.last f.buffer) i thread;
        is_empty = false;
        last = (f.last + 1) % n;
      },
      ok,
    )

unfoldable pub pok_lockobj_enqueue : ℕ → Threads → ℕ → Discipline → Fifo → Fifo × Errno
pok_lockobj_enqueue n ts thread fifo f = enqueue_last n thread f
pok_lockobj_enqueue n ts thread priority f = enqueue_sorted n ts thread f
pok_lockobj_enqueue n ts thread _ f = (f, param)

unfoldable pub pok_lockobj_dequeue : ℕ → Fifo → Fifo × Errno
pok_lockobj_dequeue n f =
    let head = (f.head + 1) % n in
    if f.is_empty then (f, empty) else (record f { head = head; is_empty = f.last == head }, ok)

unfoldable pub pok_lockobj_fifo_is_empty : Fifo → Bool
pok_lockobj_fifo_is_empty f = f.is_empty

-- The `do` loop that looks for the thread: its place, or `n`.
unfoldable pub find : ℕ → ℕ → ℕ → Fifo → ℕ → ℕ
find n zero thread f i = n
find n (suc fuel) thread f i =
    let rest = find n fuel thread f ((i + 1) % n) in
    if f.buffer i == thread then i else if (i + 1) % n == f.last then n else rest

-- `while (tmp != fifo->last)`, with the new `last`.
unfoldable pub close_up : ℕ → ℕ → ℕ → ℕ → (ℕ → ℕ) → (ℕ → ℕ)
close_up n zero last tmp buffer = buffer
close_up n (suc fuel) last tmp buffer =
    let rest = close_up n fuel last ((tmp + 1) % n) (update buffer tmp (buffer ((tmp + 1) % n))) in
    if tmp == last then buffer else rest

-- The thread at place `tmp` taken out.
unfoldable pub take_out : ℕ → ℕ → Fifo → Fifo
take_out n tmp f =
    let last = before n f.last in
    record f { last = last; buffer = close_up n n last tmp f.buffer; is_empty = last == f.head }

unfoldable pub pok_lockobj_remove_thread : ℕ → ℕ → Fifo → Fifo × Errno
pok_lockobj_remove_thread n thread f =
    let tmp = find n n thread f f.head in
    if f.is_empty then (f, notfound) else if tmp == n then (f, notfound) else (take_out n tmp f, ok)
