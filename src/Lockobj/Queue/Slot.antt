-- ===== src/Lockobj/Queue/Slot.antt =====
-- The ring of a queue of kernel/core/lockobj.c seen as a sequence: how many threads wait, and which
-- one stands at a position counted from the head.
use pok_lab.Common.{
  ℕ, ◌+◌, ◌-◌, ◌%◌, ◌≤◌, ◌<◌, ◌≡◌, ◌≢◌, ◌∙◌, dec_lt, true, false, arith, ltb, ◌==◌, if◌then◌else◌,
  mod_below, mod_wrap,
}
use pok_lab.Lockobj.{Fifo}
use pok_lab.Lockobj.Queue.{before}

-- The place of position `i`.
unfoldable pub slot : ℕ → ℕ → ℕ → ℕ
slot n head i = if ltb (head + i) n then head + i else head + i - n

-- The number of waiting threads.
unfoldable pub count : ℕ → Fifo → ℕ
count n f =
    if f.is_empty then 0 else if ltb f.head f.last then f.last - f.head else n + f.last - f.head

-- The thread at position `i`.
abbrev pub item : ℕ → Fifo → ℕ → ℕ
item n f i = f.buffer (slot n f.head i)

pub record IsFifo (n : ℕ) (f : Fifo) : Type 0 where
  pub head_low : f.head < n
  pub last_low : f.last < n
  pub meet : f.is_empty ≡ true → f.head ≡ f.last

pub slot-low : (n h i : ℕ) → h < n → i ≤ n → slot n h i < n
unfolding slot
slot-low n h i low le = ground arith

step : (n h i : ℕ) → h < n → i < n → slot n h i + 1 < n → slot n h i + 1 ≡ slot n h (i + 1)
unfolding slot
step n h i low le inside = ground arith

turn :
    (n h i : ℕ) → h < n → i < n → (slot n h i + 1 < n → ⊥) → slot n h i + 1 - n ≡ slot n h (i + 1)
unfolding slot
turn n h i low le out = ground arith

pub slot-next : (n h i : ℕ) → h < n → i < n → (slot n h i + 1) % n ≡ slot n h (i + 1)
slot-next n h i low le = elim (dec_lt (slot n h i + 1) n) [
  | yes inside ↦ mod_below (slot n h i + 1) n inside ∙ stays inside
  | no out ↦
      mod_wrap (slot n h i + 1) n (omega arith) (omega (arith, slot-low n h i low (omega arith)))
      ∙ wraps out
]
  where
    stays : slot n h i + 1 < n → slot n h i + 1 ≡ slot n h (i + 1)
    stays inside = step n h i low le inside

    wraps : (slot n h i + 1 < n → ⊥) → slot n h i + 1 - n ≡ slot n h (i + 1)
    wraps out = turn n h i low le out

pub slot-apart : (n h i j : ℕ) → h < n → i < n → j < n → i ≢ j → slot n h i ≢ slot n h j
unfolding slot
slot-apart n h i j low li lj other = ground arith

pub before-slot : (n h i : ℕ) → h < n → i < n → before n (slot n h (i + 1)) ≡ slot n h i
unfolding slot
before-slot n h i low le = ground arith

pub count-bound : (n : ℕ) (f : Fifo) → IsFifo n f → count n f ≤ n
unfolding count
count-bound n f v = ground (arith, v)

-- The end of the queue is behind its last thread.
pub last-slot : (n : ℕ) (f : Fifo) → IsFifo n f → f.last ≡ slot n f.head (count n f)
unfolding count slot
last-slot n f v = ground (arith, v)

-- The state of the ring gives the number of threads that wait.
pub count-of :
    (n : ℕ) (f : Fifo) (c : ℕ)
    → IsFifo n f
    → c ≤ n
    → f.last ≡ slot n f.head c
    → (f.is_empty ≡ true → c ≡ 0)
    → (f.is_empty ≡ false → 0 < c)
    → count n f ≡ c
unfolding count slot
count-of n f c v le end none some = ground (arith, v, end, none, some)

pub slot-zero : (n h : ℕ) → h < n → slot n h 0 ≡ h
unfolding slot
slot-zero n h low = ground arith

pub slot-shift : (n h i : ℕ) → h < n → i < n → slot n (slot n h 1) i ≡ slot n h (i + 1)
unfolding slot
slot-shift n h i low le = ground arith

pub slot-home : (n h i : ℕ) → h < n → i < n → slot n h i ≡ h → i ≡ 0
unfolding slot
slot-home n h i low le home = ground (arith, home)

pub slot-away : (n h i last : ℕ) → h < n → last ≡ slot n h i → last == h ≡ false → 0 < i
unfolding slot
slot-away n h i last low end away = ground (arith, end, away)

pub slot-apart_up :
    (n h i j : ℕ) → h < n → 0 < i → i ≤ n → 0 < j → j ≤ n → i ≢ j → slot n h i ≢ slot n h j
unfolding slot
slot-apart_up n h i j low pi li pj lj other = ground arith
