-- ===== src/Allocator/Split.antt =====
-- The space that serves a request in libpok/core/allocator.c, as a whole or cut in two.
use pok_lab.Common.{
  ℕ, suc, ◌+◌, ◌-◌, ◌≤◌, ◌<◌, ◌≡◌, ◌≢◌, inl, inr, sym, subst, ap, ◌∙◌, true, false, arith, update,
  update_at, u32, mod_below,
}
use pok_lab.Allocator.{Space, Allocator, Limits}
use pok_lab.Allocator.Tiled.{
  total, total-update, total-update_off, Apart, IsTiled, IsSmall, Changed, changes,
}

-- Two pieces of a space are apart from all that the space was apart from.
Apart-piece :
    (s t x : Space)
    → Apart s t
    → s.start ≤ x.start
    → x.start + x.size ≤ s.start + s.size
    → Apart x t
Apart-piece s t x h low high = ground arith

Apart-sym : (s t : Space) → Apart s t → Apart t s
Apart-sym s t h = ground arith

Apart-by : (s s' t t' : Space) → s ≡ s' → t ≡ t' → Apart s' t' → Apart s t
Apart-by s s' t t' e f h = subst (λ x. Apart x t) (sym e) (subst (Apart s') (sym f) h)

module _ (c : Limits) (a : Allocator) (i : ℕ) (n : ℕ) (small : IsSmall c) (v : IsTiled c a)
    (used : i < a.used_spaces) (enough : n ≤ (a.spaces i).size) where
  abbrev pub left : Space
  left = record (a.spaces i) { allocated = true; size = n }

  abbrev pub right : Space
  right = record {
    start = u32 ((a.spaces i).start + n);
    size = (a.spaces i).size - n;
    allocated = false;
  }

  abbrev pub table : ℕ → Space
  table = update (update a.spaces i left) a.used_spaces right

  pub right_start : u32 ((a.spaces i).start + n) ≡ (a.spaces i).start + n
  right_start =
      mod_below ((a.spaces i).start + n) 4294967296 (omega (arith, v.within i used, small.memory))

  -- A cut piece and another space.
  left-Apart : (k : ℕ) → k < a.used_spaces → k ≢ i → Apart left (a.spaces k)
  left-Apart k l other =
      Apart-piece (a.spaces i) (a.spaces k) left (v.apart i k used l (λ e. other (sym e)))
        (omega arith) (omega arith)

  right-Apart : (k : ℕ) → k < a.used_spaces → k ≢ i → Apart right (a.spaces k)
  right-Apart k l other =
      Apart-piece (a.spaces i) (a.spaces k) right (v.apart i k used l (λ e. other (sym e)))
        (omega (arith, right_start)) (omega (arith, right_start))

  pieces-Apart : Apart left right
  pieces-Apart = inl (omega (arith, right_start))

  table-Apart :
      (j k : ℕ)
      → j < suc a.used_spaces
      → k < suc a.used_spaces
      → j ≢ k
      → Changed a.spaces i left a.used_spaces right j
      → Changed a.spaces i left a.used_spaces right k
      → Apart (table j) (table k)
  table-Apart j k l m other (inl (e, f)) (inl (g, h)) = absurd (other (e ∙ sym g))
  table-Apart j k l m other (inl (e, f)) (inr (inl (g, h, p))) =
      Apart-by (table j) right (table k) left f p (Apart-sym left right pieces-Apart)
  table-Apart j k l m other (inl (e, f)) (inr (inr (g, h, p))) =
      Apart-by (table j) right (table k) (a.spaces k) f p (right-Apart k (omega arith) h)
  table-Apart j k l m other (inr (inl (e, d, f))) (inl (g, h)) =
      Apart-by (table j) left (table k) right f h pieces-Apart
  table-Apart j k l m other (inr (inl (e, d, f))) (inr (inl (g, h, p))) = absurd (other (d ∙ sym h))
  table-Apart j k l m other (inr (inl (e, d, f))) (inr (inr (g, h, p))) =
      Apart-by (table j) left (table k) (a.spaces k) f p (left-Apart k (omega arith) h)
  table-Apart j k l m other (inr (inr (e, d, f))) (inl (g, h)) =
      Apart-by (table j) (a.spaces j) (table k) right f h
        (Apart-sym right (a.spaces j) (right-Apart j (omega arith) d))
  table-Apart j k l m other (inr (inr (e, d, f))) (inr (inl (g, h, p))) =
      Apart-by (table j) (a.spaces j) (table k) left f p
        (Apart-sym left (a.spaces j) (left-Apart j (omega arith) d))
  table-Apart j k l m other (inr (inr (e, d, f))) (inr (inr (g, h, p))) =
      Apart-by (table j) (a.spaces j) (table k) (a.spaces k) f p
        (v.apart j k (omega arith) (omega arith) other)

  within_of :
      (j : ℕ)
      → j < suc a.used_spaces
      → Changed a.spaces i left a.used_spaces right j
      → (table j).start + (table j).size ≤ c.memory_size
  within_of j l (inl (e, f)) =
      omega (arith, ap (λ t. t.start + t.size) f, right_start, v.within i used)
  within_of j l (inr (inl (e, d, f))) = omega (arith, ap (λ t. t.start + t.size) f, v.within i used)
  within_of j l (inr (inr (e, d, f))) =
      omega (arith, ap (λ t. t.start + t.size) f, v.within j (omega arith))

  total_of : total (suc a.used_spaces) table ≡ c.memory_size
  total_of = omega (
    arith,
    v.whole,
    total-update_off a.used_spaces a.used_spaces (update a.spaces i left) right (omega arith),
    total-update a.used_spaces i a.spaces left used,
    ap (λ t. t.size) (update_at (update a.spaces i left) a.used_spaces right),
  )

  pub cut-IsTiled :
      a.used_spaces < c.nb_spaces
      → IsTiled c (record a { used_spaces = u32 (a.used_spaces + 1); spaces = table })
  cut-IsTiled more =
      rw (mod_below (a.used_spaces + 1) 4294967296 (omega (arith, small.table))) (
        subst (λ m. IsTiled c (record a { used_spaces = m; spaces = table })) (omega arith) counted)
    where
      counted : IsTiled c (record a { used_spaces = suc a.used_spaces; spaces = table })
      counted = record {
        ready = v.ready;
        some_used = omega arith;
        room = omega (arith, more);
        within = λ j l. within_of j l (changes a.spaces i left a.used_spaces right j);
        apart = λ j k l m other.
            table-Apart j k l m other (changes a.spaces i left a.used_spaces right j)
              (changes a.spaces i left a.used_spaces right k);
        whole = total_of;
      }
