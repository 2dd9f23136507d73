-- ===== src/Partition/Mode/Change.antt =====
-- Which changes of mode kernel/core/partition.c makes, and what they leave.
use pok_lab.Common.{
  ℕ, ◌+◌, ◌≤◌, ◌<◌, u32_mod, inl, inr, ◌⊎◌, ◌≡◌, ◌≢◌, refl, sym, ap, ◌∙◌, true, false, not, ◌||◌,
  Option, some, arith, ◌==◌, Bool-cases, update_at, update_off, subst,
}
use pok_lab.Types.{
  Thread, ThreadAttr, Partition, Mode, init_cold, init_warm, normal, idle, restart, is_init, Errno,
  ok, partition_mode, thread,
}
use pok_lab.Types
use pok_lab.Kernel.{Kernel, Now, current_id, current_part}
use pok_lab.Thread.{Machine}
use pok_lab.Sched.Switch.{pok_sched_stop_thread}
use pok_lab.Partition.Ranges.{HasProc}
use pok_lab.Partition.Mode.Start.{IsStarted, start_thread-IsStarted, start_from-at, start_from-off}
use pok_lab.Partition.Mode.{
  start_thread, in_handler, with_mode, start_all, enter_normal, enter_stopped, is_idle,
}

-- The current thread is the error handler of the current partition.
pub record InHandler (w : Now) (k : Kernel) : Type 0 where
  pub there : (current_part k).thread_error ≢ 0
  pub runs : current_id w k ≡ (current_part k).thread_error

-- The automaton: the main thread may make the partition NORMAL, unless it is IDLE; the error handler may
-- stop it, start it cold, and start it warm unless it starts cold; no other mode can be asked for.
abbrev pub MayEnter : Now → Kernel → Mode → Type 0
MayEnter w k normal =
    ((current_part k).mode ≢ idle) × (current_id w k ≡ (current_part k).thread_main)
MayEnter w k Mode.stopped = InHandler w k
MayEnter w k init_cold = InHandler w k
MayEnter w k init_warm = ((current_part k).mode ≢ init_cold) × InHandler w k
MayEnter w k _ = ⊥

-- The main thread of the current partition can be made again.
pub record CanRestart (m : Machine) (k : Kernel) (proc : ℕ) : Type 0 where
  pub has : HasProc m k.current_partition proc
  pub main_proc : (current_part k).thread_main_proc ≡ proc
  pub some_threads : (current_part k).thread_index_low < (current_part k).thread_index_high
  pub few : (current_part k).thread_index_high < u32_mod
  pub whole :
      (current_part k).thread_index_low + (current_part k).nthreads
      ≡ (current_part k).thread_index_high

-- The threads of a partition that becomes NORMAL: the main thread stops, each other one starts by
-- `IsStarted`, and those of other partitions stay as they are.
pub record Starts (w : Now) (k k' : Kernel) : Type 0 where
  pub main : (k'.threads (current_part k).thread_main).state ≡ Types.stopped
  pub own :
      (i : ℕ)
      → i < (current_part k).nthreads
      → (current_part k).thread_index_low + i ≢ (current_part k).thread_main
      → IsStarted w.tick k.sched_major_frame
          (current_part k).activation
          (k.threads ((current_part k).thread_index_low + i))
          (k'.threads ((current_part k).thread_index_low + i))
  pub foreign :
      (j : ℕ)
      → (j < (current_part k).thread_index_low) ⊎ ((current_part k).thread_index_high ≤ j)
      → j ≢ (current_part k).thread_main
      → k'.threads j ≡ k.threads j

-- What the change leaves beside the mode: in the mode NORMAL the threads start; a partition that stops
-- has all its threads as they are; one that starts again counts one thread, its first, which is its main
-- thread, and has no error handler.
abbrev pub Effect : Now → Kernel → Mode → Kernel → Type 0
Effect w k normal k' = Starts w k k'
Effect w k Mode.stopped k' = k'.threads ≡ k.threads
Effect w k init_cold k' =
    ((current_part k').thread_error ≡ 0)
    × ((current_part k').thread_index ≡ 1)
    × ((current_part k').thread_main ≡ (current_part k).thread_index_low)
Effect w k init_warm k' =
    ((current_part k').thread_error ≡ 0)
    × ((current_part k').thread_index ≡ 1)
    × ((current_part k').thread_main ≡ (current_part k).thread_index_low)
Effect w k _ k' = ⊥

-- The partition is in the mode, and no other partition changes.
pub record Enters (w : Now) (k : Kernel) (mode : Mode) (k' : Kernel) : Type 0 where
  pub current : k'.current_partition ≡ k.current_partition
  pub in_mode : (k'.partitions k.current_partition).mode ≡ mode
  pub others : (j : ℕ) → j ≢ k.current_partition → k'.partitions j ≡ k.partitions j
  pub effect : Effect w k mode k'

-- A request is refused, and nothing changes, or it is one that the automaton allows.
abbrev pub Changes : Now → Kernel → Mode → Option (Kernel × Errno) → Type 0
Changes w k mode r =
    ((r ≡ some (k, partition_mode)) × ¬ MayEnter w k mode)
    ⊎ ((k' : Kernel) × (r ≡ some (k', ok)) × MayEnter w k mode × Enters w k mode k')

pub handler-reads : (w : Now) (k : Kernel) → in_handler w k ≡ true → InHandler w k
handler-reads w k h = record { there = λ e. ground (arith, h, e); runs = ground (arith, h) }

pub handler-fails : (w : Now) (k : Kernel) → in_handler w k ≡ false → ¬ InHandler w k
handler-fails w k h v = ground (arith, h, v.there, v.runs)

pub stopped-Changes :
    (w : Now) (k : Kernel) → Changes w k Mode.stopped (some (enter_stopped w k.current_partition k))
unfolding enter_stopped
stopped-Changes w k = elim (Bool-cases (in_handler w k)) [
  | inl handler ↦ rw handler (
      inr (
        with_mode k.current_partition Mode.stopped k,
        refl,
        handler-reads w k handler,
        record {
          current = refl;
          in_mode = ap (λ (p : Partition). p.mode) (update_at k.partitions k.current_partition _);
          others = λ j other. update_off k.partitions k.current_partition j _ other;
          effect = refl;
        },
      ))
  | inr other ↦ rw other (inl (refl, handler-fails w k other))
]

pub normal-Changes :
    (w : Now) (k : Kernel)
    → (current_part k).thread_index_low + (current_part k).nthreads
      ≡ (current_part k).thread_index_high
    → (current_part k).thread_index_high < u32_mod
    → Changes w k normal (some (enter_normal w k.current_partition k))
unfolding enter_normal pok_sched_stop_thread
normal-Changes w k whole few =
    elim (Bool-cases
      (is_idle (current_part k).mode || not (current_id w k == (current_part k).thread_main))) [
        | inl refused ↦
            rw refused (inl (refl, λ may. fails (current_part k).mode refused may.0 may.1))
        | inr allowed ↦ rw allowed (
            inr (
              entered,
              refl,
              (awake (current_part k).mode allowed, is_main allowed),
              record {
                current = refl_current;
                in_mode = ap (λ (p : Partition). p.mode) own;
                others = λ j other.
                    update_off k.partitions k.current_partition j
                      (record (current_part k) { mode = normal }) other;
                effect = record { main = main_stopped; own = starts; foreign = foreign_kept };
              },
            ))
      ]
  where
    fails :
        (m : Mode)
        → is_idle m || not (current_id w k == (current_part k).thread_main) ≡ true
        → m ≢ idle
        → current_id w k ≢ (current_part k).thread_main
    fails m refused awake e = ground (arith, refused, awake, e)

    awake :
        (m : Mode)
        → is_idle m || not (current_id w k == (current_part k).thread_main) ≡ false
        → m ≢ idle
    awake m allowed e = ground (arith, allowed, e)

    is_main :
        is_idle (current_part k).mode || not (current_id w k == (current_part k).thread_main)
          ≡ false
        → current_id w k ≡ (current_part k).thread_main
    is_main allowed = ground (arith, allowed)

    started : Kernel
    started = start_all w k.current_partition (with_mode k.current_partition normal k)

    entered : Kernel
    entered = pok_sched_stop_thread started (started.partitions k.current_partition).thread_main

    own : started.partitions k.current_partition ≡ record (current_part k) { mode = normal }
    own = update_at k.partitions k.current_partition _

    refl_current : entered.current_partition ≡ k.current_partition
    refl_current = refl

    main_stopped : (entered.threads (current_part k).thread_main).state ≡ Types.stopped
    main_stopped =
        ap (λ t. (entered.threads t).state) (sym (ap (λ (p : Partition). p.thread_main) own))
        ∙ ap (λ t. t.state)
            (update_at started.threads (started.partitions k.current_partition).thread_main _)

    off_main : (t : ℕ) → t ≢ (current_part k).thread_main → entered.threads t ≡ started.threads t
    off_main t other =
        update_off started.threads (started.partitions k.current_partition).thread_main t _
          (λ e. other (e ∙ ap (λ (p : Partition). p.thread_main) own))

    low : ℕ
    low = (current_part (with_mode k.current_partition normal k)).thread_index_low

    same_low : low ≡ (current_part k).thread_index_low
    same_low = ap (λ (p : Partition). p.thread_index_low) own

    same_count : (started.partitions k.current_partition).nthreads ≡ (current_part k).nthreads
    same_count = ap (λ (p : Partition). p.nthreads) own

    body : Partition → Thread → Thread
    body p = start_thread w.tick k.sched_major_frame p.activation

    own_start :
        (i : ℕ)
        → i < (current_part k).nthreads
        → (current_part k).thread_index_low + i ≢ (current_part k).thread_main
        → entered.threads ((current_part k).thread_index_low + i)
          ≡ body (current_part k) (k.threads ((current_part k).thread_index_low + i))
    own_start i l other =
        off_main ((current_part k).thread_index_low + i) other
        ∙ ap started.threads (ap (λ n. n + i) (sym same_low))
        ∙ start_from-at (body (started.partitions k.current_partition)) low
            (started.partitions k.current_partition).nthreads 0 i k.threads
            (omega (arith, same_low, same_count, whole, few)) (omega arith)
            (omega (arith, same_count, l))
        ∙ ap (λ n. body (started.partitions k.current_partition) (k.threads (n + i))) same_low
        ∙ ap (λ p. body p (k.threads ((current_part k).thread_index_low + i))) own

    starts :
        (i : ℕ)
        → i < (current_part k).nthreads
        → (current_part k).thread_index_low + i ≢ (current_part k).thread_main
        → IsStarted w.tick k.sched_major_frame
            (current_part k).activation
            (k.threads ((current_part k).thread_index_low + i))
            (entered.threads ((current_part k).thread_index_low + i))
    starts i l other =
        subst
          (IsStarted w.tick k.sched_major_frame (current_part k).activation
            (k.threads ((current_part k).thread_index_low + i)))
          (sym (own_start i l other))
          (start_thread-IsStarted w.tick k.sched_major_frame (current_part k).activation
            (k.threads ((current_part k).thread_index_low + i)))

    foreign_kept :
        (j : ℕ)
        → (j < (current_part k).thread_index_low) ⊎ ((current_part k).thread_index_high ≤ j)
        → j ≢ (current_part k).thread_main
        → entered.threads j ≡ k.threads j
    foreign_kept j out other =
        off_main j other
        ∙ start_from-off (body (started.partitions k.current_partition)) low
            (started.partitions k.current_partition).nthreads 0 j k.threads
            (omega (arith, same_low, same_count, whole, few))
            (elim out [
              | inl under ↦ inl (omega (arith, same_low, under))
              | inr over ↦ inr (omega (arith, same_low, same_count, whole, over))
            ])
