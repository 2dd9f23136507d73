-- ===== src/Partition/Mode/Request.antt =====
-- What a request for a mode does in kernel/core/partition.c, by the automaton of the modes.
use pok_lab.Common.{
  ℕ, ◌+◌, ◌≡◌, ◌≢◌, ◌⊎◌, inl, inr, refl, ap, ◌∙◌, Bool, true, false, not, ◌&&◌, Option, some, ◌>>=◌,
  arith, ◌==◌, if◌then◌else◌, Bool-cases, update_at, update_off,
}
use pok_lab.Types.{
  ThreadAttr, Partition, Mode, init_cold, init_warm, normal, idle, restart, is_init, Errno, ok,
  partition_mode, thread,
}
use pok_lab.Kernel.{Config, Kernel, Now, current_id, current_part, set_partition}
use pok_lab.Thread.{Machine}
use pok_lab.Thread.Create.{create_in, count_thread, proc_allowed}
use pok_lab.Thread.Create.Known.{MayCreate, next_id, create_in-partition, create_in-other}
use pok_lab.Sched.Slots.{pok_global_sched}
use pok_lab.Partition.{Build, Uninit, main_attr, renewed, pok_partition_reinit}
use pok_lab.Partition.Ranges.{main_lem}
use pok_lab.Partition.Mode.{
  in_handler, with_mode, enter_init, change_mode, pok_partition_set_mode,
  pok_partition_set_mode_current, is_cold, is_warm, schedule_if_ok,
}
use pok_lab.Partition.Mode.Change.{
  InHandler, MayEnter, CanRestart, Effect, Enters, Changes, handler-reads, handler-fails,
  stopped-Changes, normal-Changes,
}

module _ (m : Machine) (c : Config) (b : Build) (w : Now) (u : Uninit) (k : Kernel) (proc : ℕ)
    (can : CanRestart m k proc) (mode : Mode) (init : is_init mode ≡ true) where
  abbrev pid : ℕ
  pid = k.current_partition

  abbrev own : Partition
  own = renewed c b w pid (record (current_part k) { mode = mode })

  abbrev asked : Kernel
  asked = with_mode pid mode k

  abbrev emptied : Kernel
  emptied = set_partition asked pid (renewed c b w pid)

  emptied_own : emptied.partitions pid ≡ own
  emptied_own =
      update_at asked.partitions pid _
      ∙ ap (renewed c b w pid)
          (update_at k.partitions pid (record (current_part k) { mode = mode }))

  may : MayCreate m emptied (main_attr u (emptied.partitions pid).thread_main_entry) pid proc
  may = record {
    in_time = inl (ap (λ (p : Partition). is_init p.mode) emptied_own ∙ init);
    room = omega (
      arith,
      can.some_threads,
      ap (λ (p : Partition). p.thread_index_low) emptied_own,
      ap (λ (p : Partition). p.thread_index) emptied_own,
      ap (λ (p : Partition). p.thread_index_high) emptied_own,
    );
    small = omega (arith, can.few, ap (λ (p : Partition). p.thread_index_high) emptied_own);
    real = can.has.real;
    allowed =
        ap (λ (p : Partition). proc_allowed m p pid (main_attr u p.thread_main_entry) proc)
          emptied_own
        ∙ all_true _ _ own.thread_main_entry proc own.thread_main_proc can.has.exists can.has.own
            can.main_proc;
  }
    where
      all_true :
          (x y : Bool) (e n p : ℕ)
          → x ≡ true
          → y ≡ true
          → p ≡ n
          → x && y && (if e == e then n == p else true) ≡ true
      all_true x y e n p hx hy hp = ground (arith, hx, hy, hp)

  abbrev attr : ThreadAttr
  attr = main_attr u (emptied.partitions pid).thread_main_entry

  abbrev made : Kernel
  made = create_in m w pid attr (next_id emptied pid) proc emptied

  abbrev restarted : Kernel
  restarted = set_partition made pid (λ p. record p { thread_main = next_id emptied pid })

  restarted_own :
      restarted.partitions pid ≡ record (count_thread own) { thread_main = next_id emptied pid }
  restarted_own =
      update_at made.partitions pid _
      ∙ ap (λ (p : Partition). record p { thread_main = next_id emptied pid })
          (create_in-partition m w pid attr (next_id emptied pid) proc emptied
            ∙ ap count_thread emptied_own)

  reinit_lem : pok_partition_reinit m c b w u pid asked ≡ some restarted
  unfolding pok_partition_reinit
  reinit_lem = main_lem m w u pid proc emptied may

  same_current : restarted.current_partition ≡ pid
  unfolding create_in
  same_current = refl

  restarted-others : (j : ℕ) → j ≢ pid → restarted.partitions j ≡ k.partitions j
  restarted-others j other =
      update_off made.partitions pid j _ other
      ∙ create_in-other m w pid attr (next_id emptied pid) proc emptied j other
      ∙ update_off asked.partitions pid j (renewed c b w pid (asked.partitions pid)) other
      ∙ update_off k.partitions pid j (record (current_part k) { mode = mode }) other

  restarted-index :
      ((restarted.partitions pid).thread_error ≡ 0)
      × ((restarted.partitions pid).thread_index ≡ 1)
      × ((restarted.partitions pid).thread_main ≡ (current_part k).thread_index_low)
      × ((restarted.partitions pid).mode ≡ mode)
  restarted-index = (
    ap (λ (p : Partition). p.thread_error) restarted_own,
    ap (λ (p : Partition). p.thread_index) restarted_own ∙ omega arith,
    ap (λ (p : Partition). p.thread_main) restarted_own
        ∙ ap (λ (p : Partition). p.thread_index_low + p.thread_index) emptied_own
        ∙ omega arith,
    ap (λ (p : Partition). p.mode) restarted_own,
  )

  in_current :
      ((current_part restarted).thread_error ≡ 0)
      × ((current_part restarted).thread_index ≡ 1)
      × ((current_part restarted).thread_main ≡ (current_part k).thread_index_low)
  in_current = (
    ap (λ p. (restarted.partitions p).thread_error) same_current ∙ restarted-index.0,
    ap (λ p. (restarted.partitions p).thread_index) same_current ∙ restarted-index.1,
    ap (λ p. (restarted.partitions p).thread_main) same_current ∙ restarted-index.2,
  )

  pub init-Changes :
      (is_cold (current_part k).mode && is_warm mode ≡ true → ¬ MayEnter w k mode)
      → (is_cold (current_part k).mode && is_warm mode ≡ false → InHandler w k → MayEnter w k mode)
      → (MayEnter w k mode → InHandler w k)
      → (((current_part restarted).thread_error ≡ 0)
            × ((current_part restarted).thread_index ≡ 1)
            × ((current_part restarted).thread_main ≡ (current_part k).thread_index_low)
          → Effect w k mode restarted)
      → Changes w k mode (enter_init m c b w u pid mode k)
  unfolding enter_init
  init-Changes refuse allow need effect =
      elim (Bool-cases (is_cold (current_part k).mode && is_warm mode)) [
        | inl warmer ↦ rw warmer (inl (refl, refuse warmer))
        | inr other ↦ rw other (elim (Bool-cases (in_handler w k)) [
          | inl handler ↦ rw handler (
              inr (
                restarted,
                ap (λ o. o >>= λ k'. some (k', ok)) reinit_lem,
                allow other (handler-reads w k handler),
                record {
                  current = same_current;
                  in_mode = restarted-index.3;
                  others = restarted-others;
                  effect = effect in_current;
                },
              ))
          | inr elsewhere ↦ rw elsewhere (inl (refl, λ may. handler-fails w k elsewhere (need may)))
        ])
      ]

-- Every request, by its mode.
change_mode-Changes :
    (m : Machine) (c : Config) (b : Build) (w : Now) (u : Uninit) (k : Kernel) (proc : ℕ)
    → CanRestart m k proc
    → (mode : Mode) → Changes w k mode (change_mode m c b w u k.current_partition mode k)
unfolding change_mode
change_mode-Changes m c b w u k proc can normal = normal-Changes w k can.whole can.few
change_mode-Changes m c b w u k proc can Mode.stopped = stopped-Changes w k
change_mode-Changes m c b w u k proc can init_cold =
    init-Changes m c b w u k proc can init_cold refl (λ e may. never (current_part k).mode e)
      (λ e h. h) (λ h. h) (λ e. e)
  where
    never : (s : Mode) → is_cold s && false ≡ true → ⊥
    never s e = ground (arith, e)
change_mode-Changes m c b w u k proc can init_warm =
    init-Changes m c b w u k proc can init_warm refl (λ e may. may.0 (cold (current_part k).mode e))
      (λ e h. (warm (current_part k).mode e, h)) (λ may. may.1) (λ e. e)
  where
    cold : (s : Mode) → is_cold s && true ≡ true → s ≡ init_cold
    cold s e = ground (arith, e)

    warm : (s : Mode) → is_cold s && true ≡ false → s ≢ init_cold
    warm s e h = ground (arith, e, h)
change_mode-Changes m c b w u k proc can idle = inl (refl, λ may. may)
change_mode-Changes m c b w u k proc can restart = inl (refl, λ may. may)

-- A request for a mode, of a thread of the partition that runs, where its main thread can be made again.
-- It is either refused with an error, the kernel stays as it is, and the automaton does not allow the
-- request; or the automaton allows it, the partition enters the mode, no other one changes, and
-- the processor schedules. In the mode NORMAL the main thread is stopped, those of other partitions stay
-- as they are, and so does each other thread of the partition without a delayed start; one with a
-- delayed start runs from now on if its delay is 0, waits for its delay from now on if it has no
-- period, and else for the delay after the next major frame. A partition that stops has its threads as they
-- are; one that starts again counts one thread, its first, which is its main thread, and has no
-- error handler.
pub pok_partition_set_mode_current_lem :
    (fuel : ℕ) (m : Machine) (c : Config) (b : Build) (w : Now) (u : Uninit) (k : Kernel) (proc : ℕ)
    (mode : Mode)
    → CanRestart m k proc
    → ((e : Errno) × (pok_partition_set_mode_current fuel m c b w u mode k ≡ some (k, e))
        × (e ≢ ok)
        × ¬ MayEnter w k mode)
      ⊎ ((k' : Kernel) × MayEnter w k mode
          × Enters w k mode k'
          × (pok_partition_set_mode_current fuel m c b w u mode k
              ≡ (pok_global_sched fuel c w k' >>= λ k''. some (k'', ok))))
unfolding pok_partition_set_mode_current pok_partition_set_mode
pok_partition_set_mode_current_lem fuel m c b w u k proc mode can = elim (Bool-cases outside) [
  | inl out ↦
      inl
        (thread, ap (λ b. if b then some (k, thread) else called) out, (λ e. cc), outsider out mode)
  | inr in_part ↦ elim (change_mode-Changes m c b w u k proc can mode) [
    | inl (refused, no_way) ↦ inl (
      partition_mode,
      ap (λ b. if b then some (k, thread) else called) in_part ∙ ap then_schedule refused,
      (λ e. cc),
      no_way,
    )
    | inr (k', done, may, enters) ↦ inr (
      k',
      may,
      enters,
      ap (λ b. if b then some (k, thread) else called) in_part ∙ ap then_schedule done,
    )
  ]
]
  where
    outside : Bool
    outside =
        not (current_id w k == (current_part k).thread_main)
        && not (current_id w k == (current_part k).thread_error)

    called : Option (Kernel × Errno)
    called = pok_partition_set_mode fuel m c b w u k.current_partition mode k

    then_schedule : Option (Kernel × Errno) → Option (Kernel × Errno)
    then_schedule o = o >>= λ r. schedule_if_ok fuel c w r.1 r.0

    not_main : outside ≡ true → current_id w k ≢ (current_part k).thread_main
    not_main out e = ground (arith, out, e)

    not_handler : outside ≡ true → ¬ InHandler w k
    not_handler out h = ground (arith, out, h.runs)

    outsider : outside ≡ true → (mode : Mode) → ¬ MayEnter w k mode
    outsider out normal may = not_main out may.1
    outsider out Mode.stopped may = not_handler out may
    outsider out init_cold may = not_handler out may
    outsider out init_warm may = not_handler out may.1
    outsider out idle may = may
    outsider out restart may = may
