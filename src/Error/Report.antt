-- ===== src/Error/Report.antt =====
-- Errors of an application in kernel/core/error.c: what is reported, and who is said to handle it.
use pok_lab.Common.{ℕ, ◌≡◌, refl, ap, ◌∙◌, false, some, ◌>>=◌, arith, ltb, if◌then◌else◌, update_at}
use pok_lab.Types.{ThreadAttr, is_init, Partition, Errno, mode}
use pok_lab.Kernel.{Kernel, Now, current_part, set_partition}
use pok_lab.Thread.{Machine}
use pok_lab.Thread.Create.{pok_partition_thread_create}
use pok_lab.Sched.Switch.{pok_sched_activate_error_thread, pok_sched_context_switch}
use pok_lab.Partition.{Uninit}
use pok_lab.Error.{error_max_msg_size, handler_attr, pok_error_thread_create}

-- The call of the handler changes no partition.
pub activate-partitions :
    (w : Now) (k : Kernel) → (pok_sched_activate_error_thread w k).partitions ≡ k.partitions
unfolding pok_sched_activate_error_thread pok_sched_context_switch
activate-partitions w k = ground arith

pub activate-current :
    (w : Now) (k : Kernel)
    → (pok_sched_activate_error_thread w k).current_partition ≡ k.current_partition
unfolding pok_sched_activate_error_thread pok_sched_context_switch
activate-current w k = ground arith

abbrev pub clipped : ℕ → ℕ
clipped n = if ltb error_max_msg_size n then error_max_msg_size else n

create-refused :
    (m : Machine) (w : Now) (tid : ℕ) (a : ThreadAttr) (pid : ℕ) (k : Kernel)
    → is_init (k.partitions pid).mode ≡ false
    → a.is_dynamic ≡ false
    → pok_partition_thread_create m w tid a pid k ≡ some (k, mode, tid)
unfolding pok_partition_thread_create
create-refused m w tid a pid k late static = rw (late, static) refl

-- A partition that has left its initialisation, and a creation of its error handler whose attribute
-- for dynamic creation, which the code does not set, is false: the creation is refused, and the number that
-- was in the unset variable becomes the partition's error handler.
pub pok_error_thread_create-refused :
    (m : Machine) (w : Now) (u : Uninit) (entry : ℕ) (k : Kernel)
    → is_init (current_part k).mode ≡ false
    → u.attr.is_dynamic ≡ false
    → (k' : Kernel) × (pok_error_thread_create m w u entry k ≡ some (k', mode))
      × ((current_part k').thread_error ≡ u.thread_id)
unfolding pok_error_thread_create
pok_error_thread_create-refused m w u entry k late static =
    let k1 = set_partition k k.current_partition (λ p. record p { thread_error = u.thread_id }) in
    (
      pok_sched_activate_error_thread w k1,
      ap
          (λ o. o >>= λ (r : Kernel × Errno × ℕ). some (
            pok_sched_activate_error_thread w
                (set_partition r.0 r.0.current_partition (λ p. record p { thread_error = r.2 })),
            r.1,
          ))
          (create-refused m w u.thread_id (handler_attr u entry) k.current_partition k late static),
      ap (λ ps. (ps (pok_sched_activate_error_thread w k1).current_partition).thread_error)
            (activate-partitions w k1)
          ∙ ap (λ p. (k1.partitions p).thread_error) (activate-current w k1)
          ∙ ap (λ (p : Partition). p.thread_error) (update_at k.partitions k.current_partition _),
    )
