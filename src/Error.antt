-- ===== src/Error.antt =====
-- kernel/core/error.c, with the default handlers and without debugging: a partition's record of its
-- last error, and its error handler, a thread.
pub mod Report
use pok_lab.Common.{ℕ, ◌+◌, ◌-◌, Bool, Option, some, ◌>>=◌, ltb, ◌==◌, if◌then◌else◌, u32, u32_mod}
use pok_lab.Types.{ThreadAttr, ErrorStatus, Errno, ok, unavailable}
use pok_lab.Kernel.{Kernel, Now, current_id, current_part, set_partition}
use pok_lab.Thread.{Machine}
use pok_lab.Thread.Create.{pok_partition_thread_create}
use pok_lab.Sched.Switch.{pok_sched_activate_error_thread}
use pok_lab.Ports.{memcpy}
use pok_lab.Partition.{Uninit, error_kind_invalid}

-- POK_ERROR_MAX_MSG_SIZE
abbrev pub error_max_msg_size : ℕ
error_max_msg_size = 250

-- POK_ERROR_KIND_APPLICATION_ERROR
abbrev pub error_kind_application_error : ℕ
error_kind_application_error = 11

-- POK_THREAD_MAX_PRIORITY; the other attributes are not set.
abbrev pub handler_attr : Uninit → ℕ → ThreadAttr
handler_attr u entry = record (u.attr) { priority = 200; entry = entry; time_capacity = 10000 }

-- `tid` has no value yet when the creation fails.
unfoldable pub pok_error_thread_create :
    Machine → Now → Uninit → ℕ → Kernel → Option (Kernel × Errno)
pok_error_thread_create m w u entry k = do
  (k', ret, tid) ←
      pok_partition_thread_create m w u.thread_id (handler_attr u entry) k.current_partition k
  some (
    pok_sched_activate_error_thread w
        (set_partition k' k'.current_partition (λ p. record p { thread_error = tid })),
    ret,
  )

-- POK_SCHED_CURRENT_THREAD - POK_CURRENT_PARTITION.thread_index_low
abbrev pub failing : Now → Kernel → ℕ
failing w k = u32 (current_id w k + u32_mod - (current_part k).thread_index_low)

abbrev pub set_status : (ErrorStatus → ErrorStatus) → Kernel → Kernel
set_status f k =
    set_partition k k.current_partition (λ p. record p { error_status = f p.error_status })

-- Without a handler the error goes to `pok_partition_error`, which does nothing.
unfoldable pub pok_error_declare : Now → ℕ → Kernel → Kernel
pok_error_declare w error k =
    if (current_part k).thread_error == 0
    then k
    else set_status
        (λ e. record e { error_kind = error; failed_thread = failing w k; msg_size = 0 }) k

unfoldable pub pok_error_raise_application_error : Now → (ℕ → ℕ) → ℕ → Kernel → Kernel
pok_error_raise_application_error w msg msg_size k =
    let n = if ltb error_max_msg_size msg_size then error_max_msg_size else msg_size in
    pok_sched_activate_error_thread w (
      set_status
        (λ e. record e {
          error_kind = error_kind_application_error;
          failed_thread = failing w k;
          msg_size = n;
          msg = memcpy e.msg 0 msg 0 n;
        })
        k)

-- `*status`, and what is returned.
unfoldable pub pok_error_get : Kernel → ErrorStatus → ErrorStatus × Errno
pok_error_get k status =
    let e = (current_part k).error_status in
    if e.error_kind == error_kind_invalid then (status, unavailable) else (
      record status {
        error_kind = e.error_kind;
        failed_thread = e.failed_thread;
        failed_addr = e.failed_addr;
        msg_size = e.msg_size;
        msg = memcpy status.msg 0 e.msg 0 e.msg_size;
      },
      ok,
    )
