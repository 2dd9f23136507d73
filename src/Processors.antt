-- ===== src/Processors.antt =====
-- kernel/core/multiprocessing.c: the processors of a partition, numbered in the partition and in the
-- machine. An assertion that fails gives `none`.
pub mod RoundTrip
use pok_lab.Common.{
  ℕ, zero, suc, ◌+◌, ◌-◌, ◌/◌, ◌%◌, ◌^◌, Bool, true, false, Option, none, some, leb, ◌==◌,
  if◌then◌else◌, u8,
}

-- `(tmp >> i) & 1`
abbrev pub bit : ℕ → ℕ → ℕ
bit tmp i = tmp / 2 ^ i % 2

-- `while (counter <= partition_proc_id)`, with `n` more turns before `proc` is 64.
unfoldable pub real_from : ℕ → ℕ → ℕ → ℕ → ℕ → Option ℕ
real_from zero tmp partition_proc_id counter proc =
    if leb counter partition_proc_id then none else some (proc - 1)
real_from (suc n) tmp partition_proc_id counter proc =
    let rest = real_from n tmp partition_proc_id (u8 (counter + bit tmp proc)) (proc + 1) in
    if leb counter partition_proc_id then rest else some (proc - 1)

-- `affinity` is the table `partition_processor_affinity`.
unfoldable pub get_proc_real_id : (ℕ → ℕ) → ℕ → ℕ → Option ℕ
get_proc_real_id affinity pid partition_proc_id = real_from 64 (affinity pid) partition_proc_id 0 0

unfoldable pub get_default_proc_real_id : (ℕ → ℕ) → ℕ → Option ℕ
get_default_proc_real_id affinity pid = get_proc_real_id affinity pid 0

-- `for (i = 0; i < proc_real_id; i++)`, `n` bits from `i` on.
unfoldable pub count_from : ℕ → ℕ → ℕ → ℕ → ℕ
count_from zero tmp i proc = proc
count_from (suc n) tmp i proc = count_from n tmp (i + 1) (u8 (proc + bit tmp i))

unfoldable pub get_proc_partition_id : (ℕ → ℕ) → ℕ → ℕ → Option ℕ
get_proc_partition_id affinity pid proc_real_id =
    if bit (affinity pid) proc_real_id == 1
    then some (count_from proc_real_id (affinity pid) 0 0)
    else none
