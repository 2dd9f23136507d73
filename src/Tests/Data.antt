-- ===== src/Tests/Data.antt =====
-- The data of the runs: threads, partitions, a configuration of ten threads, and a kernel of two
-- partitions with the threads 0 to 1 and 2 to 4.
use pok_lab.Common.{◌*◌, ◌+◌, true, false, if◌then◌else◌, ◌==◌, pos, minus_one}
use pok_lab.Types.{
  stopped, runnable, Thread, Threads, normal, init_cold, pps, rms, Partition, Partitions,
  ErrorStatus, normal_start,
}
use pok_lab.SchedValues.{Sched}
use pok_lab.Kernel.{Config, Kernel, Now, global_timeslice}

abbrev pub no_error : ErrorStatus
no_error = record { error_kind = 9; failed_thread = 0; failed_addr = 0; msg = λ i. 0; msg_size = 0 }

abbrev pub still : Thread
still = record {
  priority = 0;
  period = pos 0;
  deadline = 0;
  time_capacity = minus_one;
  remaining_time_capacity = minus_one;
  next_activation = 0;
  state = stopped;
  end_time = 0;
  wakeup_time = 0;
  entry = 0;
  partition = 0;
  sp = 0;
  init_stack_addr = 0;
  base_priority = 0;
  processor_affinity = 0;
  ddl = 0;
  weight = 1;
  remaining_timeslice = 1;
  mlfq_level = 0;
}

abbrev pub runner : Thread
runner = record still { priority = 5; state = runnable; ddl = 7; period = pos 20 }

abbrev pub all_run : Threads
all_run i = runner

abbrev pub all_still : Threads
all_still i = still

-- Thread 0 runs, the others do not.
abbrev pub first_runs : Threads
first_runs i = if i == 0 then runner else still

abbrev pub part : Partition
part = record {
  base_addr = 4096;
  base_vaddr = 0;
  size = 1024;
  nthreads = 2;
  period = 0;
  sched = Sched.pps;
  sched_func = pps;
  activation = 0;
  prev_thread = λ p. 0;
  current_thread = λ p. 1;
  thread_index_low = 0;
  thread_index_high = 2;
  thread_index = 0;
  lockobj_index_low = 0;
  lockobj_index_high = 1;
  nlockobjs = 1;
  thread_error = 0;
  error_status = no_error;
  thread_main = 0;
  thread_main_entry = 100;
  thread_main_proc = 0;
  mode = normal;
  priority = 0;
  deadline = 0;
  lock_level = 0;
  start_condition = normal_start;
}

abbrev pub second_part : Partition
second_part = record part {
  nthreads = 3;
  thread_index_low = 2;
  thread_index_high = 5;
  sched = Sched.rms;
  sched_func = rms;
  mode = init_cold;
}

abbrev pub parts : Partitions
parts p = if p == 0 then part else second_part

abbrev pub conf : Config
conf = record {
  nb_threads = 10;
  nb_partitions = 2;
  nb_processors = 1;
  nb_slots = 2;
  slots = λ i. 100 * (i + 1);
  slots_allocation = λ i. i;
  major_frame = 300;
  base_slot_length = 100;
  global_scheduler = global_timeslice;
  needs_locks = true;
  needs_ports = false;
}

abbrev pub kernel : Kernel
kernel = record {
  threads = all_run;
  partitions = parts;
  current_threads = λ p. 1;
  current_partition = 0;
  new_partition = false;
  sched_slots = conf.slots;
  sched_slots_allocation = conf.slots_allocation;
  sched_major_frame = 300;
  sched_next_deadline = 100;
  sched_next_major_frame = 300;
  sched_next_flush = 0;
  sched_current_slot = 0;
  sched_partition_func = global_timeslice;
}

abbrev pub at_120 : Now
at_120 = record { proc = 0; tick = 120 }
