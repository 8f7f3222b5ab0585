-- ===== src/Thread/Tests.antt =====
-- Runs of thread.c with four threads: 4096 runs, 8192 is ready, 12288 sleeps, 16384 is idle.
use tiny_os.Common.{ℕ, refl, [], ◌∷◌, ◌==◌, if◌then◌else◌, arith}
use tiny_os.Thread.{ThreadStatus, running, ready, blocked, dead, Kernel, thread_magic}
use tiny_os.Thread.Scheduler.{IsKernel}

abbrev status : ℕ → ThreadStatus
status t =
    if t == 4096
    then running
    else if t == 8192
    then ready
    else if t == 12288
    then blocked
    else if t == 16384
    then blocked
    else dead

abbrev magic : ℕ → ℕ
magic t = thread_magic

abbrev pub four_threads : Kernel
four_threads = record {
  status = status;
  magic = magic;
  pagedir = λ t. 0;
  running_thread = 4096;
  ready_list = 8192 ∷ [];
  idle_thread = 16384;
  initial_thread = 4096;
  idle_ticks = 0;
  kernel_ticks = 0;
  user_ticks = 0;
  thread_ticks = 3;
  destroyed = [];
}

pub four_threads-IsKernel : IsKernel four_threads
four_threads-IsKernel = record {
  queue = record {
    queued = λ t. ground arith;
    distinct = (refl, tt);
    threads = λ t a. ground arith;
    idle_alive = refl;
  };
  alone = λ t. ground arith;
}
