-- ===== src/Intq/Tests.antt =====
-- Runs of intq.c: a queue that goes round the end of its buffer, and one that is empty.
use tiny_os.Common.{Option, ℕ, ◌+◌, ◌%◌, ◌≡◌, refl, true, false, none, some, [], ◌∷◌, ◌++◌, arith}
use tiny_os.Thread.{Kernel, thread_block}
use tiny_os.Thread.Tests.{four_threads, four_threads-IsKernel}
use tiny_os.Synch.{Lock}
use tiny_os.Common.Panic.{◌>>=◌}
use tiny_os.Intq.{
  wait, signal, sleep, wake, getc_again, Intq, for_data, returned, intq_empty, intq_full,
  acquire_turn, next_pos, intq_getc, intq_putc,
}
use tiny_os.Intq.Contents.{IsIntq, contents}
use tiny_os.Intq.Transfers.{IsWaiter, Signalled, intq_getc-removes, intq_putc-adds}

abbrev free_lock : Lock
free_lock = record { holder = 0; semaphore = record { value = 1; waiters = [] } }

-- Positions 63 and 0 are in use, and thread 12288 waits.
abbrev two_bytes : Intq
two_bytes = record {
  lock = free_lock;
  not_full = 12288;
  not_empty = 12288;
  buf = λ i. i + 5;
  head = 1;
  tail = 63;
}

abbrev no_bytes : Intq
no_bytes = record {
  lock = free_lock;
  not_full = 0;
  not_empty = 0;
  buf = λ i. 0;
  head = 7;
  tail = 7;
}

contents_test : contents two_bytes ≡ 68 ∷ 5 ∷ []
unfolding next_pos
contents_test = refl

two_bytes-IsIntq : IsIntq two_bytes
two_bytes-IsIntq = record { head_bound = omega arith; tail_bound = omega arith }

asleep : IsWaiter four_threads 12288
asleep e = (refl, λ i. ground arith)

some_byte : intq_empty two_bytes ≡ false
unfolding intq_empty
some_byte = refl

space : intq_full two_bytes ≡ false
unfolding intq_full next_pos
space = refl

nothing : intq_empty no_bytes ≡ true
unfolding intq_empty
nothing = refl

intq_getc-removes_example :
    (byte : ℕ) × (q' : Intq) × (k' : Kernel) × (intq_getc true two_bytes four_threads
      ≡ some (returned byte, (q', k')))
    × IsIntq q'
    × (contents two_bytes ≡ byte ∷ contents q')
    × (q'.not_full ≡ 0)
    × (q'.not_empty ≡ 12288)
    × Signalled four_threads 12288 k'
intq_getc-removes_example =
    intq_getc-removes four_threads four_threads-IsKernel true two_bytes two_bytes-IsIntq asleep
      some_byte

intq_putc-adds_example :
    (q' : Intq) × (k' : Kernel) × (intq_putc 300 true two_bytes four_threads
      ≡ some (returned tt, (q', k')))
    × IsIntq q'
    × (contents q' ≡ contents two_bytes ++ (300 % 256 ∷ []))
    × (q'.not_empty ≡ 0)
    × (q'.not_full ≡ 12288)
    × Signalled four_threads 12288 k'
intq_putc-adds_example =
    intq_putc-adds four_threads four_threads-IsKernel 300 true two_bytes two_bytes-IsIntq asleep
      space

-- Two threads read from the empty queue: the first sleeps in wait (), the second in lock_acquire. Two bytes come
-- while the idle thread runs, and the first thread takes one of them and blocks. The second gets the lock.
abbrev second_has_lock : Option (Intq × Kernel)
second_has_lock = do
  first ← intq_getc false no_bytes four_threads
  second ← intq_getc false first.1.0 first.1.1
  one ← intq_putc 1 true second.1.0 second.1.1
  two ← intq_putc 2 true one.1.0 one.1.1
  k1 ← thread_block two.1.1
  taken ← getc_again false two.1.0 k1
  k2 ← thread_block taken.1.1
  some (taken.1.0, k2)

two_readers_test :
    (q : Intq) × (k : Kernel) × (second_has_lock ≡ some (q, k))
    × (contents q ≡ 2 ∷ [])
    × (acquire_turn {A = ℕ} for_data false q k ≡ none)
unfolding intq_empty intq_full next_pos wait signal sleep wake intq_getc intq_putc getc_again
    acquire_turn thread_block tiny_os.Thread.thread_unblock tiny_os.Thread.thread_current
    tiny_os.Thread.schedule tiny_os.Thread.schedule_tail tiny_os.Synch.sema_down_turn
    tiny_os.Synch.sema_up tiny_os.Synch.lock_held_by_current_thread tiny_os.Synch.lock_acquire_enter
    tiny_os.Synch.lock_acquire_leave tiny_os.Synch.lock_release_enter
two_readers_test = (_, _, refl, refl, refl)
