-- ===== src/Intq/Sleeps.antt =====
-- The calls of devices/intq.c that cannot go on: in a handler the kernel stops, in a thread the lock
-- is taken and the thread sleeps. A thread that had to sleep for the lock does not look at the queue
-- again before it calls wait ().
use tiny_os.Common.{ℕ, ◌-◌, ◌≡◌, ◌≢◌, refl, true, false, none, some, ◌==◌}
use tiny_os.Thread.{Kernel, blocked}
use tiny_os.Thread.Scheduler.{IsKernel}
use tiny_os.Thread.Switches.{Switched, thread_current-running, thread_block-Switched}
use tiny_os.Synch.Semaphores.{
  sema_down_turn-takes, lock_acquire_enter-other, lock_acquire_leave-holder,
}
use tiny_os.Intq.{
  Intq, Waiter, for_space, for_data, in_wait, intq_empty, intq_full, put_waiter, must_wait, wait,
  acquire_turn, sleep, intq_getc, intq_putc,
}

-- The queue after the running thread took the lock.
abbrev pub locked : ℕ → Intq → Intq
locked t q = record q {
  lock = record {
    holder = t;
    semaphore = record (q.lock.semaphore) { value = q.lock.semaphore.value - 1 };
  };
}

-- In an interrupt handler intq_getc of an empty queue and intq_putc on a full one stop the kernel.
pub handler_panics :
    (byte : ℕ) (q : Intq) (k : Kernel)
    → (intq_empty q ≡ true → intq_getc true q k ≡ none)
      × (intq_full q ≡ true → intq_putc byte true q k ≡ none)
unfolding intq_getc intq_putc sleep
handler_panics byte q k = (λ e. rw e refl, λ e. rw e refl)

must_wait-locked : (w : Waiter) (t : ℕ) (q : Intq) → must_wait w (locked t q) ≡ must_wait w q
unfolding intq_empty intq_full
must_wait-locked for_space t q = refl
must_wait-locked for_data t q = refl

module _ (k : Kernel) (wf : IsKernel k) (q : Intq)
    (free : (q.lock.semaphore.value == 0) ≡ false) where
  -- A thread that gets the lock, and for which there is nothing to wait for any more, stops the
  -- kernel: the ASSERT of wait () fails.
  pub acquire_turn-panics :
      {A : Type 0} (w : Waiter) → must_wait w q ≡ false → acquire_turn {A = A} w false q k ≡ none
  unfolding acquire_turn wait
  acquire_turn-panics w change =
      let m = must_wait-locked w k.running_thread q in
      let taken = (locked k.running_thread q).lock in
      rw
        (
          sema_down_turn-takes k q.lock.semaphore free,
          lock_acquire_leave-holder k wf (record taken { holder = q.lock.holder }),
          m,
          change,
        )
        refl

  -- A thread that does not hold the lock, where the lock is free and it has to wait, takes the lock,
  -- is noted as the waiter and sleeps, and no ASSERT fails; the next ready thread runs.
  pub sleep-Switched :
      {A : Type 0} (w : Waiter)
      → must_wait w q ≡ true
      → q.lock.holder ≢ k.running_thread
      → (k' : Kernel) × (sleep {A = A} w false q k
          ≡ some (in_wait, (put_waiter w k.running_thread (locked k.running_thread q), k')))
        × Switched k blocked k.ready_list k'
  unfolding sleep acquire_turn wait
  sleep-Switched w nothing other =
      let b = thread_block-Switched k wf in
      let m = must_wait-locked w k.running_thread q in
      let taken = (locked k.running_thread q).lock in
      (
        b.0,
        rw
            (
              lock_acquire_enter-other k wf q.lock other,
              sema_down_turn-takes k q.lock.semaphore free,
              lock_acquire_leave-holder k wf (record taken { holder = q.lock.holder }),
              m,
              nothing,
              thread_current-running k wf,
              b.1,
            )
            refl,
        b.2,
      )
