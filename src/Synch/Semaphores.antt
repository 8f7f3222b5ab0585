-- ===== src/Synch/Semaphores.antt =====
-- One call of a semaphore of synch.c, on a kernel whose queues are in step.
use tiny_os.Common.{
  ℕ, ◌+◌, ◌-◌, ◌%◌, ◌^◌, ◌≡◌, ◌≢◌, refl, true, false, some, List, [], ◌∷◌, ◌++◌, ◌==◌, ne→==,
}
use tiny_os.Thread.{Kernel, blocked, is_blocked}
use tiny_os.Thread.Scheduler.{IsKernel}
use tiny_os.Thread.Switches.{
  Switched, Woken, thread_current-running, thread_block-Switched, thread_unblock-Woken,
}
use tiny_os.Synch.{
  Semaphore, Lock, sema_down_turn, sema_up, lock_acquire_enter, lock_acquire_leave,
  lock_held_by_current_thread,
}

module _ (k : Kernel) (wf : IsKernel k) (s : Semaphore) where
  -- A semaphore of value 0 puts the running thread at the end of its waiters and to sleep, and no
  -- ASSERT fails.
  pub sema_down_turn-sleeps :
      s.value ≡ 0
      → (k' : Kernel) × (sema_down_turn s k
          ≡ some (false, (record s { waiters = s.waiters ++ (k.running_thread ∷ []) }, k')))
        × Switched k blocked k.ready_list k'
  unfolding sema_down_turn
  sema_down_turn-sleeps zero_value =
      let b = thread_block-Switched k wf in
      (b.0, rw (zero_value, thread_current-running k wf, b.1) refl, b.2)

  -- A semaphore with waiters wakes the one that has waited longest, and counts up; no ASSERT fails
  -- if the thread sleeps and is not the idle thread.
  pub sema_up-wakes :
      (w : ℕ) (ws : List ℕ)
      → s.waiters ≡ w ∷ ws
      → is_blocked (k.status w) ≡ true
      → w ≢ k.idle_thread
      → (k' : Kernel) × (sema_up s k
          ≡ some (record { value = (s.value + 1) % 2 ^ 32; waiters = ws }, k'))
        × Woken k w k'
  unfolding sema_up
  sema_up-wakes w ws q asleep other =
      let b = thread_unblock-Woken k w wf asleep other in (b.0, rw (q, b.1) refl, b.2)

pub sema_up-counts :
    (k : Kernel) (s : Semaphore)
    → s.waiters ≡ []
    → sema_up s k ≡ some (record s { value = (s.value + 1) % 2 ^ 32 }, k)
unfolding sema_up
sema_up-counts k s q = rw q refl

pub sema_down_turn-takes :
    (k : Kernel) (s : Semaphore)
    → (s.value == 0) ≡ false
    → sema_down_turn s k ≡ some (true, (record s { value = s.value - 1 }, k))
unfolding sema_down_turn
sema_down_turn-takes k s up = rw up refl

module _ (k : Kernel) (wf : IsKernel k) (l : Lock) where
  pub lock_acquire_enter-other : l.holder ≢ k.running_thread → lock_acquire_enter l k ≡ some tt
  unfolding lock_acquire_enter lock_held_by_current_thread
  lock_acquire_enter-other other =
      rw (thread_current-running k wf, ne→== l.holder k.running_thread other) refl

  pub lock_acquire_leave-holder :
      lock_acquire_leave l k ≡ some (record l { holder = k.running_thread })
  unfolding lock_acquire_leave
  lock_acquire_leave-holder = rw (thread_current-running k wf) refl
