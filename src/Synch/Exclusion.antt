-- ===== src/Synch/Exclusion.antt =====
-- The lock of synch.c in every state that its threads and the timer can reach.
use tiny_os.Common.{
  ℕ, ◌≡◌, ◌⊎◌, refl, ap, sym, subst, ◌∙◌, Bool, true, false, not, ◌&&◌, some, List, [], ◌∷◌, ◌==◌,
  if◌then◌else◌, arith, Bool-cases, inl, inr, ==_refl,
}
use tiny_os.Thread.{is_blocked, Kernel, thread_current}
use tiny_os.Thread.Scheduler.{IsKernel}
use tiny_os.Thread.Switches.{thread_current-running}
use tiny_os.Synch.{
  Semaphore, Lock, sema_down_turn, sema_try_down, sema_up, lock_init, sema_init,
  lock_held_by_current_thread, lock_acquire_enter, lock_acquire_leave, lock_release_enter,
}
use tiny_os.Synch.Machine.{
  Place, outside, acquiring, acquired, inside, releasing, is_acquiring, is_inside, owns, Machine,
  current, goes, Step, enter, turn, attempt, leave, release, up, yield, sleep, wake, exit, Run,
  done, next,
}
use tiny_os.Synch.Invariant.{can_run, IsMachine}
use tiny_os.Synch.Semaphores.{
  sema_down_turn-sleeps, sema_down_turn-takes, sema_up-wakes, sema_up-counts,
}
use tiny_os.Synch.KernelSteps.{
  unique, not_idle, yield-IsMachine, sleep-IsMachine, exit-IsMachine, wake-IsMachine,
}
use tiny_os.Synch.LockSteps.{
  place-IsMachine, move_keeps, enter-IsMachine, leave-IsMachine, release-IsMachine, cur_not_null,
}
use tiny_os.Synch.SemaphoreSteps.{
  acquiring_not_outside, take-IsMachine, wait-IsMachine, count-IsMachine, hand_over-IsMachine,
  front_waiter,
}

==_sym : (a b : ℕ) → (a == b) ≡ (b == a)
==_sym a b = ground arith

module _ (m : Machine) (inv : IsMachine m) where
  current_is : thread_current m.kernel ≡ some (current m)
  current_is = thread_current-running m.kernel inv.kernel

  turn-IsMachine :
      (got : Bool) (s : Semaphore) (k : Kernel)
      → m.place (current m) ≡ acquiring
      → sema_down_turn m.lock.semaphore m.kernel ≡ some (got, (s, k))
      → IsMachine
          (goes m k (record (m.lock) { semaphore = s }) (if got then acquired else acquiring))
  turn-IsMachine got s k at e =
      let after = λ (r : Bool × (Semaphore × Kernel)). IsMachine (
        goes m r.1.1 (record (m.lock) { semaphore = r.1.0 })
          (if r.0 then acquired else acquiring)) in
      elim (Bool-cases (m.lock.semaphore.value == 0)) [
        | inl down ↦
            let zero_value : m.lock.semaphore.value ≡ 0 = ground arith in
            let b = sema_down_turn-sleeps m.kernel inv.kernel m.lock.semaphore zero_value in
            subst after (unique _ (got, (s, k)) b.1 e) (wait-IsMachine m inv b.0 at b.2 zero_value)
        | inr free ↦
            let b = sema_down_turn-takes m.kernel m.lock.semaphore free in
            subst after (unique _ (got, (s, k)) b e)
              (take-IsMachine m inv free (rw at refl) (not_idle m inv (current m) (rw at refl)))
      ]

  up_result :
      (ws : List ℕ)
      → m.place (current m) ≡ releasing
      → m.lock.semaphore.waiters ≡ ws
      → (r : Semaphore × Kernel) × (sema_up m.lock.semaphore m.kernel ≡ some r)
        × IsMachine (goes m r.1 (record (m.lock) { semaphore = r.0 }) outside)
  up_result [] at q = (_, sema_up-counts m.kernel m.lock.semaphore q, count-IsMachine m inv at q)
  up_result (w ∷ ws) at q =
      let front = front_waiter m inv at w ws q in
      let other = not_idle m inv w (acquiring_not_outside (m.place w) front.1) in
      let b =
        sema_up-wakes m.kernel inv.kernel m.lock.semaphore w ws q front.0 (λ e. ground arith) in
      (_, b.1, hand_over-IsMachine m inv at w ws b.0 q b.2)

  up-IsMachine :
      (s : Semaphore) (k : Kernel)
      → m.place (current m) ≡ releasing
      → sema_up m.lock.semaphore m.kernel ≡ some (s, k)
      → IsMachine (goes m k (record (m.lock) { semaphore = s }) outside)
  up-IsMachine s k at e =
      let b = up_result m.lock.semaphore.waiters at refl in
      subst (λ r. IsMachine (goes m r.1 (record (m.lock) { semaphore = r.0 }) outside))
        (unique b.0 (s, k) b.1 e) b.2

  enter_result : m.place (current m) ≡ outside → lock_acquire_enter m.lock m.kernel ≡ some tt
  unfolding lock_acquire_enter lock_held_by_current_thread
  enter_result at =
      let real = cur_not_null m inv in
      let h : false ≡ (not (current m == 0) && current m == m.lock.holder) =
        sym (ap is_inside at) ∙ inv.held (current m) in
      let free : (m.lock.holder == current m) ≡ false = ground arith in rw (current_is, free) refl

  leave_result : lock_acquire_leave m.lock m.kernel ≡ some (record (m.lock) { holder = current m })
  unfolding lock_acquire_leave
  leave_result = rw current_is refl

  release_result :
      m.place (current m) ≡ inside
      → lock_release_enter m.lock m.kernel ≡ some (record (m.lock) { holder = 0 })
  unfolding lock_release_enter lock_held_by_current_thread
  release_result at =
      let h : true ≡ (not (current m == 0) && current m == m.lock.holder) =
        sym (ap is_inside at) ∙ inv.held (current m) in
      let mine : (m.lock.holder == current m) ≡ true = ground arith in rw (current_is, mine) refl

  attempt-IsMachine :
      m.place (current m) ≡ outside
      → (current m == m.kernel.idle_thread) ≡ false
      → IsMachine (
          goes m m.kernel
            (record (m.lock) { semaphore = (sema_try_down (m.lock.semaphore)).1 })
            (if (sema_try_down (m.lock.semaphore)).0 then acquired else outside))
  unfolding sema_try_down
  attempt-IsMachine at busy = elim (Bool-cases (m.lock.semaphore.value == 0)) [
    | inl down ↦ rw down (
        place-IsMachine m inv m.lock.holder outside (rw at refl) busy (rw at refl)
          (λ t. move_keeps m inv is_inside outside (rw at refl) t ∙ inv.held t))
    | inr free ↦ rw free (take-IsMachine m inv free (rw at refl) busy)
  ]

-- Every step of the machine keeps its invariant: the queues are in step, the waiters of the lock are
-- the threads that sleep in lock_acquire, once each, the value is 1 less the owners, of which there is
-- at most one, the holder is the thread between lock_acquire and lock_release, and no wakeup is lost.
pub Step-IsMachine : {m n : Machine} → Step m n → IsMachine m → IsMachine n
Step-IsMachine (enter {m} at other e) inv = enter-IsMachine m inv at other
Step-IsMachine (turn {m} {got} {s} {k} at e) inv = turn-IsMachine m inv got s k at e
Step-IsMachine (attempt {m} at other e) inv = attempt-IsMachine m inv at (ground arith)
Step-IsMachine (leave {m} {l} at e) inv =
    subst (λ r. IsMachine (goes m m.kernel r inside)) (unique _ l (leave_result m inv) e)
      (leave-IsMachine m inv at)
Step-IsMachine (release {m} {l} at e) inv =
    subst (λ r. IsMachine (goes m m.kernel r releasing)) (unique _ l (release_result m inv at) e)
      (release-IsMachine m inv at)
Step-IsMachine (up {m} {s} {k} at e) inv = up-IsMachine m inv s k at e
Step-IsMachine (yield {m} {k} e) inv = yield-IsMachine m inv k e
Step-IsMachine (sleep {m} {k} quiet e) inv = sleep-IsMachine m inv k quiet e
Step-IsMachine (wake {m} {t} {k} quiet other e) inv = wake-IsMachine m inv t k quiet other e
Step-IsMachine (exit {m} {k} at other e) inv = exit-IsMachine m inv k at other e

-- The start: every thread is outside of the lock, which lock_init has set up.
abbrev pub start : Kernel → Machine
start k = record { kernel = k; lock = lock_init; place = λ t. outside }

pub start-IsMachine : (k : Kernel) → IsKernel k → IsMachine (start k)
unfolding lock_init sema_init
start-IsMachine k wf = record {
  kernel = wf;
  waiting = λ t. ground arith;
  distinct = tt;
  owned = inl (refl, λ t. refl);
  held = λ t. ground arith;
  idle_outside = refl;
  awake = λ w v i. cc;
}

Run-IsMachine : {m n : Machine} → Run m n → IsMachine m → IsMachine n
Run-IsMachine done inv = inv
Run-IsMachine (next r s) inv = Step-IsMachine s (Run-IsMachine r inv)

module _ {k : Kernel} {m : Machine} (wf : IsKernel k) (run : Run (start k) m) where
  reached : IsMachine m
  reached = Run-IsMachine run (start-IsMachine k wf)

  -- From a kernel whose queues are in step, after lock_init and any steps: at most one thread is
  -- between the end of sema_down in lock_acquire and sema_up in lock_release.
  pub mutual_exclusion : (t u : ℕ) → owns (m.place t) ≡ true → owns (m.place u) ≡ true → t ≡ u
  mutual_exclusion t u a b = elim reached.owned [
    | inl h ↦ let x = h.1 t in cc
    | inr h ↦ let x = h.1.1 t in let y = h.1.1 u in ground arith
  ]

  -- From a kernel whose queues are in step, after lock_init and any steps: while a thread waits
  -- for the lock, another thread owns it, or one that can run is about to take it; so no wakeup is
  -- lost.
  pub no_lost_wakeup :
      (w : ℕ)
      → is_blocked (m.kernel.status w) ≡ true
      → is_acquiring (m.place w) ≡ true
      → (t : ℕ) × ((owns (m.place t) ≡ true)
          ⊎ ((is_acquiring (m.place t) ≡ true) × (can_run (m.kernel.status t) ≡ true)))
  no_lost_wakeup w asleep wants = elim reached.owned [
    | inl h ↦
        let i = reached.waiting w in
        let a = reached.awake w h.0 (ground arith) in (a.0, inr (a.1, a.2))
    | inr h ↦ (h.1.0, inl (h.1.1 h.1.0 ∙ ==_refl h.1.0))
  ]

  -- From a kernel whose queues are in step, after lock_init and any steps:
  -- lock_held_by_current_thread succeeds, and says whether the running thread is between
  -- lock_acquire and lock_release.
  pub held-is_inside :
      lock_held_by_current_thread m.lock m.kernel ≡ some (is_inside (m.place (current m)))
  unfolding lock_held_by_current_thread
  held-is_inside =
      let h = reached.held (current m) in
      let real = cur_not_null m reached in
      rw (current_is m reached, h, real) (ap some (==_sym m.lock.holder (current m)))

-- The call that the running thread makes next succeeds.
abbrev pub Succeeds : Machine → Place → Type 0
Succeeds m outside = lock_acquire_enter m.lock m.kernel ≡ some tt
Succeeds m acquiring =
    (r : Bool × (Semaphore × Kernel)) × (sema_down_turn m.lock.semaphore m.kernel ≡ some r)
Succeeds m acquired = (l : Lock) × (lock_acquire_leave m.lock m.kernel ≡ some l)
Succeeds m inside = (l : Lock) × (lock_release_enter m.lock m.kernel ≡ some l)
Succeeds m releasing = (r : Semaphore × Kernel) × (sema_up m.lock.semaphore m.kernel ≡ some r)

module _ (m : Machine) (inv : IsMachine m) where
  turn_result : Succeeds m acquiring
  turn_result = elim (Bool-cases (m.lock.semaphore.value == 0)) [
    | inl down ↦
        let b = sema_down_turn-sleeps m.kernel inv.kernel m.lock.semaphore (ground arith) in
        (_, b.1)
    | inr free ↦ (_, sema_down_turn-takes m.kernel m.lock.semaphore free)
  ]

  current-Succeeds : (p : Place) → m.place (current m) ≡ p → Succeeds m p
  current-Succeeds outside at = enter_result m inv at
  current-Succeeds acquiring at = turn_result
  current-Succeeds acquired at = (_, leave_result m inv)
  current-Succeeds inside at = (_, release_result m inv at)
  current-Succeeds releasing at =
      let b = up_result m inv m.lock.semaphore.waiters at refl in (b.0, b.1)

-- From a kernel whose queues are in step, after lock_init and any steps: no ASSERT fails in the call
-- of lock_acquire or lock_release that the running thread makes or is in.
pub no_assert_fails :
    {k : Kernel} {m : Machine} (wf : IsKernel k) (run : Run (start k) m)
    → Succeeds m (m.place (current m))
no_assert_fails {m = m} wf run = current-Succeeds m (reached wf run) (m.place (current m)) refl
