-- ===== src/Synch/Machine.antt =====
-- Threads that share one lock: each step is one stretch of code of synch.c or thread.c that runs
-- with interrupts off, taken by the thread that runs, and a timer interrupt may come between any two.
use tiny_os.Common.{ℕ, ◌≡◌, ◌≢◌, Bool, true, false, some, ◌==◌, if◌then◌else◌}
use tiny_os.Thread.{Kernel, thread_block, thread_unblock, thread_yield, exit_switch}
use tiny_os.Synch.{
  Semaphore, Lock, sema_down_turn, sema_try_down, sema_up, lock_acquire_enter, lock_acquire_leave,
  lock_release_enter,
}

-- Where a thread is: not using the lock, in sema_down of lock_acquire, past it but not yet the
-- holder, between lock_acquire and lock_release, or in lock_release before sema_up.
pub data Place : Type 0 where
  outside : Place
  acquiring : Place
  acquired : Place
  inside : Place
  releasing : Place

abbrev pub is_outside : Place → Bool
is_outside outside = true
is_outside _ = false

abbrev pub is_acquiring : Place → Bool
is_acquiring acquiring = true
is_acquiring _ = false

abbrev pub is_inside : Place → Bool
is_inside inside = true
is_inside _ = false

-- The places of a thread that has taken the semaphore down and not yet up.
abbrev pub owns : Place → Bool
owns acquired = true
owns inside = true
owns releasing = true
owns _ = false

pub record Machine : Type 0 where
  pub kernel : Kernel
  pub lock : Lock
  pub place : ℕ → Place

abbrev pub current : Machine → ℕ
current m = m.kernel.running_thread

abbrev pub move : (ℕ → Place) → ℕ → Place → ℕ → Place
move f t p u = if t == u then p else f u

-- The machine after the running thread went on to the place `p`.
abbrev pub goes : Machine → Kernel → Lock → Place → Machine
goes m k l p = record { kernel = k; lock = l; place = move m.place (current m) p }

-- A step may only be taken where no ASSERT of it fails.
pub data Step : Machine → Machine → Type 0 where
  enter :
      {m : Machine}
      → m.place (current m) ≡ outside
      → current m ≢ m.kernel.idle_thread
      → lock_acquire_enter m.lock m.kernel ≡ some tt
      → Step m (goes m m.kernel m.lock acquiring)
  turn :
      {m : Machine} {got : Bool} {s : Semaphore} {k : Kernel}
      → m.place (current m) ≡ acquiring
      → sema_down_turn m.lock.semaphore m.kernel ≡ some (got, (s, k))
      → Step m (goes m k (record (m.lock) { semaphore = s }) (if got then acquired else acquiring))
  attempt :
      {m : Machine}
      → m.place (current m) ≡ outside
      → current m ≢ m.kernel.idle_thread
      → lock_acquire_enter m.lock m.kernel ≡ some tt
      → Step m (
          goes m m.kernel
            (record (m.lock) { semaphore = (sema_try_down (m.lock.semaphore)).1 })
            (if (sema_try_down (m.lock.semaphore)).0 then acquired else outside))
  leave :
      {m : Machine} {l : Lock}
      → m.place (current m) ≡ acquired
      → lock_acquire_leave m.lock m.kernel ≡ some l
      → Step m (goes m m.kernel l inside)
  release :
      {m : Machine} {l : Lock}
      → m.place (current m) ≡ inside
      → lock_release_enter m.lock m.kernel ≡ some l
      → Step m (goes m m.kernel l releasing)
  up :
      {m : Machine} {s : Semaphore} {k : Kernel}
      → m.place (current m) ≡ releasing
      → sema_up m.lock.semaphore m.kernel ≡ some (s, k)
      → Step m (goes m k (record (m.lock) { semaphore = s }) outside)
  yield :
      {m : Machine} {k : Kernel} → thread_yield m.kernel ≡ some k → Step m (record m { kernel = k })
  sleep :
      {m : Machine} {k : Kernel}
      → is_acquiring (m.place (current m)) ≡ false
      → thread_block m.kernel ≡ some k
      → Step m (record m { kernel = k })
  wake :
      {m : Machine} {t : ℕ} {k : Kernel}
      → is_acquiring (m.place t) ≡ false
      → t ≢ m.kernel.idle_thread
      → thread_unblock t m.kernel ≡ some k
      → Step m (record m { kernel = k })
  exit :
      {m : Machine} {k : Kernel}
      → m.place (current m) ≡ outside
      → current m ≢ m.kernel.idle_thread
      → exit_switch m.kernel ≡ some k
      → Step m (record m { kernel = k })

pub data Run : Machine → Machine → Type 0 where
  done : {m : Machine} → Run m m
  next : {m n o : Machine} → Run m n → Step n o → Run m o
