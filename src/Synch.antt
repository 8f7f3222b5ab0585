-- ===== src/Synch.antt =====
-- threads/synch.c: semaphores and locks over the scheduler. The waiters of a semaphore are the
-- threads in its list, front first.

pub mod Machine
pub mod Invariant
pub mod Exclusion
pub mod LockSteps
pub mod SemaphoreSteps
mod Tests
pub mod KernelSteps
pub mod Semaphores
pub mod Condition
use tiny_os.Common.{
  ℕ, ◌+◌, ◌-◌, ◌%◌, ◌^◌, Bool, true, false, not, Option, none, some, List, [], ◌∷◌, ◌++◌, ◌==◌,
  if◌then◌else◌,
}
use tiny_os.Common.Panic.{assert, ◌>>=◌, ◌>>◌}
use tiny_os.Thread.{Kernel, thread_current, thread_block, thread_unblock}

pub record Semaphore : Type 0 where
  pub value : ℕ
  pub waiters : List ℕ

-- The holder is 0 when there is none.
pub record Lock : Type 0 where
  pub holder : ℕ
  pub semaphore : Semaphore

pub sema_init : ℕ → Semaphore
sema_init value = record { value = value; waiters = [] }

-- One turn of the loop of sema_down: a thread that gets the semaphore returns with `true`; one
-- that does not is put to sleep, and takes its next turn when it runs again.
unfoldable pub sema_down_turn : Semaphore → Kernel → Option (Bool × (Semaphore × Kernel))
sema_down_turn sema k =
    if sema.value == 0
    then (thread_current k >>= λ t.
        let sema1 = record sema { waiters = sema.waiters ++ (t ∷ []) } in
        thread_block k >>= λ k1. some (false, (sema1, k1)))
    else some (true, (record sema { value = sema.value - 1 }, k))

pub sema_try_down : Semaphore → Bool × Semaphore
sema_try_down sema =
    if sema.value == 0 then (false, sema) else (true, record sema { value = sema.value - 1 })

-- The value is an `unsigned`.
unfoldable pub sema_up : Semaphore → Kernel → Option (Semaphore × Kernel)
sema_up sema k = elim sema.waiters [
  | [] ↦ some (record sema { value = (sema.value + 1) % 2 ^ 32 }, k)
  | t ∷ ts ↦ thread_unblock t k >>= λ k1.
      some (record { value = (sema.value + 1) % 2 ^ 32; waiters = ts }, k1)
]

pub lock_init : Lock
lock_init = record { holder = 0; semaphore = sema_init 1 }

unfoldable pub lock_held_by_current_thread : Lock → Kernel → Option Bool
lock_held_by_current_thread lock k = thread_current k >>= λ t. some (lock.holder == t)

-- lock_acquire up to its call of sema_down.
unfoldable pub lock_acquire_enter : Lock → Kernel → Option (Unit {0})
lock_acquire_enter lock k = lock_held_by_current_thread lock k >>= λ held. assert (not held)

-- lock_acquire after sema_down has returned.
unfoldable pub lock_acquire_leave : Lock → Kernel → Option Lock
lock_acquire_leave lock k = thread_current k >>= λ t. some (record lock { holder = t })

pub lock_try_acquire : Lock → Kernel → Option (Bool × Lock)
lock_try_acquire lock k = do
  held ← lock_held_by_current_thread lock k
  assert (not held)
  t ← thread_current k
  let down = sema_try_down lock.semaphore
  some (down.0, record lock { holder = if down.0 then t else lock.holder; semaphore = down.1 })

-- lock_release up to its call of sema_up.
unfoldable pub lock_release_enter : Lock → Kernel → Option Lock
lock_release_enter lock k = do
  held ← lock_held_by_current_thread lock k
  assert held
  some (record lock { holder = 0 })
