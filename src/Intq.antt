-- ===== src/Intq.antt =====
-- devices/intq.c: the circular queue of bytes between kernel threads and interrupt handlers. The
-- functions run with interrupts off; `handler` is intr_context (). `none` is a failed ASSERT. Where
-- a call puts the running thread to sleep, the state is the one in which the next thread runs.

pub mod Contents
pub mod Transfers
pub mod Sleeps
mod Tests
use tiny_os.Common.{ℕ, ◌+◌, ◌%◌, Bool, true, false, not, Option, none, some, ◌==◌, if◌then◌else◌}
use tiny_os.Common.Panic.{assert, ◌>>=◌, ◌>>◌}
use tiny_os.Thread.{Kernel, thread_current, thread_block, thread_unblock}
use tiny_os.Synch.{
  Lock, sema_down_turn, sema_up, lock_init, lock_acquire_enter, lock_acquire_leave,
  lock_release_enter,
}

abbrev pub intq_bufsize : ℕ
intq_bufsize = 64

-- A waiter is 0 when no thread waits.
pub record Intq : Type 0 where
  pub lock : Lock
  pub not_full : ℕ
  pub not_empty : ℕ
  pub buf : ℕ → ℕ
  pub head : ℕ
  pub tail : ℕ

-- The two members that `waiter` may point to.
pub data Waiter : Type 0 where
  for_space : Waiter
  for_data : Waiter

-- What a call came to: it returned, it sleeps in lock_acquire, or it sleeps in wait ().
pub data Outcome {ℓ} (A : Type ℓ) : Type ℓ where
  returned : A → Outcome A
  in_lock : Outcome A
  in_wait : Outcome A

-- The bytes of the buffer are those that were there before.
pub intq_init : (ℕ → ℕ) → Intq
intq_init buf = record {
  lock = lock_init;
  not_full = 0;
  not_empty = 0;
  buf = buf;
  head = 0;
  tail = 0;
}

unfoldable pub next_pos : ℕ → ℕ
next_pos pos = (pos + 1) % intq_bufsize

unfoldable pub intq_empty : Intq → Bool
intq_empty q = q.head == q.tail

unfoldable pub intq_full : Intq → Bool
intq_full q = next_pos q.head == q.tail

abbrev pub get_waiter : Waiter → Intq → ℕ
get_waiter for_space q = q.not_full
get_waiter for_data q = q.not_empty

abbrev pub put_waiter : Waiter → ℕ → Intq → Intq
put_waiter for_space t q = record q { not_full = t }
put_waiter for_data t q = record q { not_empty = t }

-- Whether a thread has to wait for what the waiter stands for.
abbrev pub must_wait : Waiter → Intq → Bool
must_wait for_space q = intq_full q
must_wait for_data q = intq_empty q

pub wait : Waiter → Bool → Intq → Kernel → Option (Intq × Kernel)
wait w handler q k = do
  assert (not handler)
  assert (must_wait w q)
  t ← thread_current k
  k1 ← thread_block k
  some (put_waiter w t q, k1)

pub signal : Waiter → Intq → Kernel → Option (Intq × Kernel)
signal w q k = do
  assert (not (must_wait w q))
  if get_waiter w q == 0
      then some (q, k)
      else (thread_unblock (get_waiter w q) k >>= λ k1. some (put_waiter w 0 q, k1))

-- The body of the loops from the call of sema_down in lock_acquire, where a thread that was put to
-- sleep there goes on, up to the point where wait () sleeps.
pub acquire_turn {ℓ} :
    {A : Type ℓ} → Waiter → Bool → Intq → Kernel → Option (Outcome A × (Intq × Kernel))
acquire_turn w handler q k = do
  r ← sema_down_turn q.lock.semaphore k
  let q1 = record q { lock = record (q.lock) { semaphore = r.1.0 } }
  if r.0
      then (lock_acquire_leave q1.lock r.1.1 >>= λ l.
          wait w handler (record q1 { lock = l }) r.1.1 >>= λ s. some (in_wait, s))
      else some (in_lock, (q1, r.1.1))

-- The body of the loops from its start.
pub sleep {ℓ} : {A : Type ℓ} → Waiter → Bool → Intq → Kernel → Option (Outcome A × (Intq × Kernel))
sleep w handler q k = do
  assert (not handler)
  lock_acquire_enter q.lock k
  acquire_turn w handler q k

-- The end of the body, after wait () has returned.
pub wake : Intq → Kernel → Option (Intq × Kernel)
wake q k = do
  l ← lock_release_enter q.lock k
  r ← sema_up l.semaphore k
  some (record q { lock = record l { semaphore = r.0 } }, r.1)

-- intq_getc from a test of its loop.
pub intq_getc : Bool → Intq → Kernel → Option (Outcome ℕ × (Intq × Kernel))
intq_getc handler q k =
    if intq_empty q
    then sleep for_data handler q k
    else (let byte = q.buf q.tail in
        signal for_space (record q { tail = next_pos q.tail }) k >>= λ r. some (returned byte, r))

abbrev pub store : (ℕ → ℕ) → ℕ → ℕ → ℕ → ℕ
store buf i byte j = if i == j then byte else buf j

-- intq_putc from a test of its loop; the argument is converted to uint8_t.
pub intq_putc : ℕ → Bool → Intq → Kernel → Option (Outcome (Unit {0}) × (Intq × Kernel))
intq_putc byte handler q k =
    if intq_full q
    then sleep for_space handler q k
    else (let q1 = record q { buf = store q.buf q.head (byte % 256); head = next_pos q.head } in
        signal for_data q1 k >>= λ r. some (returned tt, r))

-- What intq_getc does when wait () has returned.
pub getc_again : Bool → Intq → Kernel → Option (Outcome ℕ × (Intq × Kernel))
getc_again handler q k = wake q k >>= λ r. intq_getc handler r.0 r.1

-- What intq_putc does when wait () has returned.
pub putc_again : ℕ → Bool → Intq → Kernel → Option (Outcome (Unit {0}) × (Intq × Kernel))
putc_again byte handler q k = wake q k >>= λ r. intq_putc byte handler r.0 r.1
