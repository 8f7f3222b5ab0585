-- ===== src/Intq/Transfers.antt =====
-- The calls of devices/intq.c that return without sleeping: intq_getc where there is a byte, and
-- intq_putc where there is space. The thread that waits for the change, if any, is woken.
use tiny_os.Common.{
  ℕ, suc, ◌+◌, ◌%◌, ◌≡◌, ◌≢◌, refl, sym, ap, ◌∙◌, Bool, true, false, some, [], ◌∷◌, ◌++◌, ◌==◌,
  if◌then◌else◌, length, length-append, arith, Bool-cases, inl, inr, ==_iff,
}
use tiny_os.Thread.{Kernel, ready, is_blocked, put}
use tiny_os.Thread.Scheduler.{IsKernel}
use tiny_os.Thread.Switches.{thread_unblock-Woken}
use tiny_os.Intq.{
  Intq, Waiter, for_space, for_data, returned, next_pos, intq_init, intq_empty, intq_full,
  get_waiter, put_waiter, must_wait, signal, store, intq_getc, intq_putc,
}
use tiny_os.Intq.Contents.{
  IsIntq, contents, next_pos-bound, contents-bounds, contents-read, contents-store,
}

-- A thread that waits is asleep.
abbrev pub IsWaiter : Kernel → ℕ → Type 0
IsWaiter k t = (t == 0) ≡ false → (is_blocked (k.status t) ≡ true) × (t ≢ k.idle_thread)

-- The thread `t`, if it is one, is woken, and the running thread goes on.
pub record Signalled (k : Kernel) (t : ℕ) (k' : Kernel) : Type 0 where
  pub kernel : IsKernel k'
  pub order : k'.ready_list ≡ (if t == 0 then k.ready_list else k.ready_list ++ (t ∷ []))
  pub running_same : k'.running_thread ≡ k.running_thread
  pub statuses : (u : ℕ) → k'.status u ≡ (if t == 0 then k.status u else put k.status t ready u)

untouched : (w : Waiter) (q : Intq) → get_waiter w q ≡ 0 → q ≡ put_waiter w 0 q
untouched for_space q e = rw (sym e) refl
untouched for_data q e = rw (sym e) refl

module _ (k : Kernel) (wf : IsKernel k) where
  pub signal-Signalled :
      (w : Waiter) (q : Intq)
      → IsWaiter k (get_waiter w q)
      → must_wait w q ≡ false
      → (k' : Kernel) × (signal w q k ≡ some (put_waiter w 0 q, k'))
        × Signalled k (get_waiter w q) k'
  unfolding signal
  signal-Signalled w q waiter change = elim (Bool-cases (get_waiter w q == 0)) [
    | inl nobody ↦ (
      k,
      rw (change, nobody)
          (ap (λ s. some (s, k)) (untouched w q ((==_iff (get_waiter w q) 0).0 nobody))),
      record {
        kernel = wf;
        order = rw nobody refl;
        running_same = refl;
        statuses = λ u. rw nobody refl;
      },
    )
    | inr somebody ↦
        let asleep = waiter somebody in
        let r = thread_unblock-Woken k (get_waiter w q) wf asleep.0 asleep.1 in
        (
          r.0,
          rw (change, somebody, r.1) refl,
          record {
            kernel = r.2.kernel;
            order = rw somebody r.2.order;
            running_same = r.2.running_same;
            statuses = λ u. rw somebody (r.2.statuses u);
          },
        )
  ]

  -- intq_getc of a queue that is not empty returns the oldest byte and removes it, in a handler or
  -- not, and no ASSERT fails: the thread that waits for space is woken and is no longer noted.
  pub intq_getc-removes :
      (handler : Bool) (q : Intq)
      → IsIntq q
      → IsWaiter k q.not_full
      → intq_empty q ≡ false
      → (byte : ℕ) × (q' : Intq) × (k' : Kernel) × (intq_getc handler q k
          ≡ some (returned byte, (q', k')))
        × IsIntq q'
        × (contents q ≡ byte ∷ contents q')
        × (q'.not_full ≡ 0)
        × (q'.not_empty ≡ q.not_empty)
        × Signalled k q.not_full k'
  unfolding intq_getc
  intq_getc-removes handler q iq waiter some_byte =
      let q1 = record q { tail = next_pos q.tail } in
      let iq1 : IsIntq q1 = record {
        head_bound = iq.head_bound;
        tail_bound = next_pos-bound q.tail;
      } in
      let taken = contents-read q iq some_byte in
      let size : length (contents q) ≡ suc (length (contents q1)) = ap length taken in
      let b = contents-bounds q iq in
      let b1 = contents-bounds q1 iq1 in
      let space : intq_full q1 ≡ false = ground arith in
      let r = signal-Signalled for_space q1 waiter space in
      (
        q.buf q.tail,
        put_waiter for_space 0 q1,
        r.0,
        rw (some_byte, r.1) refl,
        record { head_bound = iq.head_bound; tail_bound = next_pos-bound q.tail },
        taken,
        refl,
        refl,
        r.2,
      )

  -- intq_putc on a queue that is not full adds the low eight bits of its argument behind the other
  -- bytes, in a handler or not, and no ASSERT fails: the thread that waits for a byte is woken and
  -- is no longer noted.
  pub intq_putc-adds :
      (byte : ℕ) (handler : Bool) (q : Intq)
      → IsIntq q
      → IsWaiter k q.not_empty
      → intq_full q ≡ false
      → (q' : Intq) × (k' : Kernel) × (intq_putc byte handler q k ≡ some (returned tt, (q', k')))
        × IsIntq q'
        × (contents q' ≡ contents q ++ (byte % 256 ∷ []))
        × (q'.not_empty ≡ 0)
        × (q'.not_full ≡ q.not_full)
        × Signalled k q.not_empty k'
  unfolding intq_putc
  intq_putc-adds byte handler q iq waiter space =
      let q1 = record q { buf = store q.buf q.head (byte % 256); head = next_pos q.head } in
      let iq1 : IsIntq q1 = record {
        head_bound = next_pos-bound q.head;
        tail_bound = iq.tail_bound;
      } in
      let added = contents-store q iq (byte % 256) space in
      let size : length (contents q1) ≡ length (contents q) + 1 =
        ap length added ∙ length-append (contents q) (byte % 256 ∷ []) in
      let b1 = contents-bounds q1 iq1 in
      let some_byte : intq_empty q1 ≡ false = ground arith in
      let r = signal-Signalled for_data q1 waiter some_byte in
      (
        put_waiter for_data 0 q1,
        r.0,
        rw (space, r.1) refl,
        record { head_bound = next_pos-bound q.head; tail_bound = iq.tail_bound },
        added,
        refl,
        refl,
        r.2,
      )

-- intq_init makes an empty queue for which no thread waits.
pub intq_init-empty :
    (buf : ℕ → ℕ)
    → IsIntq (intq_init buf)
      × (contents (intq_init buf) ≡ [])
      × ((intq_init buf).not_full ≡ 0)
      × ((intq_init buf).not_empty ≡ 0)
unfolding intq_init
intq_init-empty buf =
    (record { head_bound = omega arith; tail_bound = omega arith }, refl, refl, refl)
