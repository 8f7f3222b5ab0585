-- ===== src/Synch/SemaphoreSteps.antt =====
-- The steps inside sema_down, sema_try_down and sema_up keep the invariant of the machine.
use tiny_os.Common.{
  ℕ, ◌+◌, ◌-◌, ◌%◌, ◌^◌, ◌≡◌, refl, ap, sym, subst, ◌∙◌, true, false, not, ◌&&◌, List, [], ◌∷◌,
  ◌++◌, ◌==◌, arith, Bool-cases, inl, inr, ==_refl,
}
use tiny_os.Common.Members.{has, has-append, Distinct, Distinct-snoc}
use tiny_os.Thread.{pick, is_blocked, Kernel, ready, blocked}
use tiny_os.Thread.Switches.{next-other, Switched, Woken}
use tiny_os.Synch.Machine.{
  Place, outside, acquiring, acquired, releasing, is_outside, is_acquiring, is_inside, owns,
  Machine, current, move, goes,
}
use tiny_os.Synch.Invariant.{Owned, IsMachine, switch_same, ready_same}
use tiny_os.Synch.KernelSteps.{not_idle}
use tiny_os.Synch.LockSteps.{
  not_inside, cur_not_waiting, move_keeps, sole_owner, Owned-move, moved_waiting, other_acquirer,
}

pub acquiring_not_outside : (p : Place) → is_acquiring p ≡ true → is_outside p ≡ false
acquiring_not_outside p h = ground arith

module _ (m : Machine) (inv : IsMachine m) where
  -- A semaphore of value 0 has an owner; any other value is 1, and nobody owns the lock.
  pub free_lock :
      (m.lock.semaphore.value == 0) ≡ false
      → (m.lock.semaphore.value ≡ 1) × ((t : ℕ) → owns (m.place t) ≡ false)
  free_lock up = elim inv.owned [ inl h ↦ h | inr h ↦ let z = h.0 in ground arith ]

  pub take-IsMachine :
      (m.lock.semaphore.value == 0) ≡ false
      → owns (m.place (current m)) ≡ false
      → (current m == m.kernel.idle_thread) ≡ false
      → IsMachine (
          goes m m.kernel
            (record (m.lock) {
              semaphore = record (m.lock.semaphore) { value = m.lock.semaphore.value - 1 };
            })
            acquired)
  take-IsMachine up mine busy =
      let free = free_lock up in
      record {
        kernel = inv.kernel;
        waiting = moved_waiting m inv acquired;
        distinct = inv.distinct;
        owned =
            inr (
              (let v = free.0 in ground arith),
              (current m, λ t. let f = free.1 t in ground arith),
            );
        held = λ t.
            move_keeps m inv is_inside acquired (sym (not_inside (m.place (current m)) mine)) t
            ∙ inv.held t;
        idle_outside = let i = inv.idle_outside in rw busy i;
        awake = λ w v i. let one = free.0 in ground arith;
      }

  module _ (k : Kernel) (at : m.place (current m) ≡ acquiring)
      (sw : Switched m.kernel blocked m.kernel.ready_list k) where
    busy : (current m == m.kernel.idle_thread) ≡ false
    busy = not_idle m inv (current m) (rw at refl)

    sleeper_blocked : is_blocked (k.status (current m)) ≡ true
    sleeper_blocked =
        let n = next-other m.kernel inv.kernel (λ e. ground arith) in
        let o : k.running_thread ≡ (pick m.kernel.idle_thread m.kernel.ready_list).0 =
          ap (λ p. p.0) sw.order in
        let away : (k.running_thread == current m) ≡ false = ground arith in
        let st : k.status (current m) ≡ blocked =
          sw.statuses (current m) ∙ rw (away, ==_refl (current m)) refl in
        rw st refl

    sleeper_waits :
        (t : ℕ)
        → has t (m.lock.semaphore.waiters ++ (current m ∷ []))
          ≡ (is_blocked (k.status t) && is_acquiring (move m.place (current m) acquiring t))
    sleeper_waits t =
        let h = has-append t m.lock.semaphore.waiters (current m ∷ []) in
        let w = inv.waiting t in
        elim (Bool-cases (current m == t)) [
          | inl here ↦
              let same : current m ≡ t = ground arith in
              let b = subst (λ u. is_blocked (k.status u) ≡ true) same sleeper_blocked in
              rw (h, here, b) (ground arith)
          | inr there ↦ elim (Bool-cases (is_acquiring (m.place t))) [
            | inl a ↦
                let s =
                  switch_same m.kernel inv.kernel blocked m.kernel.ready_list k sw
                    (ready_same m.kernel inv.kernel) t
                    (not_idle m inv t (acquiring_not_outside (m.place t) a)) (λ e. ground arith) in
                let b = s.0 in rw (h, there, b) (ground arith)
            | inr o ↦ rw (h, there, o) (ground arith)
          ]
        ]

    pub wait-IsMachine :
        m.lock.semaphore.value ≡ 0
        → IsMachine (
            goes m k
              (record (m.lock) {
                semaphore = record (m.lock.semaphore) {
                  waiters = m.lock.semaphore.waiters ++ (current m ∷ []);
                };
              })
              acquiring)
    wait-IsMachine down = record {
      kernel = sw.kernel;
      waiting = sleeper_waits;
      distinct =
          Distinct-snoc m.lock.semaphore.waiters (current m) inv.distinct (cur_not_waiting m inv);
      owned = Owned-move m inv m.lock.semaphore.value acquiring (rw at refl) inv.owned;
      held = λ t. move_keeps m inv is_inside acquiring (rw at refl) t ∙ inv.held t;
      idle_outside = rw (sw.idle_same, busy) inv.idle_outside;
      awake = λ w v i. ground arith;
    }

module _ (m : Machine) (inv : IsMachine m) (at : m.place (current m) ≡ releasing) where
  abbrev value_after : ℕ
  value_after = (m.lock.semaphore.value + 1) % 2 ^ 32

  freed : Owned value_after (move m.place (current m) outside)
  freed =
      let o = sole_owner m inv (rw at refl) in
      let z = o.0 in
      inl (
        rw z refl,
        λ t.
            let mine = o.1 t in
            elim (Bool-cases (current m == t)) [
              | inl here ↦ rw here refl
              | inr there ↦ rw there (ground arith)
            ],
      )

  not_held :
      (t : ℕ)
      → is_inside (move m.place (current m) outside t) ≡ (not (t == 0) && t == m.lock.holder)
  not_held t = move_keeps m inv is_inside outside (rw at refl) t ∙ inv.held t

  releaser_busy : (current m == m.kernel.idle_thread) ≡ false
  releaser_busy = not_idle m inv (current m) (rw at refl)

  pub count-IsMachine :
      m.lock.semaphore.waiters ≡ []
      → IsMachine (
          goes m m.kernel
            (record (m.lock) { semaphore = record (m.lock.semaphore) { value = value_after } })
            outside)
  count-IsMachine none_wait = record {
    kernel = inv.kernel;
    waiting = moved_waiting m inv outside;
    distinct = inv.distinct;
    owned = freed;
    held = not_held;
    idle_outside = let i = inv.idle_outside in rw releaser_busy i;
    awake = λ w v i. let e = ap (has w) none_wait in cc;
  }

  -- A waiter sleeps, and is about to take the lock.
  pub front_waiter :
      (w : ℕ) (ws : List ℕ)
      → m.lock.semaphore.waiters ≡ w ∷ ws
      → (is_blocked (m.kernel.status w) ≡ true) × (is_acquiring (m.place w) ≡ true)
  front_waiter w ws q =
      let h = inv.waiting w in let e = ap (has w) q in (ground arith, ground arith)

  pub hand_over-IsMachine :
      (w : ℕ) (ws : List ℕ) (k : Kernel)
      → m.lock.semaphore.waiters ≡ w ∷ ws
      → Woken m.kernel w k
      → IsMachine (
          goes m k
            (record (m.lock) { semaphore = record { value = value_after; waiters = ws } })
            outside)
  hand_over-IsMachine w ws k q woken =
      let d = subst Distinct q inv.distinct in
      record {
        kernel = woken.kernel;
        waiting = λ t.
            let h = moved_waiting m inv outside t in
            let e = ap (has t) q in
            elim (Bool-cases (w == t)) [
              | inl here ↦
                  let same : w ≡ t = ground arith in
                  let st : k.status t ≡ ready = woken.statuses t ∙ rw here refl in
                  rw st (subst (λ u. has u ws ≡ false) same d.0)
              | inr there ↦
                  let st : k.status t ≡ m.kernel.status t = woken.statuses t ∙ rw there refl in
                  rw st (ground arith)
            ];
        distinct = d.1;
        owned = freed;
        held = not_held;
        idle_outside = rw (woken.idle_same, releaser_busy) inv.idle_outside;
        awake = λ u v i.
            let st : k.status w ≡ ready = woken.statuses w ∙ rw (==_refl w) refl in
            (w, other_acquirer m inv outside w (rw at refl) (front_waiter w ws q).1, rw st refl);
      }
