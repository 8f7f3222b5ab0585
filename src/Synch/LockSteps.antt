-- ===== src/Synch/LockSteps.antt =====
-- The steps of lock_acquire, lock_try_acquire and lock_release keep the invariant of the machine.
use tiny_os.Common.{
  ℕ, ◌≡◌, ◌≢◌, refl, ap, ◌∙◌, Bool, true, false, not, ◌&&◌, ◌==◌, arith, Bool-cases, inl, inr,
  ==_refl,
}
use tiny_os.Common.Members.{has}
use tiny_os.Thread.{is_blocked, is_running}
use tiny_os.Synch.Machine.{
  Place, outside, acquiring, acquired, inside, releasing, is_acquiring, is_inside, owns, Machine,
  current, move, goes,
}
use tiny_os.Synch.Invariant.{can_run-awake, running-can_run, Owned, IsMachine}
use tiny_os.Synch.KernelSteps.{not_idle, current_other}

pub not_inside : (p : Place) → owns p ≡ false → is_inside p ≡ false
not_inside p h = ground arith

module _ (m : Machine) (inv : IsMachine m) where
  pub cur_running : is_running (m.kernel.status (current m)) ≡ true
  cur_running = inv.kernel.alone (current m) ∙ ==_refl (current m)

  pub cur_not_waiting : has (current m) m.lock.semaphore.waiters ≡ false
  cur_not_waiting = let w = inv.waiting (current m) in let r = cur_running in ground arith

  pub cur_not_null : (current m == 0) ≡ false
  cur_not_null =
      let r = cur_running in
      let l = inv.kernel.queue.threads (current m) (ground arith) in ground arith

  -- A test that the old and the new place of the running thread pass alike.
  pub move_keeps :
      (f : Place → Bool) (p : Place)
      → f p ≡ f (m.place (current m))
      → (t : ℕ) → f (move m.place (current m) p t) ≡ f (m.place t)
  move_keeps f p e t = elim (Bool-cases (current m == t)) [
    | inl here ↦
        let same : current m ≡ t = ground arith in rw here (e ∙ ap (λ u. f (m.place u)) same)
    | inr there ↦ rw there refl
  ]

  -- A thread that owns the lock is the only one, and the semaphore is down.
  pub sole_owner :
      owns (m.place (current m)) ≡ true
      → (m.lock.semaphore.value ≡ 0) × ((t : ℕ) → owns (m.place t) ≡ (t == current m))
  sole_owner mine = elim inv.owned [
    | inl h ↦ let out = h.1 (current m) in cc
    | inr h ↦
        let is_me = h.1.1 (current m) in
        let same : h.1.0 ≡ current m = ground arith in (h.0, λ t. h.1.1 t ∙ ap (λ o. t == o) same)
  ]

  -- Where the running thread goes is no matter for who waits.
  pub moved_waiting :
      (p : Place) (t : ℕ)
      → has t m.lock.semaphore.waiters
        ≡ (is_blocked (m.kernel.status t) && is_acquiring (move m.place (current m) p t))
  moved_waiting p t =
      let w = inv.waiting t in
      let r = inv.kernel.alone t in
      elim (Bool-cases (current m == t)) [
        | inl here ↦
            let b =
              can_run-awake (m.kernel.status t)
                (running-can_run (m.kernel.status t) (ground arith)) in
            rw b (ground arith)
        | inr there ↦ rw there w
      ]

  pub other_acquirer :
      (p : Place) (t : ℕ)
      → is_acquiring (m.place (current m)) ≡ false
      → is_acquiring (m.place t) ≡ true
      → is_acquiring (move m.place (current m) p t) ≡ true
  other_acquirer p t quiet a =
      let o = current_other m inv t quiet a in
      let o' : (current m == t) ≡ false = ground arith in rw o' a

  -- A move that keeps who owns the lock.
  pub Owned-move :
      (v : ℕ) (p : Place)
      → owns p ≡ owns (m.place (current m))
      → Owned v m.place
      → Owned v (move m.place (current m) p)
  Owned-move v p e (inl h) = inl (h.0, λ t. move_keeps owns p e t ∙ h.1 t)
  Owned-move v p e (inr h) = inr (h.0, (h.1.0, λ t. move_keeps owns p e t ∙ h.1.1 t))

  -- The running thread goes on without touching the semaphore.
  pub place-IsMachine :
      (h : ℕ) (p : Place)
      → is_acquiring (m.place (current m)) ≡ false
      → (current m == m.kernel.idle_thread) ≡ false
      → owns p ≡ owns (m.place (current m))
      → ((t : ℕ) → is_inside (move m.place (current m) p t) ≡ (not (t == 0) && t == h))
      → IsMachine (goes m m.kernel (record (m.lock) { holder = h }) p)
  place-IsMachine h p quiet busy same_owner held = record {
    kernel = inv.kernel;
    waiting = moved_waiting p;
    distinct = inv.distinct;
    owned = Owned-move m.lock.semaphore.value p same_owner inv.owned;
    held = held;
    idle_outside = let i = inv.idle_outside in rw busy i;
    awake = λ w v i. let a = inv.awake w v i in (a.0, other_acquirer p a.0 quiet a.1, a.2);
  }

  pub enter-IsMachine :
      m.place (current m) ≡ outside
      → current m ≢ m.kernel.idle_thread
      → IsMachine (goes m m.kernel m.lock acquiring)
  enter-IsMachine at other =
      place-IsMachine m.lock.holder acquiring (rw at refl) (ground arith) (rw at refl)
        (λ t. move_keeps is_inside acquiring (rw at refl) t ∙ inv.held t)

  pub leave-IsMachine :
      m.place (current m) ≡ acquired
      → IsMachine (goes m m.kernel (record (m.lock) { holder = current m }) inside)
  leave-IsMachine at =
      place-IsMachine (current m) inside (rw at refl) (not_idle m inv (current m) (rw at refl))
        (rw at refl)
        (λ t.
          let alone = (sole_owner (rw at refl)).1 t in
          let real = cur_not_null in
          elim (Bool-cases (current m == t)) [
            | inl here ↦ rw here (ground arith)
            | inr there ↦ rw there (let o = not_inside (m.place t) (ground arith) in ground arith)
          ])

  pub release-IsMachine :
      m.place (current m) ≡ inside
      → IsMachine (goes m m.kernel (record (m.lock) { holder = 0 }) releasing)
  release-IsMachine at =
      place-IsMachine 0 releasing (rw at refl) (not_idle m inv (current m) (rw at refl))
        (rw at refl)
        (λ t.
          let alone = (sole_owner (rw at refl)).1 t in
          elim (Bool-cases (current m == t)) [
            | inl here ↦ rw here (ground arith)
            | inr there ↦ rw there (let o = not_inside (m.place t) (ground arith) in ground arith)
          ])
