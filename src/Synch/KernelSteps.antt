-- ===== src/Synch/KernelSteps.antt =====
-- The steps of the machine that leave the lock alone keep its invariant.
use tiny_os.Common.{
  ℕ, ◌≡◌, ◌≢◌, refl, ap, subst, ◌∙◌, true, false, Option, some, ◌==◌, arith, Bool-cases, inl, inr,
}
use tiny_os.Thread.{
  Kernel, ready, blocked, dying, thread_block, thread_unblock, thread_yield, exit_switch,
}
use tiny_os.Thread.Switches.{
  yielding, thread_yield-Switched, exit_switch-Switched, thread_block-Switched,
  thread_unblock-Woken, unblock_asleep,
}
use tiny_os.Synch.Machine.{outside, is_outside, is_acquiring, Machine, current}
use tiny_os.Synch.Invariant.{IsMachine, kernel_changes, switch_same, yield_same, ready_same}

pub unique {ℓ} : {A : Type ℓ} {o : Option A} (a b : A) → o ≡ some a → o ≡ some b → a ≡ b
unique a b p q = cc

module _ (m : Machine) (inv : IsMachine m) where
  pub not_idle : (t : ℕ) → is_outside (m.place t) ≡ false → (t == m.kernel.idle_thread) ≡ false
  not_idle t h =
      let i = inv.idle_outside in
      elim (Bool-cases (t == m.kernel.idle_thread)) [
        | inl e ↦
            let same : t ≡ m.kernel.idle_thread = ground arith in
            cc (ap (λ u. is_outside (m.place u)) same)
        | inr o ↦ o
      ]

  acquiring_not_idle :
      (t : ℕ) → is_acquiring (m.place t) ≡ true → (t == m.kernel.idle_thread) ≡ false
  acquiring_not_idle t a = not_idle t (ground arith)

  pub yield-IsMachine :
      (k : Kernel) → thread_yield m.kernel ≡ some k → IsMachine (record m { kernel = k })
  yield-IsMachine k e =
      let y = thread_yield-Switched m.kernel inv.kernel in
      subst (λ j. IsMachine (record m { kernel = j })) (unique y.0 k y.1 e)
        (kernel_changes m y.0 inv y.2.kernel y.2.idle_same (λ t a.
          switch_same m.kernel inv.kernel ready (yielding m.kernel inv.kernel) y.0 y.2
            (yield_same m.kernel inv.kernel) t (acquiring_not_idle t a) (λ c. refl)))

  pub current_other :
      (t : ℕ)
      → is_acquiring (m.place (current m)) ≡ false
      → is_acquiring (m.place t) ≡ true
      → (t == current m) ≡ false
  current_other t c a = elim (Bool-cases (t == current m)) [
    | inl e ↦
        let same : t ≡ current m = ground arith in cc (ap (λ u. is_acquiring (m.place u)) same)
    | inr o ↦ o
  ]

  pub sleep-IsMachine :
      (k : Kernel)
      → is_acquiring (m.place (current m)) ≡ false
      → thread_block m.kernel ≡ some k
      → IsMachine (record m { kernel = k })
  sleep-IsMachine k c e =
      let y = thread_block-Switched m.kernel inv.kernel in
      subst (λ j. IsMachine (record m { kernel = j })) (unique y.0 k y.1 e)
        (kernel_changes m y.0 inv y.2.kernel y.2.idle_same (λ t a.
          let o = current_other t c a in
          switch_same m.kernel inv.kernel blocked m.kernel.ready_list y.0 y.2
            (ready_same m.kernel inv.kernel) t (acquiring_not_idle t a) (λ p. cc)))

  pub exit-IsMachine :
      (k : Kernel)
      → m.place (current m) ≡ outside
      → current m ≢ m.kernel.idle_thread
      → exit_switch m.kernel ≡ some k
      → IsMachine (record m { kernel = k })
  exit-IsMachine k c other e =
      let y = exit_switch-Switched m.kernel inv.kernel other in
      subst (λ j. IsMachine (record m { kernel = j })) (unique y.0 k y.1 e)
        (kernel_changes m y.0 inv y.2.kernel y.2.idle_same (λ t a.
          let o = current_other t (rw c refl) a in
          switch_same m.kernel inv.kernel dying m.kernel.ready_list y.0 y.2
            (ready_same m.kernel inv.kernel) t (acquiring_not_idle t a) (λ p. cc)))

  pub wake-IsMachine :
      (w : ℕ) (k : Kernel)
      → is_acquiring (m.place w) ≡ false
      → w ≢ m.kernel.idle_thread
      → thread_unblock w m.kernel ≡ some k
      → IsMachine (record m { kernel = k })
  wake-IsMachine w k c other e =
      let asleep = unblock_asleep m.kernel w k e in
      let y = thread_unblock-Woken m.kernel w inv.kernel asleep other in
      subst (λ j. IsMachine (record m { kernel = j })) (unique y.0 k y.1 e)
        (kernel_changes m y.0 inv y.2.kernel y.2.idle_same (λ t a.
          let away : (w == t) ≡ false = elim (Bool-cases (w == t)) [
            | inl same ↦ let s : w ≡ t = ground arith in cc (ap (λ u. is_acquiring (m.place u)) s)
            | inr o ↦ o
          ] in
          let st : y.0.status t ≡ m.kernel.status t = y.2.statuses t ∙ rw away refl in
          rw st (refl, refl)))
