-- ===== src/Strings/Moves.antt =====
-- memmove of lib/string.c on blocks that may overlap.
use tiny_os.Common.{
  ℕ, zero, suc, ◌+◌, ◌-◌, ◌≤◌, ◌<◌, ◌≡◌, ◌≢◌, refl, ap, ◌∙◌, true, false, ◌&&◌, some, ◌==◌, ltb,
  leb, if◌then◌else◌, arith, Bool-cases, inl, inr,
}
use tiny_os.Strings.{Bytes, write, forward_loop, backward_loop, memmove}

-- The block of `size` bytes at `dst` holds what the one at `src` held before, and nothing else
-- has changed.
abbrev pub copied : Bytes → ℕ → ℕ → ℕ → Bytes
copied m dst src size a = if leb dst a && ltb a (dst + size) then m (src + (a - dst)) else m a

write_other : (m : Bytes) (p b a : ℕ) → (p == a) ≡ false → write m p b a ≡ m a
write_other m p b a h = rw h refl

forward_loop-copied :
    (n dst src : ℕ) (m : Bytes) (a : ℕ)
    → dst < src
    → (forward_loop n dst src m).1 a ≡ copied m dst src n a
unfolding forward_loop
forward_loop-copied zero dst src m a h =
    let out : (leb dst a && ltb a (dst + 0)) ≡ false = ground arith in rw out refl
forward_loop-copied (suc n) dst src m a h =
    let m1 = write m dst (m src) in
    let ih = forward_loop-copied n (dst + 1) (src + 1) m1 a (omega arith) in
    elim (Bool-cases (leb (dst + 1) a && ltb a (dst + 1 + n))) [
      | inl later ↦
          let now : (leb dst a && ltb a (dst + suc n)) ≡ true = ground arith in
          let away : (dst == src + 1 + (a - (dst + 1))) ≡ false = ground arith in
          let place : src + 1 + (a - (dst + 1)) ≡ src + (a - dst) = ground arith in
          rw now (
            ih ∙ rw later (write_other m dst (m src) (src + 1 + (a - (dst + 1))) away ∙ ap m place))
      | inr other ↦ elim (Bool-cases (dst == a)) [
        | inl first ↦
            let now : (leb dst a && ltb a (dst + suc n)) ≡ true = ground arith in
            let place : src ≡ src + (a - dst) = ground arith in
            rw now (ih ∙ rw (other, first) (ap m place))
        | inr out ↦
            let now : (leb dst a && ltb a (dst + suc n)) ≡ false = ground arith in
            rw now (ih ∙ rw (other, out) refl)
      ]
    ]

forward_loop-end : (n dst src : ℕ) (m : Bytes) → (forward_loop n dst src m).0 ≡ dst + n
unfolding forward_loop
forward_loop-end zero dst src m = omega arith
forward_loop-end (suc n) dst src m =
    forward_loop-end n (dst + 1) (src + 1) (write m dst (m src)) ∙ omega arith

backward_loop-end : (n dst src : ℕ) (m : Bytes) → n ≤ dst → (backward_loop n dst src m).0 ≡ dst - n
unfolding backward_loop
backward_loop-end zero dst src m h = omega arith
backward_loop-end (suc n) dst src m h =
    backward_loop-end n (dst - 1) (src - 1) (write m (dst - 1) (m (src - 1))) (omega arith)
    ∙ omega arith

backward_loop-copied :
    (n dst src : ℕ) (m : Bytes) (a : ℕ)
    → n ≤ src
    → src ≤ dst
    → (backward_loop n dst src m).1 a ≡ copied m (dst - n) (src - n) n a
unfolding backward_loop
backward_loop-copied zero dst src m a h le =
    let out : (leb (dst - 0) a && ltb a (dst - 0 + 0)) ≡ false = ground arith in rw out refl
backward_loop-copied (suc n) dst src m a h le =
    let m1 = write m (dst - 1) (m (src - 1)) in
    let ih = backward_loop-copied n (dst - 1) (src - 1) m1 a (omega arith) (omega arith) in
    elim (Bool-cases (leb (dst - 1 - n) a && ltb a (dst - 1 - n + n))) [
      | inl later ↦
          let now : (leb (dst - suc n) a && ltb a (dst - suc n + suc n)) ≡ true = ground arith in
          let away : (dst - 1 == src - 1 - n + (a - (dst - 1 - n))) ≡ false = ground arith in
          let place : src - 1 - n + (a - (dst - 1 - n)) ≡ src - suc n + (a - (dst - suc n)) =
            ground arith in
          rw now (
            ih
            ∙ rw later (
                write_other m (dst - 1) (m (src - 1)) (src - 1 - n + (a - (dst - 1 - n))) away
                ∙ ap m place))
      | inr other ↦ elim (Bool-cases (dst - 1 == a)) [
        | inl first ↦
            let now : (leb (dst - suc n) a && ltb a (dst - suc n + suc n)) ≡ true = ground arith in
            let place : src - 1 ≡ src - suc n + (a - (dst - suc n)) = ground arith in
            rw now (ih ∙ rw (other, first) (ap m place))
        | inr out ↦
            let now : (leb (dst - suc n) a && ltb a (dst - suc n + suc n)) ≡ false = ground arith in
            rw now (ih ∙ rw (other, out) refl)
      ]
    ]

-- Blocks at addresses other than 0, overlapping or not: memmove fails no ASSERT, the block at `dst`
-- then holds what the block at `src` held, and no other byte has changed. The pointer returned is
-- `dst` when the blocks are copied from behind, but `dst + size` when `dst` is below `src`.
pub memmove-copied :
    (dst src size : ℕ) (m : Bytes)
    → dst ≢ 0
    → src ≢ 0
    → (m' : Bytes) × (memmove dst src size m ≡ some (if ltb dst src then dst + size else dst, m'))
      × ((a : ℕ) → m' a ≡ copied m dst src size a)
unfolding memmove
memmove-copied dst src size m real_dst real_src =
    let d : (dst == 0) ≡ false = ground arith in
    let s : (src == 0) ≡ false = ground arith in
    elim (Bool-cases (ltb dst src)) [
      | inl up ↦ (
        (forward_loop size dst src m).1,
        rw (d, s, up)
            (ap (λ p. some (p, (forward_loop size dst src m).1)) (forward_loop-end size dst src m)),
        λ a. forward_loop-copied size dst src m a (ground arith),
      )
      | inr down ↦
          let loop = backward_loop size (dst + size) (src + size) m in
          let back_d : dst + size - size ≡ dst = omega arith in
          let back_s : src + size - size ≡ src = omega arith in
          (
            loop.1,
            rw (d, s, down)
                (ap (λ p. some (p, loop.1))
                  (backward_loop-end size (dst + size) (src + size) m (omega arith) ∙ back_d)),
            λ a.
                backward_loop-copied size (dst + size) (src + size) m a (omega arith) (ground arith)
                ∙ ap (λ (p : ℕ × ℕ). copied m p.0 p.1 size a) (λ i. (back_d i, back_s i)),
          )
    ]
