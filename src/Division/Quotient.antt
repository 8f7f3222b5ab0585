-- ===== src/Division/Quotient.antt =====
-- The quotients of lib/arithmetic.c are those of division, and the processor never traps.
use tiny_os.Common.{
  ℕ, ◌+◌, ◌-◌, ◌*◌, ◌/◌, ◌%◌, ◌^◌, ◌≤◌, ◌<◌, ◌≡◌, sym, ap, ◌∙◌, false, ◌||◌, some, leb, ltb, ◌==◌,
  arith, Bool-cases, inl, inr, ltb→lt,
}
use native.Mathlib.Nat.{
  mod-lt, div-add-mod, mul-div-le, div-div-eq-div-mul, div-lt_iff_lt-mul, le-div_iff_mul-le,
  mul-div-mul_right, mod-eq_of_lt, mul-add-div, div-le_self, div-eq_of_lt, mod-eq-sub-mul-div,
  le_of_mul-le-mul_right, lt_of_mul-lt-mul_right, one-le-pow, mul-lt-mul_of_pos_right,
}
use tiny_os.Division.{nlz, udiv_short, udiv_long, udiv64, umod64}
use tiny_os.Division.Normalize.{pow-add, nlz-normalizes}
use tiny_os.Division.Estimate.{cut, estimate_ge, estimate_le, wrapped, corrected}

-- The short division.
udiv_short-quotient : (n d : ℕ) → 0 < d → d < 2 ^ 32 → n < 2 ^ 64 → udiv_short n d ≡ some (n / d)
unfolding udiv_short
udiv_short-quotient n d pos small big =
    let b = 2 ^ 32 in
    let n1 = n / b in
    let n0 = n % b in
    let same : d % b ≡ d = mod-eq_of_lt small in
    let real : (d == 0) ≡ false = ground arith in
    let y = b * (n1 % d) + n0 in
    let rem : n1 % d < d = mod-lt n1 pos in
    let small_y : y < b * d = omega arith in
    let exact : y % 2 ^ 64 ≡ y = mod-eq_of_lt (omega arith) in
    let fits : y / d < b = (div-lt_iff_lt-mul {k = d} pos).1 (omega arith) in
    let no_trap : leb b (y / d) ≡ false = ground arith in
    let parts = div-add-mod n1 d in
    let split : n ≡ d * (b * (n1 / d)) + y = omega arith in
    let total : n / d ≡ b * (n1 / d) + y / d =
      ap (λ x. x / d) split ∙ mul-add-div pos (b * (n1 / d)) y in
    let least : n / d ≤ n = omega (arith, div-le_self n d) in
    let whole : (y / d + b * (n1 / d)) % 2 ^ 64 ≡ n / d =
      mod-eq_of_lt (omega arith) ∙ omega arith in
    rw (same, real, exact, no_trap) (ap some whole)

module _ (n d : ℕ) (tall : 2 ^ 32 ≤ d) (le : d ≤ n) (big : n < 2 ^ 64) where
  d1 : ℕ
  d1 = d / 2 ^ 32

  normal : (nlz d1 ≤ 31) × (2 ^ 31 ≤ d1 * 2 ^ nlz d1) × (d1 * 2 ^ nlz d1 < 2 ^ 32)
  unfolding d1
  normal = nlz-normalizes (d / 2 ^ 32) (omega arith) (omega arith)

  -- The power of 2 by which the divisor exceeds 32 bits, and its shift.
  h : ℕ
  h = 2 ^ (31 - nlz d1)

  shift : ℕ
  shift = 2 ^ nlz d1

  shift-h : shift * h ≡ 2 ^ 31
  unfolding shift h
  shift-h =
      sym (pow-add 2 (nlz d1) (31 - nlz d1))
      ∙ ap (λ k. 2 ^ k) {y = 31} (let b = normal.0 in omega arith)

  shift_pos : 0 < shift
  unfolding shift
  shift_pos = one-le-pow (nlz d1) 2 (omega arith)

  h_pos : 0 < h
  unfolding h
  h_pos = one-le-pow (31 - nlz d1) 2 (omega arith)

  h-le : h ≤ d1
  unfolding shift
  h-le =
      le_of_mul-le-mul_right {k = shift} (let a = normal.1 in let e = shift-h in omega arith)
        shift_pos

  d1-lt : d1 < 2 * h
  unfolding shift
  d1-lt = lt_of_mul-lt-mul_right shift (let a = normal.2 in let e = shift-h in omega arith)

  big_d : h * 2 ^ 32 ≤ d
  unfolding d1
  big_d = let a = h-le in omega arith

  shifted : d * shift % 2 ^ 64 / 2 ^ 32 ≡ d / (2 * h)
  unfolding d1
  shifted =
      let e = shift-h in
      let a = d1-lt in
      let b : d * shift < 2 * h * 2 ^ 32 * shift =
        mul-lt-mul_of_pos_right (omega arith) shift_pos in
      let whole : d * shift % 2 ^ 64 ≡ d * shift = mod-eq_of_lt (omega arith) in
      let scale : 2 ^ 32 ≡ 2 * h * shift = omega arith in
      ap (λ x. x / 2 ^ 32) whole
      ∙ ap (λ x. d * shift / x) scale
      ∙ mul-div-mul_right d (2 * h) shift_pos

  -- The divisor of the DIVL instruction.
  top : ℕ
  top = d / (2 * h)

  top_big : 2 ^ 31 ≤ top
  unfolding top
  top_big =
      let a = big_d in
      let b = h_pos in (le-div_iff_mul-le {k = 2 * h} (omega arith)).1 (omega arith)

  no_trap : (top == 0 || leb (2 ^ 32) (n / 2 / top)) ≡ false
  no_trap =
      let a = top_big in
      let b : n / 2 / top < 2 ^ 32 = (div-lt_iff_lt-mul {k = top} (omega arith)).1 (omega arith) in
      ground arith

  estimate : n / 2 / top / h ≡ n / cut n d h h_pos le big big_d
  unfolding top cut
  estimate =
      div-div-eq-div-mul (n / 2) (d / (2 * h)) h
      ∙ div-div-eq-div-mul n 2 (d / (2 * h) * h)
      ∙ ap (λ x. n / x) {y = 2 * h * (d / (2 * h))} (omega arith)

  udiv_long-quotient : udiv_long n d ≡ some (n / d)
  unfolding udiv_long d1 shift h top
  udiv_long-quotient =
      rw (shifted, no_trap)
        (ap some (
          corrected n d (n / 2 / top / h) (omega arith) le big
            (rw estimate (estimate_ge n d h h_pos le big big_d))
            (rw estimate (estimate_le n d h h_pos le big big_d))))

-- For a divisor that is not 0, udiv64 is division: no instruction traps, in the short division or
-- in the estimate of the long one, and the quotient is exact.
pub udiv64-quotient : (n d : ℕ) → n < 2 ^ 64 → d < 2 ^ 64 → 0 < d → udiv64 n d ≡ some (n / d)
unfolding udiv64
udiv64-quotient n d big_n big_d pos = elim (Bool-cases (d / 2 ^ 32 == 0)) [
  | inl short ↦ rw short (udiv_short-quotient n d pos (ground arith) big_n)
  | inr long ↦ elim (Bool-cases (ltb n d)) [
    | inl less ↦ rw (long, less) (ap some (sym (div-eq_of_lt (ltb→lt n d less))))
    | inr more ↦ rw (long, more) (udiv_long-quotient n d (ground arith) (ground arith) big_n)
  ]
]

-- For a divisor that is not 0, umod64 returns the low 32 bits of the remainder, which is the
-- remainder for divisors up to 2 ^ 32 only.
pub umod64-low : (n d : ℕ) → n < 2 ^ 64 → d < 2 ^ 64 → 0 < d → umod64 n d ≡ some (n % d % 2 ^ 32)
unfolding umod64
umod64-low n d big_n big_d pos =
    let q = udiv64-quotient n d big_n big_d pos in
    let rest : (n + 2 ^ 64 - d * (n / d) % 2 ^ 64) % 2 ^ 64 ≡ n % d =
      wrapped n (d * (n / d)) (mul-div-le n d) big_n ∙ sym (mod-eq-sub-mul-div n d) in
    rw q (ap (λ r. some (r % 2 ^ 32)) rest)
