-- ===== src/Division/Signed.antt =====
-- The signed quotient of lib/arithmetic.c.
use tiny_os.Common.{
  ℕ, ◌+◌, ◌-◌, ◌/◌, ◌^◌, ◌≤◌, ◌<◌, ◌≡◌, ◌≢◌, refl, ap, ◌∙◌, true, false, some, leb, ltb, ◌==◌,
  arith, Bool-cases, inl, inr, if◌then◌else◌, leb→le, lt→ltb, bool_eq,
}
use tiny_os.Common.Integers.{pos, neg, ◌/ℤ◌, signed64, signed64-pos, signed64-neg}
use native.Mathlib.Nat.{div-le_self, div-lt_iff_lt-mul}
use tiny_os.Division.{sdiv64, is_negative, negate, absolute}
use tiny_os.Division.Quotient.{udiv64-quotient}

-- What sdiv64 returns for the quotient of the absolute values.
abbrev with_sign : ℕ → ℕ → ℕ → ℕ
with_sign n d q = if bool_eq (is_negative n) (is_negative d) then q else negate q

sdiv64-absolute :
    (n d : ℕ)
    → n < 2 ^ 64
    → d < 2 ^ 64
    → 0 < d
    → sdiv64 n d ≡ some (with_sign n d (absolute n / absolute d))
unfolding sdiv64
sdiv64-absolute n d big_n big_d pos_d =
    rw (udiv64-quotient (absolute n) (absolute d) (ground arith) (ground arith) (ground arith)) refl

negate_lem : (n : ℕ) → n < 2 ^ 64 → leb (2 ^ 63) n ≡ true → negate n ≡ 2 ^ 64 - n - 1 + 1
negate_lem n big h = let le = leb→le (2 ^ 63) n h in omega arith

quotient_fits : (a b : ℕ) → a ≤ 2 ^ 63 → 0 < b → (a ≡ 2 ^ 63 → b ≢ 1) → a / b < 2 ^ 63
quotient_fits a b small pos_b other = elim (Bool-cases (b == 1)) [
  | inl one ↦
      let least : b ≡ 1 = ground arith in
      let le = div-le_self a b in let away : a ≢ 2 ^ 63 = (λ e. other e least) in omega arith
  | inr more ↦ (div-lt_iff_lt-mul {k = b} pos_b).1 (ground arith)
]

-- For a divisor that is not 0, and but for the least number divided by -1, which has no quotient in 64
-- bits, sdiv64 is the division of the signed numbers that cuts off towards 0.
pub sdiv64-quotient :
    (n d : ℕ)
    → n < 2 ^ 64
    → d < 2 ^ 64
    → 0 < d
    → (n ≡ 2 ^ 63 → d ≢ 2 ^ 64 - 1)
    → (q : ℕ) × (sdiv64 n d ≡ some q) × (signed64 q ≡ signed64 n /ℤ signed64 d)
sdiv64-quotient n d big_n big_d pos_d fits = (
  with_sign n d (absolute n / absolute d),
  sdiv64-absolute n d big_n big_d pos_d,
  elim (Bool-cases (leb (2 ^ 63) n)) [
    | inl nn ↦ elim (Bool-cases (leb (2 ^ 63) d)) [
      | inl nd ↦
          let nn' : ltb n (2 ^ 63) ≡ false = ground arith in
          let nd' : ltb d (2 ^ 63) ≡ false = ground arith in
          rw (nn, nd, nn', nd')
            (let ln = leb→le (2 ^ 63) n nn in
              let m = negate_lem n big_n nn in
              let ld = leb→le (2 ^ 63) d nd in
              let k = negate_lem d big_d nd in
              signed64-pos (negate n / negate d) (
                lt→ltb _ _ (
                  quotient_fits (negate n) (negate d) (omega arith) (omega arith)
                    (λ e f. fits (omega arith) (omega arith))))
              ∙ ap (λ (r : ℕ × ℕ). pos (r.0 / r.1)) (λ i. (m i, k i)))
      | inr pd ↦
          let nn' : ltb n (2 ^ 63) ≡ false = ground arith in
          let pd' : ltb d (2 ^ 63) ≡ true = ground arith in
          rw (nn, pd, nn', pd')
            (let ln = leb→le (2 ^ 63) n nn in
              let m = negate_lem n big_n nn in
              let le = div-le_self (negate n) d in
              signed64-neg (negate n / d) (omega arith) ∙ ap (λ x. neg (x / d)) m)
    ]
    | inr pn ↦ elim (Bool-cases (leb (2 ^ 63) d)) [
      | inl nd ↦
          let pn' : ltb n (2 ^ 63) ≡ true = ground arith in
          let nd' : ltb d (2 ^ 63) ≡ false = ground arith in
          rw (pn, nd, pn', nd')
            (let ld = leb→le (2 ^ 63) d nd in
              let k = negate_lem d big_d nd in
              let le = div-le_self n (negate d) in
              signed64-neg (n / negate d) (ground arith) ∙ ap (λ x. neg (n / x)) k)
      | inr pd ↦
          let pn' : ltb n (2 ^ 63) ≡ true = ground arith in
          let pd' : ltb d (2 ^ 63) ≡ true = ground arith in
          rw (pn, pd, pn', pd') (let le = div-le_self n d in signed64-pos (n / d) (ground arith))
    ]
  ],
)
