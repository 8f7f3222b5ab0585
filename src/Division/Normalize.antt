-- ===== src/Division/Normalize.antt =====
-- nlz of lib/arithmetic.c: the shift that brings the highest 1 of a word to its top.
use tiny_os.Common.{
  ℕ, zero, suc, ◌+◌, ◌*◌, ◌%◌, ◌^◌, ◌≤◌, ◌<◌, ◌≡◌, refl, sym, ap, ◌∙◌, leb, arith, Bool-cases, inl,
  inr, if◌then◌else◌, leb→le,
}
use native.Mathlib.Nat.{
  one-le-pow, pow-zero, add-zero, pow-suc, add-suc, mul_assoc, mul-one, mul-le-mul_right,
  mod-eq_of_lt,
}
use tiny_os.Division.{nlz_step, nlz}

pub pow-add : (x n m : ℕ) → x ^ (n + m) ≡ x ^ n * x ^ m
pow-add x n zero =
    ap (λ k. x ^ k) (add-zero n) ∙ sym (mul-one (x ^ n)) ∙ ap (λ p. x ^ n * p) (sym (pow-zero x))
pow-add x n (suc m) =
    ap (λ k. x ^ k) (add-suc n m)
    ∙ pow-suc x (n + m)
    ∙ ap (λ p. p * x) (pow-add x n m)
    ∙ mul_assoc (x ^ n) (x ^ m) x
    ∙ ap (λ p. x ^ n * p) (sym (pow-suc x m))

-- The word has been shifted by a count, without loss; it is at least `low`, and the count leaves
-- room for `rest` more.
record IsShift (x low rest : ℕ) (r : ℕ × ℕ) : Type 0 where
  same : r.1 ≡ x * 2 ^ r.0
  few : r.0 + rest ≤ 31
  large : low ≤ r.1
  fits : r.1 < 2 ^ 32

step-IsShift :
    (x bound count low rest : ℕ) (r : ℕ × ℕ)
    → (bound + 1) * 2 ^ count ≡ 2 ^ 32
    → low * 2 ^ count ≡ bound + 1
    → IsShift x low (count + rest) r
    → IsShift x (bound + 1) rest (nlz_step bound count r)
step-IsShift x bound count low rest r fit grow s = elim (Bool-cases (leb r.1 bound)) [
  | inl small ↦
      let le = leb→le r.1 bound small in
      let c = 2 ^ count in
      let some_bit : 1 ≤ c = one-le-pow count 2 (omega arith) in
      let up : r.1 * c ≤ bound * c = mul-le-mul_right c le in
      let down : low * c ≤ r.1 * c = mul-le-mul_right c s.large in
      let short : r.1 * c < 2 ^ 32 = omega arith in
      let exact : r.1 * c % 2 ^ 32 ≡ r.1 * c = mod-eq_of_lt short in
      rw (small, exact)
        (record {
          same =
              ap (λ y. y * c) s.same
              ∙ mul_assoc x (2 ^ r.0) c
              ∙ ap (λ p. x * p) (sym (pow-add 2 r.0 count));
          few = omega (arith, s.few);
          large = omega arith;
          fits = short;
        })
  | inr big ↦
      rw big
        (record { same = s.same; few = omega (arith, s.few); large = ground arith; fits = s.fits })
]

last-IsShift :
    (x : ℕ) (r : ℕ × ℕ)
    → IsShift x (2 ^ 30) 1 r
    → (let n = if leb r.1 0x7fffffff then r.0 + 1 else r.0 in
        (n ≤ 31) × (2 ^ 31 ≤ x * 2 ^ n) × (x * 2 ^ n < 2 ^ 32))
last-IsShift x r s = elim (Bool-cases (leb r.1 0x7fffffff)) [
  | inl small ↦
      let double : x * 2 ^ (r.0 + 1) ≡ r.1 * 2 =
        ap (λ p. x * p) (pow-add 2 r.0 1)
        ∙ sym (mul_assoc x (2 ^ r.0) 2)
        ∙ ap (λ y. y * 2) (sym s.same) in
      rw (small, double) (omega (arith, s.few), omega (arith, s.large), ground arith)
  | inr big ↦ let e = sym s.same in rw (big, e) (omega (arith, s.few), ground arith, s.fits)
]

-- A word that is not 0 has at most 31 leading zeros, and shifted by their number it fills 32 bits.
pub nlz-normalizes :
    (x : ℕ)
    → 0 < x
    → x < 2 ^ 32
    → (nlz x ≤ 31) × (2 ^ 31 ≤ x * 2 ^ nlz x) × (x * 2 ^ nlz x < 2 ^ 32)
unfolding nlz
nlz-normalizes x pos small =
    let s0 : IsShift x 1 31 (0, x) = record {
      same = omega arith;
      few = omega arith;
      large = pos;
      fits = small;
    } in
    let s16 = step-IsShift x 0x0000ffff 16 1 15 (0, x) refl refl s0 in
    let s8 = step-IsShift x 0x00ffffff 8 (2 ^ 16) 7 _ refl refl s16 in
    let s4 = step-IsShift x 0x0fffffff 4 (2 ^ 24) 3 _ refl refl s8 in
    let s2 = step-IsShift x 0x3fffffff 2 (2 ^ 28) 1 _ refl refl s4 in last-IsShift x _ s2
