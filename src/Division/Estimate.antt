-- ===== src/Division/Estimate.antt =====
-- The estimate and the correction of the long division of lib/arithmetic.c.
use tiny_os.Common.{
  ℕ, ◌+◌, ◌-◌, ◌*◌, ◌/◌, ◌%◌, ◌^◌, ◌≤◌, ◌<◌, ◌≡◌, sym, ap, subst, true, false, leb, ltb, ◌==◌,
  arith, Bool-cases, inl, inr, if◌then◌else◌,
}
use native.Mathlib.Nat.{
  mul-le-mul_left, mul-le-mul_right, lt-mul-div-succ, mul-div-le, div-lt_iff_lt-mul,
  le-div_iff_mul-le, div-le_self,
}

slack_lem :
    (q h c : ℕ) → 0 < h → q * h < 2 ^ 32 → 1 ≤ q → h * 2 ^ 32 ≤ c → 2 * (q * h) + 2 * h ≤ c + q + 1
slack_lem q h c pos few some_q big = elim (Bool-cases (leb h 1)) [
  | inl le ↦
      let one : h ≡ 1 = ground arith in
      let few_q = subst (λ k. q * k < 2 ^ 32) one few in
      let big_1 = subst (λ k. k * 2 ^ 32 ≤ c) one big in
      subst (λ k. 2 * (q * k) + 2 * k ≤ c + q + 1) (sym one) (omega arith)
  | inr more ↦ let two : 2 ≤ h = ground arith in omega arith
]

-- The estimate of the long division: dividing by `D`, the divisor without its low bits, gives the
-- quotient or one more. The low bits are those below `2 * h`, and the divisor has
-- between 32 and 64 bits.
module _ (n d h : ℕ) (pos_h : 0 < h) (pos_q : d ≤ n) (big_n : n < 2 ^ 64)
    (big_d : h * 2 ^ 32 ≤ d) where
  unfoldable pub cut : ℕ
  cut = 2 * h * (d / (2 * h))

  cut_le : cut ≤ d
  unfolding cut
  cut_le = mul-div-le d (2 * h)

  cut_gt : d < cut + 2 * h
  unfolding cut
  cut_gt = let a = lt-mul-div-succ d {b = 2 * h} (omega arith) in omega arith

  cut_big : h * 2 ^ 32 ≤ cut
  unfolding cut
  cut_big =
      let many : 2 ^ 31 ≤ d / (2 * h) =
        (le-div_iff_mul-le {k = 2 * h} (omega arith)).1 (omega arith) in
      let a = mul-le-mul_left (2 * h) many in omega arith

  quotient_small : n / d * h < 2 ^ 32
  quotient_small =
      let q = n / d in
      let a : q * d ≤ n = (le-div_iff_mul-le {k = d} (omega arith)).0 (omega arith) in
      let b = mul-le-mul_left q big_d in omega arith

  pub estimate_ge : n / d ≤ n / cut
  estimate_ge =
      let a : n / d * d ≤ n = (le-div_iff_mul-le {k = d} (omega arith)).0 (omega arith) in
      let b = mul-le-mul_left (n / d) cut_le in
      let c = cut_big in (le-div_iff_mul-le {k = cut} (omega arith)).1 (omega arith)

  pub estimate_le : n / cut ≤ n / d + 1
  estimate_le =
      let q = n / d in
      let c = cut_big in
      let above : n < d * (q + 1) = lt-mul-div-succ n (omega arith) in
      let wide = mul-le-mul_right (q + 1) cut_gt in
      let some_q : 1 ≤ q = (le-div_iff_mul-le {k = d} (omega arith)).1 (omega arith) in
      let few = quotient_small in
      let slack : 2 * (q * h) + 2 * h ≤ cut + q + 1 = slack_lem q h cut pos_h few some_q c in
      let below : n / cut < q + 2 = (div-lt_iff_lt-mul {k = cut} (omega arith)).1 (omega arith) in
      omega arith

suc_pred : (x : ℕ) → 1 ≤ x → x ≡ x - 1 + 1
suc_pred x h = omega arith

pub wrapped : (n p : ℕ) → p ≤ n → n < 2 ^ 64 → (n + 2 ^ 64 - p % 2 ^ 64) % 2 ^ 64 ≡ n - p
wrapped n p le big = omega arith

-- The correction: an estimate that is the quotient or one more becomes the quotient.
pub corrected :
    (n d q : ℕ)
    → 0 < d
    → d ≤ n
    → n < 2 ^ 64
    → n / d ≤ q
    → q ≤ n / d + 1
    → (let less = (q + 2 ^ 64 - 1) % 2 ^ 64 in
        (if ltb ((n + 2 ^ 64 - less * d % 2 ^ 64) % 2 ^ 64) d then less else q) ≡ n / d)
corrected n d q pos le big ge few =
    let some_q : 1 ≤ n / d = (le-div_iff_mul-le {k = d} pos).1 (omega arith) in
    let least = div-le_self n d in
    let under : (q + 2 ^ 64 - 1) % 2 ^ 64 ≡ q - 1 = omega arith in
    let a = mul-div-le n d in
    let b = lt-mul-div-succ n pos in
    let c = mul-le-mul_right d few in
    let e = mul-le-mul_right d ge in
    elim (Bool-cases (q == n / d)) [
      | inl exact ↦
          let same : q ≡ n / d = ground arith in
          let next = ap (λ x. d * x) (suc_pred (n / d) some_q) in
          let before = ap (λ x. (x - 1) * d) same in
          let up : ltb ((n + 2 ^ 64 - (q - 1) * d % 2 ^ 64) % 2 ^ 64) d ≡ false =
            rw (wrapped n ((q - 1) * d) (omega arith) big) (ground arith) in
          rw (under, up) same
      | inr more ↦
          let same : q - 1 ≡ n / d = ground arith in
          let down : ltb ((n + 2 ^ 64 - (q - 1) * d % 2 ^ 64) % 2 ^ 64) d ≡ true =
            rw (same, wrapped n (n / d * d) (omega arith) big) (ground arith) in
          rw (under, down) same
    ]
