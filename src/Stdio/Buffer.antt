-- ===== src/Stdio/Buffer.antt =====
-- The buffer of format_integer of lib/stdio.c is large enough for every 64-bit number.
use tiny_os.Common.{
  ℕ, zero, suc, ◌+◌, ◌-◌, ◌*◌, ◌/◌, ◌%◌, ◌^◌, ◌≤◌, ◌<◌, ◌≡◌, ◌⊎◌, inl, inr, refl, Bool, false, ◌&&◌,
  some, List, [], ◌∷◌, ◌==◌, ltb, if◌then◌else◌, length, arith, Bool-cases,
}
use tiny_os.Stdio.{
  PrintfConversion, IntegerBase, digits_loop, rendered_precision, zeros_loop, lacks_zero, buffer,
}

-- The bases that printf uses.
abbrev pub IsBase : IntegerBase → Type 0
IsBase b = (b.base ≡ 8) ⊎ ((b.base ≡ 10) ⊎ (b.base ≡ 16))

-- Numbers below this have at most so many digits in each base.
abbrev pub limit : ℕ → ℕ
limit zero = 1
limit (suc k) = 8 * limit k

quotient-limit :
    (b : IntegerBase) (k value : ℕ) → IsBase b → value < 8 * limit k → value / b.base < limit k
quotient-limit b k value (inl e) h = rw e (omega arith)
quotient-limit b k value (inr (inl e)) h = rw e (omega arith)
quotient-limit b k value (inr (inr e)) h = rw e (omega arith)

pub digits_loop-length :
    (k fuel : ℕ) (grouped : Bool) (b : IntegerBase) (value cnt : ℕ) (cp : List ℕ)
    → IsBase b
    → k < fuel
    → value < limit k
    → (r : List ℕ) × (digits_loop fuel grouped b value cnt cp ≡ some r)
      × (length r ≤ length cp + 2 * k)
unfolding digits_loop
digits_loop-length k zero grouped b value cnt cp base f h = absurd (omega arith)
digits_loop-length zero (suc fuel) grouped b value cnt cp base f h =
    let e : ltb 0 value ≡ false = ground arith in (cp, rw e refl, omega arith)
digits_loop-length (suc k) (suc fuel) grouped b value cnt cp base f h =
    elim (Bool-cases (ltb 0 value)) [
      | inr e ↦ (cp, rw e refl, omega arith)
      | inl e ↦
          let comma = grouped && (ltb 0 cnt && cnt % b.group == 0) in
          let go : (b1 : Bool)
              → comma ≡ b1
              → (r : List ℕ) × (digits_loop (suc fuel) grouped b value cnt cp ≡ some r)
                × (length r ≤ length cp + 2 * suc k) =
            λ b1 c.
              let cp2 = b.digits (value % b.base) ∷ (if b1 then 44 ∷ cp else cp) in
              let r =
                digits_loop-length k fuel grouped b (value / b.base) (cnt + 1) cp2 base
                  (omega arith) (quotient-limit b k value base h) in
              let p = r.2 in (r.0, rw (c, e) r.1, (ground arith)) in
          go comma refl
    ]

pub zeros_loop-length :
    (fuel precision : ℕ) (cp : List ℕ)
    → length cp ≤ 63
    → 64 - length cp ≤ fuel
    → (r : List ℕ) × (zeros_loop fuel precision cp ≡ some r) × (length r ≤ 63)
unfolding zeros_loop
zeros_loop-length zero precision cp h f = absurd (omega arith)
zeros_loop-length (suc fuel) precision cp h f =
    elim (Bool-cases (ltb (length cp) precision && ltb (length cp) 63)) [
      | inr e ↦ (cp, rw e refl, h)
      | inl e ↦
          let r = zeros_loop-length fuel precision (48 ∷ cp) (ground arith) (ground arith) in
          (r.0, rw e r.1, r.2)
    ]

-- For every 64-bit number, in each of the bases of printf, with any flags, width and precision, the loops
-- of format_integer end and at most 64 characters are stored, which is the size of the buffer.
pub buffer-bounds :
    (c : PrintfConversion) (b : IntegerBase) (value : ℕ)
    → IsBase b
    → value < 2 ^ 64
    → (cp : List ℕ) × (buffer c b value ≡ some cp) × (length cp ≤ 64)
unfolding buffer
buffer-bounds c b value base small =
    let d =
      digits_loop-length 22 64 (c.flags.group_flag) b value 0 [] base (omega arith) (omega arith) in
    let z =
      zeros_loop-length 65 (rendered_precision c.precision) d.0 (let p = d.2 in omega arith)
        (omega arith) in
    let octal = c.flags.pound_flag && (b.base == 8 && lacks_zero z.0) in
    let bound : (t : Bool) → length (if t then 48 ∷ z.0 else z.0) ≤ 64 =
      λ t. let p = z.2 in ground arith in
    (if octal then 48 ∷ z.0 else z.0, rw (d.1, z.1) refl, bound octal)
