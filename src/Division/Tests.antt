-- ===== src/Division/Tests.antt =====
-- Divisions of lib/arithmetic.c on large numbers.
use tiny_os.Common.{ℕ, ◌+◌, ◌-◌, ◌/◌, ◌^◌, ◌≡◌, some, refl, arith}
use tiny_os.Common.Integers.{◌/ℤ◌, signed64}
use tiny_os.Division.{udiv64, umod64, sdiv64}
use tiny_os.Division.Quotient.{udiv64-quotient}
use tiny_os.Division.Signed.{sdiv64-quotient}

-- A divisor of 40 bits.
udiv64-quotient_example : udiv64 (2 ^ 63 + 5) (2 ^ 39 + 1) ≡ some ((2 ^ 63 + 5) / (2 ^ 39 + 1))
udiv64-quotient_example =
    udiv64-quotient (2 ^ 63 + 5) (2 ^ 39 + 1) (omega arith) (omega arith) (omega arith)

lost_bits : umod64 (2 ^ 32) (2 ^ 33) ≡ some 0
unfolding umod64 udiv64
lost_bits = refl

-- -7 / 2
sdiv64-quotient_example :
    (q : ℕ) × (sdiv64 (2 ^ 64 - 7) 2 ≡ some q) × (signed64 q ≡ signed64 (2 ^ 64 - 7) /ℤ signed64 2)
sdiv64-quotient_example =
    sdiv64-quotient (2 ^ 64 - 7) 2 (omega arith) (omega arith) (omega arith) (λ e. omega arith)
