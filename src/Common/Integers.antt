-- ===== src/Common/Integers.antt =====
-- Integers over the native numbers, and the two's complement words that stand for them.
use Prim.Native.Nat.{ℕ, zero, suc, ◌+◌, ◌-◌, ◌/◌, ◌%◌, ◌^◌, ◌≤◌}
use mathlib.Core.Path.{◌≡◌, refl, ap}
use mathlib.Core.Bool.{true, false}
use native.Mathlib.Omega.{arith}
use tiny_os.Common.Tests.{ltb, if◌then◌else◌}

pub data ℤ : Type 0 where
  pos : ℕ → ℤ
  negsuc : ℕ → ℤ

abbrev pub neg : ℕ → ℤ
neg zero = pos 0
neg (suc n) = negsuc n

-- Division that cuts off towards 0, as in C.
infixl 70 ◌/ℤ◌
abbrev pub ◌/ℤ◌ : ℤ → ℤ → ℤ
pos a /ℤ pos b = pos (a / b)
pos a /ℤ negsuc b = neg (a / (b + 1))
negsuc a /ℤ pos b = neg ((a + 1) / b)
negsuc a /ℤ negsuc b = pos ((a + 1) / (b + 1))

-- The number that a word of 64 bits stands for.
abbrev pub signed64 : ℕ → ℤ
signed64 w = if ltb w (2 ^ 63) then pos w else negsuc (2 ^ 64 - w - 1)

pub signed64-pos : (q : ℕ) → ltb q (2 ^ 63) ≡ true → signed64 q ≡ pos q
signed64-pos q h = rw h refl

pub signed64-neg : (q : ℕ) → q ≤ 2 ^ 63 → signed64 ((2 ^ 64 - q) % 2 ^ 64) ≡ neg q
signed64-neg zero h = refl
signed64-neg (suc q) h =
    let high : ltb ((2 ^ 64 - suc q) % 2 ^ 64) (2 ^ 63) ≡ false = ground arith in
    let back : 2 ^ 64 - (2 ^ 64 - suc q) % 2 ^ 64 - 1 ≡ q = omega arith in rw high (ap negsuc back)
