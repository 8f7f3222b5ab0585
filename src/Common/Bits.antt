-- ===== src/Common/Bits.antt =====
-- The bits of a word, and how the bitwise operators act on each of them.
use Prim.Native.Nat.{ℕ, zero, suc, ◌+◌, ◌-◌, ◌*◌, ◌/◌, ◌%◌, ◌^◌, ◌≤◌, ◌<◌, min, max}
use Prim.Native.Nat.{bit_and, bit_or, bit_xor, digits, bitwise, differ}
use Prim.Native.Nat.{bit_and-bitwise, bit_or-bitwise, bit_xor-bitwise}
use mathlib.Core.Path.{◌≡◌, refl, ap}
use mathlib.Core.Bool.{not}
use native.Mathlib.Nat.{pow-suc, one-le-pow}
use native.Mathlib.Omega.{arith}
use tiny_os.Common.Tests.{◌==◌, if◌then◌else◌}

-- Bit `k` of `w`, 0 or 1.
unfoldable pub bit : ℕ → ℕ → ℕ
bit w zero = w % 2
bit w (suc k) = bit (w / 2) k

-- The library's digit recursion carries fuel; any two amounts that suffice agree.
module _ (z : ℕ → ℕ) (f : ℕ → ℕ → ℕ) where
  enough_fuel : (n m a b : ℕ) → a ≤ n → a ≤ m → digits z f n a b ≡ digits z f m a b
  enough_fuel zero zero a b p q = refl
  enough_fuel zero (suc m) zero b p q = refl
  enough_fuel zero (suc m) (suc a) b p q = absurd (omega arith)
  enough_fuel (suc n) zero zero b p q = refl
  enough_fuel (suc n) zero (suc a) b p q = absurd (omega arith)
  enough_fuel (suc n) (suc m) zero b p q = refl
  enough_fuel (suc n) (suc m) (suc a) b p q =
      rw (enough_fuel n m (suc a / 2) (b / 2) (omega arith) (omega arith))

  lowest_digit :
      (a b : ℕ)
      → bitwise z f (suc a) b ≡ bitwise z f (suc a / 2) (b / 2) * 2 + f (suc a % 2) (b % 2)
  lowest_digit a b =
      omega (arith, enough_fuel a (suc a / 2) (suc a / 2) (b / 2) (omega arith) (omega arith))

pub bit-zero : (k : ℕ) → bit 0 k ≡ 0
unfolding bit
bit-zero zero = refl
bit-zero (suc k) = bit-zero k

bit_or_digit : (a b : ℕ) → bit_or a b ≡ bit_or (a / 2) (b / 2) * 2 + max (a % 2) (b % 2)
bit_or_digit zero b = simp bit_or-bitwise (omega arith)
bit_or_digit (suc a) b = simp bit_or-bitwise (lowest_digit (λ y. y) max a b)

bit_and_digit : (a b : ℕ) → bit_and a b ≡ bit_and (a / 2) (b / 2) * 2 + min (a % 2) (b % 2)
bit_and_digit zero b = simp bit_and-bitwise (omega arith)
bit_and_digit (suc a) b = simp bit_and-bitwise (lowest_digit (λ y. 0) min a b)

bit_xor_digit : (a b : ℕ) → bit_xor a b ≡ bit_xor (a / 2) (b / 2) * 2 + differ (a % 2) (b % 2)
bit_xor_digit zero b = simp bit_xor-bitwise (ground arith)
bit_xor_digit (suc a) b = simp bit_xor-bitwise (lowest_digit (λ y. y) differ a b)

differ-mod : (x y : ℕ) → x < 2 → y < 2 → differ x y ≡ (x + y) % 2
differ-mod zero zero p q = refl
differ-mod zero (suc zero) p q = refl
differ-mod (suc zero) zero p q = refl
differ-mod (suc zero) (suc zero) p q = refl
differ-mod (suc (suc x)) y p q = absurd (omega arith)
differ-mod x (suc (suc y)) p q = absurd (omega arith)

zero-bit_and : (b : ℕ) → bit_and 0 b ≡ 0
zero-bit_and b = bit_and-bitwise 0 b

zero-bit_xor : (b : ℕ) → bit_xor 0 b ≡ b
zero-bit_xor b = bit_xor-bitwise 0 b

zero-bit_or : (b : ℕ) → bit_or 0 b ≡ b
zero-bit_or b = bit_or-bitwise 0 b

bit_and-le : (n a b : ℕ) → a ≤ n → bit_and a b ≤ a
bit_and-le n zero b p = omega (arith, zero-bit_and b)
bit_and-le zero (suc a) b p = absurd (omega arith)
bit_and-le (suc n) (suc a) b p =
    ground (arith, bit_and_digit (suc a) b, bit_and-le n (suc a / 2) (b / 2))

bit_and-zero_bound : (n a : ℕ) → a ≤ n → bit_and a 0 ≡ 0
bit_and-zero_bound n zero p = refl
bit_and-zero_bound zero (suc a) p = absurd (omega arith)
bit_and-zero_bound (suc n) (suc a) p =
    omega (arith, bit_and_digit (suc a) 0, bit_and-zero_bound n (suc a / 2) (omega arith))

bit_and-zero : (a : ℕ) → bit_and a 0 ≡ 0
bit_and-zero a = bit_and-zero_bound a a (omega arith)

pub bit-lt_two : (w k : ℕ) → bit w k < 2
unfolding bit
bit-lt_two w zero = omega arith
bit-lt_two w (suc k) = bit-lt_two (w / 2) k

-- Each operator acts on the bits one by one.
pub bit-or : (k a b : ℕ) → bit (bit_or a b) k ≡ max (bit a k) (bit b k)
unfolding bit
bit-or zero a b = ground (arith, bit_or_digit a b)
bit-or (suc k) a b =
    let e : bit_or a b / 2 ≡ bit_or (a / 2) (b / 2) = omega (arith, bit_or_digit a b) in
    rw e (bit-or k (a / 2) (b / 2))

pub bit-and : (k a b : ℕ) → bit (bit_and a b) k ≡ min (bit a k) (bit b k)
unfolding bit
bit-and zero a b = ground (arith, bit_and_digit a b)
bit-and (suc k) a b =
    let e : bit_and a b / 2 ≡ bit_and (a / 2) (b / 2) = omega (arith, bit_and_digit a b) in
    rw e (bit-and k (a / 2) (b / 2))

pub bit-xor : (k a b : ℕ) → bit (bit_xor a b) k ≡ (bit a k + bit b k) % 2
unfolding bit
bit-xor zero a b = ground (arith, bit_xor_digit a b, differ-mod (a % 2) (b % 2))
bit-xor (suc k) a b =
    let e : bit_xor a b / 2 ≡ bit_xor (a / 2) (b / 2) =
      ground (arith, bit_xor_digit a b, differ-mod (a % 2) (b % 2)) in
    rw e (bit-xor k (a / 2) (b / 2))

-- The bits of `1 << k`.
pub bit-two_pow : (k j : ℕ) → bit (2 ^ k) j ≡ (if k == j then 1 else 0)
unfolding bit
bit-two_pow zero zero = refl
bit-two_pow zero (suc j) = ground (arith, bit-zero j)
bit-two_pow (suc k) zero = ground (arith, pow-suc 2 k)
bit-two_pow (suc k) (suc j) =
    let e : 2 ^ suc k / 2 ≡ 2 ^ k = omega (arith, pow-suc 2 k) in
    rw e (ground (arith, bit-two_pow k j))

-- The bits of `~m`, in a word of `n` bits.
pub bit-complement : (n k m : ℕ) → k < n → m < 2 ^ n → bit (2 ^ n - 1 - m) k ≡ 1 - bit m k
unfolding bit
bit-complement zero k m lt fits = absurd (omega arith)
bit-complement (suc n) zero m lt fits = omega (arith, pow-suc 2 n)
bit-complement (suc n) (suc k) m lt fits =
    let e : (2 ^ suc n - 1 - m) / 2 ≡ 2 ^ n - 1 - m / 2 = omega (arith, pow-suc 2 n) in
    rw e (bit-complement n k (m / 2) (omega arith) (omega (arith, pow-suc 2 n)))

-- `w & (1 << k)` is zero exactly when bit `k` is.
pub bit_and-two_pow : (k w : ℕ) → bit_and w (2 ^ k) ≡ bit w k * 2 ^ k
unfolding bit
bit_and-two_pow zero w = ground (arith, bit_and_digit w 1, bit_and-zero (w / 2))
bit_and-two_pow (suc k) w =
    let e : 2 ^ suc k / 2 ≡ 2 ^ k = omega (arith, pow-suc 2 k) in
    let even : 2 ^ suc k % 2 ≡ 0 = omega (arith, pow-suc 2 k) in
    let half : bit_and (w / 2) (2 ^ suc k / 2) ≡ bit (w / 2) k * 2 ^ k =
      rw e (bit_and-two_pow k (w / 2)) in
    let double : bit (w / 2) k * 2 ^ suc k ≡ bit (w / 2) k * 2 ^ k * 2 =
      omega (arith, ap (λ (t : ℕ). bit (w / 2) k * t) (pow-suc 2 k)) in
    omega (arith, bit_and_digit w (2 ^ suc k), half, even, double)

pub bit_and_mask_test : (k w : ℕ) → not (bit_and w (2 ^ k) == 0) ≡ (bit w k == 1)
bit_and_mask_test k w = ground (arith, bit_and-two_pow k w, bit-lt_two w k, one-le-pow k 2)

-- A result of words of `n` bits is a word of `n` bits.
pub bit_or-lt : (n a b : ℕ) → a < 2 ^ n → b < 2 ^ n → bit_or a b < 2 ^ n
bit_or-lt zero zero b p q = omega (arith, zero-bit_or b)
bit_or-lt zero (suc a) b p q = absurd (omega arith)
bit_or-lt (suc n) a b p q =
    ground (arith, bit_or_digit a b, pow-suc 2 n, bit_or-lt n (a / 2) (b / 2))

pub bit_xor-lt : (n a b : ℕ) → a < 2 ^ n → b < 2 ^ n → bit_xor a b < 2 ^ n
bit_xor-lt zero zero b p q = omega (arith, zero-bit_xor b)
bit_xor-lt zero (suc a) b p q = absurd (omega arith)
bit_xor-lt (suc n) a b p q = ground (
  arith,
  bit_xor_digit a b,
  differ-mod (a % 2) (b % 2),
  pow-suc 2 n,
  bit_xor-lt n (a / 2) (b / 2),
)

pub bit_and-lt : (n a b : ℕ) → a < 2 ^ n → bit_and a b < 2 ^ n
bit_and-lt n a b p = omega (arith, bit_and-le a a b)

-- No bit is above those of the second operand.
bit_and-le_bound : (n a b : ℕ) → a ≤ n → bit_and a b ≤ b
bit_and-le_bound n zero b p = omega (arith, zero-bit_and b)
bit_and-le_bound zero (suc a) b p = absurd (omega arith)
bit_and-le_bound (suc n) (suc a) b p =
    ground (arith, bit_and_digit (suc a) b, bit_and-le_bound n (suc a / 2) (b / 2))

pub bit_and-le_right : (a b : ℕ) → bit_and a b ≤ b
bit_and-le_right a b = bit_and-le_bound a a b (omega arith)
