-- ===== src/Division.antt =====
-- lib/arithmetic.c: the 64-bit divisions that the compiler calls. Numbers are below 2 ^ 64, and a
-- signed number is its two's complement; `none` is a divide error of the processor.
pub mod Estimate
pub mod Normalize
pub mod Signed
mod Tests
pub mod Quotient
use tiny_os.Common.{
  ℕ, ◌+◌, ◌-◌, ◌*◌, ◌/◌, ◌%◌, ◌^◌, Bool, Option, none, some, ◌==◌, leb, ltb, ◌||◌, bool_eq,
  if◌then◌else◌,
}
use tiny_os.Common.Panic.{◌>>=◌}

-- The DIVL instruction.
abbrev pub divl : ℕ → ℕ → Option ℕ
divl n d = if d == 0 || leb (2 ^ 32) (n / d) then none else some (n / d)

-- `if (x <= bound) { n += count; x <<= count; }`
abbrev pub nlz_step : ℕ → ℕ → ℕ × ℕ → ℕ × ℕ
nlz_step bound count r = if leb r.1 bound then (r.0 + count, r.1 * 2 ^ count % 2 ^ 32) else r

pub nlz : ℕ → ℕ
nlz x =
    let r16 = nlz_step 0x0000ffff 16 (0, x) in
    let r8 = nlz_step 0x00ffffff 8 r16 in
    let r4 = nlz_step 0x0fffffff 4 r8 in
    let r2 = nlz_step 0x3fffffff 2 r4 in if leb r2.1 0x7fffffff then r2.0 + 1 else r2.0

-- The two ways of udiv64: by a number below 2 ^ 32, and by one that is not and is not above `n`.
pub udiv_short : ℕ → ℕ → Option ℕ
udiv_short n d =
    let b = 2 ^ 32 in
    let n1 = n / 2 ^ 32 in
    let n0 = n % 2 ^ 32 in
    let d0 = d % 2 ^ 32 in
    if d0 == 0
    then none
    else (divl ((b * (n1 % d0) + n0) % 2 ^ 64) d0 >>= λ q. some ((q + b * (n1 / d0)) % 2 ^ 64))

pub udiv_long : ℕ → ℕ → Option ℕ
udiv_long n d =
    let d1 = d / 2 ^ 32 in
    let s = nlz d1 in
    divl (n / 2) (d * 2 ^ s % 2 ^ 64 / 2 ^ 32) >>= λ q1.
    let q = q1 / 2 ^ (31 - s) in
    let less = (q + 2 ^ 64 - 1) % 2 ^ 64 in
    some (if ltb ((n + 2 ^ 64 - less * d % 2 ^ 64) % 2 ^ 64) d then less else q)

pub udiv64 : ℕ → ℕ → Option ℕ
udiv64 n d = if d / 2 ^ 32 == 0 then udiv_short n d else if ltb n d then some 0 else udiv_long n d

-- The remainder is returned as a uint32_t.
pub umod64 : ℕ → ℕ → Option ℕ
umod64 n d = udiv64 n d >>= λ q. some ((n + 2 ^ 64 - d * q % 2 ^ 64) % 2 ^ 64 % 2 ^ 32)

abbrev pub is_negative : ℕ → Bool
is_negative n = leb (2 ^ 63) n

abbrev pub negate : ℕ → ℕ
negate n = (2 ^ 64 - n) % 2 ^ 64

abbrev pub absolute : ℕ → ℕ
absolute n = if is_negative n then negate n else n

pub sdiv64 : ℕ → ℕ → Option ℕ
sdiv64 n d = udiv64 (absolute n) (absolute d) >>= λ q_abs.
    some (if bool_eq (is_negative n) (is_negative d) then q_abs else negate q_abs)

-- The remainder is returned as an int32_t.
pub smod64 : ℕ → ℕ → Option ℕ
smod64 n d = sdiv64 n d >>= λ q. some ((n + 2 ^ 64 - d * q % 2 ^ 64) % 2 ^ 64 % 2 ^ 32)
