-- ===== src/Atoi.antt =====
-- lib/stdlib.c: atoi. Memory is a function from addresses to bytes. An `int` is a word of 32 bits, and
-- its arithmetic wraps around. The loops take fuel, and are `none` when it ends first.

pub mod Decimal
mod Tests
use tiny_os.Common.{
  ℕ, zero, suc, ◌+◌, ◌-◌, ◌*◌, ◌%◌, ◌^◌, Bool, true, false, not, ◌&&◌, ◌||◌, Option, none, some,
  ◌==◌, leb, if◌then◌else◌,
}
use tiny_os.Common.Panic.{assert, ◌>>=◌, ◌>>◌}

abbrev pub isspace : ℕ → Bool
isspace c = c == 32 || (c == 12 || (c == 10 || (c == 13 || (c == 9 || c == 11))))

abbrev pub isdigit : ℕ → Bool
isdigit c = leb 48 c && leb c 57

pub space_loop : ℕ → (ℕ → ℕ) → ℕ → Option ℕ
space_loop zero m s = none
space_loop (suc fuel) m s =
    let rest = space_loop fuel m (s + 1) in if isspace (m s) then rest else some s

-- The value is kept negative.
pub digit_loop : ℕ → (ℕ → ℕ) → ℕ → ℕ → Option ℕ
digit_loop zero m s value = none
digit_loop (suc fuel) m s value =
    let rest = digit_loop fuel m (s + 1) ((value * 10 + 2 ^ 32 - (m s - 48)) % 2 ^ 32) in
    if isdigit (m s) then rest else some value

pub atoi : ℕ → (ℕ → ℕ) → ℕ → Option ℕ
atoi fuel m s = do
  assert (not (s == 0))
  sign ← space_loop fuel m s
  let negative = m sign == 45
  let digits = if m sign == 43 then sign + 1 else if negative then sign + 1 else sign
  value ← digit_loop fuel m digits 0
  some (if negative then value else (2 ^ 32 - value) % 2 ^ 32)
