-- ===== src/Stdio.antt =====
-- lib/stdio.c: format_integer, which printf converts numbers with. Output is the sequence of the
-- characters. The characters in the buffer stand newest first, which is the order they are output in.
-- The loops take fuel, and are `none` when it ends first.

pub mod Buffer
pub mod Readback
pub mod Snprintf
mod Tests
use tiny_os.Common.{
  ℕ, zero, suc, ◌+◌, ◌-◌, ◌*◌, ◌/◌, ◌%◌, Bool, true, false, not, ◌&&◌, ◌||◌, Option, none, some,
  List, [], ◌∷◌, ◌++◌, ◌==◌, ltb, if◌then◌else◌, length,
}
use tiny_os.Common.Panic.{◌>>=◌}
use tiny_os.Common.Integers.{ℤ, pos, negsuc}

-- The flags of a conversion, one member for each bit.
pub record Flags : Type 0 where
  pub minus_flag : Bool
  pub plus_flag : Bool
  pub space_flag : Bool
  pub pound_flag : Bool
  pub zero_flag : Bool
  pub group_flag : Bool

-- A negative precision says that none was given.
pub record PrintfConversion : Type 0 where
  pub flags : Flags
  pub width : ℕ
  pub precision : ℤ

-- `digits` gives the character of a digit, `x` is 0 if there is none.
pub record IntegerBase : Type 0 where
  pub base : ℕ
  pub digits : ℕ → ℕ
  pub x : ℕ
  pub group : ℕ

abbrev pub base_d : IntegerBase
base_d = record { base = 10; digits = λ d. 48 + d; x = 0; group = 3 }

abbrev pub base_o : IntegerBase
base_o = record { base = 8; digits = λ d. 48 + d; x = 0; group = 3 }

abbrev pub base_x : IntegerBase
base_x = record { base = 16; digits = λ d. if ltb d 10 then 48 + d else 87 + d; x = 120; group = 4 }

abbrev pub base_X : IntegerBase
base_X = record { base = 16; digits = λ d. if ltb d 10 then 48 + d else 55 + d; x = 88; group = 4 }

-- The sign character, or 0.
abbrev pub sign_of : Flags → Bool → Bool → ℕ
sign_of f is_signed negative =
    if is_signed
    then (if f.plus_flag
        then (if negative then 45 else 43)
        else if f.space_flag
        then (if negative then 45 else 32)
        else if negative
        then 45
        else 0)
    else 0

abbrev pub x_of : Flags → IntegerBase → ℕ → ℕ
x_of f b value = if f.pound_flag && ltb 0 value then b.x else 0

pub digits_loop : ℕ → Bool → IntegerBase → ℕ → ℕ → List ℕ → Option (List ℕ)
digits_loop zero grouped b value digit_cnt cp = none
digits_loop (suc fuel) grouped b value digit_cnt cp =
    let cp1 = if grouped && (ltb 0 digit_cnt && digit_cnt % b.group == 0) then 44 ∷ cp else cp in
    let cp2 = b.digits (value % b.base) ∷ cp1 in
    let rest = digits_loop fuel grouped b (value / b.base) (digit_cnt + 1) cp2 in
    if ltb 0 value then rest else some cp

abbrev pub rendered_precision : ℤ → ℕ
rendered_precision (pos n) = n
rendered_precision (negsuc n) = 1

-- The buffer has 64 characters, of which this loop leaves one.
pub zeros_loop : ℕ → ℕ → List ℕ → Option (List ℕ)
zeros_loop zero precision cp = none
zeros_loop (suc fuel) precision cp =
    let rest = zeros_loop fuel precision (48 ∷ cp) in
    if ltb (length cp) precision && ltb (length cp) 63 then rest else some cp

-- Whether the character stored last, if there is one, is not `0`.
abbrev pub lacks_zero : List ℕ → Bool
lacks_zero [] = true
lacks_zero (c ∷ cp) = not (c == 48)

-- What the buffer holds before the output.
pub buffer : PrintfConversion → IntegerBase → ℕ → Option (List ℕ)
buffer c b value = digits_loop 64 (c.flags.group_flag) b value 0 [] >>= λ cp.
    zeros_loop 65 (rendered_precision c.precision) cp >>= λ cp1.
    some (if c.flags.pound_flag && (b.base == 8 && lacks_zero cp1) then 48 ∷ cp1 else cp1)

abbrev pub output_dup : ℕ → ℕ → List ℕ
output_dup ch zero = []
output_dup ch (suc cnt) = ch ∷ output_dup ch cnt

-- A character that is output unless it is 0.
abbrev pub output_unless_0 : ℕ → List ℕ
output_unless_0 ch = if ch == 0 then [] else ch ∷ []

pub format_integer : ℕ → Bool → Bool → IntegerBase → PrintfConversion → Option (List ℕ)
format_integer value is_signed negative b c = buffer c b value >>= λ cp.
    let f = c.flags in
    let sign = sign_of f is_signed negative in
    let x = x_of f b value in
    let pad_cnt = c.width - length cp - (if x == 0 then 0 else 2) - (if sign == 0 then 0 else 1) in
    some (
      (if not (f.minus_flag || f.zero_flag) then output_dup 32 pad_cnt else [])
      ++ (output_unless_0 sign
          ++ ((if x == 0 then [] else 48 ∷ x ∷ [])
              ++ ((if f.zero_flag then output_dup 48 pad_cnt else [])
                  ++ (cp ++ (if f.minus_flag then output_dup 32 pad_cnt else []))))))
