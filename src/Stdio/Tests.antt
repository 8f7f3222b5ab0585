-- ===== src/Stdio/Tests.antt =====
-- Conversions of stdio.c.
use tiny_os.Common.{
  ◌+◌, ℕ, ◌≤◌, ◌≡◌, refl, true, false, some, List, [], ◌∷◌, ◌==◌, if◌then◌else◌, length, arith, inr,
}
use tiny_os.Common.Integers.{negsuc}
use tiny_os.Atoi.{atoi}
use tiny_os.Atoi.Decimal.{word32}
use tiny_os.Stdio.{
  Flags, PrintfConversion, base_d, base_x, digits_loop, zeros_loop, buffer, format_integer,
}
use tiny_os.Stdio.Buffer.{buffer-bounds}
use tiny_os.Stdio.Readback.{text_at, format_integer-atoi}
use tiny_os.Stdio.Snprintf.{vsnprintf, stored, vsnprintf-stored}

abbrev no_flags : Flags
no_flags = record {
  minus_flag = false;
  plus_flag = false;
  space_flag = false;
  pound_flag = false;
  zero_flag = false;
  group_flag = false;
}

-- "%'#15x"
abbrev grouped_hex : PrintfConversion
grouped_hex = record {
  flags = record no_flags { pound_flag = true; group_flag = true };
  width = 15;
  precision = negsuc 0;
}

-- "%6d"
abbrev six_wide : PrintfConversion
six_wide = record { flags = no_flags; width = 6; precision = negsuc 0 }

hex_test :
    format_integer 703710 false false base_x grouped_hex
    ≡ some (32 ∷ 32 ∷ 32 ∷ 32 ∷ 32 ∷ 32 ∷ 32 ∷ 48 ∷ 120 ∷ 97 ∷ 44 ∷ 98 ∷ 99 ∷ 100 ∷ 101 ∷ [])
unfolding format_integer buffer digits_loop zeros_loop
hex_test = refl

buffer-bounds_example :
    (cp : List ℕ) × (buffer grouped_hex base_x 703710 ≡ some cp) × (length cp ≤ 64)
buffer-bounds_example = buffer-bounds grouped_hex base_x 703710 (inr (inr refl)) (omega arith)

format_integer-atoi_example :
    (text : List ℕ) × (format_integer 42 true true base_d six_wide ≡ some text)
    × (atoi (length text + 1) (text_at 100 text) 100 ≡ some (word32 (negsuc 41)))
format_integer-atoi_example =
    format_integer-atoi six_wide 42 (omega arith) refl (omega arith) true 100 refl refl refl

vsnprintf-stored_example :
    ((vsnprintf 100 3 (72 ∷ 105 ∷ 33 ∷ []) (λ a. 7)).0 ≡ 3)
    × ((a : ℕ)
        → (vsnprintf 100 3 (72 ∷ 105 ∷ 33 ∷ []) (λ a. 7)).1 a
          ≡ (if a == 102 then 0 else stored (λ a. 7) 100 2 (72 ∷ 105 ∷ 33 ∷ []) a))
vsnprintf-stored_example =
    vsnprintf-stored 100 3 (72 ∷ 105 ∷ 33 ∷ []) (λ a. 7) (omega arith) (omega arith) (omega arith)
