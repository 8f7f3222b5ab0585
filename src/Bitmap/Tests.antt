-- ===== src/Bitmap/Tests.antt =====
-- Runs of bitmap.c on a bitmap of forty bits.
use tiny_os.Common.{◌≡◌, refl, true, false, some, [], ◌∷◌, arith}
use tiny_os.Bitmap.{
  Bitmap, bitmap_error, bit_on, mark, reset, count, contains, scan, test, bit_mask,
}
use tiny_os.Bitmap.Bits.{IsValid, bit_on-mark, bit_on-reset}

-- Bits 0, 1, 3 and 33 are set.
abbrev forty : Bitmap
forty = record { bit_cnt = 40; bits = 11 ∷ 2 ∷ [] }

forty-IsValid : IsValid forty
forty-IsValid = omega arith

scan-forty : scan forty 0 2 false ≡ some 4
unfolding scan contains test bit_on bit_mask
scan-forty = refl

scan-forty_full : scan forty 0 33 false ≡ some bitmap_error
unfolding scan contains test bit_on bit_mask
scan-forty_full = refl

count-forty : count forty 0 40 true ≡ some 4
unfolding count test bit_on bit_mask
count-forty = refl

bit_on-mark_example : bit_on (mark forty 34) 34 ≡ true
bit_on-mark_example = bit_on-mark 34 forty-IsValid (omega arith) 34

bit_on-reset_example : bit_on (reset forty 33) 1 ≡ bit_on forty 1
bit_on-reset_example = bit_on-reset 33 forty-IsValid (omega arith) 1
