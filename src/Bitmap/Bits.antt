-- ===== src/Bitmap/Bits.antt =====
-- Single bits of bitmap.c: marking, resetting and flipping one bit, and the representation
-- invariant.
use tiny_os.Common.{
  ℕ, zero, suc, ◌+◌, ◌-◌, ◌/◌, ◌%◌, ◌^◌, ◌≤◌, ◌<◌, ◌≡◌, bit_and, bit_or, bit_xor, true, false, not,
  List, [], ◌∷◌, ◌==◌, if◌then◌else◌, length, get_or, set as set_elem, length-set, get_or-set,
  arith,
}
use tiny_os.Common.Bits.{
  bit, bit-lt_two, bit-or, bit-and, bit-xor, bit-two_pow, bit-complement, bit_and_mask_test,
  bit_or-lt, bit_xor-lt, bit_and-lt,
}
use native.Mathlib.Nat.{pow-le-pow_right}
use tiny_os.Bitmap.{
  Bitmap, elem_idx, elem_cnt, bit_mask, elem_at, size_mod, bit_on, mark, reset, flip,
}

-- Every element is a 32-bit word.
abbrev pub Words : List ℕ → Type 0
Words [] = Unit
Words (w ∷ ws) = (w < 2 ^ 32) × Words ws

-- The array has the elements that `byte_cnt` allots, each a word, and `BITMAP_ERROR` is no index.
pub record IsValid (b : Bitmap) : Type 0 where
  pub small : b.bit_cnt + 31 < size_mod
  pub storage : elem_cnt b.bit_cnt ≤ length b.bits
  pub words : Words b.bits

pub Words-get_or : (ws : List ℕ) (i : ℕ) → Words ws → get_or ws i 0 < 2 ^ 32
Words-get_or [] i h = omega arith
Words-get_or (w ∷ ws) zero h = h.0
Words-get_or (w ∷ ws) (suc i) h = Words-get_or ws i h.1

Words-set : (ws : List ℕ) (i w : ℕ) → Words ws → w < 2 ^ 32 → Words (set_elem ws i w)
Words-set [] i w h lt = tt
Words-set (x ∷ ws) zero w h lt = (lt, h.1)
Words-set (x ∷ ws) (suc i) w h lt = (h.0, Words-set ws i w h.1 lt)

bit_mask-lt : (i : ℕ) → bit_mask i < 2 ^ 32
unfolding bit_mask
bit_mask-lt i =
    omega (arith, pow-le-pow_right {n = 2} (omega arith) {i = i % 32} {j = 31} (omega arith))

pub in_storage : {b : Bitmap} (i : ℕ) → IsValid b → i < b.bit_cnt → elem_idx i < length b.bits
in_storage i v lt = omega arith

-- Bit `i` of the bitmap is bit `i % 32` of element `i / 32`.
pub bit_on-bit : (b : Bitmap) (i : ℕ) → bit_on b i ≡ (bit (elem_at b (elem_idx i)) (i % 32) == 1)
unfolding bit_on bit_mask
bit_on-bit b i = bit_and_mask_test (i % 32) (elem_at b (elem_idx i))

module _ {b : Bitmap} (i : ℕ) (v : IsValid b) (lt : i < b.bit_cnt) where
  -- Every other bit keeps its value, and bit `i` is set.
  pub bit_on-mark : (j : ℕ) → bit_on (mark b i) j ≡ (if i == j then true else bit_on b j)
  unfolding mark bit_mask
  bit_on-mark j =
      rw (bit_on-bit b j, bit_on-bit (mark b i) j)
        (ground (
          arith,
          get_or-set b.bits (i / 32) (j / 32) (bit_or (elem_at b (i / 32)) (2 ^ (i % 32))) 0
              (in_storage i v lt),
          bit-or (j % 32) (elem_at b (i / 32)) (2 ^ (i % 32)),
          bit-two_pow (i % 32) (j % 32),
          bit-lt_two (elem_at b (i / 32)) (j % 32),
        ))

  -- Every other bit keeps its value, and bit `i` is cleared.
  pub bit_on-reset : (j : ℕ) → bit_on (reset b i) j ≡ (if i == j then false else bit_on b j)
  unfolding reset bit_mask
  bit_on-reset j =
      rw (bit_on-bit b j, bit_on-bit (reset b i) j)
        (ground (
          arith,
          get_or-set b.bits (i / 32) (j / 32)
              (bit_and (elem_at b (i / 32)) (2 ^ 32 - 1 - 2 ^ (i % 32))) 0 (in_storage i v lt),
          bit-and (j % 32) (elem_at b (i / 32)) (2 ^ 32 - 1 - 2 ^ (i % 32)),
          bit-complement 32 (j % 32) (2 ^ (i % 32)) (omega arith) (bit_mask-lt i),
          bit-two_pow (i % 32) (j % 32),
          bit-lt_two (elem_at b (i / 32)) (j % 32),
        ))

  -- Every other bit keeps its value, and bit `i` is inverted.
  pub bit_on-flip :
      (j : ℕ) → bit_on (flip b i) j ≡ (if i == j then not (bit_on b j) else bit_on b j)
  unfolding flip bit_mask
  bit_on-flip j =
      rw (bit_on-bit b j, bit_on-bit (flip b i) j)
        (ground (
          arith,
          get_or-set b.bits (i / 32) (j / 32) (bit_xor (elem_at b (i / 32)) (2 ^ (i % 32))) 0
              (in_storage i v lt),
          bit-xor (j % 32) (elem_at b (i / 32)) (2 ^ (i % 32)),
          bit-two_pow (i % 32) (j % 32),
          bit-lt_two (elem_at b (i / 32)) (j % 32),
        ))

module _ {b : Bitmap} (i : ℕ) (v : IsValid b) where
  put_elem-IsValid :
      (w : ℕ) → w < 2 ^ 32 → IsValid (record b { bits = set_elem b.bits (elem_idx i) w })
  put_elem-IsValid w lt = record {
    small = v.small;
    storage = omega (arith, v.storage, length-set b.bits (elem_idx i) w);
    words = Words-set b.bits (elem_idx i) w v.words lt;
  }

  elem_at-lt : elem_at b (elem_idx i) < 2 ^ 32
  elem_at-lt = Words-get_or b.bits (elem_idx i) v.words

  pub mark-IsValid : IsValid (mark b i)
  unfolding mark
  mark-IsValid = put_elem-IsValid _ (bit_or-lt 32 _ _ elem_at-lt (bit_mask-lt i))

  pub reset-IsValid : IsValid (reset b i)
  unfolding reset
  reset-IsValid = put_elem-IsValid _ (bit_and-lt 32 _ _ elem_at-lt)

  pub flip-IsValid : IsValid (flip b i)
  unfolding flip
  flip-IsValid = put_elem-IsValid _ (bit_xor-lt 32 _ _ elem_at-lt (bit_mask-lt i))
