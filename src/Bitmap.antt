-- ===== src/Bitmap.antt =====
-- lib/kernel/bitmap.c: an array of bits kept in an array of 32-bit words. `none` is a failed ASSERT.
-- Each `for` loop recurs on the rounds that are left, so it needs no fuel.
pub mod Bits
pub mod Groups
pub mod Loops
mod Tests
use tiny_os.Common.{
  ℕ, zero, suc, ◌+◌, ◌-◌, ◌*◌, ◌/◌, ◌%◌, ◌^◌, bit_and, bit_or, bit_xor, Bool, true, false, not,
  ◌&&◌, ◌||◌, Option, none, some, List, [], leb, ltb, ◌==◌, bool_eq, if◌then◌else◌, get_or,
  set as set_elem,
}
use tiny_os.Common.Panic.{◌>>=◌, ◌>>◌, assert}

-- Bits of an `unsigned long`, and the first value that a `size_t` cannot hold.
abbrev pub elem_bits : ℕ
elem_bits = 32

abbrev pub size_mod : ℕ
size_mod = 2 ^ 32

-- BITMAP_ERROR, which is SIZE_MAX.
abbrev pub bitmap_error : ℕ
bitmap_error = 2 ^ 32 - 1

pub record Bitmap : Type 0 where
  pub bit_cnt : ℕ
  pub bits : List ℕ

abbrev pub elem_idx : ℕ → ℕ
elem_idx bit_idx = bit_idx / elem_bits

unfoldable pub bit_mask : ℕ → ℕ
bit_mask bit_idx = 2 ^ (bit_idx % elem_bits)

abbrev pub elem_cnt : ℕ → ℕ
elem_cnt n = (n + elem_bits - 1) % size_mod / elem_bits

abbrev pub byte_cnt : ℕ → ℕ
byte_cnt n = 4 * elem_cnt n

-- Two words of header, then the elements.
abbrev pub buf_size : ℕ → ℕ
buf_size n = 8 + byte_cnt n

-- `b->bits[idx]`, and a write to it. A read past the array gives 0, a write past it nothing.
abbrev pub elem_at : Bitmap → ℕ → ℕ
elem_at b idx = get_or b.bits idx 0

abbrev put_elem : Bitmap → ℕ → ℕ → Bitmap
put_elem b idx w = record b { bits = set_elem b.bits idx w }

unfoldable pub mark : Bitmap → ℕ → Bitmap
mark b i = put_elem b (elem_idx i) (bit_or (elem_at b (elem_idx i)) (bit_mask i))

unfoldable pub reset : Bitmap → ℕ → Bitmap
reset b i = put_elem b (elem_idx i) (bit_and (elem_at b (elem_idx i)) (size_mod - 1 - bit_mask i))

pub flip : Bitmap → ℕ → Bitmap
flip b i = put_elem b (elem_idx i) (bit_xor (elem_at b (elem_idx i)) (bit_mask i))

unfoldable pub set : Bitmap → ℕ → Bool → Option Bitmap
set b idx value = do assert (ltb idx b.bit_cnt); some (if value then mark b idx else reset b idx)

-- What `bitmap_test` returns, once its assertion holds.
unfoldable pub bit_on : Bitmap → ℕ → Bool
bit_on b idx = not (bit_and (elem_at b (elem_idx idx)) (bit_mask idx) == 0)

unfoldable pub test : Bitmap → ℕ → Option Bool
test b idx = do assert (ltb idx b.bit_cnt); some (bit_on b idx)

-- The assertions that open each loop over the bits from `start` to `start + cnt`.
abbrev in_range : Bitmap → ℕ → ℕ → Option (Unit {0})
in_range b start cnt = do
  assert (leb start b.bit_cnt)
  assert (leb ((start + cnt) % size_mod) b.bit_cnt)

set_loop : ℕ → ℕ → Bool → Bitmap → Option Bitmap
set_loop zero i value b = some b
set_loop (suc left) i value b = do b' ← set b i value; set_loop left ((i + 1) % size_mod) value b'

unfoldable pub set_multiple : Bitmap → ℕ → ℕ → Bool → Option Bitmap
unfolding set_loop
set_multiple b start cnt value = do in_range b start cnt; set_loop cnt start value b

unfoldable pub set_all : Bitmap → Bool → Option Bitmap
set_all b value = set_multiple b 0 b.bit_cnt value

count_loop : Bitmap → ℕ → ℕ → Bool → ℕ → Option ℕ
count_loop b zero i value value_cnt = some value_cnt
count_loop b (suc left) i value value_cnt = do
  on ← test b i
  count_loop b left ((i + 1) % size_mod) value
      (if bool_eq on value then value_cnt + 1 else value_cnt)

unfoldable pub count : Bitmap → ℕ → ℕ → Bool → Option ℕ
unfolding count_loop
count b start cnt value = do in_range b start cnt; count_loop b cnt start value 0

contains_loop : Bitmap → ℕ → ℕ → Bool → Option Bool
contains_loop b zero i value = some false
contains_loop b (suc left) i value = do
  on ← test b i
  let rest = contains_loop b left ((i + 1) % size_mod) value
  if bool_eq on value then some true else rest

unfoldable pub contains : Bitmap → ℕ → ℕ → Bool → Option Bool
unfolding contains_loop
contains b start cnt value = do in_range b start cnt; contains_loop b cnt start value

unfoldable pub any : Bitmap → ℕ → ℕ → Option Bool
any b start cnt = contains b start cnt true

unfoldable pub none_set : Bitmap → ℕ → ℕ → Option Bool
none_set b start cnt = do found ← contains b start cnt true; some (not found)

unfoldable pub all : Bitmap → ℕ → ℕ → Option Bool
all b start cnt = do found ← contains b start cnt false; some (not found)

-- The rounds left are those of `for (i = start; i <= last; i++)`.
scan_loop : Bitmap → ℕ → ℕ → ℕ → Bool → Option ℕ
scan_loop b zero i cnt value = some bitmap_error
scan_loop b (suc left) i cnt value = do
  found ← contains b i cnt (not value)
  let rest = scan_loop b left (i + 1) cnt value
  if not found then some i else rest

unfoldable pub scan : Bitmap → ℕ → ℕ → Bool → Option ℕ
unfolding scan_loop
scan b start cnt value = do
  assert (leb start b.bit_cnt)
  if leb cnt b.bit_cnt
      then scan_loop b (b.bit_cnt - cnt + 1 - start) start cnt value
      else some bitmap_error

unfoldable pub scan_and_flip : Bitmap → ℕ → ℕ → Bool → Option (ℕ × Bitmap)
scan_and_flip b start cnt value = do
  idx ← scan b start cnt value
  b' ← if idx == bitmap_error then some b else set_multiple b idx cnt (not value)
  some (idx, b')

-- A bitmap over storage with the contents `old`, all of its bits cleared.
cleared : ℕ → List ℕ → Option Bitmap
cleared n old = set_all (record { bit_cnt = n; bits = old }) false

-- `got` says whether the `malloc` of the header succeeded; `storage` is what the second returned,
-- with whatever the memory held. The inner `none` is the null pointer.
unfoldable pub create : Bool → Option (List ℕ) → ℕ → Option (Option Bitmap)
unfolding cleared
create false storage n = some none
create true (some old) n = do b ← cleared n old; some (some b)
create true none n = if n == 0 then (do b ← cleared n []; some (some b)) else some none

-- The caller gives `block_size` bytes at `block`, of which the words after the header are `old`.
unfoldable pub create_in_buf : ℕ → List ℕ → ℕ → Option Bitmap
unfolding cleared
create_in_buf n old block_size = do assert (leb (buf_size n) block_size); cleared n old
