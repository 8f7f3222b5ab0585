-- ===== src/BitmapFile.antt =====
-- lib/kernel/bitmap.c: bitmaps in files. The file is its inode. Each word of the array is four bytes,
-- the lowest first.

pub mod RoundTrip
mod Tests
use tiny_os.Common.{
  ℕ, zero, suc, ◌+◌, ◌-◌, ◌*◌, ◌/◌, ◌%◌, ◌^◌, bit_and, Bool, true, false, Option, none, some, List,
  [], ◌∷◌, ◌==◌, ltb, if◌then◌else◌, length, get_or, set as set_elem,
}
use tiny_os.Common.Panic.{◌>>=◌}
use tiny_os.Bitmap.{Bitmap, elem_cnt, byte_cnt, elem_at}
use tiny_os.Inode.{Inode, Disk, inode_read_at, inode_write_at}

abbrev pub last_mask : Bitmap → ℕ
last_mask b =
    let last_bits = b.bit_cnt % 32 in if last_bits == 0 then 2 ^ 32 - 1 else 2 ^ last_bits - 1

abbrev pub bitmap_file_size : Bitmap → ℕ
bitmap_file_size b = byte_cnt b.bit_cnt

-- The bytes of the array, and the array with such bytes.
abbrev pub bytes_of : List ℕ → ℕ → ℕ
bytes_of ws i = get_or ws (i / 4) 0 / 256 ^ (i % 4) % 256

abbrev pub words_of : ℕ → ℕ → (ℕ → ℕ) → List ℕ
words_of zero i bytes = []
words_of (suc n) i bytes =
    (bytes i + 256 * bytes (i + 1) + 65536 * bytes (i + 2) + 16777216 * bytes (i + 3))
    ∷ words_of n (i + 4) bytes

-- `b->bits[elem_cnt (b->bit_cnt) - 1] &= last_mask (b)`.
abbrev pub masked : Bitmap → Bitmap
masked b =
    let last = elem_cnt b.bit_cnt - 1 in
    record b { bits = set_elem b.bits last (bit_and (elem_at b last) (last_mask b)) }

pub bitmap_read : Bool → Inode → Disk → Bitmap → Option (Bool × Bitmap)
bitmap_read malloc_succeeds inode d b =
    let size = byte_cnt b.bit_cnt in
    let read = inode_read_at malloc_succeeds inode d (bytes_of b.bits) size 0 >>= λ r.
    some (r.0 == size, masked (record b { bits = words_of (length b.bits) 0 r.1 })) in
    if ltb 0 b.bit_cnt then read else some (true, b)

unfoldable pub bitmap_write : Bool → Inode → Disk → Bitmap → Option (Bool × Disk)
bitmap_write malloc_succeeds inode d b =
    let size = byte_cnt b.bit_cnt in
    inode_write_at malloc_succeeds inode d (bytes_of b.bits) size 0 >>= λ r. some (r.0 == size, r.1)
