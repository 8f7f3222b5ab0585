-- ===== src/BitmapFile/Tests.antt =====
-- A bitmap of 40 bits in the file of Inode.Tests.
use tiny_os.Common.{ℕ, ◌<◌, ◌≡◌, refl, true, some, [], ◌∷◌, arith}
use tiny_os.Bitmap.{Bitmap, bit_on}
use tiny_os.Bitmap.Bits.{IsValid}
use tiny_os.Inode.{Disk}
use tiny_os.Inode.Tests.{two_sectors, some_disk}
use tiny_os.BitmapFile.{bitmap_read, bitmap_write}
use tiny_os.BitmapFile.RoundTrip.{bitmap_read-write}

abbrev forty_bits : Bitmap
forty_bits = record { bit_cnt = 40; bits = 2863311530 ∷ 165 ∷ [] }

forty_bits-IsValid : IsValid forty_bits
forty_bits-IsValid = record {
  small = omega arith;
  storage = omega arith;
  words = (omega arith, (omega arith, tt));
}

bitmap_read-write_example :
    (d' : Disk) × (b' : Bitmap) × (bitmap_write true two_sectors some_disk forty_bits
      ≡ some (true, d'))
    × (bitmap_read true two_sectors d' (record { bit_cnt = 40; bits = 7 ∷ 9 ∷ [] })
        ≡ some (true, b'))
    × (b'.bit_cnt ≡ 40)
    × ((j : ℕ) → j < 40 → bit_on b' j ≡ bit_on forty_bits j)
bitmap_read-write_example =
    bitmap_read-write two_sectors some_disk forty_bits (7 ∷ 9 ∷ []) (omega arith) refl (omega arith)
      forty_bits-IsValid (omega arith)
