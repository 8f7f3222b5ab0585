-- ===== src/FreeMapFile/Tests.antt =====
-- A disk of 40 sectors is formatted.
use tiny_os.Common.{ℕ, ◌<◌, ◌≡◌, refl, true, some, [], ◌∷◌, arith}
use tiny_os.Bitmap.{Bitmap, bit_on}
use tiny_os.Bitmap.Bits.{IsValid}
use tiny_os.Bitmap.Loops.{Filled}
use tiny_os.BitmapFile.{bitmap_file_size}
use tiny_os.Inode.{sectors_of}
use tiny_os.Inode.Tests.{some_disk}
use tiny_os.InodeTable.{FileSystem}
use tiny_os.FreeMapFile.{free_map_create, free_map_open}
use tiny_os.FreeMapFile.RoundTrip.{booted, unformatted, free_map_open-create}

abbrev new_map : Bitmap
new_map = record { bit_cnt = 40; bits = 3 ∷ 0 ∷ [] }

new_map-IsValid : IsValid new_map
new_map-IsValid = record {
  small = omega arith;
  storage = omega arith;
  words = (omega arith, (omega arith, tt));
}

free_map_open-create_example :
    (fs' fs'' : FileSystem) × (start : ℕ) × (free_map_create true true
        (unformatted some_disk new_map [])
      ≡ some fs')
    × Filled new_map start (sectors_of (bitmap_file_size new_map)) true fs'.free_map.map
    × (free_map_open true true (booted fs'.disk fs'.free_map.map.bit_cnt (7 ∷ 9 ∷ [])) ≡ some fs'')
    × ((j : ℕ) → j < 40 → bit_on fs''.free_map.map j ≡ bit_on fs'.free_map.map j)
unfolding bit_on tiny_os.Bitmap.bit_mask
free_map_open-create_example =
    free_map_open-create some_disk new_map [] (7 ∷ 9 ∷ []) new_map-IsValid refl refl (omega arith) 2
      (record {
        fits = omega arith;
        equal = λ j low high. let e : j ≡ 2 = omega arith in rw e refl;
      })
