-- ===== src/FreeMap/Tests.antt =====
-- Runs of free-map.c on a disk of 40 sectors, of which the first two are in use.
use tiny_os.Bitmap.Loops.{Every, Filled}
use tiny_os.Common.{◌⊎◌, ◌≤◌, ◌<◌, false, none, ℕ, ◌≡◌, refl, true, Option, some, [], ◌∷◌, arith}
use tiny_os.Bitmap.{bit_on, Bitmap}
use tiny_os.Bitmap.Bits.{IsValid}
use tiny_os.Inode.{Disk}
use tiny_os.Inode.Tests.{two_sectors, some_disk}
use tiny_os.FreeMap.{free_map_release, free_map_allocate}
use tiny_os.FreeMap.Sectors.{free_map_release-frees, Undone, release-allocate}

abbrev two_used : Bitmap
two_used = record { bit_cnt = 40; bits = 3 ∷ 0 ∷ [] }

two_used-IsValid : IsValid two_used
two_used-IsValid = record {
  small = omega arith;
  storage = omega arith;
  words = (omega arith, (omega arith, tt));
}

release-allocate_example :
    (r : Option ℕ) × (b1 : Bitmap) × (d1 : Disk) × (free_map_allocate true
        (record { map = two_used; file = some two_sectors })
        some_disk
        3
      ≡ some (r, (record { map = b1; file = some two_sectors }, d1)))
    × Undone true two_used two_sectors 3 r b1 d1
release-allocate_example =
    release-allocate true two_used two_sectors some_disk 3 two_used-IsValid (omega arith, refl)

free_map_release-frees_example :
    (Every two_used 1 2 true
      × (b' : Bitmap) × (d' : Disk) × (free_map_release true
            (record { map = two_used; file = some two_sectors })
            some_disk
            1
            2
          ≡ some (record { map = b'; file = some two_sectors }, d'))
      × Filled two_used 1 2 false b')
    ⊎ ((j : ℕ) × (1 ≤ j)
        × (j < 3)
        × (bit_on two_used j ≡ false)
        × (free_map_release true (record { map = two_used; file = some two_sectors }) some_disk 1 2
            ≡ none))
free_map_release-frees_example =
    free_map_release-frees true two_used two_sectors some_disk 1 2 two_used-IsValid
      (omega arith, refl) (omega arith)
