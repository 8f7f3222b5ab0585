-- ===== src/InodeTable/Tests.antt =====
-- Runs of inode.c on the disk of FreeMap.Tests.
use tiny_os.Common.{◌+◌, ◌-◌, ◌&&◌, ◌==◌, List, ◌≡◌, refl, Bool, true, some, [], ◌∷◌, arith}
use tiny_os.Bitmap.{Bitmap, bit_on}
use tiny_os.Bitmap.Bits.{IsValid}
use tiny_os.Inode.{Inode}
use tiny_os.Inode.Tests.{two_sectors, some_disk}
use tiny_os.InodeTable.{FileSystem, inode_create, inode_open, inode_close}
use tiny_os.InodeTable.Openers.{opens}
use tiny_os.InodeTable.Close.{Counted, Blocks, inode_open-Counted, inode_close-Counted}
use tiny_os.InodeTable.Create.{Outcome, inode_create-Created}

abbrev three_used : FileSystem
three_used = record {
  disk = some_disk;
  free_map = record { map = record { bit_cnt = 40; bits = 7 ∷ 0 ∷ [] }; file = some two_sectors };
  open_inodes = two_sectors ∷ [];
}

three_used-IsValid : IsValid three_used.free_map.map
three_used-IsValid = record {
  small = omega arith;
  storage = omega arith;
  words = (omega arith, (omega arith, tt));
}

inode_create-Created_example :
    (ok : Bool) × (fs' : FileSystem) × (inode_create true true three_used 2 1000 ≡ some (ok, fs'))
    × Outcome three_used 2 1000 ok fs'
unfolding bit_on tiny_os.Bitmap.bit_mask
inode_create-Created_example =
    inode_create-Created three_used 2 1000
      (record { valid = three_used-IsValid; has_file = (omega arith, refl) }) (omega arith) refl
      refl true

inode_open-Counted_example :
    (is' : List Inode) × (inode_open true three_used 4
      ≡ (true, record three_used { open_inodes = is' }))
    × Counted three_used.open_inodes 4 (opens 4 three_used.open_inodes + 1) is'
inode_open-Counted_example = inode_open-Counted three_used 4 (refl, omega arith, tt)

-- A removed file of 100 bytes: its inode is in sector 3 and its data in sector 4.
abbrev removed_file : Inode
removed_file = record {
  sector = 3;
  open_cnt = 1;
  removed = true;
  deny_write_cnt = 0;
  disk_data = record { start = 4; length = 100; magic = 1229868868 };
}

abbrev with_removed : FileSystem
with_removed = record {
  disk = some_disk;
  free_map = record { map = record { bit_cnt = 40; bits = 127 ∷ 0 ∷ [] }; file = some two_sectors };
  open_inodes = removed_file ∷ [];
}

with_removed-IsValid : IsValid with_removed.free_map.map
with_removed-IsValid = record {
  small = omega arith;
  storage = omega arith;
  words = (omega arith, (omega arith, tt));
}

inode_close-Counted_example :
    (fs' : FileSystem) × (inode_close true with_removed 3 ≡ some fs')
    × Counted with_removed.open_inodes 3 (opens 3 with_removed.open_inodes - 1) fs'.open_inodes
    × Blocks ((removed_file.open_cnt == 1) && removed_file.removed) with_removed removed_file fs'
unfolding bit_on tiny_os.Bitmap.bit_mask
inode_close-Counted_example =
    inode_close-Counted true with_removed two_sectors removed_file with_removed-IsValid refl
      (omega arith, refl) (refl, omega arith, tt) refl
      (λ last. record {
        small = omega arith;
        sector_fits = omega arith;
        sector_used = λ j low high. let e : j ≡ 3 = omega arith in rw e refl;
        data_fits = omega arith;
        data_used = λ j low high. let e : j ≡ 4 = omega arith in rw e refl;
        apart = refl;
      })
