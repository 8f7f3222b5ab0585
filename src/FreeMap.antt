-- ===== src/FreeMap.antt =====
-- filesys/free-map.c: one bit for each sector of the disk, which is set where the sector is in use. The
-- file of the map is its inode, `none` for NULL. An outer `none` is a failed ASSERT or PANIC.

pub mod Sectors
mod Tests
use tiny_os.Common.{
  ℕ, ◌+◌, ◌-◌, ◌^◌, Bool, true, false, not, ◌&&◌, Option, none, some, List, ◌==◌, if◌then◌else◌,
}
use tiny_os.Common.Panic.{assert, ◌>>=◌, ◌>>◌}
use tiny_os.Bitmap.{Bitmap, create, mark, scan_and_flip, set_multiple, all, bitmap_error}
use tiny_os.BitmapFile.{bitmap_write, bitmap_read}
use tiny_os.Inode.{Inode, Disk}

abbrev pub free_map_sector : ℕ
free_map_sector = 0

abbrev pub root_dir_sector : ℕ
root_dir_sector = 1

pub record FreeMap : Type 0 where
  pub map : Bitmap
  pub file : Option Inode

-- `got` and `storage` are what malloc returns to bitmap_create.
pub free_map_init : Bool → Option (List ℕ) → ℕ → Option Bitmap
free_map_init got storage disk_size = do
  made ← create got storage disk_size
  b ← made
  some (mark (mark b free_map_sector) root_dir_sector)

-- After bitmap_scan_and_flip found the group at `sector`: the map is written to its file, and the group
-- is given up if that fails.
pub store_group : Bool → Option Inode → Disk → ℕ → ℕ → Bitmap → Option (Option ℕ × (FreeMap × Disk))
store_group malloc_succeeds none d sector cnt b =
    some (some sector, (record { map = b; file = none }, d))
store_group malloc_succeeds (some inode) d sector cnt b =
    bitmap_write malloc_succeeds inode d b >>= λ w.
    if w.0
    then some (some sector, (record { map = b; file = some inode }, w.1))
    else (set_multiple b sector cnt false >>= λ b1.
        some (none, (record { map = b1; file = some inode }, w.1)))

-- The first sector, or `none` where the source returns false.
pub free_map_allocate : Bool → FreeMap → Disk → ℕ → Option (Option ℕ × (FreeMap × Disk))
free_map_allocate malloc_succeeds fm d cnt = scan_and_flip fm.map 0 cnt false >>= λ r.
    if r.0 == bitmap_error
    then some (none, (record fm { map = r.1 }, d))
    else store_group malloc_succeeds fm.file d r.0 cnt r.1

pub free_map_release : Bool → FreeMap → Disk → ℕ → ℕ → Option (FreeMap × Disk)
free_map_release malloc_succeeds fm d sector cnt = do
  used ← all fm.map sector cnt
  assert used
  b ← set_multiple fm.map sector cnt false
  inode ← fm.file
  w ← bitmap_write malloc_succeeds inode d b
  some (record fm { map = b }, w.1)
