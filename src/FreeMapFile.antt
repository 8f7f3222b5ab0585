-- ===== src/FreeMapFile.antt =====
-- filesys/free-map.c: the map's own file, made when the disk is formatted, opened at boot and closed at the end. An
-- outer `none` is a PANIC or a failed ASSERT.

pub mod RoundTrip
mod Tests
use tiny_os.Common.{ℕ, Bool, false, Option, none, some}
use tiny_os.Common.Panic.{assert, ◌>>=◌, ◌>>◌}
use tiny_os.BitmapFile.{bitmap_file_size, bitmap_read, bitmap_write}
use tiny_os.FreeMap.{FreeMap, free_map_sector}
use tiny_os.InodeTable.{FileSystem, inode_create, inode_open, find_inode}
use tiny_os.File.{File, file_open, file_close}

-- `file_open (inode_open (FREE_MAP_SECTOR))`, a null pointer excepted, and the inode of the file.
unfoldable pub open_map : Bool → Bool → FileSystem → Option (ℕ × FileSystem)
open_map calloc_succeeds malloc_succeeds fs = do
  let o = inode_open malloc_succeeds fs free_map_sector
  assert o.0
  r ← file_open calloc_succeeds malloc_succeeds (some free_map_sector) o.1
  file ← r.0
  some (file.inode, r.1)

pub free_map_create : Bool → Bool → FileSystem → Option FileSystem
free_map_create calloc_succeeds malloc_succeeds fs = do
  c ←
      inode_create calloc_succeeds malloc_succeeds fs free_map_sector
        (bitmap_file_size fs.free_map.map)
  assert c.0
  r ← open_map calloc_succeeds malloc_succeeds c.1
  i ← find_inode r.0 r.1.open_inodes
  w ← bitmap_write malloc_succeeds i r.1.disk r.1.free_map.map
  assert w.0
  some (record r.1 { disk = w.1; free_map = record { map = r.1.free_map.map; file = some i } })

pub free_map_open : Bool → Bool → FileSystem → Option FileSystem
free_map_open calloc_succeeds malloc_succeeds fs = do
  r ← open_map calloc_succeeds malloc_succeeds fs
  i ← find_inode r.0 r.1.open_inodes
  b ← bitmap_read malloc_succeeds i r.1.disk r.1.free_map.map
  assert b.0
  some (record r.1 { free_map = record { map = b.1; file = some i } })

pub free_map_close : Bool → FileSystem → Option FileSystem
free_map_close malloc_succeeds fs =
    file_close malloc_succeeds (record { inode = free_map_sector; pos = 0; deny_write = false }) fs
