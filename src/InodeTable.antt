-- ===== src/InodeTable.antt =====
-- filesys/inode.c: inodes on the disk, and the list of those that are open. An open inode is named by its
-- sector, since no two in the list have the same. An outer `none` is a failed ASSERT.

pub mod Create
pub mod Openers
pub mod Close
mod Tests
use tiny_os.Common.{
  ℕ, zero, suc, ◌+◌, ◌-◌, ◌/◌, ◌%◌, ◌^◌, Bool, true, false, not, Option, none, some, List, [], ◌∷◌,
  ◌==◌, ltb, if◌then◌else◌,
}
use tiny_os.Common.Bytes.{le_byte, le_word}
use tiny_os.Common.Panic.{assert, ◌>>=◌, ◌>>◌}
use tiny_os.Inode.{InodeDisk, Inode, Disk, disk_write, bytes_to_sectors, inode_magic, inode_reopen}
use tiny_os.FreeMap.{FreeMap, free_map_allocate, free_map_release}

pub record FileSystem : Type 0 where
  pub disk : Disk
  pub free_map : FreeMap
  pub open_inodes : List Inode

-- The bytes of a `struct inode_disk`, of which calloc clears those that are not used, and the members
-- that the bytes of a sector stand for.
abbrev pub inode_disk_bytes : InodeDisk → ℕ → ℕ
inode_disk_bytes i o =
    if ltb o 4
    then le_byte i.start o
    else if ltb o 8
    then le_byte i.length (o - 4)
    else if ltb o 12
    then le_byte i.magic (o - 8)
    else 0

abbrev pub inode_disk_of : (ℕ → ℕ) → InodeDisk
inode_disk_of bytes = record {
  start = le_word bytes 0;
  length = le_word bytes 4;
  magic = le_word bytes 8;
}

pub zero_loop : ℕ → ℕ → Disk → Disk
zero_loop zero sector d = d
zero_loop (suc left) sector d = zero_loop left (sector + 1) (disk_write d sector (λ o. 0))

-- `length` is an `int` by its word of 32 bits. `calloc_succeeds` is for the memory of the inode,
-- `malloc_succeeds` for the bounce buffer.
pub inode_create : Bool → Bool → FileSystem → ℕ → ℕ → Option (Bool × FileSystem)
inode_create calloc_succeeds malloc_succeeds fs sector length =
    let sectors = bytes_to_sectors length in
    let created = free_map_allocate malloc_succeeds fs.free_map fs.disk sectors >>= λ r. elim r.0 [
      | none ↦ some (false, record fs { free_map = r.1.0; disk = r.1.1 })
      | some start ↦
          let bytes =
            inode_disk_bytes (record { start = start; length = length; magic = inode_magic }) in
          let d = zero_loop sectors start (disk_write r.1.1 sector bytes) in
          some (true, record fs { free_map = r.1.0; disk = d })
    ] in
    assert (ltb length (2 ^ 31)) >> (if calloc_succeeds then created else some (false, fs))

abbrev pub is_open : ℕ → List Inode → Bool
is_open sector [] = false
is_open sector (i ∷ is) = if i.sector == sector then true else is_open sector is

abbrev pub reopened : ℕ → List Inode → List Inode
reopened sector [] = []
reopened sector (i ∷ is) =
    let rest = reopened sector is in if i.sector == sector then inode_reopen i ∷ is else i ∷ rest

-- The result says whether the inode is open afterwards.
unfoldable pub inode_open : Bool → FileSystem → ℕ → Bool × FileSystem
inode_open malloc_succeeds fs sector =
    let new : Inode = record {
      sector = sector;
      open_cnt = 1;
      removed = false;
      deny_write_cnt = 0;
      disk_data = inode_disk_of (fs.disk sector);
    } in
    if is_open sector fs.open_inodes
    then (true, record fs { open_inodes = reopened sector fs.open_inodes })
    else if malloc_succeeds
    then (true, record fs { open_inodes = new ∷ fs.open_inodes })
    else (false, fs)

abbrev pub find_inode : ℕ → List Inode → Option Inode
find_inode sector [] = none
find_inode sector (i ∷ is) =
    let rest = find_inode sector is in if i.sector == sector then some i else rest

-- The list with the inode changed, or taken out.
abbrev pub put_inode : Inode → List Inode → List Inode
put_inode i [] = []
put_inode i (j ∷ is) =
    let rest = put_inode i is in if j.sector == i.sector then i ∷ is else j ∷ rest

abbrev pub drop_inode : ℕ → List Inode → List Inode
drop_inode sector [] = []
drop_inode sector (i ∷ is) =
    let rest = drop_inode sector is in if i.sector == sector then is else i ∷ rest

-- The blocks of a removed inode.
pub release_blocks : Bool → FileSystem → Inode → Option FileSystem
release_blocks malloc_succeeds fs i = do
  a ← free_map_release malloc_succeeds fs.free_map fs.disk i.sector 1
  b ←
      free_map_release malloc_succeeds a.0 a.1 i.disk_data.start
        (bytes_to_sectors i.disk_data.length)
  some (record fs { free_map = b.0; disk = b.1 })

-- The close of an inode that is open.
pub inode_close : Bool → FileSystem → ℕ → Option FileSystem
inode_close malloc_succeeds fs sector = find_inode sector fs.open_inodes >>= λ i.
    let less = record i { open_cnt = i.open_cnt - 1 } in
    let gone = record fs { open_inodes = drop_inode sector fs.open_inodes } in
    let released = release_blocks malloc_succeeds gone i in
    if i.open_cnt == 1
    then (if i.removed then released else some gone)
    else some (record fs { open_inodes = put_inode less fs.open_inodes })
