-- ===== src/Inode.antt =====
-- filesys/inode.c: the data of a file lies in consecutive sectors of the disk. A disk gives the byte at
-- an offset of a sector; disk_read and disk_write move one whole sector. A buffer is a function from
-- the indexes of its bytes. Sizes and offsets are not negative and below 2 ^ 31, as an off_t has them.

pub mod Reads
pub mod Writes
pub mod ReadBack
pub mod Tests
use tiny_os.Common.{
  ℕ, zero, suc, ◌+◌, ◌-◌, ◌/◌, ◌%◌, ◌^◌, ◌<◌, ◌≡◌, arith, Bool, true, false, not, ◌&&◌, ◌||◌,
  Option, none, some, ◌==◌, ltb, leb, if◌then◌else◌,
}
use tiny_os.Common.Panic.{assert, ◌>>=◌, ◌>>◌}

abbrev pub disk_sector_size : ℕ
disk_sector_size = 512

abbrev pub inode_magic : ℕ
inode_magic = 1229868868

pub record InodeDisk : Type 0 where
  pub start : ℕ
  pub length : ℕ
  pub magic : ℕ

pub record Inode : Type 0 where
  pub sector : ℕ
  pub open_cnt : ℕ
  pub removed : Bool
  pub deny_write_cnt : ℕ
  pub disk_data : InodeDisk

abbrev pub Disk : Type 0
Disk = ℕ → ℕ → ℕ

abbrev pub disk_write : Disk → ℕ → (ℕ → ℕ) → Disk
disk_write d s bytes t o = if t == s && ltb o 512 then bytes o else d t o

-- memcpy of `n` bytes from the index `from` of `src` to the index `at` of `dst`.
abbrev pub copied : ℕ → (ℕ → ℕ) → ℕ → (ℕ → ℕ) → ℕ → ℕ → ℕ
copied n dst at src from j = if leb at j && ltb j (at + n) then src (from + (j - at)) else dst j

-- How many sectors hold `size` bytes.
abbrev pub sectors_of : ℕ → ℕ
sectors_of size = (size + 511) / 512

-- DIV_ROUND_UP on a signed word of 32 bits, which wraps, and whose quotient is rounded towards 0. The result
-- is a `size_t`.
unfoldable pub bytes_to_sectors : ℕ → ℕ
bytes_to_sectors size =
    let sum = (size + 511) % 2 ^ 32 in
    if ltb sum (2 ^ 31) then sum / 512 else (2 ^ 32 - (2 ^ 32 - sum) / 512) % 2 ^ 32

-- Without overflow, it is that number.
pub bytes_to_sectors-sectors_of :
    (size : ℕ) → size + 512 < 2 ^ 31 → bytes_to_sectors size ≡ sectors_of size
unfolding bytes_to_sectors
bytes_to_sectors-sectors_of size small = ground arith

-- The sector, or `-1`.
unfoldable pub byte_to_sector : Inode → ℕ → ℕ
byte_to_sector inode pos =
    if ltb pos inode.disk_data.length
    then (inode.disk_data.start + pos / 512) % 2 ^ 32
    else 2 ^ 32 - 1

abbrev pub inode_length : Inode → ℕ
inode_length inode = inode.disk_data.length

-- The bytes that one round of the loops moves. No byte is left in the inode where the source has a
-- negative number of them, which ends the loops, too.
unfoldable pub chunk_size : Inode → ℕ → ℕ → ℕ
chunk_size inode size offset =
    let inode_left = inode_length inode - offset in
    let sector_left = 512 - offset % 512 in
    let min_left = if ltb inode_left sector_left then inode_left else sector_left in
    if ltb size min_left then size else min_left

-- Whether a round moves a whole sector without the bounce buffer.
abbrev pub is_whole : ℕ → ℕ → Bool
is_whole chunk offset = offset % 512 == 0 && chunk == 512

pub read_loop : ℕ → Bool → Inode → Disk → (ℕ → ℕ) → ℕ → ℕ → ℕ → Option (ℕ × (ℕ → ℕ))
read_loop zero malloc_succeeds inode d buffer size offset bytes_read = none
read_loop (suc fuel) malloc_succeeds inode d buffer size offset bytes_read =
    let chunk = chunk_size inode size offset in
    let sector = d (byte_to_sector inode offset) in
    let buffer1 =
      if is_whole chunk offset
      then copied 512 buffer bytes_read sector 0
      else copied chunk buffer bytes_read sector (offset % 512) in
    let rest =
      read_loop fuel malloc_succeeds inode d buffer1 (size - chunk) (offset + chunk)
        (bytes_read + chunk) in
    if size == 0
    then some (bytes_read, buffer)
    else if chunk == 0
    then some (bytes_read, buffer)
    else if is_whole chunk offset || malloc_succeeds
    then rest
    else some (bytes_read, buffer)

-- The number of bytes read, and the buffer. `malloc_succeeds` says what the call of malloc for the bounce
-- buffer comes to, if there is one.
pub inode_read_at : Bool → Inode → Disk → (ℕ → ℕ) → ℕ → ℕ → Option (ℕ × (ℕ → ℕ))
inode_read_at malloc_succeeds inode d buffer size offset =
    read_loop (size + 1) malloc_succeeds inode d buffer size offset 0

-- The bytes that a round writes to its sector.
abbrev pub sector_data : Inode → Disk → (ℕ → ℕ) → ℕ → ℕ → ℕ → ℕ → ℕ
sector_data inode d buffer chunk offset bytes_written =
    if is_whole chunk offset
    then (λ o. buffer (bytes_written + o))
    else (let bounce =
          if ltb 0 (offset % 512) || ltb chunk (512 - offset % 512)
          then d (byte_to_sector inode offset)
          else (λ o. 0) in
        copied chunk bounce (offset % 512) buffer bytes_written)

pub write_loop : ℕ → Bool → Inode → Disk → (ℕ → ℕ) → ℕ → ℕ → ℕ → Option (ℕ × Disk)
write_loop zero malloc_succeeds inode d buffer size offset bytes_written = none
write_loop (suc fuel) malloc_succeeds inode d buffer size offset bytes_written =
    let chunk = chunk_size inode size offset in
    let bytes = sector_data inode d buffer chunk offset bytes_written in
    let d1 = disk_write d (byte_to_sector inode offset) bytes in
    let rest =
      write_loop fuel malloc_succeeds inode d1 buffer (size - chunk) (offset + chunk)
        (bytes_written + chunk) in
    if size == 0
    then some (bytes_written, d)
    else if chunk == 0
    then some (bytes_written, d)
    else if is_whole chunk offset || malloc_succeeds
    then rest
    else some (bytes_written, d)

-- The number of bytes written, and the disk.
unfoldable pub inode_write_at : Bool → Inode → Disk → (ℕ → ℕ) → ℕ → ℕ → Option (ℕ × Disk)
inode_write_at malloc_succeeds inode d buffer size offset =
    let run = write_loop (size + 1) malloc_succeeds inode d buffer size offset 0 in
    if inode.deny_write_cnt == 0 then run else some (0, d)

abbrev pub inode_reopen : Inode → Inode
inode_reopen inode = record inode { open_cnt = inode.open_cnt + 1 }

abbrev pub inode_get_inumber : Inode → ℕ
inode_get_inumber inode = inode.sector

abbrev pub inode_remove : Inode → Inode
inode_remove inode = record inode { removed = true }

unfoldable pub inode_deny_write : Inode → Option Inode
inode_deny_write inode = do
  assert (leb (inode.deny_write_cnt + 1) inode.open_cnt)
  some (record inode { deny_write_cnt = inode.deny_write_cnt + 1 })

unfoldable pub inode_allow_write : Inode → Option Inode
inode_allow_write inode = do
  assert (ltb 0 inode.deny_write_cnt)
  assert (leb inode.deny_write_cnt inode.open_cnt)
  some (record inode { deny_write_cnt = inode.deny_write_cnt - 1 })
