-- ===== src/File.antt =====
-- filesys/file.c: open files over the inodes of InodeTable. A file names its inode by the sector.

pub mod Positions
pub mod Denials
mod Tests
use tiny_os.Common.{ℕ, ◌+◌, Bool, true, false, Option, none, some, if◌then◌else◌}
use tiny_os.Common.Panic.{◌>>=◌}
use tiny_os.Inode.{
  Inode, inode_read_at, inode_write_at, inode_deny_write, inode_allow_write, inode_length,
}
use tiny_os.InodeTable.{FileSystem, reopened, find_inode, put_inode, inode_close}

pub record File : Type 0 where
  pub inode : ℕ
  pub pos : ℕ
  pub deny_write : Bool

abbrev find : FileSystem → File → Option Inode
find fs file = find_inode file.inode fs.open_inodes

abbrev changed : FileSystem → Inode → FileSystem
changed fs i = record fs { open_inodes = put_inode i fs.open_inodes }

-- The inode is one that the caller opened, or `none` for a null pointer.
unfoldable pub file_open : Bool → Bool → Option ℕ → FileSystem → Option (Option File × FileSystem)
file_open calloc_succeeds malloc_succeeds none fs = some (none, fs)
file_open calloc_succeeds malloc_succeeds (some inode) fs =
    let closed = inode_close malloc_succeeds fs inode >>= λ fs'. some (none, fs') in
    if calloc_succeeds
    then some (some (record { inode = inode; pos = 0; deny_write = false }), fs)
    else closed

pub file_reopen : Bool → Bool → File → FileSystem → Option (Option File × FileSystem)
file_reopen calloc_succeeds malloc_succeeds file fs =
    file_open calloc_succeeds malloc_succeeds (some file.inode)
      (record fs { open_inodes = reopened file.inode fs.open_inodes })

abbrev pub file_get_inode : File → ℕ
file_get_inode file = file.inode

-- The number of bytes read, the file and the buffer.
pub file_read : Bool → FileSystem → File → (ℕ → ℕ) → ℕ → Option (ℕ × (File × (ℕ → ℕ)))
file_read malloc_succeeds fs file buffer size = find fs file >>= λ i.
    inode_read_at malloc_succeeds i fs.disk buffer size file.pos >>= λ r.
    some (r.0, (record file { pos = file.pos + r.0 }, r.1))

pub file_read_at : Bool → FileSystem → File → (ℕ → ℕ) → ℕ → ℕ → Option (ℕ × (ℕ → ℕ))
file_read_at malloc_succeeds fs file buffer size file_ofs =
    find fs file >>= λ i. inode_read_at malloc_succeeds i fs.disk buffer size file_ofs

-- The number of bytes written, the file and the file system.
pub file_write : Bool → FileSystem → File → (ℕ → ℕ) → ℕ → Option (ℕ × (File × FileSystem))
file_write malloc_succeeds fs file buffer size = find fs file >>= λ i.
    inode_write_at malloc_succeeds i fs.disk buffer size file.pos >>= λ r.
    some (r.0, (record file { pos = file.pos + r.0 }, record fs { disk = r.1 }))

pub file_write_at : Bool → FileSystem → File → (ℕ → ℕ) → ℕ → ℕ → Option (ℕ × FileSystem)
file_write_at malloc_succeeds fs file buffer size file_ofs = find fs file >>= λ i.
    inode_write_at malloc_succeeds i fs.disk buffer size file_ofs >>= λ r.
    some (r.0, record fs { disk = r.1 })

pub file_deny_write : File → FileSystem → Option (File × FileSystem)
file_deny_write file fs =
    let denied = find fs file >>= λ i.
    inode_deny_write i >>= λ i'. some (record file { deny_write = true }, changed fs i') in
    if file.deny_write then some (file, fs) else denied

pub file_allow_write : File → FileSystem → Option (File × FileSystem)
file_allow_write file fs =
    let allowed = find fs file >>= λ i.
    inode_allow_write i >>= λ i'. some (record file { deny_write = false }, changed fs i') in
    if file.deny_write then allowed else some (file, fs)

pub file_close : Bool → File → FileSystem → Option FileSystem
file_close malloc_succeeds file fs =
    file_allow_write file fs >>= λ r. inode_close malloc_succeeds r.1 file.inode

pub file_length : FileSystem → File → Option ℕ
file_length fs file = find fs file >>= λ i. some (inode_length i)

abbrev pub file_seek : File → ℕ → File
file_seek file new_pos = record file { pos = new_pos }

abbrev pub file_tell : File → ℕ
file_tell file = file.pos
