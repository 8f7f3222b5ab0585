-- ===== src/File/Positions.antt =====
-- file_write, file_seek and file_read of filesys/file.c in a row.
use tiny_os.Common.{ℕ, ◌+◌, ◌≤◌, ◌<◌, ◌^◌, ◌≡◌, refl, ap, true, some, ltb, if◌then◌else◌}
use tiny_os.Common.Panic.{◌>>=◌}
use tiny_os.Inode.{Inode, sectors_of}
use tiny_os.Inode.ReadBack.{read-write}
use tiny_os.InodeTable.{FileSystem, find_inode}
use tiny_os.File.{File, file_read, file_write, file_seek, file_tell}

-- Where memory is available for the bounce buffers, and the inode of the file is open and its sectors have
-- numbers below 2 ^ 32: file_write of bytes that fit behind the position, into a file whose writes are not
-- denied, and file_read of as many bytes after file_seek to the position before, both move all the bytes and
-- leave the position behind them, and the buffer has the bytes written, and is not changed behind
-- them.
pub read-seek-write :
    (fs : FileSystem) (file : File) (i : Inode) (source target : ℕ → ℕ) (size : ℕ)
    → find_inode file.inode fs.open_inodes ≡ some i
    → i.disk_data.start + sectors_of i.disk_data.length < 2 ^ 32
    → i.deny_write_cnt ≡ 0
    → file.pos + size ≤ i.disk_data.length
    → (file' : File) × (fs' : FileSystem) × (target' : ℕ → ℕ) × (file_write true fs file source size
        ≡ some (size, (file', fs')))
      × (file_tell file' ≡ file.pos + size)
      × (file_read true fs' (file_seek file' (file_tell file)) target size
          ≡ some (size, (file', target')))
      × ((j : ℕ) → target' j ≡ (if ltb j size then source j else target j))
unfolding file_read file_write
read-seek-write fs file i source target size found fits allowed small =
    let r = read-write i fs.disk source target size file.pos fits allowed small in
    (
      record file { pos = file.pos + size },
      record fs { disk = r.0 },
      r.1,
      rw found (
          ap
            (λ o. o >>= λ w.
              some (w.0, (record file { pos = file.pos + w.0 }, record fs { disk = w.1 })))
            r.2),
      refl,
      rw found (ap (λ o. o >>= λ w. some (w.0, (record file { pos = file.pos + w.0 }, w.1))) r.3),
      r.4,
    )
