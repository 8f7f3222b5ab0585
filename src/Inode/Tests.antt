-- ===== src/Inode/Tests.antt =====
-- Runs of inode.c on a file of 1000 bytes in the sectors 5 and 6.
use tiny_os.Common.{ℕ, ◌+◌, ◌≡◌, refl, true, false, some, ltb, if◌then◌else◌, arith}
use tiny_os.Inode.{Inode, Disk, inode_read_at, inode_write_at}
use tiny_os.Inode.Writes.{Wrote, inode_write_at-Wrote}
use tiny_os.Inode.ReadBack.{read-write}

abbrev pub two_sectors : Inode
two_sectors = record {
  sector = 4;
  open_cnt = 1;
  removed = false;
  deny_write_cnt = 0;
  disk_data = record { start = 5; length = 1000; magic = 1229868868 };
}

abbrev pub some_disk : Disk
some_disk t o = t + o

abbrev letters : ℕ → ℕ
letters i = 65 + i

inode_write_at-Wrote_example :
    (n : ℕ) × (d' : Disk) × (inode_write_at true two_sectors some_disk letters 700 400
      ≡ some (n, d'))
    × Wrote two_sectors (omega arith) true some_disk letters 700 400 0 n d'
inode_write_at-Wrote_example =
    inode_write_at-Wrote two_sectors (omega arith) true letters some_disk 700 400 refl

read-write_example :
    (d' : Disk) × (target' : ℕ → ℕ) × (inode_write_at true two_sectors some_disk letters 550 400
      ≡ some (550, d'))
    × (inode_read_at true two_sectors d' (λ i. 0) 550 400 ≡ some (550, target'))
    × ((j : ℕ) → target' j ≡ (if ltb j 550 then letters j else 0))
read-write_example =
    read-write two_sectors some_disk letters (λ i. 0) 550 400 (omega arith) refl (omega arith)
