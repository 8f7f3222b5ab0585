-- ===== src/File/Tests.antt =====
-- Runs of file.c on the file of Inode.Tests, which two files have open, one of which denies writes.
use tiny_os.Common.{
  ℕ, ◌+◌, ◌≡◌, refl, true, false, some, [], ◌∷◌, ◌==◌, ltb, if◌then◌else◌, arith, Bool-cases, inl,
  inr,
}
use tiny_os.Inode.{Inode}
use tiny_os.Inode.Tests.{two_sectors, some_disk}
use tiny_os.InodeTable.{FileSystem}
use tiny_os.File.{File, file_read, file_write, file_seek, file_tell, file_deny_write}
use tiny_os.File.Positions.{read-seek-write}
use tiny_os.File.Denials.{IsConsistent, file_deny_write-IsConsistent}

abbrev one_open : FileSystem
one_open = record {
  disk = some_disk;
  free_map = record { map = record { bit_cnt = 40; bits = 127 ∷ 0 ∷ [] }; file = some two_sectors };
  open_inodes = two_sectors ∷ [];
}

abbrev at_600 : File
at_600 = record { inode = 4; pos = 600; deny_write = false }

read-seek-write_example :
    (file' : File) × (fs' : FileSystem) × (target' : ℕ → ℕ) × (file_write true one_open at_600
        (λ i. 65 + i)
        300
      ≡ some (300, (file', fs')))
    × (file_tell file' ≡ 600 + 300)
    × (file_read true fs' (file_seek file' (file_tell at_600)) (λ i. 0) 300
        ≡ some (300, (file', target')))
    × ((j : ℕ) → target' j ≡ (if ltb j 300 then 65 + j else 0))
read-seek-write_example =
    read-seek-write one_open at_600 two_sectors (λ i. 65 + i) (λ i. 0) 300 refl (omega arith) refl
      (omega arith)

abbrev shared_inode : Inode
shared_inode = record two_sectors { open_cnt = 2; deny_write_cnt = 1 }

abbrev shared : FileSystem
shared = record one_open { open_inodes = shared_inode ∷ [] }

abbrev denies : File
denies = record { inode = 4; pos = 0; deny_write = true }

shared-IsConsistent : IsConsistent shared (denies ∷ at_600 ∷ [])
shared-IsConsistent = record {
  open_list = (refl, omega arith, tt);
  denied = λ s. elim (Bool-cases (4 == s)) [ inl e ↦ rw e refl | inr e ↦ rw e refl ];
  owners =
      λ s. elim (Bool-cases (4 == s)) [ inl e ↦ rw e (omega arith) | inr e ↦ rw e (omega arith) ];
}

shared-IsConsistent' : IsConsistent shared (at_600 ∷ denies ∷ [])
shared-IsConsistent' = record {
  open_list = (refl, omega arith, tt);
  denied = λ s. elim (Bool-cases (4 == s)) [ inl e ↦ rw e refl | inr e ↦ rw e refl ];
  owners =
      λ s. elim (Bool-cases (4 == s)) [ inl e ↦ rw e (omega arith) | inr e ↦ rw e (omega arith) ];
}

file_deny_write-IsConsistent_example :
    (fs' : FileSystem) × (file_deny_write at_600 shared
      ≡ some (record at_600 { deny_write = true }, fs'))
    × IsConsistent fs' (record at_600 { deny_write = true } ∷ denies ∷ [])
file_deny_write-IsConsistent_example =
    file_deny_write-IsConsistent shared at_600 (denies ∷ []) shared-IsConsistent'
