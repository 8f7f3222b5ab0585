-- ===== src/Inode/ReadBack.antt =====
-- What inode_write_at of filesys/inode.c stores, inode_read_at reads back.
use tiny_os.Common.{
  ℕ, ◌+◌, ◌-◌, ◌≤◌, ◌<◌, ◌≡◌, refl, ap, ◌∙◌, true, false, ◌&&◌, some, ltb, leb, if◌then◌else◌, ◌^◌,
  arith, Bool-cases, inl, inr,
}
use tiny_os.Inode.{Inode, Disk, sectors_of, inode_length, inode_read_at, inode_write_at}
use tiny_os.Inode.Reads.{inode_read_at-Read}
use tiny_os.Inode.Writes.{inode_write_at-Wrote, byte_at-Wrote}

-- Bytes that are written inside of a file, where writes are not denied and the sectors of the file have
-- numbers below 2 ^ 32, are all written, and reading as many at the same offset gives them back, if
-- memory is available.
pub read-write :
    (inode : Inode) (d : Disk) (buffer target : ℕ → ℕ) (size offset : ℕ)
    → inode.disk_data.start + sectors_of inode.disk_data.length < 2 ^ 32
    → inode.deny_write_cnt ≡ 0
    → offset + size ≤ inode_length inode
    → (d' : Disk) × (target' : ℕ → ℕ) × (inode_write_at true inode d buffer size offset
        ≡ some (size, d'))
      × (inode_read_at true inode d' target size offset ≡ some (size, target'))
      × ((j : ℕ) → target' j ≡ (if ltb j size then buffer j else target j))
read-write inode d buffer target size offset fits allowed inside =
    let w = inode_write_at-Wrote inode fits true buffer d size offset allowed in
    let r = inode_read_at-Read true inode w.1 target size offset in
    let wrote = w.3.complete refl in
    let read = r.3.complete refl in
    let all_written : w.0 ≡ size = ground arith in
    let all_read : r.0 ≡ size = ground arith in
    (
      w.1,
      r.1,
      w.2 ∙ ap (λ k. some (k, w.1)) all_written,
      r.2 ∙ ap (λ k. some (k, r.1)) all_read,
      λ j. r.3.bytes j ∙ elim (Bool-cases (ltb j size)) [
        | inl e ↦
            let here = byte_at-Wrote inode fits w.3 (offset + (j - 0)) (ground arith) in
            let f : leb 0 j && ltb j (0 + r.0) ≡ true = ground arith in
            let g : leb offset (offset + (j - 0)) && ltb (offset + (j - 0)) (offset + w.0) ≡ true =
              ground arith in
            let k : offset + (j - 0) - offset ≡ j = omega arith in rw (e, f) (here ∙ rw (g, k) refl)
        | inr e ↦ let f : leb 0 j && ltb j (0 + r.0) ≡ false = ground arith in rw (e, f) refl
      ],
    )
