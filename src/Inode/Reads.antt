-- ===== src/Inode/Reads.antt =====
-- inode_read_at of filesys/inode.c reads what the file holds.
use tiny_os.Common.{
  ℕ, zero, suc, ◌+◌, ◌-◌, ◌/◌, ◌%◌, ◌≤◌, ◌<◌, ◌≡◌, refl, sym, ap, ◌∙◌, Bool, true, false, ◌&&◌,
  ◌||◌, some, ◌==◌, ltb, leb, if◌then◌else◌, arith, Bool-cases, inl, inr,
}
use tiny_os.Inode.{
  Inode, Disk, copied, byte_to_sector, inode_length, chunk_size, is_whole, read_loop, inode_read_at,
}

-- The byte of the file at a position.
unfoldable pub byte_at : Inode → Disk → ℕ → ℕ
byte_at inode d pos = d (byte_to_sector inode pos) (pos % 512)

abbrev pub smaller : ℕ → ℕ → ℕ
smaller a b = if ltb a b then a else b

pub chunk_size-bounds :
    (inode : Inode) (size offset : ℕ)
    → (chunk_size inode size offset ≤ size)
      × (chunk_size inode size offset ≤ inode_length inode - offset)
      × (chunk_size inode size offset + offset % 512 ≤ 512)
unfolding chunk_size
chunk_size-bounds inode size offset = (ground arith, ground arith, ground arith)

-- A round moves nothing only at the end of the file or of the transfer.
pub chunk_size-zero :
    (inode : Inode) (size offset : ℕ)
    → chunk_size inode size offset ≡ 0
    → smaller size (inode_length inode - offset) ≡ 0
unfolding chunk_size
chunk_size-zero inode size offset h = ground arith

-- The bytes of a chunk lie in one sector.
pub byte_at-chunk :
    (inode : Inode) (d : Disk) (offset k : ℕ)
    → offset % 512 + k < 512
    → offset + k < inode_length inode
    → d (byte_to_sector inode offset) (offset % 512 + k) ≡ byte_at inode d (offset + k)
unfolding byte_at byte_to_sector
byte_at-chunk inode d offset k one inside =
    let q : (offset + k) / 512 ≡ offset / 512 = omega arith in
    let r : (offset + k) % 512 ≡ offset % 512 + k = omega arith in
    let a : ltb (offset + k) inode.disk_data.length ≡ true = ground arith in
    let b : ltb offset inode.disk_data.length ≡ true = ground arith in rw (q, r, a, b) refl

-- `n` bytes of the file from `offset` on stand in the buffer from the index `at` on.
abbrev pub filled : Inode → Disk → (ℕ → ℕ) → ℕ → ℕ → ℕ → ℕ → ℕ
filled inode d buffer offset at n j =
    if leb at j && ltb j (at + n) then byte_at inode d (offset + (j - at)) else buffer j

chunk-filled :
    (inode : Inode) (d : Disk) (buffer : ℕ → ℕ) (size offset at j : ℕ)
    → let chunk = chunk_size inode size offset in
      let sector = d (byte_to_sector inode offset) in
      (if is_whole chunk offset
          then copied 512 buffer at sector 0
          else copied chunk buffer at sector (offset % 512))
        j
      ≡ filled inode d buffer offset at chunk j
chunk-filled inode d buffer size offset at j =
    let b = chunk_size-bounds inode size offset in
    let chunk = chunk_size inode size offset in
    let k = j - at in
    elim (Bool-cases (leb at j && ltb j (at + chunk))) [
      | inl e ↦
          let here = byte_at-chunk inode d offset k (ground arith) (ground arith) in
          elim (Bool-cases (is_whole chunk offset)) [
            | inl w ↦
                let first : offset % 512 + k ≡ 0 + k = ground arith in
                let f : leb at j && ltb j (at + 512) ≡ true = ground arith in
                rw (w, e, f) (ap (d (byte_to_sector inode offset)) (sym first) ∙ here)
            | inr w ↦ rw (w, e) here
          ]
      | inr e ↦ elim (Bool-cases (is_whole chunk offset)) [
        | inl w ↦ let f : leb at j && ltb j (at + 512) ≡ false = ground arith in rw (w, e, f) refl
        | inr w ↦ rw (w, e) refl
      ]
    ]

-- Two transfers after each other.
filled-append :
    (inode : Inode) (d : Disk) (buffer buffer1 : ℕ → ℕ) (offset at c n j : ℕ)
    → buffer1 j ≡ filled inode d buffer offset at c j
    → filled inode d buffer1 (offset + c) (at + c) n j ≡ filled inode d buffer offset at (c + n) j
filled-append inode d buffer buffer1 offset at c n j first =
    elim (Bool-cases (leb (at + c) j && ltb j (at + c + n))) [
      | inl e ↦
          let f : leb at j && ltb j (at + (c + n)) ≡ true = ground arith in
          let p : offset + c + (j - (at + c)) ≡ offset + (j - at) = ground arith in
          rw (e, f, p) refl
      | inr e ↦ elim (Bool-cases (leb at j && ltb j (at + c))) [
        | inl g ↦
            let f : leb at j && ltb j (at + (c + n)) ≡ true = ground arith in
            rw (e, f) (first ∙ rw g refl)
        | inr g ↦
            let f : leb at j && ltb j (at + (c + n)) ≡ false = ground arith in
            rw (e, f) (first ∙ rw g refl)
      ]
    ]

-- `n` bytes are transferred: all that are asked for and in the file, if memory is available.
pub record Read (malloc_succeeds : Bool) (inode : Inode) (d : Disk) (buffer : ℕ → ℕ)
    (size offset at n : ℕ) (buffer' : ℕ → ℕ) : Type 0 where
  pub count_bound : n ≤ smaller size (inode_length inode - offset)
  pub complete : malloc_succeeds ≡ true → n ≡ smaller size (inode_length inode - offset)
  pub bytes : (j : ℕ) → buffer' j ≡ filled inode d buffer offset at n j

filled-none :
    (inode : Inode) (d : Disk) (buffer : ℕ → ℕ) (offset at j : ℕ)
    → buffer j ≡ filled inode d buffer offset at 0 j
filled-none inode d buffer offset at j =
    let e : leb at j && ltb j (at + 0) ≡ false = ground arith in rw e refl

module _ (malloc_succeeds : Bool) (inode : Inode) (d : Disk) where
  read_loop-Read :
      (fuel : ℕ) (buffer : ℕ → ℕ) (size offset at : ℕ)
      → size < fuel
      → (n : ℕ) × (buffer' : ℕ → ℕ) × (read_loop fuel malloc_succeeds inode d buffer size offset at
          ≡ some (at + n, buffer'))
        × Read malloc_succeeds inode d buffer size offset at n buffer'
  unfolding read_loop
  read_loop-Read zero buffer size offset at f = absurd (omega arith)
  read_loop-Read (suc fuel) buffer size offset at f =
      let chunk = chunk_size inode size offset in
      let stop : at ≡ at + 0 = omega arith in
      elim (Bool-cases (size == 0)) [
        | inl e ↦ (
          0,
          buffer,
          rw e (ap (λ k. some (k, buffer)) stop),
          record {
            count_bound = omega arith;
            complete = λ m. ground arith;
            bytes = filled-none inode d buffer offset at;
          },
        )
        | inr e ↦ elim (Bool-cases (chunk == 0)) [
          | inl z ↦
              let none_left = chunk_size-zero inode size offset (ground arith) in
              (
                0,
                buffer,
                rw (e, z) (ap (λ k. some (k, buffer)) stop),
                record {
                  count_bound = omega arith;
                  complete = λ m. sym none_left;
                  bytes = filled-none inode d buffer offset at;
                },
              )
          | inr z ↦ elim (Bool-cases (is_whole chunk offset || malloc_succeeds)) [
            | inr g ↦ (
              0,
              buffer,
              rw (e, z, g) (ap (λ k. some (k, buffer)) stop),
              record {
                count_bound = omega arith;
                complete = λ m. absurd (ground arith);
                bytes = filled-none inode d buffer offset at;
              },
            )
            | inl g ↦
                let sector = d (byte_to_sector inode offset) in
                let buffer1 =
                  if is_whole chunk offset
                  then copied 512 buffer at sector 0
                  else copied chunk buffer at sector (offset % 512) in
                let b = chunk_size-bounds inode size offset in
                let r =
                  read_loop-Read fuel buffer1 (size - chunk) (offset + chunk) (at + chunk)
                    (ground arith) in
                let n = r.0 in
                let sum : at + chunk + n ≡ at + (chunk + n) = omega arith in
                (
                  chunk + n,
                  r.1,
                  rw (e, z, g) (r.2 ∙ ap (λ k. some (k, r.1)) sum),
                  record {
                    count_bound = let c = r.3.count_bound in ground arith;
                    complete = λ m. let c = r.3.complete m in ground arith;
                    bytes = λ j.
                        r.3.bytes j
                        ∙ filled-append inode d buffer buffer1 offset at chunk n j
                            (chunk-filled inode d buffer size offset at j);
                  },
                )
          ]
        ]
      ]

  -- inode_read_at returns, on every file, disk and buffer and for every size and offset: the bytes
  -- that it counts are in the buffer as the file has them from the offset on, the rest of the buffer
  -- is as it was, and there are as many as are asked for and in the file, where memory is available,
  -- and never more.
  pub inode_read_at-Read :
      (buffer : ℕ → ℕ) (size offset : ℕ)
      → (n : ℕ) × (buffer' : ℕ → ℕ) × (inode_read_at malloc_succeeds inode d buffer size offset
          ≡ some (n, buffer'))
        × Read malloc_succeeds inode d buffer size offset 0 n buffer'
  unfolding inode_read_at
  inode_read_at-Read buffer size offset =
      let r = read_loop-Read (size + 1) buffer size offset 0 (omega arith) in
      let z : 0 + r.0 ≡ r.0 = omega arith in (r.0, r.1, r.2 ∙ ap (λ k. some (k, r.1)) z, r.3)
