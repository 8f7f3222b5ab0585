-- ===== src/Inode/Writes.antt =====
-- inode_write_at of filesys/inode.c changes the file where it is meant to, and no other byte of the disk.
use tiny_os.Common.{
  ℕ, zero, suc, ◌+◌, ◌-◌, ◌*◌, ◌/◌, ◌%◌, ◌^◌, ◌≤◌, ◌<◌, ◌≡◌, refl, sym, ap, ◌∙◌, Bool, true, false,
  ◌&&◌, ◌||◌, some, ◌==◌, ltb, leb, if◌then◌else◌, arith, Bool-cases, inl, inr, ==_iff,
}
use tiny_os.Inode.{
  Inode, Disk, disk_write, sectors_of, byte_to_sector, inode_length, chunk_size, is_whole,
  sector_data, write_loop, inode_write_at,
}
use tiny_os.Inode.Reads.{byte_at, smaller, chunk_size-bounds, chunk_size-zero}

-- The position in the file of a byte of the disk, from the start of the file on.
abbrev pub position : Inode → ℕ → ℕ → ℕ
position inode t o = (t - inode.disk_data.start) * 512 + o

-- Whether a byte of the disk is one of `n` bytes of the file from `offset` on.
abbrev pub is_at : Inode → ℕ → ℕ → ℕ → ℕ → Bool
is_at inode offset n t o =
    leb inode.disk_data.start t
    && (leb offset (position inode t o) && ltb (position inode t o) (offset + n))

-- The disk with `n` bytes of the file, from `offset` on, those of the buffer from the index `at` on.
abbrev pub written : Inode → Disk → (ℕ → ℕ) → ℕ → ℕ → ℕ → Disk
written inode d buffer offset at n t o =
    if is_at inode offset n t o then buffer (at + (position inode t o - offset)) else d t o

written-append :
    (inode : Inode) (d d1 : Disk) (buffer : ℕ → ℕ) (offset at c n t o : ℕ)
    → d1 t o ≡ written inode d buffer offset at c t o
    → written inode d1 buffer (offset + c) (at + c) n t o
      ≡ written inode d buffer offset at (c + n) t o
written-append inode d d1 buffer offset at c n t o first =
    let p = position inode t o in
    elim (Bool-cases (is_at inode (offset + c) n t o)) [
      | inl e ↦
          let f : is_at inode offset (c + n) t o ≡ true = ground arith in
          let q : at + c + (p - (offset + c)) ≡ at + (p - offset) = ground arith in
          rw (e, f, q) refl
      | inr e ↦ elim (Bool-cases (is_at inode offset c t o)) [
        | inl g ↦
            let f : is_at inode offset (c + n) t o ≡ true = ground arith in
            rw (e, f) (first ∙ rw g refl)
        | inr g ↦
            let f : is_at inode offset (c + n) t o ≡ false = ground arith in
            rw (e, f) (first ∙ rw g refl)
      ]
    ]

written-none :
    (inode : Inode) (d : Disk) (buffer : ℕ → ℕ) (offset at t o : ℕ)
    → d t o ≡ written inode d buffer offset at 0 t o
written-none inode d buffer offset at t o =
    let e : is_at inode offset 0 t o ≡ false = ground arith in rw e refl

-- What a round writes to its sector: the chunk, and the bytes that are there outside of it.
sector_data-chunk :
    (inode : Inode) (d : Disk) (buffer : ℕ → ℕ) (chunk offset at o : ℕ)
    → o < 512
    → chunk + offset % 512 ≤ 512
    → sector_data inode d buffer chunk offset at o ≡ (
        if leb (offset % 512) o && ltb o (offset % 512 + chunk)
        then buffer (at + (o - offset % 512))
        else d (byte_to_sector inode offset) o)
sector_data-chunk inode d buffer chunk offset at o small one =
    elim (Bool-cases (is_whole chunk offset)) [
      | inl w ↦
          let e : leb (offset % 512) o && ltb o (offset % 512 + chunk) ≡ true = ground arith in
          let p : o - offset % 512 ≡ o = ground arith in rw (w, e, p) refl
      | inr w ↦ elim (Bool-cases (leb (offset % 512) o && ltb o (offset % 512 + chunk))) [
        | inl e ↦ rw (w, e) refl
        | inr e ↦
            let c : ltb 0 (offset % 512) || ltb chunk (512 - offset % 512) ≡ true = ground arith in
            rw (w, e, c) refl
      ]
    ]

module _ (inode : Inode)
    (fits : inode.disk_data.start + sectors_of inode.disk_data.length < 2 ^ 32) where
  byte_to_sector-in :
      (pos : ℕ)
      → pos < inode.disk_data.length
      → byte_to_sector inode pos ≡ inode.disk_data.start + pos / 512
  unfolding byte_to_sector
  byte_to_sector-in pos inside =
      let e : ltb pos inode.disk_data.length ≡ true = ground arith in rw e (omega arith)

  chunk-written :
      (d : Disk) (buffer : ℕ → ℕ) (size offset at t o : ℕ)
      → o < 512
      → (chunk_size inode size offset == 0) ≡ false
      → let chunk = chunk_size inode size offset in
        disk_write d (byte_to_sector inode offset) (sector_data inode d buffer chunk offset at) t o
        ≡ written inode d buffer offset at chunk t o
  chunk-written d buffer size offset at t o small some_bytes =
      let chunk = chunk_size inode size offset in
      let b = chunk_size-bounds inode size offset in
      let start = inode.disk_data.start in
      let s : byte_to_sector inode offset ≡ start + offset / 512 =
        byte_to_sector-in offset (ground arith) in
      let r = sector_data-chunk inode d buffer chunk offset at o small (omega arith) in
      let in_sector : ltb o 512 ≡ true = ground arith in
      elim (Bool-cases (t == byte_to_sector inode offset)) [
        | inl e ↦
            let here : t ≡ byte_to_sector inode offset = (==_iff t _).0 e in
            let p : position inode t o ≡ offset / 512 * 512 + o = ground arith in
            let w : is_at inode offset chunk t o
                ≡ (leb (offset % 512) o && ltb o (offset % 512 + chunk)) =
              ground arith in
            let q : position inode t o - offset ≡ o - offset % 512 = omega arith in
            rw (e, in_sector, w, q)
              (r
                ∙ ap
                    (λ u.
                      if leb (offset % 512) o && ltb o (offset % 512 + chunk)
                      then buffer (at + (o - offset % 512))
                      else d u o)
                    (sym here))
        | inr e ↦ let w : is_at inode offset chunk t o ≡ false = ground arith in rw (e, w) refl
      ]

  -- `n` bytes are transferred: all that are given and fit in the file, if memory is available.
  pub record Wrote (malloc_succeeds : Bool) (d : Disk) (buffer : ℕ → ℕ) (size offset at n : ℕ)
      (d' : Disk) : Type 0 where
    pub count_bound : n ≤ smaller size (inode_length inode - offset)
    pub complete : malloc_succeeds ≡ true → n ≡ smaller size (inode_length inode - offset)
    pub bytes : (t o : ℕ) → o < 512 → d' t o ≡ written inode d buffer offset at n t o

  module _ (malloc_succeeds : Bool) (buffer : ℕ → ℕ) where
    write_loop-Wrote :
        (fuel : ℕ) (d : Disk) (size offset at : ℕ)
        → size < fuel
        → (n : ℕ) × (d' : Disk) × (write_loop fuel malloc_succeeds inode d buffer size offset at
            ≡ some (at + n, d'))
          × Wrote malloc_succeeds d buffer size offset at n d'
    unfolding write_loop
    write_loop-Wrote zero d size offset at f = absurd (omega arith)
    write_loop-Wrote (suc fuel) d size offset at f =
        let chunk = chunk_size inode size offset in
        let stop : at ≡ at + 0 = omega arith in
        elim (Bool-cases (size == 0)) [
          | inl e ↦ (
            0,
            d,
            rw e (ap (λ k. some (k, d)) stop),
            record {
              count_bound = omega arith;
              complete = λ m. ground arith;
              bytes = λ t o h. written-none inode d buffer offset at t o;
            },
          )
          | inr e ↦ elim (Bool-cases (chunk == 0)) [
            | inl z ↦
                let none_left = chunk_size-zero inode size offset (ground arith) in
                (
                  0,
                  d,
                  rw (e, z) (ap (λ k. some (k, d)) stop),
                  record {
                    count_bound = omega arith;
                    complete = λ m. sym none_left;
                    bytes = λ t o h. written-none inode d buffer offset at t o;
                  },
                )
            | inr z ↦ elim (Bool-cases (is_whole chunk offset || malloc_succeeds)) [
              | inr g ↦ (
                0,
                d,
                rw (e, z, g) (ap (λ k. some (k, d)) stop),
                record {
                  count_bound = omega arith;
                  complete = λ m. absurd (ground arith);
                  bytes = λ t o h. written-none inode d buffer offset at t o;
                },
              )
              | inl g ↦
                  let d1 =
                    disk_write d (byte_to_sector inode offset)
                      (sector_data inode d buffer chunk offset at) in
                  let b = chunk_size-bounds inode size offset in
                  let r =
                    write_loop-Wrote fuel d1 (size - chunk) (offset + chunk) (at + chunk)
                      (ground arith) in
                  let n = r.0 in
                  let sum : at + chunk + n ≡ at + (chunk + n) = omega arith in
                  (
                    chunk + n,
                    r.1,
                    rw (e, z, g) (r.2 ∙ ap (λ k. some (k, r.1)) sum),
                    record {
                      count_bound = let c = r.3.count_bound in ground arith;
                      complete = λ m. let c = r.3.complete m in ground arith;
                      bytes = λ t o h.
                          r.3.bytes t o h
                          ∙ written-append inode d d1 buffer offset at chunk n t o
                              (chunk-written d buffer size offset at t o h z);
                    },
                  )
            ]
          ]
        ]

    -- inode_write_at returns, on every disk and buffer and for every size and offset, where writes are not
    -- denied and the sectors of the file have numbers below 2 ^ 32: as many bytes as it counts, from the
    -- offset on, are those of the buffer, and no other byte of the disk is changed. There are as many
    -- as are given and fit in the file, where memory is available, and never more.
    pub inode_write_at-Wrote :
        (d : Disk) (size offset : ℕ)
        → inode.deny_write_cnt ≡ 0
        → (n : ℕ) × (d' : Disk) × (inode_write_at malloc_succeeds inode d buffer size offset
            ≡ some (n, d'))
          × Wrote malloc_succeeds d buffer size offset 0 n d'
    unfolding inode_write_at
    inode_write_at-Wrote d size offset allowed =
        let r = write_loop-Wrote (size + 1) d size offset 0 (omega arith) in
        let z : 0 + r.0 ≡ r.0 = omega arith in
        let e : (inode.deny_write_cnt == 0) ≡ true = ground arith in
        let run = write_loop (size + 1) malloc_succeeds inode d buffer size offset 0 in
        (
          r.0,
          r.1,
          ap (λ b. if b then run else some (0, d)) e ∙ r.2 ∙ ap (λ k. some (k, r.1)) z,
          r.3,
        )

  -- The file after a transfer.
  pub byte_at-Wrote :
      {malloc_succeeds : Bool} {d : Disk} {buffer : ℕ → ℕ} {size offset n : ℕ} {d' : Disk}
      → Wrote malloc_succeeds d buffer size offset 0 n d'
      → (pos : ℕ) → pos < inode_length inode
      → byte_at inode d' pos ≡ (
          if leb offset pos && ltb pos (offset + n)
          then buffer (pos - offset)
          else byte_at inode d pos)
  unfolding byte_at
  byte_at-Wrote {d} {buffer} {offset} {n} w pos inside =
      let start = inode.disk_data.start in
      let t = start + pos / 512 in
      let o = pos % 512 in
      let s = byte_to_sector-in pos inside in
      let p : position inode t o ≡ pos = omega arith in
      let c : is_at inode offset n t o ≡ leb offset pos && ltb pos (offset + n) = ground arith in
      let z : 0 + (position inode t o - offset) ≡ pos - offset = omega arith in
      rw s (w.bytes t o (omega arith) ∙ rw (c, z) refl)

  -- A file with other sectors is not changed.
  pub byte_at_other-Wrote :
      {malloc_succeeds : Bool} {d : Disk} {buffer : ℕ → ℕ} {size offset n : ℕ} {d' : Disk}
      → Wrote malloc_succeeds d buffer size offset 0 n d'
      → (t o : ℕ) → o < 512
      → leb inode.disk_data.start t
          && ltb t (inode.disk_data.start + sectors_of inode.disk_data.length)
        ≡ false
      → d' t o ≡ d t o
  byte_at_other-Wrote {size} {offset} {n} w t o small apart =
      let b = w.count_bound in
      let c : is_at inode offset n t o ≡ false = elim (Bool-cases (leb inode.disk_data.start t)) [
        | inl e ↦ ground arith
        | inr e ↦ ground arith
      ] in
      w.bytes t o small ∙ rw c refl
