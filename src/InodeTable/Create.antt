-- ===== src/InodeTable/Create.antt =====
-- A file that inode_create of filesys/inode.c makes.
use tiny_os.Common.{
  ℕ, zero, suc, ◌+◌, ◌-◌, ◌/◌, ◌%◌, ◌^◌, ◌<◌, ◌≡◌, refl, sym, ap, ◌∙◌, subst, Bool, true, false,
  ◌&&◌, Option, none, some, ◌∷◌, ◌==◌, ltb, leb, if◌then◌else◌, arith, Bool-cases, inl, inr,
  ==_refl,
}
use tiny_os.Common.Bytes.{le_word-le_byte}
use tiny_os.Common.Panic.{◌>>=◌}
use tiny_os.Bitmap.{Bitmap, bit_on}
use tiny_os.Bitmap.Bits.{IsValid}
use tiny_os.Bitmap.Groups.{Group}
use tiny_os.Bitmap.Loops.{Filled}
use tiny_os.Inode.{
  InodeDisk, Inode, Disk, disk_write, sectors_of, bytes_to_sectors-sectors_of, byte_to_sector,
  inode_magic,
}
use tiny_os.Inode.Reads.{byte_at}
use tiny_os.FreeMap.{FreeMap, free_map_allocate}
use tiny_os.FreeMap.Sectors.{HasFile, Allocated, Unchanged, free_map_allocate-Allocated}
use tiny_os.InodeTable.{
  FileSystem, inode_disk_bytes, inode_disk_of, zero_loop, inode_create, is_open, inode_open,
}

-- The members that were written are read back.
inode_disk_of-bytes :
    (i : InodeDisk) (bytes : ℕ → ℕ)
    → i.start < 2 ^ 32
    → i.length < 2 ^ 32
    → i.magic < 2 ^ 32
    → ((o : ℕ) → o < 512 → bytes o ≡ inode_disk_bytes i o)
    → inode_disk_of bytes ≡ i
inode_disk_of-bytes i bytes hs hl hm same =
    let s = le_word-le_byte bytes 0 i.start hs (λ k h.
      same (0 + k) (omega arith)
      ∙ (let e : ltb (0 + k) 4 ≡ true = ground arith in
          let z : 0 + k ≡ k = omega arith in rw (e, z) refl)) in
    let l = le_word-le_byte bytes 4 i.length hl (λ k h.
      same (4 + k) (omega arith)
      ∙ (let e : ltb (4 + k) 4 ≡ false = ground arith in
          let f : ltb (4 + k) 8 ≡ true = ground arith in
          let z : 4 + k - 4 ≡ k = omega arith in rw (e, f, z) refl)) in
    let m = le_word-le_byte bytes 8 i.magic hm (λ k h.
      same (8 + k) (omega arith)
      ∙ (let e : ltb (8 + k) 4 ≡ false = ground arith in
          let f : ltb (8 + k) 8 ≡ false = ground arith in
          let g : ltb (8 + k) 12 ≡ true = ground arith in
          let z : 8 + k - 8 ≡ k = omega arith in rw (e, f, g, z) refl)) in
    rw (s, l, m) refl

zero_loop-at :
    (left sector : ℕ) (d : Disk) (t o : ℕ)
    → o < 512
    → zero_loop left sector d t o ≡ (if leb sector t && ltb t (sector + left) then 0 else d t o)
unfolding zero_loop
zero_loop-at zero sector d t o h =
    let e : leb sector t && ltb t (sector + 0) ≡ false = ground arith in rw e refl
zero_loop-at (suc left) sector d t o h =
    let ih = zero_loop-at left (sector + 1) (disk_write d sector (λ o. 0)) t o h in
    let s : ltb o 512 ≡ true = ground arith in
    ih ∙ elim (Bool-cases (t == sector)) [
      | inl e ↦
          let a : leb (sector + 1) t && ltb t (sector + 1 + left) ≡ false = ground arith in
          let b : leb sector t && ltb t (sector + suc left) ≡ true = ground arith in
          rw (e, a, b, s) refl
      | inr e ↦
          let c : leb (sector + 1) t && ltb t (sector + 1 + left)
              ≡ leb sector t && ltb t (sector + suc left) =
            ground arith in
          rw (e, c) refl
    ]

-- A file system whose map is in order.
pub record IsFileSystem (fs : FileSystem) : Type 0 where
  pub valid : IsValid fs.free_map.map
  pub has_file : HasFile fs.free_map.file

-- The inode that is opened after a creation: an empty file of the length asked for, in sectors that
-- were free.
pub record Created (fs : FileSystem) (sector length : ℕ) (fs' : FileSystem) (i : Inode)
    : Type 0 where
  pub inode_sector : i.sector ≡ sector
  pub opened : i.open_cnt ≡ 1
  pub size : i.disk_data.length ≡ length
  pub writable : i.deny_write_cnt ≡ 0
  pub fresh : Group fs.free_map.map i.disk_data.start (sectors_of length) false
  pub in_use : Filled fs.free_map.map i.disk_data.start (sectors_of length) true fs'.free_map.map
  pub zeros : (pos : ℕ) → pos < length → byte_at i fs'.disk pos ≡ 0

-- What becomes of a creation.
abbrev pub Outcome : FileSystem → ℕ → ℕ → Bool → FileSystem → Type 0
Outcome fs sector length true fs' =
    (i : Inode) × (inode_open true fs' sector
      ≡ (true, record fs' { open_inodes = i ∷ fs.open_inodes }))
    × Created fs sector length fs' i
Outcome fs sector length false fs' = Unchanged fs.free_map.map fs'.free_map.map

module _ (fs : FileSystem) (sector length : ℕ) (v : IsFileSystem fs) (small : length + 512 < 2 ^ 31)
    (used : bit_on fs.free_map.map sector ≡ true)
    (closed : is_open sector fs.open_inodes ≡ false) where
  module _ (start : ℕ) (b : Bitmap) (d : Disk)
      (g : Group fs.free_map.map start (sectors_of length) false)
      (f : Filled fs.free_map.map start (sectors_of length) true b) where
    abbrev written : InodeDisk
    written = record { start = start; length = length; magic = inode_magic }

    abbrev after : FileSystem
    after = record fs {
      free_map = record { map = b; file = fs.free_map.file };
      disk = zero_loop (sectors_of length) start (disk_write d sector (inode_disk_bytes written));
    }

    abbrev opened : Inode
    opened = record {
      sector = sector;
      open_cnt = 1;
      removed = false;
      deny_write_cnt = 0;
      disk_data = inode_disk_of (after.disk sector);
    }

    -- The sector of the inode is in use, so it is none of those that were free.
    apart : leb start sector && ltb sector (start + sectors_of length) ≡ false
    apart = elim (Bool-cases (leb start sector && ltb sector (start + sectors_of length))) [
      | inl e ↦
          let clear = g.equal sector (ground arith) (ground arith) in
          let bad : true ≡ false = sym used ∙ clear in absurd (ground arith)
      | inr e ↦ e
    ]

    opened_data : inode_disk_of (after.disk sector) ≡ written
    opened_data =
        let z = g.fits in
        let s = v.valid.small in
        inode_disk_of-bytes written (after.disk sector) (omega arith) (omega arith) (omega arith)
          (λ o h.
            let e = ==_refl sector in
            let l : ltb o 512 ≡ true = ground arith in
            zero_loop-at (sectors_of length) start (disk_write d sector (inode_disk_bytes written))
              sector o h
            ∙ rw (apart, e, l) refl)

    opened_zeros : (pos : ℕ) → pos < length → byte_at opened after.disk pos ≡ 0
    unfolding byte_at byte_to_sector
    opened_zeros pos inside =
        let z = g.fits in
        let s = v.valid.small in
        let e : ltb pos length ≡ true = ground arith in
        let k : (start + pos / 512) % 2 ^ 32 ≡ start + pos / 512 = omega arith in
        let r : leb start (start + pos / 512) && ltb (start + pos / 512) (start + sectors_of length)
            ≡ true =
          ground arith in
        let at =
          zero_loop-at (sectors_of length) start (disk_write d sector (inode_disk_bytes written))
            (start + pos / 512) (pos % 512) (omega arith) in
        ap
          (λ (i : InodeDisk).
            after.disk (if ltb pos i.length then (i.start + pos / 512) % 2 ^ 32 else 2 ^ 32 - 1)
              (pos % 512))
          opened_data
        ∙ rw (e, k) (at ∙ rw r refl)

    opened-Created : Created fs sector length after opened
    opened-Created =
        let data_start : written.start ≡ (inode_disk_of (after.disk sector)).start =
          ap (λ (i : InodeDisk). i.start) (sym opened_data) in
        record {
          inode_sector = refl;
          opened = refl;
          size = ap (λ (i : InodeDisk). i.length) opened_data;
          writable = refl;
          fresh = subst (λ s. Group fs.free_map.map s (sectors_of length) false) data_start g;
          in_use = subst (λ s. Filled fs.free_map.map s (sectors_of length) true b) data_start f;
          zeros = opened_zeros;
        }

    opened-run :
        inode_open true after sector
        ≡ (true, record after { open_inodes = opened ∷ fs.open_inodes })
    unfolding inode_open
    opened-run = rw closed refl

  -- The part of inode_create behind the call of free_map_allocate.
  abbrev behind : ℕ → Option ℕ × (FreeMap × Disk) → Option (Bool × FileSystem)
  behind sectors r = elim r.0 [
    | none ↦ some (false, record fs { free_map = r.1.0; disk = r.1.1 })
    | some start ↦
        let bytes =
          inode_disk_bytes (record { start = start; length = length; magic = inode_magic }) in
        let d = zero_loop sectors start (disk_write r.1.1 sector bytes) in
        some (true, record fs { free_map = r.1.0; disk = d })
  ]

  inode_create-behind :
      (malloc_succeeds : Bool)
      → inode_create true malloc_succeeds fs sector length ≡ (
          free_map_allocate malloc_succeeds fs.free_map fs.disk (sectors_of length)
          >>= behind (sectors_of length))
  unfolding inode_create
  inode_create-behind malloc_succeeds =
      let l : ltb length (2 ^ 31) ≡ true = ground arith in
      rw l (
        ap (λ n. free_map_allocate malloc_succeeds fs.free_map fs.disk n >>= behind n)
          (bytes_to_sectors-sectors_of length small))

  -- A creation for which there is a group of sectors.
  pub inode_create-run :
      (malloc_succeeds : Bool) (start : ℕ) (b : Bitmap) (d : Disk)
      → Group fs.free_map.map start (sectors_of length) false
      → Filled fs.free_map.map start (sectors_of length) true b
      → free_map_allocate malloc_succeeds fs.free_map fs.disk (sectors_of length)
        ≡ some (some start, (record { map = b; file = fs.free_map.file }, d))
      → (fs' : FileSystem) × (i : Inode) × (inode_create true malloc_succeeds fs sector length
          ≡ some (true, fs'))
        × (inode_open true fs' sector ≡ (true, record fs' { open_inodes = i ∷ fs.open_inodes }))
        × Created fs sector length fs' i
        × (i ≡ record {
          sector = sector;
          open_cnt = 1;
          removed = false;
          deny_write_cnt = 0;
          disk_data = inode_disk_of (fs'.disk sector);
        })
  inode_create-run malloc_succeeds start b d g f e = (
    after start b d g f,
    opened start b d g f,
    inode_create-behind malloc_succeeds ∙ ap (λ o. o >>= behind (sectors_of length)) e,
    opened-run start b d g f,
    opened-Created start b d g f,
    refl,
  )

  behind-Outcome :
      (r : Option ℕ) (b : Bitmap) (d : Disk)
      → Allocated fs.free_map.map (sectors_of length) r b
      → (ok : Bool) × (fs' : FileSystem) × (behind
            (sectors_of length)
            (r, (record { map = b; file = fs.free_map.file }, d))
          ≡ some (ok, fs'))
        × Outcome fs sector length ok fs'
  behind-Outcome none b d unchanged = (false, _, refl, unchanged)
  behind-Outcome (some start) b d (g, f) = (
    true,
    after start b d g f,
    refl,
    (opened start b d g f, opened-run start b d g f, opened-Created start b d g f),
  )

  -- Where the free map is valid and its file, if it has one, is on the disk and may be written: inode_create of
  -- a file of fewer than 2 ^ 31 - 512 bytes, with its inode in a sector that is in use and not open,
  -- returns, where there is memory for the inode, and whatever becomes of the writes to the file of
  -- the free map. If it succeeds, inode_open of the sector, where there is memory, gives an inode of the length
  -- asked for, with as many sectors as it needs, which were free and are now in use, and every byte of
  -- the file is 0; if not, the same sectors are in use as before.
  pub inode_create-Created :
      (malloc_succeeds : Bool)
      → (ok : Bool) × (fs' : FileSystem) × (inode_create true malloc_succeeds fs sector length
          ≡ some (ok, fs'))
        × Outcome fs sector length ok fs'
  inode_create-Created malloc_succeeds =
      let a =
        free_map_allocate-Allocated malloc_succeeds fs.free_map fs.disk v.valid v.has_file
          (sectors_of length) in
      let r = behind-Outcome a.0 a.1 a.2 a.4 in
      (
        r.0,
        r.1,
        inode_create-behind malloc_succeeds ∙ ap (λ o. o >>= behind (sectors_of length)) a.3 ∙ r.2,
        r.3,
      )
