-- ===== src/FreeMapFile/RoundTrip.antt =====
-- A free map that is written when the disk is formatted is the one that is read at the next boot.
use tiny_os.Common.{
  ℕ, ◌+◌, ◌^◌, ◌≤◌, ◌<◌, ◌≡◌, refl, sym, ap, subst, ◌∙◌, true, false, ◌&&◌, none, some, List, [],
  ◌∷◌, ◌==◌, leb, ltb, if◌then◌else◌, length, arith, Bool-cases, inl, inr,
}
use tiny_os.Common.Panic.{assert, ◌>>=◌, ◌>>◌}
use tiny_os.Common.Bytes.{le_word}
use tiny_os.Bitmap.{Bitmap, bit_on, elem_cnt}
use tiny_os.Bitmap.Bits.{IsValid}
use tiny_os.Bitmap.Groups.{Group}
use tiny_os.Bitmap.Loops.{Filled}
use tiny_os.BitmapFile.{bitmap_file_size, bitmap_read, bitmap_write}
use tiny_os.BitmapFile.RoundTrip.{bitmap_read-write, bitmap_write-others}
use tiny_os.Inode.{InodeDisk, Inode, Disk, sectors_of, inode_length}
use tiny_os.FreeMap.Sectors.{free_map_allocate-some}
use tiny_os.InodeTable.{FileSystem, inode_disk_of, is_open, inode_open, find_inode}
use tiny_os.InodeTable.Create.{Created, inode_create-run}
use tiny_os.File.{File, file_open}
use tiny_os.FreeMapFile.{open_map, free_map_create, free_map_open}

-- The file system at boot: the disk, and a map of the right size, with nothing opened.
abbrev pub booted : Disk → ℕ → List ℕ → FileSystem
booted d bit_cnt old = record {
  disk = d;
  free_map = record { map = record { bit_cnt = bit_cnt; bits = old }; file = none };
  open_inodes = [];
}

-- The inode that is opened at boot.
abbrev boot_inode : Disk → Inode
boot_inode d = record {
  sector = 0;
  open_cnt = 1;
  removed = false;
  deny_write_cnt = 0;
  disk_data = inode_disk_of (d 0);
}

open_map-boot :
    (d : Disk) (bit_cnt : ℕ) (old : List ℕ)
    → open_map true true (booted d bit_cnt old)
      ≡ some (0, record (booted d bit_cnt old) { open_inodes = boot_inode d ∷ [] })
unfolding open_map inode_open file_open
open_map-boot d bit_cnt old = refl

open_map-run :
    (fs : FileSystem) (i : Inode) (is : List Inode)
    → inode_open true fs 0 ≡ (true, record fs { open_inodes = i ∷ is })
    → open_map true true fs ≡ some (0, record fs { open_inodes = i ∷ is })
unfolding open_map file_open
open_map-run fs i is e =
    ap
      (λ o.
        assert o.0
        >> (file_open true true (some 0) o.1 >>= λ r.
            r.0 >>= λ (file : File). some (file.inode, r.1)))
      e

le_word-same :
    (x y : ℕ → ℕ) (i : ℕ)
    → ((o : ℕ) → o < 512 → x o ≡ y o)
    → i + 3 < 512
    → le_word x i ≡ le_word y i
le_word-same x y i same small =
    rw
      (
        same i (omega arith),
        same (i + 1) (omega arith),
        same (i + 2) (omega arith),
        same (i + 3) (omega arith),
      )
      refl

inode_disk_of-same :
    (x y : ℕ → ℕ) → ((o : ℕ) → o < 512 → x o ≡ y o) → inode_disk_of x ≡ inode_disk_of y
inode_disk_of-same x y same =
    let s = le_word-same x y 0 same (omega arith) in
    let l = le_word-same x y 4 same (omega arith) in
    let m = le_word-same x y 8 same (omega arith) in rw (s, l, m) refl

-- The file system when the disk is formatted, where the map has no file yet.
abbrev pub unformatted : Disk → Bitmap → List Inode → FileSystem
unformatted d b is = record {
  disk = d;
  free_map = record { map = b; file = none };
  open_inodes = is;
}

module _ (d : Disk) (b : Bitmap) (is : List Inode) (old : List ℕ) (valid : IsValid b)
    (used : bit_on b 0 ≡ true) (closed : is_open 0 is ≡ false)
    (storage : elem_cnt b.bit_cnt ≤ length old) where
  -- Once the file of the map has its sectors, it is written, and read at boot.
  written-read :
      (fs1 : FileSystem) (i : Inode)
      → inode_open true fs1 0 ≡ (true, record fs1 { open_inodes = i ∷ is })
      → Created (unformatted d b is) 0 (bitmap_file_size b) fs1 i
      → i ≡ boot_inode fs1.disk
      → (d' : Disk) × (b' : Bitmap) × (bitmap_write true i fs1.disk fs1.free_map.map
          ≡ some (true, d'))
        × (bitmap_read true
              (boot_inode d')
              d'
              (record { bit_cnt = fs1.free_map.map.bit_cnt; bits = old })
            ≡ some (true, b'))
        × ((j : ℕ) → j < b.bit_cnt → bit_on b' j ≡ bit_on fs1.free_map.map j)
  written-read fs1 i run c whole =
      let small = valid.small in
      let group = c.fresh.fits in
      let cnt_eq : sectors_of i.disk_data.length ≡ sectors_of (bitmap_file_size b) =
        ap sectors_of c.size in
      let size = c.in_use.size in
      let fits : i.disk_data.start + sectors_of i.disk_data.length < 2 ^ 32 =
        omega (arith, cnt_eq) in
      let enough : bitmap_file_size fs1.free_map.map ≤ inode_length i = omega (arith, c.size) in
      let w =
        bitmap_read-write i fs1.disk fs1.free_map.map old fits c.writable enough c.in_use.valid
          (omega arith) in
      let apart : leb i.disk_data.start 0
            && ltb 0 (i.disk_data.start + sectors_of i.disk_data.length)
          ≡ false =
        elim (Bool-cases
          (leb i.disk_data.start 0 && ltb 0 (i.disk_data.start + sectors_of i.disk_data.length))) [
            | inl e ↦
                let clear = c.fresh.equal 0 (ground arith) (ground arith) in
                let bad : true ≡ false = sym used ∙ clear in absurd (ground arith)
            | inr e ↦ e
          ] in
      let header = inode_disk_of-same (fs1.disk 0) (w.0 0) (λ o h. sym (
        bitmap_write-others i fs1.disk w.0 fs1.free_map.map true fits c.writable w.2 0 o h
          apart)) in
      let same : i ≡ boot_inode w.0 =
        whole
        ∙ ap
            (λ (data_read : InodeDisk). record {
              sector = 0;
              open_cnt = 1;
              removed = false;
              deny_write_cnt = 0;
              disk_data = data_read;
            })
            header in
      (
        w.0,
        w.1,
        w.2,
        subst
            (λ (k : Inode).
              bitmap_read true k w.0 (record { bit_cnt = fs1.free_map.map.bit_cnt; bits = old })
              ≡ some (true, w.1))
            same w.3,
        λ j h. w.5 j (omega arith),
      )

  -- Where every allocation of memory succeeds, the map is valid and has no file, its own sector is in use and
  -- closed, and there is a group of free sectors for the file: free_map_create stops at no PANIC, and
  -- the sectors of the file are in use afterwards. After a boot with a map of the same size, and again where
  -- memory is available, free_map_open stops at no PANIC: it reads the map from the disk that was left,
  -- whatever the bits of the map in memory are, and they become those that were written.
  pub free_map_open-create :
      (s : ℕ)
      → Group b s (sectors_of (bitmap_file_size b)) false
      → (fs' fs'' : FileSystem) × (start : ℕ) × (free_map_create true true (unformatted d b is)
          ≡ some fs')
        × Filled b start (sectors_of (bitmap_file_size b)) true fs'.free_map.map
        × (free_map_open true true (booted fs'.disk fs'.free_map.map.bit_cnt old) ≡ some fs'')
        × ((j : ℕ) → j < b.bit_cnt → bit_on fs''.free_map.map j ≡ bit_on fs'.free_map.map j)
  unfolding free_map_create free_map_open
  free_map_open-create s group =
      let small = valid.small in
      let a = free_map_allocate-some true b d s (sectors_of (bitmap_file_size b)) valid group in
      let r =
        inode_create-run (unformatted d b is) 0 (bitmap_file_size b)
          (record { valid = valid; has_file = tt }) (omega arith) used closed true a.0 a.1 d a.3 a.4
          a.2 in
      let fs1 = r.0 in
      let i = r.1 in
      let c = r.4 in
      let w = written-read fs1 i r.3 c r.5 in
      let run = open_map-run fs1 i is r.3 in
      let boot = open_map-boot w.0 fs1.free_map.map.bit_cnt old in
      let here : find_inode 0 (i ∷ is) ≡ some i =
        ap (λ (k : ℕ). if k == 0 then some i else find_inode 0 is) c.inode_sector in
      (
        record fs1 {
          open_inodes = i ∷ is;
          disk = w.0;
          free_map = record { map = fs1.free_map.map; file = some i };
        },
        record (booted w.0 fs1.free_map.map.bit_cnt old) {
          open_inodes = boot_inode w.0 ∷ [];
          free_map = record { map = w.1; file = some (boot_inode w.0) };
        },
        i.disk_data.start,
        rw (r.2, run, here, w.2) refl,
        c.in_use,
        rw (boot, w.3) refl,
        w.4,
      )
