-- ===== src/InodeTable/Close.antt =====
-- inode_open and inode_close of filesys/inode.c as they change the count of openers.
use tiny_os.Common.{
  ◌<◌, ◌^◌, ℕ, ◌+◌, ◌-◌, ◌≤◌, ◌≡◌, refl, sym, ap, ◌∙◌, subst, Bool, true, false, ◌&&◌, ◌||◌, some,
  List, ◌∷◌, ◌==◌, if◌then◌else◌, arith, Bool-cases, inl, inr,
}
use tiny_os.Bitmap.{Bitmap, bit_on}
use tiny_os.Bitmap.Bits.{IsValid}
use tiny_os.Bitmap.Loops.{Every, inside}
use tiny_os.Inode.{Inode, Disk, sectors_of, bytes_to_sectors-sectors_of}
use tiny_os.FreeMap.Sectors.{HasFile, free_map_release-Filled}
use tiny_os.InodeTable.{
  FileSystem, inode_disk_of, is_open, reopened, inode_open, find_inode, put_inode, drop_inode,
  release_blocks, inode_close,
}
use tiny_os.InodeTable.Openers.{
  opens, IsOpenList, opens-closed, reopened-IsOpenList, opens-reopened, find_inode-opens, opens-one,
  drop_inode-IsOpenList, opens-dropped, put_inode-IsOpenList, opens-put,
}

-- The list is in order and its counts are those of `is`, but for the sector, which has `n`.
abbrev pub Counted : List Inode → ℕ → ℕ → List Inode → Type 0
Counted is sector n is' =
    IsOpenList is' × ((t : ℕ) → opens t is' ≡ (if t == sector then n else opens t is))

abbrev new_inode : FileSystem → ℕ → Inode
new_inode fs sector = record {
  sector = sector;
  open_cnt = 1;
  removed = false;
  deny_write_cnt = 0;
  disk_data = inode_disk_of (fs.disk sector);
}

-- inode_open, where there is memory, opens the inode: its sector has one opener more than before, no other has, and
-- neither the disk nor the free map changes. No two inodes of the list have the same sector.
pub inode_open-Counted :
    (fs : FileSystem) (sector : ℕ)
    → IsOpenList fs.open_inodes
    → (is' : List Inode) × (inode_open true fs sector ≡ (true, record fs { open_inodes = is' }))
      × Counted fs.open_inodes sector (opens sector fs.open_inodes + 1) is'
unfolding inode_open
inode_open-Counted fs sector l = elim (Bool-cases (is_open sector fs.open_inodes)) [
  | inl e ↦ (
    reopened sector fs.open_inodes,
    rw e refl,
    (
      reopened-IsOpenList sector fs.open_inodes l,
      λ t. opens-reopened t sector fs.open_inodes ∙ elim (Bool-cases (t == sector)) [
        | inl f ↦
            let same : t ≡ sector = ground arith in
            let g : sector == sector ≡ true = ground arith in rw (same, e, g) refl
        | inr f ↦ rw (e, f) refl
      ],
    ),
  )
  | inr e ↦
      let z = opens-closed sector fs.open_inodes e in
      (
        new_inode fs sector ∷ fs.open_inodes,
        rw e refl,
        (
          (e, omega arith, l),
          λ t. elim (Bool-cases (t == sector)) [
            | inl f ↦ let g : sector == t ≡ true = ground arith in rw (f, g, z) refl
            | inr f ↦ let g : sector == t ≡ false = ground arith in rw (f, g) refl
          ],
        ),
      )
]

-- The sectors of an inode and of its data are in use, and the first is none of the others; the number of the others
-- is computed without overflow.
pub record Holds (b : Bitmap) (i : Inode) : Type 0 where
  pub small : i.disk_data.length + 512 < 2 ^ 31
  pub sector_fits : i.sector + 1 ≤ b.bit_cnt
  pub sector_used : Every b i.sector 1 true
  pub data_fits : i.disk_data.start + sectors_of i.disk_data.length ≤ b.bit_cnt
  pub data_used : Every b i.disk_data.start (sectors_of i.disk_data.length) true
  pub apart : inside i.disk_data.start (sectors_of i.disk_data.length) i.sector ≡ false

-- The sectors of an inode and of its data are free, and no other has changed.
pub record Released (b : Bitmap) (i : Inode) (b' : Bitmap) : Type 0 where
  pub size : b'.bit_cnt ≡ b.bit_cnt
  pub valid : IsValid b'
  pub content :
      (j : ℕ)
      → bit_on b' j ≡ (
          if j == i.sector || inside i.disk_data.start (sectors_of i.disk_data.length) j
          then false
          else bit_on b j)

release_blocks-Released :
    (malloc_succeeds : Bool) (fs : FileSystem) (b : Bitmap) (inode i : Inode)
    → fs.free_map ≡ record { map = b; file = some inode }
    → IsValid b
    → HasFile (some inode)
    → Holds b i
    → (b' : Bitmap) × (d' : Disk) × (release_blocks malloc_succeeds fs i
        ≡ some (record fs { free_map = record { map = b'; file = some inode }; disk = d' }))
      × Released b i b'
unfolding release_blocks
release_blocks-Released malloc_succeeds fs b inode i e v has h =
    let r =
      free_map_release-Filled malloc_succeeds b inode fs.disk i.sector 1 v has h.sector_fits
        h.sector_used in
    let cnt = sectors_of i.disk_data.length in
    let size = r.3.size in
    let used : Every r.0 i.disk_data.start cnt true = λ j low high.
      r.3.content j
      ∙ (let u = h.data_used j low high in
          let a = h.apart in let k : inside i.sector 1 j ≡ false = ground arith in rw k u) in
    let s =
      free_map_release-Filled malloc_succeeds r.0 inode r.1 i.disk_data.start cnt r.3.valid has
        (omega (arith, size, h.data_fits)) used in
    (
      s.0,
      s.1,
      rw (e, r.2, bytes_to_sectors-sectors_of i.disk_data.length h.small, s.2) refl,
      record {
        size = s.3.size ∙ size;
        valid = s.3.valid;
        content = λ j. s.3.content j ∙ elim (Bool-cases (inside i.disk_data.start cnt j)) [
          | inl f ↦ rw f (ground arith)
          | inr f ↦
              let k : inside i.sector 1 j ≡ (j == i.sector) = ground arith in
              rw f (r.3.content j ∙ rw k (ground arith))
        ];
      },
    )

-- What a close does to the free map: it releases the blocks if the file was removed and has no opener left.
abbrev pub Blocks : Bool → FileSystem → Inode → FileSystem → Type 0
Blocks true fs i fs' =
    Released fs.free_map.map i fs'.free_map.map × (fs'.free_map.file ≡ fs.free_map.file)
Blocks false fs i fs' = (fs'.free_map ≡ fs.free_map) × (fs'.disk ≡ fs.disk)

module _ (malloc_succeeds : Bool) (fs : FileSystem) (inode i : Inode)
    (valid : IsValid fs.free_map.map) (file : fs.free_map.file ≡ some inode)
    (has : HasFile (some inode)) (l : IsOpenList fs.open_inodes)
    (found : find_inode i.sector fs.open_inodes ≡ some i) where
  -- The state without the inode, and with it.
  abbrev gone : FileSystem
  gone = record fs { open_inodes = drop_inode i.sector fs.open_inodes }

  abbrev less : Inode
  less = record i { open_cnt = i.open_cnt - 1 }

  known : (opens i.sector fs.open_inodes ≡ i.open_cnt) × (is_open i.sector fs.open_inodes ≡ true)
  known = find_inode-opens i.sector fs.open_inodes i found

  gone-Counted : Counted fs.open_inodes i.sector 0 gone.open_inodes
  gone-Counted = (
    drop_inode-IsOpenList i.sector fs.open_inodes l,
    λ t. opens-dropped t i.sector fs.open_inodes l,
  )

  removed_run :
      i.open_cnt == 1 ≡ true
      → i.removed ≡ true
      → inode_close malloc_succeeds fs i.sector ≡ release_blocks malloc_succeeds gone i
  unfolding inode_close
  removed_run last r =
      rw (found, last)
        (ap (λ (x : Bool). if x then release_blocks malloc_succeeds gone i else some gone) r)

  less-Counted :
      1 ≤ i.open_cnt - 1
      → Counted fs.open_inodes i.sector (i.open_cnt - 1) (put_inode less fs.open_inodes)
  less-Counted one =
      (put_inode-IsOpenList less fs.open_inodes one l, λ t. opens-put t less fs.open_inodes known.1)

  -- Where the list of open inodes is in order, the free map is valid and has a file, which is on the disk and
  -- may be written, inode_close of an inode that is open fails no ASSERT: the inode has one opener fewer, and no
  -- other inode has changed its count. If it was removed and this was the last opener, its length has to
  -- be below 2 ^ 31 - 512 and its sector and those of its data, all different, have to be in use: they are
  -- free afterwards, and no other sector has changed. Otherwise neither the free map nor the disk changes.
  pub inode_close-Counted :
      ((i.open_cnt == 1) && i.removed ≡ true → Holds fs.free_map.map i)
      → (fs' : FileSystem) × (inode_close malloc_succeeds fs i.sector ≡ some fs')
        × Counted fs.open_inodes i.sector (opens i.sector fs.open_inodes - 1) fs'.open_inodes
        × Blocks ((i.open_cnt == 1) && i.removed) fs i fs'
  unfolding inode_close
  inode_close-Counted holds =
      let cnt = known.0 in
      let one = opens-one i.sector fs.open_inodes l known.1 in
      elim (Bool-cases (i.open_cnt == 1)) [
        | inl last ↦
            let z : opens i.sector fs.open_inodes - 1 ≡ 0 = ground arith in
            elim (Bool-cases i.removed) [
              | inl r ↦
                  let both : (i.open_cnt == 1) && i.removed ≡ true = rw (last, r) refl in
                  let b =
                    release_blocks-Released malloc_succeeds gone fs.free_map.map inode i
                      (ap (λ f. record { map = fs.free_map.map; file = f }) file) valid has
                      (holds both) in
                  (
                    record gone { free_map = record { map = b.0; file = some inode }; disk = b.1 },
                    removed_run last r ∙ b.2,
                    rw z gone-Counted,
                    subst
                        (λ x. Blocks x fs i (record gone {
                          free_map = record { map = b.0; file = some inode };
                          disk = b.1;
                        }))
                        (sym both) (b.3, sym file),
                  )
              | inr r ↦
                  (gone, rw (found, last, r) refl, rw z gone-Counted, rw (last, r) (refl, refl))
            ]
        | inr more ↦ (
          record fs { open_inodes = put_inode less fs.open_inodes },
          rw (found, more) refl,
          rw cnt (less-Counted (ground arith)),
          rw more (refl, refl),
        )
      ]
