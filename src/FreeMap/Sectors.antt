-- ===== src/FreeMap/Sectors.antt =====
-- Sectors that filesys/free-map.c gives out and takes back.
use tiny_os.Common.{
  zero, suc, ◌⊎◌, ℕ, ◌+◌, ◌^◌, ◌≤◌, ◌<◌, ◌≡◌, inl, inr, refl, sym, ap, subst, ◌∙◌, Bool, true,
  false, Option, none, some, ◌==◌, arith, Bool-cases,
}
use tiny_os.Bitmap.{Bitmap, bit_on, byte_cnt, bitmap_error}
use tiny_os.Bitmap.Bits.{IsValid}
use tiny_os.Bitmap.Loops.{inside, Filled, Every, set_multiple-Filled}
use tiny_os.Bitmap.Groups.{Group, scan_and_flip-IsFlipped}
use tiny_os.Palloc.RoundTrip.{all-true, all-false}
use tiny_os.BitmapFile.{bytes_of, bitmap_write}
use tiny_os.Inode.{Inode, Disk, sectors_of}
use tiny_os.Inode.Writes.{inode_write_at-Wrote}
use tiny_os.FreeMap.{FreeMap, store_group, free_map_allocate, free_map_release}

-- The file, if there is one, is on the disk, and may be written.
abbrev pub HasFile : Option Inode → Type 0
HasFile none = Unit {0}
HasFile (some inode) =
    (inode.disk_data.start + sectors_of inode.disk_data.length < 2 ^ 32)
    × (inode.deny_write_cnt ≡ 0)

bitmap_write-some :
    (malloc_succeeds : Bool) (inode : Inode) (d : Disk) (b : Bitmap)
    → HasFile (some inode)
    → (ok : Bool) × (d' : Disk) × (bitmap_write malloc_succeeds inode d b ≡ some (ok, d'))
unfolding bitmap_write
bitmap_write-some malloc_succeeds inode d b file =
    let size = byte_cnt b.bit_cnt in
    let w = inode_write_at-Wrote inode file.0 malloc_succeeds (bytes_of b.bits) d size 0 file.1 in
    (w.0 == size, w.1, rw w.2 refl)

-- The map has the same bits.
pub record Unchanged (b b' : Bitmap) : Type 0 where
  pub size : b'.bit_cnt ≡ b.bit_cnt
  pub valid : IsValid b'
  pub bits : (j : ℕ) → bit_on b' j ≡ bit_on b j

-- A group that was set and is cleared again.
Filled-back :
    (b b1 b2 : Bitmap) (s cnt : ℕ)
    → Every b s cnt false
    → Filled b s cnt true b1
    → Filled b1 s cnt false b2
    → Unchanged b b2
Filled-back b b1 b2 s cnt clear f g = record {
  size = g.size ∙ f.size;
  valid = g.valid;
  bits = λ j. g.content j ∙ elim (Bool-cases (inside s cnt j)) [
    | inl e ↦ let c = clear j (ground arith) (ground arith) in rw (e, c) refl
    | inr e ↦ rw e (f.content j ∙ rw e refl)
  ];
}

-- A group of free sectors is in use afterwards, or there is no change.
abbrev pub Allocated : Bitmap → ℕ → Option ℕ → Bitmap → Type 0
Allocated b cnt (some s) b' = Group b s cnt false × Filled b s cnt true b'
Allocated b cnt none b' = Unchanged b b'

store_group-Allocated :
    (malloc_succeeds : Bool) (file : Option Inode) (d : Disk) (b b1 : Bitmap) (s cnt : ℕ)
    → HasFile file
    → Group b s cnt false
    → Filled b s cnt true b1
    → (r : Option ℕ) × (b' : Bitmap) × (d' : Disk) × (store_group malloc_succeeds file d s cnt b1
        ≡ some (r, (record { map = b'; file = file }, d')))
      × Allocated b cnt r b'
unfolding store_group
store_group-Allocated malloc_succeeds none d b b1 s cnt has group f =
    (some s, b1, d, refl, (group, f))
store_group-Allocated malloc_succeeds (some inode) d b b1 s cnt has group f =
    let w = bitmap_write-some malloc_succeeds inode d b1 has in
    elim (Bool-cases w.0) [
      | inl ok ↦ (some s, b1, w.1, rw (w.2, ok) refl, (group, f))
      | inr failed ↦
          let back =
            set_multiple-Filled s cnt false f.valid
              (let g = group.fits in let z = f.size in omega arith) in
          (
            none,
            back.0,
            w.1,
            rw (w.2, failed, back.1) refl,
            Filled-back b b1 back.0 s cnt group.equal f back.2,
          )
    ]

module _ (malloc_succeeds : Bool) (fm : FreeMap) (d : Disk) (valid : IsValid fm.map)
    (has : HasFile fm.file) where
  -- free_map_allocate returns, whatever becomes of the write to the file of the map: either the first
  -- of `cnt` sectors that were free and are now in use, no other sector being affected, or false, and then
  -- the same sectors are in use as before.
  pub free_map_allocate-Allocated :
      (cnt : ℕ)
      → (r : Option ℕ) × (b' : Bitmap) × (d' : Disk) × (free_map_allocate malloc_succeeds fm d cnt
          ≡ some (r, (record { map = b'; file = fm.file }, d')))
        × Allocated fm.map cnt r b'
  unfolding free_map_allocate
  free_map_allocate-Allocated cnt =
      let r = scan_and_flip-IsFlipped 0 cnt false valid (omega arith) in
      elim r.3.0 [
        | inl (missing, nowhere) ↦ elim r.3.1 [
          | inl (error, same) ↦
              let e : (r.0 == bitmap_error) ≡ true = ground arith in
              (
                none,
                r.1,
                d,
                rw (r.2, e) refl,
                record {
                  size = ap (λ b. b.bit_cnt) same;
                  valid = subst IsValid (sym same) valid;
                  bits = λ j. ap (λ b. bit_on b j) same;
                },
              )
          | inr (found, f) ↦ absurd (omega arith)
        ]
        | inr (found, start, group, least) ↦ elim r.3.1 [
          | inl (error, same) ↦ absurd (omega arith)
          | inr (found', f) ↦
              let e : (r.0 == bitmap_error) ≡ false = ground arith in
              let s =
                store_group-Allocated malloc_succeeds fm.file d fm.map r.1 r.0 cnt has group f in
              (s.0, s.1, s.2, rw (r.2, e) s.3, s.4)
        ]
      ]

module _ (malloc_succeeds : Bool) (b : Bitmap) (inode : Inode) (d : Disk) (s cnt : ℕ)
    (valid : IsValid b) (has : HasFile (some inode)) (fits : s + cnt ≤ b.bit_cnt) where
  -- free_map_release of sectors that are all in use fails no ASSERT: they are free afterwards, and no
  -- other sector is affected.
  pub free_map_release-Filled :
      Every b s cnt true
      → (b' : Bitmap) × (d' : Disk) × (free_map_release malloc_succeeds
            (record { map = b; file = some inode })
            d
            s
            cnt
          ≡ some (record { map = b'; file = some inode }, d'))
        × Filled b s cnt false b'
  unfolding free_map_release
  free_map_release-Filled used =
      let a = all-true s cnt valid fits used in
      let f = set_multiple-Filled s cnt false valid fits in
      let w = bitmap_write-some malloc_succeeds inode d f.0 has in
      (f.0, w.1, rw (a, f.1, w.2) refl, f.2)

  -- free_map_release stops the kernel if one of the sectors is free, as when they are released twice.
  pub free_map_release-panics :
      (j : ℕ)
      → s ≤ j
      → j < s + cnt
      → bit_on b j ≡ false
      → free_map_release malloc_succeeds (record { map = b; file = some inode }) d s cnt ≡ none
  unfolding free_map_release
  free_map_release-panics j low high free =
      let a = all-false s cnt valid fits j low high free in rw a refl

-- The bits of a range have the value true, or one of them does not.
all_or_clear :
    (b : Bitmap) (s cnt : ℕ)
    → Every b s cnt true ⊎ ((j : ℕ) × (s ≤ j) × (j < s + cnt) × (bit_on b j ≡ false))
all_or_clear b s zero = inl (λ j low high. absurd (omega arith))
all_or_clear b s (suc cnt) = elim (Bool-cases (bit_on b s)) [
  | inr clear ↦ inr (s, omega arith, omega arith, clear)
  | inl here ↦ elim (all_or_clear b (s + 1) cnt) [
    | inr r ↦ inr (r.0, omega (arith, r.1), omega (arith, r.2), r.3)
    | inl rest ↦ inl (λ j low high. elim (Bool-cases (j == s)) [
      | inl e ↦ let same : j ≡ s = ground arith in ap (bit_on b) same ∙ here
      | inr e ↦ rest j (ground arith) (ground arith)
    ])
  ]
]

-- Where the map is valid and its file is on the disk and may be written, free_map_release of sectors that
-- the disk has either finds all of them in use, fails no ASSERT and leaves them free, and no other sector
-- changed; or one of them is free, as when they are released twice, and it stops the kernel.
pub free_map_release-frees :
    (malloc_succeeds : Bool) (b : Bitmap) (inode : Inode) (d : Disk) (s cnt : ℕ)
    → IsValid b
    → HasFile (some inode)
    → s + cnt ≤ b.bit_cnt
    → (Every b s cnt true
        × (b' : Bitmap) × (d' : Disk) × (free_map_release malloc_succeeds
              (record { map = b; file = some inode })
              d
              s
              cnt
            ≡ some (record { map = b'; file = some inode }, d'))
        × Filled b s cnt false b')
      ⊎ ((j : ℕ) × (s ≤ j)
          × (j < s + cnt)
          × (bit_on b j ≡ false)
          × (free_map_release malloc_succeeds (record { map = b; file = some inode }) d s cnt
              ≡ none))
free_map_release-frees malloc_succeeds b inode d s cnt valid has fits =
    elim (all_or_clear b s cnt) [
      | inl used ↦
          let (b', d', run, f) =
            free_map_release-Filled malloc_succeeds b inode d s cnt valid has fits used in
          inl (used, b', d', run, f)
      | inr (j, low, high, free) ↦ inr (
        j,
        low,
        high,
        free,
        free_map_release-panics malloc_succeeds b inode d s cnt valid has fits j low high free,
      )
    ]

-- If sectors were given out, they may be released, after which the map has the bits that it had.
abbrev pub Undone : Bool → Bitmap → Inode → ℕ → Option ℕ → Bitmap → Disk → Type 0
Undone malloc_succeeds b inode cnt none b1 d1 = Unchanged b b1
Undone malloc_succeeds b inode cnt (some s) b1 d1 =
    (b2 : Bitmap) × (d2 : Disk) × (free_map_release malloc_succeeds
        (record { map = b1; file = some inode }) d1 s cnt
      ≡ some (record { map = b2; file = some inode }, d2))
    × Unchanged b b2

Allocated-Undone :
    (malloc_succeeds : Bool) (b b1 : Bitmap) (inode : Inode) (d1 : Disk) (cnt : ℕ) (r : Option ℕ)
    → HasFile (some inode)
    → Allocated b cnt r b1
    → Undone malloc_succeeds b inode cnt r b1 d1
Allocated-Undone malloc_succeeds b b1 inode d1 cnt none has unchanged = unchanged
Allocated-Undone malloc_succeeds b b1 inode d1 cnt (some s) has (g, f) =
    let in_use : Every b1 s cnt true =
      λ j low high. let e : inside s cnt j ≡ true = ground arith in f.content j ∙ rw e refl in
    let fits : s + cnt ≤ b1.bit_cnt = let z = f.size in let h = g.fits in omega arith in
    let r = free_map_release-Filled malloc_succeeds b1 inode d1 s cnt f.valid has fits in_use in
    (r.0, r.1, r.2, Filled-back b b1 r.0 s cnt g.equal f r.3)

-- Sectors that free_map_allocate gives out may be released, and the map then has the bits that it had
-- before, whatever becomes of the writes to its file; where it gives out none, the map has them at once.
pub release-allocate :
    (malloc_succeeds : Bool) (b : Bitmap) (inode : Inode) (d : Disk) (cnt : ℕ)
    → IsValid b
    → HasFile (some inode)
    → (r : Option ℕ) × (b1 : Bitmap) × (d1 : Disk) × (free_map_allocate malloc_succeeds
          (record { map = b; file = some inode })
          d
          cnt
        ≡ some (r, (record { map = b1; file = some inode }, d1)))
      × Undone malloc_succeeds b inode cnt r b1 d1
release-allocate malloc_succeeds b inode d cnt valid has =
    let a =
      free_map_allocate-Allocated malloc_succeeds (record { map = b; file = some inode }) d valid
        has cnt in
    (a.0, a.1, a.2, a.3, Allocated-Undone malloc_succeeds b a.1 inode a.2 cnt a.0 has a.4)

-- While the map has no file, free_map_allocate gives a group if there is one.
pub free_map_allocate-some :
    (malloc_succeeds : Bool) (b : Bitmap) (d : Disk) (s cnt : ℕ)
    → IsValid b
    → Group b s cnt false
    → (start : ℕ) × (b' : Bitmap) × (free_map_allocate malloc_succeeds
          (record { map = b; file = none })
          d
          cnt
        ≡ some (some start, (record { map = b'; file = none }, d)))
      × Group b start cnt false
      × Filled b start cnt true b'
unfolding free_map_allocate store_group
free_map_allocate-some malloc_succeeds b d s cnt valid group =
    let r = scan_and_flip-IsFlipped 0 cnt false valid (omega arith) in
    elim r.3.0 [
      | inl (missing, nowhere) ↦ absurd (nowhere s (omega arith) group)
      | inr (found, start, first, least) ↦ elim r.3.1 [
        | inl (error, same) ↦ absurd (omega arith)
        | inr (found', f) ↦
            let e : (r.0 == bitmap_error) ≡ false = ground arith in
            (r.0, r.1, rw (r.2, e) refl, first, f)
      ]
    ]
