-- ===== src/File/Denials.antt =====
-- file_deny_write and file_allow_write of filesys/file.c against the counts of their inodes.
use tiny_os.Common.{
  ℕ, ◌+◌, ◌-◌, ◌≤◌, ◌≡◌, refl, sym, ap, subst, ◌∙◌, Bool, true, false, ◌&&◌, some, List, [], ◌∷◌,
  ◌==◌, leb, ltb, if◌then◌else◌, arith, Bool-cases, inl, inr, ==_refl,
}
use tiny_os.Inode.{Inode, inode_write_at, inode_deny_write, inode_allow_write}
use tiny_os.InodeTable.{FileSystem, is_open, find_inode, put_inode}
use tiny_os.InodeTable.Openers.{
  count_of, opens, IsOpenList, count_of-found, count_of_found, count_of-put, opens-put,
  put_inode-IsOpenList, find_inode-opens, find_inode-found, opens-one,
}
use tiny_os.File.{File, file_write, file_deny_write, file_allow_write}

abbrev pub num : Bool → ℕ
num b = if b then 1 else 0

-- The files that have an inode, and those of them that deny writes to it.
abbrev pub owned : ℕ → List File → ℕ
owned s [] = 0
owned s (f ∷ fs) = num (f.inode == s) + owned s fs

abbrev pub denying : ℕ → List File → ℕ
denying s [] = 0
denying s (f ∷ fs) = num (f.inode == s && f.deny_write) + denying s fs

denying_owned : (s : ℕ) (fs : List File) → denying s fs ≤ owned s fs
denying_owned s [] = omega arith
denying_owned s (f ∷ fs) = let ih = denying_owned s fs in ground arith

-- The open files, in any order: each has opened its inode, and an inode counts the files that deny writes to it.
pub record IsConsistent (fs : FileSystem) (files : List File) : Type 0 where
  pub open_list : IsOpenList fs.open_inodes
  pub denied : (s : ℕ) → count_of (λ i. i.deny_write_cnt) s fs.open_inodes ≡ denying s files
  pub owners : (s : ℕ) → owned s files ≤ opens s fs.open_inodes

-- A file whose flag changes, with the count of its inode.
abbrev with_count : FileSystem → Inode → ℕ → FileSystem
with_count fs i n = record fs {
  open_inodes = put_inode (record i { deny_write_cnt = n }) fs.open_inodes;
}

module _ (fs : FileSystem) (f : File) (others : List File) (c : IsConsistent fs (f ∷ others)) where
  -- The inode of the file, which is open.
  the_inode :
      (i : Inode) × (find_inode f.inode fs.open_inodes ≡ some i)
      × (i.sector ≡ f.inode)
      × (i.open_cnt ≡ opens f.inode fs.open_inodes)
      × (i.deny_write_cnt ≡ num f.deny_write + denying f.inode others)
      × (denying f.inode others + 1 ≤ i.open_cnt)
  the_inode =
      let own = c.owners f.inode in
      let here = ==_refl f.inode in
      let one : 1 ≤ opens f.inode fs.open_inodes = ground arith in
      let r = find_inode-found f.inode fs.open_inodes one in
      let cnt = (find_inode-opens f.inode fs.open_inodes r.0 r.1).0 in
      let deny =
        count_of-found (λ i. i.deny_write_cnt) f.inode fs.open_inodes
        ∙ ap (count_of_found (λ i. i.deny_write_cnt)) r.1 in
      let d = c.denied f.inode in
      let less = denying_owned f.inode others in
      (r.0, r.1, r.2, sym cnt, sym deny ∙ d ∙ rw here refl, ground arith)

  flag-IsConsistent :
      (i : Inode) (b : Bool) (n : ℕ)
      → find_inode f.inode fs.open_inodes ≡ some i
      → i.sector ≡ f.inode
      → n ≡ num b + denying f.inode others
      → IsConsistent (with_count fs i n) (record f { deny_write = b } ∷ others)
  flag-IsConsistent i b n found sector count =
      let (cnt, opened) = find_inode-opens f.inode fs.open_inodes i found in
      let open_here : is_open i.sector fs.open_inodes ≡ true = rw sector opened in
      let one = opens-one f.inode fs.open_inodes c.open_list opened in
      let j = record i { deny_write_cnt = n } in
      record {
        open_list = put_inode-IsOpenList j fs.open_inodes (omega arith) c.open_list;
        denied = λ s.
            let d = c.denied s in
            count_of-put (λ i. i.deny_write_cnt) s j fs.open_inodes open_here
            ∙ elim (Bool-cases (f.inode == s)) [
              | inl e ↦
                  let same : f.inode ≡ s = ground arith in
                  let g : s == i.sector ≡ true = ground arith in
                  rw (g, e) (ground (arith, ap (λ k. denying k others) same))
              | inr e ↦ let g : s == i.sector ≡ false = ground arith in rw (g, e) (ground arith)
            ];
        owners = λ s.
            let o = c.owners s in
            let p = opens-put s j fs.open_inodes open_here in
            elim (Bool-cases (s == i.sector)) [
              | inl e ↦
                  let same : s ≡ f.inode = ground arith in
                  let k = ap (λ t. opens t fs.open_inodes) same in ground arith
              | inr e ↦ ground arith
            ];
      }

  denied_run :
      (i : Inode)
      → find_inode f.inode fs.open_inodes ≡ some i
      → f.deny_write ≡ false
      → leb (i.deny_write_cnt + 1) i.open_cnt ≡ true
      → file_deny_write f fs
        ≡ some (record f { deny_write = true }, with_count fs i (i.deny_write_cnt + 1))
  unfolding file_deny_write inode_deny_write
  denied_run i found e a = rw (e, found, a) refl

  -- file_deny_write, for files whose inodes are open and count the denials, fails no ASSERT. The file denies
  -- writes afterwards, and the inodes still count the denials.
  pub file_deny_write-IsConsistent :
      (fs' : FileSystem) × (file_deny_write f fs ≡ some (record f { deny_write = true }, fs'))
      × IsConsistent fs' (record f { deny_write = true } ∷ others)
  unfolding file_deny_write
  file_deny_write-IsConsistent =
      let (i, found, sector, cnt, deny, room) = the_inode in
      elim (Bool-cases f.deny_write) [
        | inl e ↦ (
          fs,
          rw e refl,
          subst (λ (b : Bool). IsConsistent fs (record f { deny_write = b } ∷ others)) e c,
        )
        | inr e ↦
            let d : i.deny_write_cnt ≡ denying f.inode others = ground arith in
            (
              with_count fs i (i.deny_write_cnt + 1),
              denied_run i found e (ground arith),
              flag-IsConsistent i true (i.deny_write_cnt + 1) found sector (omega arith),
            )
      ]

  allowed_run :
      (i : Inode)
      → find_inode f.inode fs.open_inodes ≡ some i
      → f.deny_write ≡ true
      → ltb 0 i.deny_write_cnt ≡ true
      → leb i.deny_write_cnt i.open_cnt ≡ true
      → file_allow_write f fs
        ≡ some (record f { deny_write = false }, with_count fs i (i.deny_write_cnt - 1))
  unfolding file_allow_write inode_allow_write
  allowed_run i found e a b = rw (e, found, a, b) refl

  -- file_allow_write likewise fails no ASSERT. The file does not deny writes afterwards, and the inodes
  -- still count the denials, so that writes are possible once no other file of the inode denies them.
  pub file_allow_write-IsConsistent :
      (fs' : FileSystem) × (file_allow_write f fs ≡ some (record f { deny_write = false }, fs'))
      × IsConsistent fs' (record f { deny_write = false } ∷ others)
  unfolding file_allow_write
  file_allow_write-IsConsistent =
      let (i, found, sector, cnt, deny, room) = the_inode in
      elim (Bool-cases f.deny_write) [
        | inr e ↦ (
          fs,
          rw e refl,
          subst (λ (b : Bool). IsConsistent fs (record f { deny_write = b } ∷ others)) e c,
        )
        | inl e ↦
            let d : i.deny_write_cnt ≡ 1 + denying f.inode others = ground arith in
            let a : ltb 0 i.deny_write_cnt ≡ true = ground arith in
            let b : leb i.deny_write_cnt i.open_cnt ≡ true = ground arith in
            (
              with_count fs i (i.deny_write_cnt - 1),
              allowed_run i found e a b,
              flag-IsConsistent i false (i.deny_write_cnt - 1) found sector (omega arith),
            )
      ]

  -- While a file denies writes to its inode, file_write to any file that has this inode writes nothing and
  -- returns 0.
  pub file_write_denied :
      (malloc_succeeds : Bool) (g : File) (source : ℕ → ℕ) (size : ℕ)
      → f.deny_write ≡ true
      → g.inode ≡ f.inode
      → file_write malloc_succeeds fs g source size ≡ some (0, (record g { pos = g.pos + 0 }, fs))
  unfolding file_write inode_write_at
  file_write_denied malloc_succeeds g source size denies same =
      let (i, found, sector, cnt, deny, room) = the_inode in
      let z : i.deny_write_cnt == 0 ≡ false = ground arith in rw (same, found, z) refl
