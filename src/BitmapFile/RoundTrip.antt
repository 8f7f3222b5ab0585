-- ===== src/BitmapFile/RoundTrip.antt =====
-- A bitmap that bitmap_write of lib/kernel/bitmap.c stored is what bitmap_read reads.
use tiny_os.Common.{
  ℕ, zero, suc, ◌+◌, ◌-◌, ◌*◌, ◌/◌, ◌%◌, ◌^◌, ◌≤◌, ◌<◌, ◌≡◌, refl, sym, ap, ◌∙◌, bit_and, Bool, leb,
  Option, none, ◌&&◌, true, false, some, List, ◌==◌, ltb, length, get_or, get_or-set, arith,
  Bool-cases, inl, inr, ==_refl,
}
use tiny_os.Common.Bits.{bit, bit-zero, bit-and, bit-complement, bit-lt_two}
use native.Mathlib.Nat.{one-le-pow}
use tiny_os.Bitmap.{Bitmap, elem_cnt, byte_cnt, elem_at, bit_on}
use tiny_os.Bitmap.Bits.{IsValid, Words, Words-get_or, bit_on-bit}
use tiny_os.Inode.{Inode, Disk, sectors_of, inode_length}
use tiny_os.Common.Panic.{◌>>=◌}
use tiny_os.Inode.Writes.{inode_write_at-Wrote, byte_at_other-Wrote}
use tiny_os.Inode.ReadBack.{read-write}
use tiny_os.BitmapFile.{last_mask, bytes_of, words_of, masked, bitmap_read, bitmap_write}

length-words_of : (n i : ℕ) (bytes : ℕ → ℕ) → length (words_of n i bytes) ≡ n
length-words_of zero i bytes = refl
length-words_of (suc n) i bytes = ap suc (length-words_of n (i + 4) bytes)

abbrev word_at : (ℕ → ℕ) → ℕ → ℕ
word_at bytes i = bytes i + 256 * bytes (i + 1) + 65536 * bytes (i + 2) + 16777216 * bytes (i + 3)

words_of-at :
    (n i k : ℕ) (bytes : ℕ → ℕ)
    → k < n
    → get_or (words_of n i bytes) k 0 ≡ word_at bytes (i + 4 * k)
words_of-at zero i k bytes h = absurd (omega arith)
words_of-at (suc n) i zero bytes h = let z : i ≡ i + 4 * 0 = omega arith in ap (word_at bytes) z
words_of-at (suc n) i (suc k) bytes h =
    let z : i + 4 + 4 * k ≡ i + 4 * suc k = omega arith in
    words_of-at n (i + 4) k bytes (omega arith) ∙ ap (word_at bytes) z

byte_digit :
    (ws : List ℕ) (i k r : ℕ)
    → i ≡ 4 * k + r
    → r < 4
    → bytes_of ws i ≡ get_or ws k 0 / 256 ^ r % 256
byte_digit ws i k r e h =
    let q : i / 4 ≡ k = omega arith in let s : i % 4 ≡ r = omega arith in rw (q, s) refl

-- The bytes of an array of words make the words again.
word_at-bytes_of :
    (ws : List ℕ) (bytes : ℕ → ℕ) (k n : ℕ)
    → Words ws
    → ((i : ℕ) → i < n → bytes i ≡ bytes_of ws i)
    → 4 * k + 4 ≤ n
    → word_at bytes (0 + 4 * k) ≡ get_or ws k 0
word_at-bytes_of ws bytes k n words same h =
    let w = get_or ws k 0 in
    let small : w < 2 ^ 32 = Words-get_or ws k words in
    let at : (r : ℕ) → r < 4 → bytes (0 + 4 * k + r) ≡ w / 256 ^ r % 256 = λ r q.
      same (0 + 4 * k + r) (omega arith) ∙ byte_digit ws (0 + 4 * k + r) k r (omega arith) q in
    let first : bytes (0 + 4 * k) ≡ w / 256 ^ 0 % 256 =
      same (0 + 4 * k) (omega arith) ∙ byte_digit ws (0 + 4 * k) k 0 (omega arith) (omega arith) in
    rw (first, at 1 (omega arith), at 2 (omega arith), at 3 (omega arith)) (omega arith)

-- The mask of the last word spares the bits that are in use.
last_mask-bit :
    (b : Bitmap) (k : ℕ)
    → k < 32
    → ((b.bit_cnt % 32 == 0) ≡ false → k < b.bit_cnt % 32)
    → bit (last_mask b) k ≡ 1
last_mask-bit b k h used = elim (Bool-cases (b.bit_cnt % 32 == 0)) [
  | inl e ↦
      let z = bit-zero k in
      let c : bit (2 ^ 32 - 1) k ≡ 1 - bit 0 k = bit-complement 32 k 0 h (omega arith) in
      rw e (c ∙ rw z refl)
  | inr e ↦
      let z = bit-zero k in
      let n = b.bit_cnt % 32 in
      let power : 1 ≤ 2 ^ n = one-le-pow n 2 (omega arith) in
      let d : 2 ^ n - 1 - 0 ≡ 2 ^ n - 1 = omega arith in
      let c : bit (2 ^ n - 1 - 0) k ≡ 1 - bit 0 k = bit-complement n k 0 (used e) power in
      rw e (ap (λ m. bit m k) (sym d) ∙ c ∙ rw z refl)
]

masked-bit_on :
    (b : Bitmap) (j : ℕ)
    → b.bit_cnt + 31 < 2 ^ 32
    → elem_cnt b.bit_cnt ≤ length b.bits
    → j < b.bit_cnt
    → bit_on (masked b) j ≡ bit_on b j
masked-bit_on b j small storage inside =
    let last = elem_cnt b.bit_cnt - 1 in
    let there : last < length b.bits = omega arith in
    let w = bit_and (elem_at b last) (last_mask b) in
    let at = get_or-set b.bits last (j / 32) w 0 there in
    bit_on-bit (masked b) j
    ∙ elim (Bool-cases (last == j / 32)) [
      | inl e ↦
          let m = last_mask-bit b (j % 32) (omega arith) (λ u. ground arith) in
          let a = bit-and (j % 32) (elem_at b last) (last_mask b) in
          let two = bit-lt_two (elem_at b last) (j % 32) in
          let s : bit w (j % 32) ≡ bit (elem_at b last) (j % 32) =
            a ∙ rw m (let two = two in ground arith) in
          let q : last ≡ j / 32 = ground arith in
          rw (at, e) (ap (λ x. x == 1) s ∙ ap (λ i. bit (elem_at b i) (j % 32) == 1) q)
      | inr e ↦ rw (at, e) refl
    ]
    ∙ sym (bit_on-bit b j)

-- bitmap_write stores a whole bitmap in a file that is large enough, where writes are not denied, and
-- bitmap_read of the file into a bitmap of the same size, whatever its bits, succeeds and gives it the
-- bits of the one that was stored, if memory is available.
pub bitmap_read-write :
    (inode : Inode) (d : Disk) (b : Bitmap) (old : List ℕ)
    → inode.disk_data.start + sectors_of inode.disk_data.length < 2 ^ 32
    → inode.deny_write_cnt ≡ 0
    → byte_cnt b.bit_cnt ≤ inode_length inode
    → IsValid b
    → elem_cnt b.bit_cnt ≤ length old
    → (d' : Disk) × (b' : Bitmap) × (bitmap_write true inode d b ≡ some (true, d'))
      × (bitmap_read true inode d' (record { bit_cnt = b.bit_cnt; bits = old }) ≡ some (true, b'))
      × (b'.bit_cnt ≡ b.bit_cnt)
      × ((j : ℕ) → j < b.bit_cnt → bit_on b' j ≡ bit_on b j)
unfolding bitmap_read bitmap_write
bitmap_read-write inode d b old fits allowed enough valid storage =
    let size = byte_cnt b.bit_cnt in
    let small = valid.small in
    let r = read-write inode d (bytes_of b.bits) (bytes_of old) size 0 fits allowed (omega arith) in
    let same = ==_refl size in
    let got : Bitmap = record { bit_cnt = b.bit_cnt; bits = words_of (length old) 0 r.1 } in
    let word : (k : ℕ) → k < elem_cnt b.bit_cnt → elem_at got k ≡ elem_at b k = λ k h.
      words_of-at (length old) 0 k r.1 (omega arith)
      ∙ word_at-bytes_of b.bits r.1 k size valid.words
          (λ i lt. let e : ltb i size ≡ true = ground arith in r.4 i ∙ rw e refl) (omega arith) in
    elim (Bool-cases (ltb 0 b.bit_cnt)) [
      | inr none_used ↦ (
        r.0,
        record { bit_cnt = b.bit_cnt; bits = old },
        rw (r.2, same) refl,
        rw none_used refl,
        refl,
        λ j h. absurd (ground arith),
      )
      | inl some_used ↦ (
        r.0,
        masked got,
        rw (r.2, same) refl,
        rw (some_used, r.3, same) refl,
        refl,
        λ j h.
            let filled = length-words_of (length old) 0 r.1 in
            masked-bit_on got j small (rw filled storage) h
            ∙ bit_on-bit got j
            ∙ ap (λ w. bit w (j % 32) == 1) (word (j / 32) (omega arith))
            ∙ sym (bit_on-bit b j),
      )
    ]

option_or {ℓ} : {A : Type ℓ} → A → Option A → A
option_or d none = d
option_or d (some a) = a

-- bitmap_write changes no byte outside the sectors of the file.
pub bitmap_write-others :
    (inode : Inode) (d d' : Disk) (b : Bitmap) (ok : Bool)
    → inode.disk_data.start + sectors_of inode.disk_data.length < 2 ^ 32
    → inode.deny_write_cnt ≡ 0
    → bitmap_write true inode d b ≡ some (ok, d')
    → (t o : ℕ) → o < 512
    → leb inode.disk_data.start t
        && ltb t (inode.disk_data.start + sectors_of inode.disk_data.length)
      ≡ false
    → d' t o ≡ d t o
unfolding bitmap_write option_or
bitmap_write-others inode d d' b ok fits allowed run t o small apart =
    let size = byte_cnt b.bit_cnt in
    let w = inode_write_at-Wrote inode fits true (bytes_of b.bits) d size 0 allowed in
    let both : some (w.0 == size, w.1) ≡ some (ok, d') =
      sym (ap (λ r. r >>= λ (r : ℕ × Disk). some (r.0 == size, r.1)) w.2) ∙ run in
    let same : w.1 ≡ d' = ap (λ r. (option_or {A = Bool × Disk} (ok, d') r).1) both in
    sym (ap (λ (x : Disk). x t o) same) ∙ byte_at_other-Wrote inode fits w.3 t o small apart
