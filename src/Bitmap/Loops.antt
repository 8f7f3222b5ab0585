-- ===== src/Bitmap/Loops.antt =====
-- The loops of bitmap.c over a range of bits: they stay inside the bitmap, and what they compute.
use tiny_os.Common.{
  ℕ, zero, suc, ◌+◌, ◌%◌, ◌≤◌, ◌<◌, ◌≡◌, refl, ◌⊎◌, ◌∙◌, ap, inl, inr, Bool, true, false, not, ◌&&◌,
  Option, some, List, leb, ltb, ◌==◌, bool_eq, if◌then◌else◌, lt→ltb, le→leb, Bool-cases, arith,
  length,
}
use tiny_os.Bitmap.{
  Bitmap, size_mod, elem_cnt, buf_size, bit_on, mark, reset, set, test, set_loop, set_multiple,
  count_loop, count, contains_loop, contains, in_range, cleared, create, create_in_buf, set_all,
}
use tiny_os.Bitmap.Bits.{IsValid, Words, bit_on-mark, bit_on-reset, mark-IsValid, reset-IsValid}

-- Bit `j` is one of the `n` bits from `i` on.
abbrev pub inside : ℕ → ℕ → ℕ → Bool
inside i n j = leb i j && ltb j (i + n)

-- `b'` is `b` with the `n` bits from `i` on set to `value`.
pub record Filled (b : Bitmap) (i n : ℕ) (value : Bool) (b' : Bitmap) : Type 0 where
  pub size : b'.bit_cnt ≡ b.bit_cnt
  pub valid : IsValid b'
  pub content : (j : ℕ) → bit_on b' j ≡ (if inside i n j then value else bit_on b j)

-- What `bitmap_set` leaves, once its assertion holds.
set_bit : Bitmap → ℕ → Bool → Bitmap
set_bit b i value = if value then mark b i else reset b i

module _ {b : Bitmap} (i : ℕ) (value : Bool) (v : IsValid b) (lt : i < b.bit_cnt) where
  set-some : set b i value ≡ some (set_bit b i value)
  unfolding set set_bit
  set-some = rw (lt→ltb i b.bit_cnt lt)

  bit_on-set_bit : (j : ℕ) → bit_on (set_bit b i value) j ≡ (if i == j then value else bit_on b j)
  unfolding set_bit
  bit_on-set_bit j = elim (Bool-cases value) [
    | inl on ↦ rw on (bit_on-mark i v lt j)
    | inr off ↦ rw off (bit_on-reset i v lt j)
  ]

set_bit-IsValid : {b : Bitmap} (i : ℕ) (value : Bool) → IsValid b → IsValid (set_bit b i value)
unfolding set_bit
set_bit-IsValid i true v = mark-IsValid i v
set_bit-IsValid i false v = reset-IsValid i v

bit_cnt-set_bit : (b : Bitmap) (i : ℕ) (value : Bool) → (set_bit b i value).bit_cnt ≡ b.bit_cnt
unfolding set_bit mark reset
bit_cnt-set_bit b i true = refl
bit_cnt-set_bit b i false = refl

-- The index does not wrap while it is inside the bitmap.
next_index : {b : Bitmap} (i : ℕ) → IsValid b → i < b.bit_cnt → (i + 1) % size_mod ≡ i + 1
next_index i v lt = omega (arith, v.small)

set_loop-Filled :
    (n i : ℕ) (value : Bool) {b : Bitmap}
    → IsValid b
    → i + n ≤ b.bit_cnt
    → (b' : Bitmap) × (set_loop n i value b ≡ some b') × Filled b i n value b'
unfolding set_loop
set_loop-Filled zero i value {b} v h =
    (b, refl, record { size = refl; valid = v; content = λ j. ground arith })
set_loop-Filled (suc n) i value {b} v h =
    let lt : i < b.bit_cnt = omega arith in
    let here = set_bit b i value in
    let size = bit_cnt-set_bit b i value in
    let (b', e, f) =
      set_loop-Filled n (i + 1) value {b = here} (set_bit-IsValid i value v)
        (omega (arith, size)) in
    (
      b',
      rw (set-some i value v lt, next_index i v lt) e,
      record {
        size = f.size ∙ size;
        valid = f.valid;
        content = λ j. ground (arith, f.content j, bit_on-set_bit i value v lt j);
      },
    )

-- The sum of the assertion does not wrap for a range inside the bitmap.
no_wrap :
    {b : Bitmap} (start cnt : ℕ)
    → IsValid b
    → start + cnt ≤ b.bit_cnt
    → (start + cnt) % size_mod ≡ start + cnt
no_wrap start cnt v h = omega (arith, v.small)

in_range-some :
    {b : Bitmap} (start cnt : ℕ)
    → IsValid b
    → start + cnt ≤ b.bit_cnt
    → in_range b start cnt ≡ some tt
in_range-some {b} start cnt v h =
    rw
      (
        le→leb start b.bit_cnt (omega arith),
        no_wrap start cnt v h,
        le→leb (start + cnt) b.bit_cnt h,
      )
      refl

-- On a range inside a valid bitmap `bitmap_set_multiple` does not panic; the bits of the range get
-- the value, every other bit and the size stay, and the bitmap stays valid.
pub set_multiple-Filled :
    (start cnt : ℕ) (value : Bool) {b : Bitmap}
    → IsValid b
    → start + cnt ≤ b.bit_cnt
    → (b' : Bitmap) × (set_multiple b start cnt value ≡ some b') × Filled b start cnt value b'
unfolding set_multiple
set_multiple-Filled start cnt value v h =
    rw (in_range-some start cnt v h) (set_loop-Filled cnt start value v h)

test-some : (b : Bitmap) (i : ℕ) → i < b.bit_cnt → test b i ≡ some (bit_on b i)
unfolding test
test-some b i lt = rw (lt→ltb i b.bit_cnt lt)

-- How many of the `n` bits from `i` on have the value.
pub occurrences : Bitmap → ℕ → ℕ → Bool → ℕ
occurrences b i zero value = 0
occurrences b i (suc n) value =
    (if bool_eq (bit_on b i) value then 1 else 0) + occurrences b (i + 1) n value

count_loop-occurrences :
    (n i : ℕ) (value : Bool) (acc : ℕ) {b : Bitmap}
    → IsValid b
    → i + n ≤ b.bit_cnt
    → count_loop b n i value acc ≡ some (acc + occurrences b i n value)
unfolding count_loop occurrences
count_loop-occurrences zero i value acc v h = ap some (omega arith)
count_loop-occurrences (suc n) i value acc {b} v h =
    rw (test-some b i (omega arith), next_index i v (omega arith))
      (count_loop-occurrences n (i + 1) value (if bool_eq (bit_on b i) value then acc + 1 else acc)
          v (omega arith)
        ∙ ap some (ground arith))

-- On a range inside a valid bitmap `bitmap_count` does not panic, and is the number of the bits of
-- the range with the value.
pub count-occurrences :
    (start cnt : ℕ) (value : Bool) {b : Bitmap}
    → IsValid b
    → start + cnt ≤ b.bit_cnt
    → count b start cnt value ≡ some (occurrences b start cnt value)
unfolding count
count-occurrences start cnt value v h =
    rw (in_range-some start cnt v h)
      (count_loop-occurrences cnt start value 0 v h ∙ ap some (omega arith))

-- All of the `n` bits from `i` on have the value; one of them has it.
abbrev pub Every : Bitmap → ℕ → ℕ → Bool → Type 0
Every b i n value = (j : ℕ) → i ≤ j → j < i + n → bit_on b j ≡ value

abbrev pub Some : Bitmap → ℕ → ℕ → Bool → Type 0
Some b i n value = (j : ℕ) × (i ≤ j) × (j < i + n) × (bit_on b j ≡ value)

-- What a search of the range found.
abbrev pub Found : Option Bool → Bitmap → ℕ → ℕ → Bool → Type 0
Found r b i n value =
    ((r ≡ some true) × Some b i n value) ⊎ ((r ≡ some false) × Every b i n (not value))

contains_loop-Found :
    (n i : ℕ) (value : Bool) {b : Bitmap}
    → IsValid b
    → i + n ≤ b.bit_cnt
    → Found (contains_loop b n i value) b i n value
unfolding contains_loop
contains_loop-Found zero i value v h = inr (refl, λ j p q. absurd (omega arith))
contains_loop-Found (suc n) i value {b} v h =
    rw (test-some b i (omega arith), next_index i v (omega arith))
      (elim (Bool-cases (bool_eq (bit_on b i) value)) [
        | inl hit ↦ rw hit (inl (refl, (i, omega arith, omega arith, ground arith)))
        | inr miss ↦ rw miss (elim (contains_loop-Found n (i + 1) value {b = b} v (omega arith)) [
          | inl (e, (j, p, q, on)) ↦ inl (e, (j, omega arith, omega arith, on))
          | inr (e, off) ↦ inr (
            e,
            λ j p q. elim (Bool-cases (i == j)) [
              | inl same ↦ ground arith
              | inr other ↦ off j (ground arith) (omega arith)
            ],
          )
        ])
      ])

-- On a range inside a valid bitmap `bitmap_contains` does not panic; it returns true if a bit of the
-- range has the value, and false if all of them have the other.
pub contains-Found :
    (start cnt : ℕ) (value : Bool) {b : Bitmap}
    → IsValid b
    → start + cnt ≤ b.bit_cnt
    → Found (contains b start cnt value) b start cnt value
unfolding contains
contains-Found start cnt value v h =
    rw (in_range-some start cnt v h) (contains_loop-Found cnt start value v h)

-- A bitmap made by `bitmap_create`: valid, of the size asked for, and all bits clear.
pub record Clear (b : Bitmap) (n : ℕ) : Type 0 where
  pub size : b.bit_cnt ≡ n
  pub valid : IsValid b
  pub off : (j : ℕ) → j < n → bit_on b j ≡ false

cleared-Clear :
    (n : ℕ) (old : List ℕ)
    → n + 31 < size_mod
    → elem_cnt n ≤ length old
    → Words old
    → (b : Bitmap) × (cleared n old ≡ some b) × Clear b n
unfolding cleared set_all
cleared-Clear n old small room words =
    let (b, e, f) =
      set_multiple-Filled 0 n false {b = record { bit_cnt = n; bits = old }}
        (record { small = small; storage = room; words = words }) (omega arith) in
    (b, e, record { size = f.size; valid = f.valid; off = λ j lt. ground (arith, f.content j) })

-- With memory for its elements, whatever that memory held, `bitmap_create` returns a valid bitmap of
-- `n` bits that are all clear.
pub create-Clear :
    (n : ℕ) (old : List ℕ)
    → n + 31 < size_mod
    → elem_cnt n ≤ length old
    → Words old
    → (b : Bitmap) × (create true (some old) n ≡ some (some b)) × Clear b n
unfolding create
create-Clear n old small room words =
    let (b, e, c) = cleared-Clear n old small room words in (b, rw e, c)

-- So does `bitmap_create_in_buf`, given at least `bitmap_buf_size` bytes.
pub create_in_buf-Clear :
    (n : ℕ) (old : List ℕ) (block_size : ℕ)
    → n + 31 < size_mod
    → elem_cnt n ≤ length old
    → Words old
    → buf_size n ≤ block_size
    → (b : Bitmap) × (create_in_buf n old block_size ≡ some b) × Clear b n
unfolding create_in_buf
create_in_buf-Clear n old block_size small room words enough =
    rw (le→leb (buf_size n) block_size enough) (cleared-Clear n old small room words)
