-- ===== src/Bitmap/Groups.antt =====
-- bitmap_scan and bitmap_scan_and_flip: the first group of equal bits.
use tiny_os.Common.{
  ℕ, zero, suc, ◌+◌, ◌-◌, ◌≤◌, ◌<◌, ◌≡◌, refl, ◌∙◌, subst, ◌⊎◌, inl, inr, Bool, true, false, not,
  some, leb, ◌==◌, if◌then◌else◌, le→leb, ne→==, Bool-cases, arith,
}
use tiny_os.Bitmap.{Bitmap, bitmap_error, bit_on, set_multiple, scan_loop, scan, scan_and_flip}
use tiny_os.Bitmap.Bits.{IsValid}
use tiny_os.Bitmap.Loops.{Filled, Every, Some, set_multiple-Filled, contains-Found}

-- `cnt` consecutive bits with the value start at `i`.
pub record Group (b : Bitmap) (i cnt : ℕ) (value : Bool) : Type 0 where
  pub fits : i + cnt ≤ b.bit_cnt
  pub equal : Every b i cnt value

-- The result of a scan from `start`: the first group, or `BITMAP_ERROR` if there is none.
abbrev pub IsFirst : Bitmap → ℕ → ℕ → Bool → ℕ → Type 0
IsFirst b start cnt value r =
    ((r ≡ bitmap_error) × ((i : ℕ) → start ≤ i → ¬ Group b i cnt value))
    ⊎ ((r < bitmap_error)
        × (start ≤ r)
        × Group b r cnt value
        × ((i : ℕ) → start ≤ i → i < r → ¬ Group b i cnt value))

not-not : (a v : Bool) → a ≡ not v → ¬ (a ≡ v)
not-not true true = ground arith
not-not true false = ground arith
not-not false true = ground arith
not-not false false = ground arith

not_involutive : (v : Bool) → not (not v) ≡ v
not_involutive true = refl
not_involutive false = refl

not-Group :
    {b : Bitmap} {i cnt : ℕ} {value : Bool} → Some b i cnt (not value) → ¬ Group b i cnt value
not-Group {b} {value} (j, p, q, on) g = not-not (bit_on b j) value on (g.equal j p q)

-- A start that is no group can be added in front.
IsFirst-back :
    {b : Bitmap} (i cnt : ℕ) (value : Bool) (r : ℕ)
    → ¬ Group b i cnt value
    → IsFirst b (i + 1) cnt value r
    → IsFirst b i cnt value r
IsFirst-back {b} i cnt value r miss (inl (e, none_after)) = inl (
  e,
  λ k p. elim (Bool-cases (i == k)) [
    | inl same ↦ let e' : i ≡ k = ground arith in subst (λ x. ¬ Group b x cnt value) e' miss
    | inr other ↦ none_after k (ground arith)
  ],
)
IsFirst-back {b} i cnt value r miss (inr (small, p, g, none_before)) = inr (
  small,
  omega arith,
  g,
  λ k q lt. elim (Bool-cases (i == k)) [
    | inl same ↦ let e' : i ≡ k = ground arith in subst (λ x. ¬ Group b x cnt value) e' miss
    | inr other ↦ none_before k (ground arith) lt
  ],
)

scan_loop-IsFirst :
    (left i cnt : ℕ) (value : Bool) {b : Bitmap}
    → IsValid b
    → cnt ≤ b.bit_cnt
    → left ≡ b.bit_cnt - cnt + 1 - i
    → (r : ℕ) × (scan_loop b left i cnt value ≡ some r) × IsFirst b i cnt value r
unfolding scan_loop
scan_loop-IsFirst zero i cnt value {b} v c h =
    (bitmap_error, refl, inl (refl, λ k p g. omega (arith, g.fits)))
scan_loop-IsFirst (suc left) i cnt value {b} v c h =
    elim (contains-Found i cnt (not value) v (omega arith)) [
      | inr (e, same) ↦ (
        i,
        rw e,
        inr (
          omega (arith, v.small),
          omega arith,
          record { fits = omega arith; equal = λ j p q. same j p q ∙ not_involutive value },
          λ k p q. absurd (omega arith),
        ),
      )
      | inl (e, other) ↦
          let (r, f, first) = scan_loop-IsFirst left (i + 1) cnt value {b = b} v c (omega arith) in
          (r, rw e f, IsFirst-back i cnt value r (not-Group other) first)
    ]

-- `bitmap_scan` does not panic. It returns the first group at or after `start`, or `BITMAP_ERROR` if
-- there is none.
pub scan-IsFirst :
    (start cnt : ℕ) (value : Bool) {b : Bitmap}
    → IsValid b
    → start ≤ b.bit_cnt
    → (r : ℕ) × (scan b start cnt value ≡ some r) × IsFirst b start cnt value r
unfolding scan
scan-IsFirst start cnt value {b} v h =
    rw (le→leb start b.bit_cnt h) (elim (Bool-cases (leb cnt b.bit_cnt)) [
      | inl few ↦
          rw few
            (scan_loop-IsFirst (b.bit_cnt - cnt + 1 - start) start cnt value v (ground arith) refl)
      | inr many ↦ rw many (bitmap_error, refl, inl (refl, λ i p g. ground (arith, g.fits)))
    ])

-- What `bitmap_scan_and_flip` leaves: a group turned over, or nothing changed.
abbrev pub IsFlipped : Bitmap → ℕ → ℕ → Bool → ℕ → Bitmap → Type 0
IsFlipped b start cnt value r b' =
    IsFirst b start cnt value r
    × ((r ≡ bitmap_error) × (b' ≡ b) ⊎ (r < bitmap_error) × Filled b r cnt (not value) b')

flip_found :
    (start cnt : ℕ) (value : Bool) (r : ℕ) {b : Bitmap}
    → IsValid b
    → IsFirst b start cnt value r
    → (b' : Bitmap) × ((if r == bitmap_error then some b else set_multiple b r cnt (not value))
        ≡ some b')
      × IsFlipped b start cnt value r b'
flip_found start cnt value r {b} v (inl (e, missing)) = (b, rw e, (inl (e, missing), inl (e, refl)))
flip_found start cnt value r {b} v (inr found) =
    let (b', e, f) = set_multiple-Filled r cnt (not value) v found.2.fits in
    (b', rw (ne→== r bitmap_error (omega (arith, found.0))) e, (inr found, inr (found.0, f)))

-- `bitmap_scan_and_flip` does not panic. Its result is that of `bitmap_scan`, and it turns over
-- exactly the group that was found; without one the bitmap is unchanged.
pub scan_and_flip-IsFlipped :
    (start cnt : ℕ) (value : Bool) {b : Bitmap}
    → IsValid b
    → start ≤ b.bit_cnt
    → (r : ℕ) × (b' : Bitmap) × (scan_and_flip b start cnt value ≡ some (r, b'))
      × IsFlipped b start cnt value r b'
unfolding scan_and_flip
scan_and_flip-IsFlipped start cnt value {b} v h =
    let (r, e, first) = scan-IsFirst start cnt value v h in
    let (b', f, flipped) = flip_found start cnt value r v first in (r, b', (rw (e, f)), flipped)
