-- ===== src/Sort/Search.antt =====
-- binary_search of lib/stdlib.c against a search of all elements.
use tiny_os.Common.{
  ℕ, zero, suc, ◌+◌, ◌-◌, ◌/◌, ◌≤◌, ◌<◌, ◌≡◌, refl, Bool, true, false, not, Option, none, some, ltb,
  arith, Bool-cases, inl, inr,
}
use tiny_os.Common.Integers.{ℤ, pos, negsuc}
use tiny_os.Sort.{is_positive, is_negative, search_loop, binary_search}

-- The result of a comparison is 0.
abbrev pub is_equal : ℤ → Bool
is_equal (pos n) = not (ltb 0 n)
is_equal (negsuc n) = false

module _ {A : Type 0} (compare : A → A → ℤ) (key : A) (a : ℕ → A) where
  -- The key is not above an element behind one that it is not above, and not below an element before
  -- one that it is not below: what the key sees of an array that is sorted.
  pub record IsSplit (cnt : ℕ) : Type 0 where
    pub behind :
        (i j : ℕ)
        → i ≤ j
        → j < cnt
        → is_negative (compare key (a i)) ≡ true
        → is_negative (compare key (a j)) ≡ true
    pub before :
        (i j : ℕ)
        → i ≤ j
        → j < cnt
        → is_positive (compare key (a j)) ≡ true
        → is_positive (compare key (a i)) ≡ true

  -- The index of an element of the part that is equal to the key; `none` if there is no such element.
  abbrev pub Answer : ℕ → ℕ → Option ℕ → Type 0
  Answer first last (some m) = (first ≤ m) × (m < last) × (is_equal (compare key (a m)) ≡ true)
  Answer first last none = (i : ℕ) → first ≤ i → i < last → is_equal (compare key (a i)) ≡ false

  negative-equal : (z : ℤ) → is_negative z ≡ true → is_equal z ≡ false
  negative-equal (pos n) h = cc
  negative-equal (negsuc n) h = refl

  positive-equal : (z : ℤ) → is_positive z ≡ true → is_equal z ≡ false
  positive-equal (pos n) h = rw h refl
  positive-equal (negsuc n) h = refl

  sign-equal : (z : ℤ) → is_negative z ≡ false → is_positive z ≡ false → is_equal z ≡ true
  sign-equal (pos n) g h = rw h refl
  sign-equal (negsuc n) g h = cc

  Answer-low :
      (first m last : ℕ) (r : Option ℕ)
      → m ≤ last
      → ((i : ℕ) → m ≤ i → i < last → is_equal (compare key (a i)) ≡ false)
      → Answer first m r
      → Answer first last r
  Answer-low first m last (some x) le rest (p, q, e) = (p, omega arith, e)
  Answer-low first m last none le rest h = λ i low high. elim (Bool-cases (ltb i m)) [
    | inl e ↦ h i low (ground arith)
    | inr e ↦ rest i (ground arith) high
  ]

  Answer-high :
      (first m last : ℕ) (r : Option ℕ)
      → first ≤ m
      → ((i : ℕ) → first ≤ i → i ≤ m → is_equal (compare key (a i)) ≡ false)
      → Answer (m + 1) last r
      → Answer first last r
  Answer-high first m last (some x) le rest (p, q, e) = (omega arith, q, e)
  Answer-high first m last none le rest h = λ i low high. elim (Bool-cases (ltb m i)) [
    | inl e ↦ h i (ground arith) high
    | inr e ↦ rest i low (ground arith)
  ]

  search_loop-Answer :
      (fuel first last cnt : ℕ)
      → IsSplit cnt
      → last ≤ cnt
      → last - first < fuel
      → (r : Option ℕ) × (search_loop compare fuel key a first last ≡ some r) × Answer first last r
  unfolding search_loop
  search_loop-Answer zero first last cnt s le f = absurd (omega arith)
  search_loop-Answer (suc fuel) first last cnt s le f =
      let middle = first + (last - first) / 2 in
      let cmp = compare key (a middle) in
      elim (Bool-cases (ltb first last)) [
        | inr empty ↦ (none, rw empty refl, λ i low high. absurd (ground arith))
        | inl part ↦
            let inside : middle < last = ground arith in
            elim (Bool-cases (is_negative cmp)) [
              | inl below ↦
                  let r = search_loop-Answer fuel first middle cnt s (omega arith) (omega arith) in
                  (
                    r.0,
                    rw (part, below, r.1) refl,
                    Answer-low first middle last r.0 (omega arith)
                        (λ i low high.
                          negative-equal (compare key (a i))
                            (s.behind middle i low (omega arith) below))
                        r.2,
                  )
              | inr other ↦ elim (Bool-cases (is_positive cmp)) [
                | inl above ↦
                    let r = search_loop-Answer fuel (middle + 1) last cnt s le (omega arith) in
                    (
                      r.0,
                      rw (part, other, above, r.1) refl,
                      Answer-high first middle last r.0 (omega arith)
                          (λ i low high.
                            positive-equal (compare key (a i))
                              (s.before i middle high (omega arith) above))
                          r.2,
                    )
                | inr equal ↦ (
                  some middle,
                  rw (part, other, equal) refl,
                  (omega arith, inside, sign-equal cmp other equal),
                )
              ]
            ]
      ]

  -- On an array that is sorted for the key, binary_search returns; the result is the index of an
  -- element that is equal to the key, or NULL if there is none.
  pub binary_search-Answer :
      (cnt : ℕ)
      → IsSplit cnt
      → (r : Option ℕ) × (binary_search compare key a cnt ≡ some r) × Answer 0 cnt r
  unfolding binary_search
  binary_search-Answer cnt s = search_loop-Answer (cnt + 1) 0 cnt cnt s (omega arith) (omega arith)
