-- ===== src/Sort/Arrays.antt =====
-- Exchanges of elements, as do_swap of lib/stdlib.c makes them, and arrays with the same elements.
use tiny_os.Common.{
  ℕ, ◌-◌, ◌≤◌, ◌<◌, ◌≡◌, refl, ap, ◌∙◌, ◌==◌, ltb, if◌then◌else◌, arith, Bool-cases, inl, inr,
}
use tiny_os.Sort.{at, do_swap}

-- `b` holds the first `n` elements of `a` in some order, and the same elements as `a` from there on.
pub record IsShuffled {ℓ} {A : Type ℓ} (n : ℕ) (a b : ℕ → A) : Type ℓ where
  pub source : ℕ → ℕ
  pub target : ℕ → ℕ
  pub source-target : (i : ℕ) → source (target i) ≡ i
  pub target-source : (i : ℕ) → target (source i) ≡ i
  pub inside : (i : ℕ) → i < n → source i < n
  pub outside : (i : ℕ) → n ≤ i → source i ≡ i
  pub moved : (i : ℕ) → b i ≡ a (source i)

-- The positions that an exchange takes elements from.
abbrev exchange : ℕ → ℕ → ℕ → ℕ
exchange i j k = if j == k then i else if i == k then j else k

exchange-exchange : (i j k : ℕ) → exchange i j (exchange i j k) ≡ k
exchange-exchange i j k = ground arith

module _ {ℓ} {A : Type ℓ} where
  pub IsShuffled-refl : (n : ℕ) (a : ℕ → A) → IsShuffled n a a
  IsShuffled-refl n a = record {
    source = λ i. i;
    target = λ i. i;
    source-target = λ i. refl;
    target-source = λ i. refl;
    inside = λ i h. h;
    outside = λ i h. refl;
    moved = λ i. refl;
  }

  pub IsShuffled-trans :
      {n : ℕ} {a b c : ℕ → A} → IsShuffled n a b → IsShuffled n b c → IsShuffled n a c
  IsShuffled-trans s t = record {
    source = λ i. s.source (t.source i);
    target = λ i. t.target (s.target i);
    source-target = λ i. ap s.source (t.source-target (s.target i)) ∙ s.source-target i;
    target-source = λ i. ap t.target (s.target-source (t.source i)) ∙ t.target-source i;
    inside = λ i h. s.inside (t.source i) (t.inside i h);
    outside = λ i h. ap s.source (t.outside i h) ∙ s.outside i h;
    moved = λ i. t.moved i ∙ s.moved (t.source i);
  }

  -- A larger part of the array also holds the same elements.
  pub IsShuffled-le : {m n : ℕ} {a b : ℕ → A} → m ≤ n → IsShuffled m a b → IsShuffled n a b
  IsShuffled-le {m} {n} le s = record {
    source = s.source;
    target = s.target;
    source-target = s.source-target;
    target-source = s.target-source;
    inside = λ i h. elim (Bool-cases (ltb i m)) [
      | inl low ↦ let p = s.inside i (ground arith) in omega arith
      | inr high ↦ let p = s.outside i (ground arith) in omega arith
    ];
    outside = λ i h. s.outside i (omega arith);
    moved = s.moved;
  }

  pub at-swap :
      (a : ℕ → A) (i j k : ℕ)
      → 1 ≤ i
      → 1 ≤ j
      → 1 ≤ k
      → at (do_swap a i j) k ≡ (if j == k then at a i else if i == k then at a j else at a k)
  unfolding do_swap
  at-swap a i j k hi hj hk =
      let e : (i - 1 == k - 1) ≡ (i == k) = ground arith in
      let f : (j - 1 == k - 1) ≡ (j == k) = ground arith in rw (e, f) refl

  pub exchange-IsShuffled :
      (a b : ℕ → A) (n i j : ℕ)
      → i < n
      → j < n
      → ((k : ℕ) → b k ≡ (if j == k then a i else if i == k then a j else a k))
      → IsShuffled n a b
  exchange-IsShuffled a b n i j hi hj swapped = record {
    source = exchange i j;
    target = exchange i j;
    source-target = exchange-exchange i j;
    target-source = exchange-exchange i j;
    inside = λ k h. ground arith;
    outside = λ k h. ground arith;
    moved = λ k. swapped k ∙ elim (Bool-cases (j == k)) [
      | inl e ↦ rw e refl
      | inr n ↦ elim (Bool-cases (i == k)) [ inl e ↦ rw (n, e) refl | inr m ↦ rw (n, m) refl ]
    ];
  }

  pub swap-IsShuffled :
      (a : ℕ → A) (n i j : ℕ) → 1 ≤ i → i ≤ n → 1 ≤ j → j ≤ n → IsShuffled n a (do_swap a i j)
  unfolding do_swap
  swap-IsShuffled a n i j li hi lj hj =
      exchange-IsShuffled a (do_swap a i j) n (i - 1) (j - 1) (omega arith) (omega arith)
        (λ k. refl)
