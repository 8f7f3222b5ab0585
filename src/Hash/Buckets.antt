-- ===== src/Hash/Buckets.antt =====
-- What the buckets of lib/kernel/hash.c hold.
use tiny_os.Common.{
  ℕ, bit_and, zero, suc, ◌+◌, ◌-◌, ◌<◌, ◌≡◌, ap, ◌∙◌, Bool, true, false, ◌&&◌, ◌||◌, List, [], ◌∷◌,
  ◌==◌, get_or, length, get_or-set, length-set, arith, Bool-cases, inl, inr,
}
use tiny_os.Common.Members.{has}
use tiny_os.Common.Bits.{bit_and-le_right}
use tiny_os.Hash.{push, bucket_idx, equal}

-- The number of elements in all buckets.
abbrev pub total : List (List ℕ) → ℕ
total [] = 0
total (b ∷ bs) = length b + total bs

-- What hash functions and comparisons must satisfy: `less` orders the elements up to equal ones,
-- and equal elements have equal hashes.
pub record IsKey (hash : ℕ → ℕ) (less : ℕ → ℕ → Bool) : Type 0 where
  pub irrefl : (a : ℕ) → less a a ≡ false
  pub equal_trans :
      (a b c : ℕ)
      → equal hash less a b ≡ true
      → equal hash less b c ≡ true
      → equal hash less a c ≡ true
  pub hash-equal : (a b : ℕ) → equal hash less a b ≡ true → hash a ≡ hash b

module _ (hash : ℕ → ℕ) (less : ℕ → ℕ → Bool) where
  pub equal_symm : (a b : ℕ) → equal hash less a b ≡ equal hash less b a
  equal_symm a b = ground arith

  pub bucket_idx-lt : (n e : ℕ) → 0 < n → bucket_idx hash less n e < n
  unfolding bucket_idx
  bucket_idx-lt n e pos = omega (arith, bit_and-le_right (hash e) (n - 1))

  pub bucket_idx_congr :
      (n a b : ℕ) → hash a ≡ hash b → bucket_idx hash less n a ≡ bucket_idx hash less n b
  unfolding bucket_idx
  bucket_idx_congr n a b e = ap (λ k. bit_and k (n - 1)) e

  -- No two elements of a list are equal.
  abbrev pub Apart : List ℕ → Type 0
  Apart [] = Unit
  Apart (x ∷ xs) = ((y : ℕ) → has y xs ≡ true → equal hash less x y ≡ false) × Apart xs

  -- `n` buckets hold the elements of which `f` is true, each in its bucket, and no two equal.
  pub record Holds (n : ℕ) (f : ℕ → Bool) (bs : List (List ℕ)) : Type 0 where
    pub width : length bs ≡ n
    pub reads : (i x : ℕ) → i < n → has x (get_or bs i []) ≡ (f x && i == bucket_idx hash less n x)
    pub apart : (i : ℕ) → Apart (get_or bs i [])

  -- No element of `f` is equal to `e`.
  abbrev pub Fresh : (ℕ → Bool) → ℕ → Type 0
  Fresh f e = (y : ℕ) → f y ≡ true → equal hash less e y ≡ false

  pub push-Holds :
      (n : ℕ) (f : ℕ → Bool) (bs : List (List ℕ)) (e : ℕ)
      → 0 < n
      → Holds n f bs
      → Fresh f e
      → Holds n (λ x. f x || x == e) (push bs (bucket_idx hash less n e) e)
  push-Holds n f bs e pos h fresh =
      let k = bucket_idx hash less n e in
      let inside : k < length bs =
        (let w = h.width in let l = bucket_idx-lt n e pos in omega arith) in
      record {
        width = length-set bs k (e ∷ get_or bs k []) ∙ h.width;
        reads = λ i x lt. rw (get_or-set bs k i (e ∷ get_or bs k []) [] inside) (
            let j = bucket_idx hash less n x in
            let in_k = h.reads k x (bucket_idx-lt n e pos) in
            let in_i = h.reads i x lt in
            let home : (x == e) ≡ true → j ≡ k =
              (λ q. ap (bucket_idx hash less n) (let o : x ≡ e = ground arith in o)) in
            elim (Bool-cases (k == i)) [
              | inl here ↦ rw here (ground arith)
              | inr there ↦ rw there (ground arith)
            ]);
        apart = λ i.
            rw (get_or-set bs k i (e ∷ get_or bs k []) [] inside) (elim (Bool-cases (k == i)) [
              | inl here ↦ rw here (
                (λ y q. fresh y (let in_k = h.reads k y (bucket_idx-lt n e pos) in ground arith)),
                h.apart k,
              )
              | inr there ↦ rw there (h.apart i)
            ]);
      }

pub total-push :
    (bs : List (List ℕ)) (i e : ℕ) → i < length bs → total (push bs i e) ≡ suc (total bs)
total-push [] i e h = absurd (omega arith)
total-push (b ∷ bs) zero e h = omega arith
total-push (b ∷ bs) (suc i) e h = omega (arith, total-push bs i e (omega arith))
