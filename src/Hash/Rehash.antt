-- ===== src/Hash/Rehash.antt =====
-- rehash of lib/kernel/hash.c: the new number of buckets, and the move of all elements.
use tiny_os.Common.{
  ℕ, zero, suc, ◌+◌, ◌-◌, ◌≤◌, ◌<◌, ◌≡◌, ◌≢◌, refl, sym, ap, ◌∙◌, bit_and, Bool, true, false, ◌&&◌,
  ◌||◌, List, [], ◌∷◌, ◌++◌, ◌==◌, ltb, leb, get_or, length, length-append, arith, Bool-cases, inl,
  inr,
}
use tiny_os.Common.Members.{has, has-append}
use tiny_os.Common.Bits.{bit_and-le_right}
use tiny_os.Hash.{
  push, bucket_idx, equal, is_power_of_2, power_loop, ideal_bucket_cnt, move_bucket, move_buckets,
}
use tiny_os.Hash.Buckets.{
  total, total-push, IsKey, equal_symm, bucket_idx-lt, bucket_idx_congr, Apart, Holds, Fresh,
  push-Holds,
}

power_loop-power : (fuel x : ℕ) → x ≢ 0 → x ≤ fuel → is_power_of_2 (power_loop fuel x) ≡ true
unfolding power_loop
power_loop-power zero x real le = absurd (real (omega arith))
power_loop-power (suc fuel) x real le = elim (Bool-cases (is_power_of_2 x)) [
  | inl power ↦ rw power power
  | inr more ↦
      let small = bit_and-le_right x (x - 1) in
      let some_left : bit_and x (x - 1) ≢ 0 = (λ e. ground arith) in
      rw more (power_loop-power fuel (bit_and x (x - 1)) some_left (omega arith))
]

-- The loop of rehash ends within its fuel, at a power of 2.
pub ideal_bucket_cnt-power : (elem_cnt : ℕ) → is_power_of_2 (ideal_bucket_cnt elem_cnt) ≡ true
unfolding ideal_bucket_cnt
ideal_bucket_cnt-power elem_cnt = power_loop-power _ _ (ground arith) (omega arith)

pub ideal_bucket_cnt_pos : (elem_cnt : ℕ) → 0 < ideal_bucket_cnt elem_cnt
ideal_bucket_cnt_pos elem_cnt = let p = ideal_bucket_cnt-power elem_cnt in ground arith

-- All elements, bucket by bucket.
abbrev pub flat : List (List ℕ) → List ℕ
flat [] = []
flat (b ∷ bs) = b ++ flat bs

module _ (hash : ℕ → ℕ) (less : ℕ → ℕ → Bool) where
  -- `f` and the elements of a list, which are not equal to those of `f`.
  abbrev pub with_list : (ℕ → Bool) → List ℕ → ℕ → Bool
  with_list f xs x = f x || has x xs

  abbrev pub AllFresh : (ℕ → Bool) → List ℕ → Type 0
  AllFresh f xs = (x : ℕ) → has x xs ≡ true → Fresh hash less f x

  -- Holding is about the values of `f` only.
  pub Holds-same :
      (n : ℕ) (f g : ℕ → Bool) (bs : List (List ℕ))
      → ((x : ℕ) → f x ≡ g x)
      → Holds hash less n f bs
      → Holds hash less n g bs
  Holds-same n f g bs e h = record {
    width = h.width;
    reads = λ i x lt. h.reads i x lt ∙ ap (λ b. b && i == bucket_idx hash less n x) (e x);
    apart = h.apart;
  }

  pub move_bucket-Holds :
      (n : ℕ) (f : ℕ → Bool) (xs : List ℕ) (bs : List (List ℕ))
      → 0 < n
      → Holds hash less n f bs
      → Apart hash less xs
      → AllFresh f xs
      → Holds hash less n (with_list f xs) (move_bucket hash less n xs bs)
        × (total (move_bucket hash less n xs bs) ≡ total bs + length xs)
  unfolding move_bucket
  move_bucket-Holds n f [] bs pos h a fresh =
      (Holds-same n f (with_list f []) bs (λ x. ground arith) h, omega arith)
  move_bucket-Holds n f (x ∷ xs) bs pos h a fresh =
      let k = bucket_idx hash less n x in
      let pushed = push-Holds hash less n f bs x pos h (fresh x (ground arith)) in
      let rest =
        move_bucket-Holds n (λ y. f y || y == x) xs (push bs k x) pos pushed a.1
          (λ z q y p. elim (Bool-cases (y == x)) [
            | inl here ↦
                let same : y ≡ x = ground arith in rw same (equal_symm hash less z x ∙ a.0 z q)
            | inr there ↦ fresh z (ground arith) y (ground arith)
          ]) in
      let w = h.width in
      let t = total-push bs k x (let l = bucket_idx-lt hash less n x pos in omega arith) in
      (
        Holds-same n _ (with_list f (x ∷ xs)) (move_bucket hash less n xs (push bs k x))
            (λ y. ground arith) rest.0,
        let r = rest.1 in omega arith,
      )

  move_bucket-append :
      (n : ℕ) (xs ys : List ℕ) (bs : List (List ℕ))
      → move_bucket hash less n (xs ++ ys) bs
        ≡ move_bucket hash less n ys (move_bucket hash less n xs bs)
  unfolding move_bucket
  move_bucket-append n [] ys bs = refl
  move_bucket-append n (x ∷ xs) ys bs =
      move_bucket-append n xs ys (push bs (bucket_idx hash less n x) x)

  pub move_buckets-flat :
      (n : ℕ) (bss bs : List (List ℕ))
      → move_buckets hash less n bss bs ≡ move_bucket hash less n (flat bss) bs
  unfolding move_buckets move_bucket
  move_buckets-flat n [] bs = refl
  move_buckets-flat n (b ∷ bss) bs =
      move_buckets-flat n bss (move_bucket hash less n b bs)
      ∙ sym (move_bucket-append n b (flat bss) bs)

  Apart-append :
      (xs ys : List ℕ)
      → Apart hash less xs
      → Apart hash less ys
      → ((x y : ℕ) → has x xs ≡ true → has y ys ≡ true → equal hash less x y ≡ false)
      → Apart hash less (xs ++ ys)
  Apart-append [] ys a b cross = b
  Apart-append (x ∷ xs) ys a b cross = (
    (λ y q. elim (Bool-cases (has y xs)) [
      | inl here ↦ a.0 y here
      | inr there ↦ let h = has-append y xs ys in cross x y (ground arith) (ground arith)
    ]),
    Apart-append xs ys a.1 b (λ u v p q. cross u v (ground arith) q),
  )

  -- What the buckets from the `k`-th on hold.
  module _ (n : ℕ) (f : ℕ → Bool) where
    abbrev pub Tail : ℕ → List (List ℕ) → Type 0
    Tail k bs =
        (i x : ℕ)
        → i < length bs
        → has x (get_or bs i []) ≡ (f x && k + i == bucket_idx hash less n x)

    Tail-next : (k : ℕ) (b : List ℕ) (bs : List (List ℕ)) → Tail k (b ∷ bs) → Tail (k + 1) bs
    Tail-next k b bs h i x lt =
        h (suc i) x (omega arith) ∙ ap (λ j. f x && j == bucket_idx hash less n x) (omega arith)

    pub has-flat :
        (k : ℕ) (bs : List (List ℕ)) (x : ℕ)
        → Tail k bs
        → has x (flat bs) ≡ (
            f x
            && (leb k (bucket_idx hash less n x) && ltb (bucket_idx hash less n x) (k + length bs)))
    has-flat k [] x h = ground arith
    has-flat k (b ∷ bs) x h =
        let here = h 0 x (omega arith) in
        let rest = has-flat (k + 1) bs x (Tail-next k b bs h) in
        rw (has-append x b (flat bs)) (ground arith)

    pub Apart-flat :
        (k : ℕ) (bs : List (List ℕ))
        → IsKey hash less
        → Tail k bs
        → ((i : ℕ) → Apart hash less (get_or bs i []))
        → Apart hash less (flat bs)
    Apart-flat k [] key h a = tt
    Apart-flat k (b ∷ bs) key h a =
        let next = Tail-next k b bs h in
        Apart-append b (flat bs) (a 0) (Apart-flat (k + 1) bs key next (λ i. a (suc i))) (λ x y p q.
          let here = h 0 x (omega arith) in
          let rest = has-flat (k + 1) bs y next in
          elim (Bool-cases (equal hash less x y)) [
            | inl same ↦
                let together = bucket_idx_congr hash less n x y (key.hash-equal x y same) in
                let at_k : k ≡ bucket_idx hash less n x = ground arith in
                let above : leb (k + 1) (bucket_idx hash less n y) ≡ true = ground arith in
                ground arith
            | inr other ↦ other
          ])

pub length-flat : (bs : List (List ℕ)) → length (flat bs) ≡ total bs
length-flat [] = refl
length-flat (b ∷ bs) = omega (arith, length-append b (flat bs), length-flat bs)
