-- ===== src/Sort/Sinking.antt =====
-- One round of heapify of lib/stdlib.c moves the element that is too small down, until it has no
-- larger child.
use tiny_os.Common.{
  ℕ, zero, suc, ◌+◌, ◌-◌, ◌/◌, ◌^◌, ◌≤◌, ◌<◌, ◌≡◌, ◌≢◌, inl, inr, refl, sym, subst, true, false,
  some, ◌==◌, if◌then◌else◌, arith, Bool-cases, ==_iff,
}
use tiny_os.Common.Integers.{ℤ}
use tiny_os.Sort.{at, do_swap, max_index, heapify_loop, heapify}
use tiny_os.Sort.Arrays.{IsShuffled, IsShuffled-refl, IsShuffled-trans, at-swap, swap-IsShuffled}
use tiny_os.Sort.Heaps.{Below, IsComparison, IsHeapFrom, IsSinking, IsLargest, max_index-IsLargest}

module _ {A : Type 0} (compare : A → A → ℤ) (order : IsComparison compare) (lo cnt : ℕ) where
  module _ (a : ℕ → A) (i m : ℕ) (s : IsSinking compare lo cnt a i)
      (l : IsLargest compare a i cnt m) (two : 2 ≤ m) (there : m ≤ cnt) (child : m / 2 ≡ i) where
    swapped_at : ℕ → A
    swapped_at c = if m == c then at a i else if i == c then at a m else at a c

    swapped-edge :
        (c : ℕ)
        → 2 ≤ c
        → c ≤ cnt
        → lo ≤ c / 2
        → c / 2 ≢ m
        → Below compare (swapped_at c) (swapped_at (c / 2))
    unfolding swapped_at
    swapped-edge c tc hc low other =
        let n : (m == c / 2) ≡ false = ground arith in
        elim (Bool-cases (m == c)) [
          | inl e ↦ let p : (i == c / 2) ≡ true = ground arith in rw (e, n, p) l.self
          | inr e ↦ elim (Bool-cases (i == c)) [
            | inl f ↦
                let c_is : i ≡ c = (==_iff i c).0 f in
                let p : (i == c / 2) ≡ false = ground arith in
                rw (e, f, n, p)
                  (subst (λ d. Below compare (at a m) (at a (d / 2))) c_is
                    (s.bridged m two there child (omega arith) (omega arith)))
            | inr f ↦ elim (Bool-cases (i == c / 2)) [
              | inl g ↦ rw (e, f, n, g) (l.children c tc hc (ground arith))
              | inr g ↦ rw (e, f, n, g) (s.edges c tc hc low (ground arith))
            ]
          ]
        ]

    swap-IsSinking : IsSinking compare lo cnt (do_swap a i m) m
    unfolding swapped_at
    swap-IsSinking =
        let li : 1 ≤ i = omega arith in
        let lm : 1 ≤ m = omega arith in
        record {
          edges = λ c tc hc low other.
              rw (at-swap a i m c li lm (omega arith), at-swap a i m (c / 2) li lm (omega arith))
                (swapped-edge c tc hc low other);
          bridged = λ c tc hc up pos_m low.
              let p : (m == c) ≡ false = ground arith in
              let q : (i == c) ≡ false = ground arith in
              let r : (m == m / 2) ≡ false = ground arith in
              let t : (i == m / 2) ≡ true = ground arith in
              let e = s.edges c tc hc (omega arith) (λ h. omega arith) in
              rw
                (
                  at-swap a i m c li lm (omega arith),
                  at-swap a i m (m / 2) li lm (omega arith),
                  p,
                  q,
                  r,
                  t,
                )
                (subst (λ d. Below compare (at a c) (at a d)) up e);
        }

  -- The rest of the heap is in order, and the array has the elements that it had.
  abbrev pub Mended : (ℕ → A) → (ℕ → A) → Type 0
  Mended a b = IsHeapFrom compare lo cnt b × IsShuffled cnt a b

  heapify_loop-Mended :
      (fuel : ℕ) (a : ℕ → A) (i : ℕ)
      → cnt < 2 ^ 31
      → 1 ≤ i
      → i ≤ cnt
      → cnt - i < fuel
      → IsSinking compare lo cnt a i
      → (b : ℕ → A) × (heapify_loop compare fuel a i cnt ≡ some b) × Mended a b
  unfolding heapify_loop
  heapify_loop-Mended zero a i small li hi f s = absurd (omega arith)
  heapify_loop-Mended (suc fuel) a i small li hi f s =
      let m = max_index compare a i cnt in
      let l : IsLargest compare a i cnt m = max_index-IsLargest compare order a i cnt li hi small in
      elim (Bool-cases (m == i)) [
        | inl settled ↦ (
          a,
          rw settled refl,
          (
            (λ c tc hc low. elim (Bool-cases (c / 2 == i)) [
              | inl e ↦
                  let p = (==_iff (c / 2) i).0 e in
                  let q = (==_iff m i).0 settled in
                  subst (λ d. Below compare (at a c) (at a d)) (sym p)
                    (subst (λ d. Below compare (at a c) (at a d)) q (l.children c tc hc p))
              | inr e ↦ s.edges c tc hc low (ground arith)
            ]),
            IsShuffled-refl cnt a,
          ),
        )
        | inr moves ↦ elim l.place [
          | inl same ↦ absurd (ground arith)
          | inr (two, there, child) ↦
              let t = swap-IsSinking a i m s l two there child in
              let r =
                heapify_loop-Mended fuel (do_swap a i m) m small (omega arith) there (omega arith)
                  t in
              (
                r.0,
                rw (moves, r.1) refl,
                (
                  r.2.0,
                  IsShuffled-trans (swap-IsShuffled a cnt i m li hi (omega arith) there) r.2.1,
                ),
              )
        ]
      ]

  -- heapify of an index whose children are heaps, and whose other edges are in order, returns, for fewer
  -- than 2 ^ 31 elements: it makes a heap of the same elements.
  pub heapify-Mended :
      (a : ℕ → A) (i : ℕ)
      → cnt < 2 ^ 31
      → 1 ≤ i
      → i ≤ cnt
      → IsSinking compare lo cnt a i
      → (b : ℕ → A) × (heapify compare a i cnt ≡ some b) × Mended a b
  unfolding heapify
  heapify-Mended a i small li hi s = heapify_loop-Mended (cnt + 1) a i small li hi (omega arith) s
