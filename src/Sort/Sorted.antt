-- ===== src/Sort/Sorted.antt =====
-- sort of lib/stdlib.c: the first loop makes a heap of the array, and the second takes the largest
-- element of the heap off, over and over.
use tiny_os.Common.{
  ℕ, zero, suc, ◌+◌, ◌-◌, ◌/◌, ◌^◌, ◌≤◌, ◌<◌, ◌≡◌, inl, inr, refl, sym, ap, ◌∙◌, subst, true, false,
  some, ◌==◌, ltb, arith, Bool-cases, ==_iff,
}
use tiny_os.Common.Integers.{ℤ}
use tiny_os.Sort.{at, do_swap, build_loop, sort_loop, sort}
use tiny_os.Sort.Arrays.{
  IsShuffled, IsShuffled-refl, IsShuffled-trans, IsShuffled-le, at-swap, swap-IsShuffled,
}
use tiny_os.Sort.Heaps.{Below, IsComparison, IsHeapFrom, Below_refl}
use tiny_os.Sort.Sinking.{heapify-Mended}

module _ {A : Type 0} (compare : A → A → ℤ) (order : IsComparison compare) where
  build_loop-IsHeap :
      (a : ℕ → A) (i cnt : ℕ)
      → cnt < 2 ^ 31
      → i ≤ cnt
      → IsHeapFrom compare (i + 1) cnt a
      → (b : ℕ → A) × (build_loop compare a i cnt ≡ some b)
        × IsHeapFrom compare 1 cnt b
        × IsShuffled cnt a b
  unfolding build_loop
  build_loop-IsHeap a zero cnt small le h = (a, refl, h, IsShuffled-refl cnt a)
  build_loop-IsHeap a (suc i) cnt small le h =
      let r = heapify-Mended compare order (suc i) cnt a (suc i) small (omega arith) le (record {
        edges = λ c two inside low other. h c two inside (omega arith);
        bridged = λ c two inside up first low. absurd (omega arith);
      }) in
      let s =
        build_loop-IsHeap r.0 i cnt small (omega arith)
          (λ c two inside low. r.2.0 c two inside (omega arith)) in
      (s.0, rw (r.1, s.1) refl, s.2, IsShuffled-trans r.2.1 s.3)

  root_below :
      (fuel : ℕ) (a : ℕ → A) (cnt i : ℕ)
      → IsHeapFrom compare 1 cnt a
      → i < fuel
      → 1 ≤ i
      → i ≤ cnt
      → Below compare (at a i) (at a 1)
  root_below zero a cnt i h f low high = absurd (omega arith)
  root_below (suc fuel) a cnt i h f low high = elim (Bool-cases (i == 1)) [
    | inl e ↦
        subst (λ d. Below compare (at a d) (at a 1)) (sym ((==_iff i 1).0 e))
          (Below_refl compare order (at a 1))
    | inr e ↦
        let up = root_below fuel a cnt (i / 2) h (ground arith) (ground arith) (omega arith) in
        order.transitive _ _ _ (h i (ground arith) high (ground arith)) up
  ]

  -- The root of a heap is the largest element.
  root-largest :
      (a : ℕ → A) (cnt i : ℕ)
      → IsHeapFrom compare 1 cnt a
      → 1 ≤ i
      → i ≤ cnt
      → Below compare (at a i) (at a 1)
  root-largest a cnt i h low high = root_below (i + 1) a cnt i h (omega arith) low high

  -- The elements behind the first `n` are in order, and none of them is below an earlier one.
  abbrev IsSortedFrom : ℕ → ℕ → (ℕ → A) → Type 0
  IsSortedFrom n cnt a =
      (i j : ℕ) → 1 ≤ i → i ≤ j → n < j → j ≤ cnt → Below compare (at a i) (at a j)

  -- One round of the second loop on a heap of `suc n` elements: `b` is what heapify makes of the
  -- first `n` elements after the exchange.
  module _ (a b : ℕ → A) (n : ℕ) (some_left : 1 ≤ n)
      (s : IsShuffled n (do_swap a 1 (suc n)) b) where
    origin :
        (x : ℕ)
        → 1 ≤ x
        → (y : ℕ) × (1 ≤ y) × (x ≤ suc n → y ≤ suc n) × (suc n < x → y ≡ x) × (at b x ≡ at a y)
    origin x low =
        let k = s.source (x - 1) in
        let at_k : at b x ≡ at (do_swap a 1 (suc n)) (suc k) =
          let e : suc k - 1 ≡ k = omega arith in rw e (s.moved (x - 1)) in
        let bound : x ≤ suc n → k < suc n = λ h. elim (Bool-cases (ltb (x - 1) n)) [
          | inl t ↦ let p = s.inside (x - 1) (ground arith) in omega arith
          | inr t ↦ let p = s.outside (x - 1) (ground arith) in omega arith
        ] in
        let same : suc n < x → suc k ≡ x =
          λ h. let p = s.outside (x - 1) (omega arith) in omega arith in
        let moved = at-swap a 1 (suc n) (suc k) (omega arith) (omega arith) (omega arith) in
        elim (Bool-cases (suc n == suc k)) [
          | inl e ↦ (
            1,
            omega arith,
            (λ h. omega arith),
            (λ h. let p = same h in absurd (ground arith)),
            at_k ∙ moved ∙ rw e refl,
          )
          | inr e ↦ elim (Bool-cases (1 == suc k)) [
            | inl f ↦ (
              suc n,
              omega arith,
              (λ h. omega arith),
              (λ h. let p = same h in absurd (ground arith)),
              at_k ∙ moved ∙ rw (e, f) refl,
            )
            | inr f ↦ (
              suc k,
              omega arith,
              (λ h. let p = bound h in omega arith),
              same,
              at_k ∙ moved ∙ rw (e, f) refl,
            )
          ]
        ]

    last : at b (suc n) ≡ at a 1
    last =
        let w = at-swap a 1 (suc n) (suc n) (omega arith) (omega arith) (omega arith) in
        let e : (suc n == suc n) ≡ true = ground arith in
        let first : at (do_swap a 1 (suc n)) (suc n) ≡ at a 1 = rw (w, e) refl in
        s.moved (suc n - 1) ∙ ap (do_swap a 1 (suc n)) (s.outside (suc n - 1) (omega arith)) ∙ first

    taken-IsSorted :
        (cnt : ℕ)
        → IsHeapFrom compare 1 (suc n) a
        → IsSortedFrom (suc n) cnt a
        → IsSortedFrom n cnt b
    taken-IsSorted cnt heap sorted i j low le high inside =
        let x = origin i low in
        let y = origin j (omega arith) in
        elim (Bool-cases (j == suc n)) [
          | inl e ↦
              let here = (==_iff j (suc n)).0 e in
              let b_j : at b j ≡ at a 1 = subst (λ d. at b d ≡ at a 1) (sym here) last in
              rw (x.4, b_j) (root-largest a (suc n) x.0 heap x.1 (x.2 (omega arith)))
          | inr e ↦
              let beyond : suc n < j = ground arith in
              let b_j : at b j ≡ at a j = y.4 ∙ ap (at a) (y.3 beyond) in
              rw b_j (
                let order_i : x.0 ≤ j = elim (Bool-cases (ltb (suc n) i)) [
                  | inl t ↦ let p = x.3 (ground arith) in omega arith
                  | inr t ↦ let p = x.2 (ground arith) in omega arith
                ] in
                subst (λ v. Below compare v (at a j)) (sym x.4)
                  (sorted x.0 j x.1 order_i beyond inside))
        ]

  sort_loop-IsSorted :
      (a : ℕ → A) (n cnt : ℕ)
      → cnt < 2 ^ 31
      → n ≤ cnt
      → IsHeapFrom compare 1 n a
      → IsSortedFrom n cnt a
      → (b : ℕ → A) × (sort_loop compare a n ≡ some b) × IsSortedFrom 0 cnt b × IsShuffled cnt a b
  unfolding sort_loop
  sort_loop-IsSorted a zero cnt small le heap sorted = (a, refl, sorted, IsShuffled-refl cnt a)
  sort_loop-IsSorted a (suc zero) cnt small le heap sorted = (
    a,
    refl,
    λ i j low order_ij first inside. elim (Bool-cases (j == 1)) [
      | inl e ↦
          let here : i ≡ j = ground arith in
          subst (λ d. Below compare (at a i) (at a d)) here (Below_refl compare order (at a i))
      | inr e ↦ sorted i j low order_ij (ground arith) inside
    ],
    IsShuffled-refl cnt a,
  )
  sort_loop-IsSorted a (suc (suc n)) cnt small le heap sorted =
      let m = suc n in
      let a1 = do_swap a 1 (suc m) in
      let kept : (c : ℕ) → 2 ≤ c → c ≤ m → at a1 c ≡ at a c = λ c two inside.
        let e : (suc m == c) ≡ false = ground arith in
        let f : (1 == c) ≡ false = ground arith in
        rw (at-swap a 1 (suc m) c (omega arith) (omega arith) (omega arith), e, f) refl in
      let r =
        heapify-Mended compare order 1 m a1 1 (omega arith) (omega arith) (omega arith) (record {
          edges = λ c two inside low other.
              rw (kept c two inside, kept (c / 2) (omega arith) (omega arith))
                (heap c two (omega arith) low);
          bridged = λ c two inside up first low. absurd (omega arith);
        }) in
      let next_sorted = taken-IsSorted a r.0 m (omega arith) r.2.1 cnt heap sorted in
      let rest = sort_loop-IsSorted r.0 (suc n) cnt small (omega arith) r.2.0 next_sorted in
      let e : ltb 1 (suc m) ≡ true = ground arith in
      (
        rest.0,
        rw (e, r.1, rest.1) refl,
        rest.2,
        IsShuffled-trans
            (IsShuffled-trans
              (swap-IsShuffled a cnt 1 (suc m) (omega arith) (omega arith) (omega arith) le)
              (IsShuffled-le (omega arith) r.2.1))
            rest.3,
      )

  sorted-indexes :
      (b : ℕ → A) (cnt : ℕ)
      → IsSortedFrom 0 cnt b
      → (i j : ℕ) → i ≤ j
      → j < cnt
      → Below compare (b i) (b j)
  sorted-indexes b cnt sorted i j le inside =
      let p : i + 1 - 1 ≡ i = omega arith in
      let q : j + 1 - 1 ≡ j = omega arith in
      let e = sorted (i + 1) (j + 1) (omega arith) (omega arith) (omega arith) (omega arith) in
      subst (λ v. Below compare (b i) (b v)) q
        (subst (λ u. Below compare (b u) (b (j + 1 - 1))) p e)

  -- sort never fails an ASSERT and returns, when the array has an address and fewer than 2 ^ 31
  -- elements, which are not empty: the array then holds the same elements, in order.
  pub sort-IsSorted :
      (array : ℕ) (a : ℕ → A) (cnt size : ℕ)
      → (array == 0) ≡ false
      → cnt < 2 ^ 31
      → 1 ≤ size
      → (b : ℕ → A) × (sort compare array a cnt size ≡ some b)
        × ((i j : ℕ) → i ≤ j → j < cnt → Below compare (b i) (b j))
        × IsShuffled cnt a b
  unfolding sort
  sort-IsSorted array a cnt size there small some_size =
      let r =
        build_loop-IsHeap a (cnt / 2) cnt small (omega arith)
          (λ c two inside low. absurd (omega arith)) in
      let s =
        sort_loop-IsSorted r.0 cnt cnt small (omega arith) r.2
          (λ i j low le high inside. absurd (omega arith)) in
      let e : ltb 0 size ≡ true = ground arith in
      (s.0, rw (there, e, r.1) s.1, sorted-indexes s.0 cnt s.2, IsShuffled-trans r.3 s.3)
