-- ===== src/Sort/Heaps.antt =====
-- heapify of lib/stdlib.c mends a heap that is out of order at one index. Indexes count from 1.
use tiny_os.Common.{
  ℕ, ◌+◌, ◌*◌, ◌/◌, ◌%◌, ◌^◌, ◌≤◌, ◌<◌, ◌≡◌, ◌≢◌, ◌⊎◌, inl, inr, refl, sym, subst, true, false, leb,
  ◌==◌, arith, Bool-cases, ==_iff,
}
use tiny_os.Common.Integers.{ℤ}
use tiny_os.Sort.{at, is_positive, larger, max_index}

module _ {A : Type 0} (compare : A → A → ℤ) where
  -- The comparison does not put `x` after `y`.
  abbrev pub Below : A → A → Type 0
  Below x y = is_positive (compare x y) ≡ false

  -- A comparison for which elements can be sorted.
  pub record IsComparison : Type 0 where
    pub total : (x y : A) → is_positive (compare x y) ≡ true → Below y x
    pub transitive : (x y z : A) → Below x y → Below y z → Below x z

  -- No element is above its parent, for the parents from `lo` on.
  abbrev pub IsHeapFrom : ℕ → ℕ → (ℕ → A) → Type 0
  IsHeapFrom lo cnt a = (c : ℕ) → 2 ≤ c → c ≤ cnt → lo ≤ c / 2 → Below (at a c) (at a (c / 2))

  -- Only the element `i` may be below one of its children; they are below its parent.
  pub record IsSinking (lo cnt : ℕ) (a : ℕ → A) (i : ℕ) : Type 0 where
    pub edges : (c : ℕ) → 2 ≤ c → c ≤ cnt → lo ≤ c / 2 → c / 2 ≢ i → Below (at a c) (at a (c / 2))
    pub bridged :
        (c : ℕ)
        → 2 ≤ c
        → c ≤ cnt
        → c / 2 ≡ i
        → 1 ≤ i / 2
        → lo ≤ i / 2
        → Below (at a c) (at a (i / 2))

  -- `m` is the index of a largest element among `i` and its children.
  pub record IsLargest (a : ℕ → A) (i cnt m : ℕ) : Type 0 where
    pub place : (m ≡ i) ⊎ ((2 ≤ m) × (m ≤ cnt) × (m / 2 ≡ i))
    pub self : Below (at a i) (at a m)
    pub children : (c : ℕ) → 2 ≤ c → c ≤ cnt → c / 2 ≡ i → Below (at a c) (at a m)

  module _ (order : IsComparison) where
    pub Below_refl : (x : A) → Below x x
    Below_refl x = elim (Bool-cases (is_positive (compare x x))) [
      | inl e ↦ order.total x x e
      | inr e ↦ e
    ]

    larger-cases :
        (a : ℕ → A) (cnt child max : ℕ)
        → ((larger compare a cnt child max ≡ child) × (child ≤ cnt) × Below (at a max) (at a child))
          ⊎ ((larger compare a cnt child max ≡ max) × (child ≤ cnt → Below (at a child) (at a max)))
    unfolding larger
    larger-cases a cnt child max =
        elim (Bool-cases (is_positive (compare (at a child) (at a max)))) [
          | inl above ↦ elim (Bool-cases (leb child cnt)) [
            | inl there ↦
                inl
                  (rw (there, above) refl, ground arith, order.total (at a child) (at a max) above)
            | inr past ↦ inr (rw past refl, λ h. absurd (ground arith))
          ]
          | inr below ↦ inr (let e = below in ground arith, λ h. below)
        ]

    largest :
        (a : ℕ → A) (i cnt m : ℕ)
        → (m ≡ i) ⊎ ((2 ≤ m) × (m ≤ cnt) × (m / 2 ≡ i))
        → Below (at a i) (at a m)
        → (2 * i ≤ cnt → Below (at a (2 * i)) (at a m))
        → (2 * i + 1 ≤ cnt → Below (at a (2 * i + 1)) (at a m))
        → IsLargest a i cnt m
    largest a i cnt m place self left right = record {
      place = place;
      self = self;
      children = λ c two inside child. elim (Bool-cases (c == 2 * i)) [
        | inl e ↦
            let f = (==_iff c (2 * i)).0 e in
            subst (λ d. Below (at a d) (at a m)) (sym f) (left (omega arith))
        | inr e ↦
            let f : c ≡ 2 * i + 1 = ground arith in
            subst (λ d. Below (at a d) (at a m)) (sym f) (right (omega arith))
      ];
    }

    pub max_index-IsLargest :
        (a : ℕ → A) (i cnt : ℕ)
        → 1 ≤ i
        → i ≤ cnt
        → cnt < 2 ^ 31
        → IsLargest a i cnt (max_index compare a i cnt)
    unfolding max_index
    max_index-IsLargest a i cnt li hi small =
        let l : (2 * i) % 2 ^ 32 ≡ 2 * i = omega arith in
        let r : (2 * i + 1) % 2 ^ 32 ≡ 2 * i + 1 = omega arith in
        rw (l, r)
          (elim (larger-cases a cnt (2 * i) i) [
            | inl (e, there, up) ↦ rw e (elim (larger-cases a cnt (2 * i + 1) (2 * i)) [
              | inl (f, there', up') ↦ rw f (
                  let p : (2 * i + 1) / 2 ≡ i = omega arith in
                  largest a i cnt (2 * i + 1) (inr (omega arith, there', p))
                    (order.transitive _ _ _ up up') (λ h. up') (λ h. Below_refl _))
              | inr (f, down') ↦ rw f (
                  let p : (2 * i) / 2 ≡ i = omega arith in
                  largest a i cnt (2 * i) (inr (omega arith, there, p)) up (λ h. Below_refl _)
                    down')
            ])
            | inr (e, down) ↦ rw e (elim (larger-cases a cnt (2 * i + 1) i) [
              | inl (f, there', up') ↦ rw f (
                  let p : (2 * i + 1) / 2 ≡ i = omega arith in
                  largest a i cnt (2 * i + 1) (inr (omega arith, there', p)) up'
                    (λ h. order.transitive _ _ _ (down h) up') (λ h. Below_refl _))
              | inr (f, down') ↦ rw f (largest a i cnt i (inl refl) (Below_refl _) down down')
            ])
          ])
