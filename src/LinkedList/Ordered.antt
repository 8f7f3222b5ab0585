-- ===== src/LinkedList/Ordered.antt =====
-- The calls of list.c that compare elements: list_insert_ordered, list_max and list_min.
use tiny_os.Common.{
  ℕ, zero, suc, ◌<◌, ◌≡◌, refl, subst, ◌≢◌, Bool, true, false, some, List, [], ◌∷◌, ◌++◌, ◌==◌,
  if◌then◌else◌, ==_refl, arith, length, Bool-cases, inl, inr,
}
use tiny_os.LinkedList.{Links, KernelList, insert, place_loop, insert_ordered, max, min}
use tiny_os.LinkedList.Chain.{has, IsList, first_of_rest}
use tiny_os.LinkedList.Insert.{Chain-begin, Inserted, insert-Inserted}
use tiny_os.LinkedList.Walk.{
  champion, max_loop-champion, min_loop-champion, not_end, next_lem, behind,
}

-- A comparison that orders the elements, up to elements that are equal.
pub record IsOrder (less : ℕ → ℕ → Bool) : Type 0 where
  pub asym : (a b : ℕ) → less a b ≡ true → less b a ≡ false
  pub neg_trans : (a b c : ℕ) → less a b ≡ false → less b c ≡ false → less a c ≡ false

flip-IsOrder : {less : ℕ → ℕ → Bool} → IsOrder less → IsOrder (λ a b. less b a)
flip-IsOrder o = record {
  asym = λ a b h. o.asym b a h;
  neg_trans = λ a b c p q. o.neg_trans c b a q p;
}

module _ (beats : ℕ → ℕ → Bool) (o : IsOrder beats) where
  irrefl : (m : ℕ) → beats m m ≡ false
  irrefl m = elim (Bool-cases (beats m m)) [ inl e ↦ o.asym m m e | inr e ↦ e ]

  champion-wins :
      (m : ℕ) (ys : List ℕ) (a : ℕ) → has a (m ∷ ys) ≡ true → beats a (champion beats m ys) ≡ false
  champion-wins m [] a i = let same : a ≡ m = ground arith in rw same (irrefl m)
  champion-wins m (y ∷ ys) a i = elim (Bool-cases (beats y m)) [
    | inl up ↦
        let rest = champion-wins y ys in
        rw up (elim (Bool-cases (a == m)) [
          | inl old ↦
              let same : a ≡ m = ground arith in
              rw same (o.neg_trans m y _ (o.asym y m up) (rest y (ground arith)))
          | inr other ↦ rest a (ground arith)
        ])
    | inr down ↦
        let rest = champion-wins m ys in
        rw down (elim (Bool-cases (a == y)) [
          | inl new ↦
              let same : a ≡ y = ground arith in
              rw same (o.neg_trans y m _ down (rest m (ground arith)))
          | inr other ↦ rest a (ground arith)
        ])
  ]

has-champion :
    (beats : ℕ → ℕ → Bool) (m : ℕ) (ys : List ℕ) → has (champion beats m ys) (m ∷ ys) ≡ true
has-champion beats m [] = ground arith
has-champion beats m (y ∷ ys) = ground (arith, has-champion beats (if beats y m then y else m) ys)

-- Elements in an order that no neighbour contradicts.
abbrev pub IsSorted : (ℕ → ℕ → Bool) → List ℕ → Type 0
IsSorted less [] = Unit
IsSorted less (x ∷ []) = Unit
IsSorted less (x ∷ y ∷ ys) = (less y x ≡ false) × IsSorted less (y ∷ ys)

module _ (less : ℕ → ℕ → Bool) (elem : ℕ) where
  -- The elements in front of which `elem` does not belong, and those from the first that it precedes.
  abbrev pub skipped : List ℕ → List ℕ
  skipped [] = []
  skipped (y ∷ ys) = if less elem y then [] else y ∷ skipped ys

  abbrev pub later : List ℕ → List ℕ
  later [] = []
  later (y ∷ ys) = if less elem y then y ∷ ys else later ys

  skipped-append-later : (ys : List ℕ) → skipped ys ++ later ys ≡ ys
  skipped-append-later [] = refl
  skipped-append-later (y ∷ ys) = ground (arith, skipped-append-later ys)

  place_loop-later :
      (fuel : ℕ) (h : Links) (l : KernelList) (xs ys : List ℕ)
      → IsList h l (xs ++ ys)
      → length ys < fuel
      → place_loop less fuel l elem (first_of_rest ys l.tail) h
        ≡ some (first_of_rest (later ys) l.tail, h)
  unfolding place_loop
  place_loop-later zero h l xs ys is lt = absurd (omega arith)
  place_loop-later (suc fuel) h l xs [] is lt = rw (==_refl l.tail)
  place_loop-later (suc fuel) h l xs (y ∷ ys) is lt = elim (Bool-cases (less elem y)) [
    | inl here ↦ rw (not_end h l xs y ys is, here)
    | inr on ↦
        rw (not_end h l xs y ys is, on, next_lem h l xs y ys is)
          (place_loop-later fuel h l (xs ++ (y ∷ [])) ys (behind h l xs y ys is) (omega arith))
  ]

  insert_ordered-place :
      (fuel : ℕ) (h : Links) (l : KernelList) (xs : List ℕ)
      → IsList h l xs
      → length xs < fuel
      → elem ≢ 0
      → has elem (l.head ∷ l.tail ∷ xs) ≡ false
      → (h' : Links) × (insert_ordered less fuel l elem h ≡ some (tt, h'))
        × Inserted h l elem xs (skipped xs ++ (elem ∷ later xs)) h'
  unfolding insert_ordered
  insert_ordered-place fuel h l xs is lt ne out =
      rw (Chain-begin h l.head l.tail xs is.chain, place_loop-later fuel h l [] xs is lt)
        (subst
          (λ zs.
            IsList h l zs
            → has elem (l.head ∷ l.tail ∷ zs) ≡ false
            → (h' : Links) × (insert (first_of_rest (later xs) l.tail) elem h ≡ some (tt, h'))
              × Inserted h l elem zs (skipped xs ++ (elem ∷ later xs)) h')
          (skipped-append-later xs)
          (λ is' out'. insert-Inserted h l elem (skipped xs) (later xs) is' ne out') is out)

  cons-IsSorted :
      (x : ℕ) (ys : List ℕ)
      → IsSorted less (x ∷ ys)
      → less elem x ≡ false
      → IsOrder less
      → IsSorted less (x ∷ (skipped ys ++ (elem ∷ later ys)))
  cons-IsSorted x [] s behind_x o = (behind_x, tt)
  cons-IsSorted x (y ∷ ys) s behind_x o = elim (Bool-cases (less elem y)) [
    | inl here ↦ rw here (behind_x, (o.asym elem y here, s.1))
    | inr on ↦ rw on (s.0, cons-IsSorted y ys s.1 on o)
  ]

  ordered-IsSorted :
      (xs : List ℕ)
      → IsOrder less
      → IsSorted less xs
      → IsSorted less (skipped xs ++ (elem ∷ later xs))
  ordered-IsSorted [] o s = tt
  ordered-IsSorted (x ∷ xs) o s = elim (Bool-cases (less elem x)) [
    | inl here ↦ rw here (o.asym elem x here, s)
    | inr on ↦ rw on (cons-IsSorted x xs s on o)
  ]

-- Given more rounds than elements, and a list without `elem`, `list_insert_ordered` ends without a
-- panic. It inserts `elem` before the first element that it is less than, or at the end, and a list
-- that was sorted stays so.
pub insert_ordered-Inserted :
    (less : ℕ → ℕ → Bool) (elem fuel : ℕ) (h : Links) (l : KernelList) (xs : List ℕ)
    → IsOrder less
    → IsList h l xs
    → length xs < fuel
    → elem ≢ 0
    → has elem (l.head ∷ l.tail ∷ xs) ≡ false
    → (h' : Links) × (insert_ordered less fuel l elem h ≡ some (tt, h'))
      × Inserted h l elem xs (skipped less elem xs ++ (elem ∷ later less elem xs)) h'
      × (IsSorted less xs → IsSorted less (skipped less elem xs ++ (elem ∷ later less elem xs)))
insert_ordered-Inserted less elem fuel h l xs o is lt ne out =
    let (h', e, inserted) = insert_ordered-place less elem fuel h l xs is lt ne out in
    (h', e, inserted, ordered-IsSorted less elem xs o)

module _ (less : ℕ → ℕ → Bool) (o : IsOrder less) (h : Links) (l : KernelList) where
  -- `list_max` of a list that is not empty ends without a panic and changes nothing; it returns one of
  -- the elements, and none of them is greater.
  pub max-greatest :
      (fuel x : ℕ) (xs : List ℕ)
      → IsList h l (x ∷ xs)
      → length xs < fuel
      → (r : ℕ) × (max less fuel l h ≡ some (r, h))
        × (has r (x ∷ xs) ≡ true)
        × ((a : ℕ) → has a (x ∷ xs) ≡ true → less r a ≡ false)
  unfolding max
  max-greatest fuel x xs is lt = (
    champion (λ a b. less b a) x xs,
    rw
        (
          Chain-begin h l.head l.tail (x ∷ xs) is.chain,
          not_end h l [] x xs is,
          next_lem h l [] x xs is,
        )
        (max_loop-champion less fuel h l (x ∷ []) xs x is lt),
    has-champion (λ a b. less b a) x xs,
    champion-wins (λ a b. less b a) (flip-IsOrder o) x xs,
  )

  -- `list_min` likewise returns an element that none of the list is less than.
  pub min-least :
      (fuel x : ℕ) (xs : List ℕ)
      → IsList h l (x ∷ xs)
      → length xs < fuel
      → (r : ℕ) × (min less fuel l h ≡ some (r, h))
        × (has r (x ∷ xs) ≡ true)
        × ((a : ℕ) → has a (x ∷ xs) ≡ true → less a r ≡ false)
  unfolding min
  min-least fuel x xs is lt = (
    champion less x xs,
    rw
        (
          Chain-begin h l.head l.tail (x ∷ xs) is.chain,
          not_end h l [] x xs is,
          next_lem h l [] x xs is,
        )
        (min_loop-champion less fuel h l (x ∷ []) xs x is lt),
    has-champion less x xs,
    champion-wins less o x xs,
  )
