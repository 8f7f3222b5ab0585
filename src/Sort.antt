-- ===== src/Sort.antt =====
-- lib/stdlib.c: heap sort and binary search. An array is a function from the indexes of its elements,
-- counted from 0; SIZE bytes make one element, and the comparison of elements, `aux` included, is a
-- parameter. A loop without a counter takes fuel, and is `none` when the fuel ends first.

pub mod Arrays
pub mod Heaps
pub mod Sinking
pub mod Sorted
pub mod Search
mod Tests
use tiny_os.Common.{
  ℕ, zero, suc, ◌+◌, ◌-◌, ◌*◌, ◌/◌, ◌%◌, ◌^◌, Bool, true, false, not, ◌&&◌, ◌||◌, Option, none,
  some, ◌==◌, leb, ltb, if◌then◌else◌,
}
use tiny_os.Common.Panic.{assert, ◌>>=◌, ◌>>◌}
use tiny_os.Common.Integers.{ℤ, pos, negsuc}

module _ {ℓ} {A : Type ℓ} where
  abbrev pub put : (ℕ → A) → ℕ → A → ℕ → A
  put a i x j = if i == j then x else a j

  -- The element with an index that counts from 1.
  abbrev pub at : (ℕ → A) → ℕ → A
  at a i = a (i - 1)

  -- The two elements are exchanged byte by byte.
  unfoldable pub do_swap : (ℕ → A) → ℕ → ℕ → ℕ → A
  do_swap a a_idx b_idx =
      let t = at a a_idx in let a1 = put a (a_idx - 1) (at a b_idx) in put a1 (b_idx - 1) t

-- The result of a comparison is greater than 0, or less.
abbrev pub is_positive : ℤ → Bool
is_positive (pos n) = ltb 0 n
is_positive (negsuc n) = false

abbrev pub is_negative : ℤ → Bool
is_negative (pos n) = false
is_negative (negsuc n) = true

module _ {ℓ} {A : Type ℓ} (compare : A → A → ℤ) where
  pub do_compare : (ℕ → A) → ℕ → ℕ → ℤ
  do_compare a a_idx b_idx = compare (at a a_idx) (at a b_idx)

  -- The child, if there is one and it is larger than the largest so far.
  pub larger : (ℕ → A) → ℕ → ℕ → ℕ → ℕ
  unfolding do_compare
  larger a cnt child max =
      if leb child cnt && is_positive (do_compare a child max) then child else max

  -- The index of the largest element among `i` and its children.
  pub max_index : (ℕ → A) → ℕ → ℕ → ℕ
  max_index a i cnt =
      let left = (2 * i) % 2 ^ 32 in
      let right = (2 * i + 1) % 2 ^ 32 in larger a cnt right (larger a cnt left i)

  pub heapify_loop : ℕ → (ℕ → A) → ℕ → ℕ → Option (ℕ → A)
  heapify_loop zero a i cnt = none
  heapify_loop (suc fuel) a i cnt =
      let max = max_index a i cnt in
      let rest = heapify_loop fuel (do_swap a i max) max cnt in if max == i then some a else rest

  pub heapify : (ℕ → A) → ℕ → ℕ → Option (ℕ → A)
  heapify a i cnt = heapify_loop (cnt + 1) a i cnt

  -- The first loop of sort, from the index `i` down.
  pub build_loop : (ℕ → A) → ℕ → ℕ → Option (ℕ → A)
  build_loop a zero cnt = some a
  build_loop a (suc i) cnt = heapify a (suc i) cnt >>= λ b. build_loop b i cnt

  -- The second loop of sort, from the index `i` down.
  pub sort_loop : (ℕ → A) → ℕ → Option (ℕ → A)
  sort_loop a zero = some a
  sort_loop a (suc i) =
      let rest = heapify (do_swap a 1 (suc i)) 1 i >>= λ b. sort_loop b i in
      if ltb 1 (suc i) then rest else some a

  -- The address of the array and the size of its elements only enter the ASSERTs.
  pub sort : ℕ → (ℕ → A) → ℕ → ℕ → Option (ℕ → A)
  sort array a cnt size = do
    assert (not (array == 0) || cnt == 0)
    assert (ltb 0 size)
    b ← build_loop a (cnt / 2) cnt
    sort_loop b cnt

  -- `first` and `last` are the indexes of the elements that the pointers are at; the result is the
  -- index of the element returned, or `none` for NULL.
  pub search_loop : ℕ → A → (ℕ → A) → ℕ → ℕ → Option (Option ℕ)
  search_loop zero key a first last = none
  search_loop (suc fuel) key a first last =
      let middle = first + (last - first) / 2 in
      let cmp = compare key (a middle) in
      let low = search_loop fuel key a first middle in
      let high = search_loop fuel key a (middle + 1) last in
      if ltb first last
      then (if is_negative cmp then low else if is_positive cmp then high else some (some middle))
      else some none

  pub binary_search : A → (ℕ → A) → ℕ → Option (Option ℕ)
  binary_search key a cnt = search_loop (cnt + 1) key a 0 cnt

-- Calls the comparison that `aux` points to.
abbrev pub compare_thunk {ℓ} : {A : Type ℓ} → A → A → (A → A → ℤ) → ℤ
compare_thunk x y aux = aux x y

pub qsort {ℓ} : {A : Type ℓ} → (A → A → ℤ) → ℕ → (ℕ → A) → ℕ → ℕ → Option (ℕ → A)
qsort compare array a cnt size = sort (λ x y. compare_thunk x y compare) array a cnt size

pub bsearch {ℓ} : {A : Type ℓ} → (A → A → ℤ) → A → (ℕ → A) → ℕ → Option (Option ℕ)
bsearch compare key a cnt = binary_search (λ x y. compare_thunk x y compare) key a cnt
