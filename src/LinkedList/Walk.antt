-- ===== src/LinkedList/Walk.antt =====
-- Loops over a list that change no link: each ends, and visits the elements in order.
use mathlib.Core.List.{append_assoc}
use tiny_os.Common.{
  ℕ, zero, suc, ◌+◌, ◌%◌, ◌^◌, ◌<◌, ◌≡◌, ap, ◌∙◌, Bool, false, some, List, [], ◌∷◌, ◌++◌, ◌==◌,
  if◌then◌else◌, ==_refl, arith, length,
}
use tiny_os.LinkedList.{
  Links, KernelList, is_interior, is_head, next, size_loop, size, max_loop, min_loop,
}
use tiny_os.LinkedList.Chain.{
  IsList, first_of_rest, has-append, has-middle, has-first_of_rest, apart,
}
use tiny_os.LinkedList.Insert.{Chain-begin}
use tiny_os.LinkedList.Remove.{Chain-next}

module _ (h : Links) (l : KernelList) (xs : List ℕ) (y : ℕ) (ys : List ℕ)
    (is : IsList h l (xs ++ (y ∷ ys))) where
  -- An element of the list is not its tail, and `list_next` leads to the one that follows.
  pub not_end : (y == l.tail) ≡ false
  not_end = ground (arith, is.distinct, has-middle l.tail xs ys y)

  pub next_lem : next y h ≡ some (first_of_rest ys l.tail, h)
  unfolding next is_head is_interior
  next_lem = ground (
    arith,
    Chain-next h l.head l.tail y xs ys is.chain,
    apart (first_of_rest ys l.tail) 0 (l.tail ∷ ys) (has-first_of_rest ys l.tail),
    is.not_null,
    has-middle 0 xs ys y,
    has-append 0 xs ys,
  )

  -- The walk goes on with one more element behind it.
  pub behind : IsList h l ((xs ++ (y ∷ [])) ++ ys)
  behind = rw (append_assoc xs (y ∷ []) ys) is

size_loop-length :
    (fuel : ℕ) (h : Links) (l : KernelList) (xs ys : List ℕ) (cnt : ℕ)
    → IsList h l (xs ++ ys)
    → length ys < fuel
    → cnt + length ys < 2 ^ 32
    → size_loop fuel l (first_of_rest ys l.tail) cnt h ≡ some (cnt + length ys, h)
unfolding size_loop
size_loop-length zero h l xs ys cnt is lt small = absurd (omega arith)
size_loop-length (suc fuel) h l xs [] cnt is lt small =
    rw (==_refl l.tail) (ap (λ n. some (n, h)) (omega arith))
size_loop-length (suc fuel) h l xs (y ∷ ys) cnt is lt small =
    rw (not_end h l xs y ys is, next_lem h l xs y ys is)
      (size_loop-length fuel h l (xs ++ (y ∷ [])) ys ((cnt + 1) % 2 ^ 32) (behind h l xs y ys is)
          (omega arith) (omega arith)
        ∙ ap (λ n. some (n, h)) (omega arith))

-- `list_size` ends and returns the number of elements, for a list that a `size_t` can count.
pub size-length :
    (fuel : ℕ) (h : Links) (l : KernelList) (xs : List ℕ)
    → IsList h l xs
    → length xs < fuel
    → length xs < 2 ^ 32
    → size fuel l h ≡ some (length xs, h)
unfolding size
size-length fuel h l xs is lt small =
    rw (Chain-begin h l.head l.tail xs is.chain)
      (size_loop-length fuel h l [] xs 0 is lt (omega arith) ∙ ap (λ n. some (n, h)) (omega arith))

-- The element that a strict comparison picks: the first argument of `pick` that beats the others.
abbrev pub champion : (ℕ → ℕ → Bool) → ℕ → List ℕ → ℕ
champion beats m [] = m
champion beats m (y ∷ ys) = champion beats (if beats y m then y else m) ys

module _ (less : ℕ → ℕ → Bool) where
  pub max_loop-champion :
      (fuel : ℕ) (h : Links) (l : KernelList) (xs ys : List ℕ) (m : ℕ)
      → IsList h l (xs ++ ys)
      → length ys < fuel
      → max_loop less fuel l m (first_of_rest ys l.tail) h
        ≡ some (champion (λ y x. less x y) m ys, h)
  unfolding max_loop
  max_loop-champion zero h l xs ys m is lt = absurd (omega arith)
  max_loop-champion (suc fuel) h l xs [] m is lt = rw (==_refl l.tail)
  max_loop-champion (suc fuel) h l xs (y ∷ ys) m is lt =
      rw (not_end h l xs y ys is, next_lem h l xs y ys is)
        (max_loop-champion fuel h l (xs ++ (y ∷ [])) ys _ (behind h l xs y ys is) (omega arith))

  pub min_loop-champion :
      (fuel : ℕ) (h : Links) (l : KernelList) (xs ys : List ℕ) (m : ℕ)
      → IsList h l (xs ++ ys)
      → length ys < fuel
      → min_loop less fuel l m (first_of_rest ys l.tail) h ≡ some (champion less m ys, h)
  unfolding min_loop
  min_loop-champion zero h l xs ys m is lt = absurd (omega arith)
  min_loop-champion (suc fuel) h l xs [] m is lt = rw (==_refl l.tail)
  min_loop-champion (suc fuel) h l xs (y ∷ ys) m is lt =
      rw (not_end h l xs y ys is, next_lem h l xs y ys is)
        (min_loop-champion fuel h l (xs ++ (y ∷ [])) ys _ (behind h l xs y ys is) (omega arith))
