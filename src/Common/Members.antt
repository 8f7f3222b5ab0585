-- ===== src/Common/Members.antt =====
-- Lists of numbers as sets: membership, and lists without repetition.
use Prim.Native.Nat.{ℕ}
use mathlib.Core.Path.{◌≡◌, refl, sym, ap, subst, ◌∙◌}
use mathlib.Core.Logic.{◌≢◌}
use mathlib.Core.Bool.{Bool, true, false, ◌||◌}
use mathlib.Core.List.{List, [], ◌∷◌, ◌++◌}
use native.Mathlib.Omega.{arith}
use tiny_os.Common.Tests.{◌==◌}

-- `a` is one of the numbers.
abbrev pub has : ℕ → List ℕ → Bool
has a [] = false
has a (x ∷ xs) = (a == x) || has a xs

abbrev pub Distinct : List ℕ → Type 0
Distinct [] = Unit
Distinct (x ∷ xs) = (has x xs ≡ false) × Distinct xs

module _ (a : ℕ) where
  pub has-append : (xs ys : List ℕ) → has a (xs ++ ys) ≡ (has a xs || has a ys)
  has-append [] ys = refl
  has-append (x ∷ xs) ys = ground (arith, has-append xs ys)

  pub has-middle :
      (xs ys : List ℕ) (e : ℕ) → has a (xs ++ (e ∷ ys)) ≡ ((a == e) || has a (xs ++ ys))
  has-middle [] ys e = refl
  has-middle (x ∷ xs) ys e = ground (arith, has-middle xs ys e)

pub Distinct-middle :
    (xs ys : List ℕ) (e : ℕ)
    → Distinct (xs ++ ys)
    → has e (xs ++ ys) ≡ false
    → Distinct (xs ++ (e ∷ ys))
Distinct-middle [] ys e d out = (out, d)
Distinct-middle (x ∷ xs) ys e d out =
    (ground (arith, has-middle x xs ys e), Distinct-middle xs ys e d.1 (ground arith))

pub Distinct-without :
    (xs ys : List ℕ) (e : ℕ)
    → Distinct (xs ++ (e ∷ ys))
    → Distinct (xs ++ ys) × (has e (xs ++ ys) ≡ false)
Distinct-without [] ys e d = (d.1, d.0)
Distinct-without (x ∷ xs) ys e d =
    let rest = Distinct-without xs ys e d.1 in
    ((ground (arith, has-middle x xs ys e), rest.0), ground (arith, has-middle x xs ys e))

-- Two numbers of which only one is in a list differ.
pub apart : (a b : ℕ) (xs : List ℕ) → has a xs ≡ true → has b xs ≡ false → a ≢ b
apart a b xs i o e = cc (ap (λ x. has x xs) e)

++_nil : (xs : List ℕ) → xs ++ [] ≡ xs
++_nil [] = refl
++_nil (x ∷ xs) = ap (λ r. x ∷ r) (++_nil xs)

pub Distinct-snoc :
    (xs : List ℕ) (e : ℕ) → Distinct xs → has e xs ≡ false → Distinct (xs ++ (e ∷ []))
Distinct-snoc xs e d out =
    Distinct-middle xs [] e (subst Distinct (sym (++_nil xs)) d) (ap (has e) (++_nil xs) ∙ out)
