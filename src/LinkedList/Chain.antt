-- ===== src/LinkedList/Chain.antt =====
-- What a `struct list` stands for: the addresses of its interior elements, in order.
use tiny_os.Common.{ℕ, ◌≡◌, true, false, List, [], ◌∷◌, ◌++◌, arith}
use tiny_os.LinkedList.{Links, KernelList}
pub use tiny_os.Common.Members.{
  has, Distinct, has-append, has-middle, Distinct-middle, Distinct-without, apart,
}

-- The links lead from `p` through `xs` to `q`, and back.
abbrev pub Chain : Links → ℕ → List ℕ → ℕ → Type 0
Chain h p [] q = (h.next p ≡ q) × (h.prev q ≡ p)
Chain h p (x ∷ xs) q = (h.next p ≡ x) × (h.prev x ≡ p) × Chain h x xs q

pub record IsList (h : Links) (l : KernelList) (xs : List ℕ) : Type 0 where
  pub chain : Chain h l.head xs l.tail
  pub first : h.prev l.head ≡ 0
  pub last : h.next l.tail ≡ 0
  pub distinct : Distinct (l.head ∷ l.tail ∷ xs)
  pub not_null : has 0 (l.head ∷ l.tail ∷ xs) ≡ false

-- The first of `ys`, or the tail behind them.
abbrev pub first_of_rest : List ℕ → ℕ → ℕ
first_of_rest [] q = q
first_of_rest (y ∷ ys) q = y

-- A chain survives any change that spares the links it is made of.
pub Chain-frame :
    {h h' : Links} (p q : ℕ) (xs : List ℕ)
    → Chain h p xs q
    → ((a : ℕ) → has a (p ∷ xs) ≡ true → h'.next a ≡ h.next a)
    → ((a : ℕ) → has a (q ∷ xs) ≡ true → h'.prev a ≡ h.prev a)
    → Chain h' p xs q
Chain-frame p q [] c next_same prev_same =
    (ground (arith, next_same p), ground (arith, prev_same q))
Chain-frame p q (x ∷ xs) c next_same prev_same = (
  ground (arith, next_same p),
  ground (arith, prev_same x),
  Chain-frame x q xs c.2 (λ a i. next_same a (ground arith)) (λ a i. prev_same a (ground arith)),
)

-- The element before the end of a chain is its start or one of its elements.
pub has-prev : (h : Links) (p q : ℕ) (xs : List ℕ) → Chain h p xs q → has (h.prev q) (p ∷ xs) ≡ true
has-prev h p q [] c = ground arith
has-prev h p q (x ∷ xs) c = ground (arith, has-prev h x q xs c.2)

-- A chain through `xs ++ ys` has its first part end where the second begins.
pub Chain-front :
    (h : Links) (p q : ℕ) (xs ys : List ℕ)
    → Chain h p (xs ++ ys) q
    → Chain h p xs (first_of_rest ys q)
Chain-front h p q [] [] c = c
Chain-front h p q [] (y ∷ ys) c = (c.0, c.1)
Chain-front h p q (x ∷ xs) ys c = (c.0, c.1, Chain-front h x q xs ys c.2)

pub has-first_of_rest : (ys : List ℕ) (q : ℕ) → has (first_of_rest ys q) (q ∷ ys) ≡ true
has-first_of_rest [] q = ground arith
has-first_of_rest (y ∷ ys) q = ground arith
