-- ===== src/LinkedList/Insert.antt =====
-- list_insert and list_init.
use mathlib.Core.List.{append-nil}
use tiny_os.Common.{ℕ, ◌≡◌, subst, ◌≢◌, true, false, some, List, [], ◌∷◌, ◌++◌, arith}
use tiny_os.LinkedList.{
  Links, KernelList, update, is_interior, is_tail, insert, init, push_front, push_back,
}
use tiny_os.LinkedList.Chain.{
  has, Distinct, Chain, IsList, first_of_rest, has-append, has-middle, Distinct-middle, Chain-frame,
  has-prev, Chain-front, has-first_of_rest, apart,
}

-- The links that `list_insert` leaves.
linked : Links → ℕ → ℕ → Links
linked h before elem = record {
  prev = update (update h.prev elem (h.prev before)) before elem;
  next = update (update h.next elem before) (h.prev before) elem;
}

linked-front :
    (h : Links) (elem p q : ℕ) (ys : List ℕ)
    → Chain h p ys q
    → Distinct (p ∷ q ∷ ys)
    → has elem (p ∷ q ∷ ys) ≡ false
    → Chain (linked h (first_of_rest ys q) elem) p (elem ∷ ys) q
unfolding linked
linked-front h elem p q [] c d out = ground arith
linked-front h elem p q (y ∷ ys) c d out = (
  ground arith,
  ground arith,
  (
    ground arith,
    ground arith,
    Chain-frame y q ys c.2 (λ a i. ground (arith, apart a p (y ∷ ys) i, apart a elem (y ∷ ys) i))
        (λ a i. ground (arith, apart a y (q ∷ ys) i, apart a elem (q ∷ ys) i)),
  ),
)

linked-Chain :
    (h : Links) (elem p q : ℕ) (xs ys : List ℕ)
    → Chain h p (xs ++ ys) q
    → Distinct (p ∷ q ∷ (xs ++ ys))
    → has elem (p ∷ q ∷ (xs ++ ys)) ≡ false
    → Chain (linked h (first_of_rest ys q) elem) p (xs ++ (elem ∷ ys)) q
unfolding linked
linked-Chain h elem p q [] ys c d out = linked-front h elem p q ys c d out
linked-Chain h elem p q (x ∷ xs) ys c d out =
    let before = first_of_rest ys q in
    let inner = has-prev h x before xs (Chain-front h x q xs ys c.2) in
    let p_out : has p (x ∷ xs) ≡ false = ground (arith, has-append p xs ys) in
    let x_out : has x (q ∷ ys) ≡ false = ground (arith, has-append x xs ys) in
    (
      ground (arith, apart (h.prev before) p (x ∷ xs) inner p_out),
      ground (arith, apart before x (q ∷ ys) (has-first_of_rest ys q) x_out),
      linked-Chain h elem x q xs ys c.2 (ground arith) (ground arith),
    )

-- The links of every element but these are as before.
abbrev pub Untouched : Links → Links → List ℕ → Type 0
Untouched h h' cells =
    (a : ℕ) → has a cells ≡ false → (h'.next a ≡ h.next a) × (h'.prev a ≡ h.prev a)

module _ (h : Links) (l : KernelList) (elem : ℕ) (xs ys : List ℕ) (is : IsList h l (xs ++ ys)) where
  abbrev before : ℕ
  before = first_of_rest ys l.tail

  before_prev : has (h.prev before) (l.head ∷ xs) ≡ true
  before_prev = has-prev h l.head before xs (Chain-front h l.head l.tail xs ys is.chain)

  has-before : (a : ℕ) → has a (l.tail ∷ (xs ++ ys)) ≡ false → a ≢ before
  has-before a out e =
      ground (arith, apart before a (l.tail ∷ ys) (has-first_of_rest ys l.tail), has-append a xs ys)

  module _ (elem_not_null : elem ≢ 0) (out : has elem (l.head ∷ l.tail ∷ (xs ++ ys)) ≡ false) where
    insert-linked : insert before elem h ≡ some (tt, linked h before elem)
    unfolding insert linked is_interior is_tail
    insert-linked =
        let prev_not_null = apart (h.prev before) 0 (l.head ∷ xs) before_prev in
        ground
          (arith, prev_not_null, has-before 0, has-before elem, is.not_null, has-append 0 xs ys)

    linked-IsList : IsList (linked h before elem) l (xs ++ (elem ∷ ys))
    unfolding linked
    linked-IsList = record {
      chain = linked-Chain h elem l.head l.tail xs ys is.chain is.distinct out;
      first = ground (arith, is.first, has-before l.head, is.distinct);
      last = ground (
        arith,
        is.last,
        is.distinct,
        apart (h.prev before) l.tail (l.head ∷ xs) before_prev,
        has-append l.tail xs ys,
      );
      distinct = (
        ground (arith, is.distinct, has-middle l.head xs ys elem),
        (
          ground (arith, is.distinct, has-middle l.tail xs ys elem),
          Distinct-middle xs ys elem is.distinct.1.1 (ground arith),
        ),
      );
      not_null = ground (arith, is.not_null, has-middle 0 xs ys elem);
    }

    linked-Untouched : Untouched h (linked h before elem) (elem ∷ l.head ∷ l.tail ∷ (xs ++ ys))
    unfolding linked
    linked-Untouched a o = (
      ground (arith, apart (h.prev before) a (l.head ∷ xs) before_prev, has-append a xs ys),
      ground (arith, has-before a),
    )

-- The outcome of an insertion: the list has the new elements, and no link outside it and `elem`
-- changed.
pub record Inserted (h : Links) (l : KernelList) (elem : ℕ) (old new : List ℕ) (h' : Links)
    : Type 0 where
  pub is_list : IsList h' l new
  pub untouched : Untouched h h' (elem ∷ l.head ∷ l.tail ∷ old)

-- Before any element of a list, or before its tail, `list_insert` of an element that is not in the
-- list does not panic, and the list then has the element at that place.
pub insert-Inserted :
    (h : Links) (l : KernelList) (elem : ℕ) (xs ys : List ℕ)
    → IsList h l (xs ++ ys)
    → elem ≢ 0
    → has elem (l.head ∷ l.tail ∷ (xs ++ ys)) ≡ false
    → (h' : Links) × (insert (first_of_rest ys l.tail) elem h ≡ some (tt, h'))
      × Inserted h l elem (xs ++ ys) (xs ++ (elem ∷ ys)) h'
insert-Inserted h l elem xs ys is ne out = (
  linked h (first_of_rest ys l.tail) elem,
  insert-linked h l elem xs ys is ne out,
  record {
    is_list = linked-IsList h l elem xs ys is ne out;
    untouched = linked-Untouched h l elem xs ys is ne out;
  },
)

pub Chain-begin :
    (h : Links) (p q : ℕ) (xs : List ℕ) → Chain h p xs q → h.next p ≡ first_of_rest xs q
Chain-begin h p q [] c = c.0
Chain-begin h p q (x ∷ xs) c = c.0

-- `list_push_front` puts an element that is not in the list in front of it.
pub push_front-Inserted :
    (h : Links) (l : KernelList) (elem : ℕ) (xs : List ℕ)
    → IsList h l xs
    → elem ≢ 0
    → has elem (l.head ∷ l.tail ∷ xs) ≡ false
    → (h' : Links) × (push_front l elem h ≡ some (tt, h')) × Inserted h l elem xs (elem ∷ xs) h'
unfolding push_front
push_front-Inserted h l elem xs is ne out =
    let (h', e, front) = insert-Inserted h l elem [] xs is ne out in
    (h', rw (Chain-begin h l.head l.tail xs is.chain) e, front)

-- `list_push_back` puts an element that is not in the list behind it.
pub push_back-Inserted :
    (h : Links) (l : KernelList) (elem : ℕ) (xs : List ℕ)
    → IsList h l xs
    → elem ≢ 0
    → has elem (l.head ∷ l.tail ∷ xs) ≡ false
    → (h' : Links) × (push_back l elem h ≡ some (tt, h'))
      × Inserted h l elem xs (xs ++ (elem ∷ [])) h'
unfolding push_back
push_back-Inserted h l elem xs =
    subst
      (λ zs.
        IsList h l zs
        → elem ≢ 0
        → has elem (l.head ∷ l.tail ∷ zs) ≡ false
        → (h' : Links) × (insert l.tail elem h ≡ some (tt, h'))
          × Inserted h l elem zs (xs ++ (elem ∷ [])) h')
      (append-nil xs) (insert-Inserted h l elem xs [])

-- `list_init` makes the list empty, and touches only its two header elements.
pub init-IsList :
    (h : Links) (l : KernelList)
    → l.head ≢ 0
    → l.tail ≢ 0
    → l.head ≢ l.tail
    → (h' : Links) × (init l h ≡ some (tt, h'))
      × IsList h' l []
      × Untouched h h' (l.head ∷ l.tail ∷ [])
unfolding init
init-IsList h l nh nt ne = (
  record {
    prev = update (update h.prev l.head 0) l.tail l.head;
    next = update (update h.next l.head l.tail) l.tail 0;
  },
  ground arith,
  record {
    chain = ground arith;
    first = ground arith;
    last = ground arith;
    distinct = ground arith;
    not_null = ground arith;
  },
  λ a o. ground arith,
)
