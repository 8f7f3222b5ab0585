-- ===== src/LinkedList/Remove.antt =====
-- list_remove, the two ends of a list, and the calls that take an element off one of them.
use mathlib.Core.List.{append-nil}
use tiny_os.Common.{
  ℕ, ◌≡◌, sym, ◌≢◌, true, false, none, some, List, [], ◌∷◌, ◌++◌, ◌==◌, ==_refl, arith,
}
use tiny_os.LinkedList.{Links, KernelList, update, is_interior, remove, empty, pop_front, pop_back}
use tiny_os.LinkedList.Chain.{
  has, Distinct, Chain, IsList, first_of_rest, has-append, has-middle, Distinct-without,
  Chain-frame, has-prev, Chain-front, has-first_of_rest, apart,
}
use tiny_os.LinkedList.Insert.{Untouched, Chain-begin}

-- The links that `list_remove` leaves.
unlinked : Links → ℕ → Links
unlinked h e = record {
  prev = update h.prev (h.next e) (h.prev e);
  next = update h.next (h.prev e) (h.next e);
}

pub Chain-next :
    (h : Links) (p q e : ℕ) (xs ys : List ℕ)
    → Chain h p (xs ++ (e ∷ ys)) q
    → h.next e ≡ first_of_rest ys q
Chain-next h p q e [] ys c = Chain-begin h e q ys c.2
Chain-next h p q e (x ∷ xs) ys c = Chain-next h x q e xs ys c.2

unlinked-front :
    (h : Links) (e p q : ℕ) (ys : List ℕ)
    → Chain h p (e ∷ ys) q
    → Distinct (p ∷ q ∷ e ∷ ys)
    → Chain (unlinked h e) p ys q
unfolding unlinked
unlinked-front h e p q [] c d = ground arith
unlinked-front h e p q (y ∷ ys) c d = (
  ground arith,
  ground arith,
  Chain-frame y q ys c.2.2 (λ a i. ground (arith, apart a p (y ∷ ys) i))
      (λ a i. ground (arith, apart a y (q ∷ ys) i)),
)

unlinked-Chain :
    (h : Links) (e p q : ℕ) (xs ys : List ℕ)
    → Chain h p (xs ++ (e ∷ ys)) q
    → Distinct (p ∷ q ∷ (xs ++ (e ∷ ys)))
    → Chain (unlinked h e) p (xs ++ ys) q
unfolding unlinked
unlinked-Chain h e p q [] ys c d = unlinked-front h e p q ys c d
unlinked-Chain h e p q (x ∷ xs) ys c d =
    let inner = has-prev h x e xs (Chain-front h x q xs (e ∷ ys) c.2) in
    let p_out : has p (x ∷ xs) ≡ false = ground (arith, has-append p xs (e ∷ ys)) in
    let x_out : has x (q ∷ ys) ≡ false = ground (arith, has-append x xs (e ∷ ys)) in
    let after = Chain-next h x q e xs ys c.2 in
    (
      ground (arith, apart (h.prev e) p (x ∷ xs) inner p_out),
      ground (arith, after, apart (first_of_rest ys q) x (q ∷ ys) (has-first_of_rest ys q) x_out),
      unlinked-Chain h e x q xs ys c.2 (ground arith),
    )

-- The outcome of a removal: the list has the new elements, and no link outside it changed.
pub record Removed (h : Links) (l : KernelList) (old new : List ℕ) (h' : Links) : Type 0 where
  pub is_list : IsList h' l new
  pub untouched : Untouched h h' (l.head ∷ l.tail ∷ old)

module _ (h : Links) (l : KernelList) (e : ℕ) (xs ys : List ℕ)
    (is : IsList h l (xs ++ (e ∷ ys))) where
  e_prev : has (h.prev e) (l.head ∷ xs) ≡ true
  e_prev = has-prev h l.head e xs (Chain-front h l.head l.tail xs (e ∷ ys) is.chain)

  e_next : h.next e ≡ first_of_rest ys l.tail
  e_next = Chain-next h l.head l.tail e xs ys is.chain

  ne-next : (a : ℕ) → has a (l.tail ∷ ys) ≡ false → a ≢ first_of_rest ys l.tail
  ne-next a out eq =
      apart (first_of_rest ys l.tail) a (l.tail ∷ ys) (has-first_of_rest ys l.tail) out (sym eq)

  remove-unlinked : remove e h ≡ some (first_of_rest ys l.tail, unlinked h e)
  unfolding remove unlinked is_interior
  remove-unlinked = ground (
    arith,
    e_next,
    apart (h.prev e) 0 (l.head ∷ xs) e_prev,
    ne-next 0,
    is.not_null,
    has-middle 0 xs ys e,
    has-append 0 xs ys,
  )

  unlinked-Removed : Removed h l (xs ++ (e ∷ ys)) (xs ++ ys) (unlinked h e)
  unfolding unlinked
  unlinked-Removed = record {
    is_list = record {
      chain = unlinked-Chain h e l.head l.tail xs ys is.chain is.distinct;
      first = ground (
        arith,
        is.first,
        e_next,
        ne-next l.head,
        is.distinct,
        has-middle l.head xs ys e,
        has-append l.head xs ys,
      );
      last = ground (
        arith,
        is.last,
        is.distinct,
        apart (h.prev e) l.tail (l.head ∷ xs) e_prev,
        has-append l.tail xs (e ∷ ys),
      );
      distinct = (
        ground (arith, is.distinct, has-middle l.head xs ys e),
        (
          ground (arith, is.distinct, has-middle l.tail xs ys e),
          (Distinct-without xs ys e is.distinct.1.1).0,
        ),
      );
      not_null = ground (arith, is.not_null, has-middle 0 xs ys e);
    };
    untouched = λ a o. (
      ground (arith, apart (h.prev e) a (l.head ∷ xs) e_prev, has-append a xs (e ∷ ys)),
      ground (arith, e_next, ne-next a, has-append a xs (e ∷ ys)),
    );
  }

-- `list_remove` of an element of a list does not panic, takes it out and leaves the order of the
-- others. It returns the element that followed, or the tail.
pub remove-Removed :
    (h : Links) (l : KernelList) (e : ℕ) (xs ys : List ℕ)
    → IsList h l (xs ++ (e ∷ ys))
    → (h' : Links) × (remove e h ≡ some (first_of_rest ys l.tail, h'))
      × Removed h l (xs ++ (e ∷ ys)) (xs ++ ys) h'
remove-Removed h l e xs ys is =
    (unlinked h e, remove-unlinked h l e xs ys is, unlinked-Removed h l e xs ys is)

-- The tail is not in the list that it ends.
ne-tail :
    (h : Links) (l : KernelList) (x : ℕ) (xs : List ℕ) → IsList h l (x ∷ xs) → (x == l.tail) ≡ false
ne-tail h l x xs is = ground (arith, is.distinct)

-- `list_empty` says whether a list has no element.
pub empty_lem :
    (h : Links) (l : KernelList) (xs : List ℕ)
    → IsList h l xs
    → empty l h ≡ some (elim xs [ [] ↦ true | x ∷ r ↦ false ], h)
unfolding empty
empty_lem h l [] is = rw (is.chain.0, ==_refl l.tail)
empty_lem h l (x ∷ xs) is = rw (is.chain.0, ne-tail h l x xs is)

-- On a list that is not empty `list_pop_front` returns and removes the first element; on an empty
-- list it panics.
pub pop_front-Removed :
    (h : Links) (l : KernelList) (x : ℕ) (xs : List ℕ)
    → IsList h l (x ∷ xs)
    → (h' : Links) × (pop_front l h ≡ some (x, h')) × Removed h l (x ∷ xs) xs h'
unfolding pop_front
pop_front-Removed h l x xs is =
    let (h', e, removed) = remove-Removed h l x [] xs is in
    (h', ground (arith, is.chain.0, ne-tail h l x xs is, e), removed)

pub pop_front-nil : (h : Links) (l : KernelList) → IsList h l [] → pop_front l h ≡ none
unfolding pop_front
pop_front-nil h l is = ground (arith, is.chain.0)

Chain-last : (h : Links) (p q x : ℕ) (xs : List ℕ) → Chain h p (xs ++ (x ∷ [])) q → h.prev q ≡ x
Chain-last h p q x [] c = c.2.1
Chain-last h p q x (y ∷ xs) c = Chain-last h y q x xs c.2

Chain-head :
    (h : Links) (p q x : ℕ) (xs : List ℕ)
    → Chain h p (xs ++ (x ∷ [])) q
    → has q (xs ++ (x ∷ [])) ≡ false
    → (h.next p == q) ≡ false
Chain-head h p q x [] c out = ground arith
Chain-head h p q x (y ∷ xs) c out = ground arith

-- On a list that is not empty `list_pop_back` returns and removes the last element.
pub pop_back-Removed :
    (h : Links) (l : KernelList) (x : ℕ) (xs : List ℕ)
    → IsList h l (xs ++ (x ∷ []))
    → (h' : Links) × (pop_back l h ≡ some (x, h')) × Removed h l (xs ++ (x ∷ [])) xs h'
unfolding pop_back
pop_back-Removed h l x xs is =
    let (h', e, removed) = remove-Removed h l x xs [] is in
    let same : xs ++ [] ≡ xs = append-nil xs in
    (
      h',
      ground (
        arith,
        Chain-head h l.head l.tail x xs is.chain is.distinct.1.0,
        Chain-last h l.head l.tail x xs is.chain,
        e,
      ),
      rw same at removed,
    )
