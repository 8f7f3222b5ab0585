-- ===== src/Hash/Lookup.antt =====
-- Searching and removing in the buckets of lib/kernel/hash.c.
use tiny_os.Common.{
  ℕ, zero, suc, ◌<◌, ◌≡◌, refl, sym, ap, subst, ◌∙◌, Bool, true, false, not, ◌&&◌, List, [], ◌∷◌,
  ◌==◌, get_or, replicate, length, length-replicate, arith, Bool-cases, inl, inr, ◌⊎◌,
}
use tiny_os.Common.Members.{has}
use tiny_os.Hash.{erase, erase_all, bucket_idx, equal, find_elem}
use tiny_os.Hash.Buckets.{total, IsKey, bucket_idx-lt, Apart, Holds}

get_or-erase_all :
    (e : ℕ) (bs : List (List ℕ)) (i : ℕ) → get_or (erase_all e bs) i [] ≡ erase e (get_or bs i [])
get_or-erase_all e [] i = refl
get_or-erase_all e (b ∷ bs) zero = refl
get_or-erase_all e (b ∷ bs) (suc i) = get_or-erase_all e bs i

length-erase_all : (e : ℕ) (bs : List (List ℕ)) → length (erase_all e bs) ≡ length bs
length-erase_all e [] = refl
length-erase_all e (b ∷ bs) = ap suc (length-erase_all e bs)

get_or-replicate : (n i : ℕ) → get_or (replicate {A = List ℕ} n []) i [] ≡ []
get_or-replicate zero i = refl
get_or-replicate (suc n) zero = refl
get_or-replicate (suc n) (suc i) = get_or-replicate n i

pub total-replicate : (n : ℕ) → total (replicate n []) ≡ 0
total-replicate zero = refl
total-replicate (suc n) = omega (arith, total-replicate n)

length-erase : (e : ℕ) (xs : List ℕ) → has e xs ≡ true → suc (length (erase e xs)) ≡ length xs
length-erase e [] h = cc
length-erase e (x ∷ xs) h = elim (Bool-cases (x == e)) [
  | inl here ↦ rw here refl
  | inr there ↦ rw there (ap suc (length-erase e xs (ground arith)))
]

erase_missing : (e : ℕ) (xs : List ℕ) → has e xs ≡ false → erase e xs ≡ xs
erase_missing e [] h = refl
erase_missing e (x ∷ xs) h =
    let there : (x == e) ≡ false = ground arith in
    rw there (ap (λ r. x ∷ r) (erase_missing e xs (ground arith)))

total-erase_missing :
    (e : ℕ) (bs : List (List ℕ))
    → ((i : ℕ) → i < length bs → has e (get_or bs i []) ≡ false)
    → total (erase_all e bs) ≡ total bs
total-erase_missing e [] h = refl
total-erase_missing e (b ∷ bs) h =
    let here = ap length (erase_missing e b (h 0 (omega arith))) in
    omega (arith, here, total-erase_missing e bs (λ i lt. h (suc i) (omega arith)))

total-erase_all :
    (e j : ℕ) (bs : List (List ℕ))
    → j < length bs
    → ((i : ℕ) → i < length bs → has e (get_or bs i []) ≡ (i == j))
    → suc (total (erase_all e bs)) ≡ total bs
total-erase_all e j [] lt h = absurd (omega arith)
total-erase_all e zero (b ∷ bs) lt h = omega (
  arith,
  length-erase e b (h 0 (omega arith)),
  total-erase_missing e bs (λ i l. h (suc i) (omega arith) ∙ ground arith),
)
total-erase_all e (suc j) (b ∷ bs) lt h =
    let here = ap length (erase_missing e b (h 0 (omega arith) ∙ ground arith)) in
    omega (
      arith,
      here,
      total-erase_all e j bs (omega arith) (λ i l. h (suc i) (omega arith) ∙ ground arith),
    )

module _ (hash : ℕ → ℕ) (less : ℕ → ℕ → Bool) (key : IsKey hash less) where
  has-erase :
      (e x : ℕ) (xs : List ℕ) → Apart hash less xs → has x (erase e xs) ≡ (has x xs && not (x == e))
  has-erase e x [] a = refl
  has-erase e x (y ∷ ys) a = elim (Bool-cases (y == e)) [
    | inl here ↦
        let same : y ≡ e = ground arith in
        let i = key.irrefl y in
        elim (Bool-cases (x == e)) [
          | inl xe ↦
              let xy : x ≡ y = ground arith in
              let out : has x ys ≡ false = elim (Bool-cases (has x ys)) [
                | inl q ↦
                    let no_twin = a.0 x q in
                    let twin = ap (λ z. equal hash less y z) xy in
                    (let one : equal hash less y y ≡ true = ground arith in
                      let bad : false ≡ true = sym no_twin ∙ twin ∙ one in cc)
                | inr q ↦ q
              ] in
              rw here (ground arith)
          | inr other ↦ rw here (ground arith)
        ]
    | inr there ↦ let rest = has-erase e x ys a.1 in rw there (ground arith)
  ]

  Apart-erase : (e : ℕ) (xs : List ℕ) → Apart hash less xs → Apart hash less (erase e xs)
  Apart-erase e [] a = tt
  Apart-erase e (y ∷ ys) a = elim (Bool-cases (y == e)) [
    | inl here ↦ rw here a.1
    | inr there ↦
        rw there
          ((λ z q. a.0 z (let r = has-erase e z ys a.1 in ground arith)), Apart-erase e ys a.1)
  ]

  pub erase-Holds :
      (n : ℕ) (f : ℕ → Bool) (bs : List (List ℕ)) (e : ℕ)
      → Holds hash less n f bs
      → Holds hash less n (λ x. f x && not (x == e)) (erase_all e bs)
  erase-Holds n f bs e h = record {
    width = length-erase_all e bs ∙ h.width;
    reads = λ i x lt.
        rw (get_or-erase_all e bs i, has-erase e x (get_or bs i []) (h.apart i), h.reads i x lt)
          (ground arith);
    apart = λ i. rw (get_or-erase_all e bs i) (Apart-erase e (get_or bs i []) (h.apart i));
  }

  pub total-erase :
      (n : ℕ) (f : ℕ → Bool) (bs : List (List ℕ)) (e : ℕ)
      → 0 < n
      → Holds hash less n f bs
      → f e ≡ true
      → suc (total (erase_all e bs)) ≡ total bs
  total-erase n f bs e pos h member =
      let w = h.width in
      total-erase_all e (bucket_idx hash less n e) bs
        (let l = bucket_idx-lt hash less n e pos in omega arith)
        (λ i lt. let r = h.reads i e (omega arith) in ground arith)

  pub empty-Holds : (n : ℕ) → Holds hash less n (λ x. false) (replicate n [])
  empty-Holds n = record {
    width = length-replicate n [];
    reads = λ i x lt. rw (get_or-replicate n i) refl;
    apart = λ i. rw (get_or-replicate n i) tt;
  }

  -- The first element of a bucket that is equal to `e`.
  pub find_elem-cases :
      (xs : List ℕ) (e : ℕ)
      → ((find_elem hash less xs e ≡ 0) × ((y : ℕ) → has y xs ≡ true → equal hash less y e ≡ false))
        ⊎ ((has (find_elem hash less xs e) xs ≡ true)
            × (equal hash less (find_elem hash less xs e) e ≡ true))
  unfolding find_elem
  find_elem-cases [] e = inl (refl, λ y h. cc)
  find_elem-cases (x ∷ xs) e = elim (Bool-cases (equal hash less x e)) [
    | inl here ↦ rw here (inr (ground arith, here))
    | inr there ↦
        let skip : find_elem hash less (x ∷ xs) e ≡ find_elem hash less xs e = rw there refl in
        elim (find_elem-cases xs e) [
          | inl h ↦ inl (
            skip ∙ h.0,
            λ y q. elim (Bool-cases (y == x)) [
              | inl first ↦
                  let same : y ≡ x = ground arith in
                  subst (λ z. equal hash less z e ≡ false) (sym same) there
              | inr later ↦ h.1 y (ground arith)
            ],
          )
          | inr h ↦
              let q = h.0 in
              let found = find_elem hash less xs e in
              inr (
                subst (λ r. has r (x ∷ xs) ≡ true) (sym skip)
                    (let a : has found (x ∷ xs) ≡ true = ground arith in a),
                subst (λ r. equal hash less r e ≡ true) (sym skip) h.1,
              )
        ]
  ]
