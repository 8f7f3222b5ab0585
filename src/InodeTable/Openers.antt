-- ===== src/InodeTable/Openers.antt =====
-- The list of open inodes of filesys/inode.c, as a count of openers for every sector.
use tiny_os.Common.{
  ℕ, ◌+◌, ◌≤◌, ◌≡◌, refl, sym, ap, ◌∙◌, Bool, true, false, ◌&&◌, Option, none, some, List, [], ◌∷◌,
  ◌==◌, if◌then◌else◌, arith, Bool-cases, inl, inr, ◌⊎◌, subst, ==_refl,
}
use tiny_os.Inode.{Inode}
use tiny_os.InodeTable.{is_open, reopened, find_inode, put_inode, drop_inode}

-- A count that an open inode keeps, 0 for an inode that is not open.
abbrev pub count_of : (Inode → ℕ) → ℕ → List Inode → ℕ
count_of of sector [] = 0
count_of of sector (i ∷ is) =
    let rest = count_of of sector is in if i.sector == sector then of i else rest

-- How many openers an inode has that have not closed it.
abbrev pub opens : ℕ → List Inode → ℕ
opens sector is = count_of (λ i. i.open_cnt) sector is

-- No inode is in the list twice, and each has an opener.
abbrev pub IsOpenList : List Inode → Type 0
IsOpenList [] = Unit {0}
IsOpenList (i ∷ is) = (is_open i.sector is ≡ false) × (1 ≤ i.open_cnt) × IsOpenList is

pub opens-closed : (t : ℕ) (is : List Inode) → is_open t is ≡ false → opens t is ≡ 0
opens-closed t [] closed = refl
opens-closed t (i ∷ is) closed = elim (Bool-cases (i.sector == t)) [
  | inl e ↦ absurd (ground arith)
  | inr e ↦ let ih = opens-closed t is (sym (rw e refl) ∙ closed) in rw e ih
]

is_open-reopened : (t s : ℕ) (is : List Inode) → is_open t (reopened s is) ≡ is_open t is
is_open-reopened t s [] = refl
is_open-reopened t s (i ∷ is) =
    let ih = is_open-reopened t s is in
    elim (Bool-cases (i.sector == s)) [ inl e ↦ rw e refl | inr e ↦ rw (e, ih) refl ]

pub reopened-IsOpenList : (s : ℕ) (is : List Inode) → IsOpenList is → IsOpenList (reopened s is)
reopened-IsOpenList s [] l = l
reopened-IsOpenList s (i ∷ is) l =
    let ih = reopened-IsOpenList s is l.2 in
    elim (Bool-cases (i.sector == s)) [
      | inl e ↦ rw e (l.0, omega (arith, l.1), l.2)
      | inr e ↦ rw e (is_open-reopened i.sector s is ∙ l.0, l.1, ih)
    ]

pub opens-reopened :
    (t s : ℕ) (is : List Inode)
    → opens t (reopened s is) ≡ (if t == s && is_open s is then opens t is + 1 else opens t is)
opens-reopened t s [] = ground arith
opens-reopened t s (i ∷ is) =
    let ih = opens-reopened t s is in
    elim (Bool-cases (i.sector == s)) [
      | inl e ↦ elim (Bool-cases (i.sector == t)) [
        | inl f ↦ let g : t == s ≡ true = ground arith in rw (e, f, g) refl
        | inr f ↦ let g : t == s ≡ false = ground arith in rw (e, f, g) refl
      ]
      | inr e ↦ elim (Bool-cases (i.sector == t)) [
        | inl f ↦ let g : t == s ≡ false = ground arith in rw (e, f, g) refl
        | inr f ↦ rw (e, f) ih
      ]
    ]

abbrev pub count_of_found : (Inode → ℕ) → Option Inode → ℕ
count_of_found of none = 0
count_of_found of (some i) = of i

abbrev is_found : Option Inode → Bool
is_found none = false
is_found (some i) = true

pub count_of-found :
    (of : Inode → ℕ) (s : ℕ) (is : List Inode)
    → count_of of s is ≡ count_of_found of (find_inode s is)
count_of-found of s [] = refl
count_of-found of s (i ∷ is) =
    let ih = count_of-found of s is in
    elim (Bool-cases (i.sector == s)) [ inl e ↦ rw e refl | inr e ↦ rw (e, ih) refl ]

is_open_found : (s : ℕ) (is : List Inode) → is_open s is ≡ is_found (find_inode s is)
is_open_found s [] = refl
is_open_found s (i ∷ is) =
    let ih = is_open_found s is in
    elim (Bool-cases (i.sector == s)) [ inl e ↦ rw e refl | inr e ↦ rw (e, ih) refl ]

pub find_inode-opens :
    (s : ℕ) (is : List Inode) (i : Inode)
    → find_inode s is ≡ some i
    → (opens s is ≡ i.open_cnt) × (is_open s is ≡ true)
find_inode-opens s is i found =
    (count_of-found (λ i. i.open_cnt) s is ∙ rw found refl, is_open_found s is ∙ rw found refl)

-- An inode that is open has an opener.
pub opens-one : (s : ℕ) (is : List Inode) → IsOpenList is → is_open s is ≡ true → 1 ≤ opens s is
opens-one s [] l opened = absurd (ground arith)
opens-one s (i ∷ is) l opened = elim (Bool-cases (i.sector == s)) [
  | inl e ↦ rw e l.1
  | inr e ↦ let ih = opens-one s is l.2 (sym (rw e refl) ∙ opened) in rw e ih
]

is_open-dropped :
    (t s : ℕ) (is : List Inode) → is_open t is ≡ false → is_open t (drop_inode s is) ≡ false
is_open-dropped t s [] closed = refl
is_open-dropped t s (i ∷ is) closed = elim (Bool-cases (i.sector == t)) [
  | inl f ↦ absurd (ground arith)
  | inr f ↦
      let c : is_open t is ≡ false = sym (rw f refl) ∙ closed in
      let ih = is_open-dropped t s is c in
      elim (Bool-cases (i.sector == s)) [ inl e ↦ rw e c | inr e ↦ rw (e, f) ih ]
]

pub drop_inode-IsOpenList : (s : ℕ) (is : List Inode) → IsOpenList is → IsOpenList (drop_inode s is)
drop_inode-IsOpenList s [] l = l
drop_inode-IsOpenList s (i ∷ is) l =
    let ih = drop_inode-IsOpenList s is l.2 in
    elim (Bool-cases (i.sector == s)) [
      | inl e ↦ rw e l.2
      | inr e ↦ rw e (is_open-dropped i.sector s is l.0, l.1, ih)
    ]

pub opens-dropped :
    (t s : ℕ) (is : List Inode)
    → IsOpenList is
    → opens t (drop_inode s is) ≡ (if t == s then 0 else opens t is)
opens-dropped t s [] l = ground arith
opens-dropped t s (i ∷ is) l =
    let ih = opens-dropped t s is l.2 in
    elim (Bool-cases (i.sector == s)) [
      | inl e ↦ elim (Bool-cases (i.sector == t)) [
        | inl f ↦
            let g : t == s ≡ true = ground arith in
            let same : i.sector ≡ t = ground arith in
            let z = opens-closed t is (ap (λ (k : ℕ). is_open k is) (sym same) ∙ l.0) in rw (e, g) z
        | inr f ↦ let g : t == s ≡ false = ground arith in rw (e, f, g) refl
      ]
      | inr e ↦ elim (Bool-cases (i.sector == t)) [
        | inl f ↦ let g : t == s ≡ false = ground arith in rw (e, f, g) refl
        | inr f ↦ rw (e, f) ih
      ]
    ]

is_open-put : (t : ℕ) (j : Inode) (is : List Inode) → is_open t (put_inode j is) ≡ is_open t is
is_open-put t j [] = refl
is_open-put t j (i ∷ is) =
    let ih = is_open-put t j is in
    elim (Bool-cases (i.sector == j.sector)) [
      | inl e ↦ let same : i.sector ≡ j.sector = ground arith in rw (e, same) refl
      | inr e ↦ rw (e, ih) refl
    ]

pub put_inode-IsOpenList :
    (j : Inode) (is : List Inode) → 1 ≤ j.open_cnt → IsOpenList is → IsOpenList (put_inode j is)
put_inode-IsOpenList j [] one l = l
put_inode-IsOpenList j (i ∷ is) one l =
    let ih = put_inode-IsOpenList j is one l.2 in
    elim (Bool-cases (i.sector == j.sector)) [
      | inl e ↦
          let same : i.sector ≡ j.sector = ground arith in
          rw e (ap (λ (k : ℕ). is_open k is) (sym same) ∙ l.0, one, l.2)
      | inr e ↦ rw e (is_open-put i.sector j is ∙ l.0, l.1, ih)
    ]

pub count_of-put :
    (of : Inode → ℕ) (t : ℕ) (j : Inode) (is : List Inode)
    → is_open j.sector is ≡ true
    → count_of of t (put_inode j is) ≡ (if t == j.sector then of j else count_of of t is)
count_of-put of t j [] opened = absurd (ground arith)
count_of-put of t j (i ∷ is) opened = elim (Bool-cases (i.sector == j.sector)) [
  | inl e ↦ elim (Bool-cases (i.sector == t)) [
    | inl f ↦
        let g : t == j.sector ≡ true = ground arith in
        let h : j.sector == t ≡ true = ground arith in rw (e, g, h) refl
    | inr f ↦
        let g : t == j.sector ≡ false = ground arith in
        let h : j.sector == t ≡ false = ground arith in rw (e, f, g, h) refl
  ]
  | inr e ↦
      let ih = count_of-put of t j is (sym (rw e refl) ∙ opened) in
      elim (Bool-cases (i.sector == t)) [
        | inl f ↦ let g : t == j.sector ≡ false = ground arith in rw (e, f, g) refl
        | inr f ↦ rw (e, f) ih
      ]
]

pub opens-put :
    (t : ℕ) (j : Inode) (is : List Inode)
    → is_open j.sector is ≡ true
    → opens t (put_inode j is) ≡ (if t == j.sector then j.open_cnt else opens t is)
opens-put t j is opened = count_of-put (λ i. i.open_cnt) t j is opened

abbrev SectorIs : ℕ → Option Inode → Type 0
SectorIs s none = Unit {0}
SectorIs s (some i) = i.sector ≡ s

find_inode-SectorIs : (s : ℕ) (is : List Inode) → SectorIs s (find_inode s is)
find_inode-SectorIs s [] = tt
find_inode-SectorIs s (i ∷ is) =
    let ih = find_inode-SectorIs s is in
    elim (Bool-cases (i.sector == s)) [ inl e ↦ rw e (ground arith) | inr e ↦ rw e ih ]

is_it : (o : Option Inode) → (o ≡ none) ⊎ ((i : Inode) × (o ≡ some i))
is_it none = inl refl
is_it (some i) = inr (i, refl)

-- An inode that has an opener is found.
pub find_inode-found :
    (s : ℕ) (is : List Inode)
    → 1 ≤ opens s is
    → (i : Inode) × (find_inode s is ≡ some i) × (i.sector ≡ s)
find_inode-found s is one = elim (is_it (find_inode s is)) [
  | inl missing ↦
      let z =
        count_of-found (λ i. i.open_cnt) s is ∙ ap (count_of_found (λ i. i.open_cnt)) missing in
      absurd (omega arith)
  | inr r ↦ (r.0, r.1, subst (SectorIs s) r.1 (find_inode-SectorIs s is))
]

pub find_inode-put :
    (j : Inode) (is : List Inode)
    → is_open j.sector is ≡ true
    → find_inode j.sector (put_inode j is) ≡ some j
find_inode-put j [] opened = absurd (ground arith)
find_inode-put j (i ∷ is) opened = elim (Bool-cases (i.sector == j.sector)) [
  | inl e ↦ let g = ==_refl j.sector in rw e (rw g refl)
  | inr e ↦ let ih = find_inode-put j is (sym (rw e refl) ∙ opened) in rw (e, e) ih
]
