-- ===== src/Hash/Methods.antt =====
-- The functions of lib/kernel/hash.c on the set of elements that a table holds. The number of
-- buckets, and whether malloc gives new ones, do not show in it.
use tiny_os.Common.{
  ℕ, ◌+◌, ◌<◌, ◌^◌, ◌≡◌, ◌≢◌, refl, sym, ap, ◌∙◌, Bool, true, false, not, ◌&&◌, ◌||◌, List, [], ◌∷◌,
  ◌==◌, if◌then◌else◌, get_or, arith, Bool-cases, inl, inr,
}
use tiny_os.Common.Members.{has}
use tiny_os.Hash.{
  Hash, bucket_idx, equal, find_elem, bucket_of, remove_elem, hash_clear, hash_init, hash_insert,
  hash_replace, hash_find, hash_delete,
}
use tiny_os.Hash.Buckets.{IsKey, equal_symm, bucket_idx-lt, bucket_idx_congr, Apart, Fresh}
use tiny_os.Hash.Lookup.{total-replicate, empty-Holds}
use tiny_os.Hash.Rehash.{Holds-same}
use tiny_os.Hash.Table.{
  IsTable, rehash-IsTable, Found, find_elem-Found, remove_elem-IsTable, insert_elem-IsTable,
}

-- Leaving NULL out leaves out nothing.
drop_null : (f : ℕ → Bool) (r x : ℕ) → f 0 ≡ false → r ≡ 0 → f x ≡ (f x && not (x == r))
drop_null f r x null z = elim (Bool-cases (x == r)) [
  | inl here ↦ let e : x ≡ 0 = ground arith in let out = ap f e in ground arith
  | inr there ↦ ground arith
]

module _ (hash : ℕ → ℕ) (less : ℕ → ℕ → Bool) (key : IsKey hash less) where
  IsTable-same :
      (h : Hash) (f g : ℕ → Bool)
      → ((x : ℕ) → f x ≡ g x)
      → IsTable hash less h f
      → IsTable hash less h g
  IsTable-same h f g e t = record {
    some_bucket = t.some_bucket;
    holds = Holds-same hash less h.bucket_cnt f g h.buckets e t.holds;
    counted = t.counted;
    not_null = sym (e 0) ∙ t.not_null;
  }

  clash :
      (x y z : ℕ) → x ≡ z → equal hash less z y ≡ false → equal hash less x y ≡ true → true ≡ false
  clash x y z same no_twin twin = sym twin ∙ ap (λ w. equal hash less w y) same ∙ no_twin

  Apart-unique :
      (xs : List ℕ) (a b : ℕ)
      → Apart hash less xs
      → has a xs ≡ true
      → has b xs ≡ true
      → equal hash less a b ≡ true
      → a ≡ b
  Apart-unique [] a b p ha hb e = cc
  Apart-unique (x ∷ xs) a b p ha hb e = elim (Bool-cases (a == x)) [
    | inl ax ↦ elim (Bool-cases (b == x)) [
      | inl bx ↦ ground arith
      | inr other ↦
          let same : a ≡ x = ground arith in cc (clash a b x same (p.0 b (ground arith)) e)
    ]
    | inr other ↦ elim (Bool-cases (b == x)) [
      | inl bx ↦
          let same : b ≡ x = ground arith in
          cc (clash b a x same (p.0 a (ground arith)) (equal_symm hash less b a ∙ e))
      | inr both ↦ Apart-unique xs a b p.1 (ground arith) (ground arith) e
    ]
  ]

  -- Equal elements of one table are the same.
  members_unique :
      (h : Hash) (f : ℕ → Bool) (a b : ℕ)
      → IsTable hash less h f
      → f a ≡ true
      → f b ≡ true
      → equal hash less a b ≡ true
      → a ≡ b
  members_unique h f a b t fa fb e =
      let n = h.bucket_cnt in
      let k = bucket_idx hash less n a in
      let lt = bucket_idx-lt hash less n a t.some_bucket in
      let together = bucket_idx_congr hash less n a b (key.hash-equal a b e) in
      let ra = t.holds.reads k a lt in
      let rb = t.holds.reads k b lt in
      Apart-unique (get_or h.buckets k []) a b (t.holds.apart k) (ground arith) (ground arith) e

  -- hash_init gives an empty table when malloc succeeds.
  pub hash_init-IsTable :
      (old : List (List ℕ))
      → ((hash_init true old).0 ≡ true) × IsTable hash less (hash_init true old).1 (λ x. false)
  unfolding hash_init hash_clear
  hash_init-IsTable old = (
    refl,
    record {
      some_bucket = omega arith;
      holds = empty-Holds hash less key 4;
      counted = total-replicate 4;
      not_null = refl;
    },
  )

  -- In a table, hash_find returns the element that is equal to the one searched, or NULL when
  -- there is none.
  pub hash_find-Found :
      (h : Hash) (f : ℕ → Bool) (e : ℕ)
      → IsTable hash less h f
      → Found hash less key f e (hash_find hash less h e)
  unfolding hash_find
  hash_find-Found h f e t = find_elem-Found hash less key h f e t

  module _ (ok : Bool) (h : Hash) (f : ℕ → Bool) (t : IsTable hash less h f) (new : ℕ)
      (real : new ≢ 0) (small : h.elem_cnt + 1 < 2 ^ 32) where
    -- In a table that is not full, with any outcome of malloc: hash_insert returns the element that
    -- is equal to the new one, and the table stays; or NULL when there is none, and the new one
    -- is added.
    pub hash_insert-Inserted :
        (let r = hash_insert hash less ok h new in
          Found hash less key f new r.0
          × IsTable hash less r.1 (λ x. f x || (r.0 == 0 && x == new))
          × (r.1.elem_cnt ≡ h.elem_cnt + (if r.0 == 0 then 1 else 0)))
    unfolding hash_insert
    hash_insert-Inserted =
        let old = find_elem hash less (bucket_of hash less h new) new in
        let found = find_elem-Found hash less key h f new t in
        elim found [
          | inl gone ↦
              let null : (old == 0) ≡ true = (let z = gone.0 in ground arith) in
              let fresh : Fresh hash less f new =
                (λ y p. equal_symm hash less new y ∙ gone.1 y p) in
              let added = insert_elem-IsTable hash less key h f new small real t fresh in
              let again = rehash-IsTable hash less key ok _ _ added.0 in
              rw null (find_elem-Found hash less key h f new t, again.0, again.1 ∙ added.1)
          | inr here ↦
              let kept : (old == 0) ≡ false = (let z = here.0 in ground arith) in
              let again = rehash-IsTable hash less key ok h f t in
              rw kept (
                find_elem-Found hash less key h f new t,
                IsTable-same _ f _ (λ x. ground arith) again.0,
                again.1 ∙ omega arith,
              )
        ]

    -- In a table that is not full, with any outcome of malloc: hash_replace returns the element that
    -- is equal to the new one and removes it, or returns NULL when there is none; and adds
    -- the new one.
    pub hash_replace-Replaced :
        (let r = hash_replace hash less ok h new in
          Found hash less key f new r.0
          × IsTable hash less r.1 (λ x. (f x && not (x == r.0)) || x == new)
          × (r.1.elem_cnt + (if r.0 == 0 then 0 else 1) ≡ h.elem_cnt + 1))
    unfolding hash_replace
    hash_replace-Replaced =
        let old = find_elem hash less (bucket_of hash less h new) new in
        elim (find_elem-Found hash less key h f new t) [
          | inl gone ↦
              let z = gone.0 in
              let null : (old == 0) ≡ true = ground arith in
              let n = t.not_null in
              let fresh : Fresh hash less f new =
                (λ y p. equal_symm hash less new y ∙ gone.1 y p) in
              let added = insert_elem-IsTable hash less key h f new small real t fresh in
              let again = rehash-IsTable hash less key ok _ _ added.0 in
              rw null (
                find_elem-Found hash less key h f new t,
                IsTable-same _ _ _ (λ x. ap (λ b. b || x == new) (drop_null f old x n z)) again.0,
                (let a = again.1 in let b = added.1 in omega arith),
              )
          | inr here ↦
              let z = here.0 in
              let kept : (old == 0) ≡ false = ground arith in
              let less_one = remove_elem-IsTable hash less key h f old (omega arith) t here.1 in
              let fresh : Fresh hash less (λ x. f x && not (x == old)) new = (λ y p.
                elim (Bool-cases (equal hash less new y)) [
                  | inl twin ↦
                      let one =
                        members_unique h f old y t here.1 (ground arith)
                          (key.equal_trans old new y here.2 twin) in
                      ground arith
                  | inr other ↦ other
                ]) in
              let added =
                insert_elem-IsTable hash less key (remove_elem h old) _ new
                  (let c = less_one.1 in omega arith) real less_one.0 fresh in
              let again = rehash-IsTable hash less key ok _ _ added.0 in
              rw kept (
                find_elem-Found hash less key h f new t,
                again.0,
                (let a = again.1 in let b = added.1 in let c = less_one.1 in omega arith),
              )
        ]

  -- In a table, with any outcome of malloc: hash_delete returns the element that is equal to the one
  -- given and removes it, or returns NULL and changes nothing when there is none.
  pub hash_delete-Deleted :
      (ok : Bool) (h : Hash) (f : ℕ → Bool) (e : ℕ)
      → IsTable hash less h f
      → h.elem_cnt < 2 ^ 32
      → (let r = hash_delete hash less ok h e in
          Found hash less key f e r.0
          × IsTable hash less r.1 (λ x. f x && not (x == r.0))
          × (r.1.elem_cnt + (if r.0 == 0 then 0 else 1) ≡ h.elem_cnt))
  unfolding hash_delete
  hash_delete-Deleted ok h f e t small =
      let found = find_elem hash less (bucket_of hash less h e) e in
      elim (find_elem-Found hash less key h f e t) [
        | inl gone ↦
            let z = gone.0 in
            let null : (found == 0) ≡ true = ground arith in
            let n = t.not_null in
            rw null (
              find_elem-Found hash less key h f e t,
              IsTable-same h f _ (λ x. drop_null f found x n z) t,
              omega arith,
            )
        | inr here ↦
            let z = here.0 in
            let kept : (found == 0) ≡ false = ground arith in
            let removed = remove_elem-IsTable hash less key h f found small t here.1 in
            let again = rehash-IsTable hash less key ok _ _ removed.0 in
            rw kept (
              find_elem-Found hash less key h f e t,
              again.0,
              (let a = again.1 in let b = removed.1 in omega arith),
            )
      ]
