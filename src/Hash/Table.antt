-- ===== src/Hash/Table.antt =====
-- Tables of lib/kernel/hash.c as finite sets of elements.
use tiny_os.Common.{
  ℕ, suc, ◌+◌, ◌^◌, ◌<◌, ◌≡◌, ◌≢◌, ◌⊎◌, refl, ap, ◌∙◌, Bool, true, false, not, ◌&&◌, ◌||◌, [], ◌==◌,
  replicate, arith, Bool-cases, inl, inr,
}
use tiny_os.Hash.{
  Hash, bucket_idx, equal, find_elem, ideal_bucket_cnt, move_buckets, rehash, bucket_of,
  insert_elem, remove_elem,
}
use tiny_os.Hash.Buckets.{
  total, total-push, IsKey, bucket_idx-lt, bucket_idx_congr, Holds, Fresh, push-Holds,
}
use tiny_os.Hash.Lookup.{total-replicate, total-erase, empty-Holds, erase-Holds, find_elem-cases}
use tiny_os.Hash.Rehash.{
  ideal_bucket_cnt_pos, flat, Holds-same, Tail, has-flat, Apart-flat, move_bucket-Holds,
  move_buckets-flat, length-flat,
}

-- The table holds the elements of which `f` is true, in their buckets, and no two equal; its count
-- is right.
pub record IsTable (hash : ℕ → ℕ) (less : ℕ → ℕ → Bool) (h : Hash) (f : ℕ → Bool) : Type 0 where
  pub some_bucket : 0 < h.bucket_cnt
  pub holds : Holds hash less h.bucket_cnt f h.buckets
  pub counted : total h.buckets ≡ h.elem_cnt
  pub not_null : f 0 ≡ false

module _ (hash : ℕ → ℕ) (less : ℕ → ℕ → Bool) (key : IsKey hash less) where
  -- Moving the elements of one table into `n` new buckets.
  moved-Holds :
      (h : Hash) (f : ℕ → Bool) (n : ℕ)
      → 0 < n
      → IsTable hash less h f
      → Holds hash less n f (move_buckets hash less n h.buckets (replicate n []))
        × (total (move_buckets hash less n h.buckets (replicate n [])) ≡ h.elem_cnt)
  moved-Holds h f n pos t =
      let tail : Tail hash less h.bucket_cnt f 0 h.buckets = (λ i x lt.
        let w = t.holds.width in
        t.holds.reads i x (omega arith)
        ∙ ap (λ j. f x && j == bucket_idx hash less h.bucket_cnt x) (omega arith)) in
      let apart = Apart-flat hash less h.bucket_cnt f 0 h.buckets key tail t.holds.apart in
      let moved =
        move_bucket-Holds hash less n (λ x. false) (flat h.buckets) (replicate n []) pos
          (empty-Holds hash less key n) apart (λ x p y q. cc) in
      rw (move_buckets-flat hash less n h.buckets (replicate n [])) (
        Holds-same hash less n _ f _
            (λ x.
              let w = t.holds.width in
              let r = has-flat hash less h.bucket_cnt f 0 h.buckets x tail in
              let lt = bucket_idx-lt hash less h.bucket_cnt x t.some_bucket in ground arith)
            moved.0,
        (let c = t.counted in
            let e = total-replicate n in
            let l = length-flat h.buckets in let m = moved.1 in omega arith),
      )

  -- Changing the number of buckets, or failing to, changes neither the elements nor their number.
  pub rehash-IsTable :
      (ok : Bool) (h : Hash) (f : ℕ → Bool)
      → IsTable hash less h f
      → IsTable hash less (rehash hash less ok h) f
        × ((rehash hash less ok h).elem_cnt ≡ h.elem_cnt)
  unfolding rehash
  rehash-IsTable ok h f t = elim (Bool-cases (ideal_bucket_cnt h.elem_cnt == h.bucket_cnt)) [
    | inl same ↦ rw same (t, refl)
    | inr other ↦ elim (Bool-cases ok) [
      | inl allocated ↦
          let moved =
            moved-Holds h f (ideal_bucket_cnt h.elem_cnt) (ideal_bucket_cnt_pos h.elem_cnt) t in
          rw (other, allocated)
            (
              record {
                some_bucket = ideal_bucket_cnt_pos h.elem_cnt;
                holds = moved.0;
                counted = moved.1;
                not_null = t.not_null;
              },
              refl,
            )
      | inr no_memory ↦ rw (other, no_memory) (t, refl)
    ]
  ]

  -- What a search returns: NULL when the table has no equal element, or that element.
  abbrev pub Found : (ℕ → Bool) → ℕ → ℕ → Type 0
  Found f e r =
      ((r ≡ 0) × ((y : ℕ) → f y ≡ true → equal hash less y e ≡ false))
      ⊎ ((r ≢ 0) × (f r ≡ true) × (equal hash less r e ≡ true))

  pub find_elem-Found :
      (h : Hash) (f : ℕ → Bool) (e : ℕ)
      → IsTable hash less h f
      → Found f e (find_elem hash less (bucket_of hash less h e) e)
  find_elem-Found h f e t =
      let n = h.bucket_cnt in
      let k = bucket_idx hash less n e in
      let lt = bucket_idx-lt hash less n e t.some_bucket in
      elim (find_elem-cases hash less key (bucket_of hash less h e) e) [
        | inl gone ↦ inl (
          gone.0,
          λ y p. elim (Bool-cases (equal hash less y e)) [
            | inl same ↦
                let together = bucket_idx_congr hash less n y e (key.hash-equal y e same) in
                let r = t.holds.reads k y lt in gone.1 y (ground arith)
            | inr other ↦ other
          ],
        )
        | inr here ↦
            let found = find_elem hash less (bucket_of hash less h e) e in
            let r = t.holds.reads k found lt in
            let p = here.0 in
            let member : f found ≡ true = ground arith in
            inr ((λ z. let null = t.not_null in cc (ap f z)), member, here.1)
      ]

  -- The table without one of its elements.
  pub remove_elem-IsTable :
      (h : Hash) (f : ℕ → Bool) (e : ℕ)
      → h.elem_cnt < 2 ^ 32
      → IsTable hash less h f
      → f e ≡ true
      → IsTable hash less (remove_elem h e) (λ x. f x && not (x == e))
        × (suc (remove_elem h e).elem_cnt ≡ h.elem_cnt)
  remove_elem-IsTable h f e small t member =
      let fewer =
        total-erase hash less key h.bucket_cnt f h.buckets e t.some_bucket t.holds member in
      let c = t.counted in
      (
        record {
          some_bucket = t.some_bucket;
          holds = erase-Holds hash less key h.bucket_cnt f h.buckets e t.holds;
          counted = omega arith;
          not_null = let z = t.not_null in ground arith;
        },
        omega arith,
      )

  -- The table with a new element, not equal to one that it has.
  pub insert_elem-IsTable :
      (h : Hash) (f : ℕ → Bool) (e : ℕ)
      → h.elem_cnt + 1 < 2 ^ 32
      → e ≢ 0
      → IsTable hash less h f
      → Fresh hash less f e
      → IsTable hash less
          (insert_elem h (bucket_idx hash less h.bucket_cnt e) e)
          (λ x. f x || x == e)
        × ((insert_elem h (bucket_idx hash less h.bucket_cnt e) e).elem_cnt ≡ h.elem_cnt + 1)
  insert_elem-IsTable h f e small real t fresh =
      let n = h.bucket_cnt in
      let w = t.holds.width in
      let lt = bucket_idx-lt hash less n e t.some_bucket in
      let more = total-push h.buckets (bucket_idx hash less n e) e (omega arith) in
      let c = t.counted in
      (
        record {
          some_bucket = t.some_bucket;
          holds = push-Holds hash less n f h.buckets e t.some_bucket t.holds fresh;
          counted = omega arith;
          not_null = let z = t.not_null in ground arith;
        },
        omega arith,
      )
