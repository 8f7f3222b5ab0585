-- ===== src/Hash/Tests.antt =====
-- Runs of lib/kernel/hash.c on elements that are equal when their addresses agree up to the lowest
-- bit.
use tiny_os.Common.{
  ℕ, ◌+◌, ◌/◌, ◌≡◌, refl, Bool, true, false, not, ◌&&◌, ◌||◌, [], ◌==◌, ltb, if◌then◌else◌, arith,
}
use tiny_os.Hash.{
  Hash, hash_init, hash_clear, hash_insert, hash_replace, hash_find, ideal_bucket_cnt, power_loop,
  find_elem, bucket_idx, rehash, equal,
}
use tiny_os.Hash.Buckets.{IsKey}
use tiny_os.Hash.Table.{IsTable, Found}
use tiny_os.Hash.Methods.{hash_init-IsTable, hash_insert-Inserted, hash_replace-Replaced}

abbrev half : ℕ → ℕ
half a = a / 2

abbrev below : ℕ → ℕ → Bool
below a b = ltb (a / 2) (b / 2)

halves : (a b : ℕ) → equal half below a b ≡ true → a / 2 ≡ b / 2
halves a b e = ground arith

half-IsKey : IsKey half below
half-IsKey = record {
  irrefl = λ a. ground arith;
  equal_trans = λ a b c p q. ground arith;
  hash-equal = halves;
}

abbrev empty : Hash
empty = (hash_init true []).1

empty-IsTable : IsTable half below empty (λ x. false)
empty-IsTable = (hash_init-IsTable half below half-IsKey []).1

-- 10 is in the table.
abbrev ten : ℕ × Hash
ten = hash_insert half below true empty 10

empty_cnt : empty.elem_cnt ≡ 0
unfolding hash_init hash_clear
empty_cnt = refl

hash_insert-Inserted_example :
    Found half below half-IsKey (λ x. false) 10 ten.0
    × IsTable half below ten.1 (λ x. false || (ten.0 == 0 && x == 10))
    × (ten.1.elem_cnt ≡ empty.elem_cnt + (if ten.0 == 0 then 1 else 0))
hash_insert-Inserted_example =
    hash_insert-Inserted half below half-IsKey true empty (λ x. false) empty-IsTable 10
      (λ e. omega arith) (let c = empty_cnt in omega arith)

abbrev in_ten : ℕ → Bool
in_ten x = false || (ten.0 == 0 && x == 10)

ten-IsTable : IsTable half below ten.1 in_ten
ten-IsTable =
    (hash_insert-Inserted half below half-IsKey true empty (λ x. false) empty-IsTable 10
      (λ e. omega arith) (let c = empty_cnt in omega arith)).1

ten_cnt : ten.1.elem_cnt ≡ 1
unfolding hash_insert hash_init hash_clear rehash ideal_bucket_cnt power_loop bucket_idx find_elem
ten_cnt = refl

found_ten : hash_find half below ten.1 11 ≡ 10
unfolding hash_find hash_insert hash_init hash_clear rehash ideal_bucket_cnt power_loop bucket_idx
    find_elem
found_ten = refl

hash_replace-Replaced_example :
    (let r = hash_replace half below true ten.1 11 in
      Found half below half-IsKey in_ten 11 r.0
      × IsTable half below r.1 (λ x. (in_ten x && not (x == r.0)) || x == 11)
      × (r.1.elem_cnt + (if r.0 == 0 then 0 else 1) ≡ ten.1.elem_cnt + 1))
hash_replace-Replaced_example =
    hash_replace-Replaced half below half-IsKey true ten.1 in_ten ten-IsTable 11 (λ e. omega arith)
      (let c = ten_cnt in omega arith)
