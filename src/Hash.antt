-- ===== src/Hash.antt =====
-- lib/kernel/hash.c: hash tables with chaining. An element is its address, 0 is NULL, and a bucket
-- is the sequence of its elements, front first. The table's `hash` and `less` are functions on
-- elements; `aux` is part of them. Where the source calls malloc, an argument says whether it
-- succeeds.
pub mod Buckets
pub mod Lookup
pub mod Methods
pub mod Rehash
pub mod Table
mod Tests
use tiny_os.Common.{
  ℕ, zero, suc, ◌+◌, ◌-◌, ◌*◌, ◌/◌, ◌%◌, ◌^◌, bit_and, bit_xor, Bool, true, false, not, ◌&&◌,
  Option, none, some, List, [], ◌∷◌, ◌==◌, ltb, if◌then◌else◌, get_or, set, replicate,
}
use tiny_os.Common.Panic.{assert, ◌>>=◌, ◌>>◌}

pub record Hash : Type 0 where
  pub elem_cnt : ℕ
  pub bucket_cnt : ℕ
  pub buckets : List (List ℕ)

abbrev pub best_elems_per_bucket : ℕ
best_elems_per_bucket = 2

-- list_remove: the element is taken out of the list that it is in.
abbrev pub erase : ℕ → List ℕ → List ℕ
erase e [] = []
erase e (x ∷ xs) = let rest = erase e xs in if x == e then xs else x ∷ rest

abbrev pub erase_all : ℕ → List (List ℕ) → List (List ℕ)
erase_all e [] = []
erase_all e (b ∷ bs) = erase e b ∷ erase_all e bs

abbrev pub push : List (List ℕ) → ℕ → ℕ → List (List ℕ)
push bs i e = set bs i (e ∷ get_or bs i [])

abbrev pub remove_elem : Hash → ℕ → Hash
remove_elem h e = record h {
  elem_cnt = (h.elem_cnt + 2 ^ 32 - 1) % 2 ^ 32;
  buckets = erase_all e h.buckets;
}

abbrev pub insert_elem : Hash → ℕ → ℕ → Hash
insert_elem h i e = record h { elem_cnt = (h.elem_cnt + 1) % 2 ^ 32; buckets = push h.buckets i e }

abbrev pub turn_off_least_1bit : ℕ → ℕ
turn_off_least_1bit x = bit_and x (x - 1)

abbrev pub is_power_of_2 : ℕ → Bool
is_power_of_2 x = not (x == 0) && turn_off_least_1bit x == 0

pub power_loop : ℕ → ℕ → ℕ
power_loop zero x = x
power_loop (suc fuel) x =
    let rest = power_loop fuel (turn_off_least_1bit x) in if is_power_of_2 x then x else rest

-- The number of buckets that rehash wants; each turn of the loop makes it smaller.
pub ideal_bucket_cnt : ℕ → ℕ
ideal_bucket_cnt elem_cnt =
    let wanted = elem_cnt / best_elems_per_bucket in
    let least = if ltb wanted 4 then 4 else wanted in power_loop least least

pub hash_clear : Hash → Hash
hash_clear h = record h { elem_cnt = 0; buckets = replicate h.bucket_cnt [] }

pub hash_init : Bool → List (List ℕ) → Bool × Hash
hash_init malloc_succeeds old =
    let h : Hash = record { elem_cnt = 0; bucket_cnt = 4; buckets = old } in
    if malloc_succeeds then (true, hash_clear h) else (false, h)

abbrev pub hash_size : Hash → ℕ
hash_size h = h.elem_cnt

abbrev pub hash_empty : Hash → Bool
hash_empty h = h.elem_cnt == 0

-- `action` on each element, as a function on a state of its own.
pub apply_bucket {ℓ} : {S : Type ℓ} → (ℕ → S → S) → List ℕ → S → S
apply_bucket action [] s = s
apply_bucket action (x ∷ xs) s = apply_bucket action xs (action x s)

pub apply_buckets {ℓ} : {S : Type ℓ} → (ℕ → S → S) → List (List ℕ) → S → S
apply_buckets action [] s = s
apply_buckets action (b ∷ bs) s = apply_buckets action bs (apply_bucket action b s)

pub hash_apply {ℓ} : {S : Type ℓ} → Hash → (ℕ → S → S) → S → S
hash_apply h action s = apply_buckets action h.buckets s

abbrev pub fnv_32_prime : ℕ
fnv_32_prime = 16777619

abbrev pub fnv_32_basis : ℕ
fnv_32_basis = 2166136261

-- The bytes from an address on.
pub hash_bytes_loop : ℕ → ℕ → (ℕ → ℕ) → ℕ → ℕ
hash_bytes_loop zero buf m hash = hash
hash_bytes_loop (suc size) buf m hash =
    hash_bytes_loop size (buf + 1) m (bit_xor (hash * fnv_32_prime % 2 ^ 32) (m buf))

pub hash_bytes : ℕ → ℕ → (ℕ → ℕ) → Option ℕ
hash_bytes buf size m = do assert (not (buf == 0)); some (hash_bytes_loop size buf m fnv_32_basis)

pub hash_string_loop : ℕ → ℕ → (ℕ → ℕ) → ℕ → Option ℕ
hash_string_loop zero s m hash = none
hash_string_loop (suc fuel) s m hash =
    let rest = hash_string_loop fuel (s + 1) m (bit_xor (hash * fnv_32_prime % 2 ^ 32) (m s)) in
    if m s == 0 then some hash else rest

pub hash_string : ℕ → ℕ → (ℕ → ℕ) → Option ℕ
hash_string fuel s m = assert (not (s == 0)) >> hash_string_loop fuel s m fnv_32_basis

module _ (hash : ℕ → ℕ) (less : ℕ → ℕ → Bool) where
  -- The index of a bucket among `bucket_cnt`.
  pub bucket_idx : ℕ → ℕ → ℕ
  bucket_idx bucket_cnt e = bit_and (hash e) (bucket_cnt - 1)

  abbrev pub equal : ℕ → ℕ → Bool
  equal a b = not (less a b) && not (less b a)

  pub find_elem : List ℕ → ℕ → ℕ
  find_elem [] e = 0
  find_elem (hi ∷ i) e = let rest = find_elem i e in if equal hi e then hi else rest

  pub move_bucket : ℕ → List ℕ → List (List ℕ) → List (List ℕ)
  move_bucket cnt [] new_buckets = new_buckets
  move_bucket cnt (x ∷ xs) new_buckets = move_bucket cnt xs (push new_buckets (bucket_idx cnt x) x)

  pub move_buckets : ℕ → List (List ℕ) → List (List ℕ) → List (List ℕ)
  move_buckets cnt [] new_buckets = new_buckets
  move_buckets cnt (b ∷ bs) new_buckets = move_buckets cnt bs (move_bucket cnt b new_buckets)

  pub rehash : Bool → Hash → Hash
  rehash malloc_succeeds h =
      let new_bucket_cnt = ideal_bucket_cnt h.elem_cnt in
      if new_bucket_cnt == h.bucket_cnt then h else if not malloc_succeeds then h else record h {
        bucket_cnt = new_bucket_cnt;
        buckets = move_buckets new_bucket_cnt h.buckets (replicate new_bucket_cnt []);
      }

  abbrev pub bucket_of : Hash → ℕ → List ℕ
  bucket_of h e = get_or h.buckets (bucket_idx h.bucket_cnt e) []

  pub hash_insert : Bool → Hash → ℕ → ℕ × Hash
  hash_insert malloc_succeeds h new =
      let old = find_elem (bucket_of h new) new in
      (
        old,
        rehash malloc_succeeds
            (if old == 0 then insert_elem h (bucket_idx h.bucket_cnt new) new else h),
      )

  pub hash_replace : Bool → Hash → ℕ → ℕ × Hash
  hash_replace malloc_succeeds h new =
      let old = find_elem (bucket_of h new) new in
      let removed = if old == 0 then h else remove_elem h old in
      (old, rehash malloc_succeeds (insert_elem removed (bucket_idx h.bucket_cnt new) new))

  pub hash_find : Hash → ℕ → ℕ
  hash_find h e = find_elem (bucket_of h e) e

  -- The ASSERT of hash_delete tests a string, which is true.
  pub hash_delete : Bool → Hash → ℕ → ℕ × Hash
  hash_delete malloc_succeeds h e =
      let found = find_elem (bucket_of h e) e in
      (found, if found == 0 then h else rehash malloc_succeeds (remove_elem h found))
