-- ===== src/Palloc/RoundTrip.antt =====
-- Freeing pages of palloc.c: what `palloc_free_multiple` undoes, and that it is caught when it is
-- done twice.
use tiny_os.Common.{
  ℕ, ◌+◌, ◌-◌, ◌*◌, ◌%◌, ◌≤◌, ◌<◌, ◌≡◌, sym, refl, ◌∙◌, inl, inr, ◌≢◌, Bool, true, false, not, ◌&&◌,
  none, some, leb, ltb, if◌then◌else◌, ne→==, Bool-cases, arith,
}
use tiny_os.Bitmap.{Bitmap, bit_on, all}
use tiny_os.Bitmap.Bits.{IsValid}
use tiny_os.Bitmap.Loops.{inside, Filled, Every, contains-Found, set_multiple-Filled}
use tiny_os.Palloc.{
  pg_size, has_flag, Pool, Memory, memset, pool_of, put_used_map, page_from_pool, find_pool,
  free_multiple, pg_no, pal_assert, get_multiple,
}
use tiny_os.Palloc.Pages.{
  get_multiple-outcome, IsPool, IsMemory, pool_of-IsPool, in_user, Granted, IsAnswer,
  get_multiple-IsAnswer,
}

-- A bitmap answers `all` truthfully.
pub all-true :
    {b : Bitmap} (i n : ℕ)
    → IsValid b
    → i + n ≤ b.bit_cnt
    → Every b i n true
    → all b i n ≡ some true
unfolding all
all-true {b} i n v h on = elim (contains-Found i n false v h) [
  | inl (e, (j, p, q, off)) ↦ absurd (ground (arith, on j p q))
  | inr (e, every) ↦ rw e refl
]

pub all-false :
    {b : Bitmap} (i n : ℕ)
    → IsValid b
    → i + n ≤ b.bit_cnt
    → (j : ℕ) → i ≤ j
    → j < i + n
    → bit_on b j ≡ false
    → all b i n ≡ some false
unfolding all
all-false {b} i n v h j p q off = elim (contains-Found i n false v h) [
  | inl (e, found) ↦ rw e refl
  | inr (e, every) ↦ absurd (ground (arith, every j p q))
]

module _ {m : Memory} (u : Bool) (idx : ℕ) (v : IsMemory m)
    (lt : idx < (pool_of m u).used_map.bit_cnt) where
  abbrev page : ℕ
  page = (pool_of m u).base + pg_size * idx

  page_aligned : page % pg_size ≡ 0
  page_aligned = omega (arith, (pool_of-IsPool u v).aligned)

  page_index : pg_no page - pg_no (pool_of m u).base ≡ idx
  page_index = omega (arith, (pool_of-IsPool u v).aligned)

find_pool-page :
    {m : Memory} (u : Bool) (idx : ℕ)
    → IsMemory m
    → idx < (pool_of m u).used_map.bit_cnt
    → find_pool m ((pool_of m u).base + pg_size * idx) ≡ some u
unfolding find_pool page_from_pool
find_pool-page {m} true idx v lt = ground (arith, v.kernel.aligned, v.user.aligned, v.apart)
find_pool-page {m} false idx v lt = ground (arith, v.kernel.aligned)

-- Page `k` of a pool is in use.
pub in_use : Memory → Bool → ℕ → Bool
in_use m u k = bit_on (pool_of m u).used_map k

-- The `cnt` pages from `idx` of pool `u` are free in `m'`; every other page of the two pools is as
-- before. The freed memory is filled with 0xcc.
pub record Freed (m : Memory) (u : Bool) (idx cnt : ℕ) (m' : Memory) : Type 0 where
  pub released : Filled (pool_of m u).used_map idx cnt false (pool_of m' u).used_map
  pub base_kept : (pool_of m' u).base ≡ (pool_of m u).base
  pub other_kept : pool_of m' (not u) ≡ pool_of m (not u)
  pub contents :
      (a : ℕ)
      → let p = (pool_of m u).base + pg_size * idx in
        m'.bytes a ≡ (if leb p a && ltb a (p + pg_size * cnt) then 0xcc else m.bytes a)

Freed-put :
    (m : Memory) (u : Bool) (idx cnt : ℕ) (b' : Bitmap)
    → Filled (pool_of m u).used_map idx cnt false b'
    → Freed m u idx cnt (
        put_used_map
          (record m {
            bytes = memset m.bytes ((pool_of m u).base + pg_size * idx) 0xcc (pg_size * cnt);
          })
          u
          b')
unfolding memset
Freed-put m true idx cnt b' f = record {
  released = f;
  base_kept = refl;
  other_kept = refl;
  contents = λ a. refl;
}
Freed-put m false idx cnt b' f = record {
  released = f;
  base_kept = refl;
  other_kept = refl;
  contents = λ a. refl;
}

pool_of-fill :
    (m : Memory) (u : Bool) (f : ℕ → ℕ) → pool_of (record m { bytes = f }) u ≡ pool_of m u
pool_of-fill m true f = refl
pool_of-fill m false f = refl

-- `palloc_free_multiple` of pages that are all in use does not panic, and frees exactly those.
pub free_multiple-Freed :
    {m : Memory} (u : Bool) (idx cnt : ℕ)
    → IsMemory m
    → 0 < cnt
    → idx + cnt ≤ (pool_of m u).used_map.bit_cnt
    → Every (pool_of m u).used_map idx cnt true
    → (m' : Memory) × (free_multiple ((pool_of m u).base + pg_size * idx) cnt m ≡ some m')
      × Freed m u idx cnt m'
unfolding free_multiple
free_multiple-Freed {m} u idx cnt v pos fits on =
    let pool = pool_of-IsPool u v in
    let page : ℕ = (pool_of m u).base + pg_size * idx in
    let (b', e, f) =
      set_multiple-Filled idx cnt false {b = (pool_of m u).used_map} pool.map_valid fits in
    (
      put_used_map (record m { bytes = memset m.bytes page 0xcc (pg_size * cnt) }) u b',
      rw
          (
            page_aligned u idx v (omega arith),
            ne→== page 0 (omega (arith, pool.not_null)),
            ne→== cnt 0 (omega arith),
            find_pool-page u idx v (omega arith),
            page_index u idx v (omega arith),
            all-true idx cnt pool.map_valid fits on,
            e,
          )
          refl,
      Freed-put m u idx cnt b' f,
    )

-- `palloc_free_multiple` panics if one of the pages is not in use, so a page is not freed twice.
pub free_multiple-panics :
    {m : Memory} (u : Bool) (idx cnt j : ℕ)
    → IsMemory m
    → idx + cnt ≤ (pool_of m u).used_map.bit_cnt
    → idx ≤ j
    → j < idx + cnt
    → bit_on (pool_of m u).used_map j ≡ false
    → free_multiple ((pool_of m u).base + pg_size * idx) cnt m ≡ none
unfolding free_multiple
free_multiple-panics {m} u idx cnt j v fits p q off =
    let pool = pool_of-IsPool u v in
    let page : ℕ = (pool_of m u).base + pg_size * idx in
    rw
      (
        page_aligned u idx v (omega arith),
        ne→== page 0 (omega (arith, pool.not_null)),
        ne→== cnt 0 (omega arith),
        find_pool-page u idx v (omega arith),
        page_index u idx v (omega arith),
        all-false idx cnt pool.map_valid fits j p q off,
      )
      refl

-- What a call of `palloc_get_multiple` that returned did.
IsAnswer-of_run :
    {m m' : Memory} (flags cnt r : ℕ)
    → IsMemory m
    → 0 < cnt
    → has_flag flags pal_assert ≡ false
    → get_multiple flags cnt m ≡ some (r, m')
    → IsAnswer m flags cnt r m'
IsAnswer-of_run {m} {m'} flags cnt r v pos may_fail run =
    let (r₀, m₀, e, answer) = get_multiple-IsAnswer flags cnt v pos may_fail in
    let same_r : r₀ ≡ r = cc (e, run) in
    let same_m : m₀ ≡ m' = cc (e, run) in rw (same_r, same_m) at answer

Filled-Every : {b b' : Bitmap} (i n : ℕ) (value : Bool) → Filled b i n value b' → Every b' i n value
Filled-Every i n value f j p q = ground (arith, f.content j)

-- A change of one pool's bitmap that keeps its size keeps the pools well formed.
Filled-IsPool :
    {p p' : Pool} (i n : ℕ) (value : Bool)
    → IsPool p
    → Filled p.used_map i n value p'.used_map
    → p'.base ≡ p.base
    → IsPool p'
Filled-IsPool i n value v f base = record {
  map_valid = f.valid;
  aligned = rw base (v.aligned);
  not_null = omega (arith, v.not_null);
  fits = omega (arith, v.fits, f.size);
}

Filled-IsMemory :
    {m m' : Memory} (u : Bool) (i n : ℕ) (value : Bool)
    → IsMemory m
    → Filled (pool_of m u).used_map i n value (pool_of m' u).used_map
    → (pool_of m' u).base ≡ (pool_of m u).base
    → pool_of m' (not u) ≡ pool_of m (not u)
    → IsMemory m'
Filled-IsMemory true i n value v f base other = record {
  kernel = rw other (v.kernel);
  user = Filled-IsPool i n value v.user f base;
  apart = rw other (omega (arith, v.apart, base));
}
Filled-IsMemory false i n value v f base other = record {
  kernel = Filled-IsPool i n value v.kernel f base;
  user = rw other (v.user);
  apart = rw other (omega (arith, v.apart, f.size, base));
}

-- A call of `palloc_get_multiple` that returns leaves both pools well formed.
pub get_multiple-IsMemory :
    {m m' : Memory} (flags cnt r : ℕ)
    → IsMemory m
    → 0 < cnt
    → has_flag flags pal_assert ≡ false
    → get_multiple flags cnt m ≡ some (r, m')
    → IsMemory m'
get_multiple-IsMemory flags cnt r v pos may_fail run =
    elim (IsAnswer-of_run flags cnt r v pos may_fail run) [
      | inl (_, refused) ↦ rw (refused.same) v
      | inr (idx, _, g) ↦
          Filled-IsMemory (in_user flags) idx cnt true v g.taken g.base_kept g.other_kept
    ]

in_use-freed :
    (m m' m'' : Memory) (u : Bool) (idx cnt : ℕ)
    → Every (pool_of m u).used_map idx cnt false
    → Filled (pool_of m u).used_map idx cnt true (pool_of m' u).used_map
    → Filled (pool_of m' u).used_map idx cnt false (pool_of m'' u).used_map
    → (k : ℕ) → in_use m'' u k ≡ in_use m u k
unfolding in_use
in_use-freed m m' m'' u idx cnt free f g k = elim (Bool-cases (inside idx cnt k)) [
  | inl here ↦ ground (arith, f.content k, g.content k, free k)
  | inr away ↦ ground (arith, f.content k, g.content k)
]

same_use :
    (m m' m'' : Memory) (u : Bool) (idx cnt : ℕ)
    → Every (pool_of m u).used_map idx cnt false
    → Filled (pool_of m u).used_map idx cnt true (pool_of m' u).used_map
    → Filled (pool_of m' u).used_map idx cnt false (pool_of m'' u).used_map
    → pool_of m'' (not u) ≡ pool_of m (not u)
    → (w : Bool) (k : ℕ) → in_use m'' w k ≡ in_use m w k
unfolding in_use
same_use m m' m'' true idx cnt free f g other true k = in_use-freed m m' m'' true idx cnt free f g k
same_use m m' m'' true idx cnt free f g other false k = rw other refl
same_use m m' m'' false idx cnt free f g other false k =
    in_use-freed m m' m'' false idx cnt free f g k
same_use m m' m'' false idx cnt free f g other true k = rw other refl

-- The pools after pages were handed out and given back.
undo_grant :
    {m m' : Memory} (flags cnt idx r : ℕ)
    → IsMemory m
    → 0 < cnt
    → Granted m flags cnt idx r m'
    → (m'' : Memory) × (free_multiple r cnt m' ≡ some m'')
      × ((u : Bool) (k : ℕ) → in_use m'' u k ≡ in_use m u k)
undo_grant {m} {m'} flags cnt idx r v pos g =
    let w =
      Filled-IsMemory {m = m} {m' = m'} (in_user flags) idx cnt true v g.taken g.base_kept
        g.other_kept in
    let room : idx + cnt ≤ (pool_of m' (in_user flags)).used_map.bit_cnt =
      omega (arith, g.was_free.fits, g.taken.size) in
    let (m'', e, freed) =
      free_multiple-Freed (in_user flags) idx cnt w pos room (Filled-Every idx cnt true g.taken) in
    (
      m'',
      rw (g.address, ← g.base_kept) e,
      same_use m m' m'' (in_user flags) idx cnt g.was_free.equal g.taken freed.released
          (freed.other_kept ∙ g.other_kept),
    )

-- Pages that `palloc_get_multiple` returned, with whatever flags, can be given back, and then the same
-- pages of both pools are in use as before the two calls.
pub free-get :
    {m m' : Memory} (flags cnt r : ℕ)
    → IsMemory m
    → 0 < cnt
    → get_multiple flags cnt m ≡ some (r, m')
    → r ≢ 0
    → (m'' : Memory) × (free_multiple r cnt m' ≡ some m'')
      × ((u : Bool) (k : ℕ) → in_use m'' u k ≡ in_use m u k)
free-get {m} {m'} flags cnt r v pos run ne = elim (get_multiple-outcome flags cnt v pos) [
  | inl e ↦ absurd (
      let both : (if has_flag flags pal_assert then none else some (0, m)) ≡ some (r, m') =
        sym e ∙ run in
      elim (Bool-cases (has_flag flags pal_assert)) [
        | inl must ↦ (let no = rw must at both in cc)
        | inr may ↦ (let null = rw may at both in ne (cc))
      ])
  | inr (idx, m0, e, g) ↦
      let same_r : (pool_of m (in_user flags)).base + pg_size * idx ≡ r = cc (e, run) in
      let same_m : m0 ≡ m' = cc (e, run) in
      let g' : Granted m flags cnt idx r m' = rw (same_r, same_m) at g in
      undo_grant flags cnt idx r v pos g'
]
