-- ===== src/Palloc/Pages.antt =====
-- Which pages `palloc_get_multiple` hands out.
use tiny_os.Common.{
  ℕ, ◌+◌, ◌*◌, ◌%◌, ◌^◌, ◌≤◌, ◌<◌, ◌≡◌, refl, ◌⊎◌, inl, inr, Bool, true, false, not, ◌&&◌, none,
  some, leb, ltb, if◌then◌else◌, ne→==, Bool-cases, arith,
}
use tiny_os.Bitmap.{Bitmap, bitmap_error}
use tiny_os.Bitmap.Bits.{IsValid}
use tiny_os.Bitmap.Loops.{Filled}
use tiny_os.Bitmap.Groups.{Group, IsFlipped, scan_and_flip-IsFlipped}
use tiny_os.Palloc.{
  pg_size, pal_assert, pal_zero, pal_user, has_flag, Pool, Memory, memset, pool_of, put_used_map,
  hand_out, get_multiple,
}

-- A pool starts at a page, is not at NULL and ends within the address space.
pub record IsPool (p : Pool) : Type 0 where
  pub map_valid : IsValid p.used_map
  pub aligned : p.base % pg_size ≡ 0
  pub not_null : 0 < p.base
  pub fits : p.base + pg_size * p.used_map.bit_cnt ≤ 2 ^ 32

-- The kernel pool ends before the user pool.
pub record IsMemory (m : Memory) : Type 0 where
  pub kernel : IsPool m.kernel_pool
  pub user : IsPool m.user_pool
  pub apart : m.kernel_pool.base + pg_size * m.kernel_pool.used_map.bit_cnt ≤ m.user_pool.base

pub pool_of-IsPool : {m : Memory} (user : Bool) → IsMemory m → IsPool (pool_of m user)
pool_of-IsPool true v = v.user
pool_of-IsPool false v = v.kernel

-- The pool that the flags choose.
abbrev pub in_user : ℕ → Bool
in_user flags = has_flag flags pal_user

-- `cnt` pages from page `idx` of a pool, all free in `m`, are handed out at `r`. In `m'` they are in
-- use, every other page is as before, and memory changed only if zeros were asked for.
pub record Granted (m : Memory) (flags cnt idx r : ℕ) (m' : Memory) : Type 0 where
  pub address : r ≡ (pool_of m (in_user flags)).base + pg_size * idx
  pub was_free : Group (pool_of m (in_user flags)).used_map idx cnt false
  pub taken :
      Filled (pool_of m (in_user flags)).used_map idx cnt true (pool_of m' (in_user flags)).used_map
  pub base_kept : (pool_of m' (in_user flags)).base ≡ (pool_of m (in_user flags)).base
  pub other_kept : pool_of m' (not (in_user flags)) ≡ pool_of m (not (in_user flags))
  pub contents :
      (a : ℕ)
      → m'.bytes a ≡ (
          if has_flag flags pal_zero && (leb r a && ltb a (r + pg_size * cnt))
          then 0
          else m.bytes a)

-- No group of `cnt` free pages, and nothing changed.
pub record Refused (m : Memory) (flags cnt : ℕ) (m' : Memory) : Type 0 where
  pub full : (i : ℕ) → ¬ Group (pool_of m (in_user flags)).used_map i cnt false
  pub same : m' ≡ m

put_used_map_self : (m : Memory) (user : Bool) → put_used_map m user (pool_of m user).used_map ≡ m
put_used_map_self m true = refl
put_used_map_self m false = refl

-- What `palloc_get_multiple` may return, when it does not panic.
abbrev pub IsAnswer : Memory → ℕ → ℕ → ℕ → Memory → Type 0
IsAnswer m flags cnt r m' =
    ((r ≡ 0) × Refused m flags cnt m') ⊎ ((idx : ℕ) × (0 < r) × Granted m flags cnt idx r m')

pool_of-put :
    (m : Memory) (user : Bool) (b : Bitmap)
    → pool_of (put_used_map m user b) user ≡ record (pool_of m user) { used_map = b }
pool_of-put m true b = refl
pool_of-put m false b = refl

pool_of-put_other :
    (m : Memory) (user : Bool) (b : Bitmap)
    → pool_of (put_used_map m user b) (not user) ≡ pool_of m (not user)
pool_of-put_other m true b = refl
pool_of-put_other m false b = refl

bytes-put : (m : Memory) (user : Bool) (b : Bitmap) → (put_used_map m user b).bytes ≡ m.bytes
bytes-put m true b = refl
bytes-put m false b = refl

-- Filling memory does not touch the pools.
pool_of-bytes :
    (m : Memory) (user : Bool) (f : ℕ → ℕ) → pool_of (record m { bytes = f }) user ≡ pool_of m user
pool_of-bytes m true f = refl
pool_of-bytes m false f = refl

-- The memory that `hand_out` leaves with a page address.
after : Memory → ℕ → ℕ → ℕ → Bitmap → Memory
after m flags cnt r b' =
    let m₁ = put_used_map m (in_user flags) b' in
    if has_flag flags pal_zero
    then record m₁ { bytes = memset m₁.bytes r 0 (pg_size * cnt) }
    else m₁

pool_of-after :
    (m : Memory) (flags cnt r : ℕ) (b' : Bitmap) (u : Bool)
    → pool_of (after m flags cnt r b') u ≡ pool_of (put_used_map m (in_user flags) b') u
unfolding after
pool_of-after m flags cnt r b' u = elim (Bool-cases (has_flag flags pal_zero)) [
  | inl z ↦ rw z (
      pool_of-bytes (put_used_map m (in_user flags) b') u
        (memset (put_used_map m (in_user flags) b').bytes r 0 (pg_size * cnt)))
  | inr nz ↦ rw nz refl
]

bytes-after :
    (m : Memory) (flags cnt r : ℕ) (b' : Bitmap) (a : ℕ)
    → (after m flags cnt r b').bytes a
      ≡ (if has_flag flags pal_zero && (leb r a && ltb a (r + pg_size * cnt)) then 0 else m.bytes a)
unfolding after memset
bytes-after m flags cnt r b' a = elim (Bool-cases (has_flag flags pal_zero)) [
  | inl z ↦ rw (z, bytes-put m (in_user flags) b') refl
  | inr nz ↦ rw (nz, bytes-put m (in_user flags) b') refl
]

module _ {m : Memory} (flags cnt : ℕ) (v : IsMemory m) (pos : 0 < cnt) where
  abbrev page_at : ℕ → ℕ
  page_at idx = (pool_of m (in_user flags)).base + pg_size * idx

  address_fits :
      (idx : ℕ)
      → Group (pool_of m (in_user flags)).used_map idx cnt false
      → (page_at idx % 2 ^ 32 ≡ page_at idx) × (0 < page_at idx)
  address_fits idx g =
      let pool = pool_of-IsPool (in_user flags) v in
      (omega (arith, pool.fits, g.fits), omega (arith, pool.not_null))

  hand_out-Granted :
      (idx : ℕ) (b' : Bitmap)
      → idx < bitmap_error
      → Group (pool_of m (in_user flags)).used_map idx cnt false
      → Filled (pool_of m (in_user flags)).used_map idx cnt true b'
      → (hand_out flags cnt (pool_of m (in_user flags)).base idx (put_used_map m (in_user flags) b')
          ≡ some (page_at idx, after m flags cnt (page_at idx) b'))
        × Granted m flags cnt idx (page_at idx) (after m flags cnt (page_at idx) b')
  unfolding hand_out after
  hand_out-Granted idx b' small g f = (
    rw
        (
          ne→== idx bitmap_error (omega arith),
          (address_fits idx g).0,
          ne→== (page_at idx) 0 (omega (arith, (address_fits idx g).1)),
        )
        (elim (Bool-cases (has_flag flags pal_zero)) [ inl z ↦ rw z refl | inr nz ↦ rw nz refl ]),
    record {
      address = refl;
      was_free = g;
      taken =
          rw
            (
              pool_of-after m flags cnt (page_at idx) b' (in_user flags),
              pool_of-put m (in_user flags) b',
            )
            f;
      base_kept =
          rw
            (
              pool_of-after m flags cnt (page_at idx) b' (in_user flags),
              pool_of-put m (in_user flags) b',
            )
            refl;
      other_kept =
          rw (pool_of-after m flags cnt (page_at idx) b' (not (in_user flags)))
            (pool_of-put_other m (in_user flags) b');
      contents = bytes-after m flags cnt (page_at idx) b';
    },
  )

  hand_out-Refused :
      hand_out flags cnt (pool_of m (in_user flags)).base bitmap_error m
      ≡ (if has_flag flags pal_assert then none else some (0, m))
  unfolding hand_out
  hand_out-Refused = refl

  IsAnswer-hand_out :
      (idx : ℕ) (b' : Bitmap)
      → IsFlipped (pool_of m (in_user flags)).used_map 0 cnt false idx b'
      → has_flag flags pal_assert ≡ false
      → (r : ℕ) × (m' : Memory) × (hand_out flags cnt
            (pool_of m (in_user flags)).base
            idx
            (put_used_map m (in_user flags) b')
          ≡ some (r, m'))
        × IsAnswer m flags cnt r m'
  IsAnswer-hand_out idx b' (inl (e, missing), inl (_, same)) may_fail = (
    0,
    m,
    rw (e, same, put_used_map_self m (in_user flags), hand_out-Refused, may_fail) refl,
    inl (refl, record { full = λ i. missing i (omega arith); same = refl }),
  )
  IsAnswer-hand_out idx b' (inl (e, missing), inr (small, _)) may_fail = absurd (omega arith)
  IsAnswer-hand_out idx b' (inr found, inl (e, _)) may_fail = absurd (omega (arith, found.0))
  IsAnswer-hand_out idx b' (inr found, inr (small, f)) may_fail =
      let (e, granted) = hand_out-Granted idx b' small found.2 f in
      (
        page_at idx,
        after m flags cnt (page_at idx) b',
        e,
        inr (idx, (address_fits idx found.2).1, granted),
      )

  -- Without PAL_ASSERT `palloc_get_multiple` does not panic. It returns the address of `cnt` pages
  -- that were free and are now in use, all else unchanged but for the zeros that were asked for; or
  -- NULL with nothing changed, and then no `cnt` consecutive pages are free.
  pub get_multiple-IsAnswer :
      has_flag flags pal_assert ≡ false
      → (r : ℕ) × (m' : Memory) × (get_multiple flags cnt m ≡ some (r, m'))
        × IsAnswer m flags cnt r m'
  unfolding get_multiple
  get_multiple-IsAnswer may_fail =
      let map_valid = (pool_of-IsPool (in_user flags) v).map_valid in
      let (idx, b', e, turned) =
        scan_and_flip-IsFlipped 0 cnt false {b = (pool_of m (in_user flags)).used_map} map_valid
          (omega arith) in
      let (r, m', h, answer) = IsAnswer-hand_out idx b' turned may_fail in
      (r, m', rw (ne→== cnt 0 (omega arith), e) h, answer)

  -- With any flags it gives the pages, or it panics or returns NULL as PAL_ASSERT says.
  pub get_multiple-outcome :
      (get_multiple flags cnt m ≡ (if has_flag flags pal_assert then none else some (0, m)))
      ⊎ ((idx : ℕ) × (m' : Memory) × (get_multiple flags cnt m ≡ some (page_at idx, m'))
          × Granted m flags cnt idx (page_at idx) m')
  unfolding get_multiple
  get_multiple-outcome =
      let map_valid = (pool_of-IsPool (in_user flags) v).map_valid in
      let (idx, b', e, turned) =
        scan_and_flip-IsFlipped 0 cnt false {b = (pool_of m (in_user flags)).used_map} map_valid
          (omega arith) in
      elim turned.1 [
        | inl (error, same) ↦ inl (
            rw
              (
                ne→== cnt 0 (omega arith),
                e,
                error,
                same,
                put_used_map_self m (in_user flags),
                hand_out-Refused,
              )
              refl)
        | inr (small, f) ↦ elim turned.0 [
          | inl (error, missing) ↦ absurd (omega arith)
          | inr found ↦
              let (run, granted) = hand_out-Granted idx b' small found.2 f in
              inr (idx, _, rw (ne→== cnt 0 (omega arith), e) run, granted)
        ]
      ]
