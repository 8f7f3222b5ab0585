-- ===== src/Palloc/Init.antt =====
-- palloc_init: two pools that lie apart, all of their pages free.
use tiny_os.Common.{
  ℕ, ◌+◌, ◌-◌, ◌*◌, ◌/◌, ◌%◌, ◌^◌, ◌≤◌, ◌<◌, ◌≡◌, refl, Bool, true, false, some, List, ltb, arith,
  length,
}
use tiny_os.Bitmap.{elem_cnt, buf_size, bit_on}
use tiny_os.Bitmap.Bits.{Words}
use tiny_os.Bitmap.Loops.{create_in_buf-Clear}
use tiny_os.Palloc.{pg_size, Pool, Memory, pool_of, init_pool, user_share, init}
use tiny_os.Palloc.Pages.{IsPool, IsMemory}

-- The pages at the front of a pool of `n` pages that hold its bitmap.
abbrev pub bitmap_pages : ℕ → ℕ
bitmap_pages n = (buf_size n + pg_size - 1) / pg_size

-- What `init_pool` makes of `n` pages from `base` on.
pub record Fresh (base n : ℕ) (p : Pool) : Type 0 where
  pub pool : IsPool p
  pub starts : p.base ≡ base + pg_size * bitmap_pages n
  pub ends : p.base + pg_size * p.used_map.bit_cnt ≡ base + pg_size * n
  pub free : (k : ℕ) → k < p.used_map.bit_cnt → bit_on p.used_map k ≡ false

-- Memory fit for a pool: page-aligned, within the address space, and with room for the bitmap.
pub record IsRoom (base n : ℕ) (old : List ℕ) : Type 0 where
  pub aligned : base % pg_size ≡ 0
  pub not_null : 0 < base
  pub fits : base + pg_size * n ≤ 2 ^ 32
  pub enough : bitmap_pages n ≤ n
  pub elements : elem_cnt n ≤ length old
  pub words : Words old

init_pool-Fresh :
    (base n : ℕ) (old : List ℕ)
    → IsRoom base n old
    → (p : Pool) × (init_pool base n old ≡ some p) × Fresh base n p
unfolding init_pool
init_pool-Fresh base n old v =
    let few : n < 2 ^ 20 + 1 = omega (arith, v.fits) in
    let (b, e, c) =
      create_in_buf-Clear (n - bitmap_pages n) old (bitmap_pages n * pg_size) (omega arith)
        (omega (arith, v.elements)) v.words (omega arith) in
    let no_panic : ltb n (bitmap_pages n) ≡ false = ground (arith, v.enough) in
    (
      record { used_map = b; base = base + bitmap_pages n * pg_size },
      rw (no_panic, e) refl,
      record {
        pool = record {
          map_valid = c.valid;
          aligned = omega (arith, v.aligned);
          not_null = omega (arith, v.not_null);
          fits = omega (arith, v.fits, v.enough, c.size);
        };
        starts = omega arith;
        ends = omega (arith, v.enough, c.size);
        free = λ k lt. c.off k (omega (arith, c.size));
      },
    )

both_free :
    (k u : Pool) (bytes : ℕ → ℕ)
    → ((i : ℕ) → i < k.used_map.bit_cnt → bit_on k.used_map i ≡ false)
    → ((i : ℕ) → i < u.used_map.bit_cnt → bit_on u.used_map i ≡ false)
    → (w : Bool) (i : ℕ)
    → i < (pool_of (record { kernel_pool = k; user_pool = u; bytes = bytes }) w).used_map.bit_cnt
    → bit_on (pool_of (record { kernel_pool = k; user_pool = u; bytes = bytes }) w).used_map i
      ≡ false
both_free k u bytes fk fu true = fu
both_free k u bytes fk fu false = fk

-- `palloc_init` does not panic when both pools have room for their bitmaps. The pools it makes are
-- well formed and lie apart, every page of them is free, and the user pool ends where the memory
-- that was divided ends.
pub init-IsMemory :
    (free_start free_end limit : ℕ) (old_kernel old_user : List ℕ) (bytes : ℕ → ℕ)
    → let pages = (free_end - free_start) / pg_size in
      let user_pages = user_share pages limit in
      IsRoom free_start (pages - user_pages) old_kernel
      → IsRoom (free_start + (pages - user_pages) * pg_size) user_pages old_user
      → (m : Memory) × (init free_start free_end limit old_kernel old_user bytes ≡ some m)
        × IsMemory m
        × ((u : Bool) (k : ℕ)
            → k < (pool_of m u).used_map.bit_cnt
            → bit_on (pool_of m u).used_map k ≡ false)
        × (m.user_pool.base + pg_size * m.user_pool.used_map.bit_cnt ≡ free_start + pg_size * pages)
unfolding init
init-IsMemory free_start free_end limit old_kernel old_user bytes kernel_room user_room =
    let (k, ek, fk) = init_pool-Fresh _ _ old_kernel kernel_room in
    let (u, eu, fu) = init_pool-Fresh _ _ old_user user_room in
    (
      record { kernel_pool = k; user_pool = u; bytes = bytes },
      rw (ek, eu) refl,
      record { kernel = fk.pool; user = fu.pool; apart = omega (arith, fk.ends, fu.starts) },
      both_free k u bytes fk.free fu.free,
      ground (arith, fu.ends),
    )
