-- ===== src/Palloc.antt =====
-- threads/palloc.c: pages handed out of two pools, each with a bitmap of the pages in use. A pointer
-- is a number, 0 is NULL. Each call is one step: `palloc_get_multiple` holds the pool's lock while it
-- reads and writes the bitmap.
pub mod Init
pub mod Pages
pub mod RoundTrip
mod Tests
use tiny_os.Common.{
  ℕ, ◌+◌, ◌-◌, ◌*◌, ◌/◌, ◌%◌, ◌^◌, bit_and, Bool, true, false, not, ◌&&◌, ◌||◌, Option, none, some,
  List, leb, ltb, ◌==◌, if◌then◌else◌,
}
use tiny_os.Common.Panic.{◌>>=◌, ◌>>◌, assert}
use tiny_os.Bitmap
use tiny_os.Bitmap.{Bitmap, bitmap_error}

abbrev pub pg_size : ℕ
pg_size = 2 ^ 12

-- enum palloc_flags
abbrev pub pal_assert : ℕ
pal_assert = 1

abbrev pub pal_zero : ℕ
pal_zero = 2

abbrev pub pal_user : ℕ
pal_user = 4

-- `flags & flag` as a test.
abbrev pub has_flag : ℕ → ℕ → Bool
has_flag flags flag = not (bit_and flags flag == 0)

abbrev pub pg_ofs : ℕ → ℕ
pg_ofs va = va % pg_size

abbrev pub pg_no : ℕ → ℕ
pg_no va = va / pg_size

pub record Pool : Type 0 where
  pub used_map : Bitmap
  pub base : ℕ

-- The pools, and the bytes of memory by address.
pub record Memory : Type 0 where
  pub kernel_pool : Pool
  pub user_pool : Pool
  pub bytes : ℕ → ℕ

unfoldable pub memset : (ℕ → ℕ) → ℕ → ℕ → ℕ → ℕ → ℕ
memset bytes dst value size a = if leb dst a && ltb a (dst + size) then value else bytes a

abbrev pub pool_of : Memory → Bool → Pool
pool_of m true = m.user_pool
pool_of m false = m.kernel_pool

abbrev pub put_used_map : Memory → Bool → Bitmap → Memory
put_used_map m true b = record m { user_pool = record (m.user_pool) { used_map = b } }
put_used_map m false b = record m { kernel_pool = record (m.kernel_pool) { used_map = b } }

-- What follows the scan: a page address and the zeros that were asked for, or NULL or a panic.
hand_out : ℕ → ℕ → ℕ → ℕ → Memory → Option (ℕ × Memory)
hand_out flags page_cnt base page_idx m =
    let pages = if page_idx == bitmap_error then 0 else (base + pg_size * page_idx) % 2 ^ 32 in
    if pages == 0
    then if has_flag flags pal_assert then none else some (0, m)
    else if has_flag flags pal_zero
    then some (pages, record m { bytes = memset m.bytes pages 0 (pg_size * page_cnt) })
    else some (pages, m)

pub get_multiple : ℕ → ℕ → Memory → Option (ℕ × Memory)
unfolding hand_out
get_multiple flags page_cnt m =
    let user = has_flag flags pal_user in
    if page_cnt == 0 then some (0, m) else do
      (page_idx, used) ← Bitmap.scan_and_flip (pool_of m user).used_map 0 page_cnt false
      hand_out flags page_cnt (pool_of m user).base page_idx (put_used_map m user used)

pub get_page : ℕ → Memory → Option (ℕ × Memory)
get_page flags m = get_multiple flags 1 m

pub page_from_pool : Pool → ℕ → Bool
page_from_pool p page =
    leb (pg_no p.base) (pg_no page) && ltb (pg_no page) (pg_no p.base + p.used_map.bit_cnt)

-- The pool that a page is in, if it is in one: true for the user pool.
find_pool : Memory → ℕ → Option Bool
unfolding page_from_pool
find_pool m page =
    if page_from_pool m.kernel_pool page
    then some false
    else if page_from_pool m.user_pool page
    then some true
    else none

pub free_multiple : ℕ → ℕ → Memory → Option Memory
unfolding find_pool
free_multiple pages page_cnt m = do
  assert (pg_ofs pages == 0)
  if pages == 0 || page_cnt == 0 then some m else do
    user ← find_pool m pages
    let page_idx = pg_no pages - pg_no (pool_of m user).base
    all_used ← Bitmap.all (pool_of m user).used_map page_idx page_cnt
    assert all_used
    used ← Bitmap.set_multiple (pool_of m user).used_map page_idx page_cnt false
    some (
        put_used_map (record m { bytes = memset m.bytes pages 0xcc (pg_size * page_cnt) }) user
          used)

pub free_page : ℕ → Memory → Option Memory
free_page page m = free_multiple page 1 m

-- Pages taken from the front of a pool for its bitmap. The arguments are the pool's first address,
-- its pages, and what the memory of the bitmap's elements held.
pub init_pool : ℕ → ℕ → List ℕ → Option Pool
init_pool base page_cnt old =
    let bm_pages = (Bitmap.buf_size page_cnt + pg_size - 1) / pg_size in
    if ltb page_cnt bm_pages then none else do
      used ← Bitmap.create_in_buf (page_cnt - bm_pages) old (bm_pages * pg_size)
      some (record { used_map = used; base = base + bm_pages * pg_size })

-- The user pool's share of the free pages: half of them, up to `user_page_limit`.
abbrev pub user_share : ℕ → ℕ → ℕ
user_share free_pages user_page_limit =
    if ltb user_page_limit (free_pages / 2) then user_page_limit else free_pages / 2

-- The kernel pool takes what the user pool leaves. `free_start` is the first page behind the kernel,
-- `free_end` the end of memory; the two lists are what the memory of the bitmaps held.
pub init : ℕ → ℕ → ℕ → List ℕ → List ℕ → (ℕ → ℕ) → Option Memory
unfolding init_pool
init free_start free_end user_page_limit old_kernel old_user bytes = do
  let free_pages = (free_end - free_start) / pg_size
  let user_pages = user_share free_pages user_page_limit
  let kernel_pages = free_pages - user_pages
  kernel ← init_pool free_start kernel_pages old_kernel
  user ← init_pool (free_start + kernel_pages * pg_size) user_pages old_user
  some (record { kernel_pool = kernel; user_pool = user; bytes = bytes })
