-- ===== src/Pagedir.antt =====
-- userprog/pagedir.c and threads/pte.h: page directories and page tables in memory, which is a function from the
-- addresses of its words. `none` is a failed ASSERT, 0 a null pointer. The TLB is not modelled.

pub mod Mapping
pub mod RoundTrip
pub mod Flags
mod Tests
use tiny_os.Common.{
  ℕ, ◌+◌, ◌-◌, ◌*◌, ◌/◌, ◌%◌, ◌^◌, Bool, true, false, not, ◌&&◌, ◌||◌, Option, none, some, ◌==◌,
  leb, ltb, if◌then◌else◌,
}
use tiny_os.Common.Panic.{assert, ◌>>=◌, ◌>>◌}

abbrev pub Words : Type 0
Words = ℕ → ℕ

abbrev pub put_word : Words → ℕ → ℕ → Words
put_word m a w b = if b == a then w else m b

abbrev pub phys_base : ℕ
phys_base = 3221225472

abbrev pub is_user_vaddr : ℕ → Bool
is_user_vaddr vaddr = ltb vaddr phys_base

abbrev pub ptov : ℕ → Option ℕ
ptov paddr = assert (ltb paddr phys_base) >> some ((paddr + phys_base) % 2 ^ 32)

abbrev pub vtop : ℕ → Option ℕ
vtop vaddr = assert (leb phys_base vaddr) >> some (vaddr - phys_base)

abbrev pub pt_no : ℕ → ℕ
pt_no va = va / 2 ^ 12 % 2 ^ 10

abbrev pub pd_no : ℕ → ℕ
pd_no va = va / 2 ^ 22

-- `w & PTE_P` as a test, and `w & PTE_ADDR`.
abbrev pub is_present : ℕ → Bool
is_present w = w % 2 == 1

abbrev pub page_address : ℕ → ℕ
page_address w = w - w % 2 ^ 12

-- The flags are bits that the address of a page does not have, so `|` is a sum.
unfoldable pub pde_create : ℕ → Option ℕ
pde_create pt = do assert (pt % 2 ^ 12 == 0); p ← vtop pt; some (p + 7)

unfoldable pub pde_get_pt : ℕ → Option ℕ
pde_get_pt pde = assert (is_present pde) >> ptov (page_address pde)

unfoldable pub pte_create_kernel : ℕ → Bool → Option ℕ
pte_create_kernel page writable = do
  assert (page % 2 ^ 12 == 0)
  p ← vtop page
  some (p + 1 + (if writable then 2 else 0))

unfoldable pub pte_create_user : ℕ → Bool → Option ℕ
pte_create_user page writable = pte_create_kernel page writable >>= λ pte. some (pte + 4)

unfoldable pub pte_get_page : ℕ → Option ℕ
pte_get_page pte = ptov (page_address pte)

-- A page that palloc_get_page zeroed.
abbrev pub zeroed : ℕ → Words → Words
zeroed page m a = if leb page a && ltb a (page + 2 ^ 12) then 0 else m a

-- The entry for a page table that there is.
unfoldable pub table_entry : Words → ℕ → ℕ → Option (ℕ × Words)
table_entry m pd vaddr =
    pde_get_pt (m (pd + 4 * pd_no vaddr)) >>= λ pt. some (pt + 4 * pt_no vaddr, m)

-- `page` is what palloc_get_page returns, if it is called.
unfoldable pub lookup_page : ℕ → Words → ℕ → ℕ → Bool → Option (ℕ × Words)
lookup_page page m pd vaddr create = do
  assert (not (pd == 0))
  assert (not create || is_user_vaddr vaddr)
  let made = pde_create page >>= λ pde.
      table_entry (put_word (zeroed page m) (pd + 4 * pd_no vaddr) pde) pd vaddr
  if not (m (pd + 4 * pd_no vaddr) == 0)
      then table_entry m pd vaddr
      else if not create || page == 0
      then some (0, m)
      else made

-- Whether the page was mapped, its entry, which becomes that of the frame, and memory.
unfoldable pub pagedir_set_page : ℕ → ℕ → ℕ → Words → ℕ → ℕ → ℕ → Bool → Option (Bool × (ℕ × Words))
pagedir_set_page page base_page_dir ram_pages m pd upage kpage writable = do
  assert (upage % 2 ^ 12 == 0)
  assert (kpage % 2 ^ 12 == 0)
  assert (is_user_vaddr upage)
  p ← vtop kpage
  assert (ltb (p / 2 ^ 12) ram_pages)
  assert (not (pd == base_page_dir))
  r ← lookup_page page m pd upage true
  let set =
      assert (not (is_present (r.1 r.0)))
      >> (pte_create_user kpage writable >>= λ pte. some (true, (r.0, put_word r.1 r.0 pte)))
  if not (r.0 == 0) then set else some (false, (r.0, r.1))

unfoldable pub pagedir_get_page : Words → ℕ → ℕ → Option ℕ
pagedir_get_page m pd uaddr = do
  assert (is_user_vaddr uaddr)
  r ← lookup_page 0 m pd uaddr false
  let page = pte_get_page (m r.0) >>= λ kpage. some (kpage + uaddr % 2 ^ 12)
  if not (r.0 == 0) && is_present (m r.0) then page else some 0

unfoldable pub pagedir_clear_page : Words → ℕ → ℕ → Option Words
pagedir_clear_page m pd upage = do
  assert (upage % 2 ^ 12 == 0)
  assert (is_user_vaddr upage)
  r ← lookup_page 0 m pd upage false
  if not (r.0 == 0) && is_present (m r.0) then some (put_word m r.0 (m r.0 - 1)) else some m

-- install_page in the directory of the running thread.
pub install_page : ℕ → ℕ → ℕ → Words → ℕ → ℕ → ℕ → Bool → Option (Bool × Words)
install_page page base_page_dir ram_pages m pd upage kpage writable =
    let set = pagedir_set_page page base_page_dir ram_pages m pd upage kpage writable >>= λ r.
    some (r.0, r.1.1) in
    pagedir_get_page m pd upage >>= λ there. if not (there == 0) then some (false, m) else set

abbrev pub pte_a : ℕ
pte_a = 32

abbrev pub pte_d : ℕ
pte_d = 64

-- `w & flag` as a test, and `w | flag` or `w & ~flag`, for a flag of one bit.
abbrev pub has_flag : ℕ → ℕ → Bool
has_flag flag w = w / flag % 2 == 1

abbrev pub flagged : ℕ → Bool → ℕ → ℕ
flagged flag on w =
    if on then (if has_flag flag w then w else w + flag) else w - flag * (w / flag % 2)

unfoldable pub pagedir_is_dirty : Words → ℕ → ℕ → Option Bool
pagedir_is_dirty m pd vpage =
    lookup_page 0 m pd vpage false >>= λ r. some (not (r.0 == 0) && has_flag pte_d (m r.0))

unfoldable pub pagedir_set_dirty : Words → ℕ → ℕ → Bool → Option Words
pagedir_set_dirty m pd vpage dirty = lookup_page 0 m pd vpage false >>= λ r.
    some (if not (r.0 == 0) then put_word m r.0 (flagged pte_d dirty (m r.0)) else m)

unfoldable pub pagedir_is_accessed : Words → ℕ → ℕ → Option Bool
pagedir_is_accessed m pd vpage =
    lookup_page 0 m pd vpage false >>= λ r. some (not (r.0 == 0) && has_flag pte_a (m r.0))

unfoldable pub pagedir_set_accessed : Words → ℕ → ℕ → Bool → Option Words
pagedir_set_accessed m pd vpage accessed = lookup_page 0 m pd vpage false >>= λ r.
    some (if not (r.0 == 0) then put_word m r.0 (flagged pte_a accessed (m r.0)) else m)
