-- ===== src/Pagedir/Mapping.antt =====
-- A page that userprog/pagedir.c maps.
use tiny_os.Common.{
  ℕ, ◌+◌, ◌-◌, ◌*◌, ◌%◌, ◌^◌, ◌≤◌, ◌<◌, ◌≡◌, ◌⊎◌, refl, sym, ap, ◌∙◌, true, false, some, ◌==◌, leb,
  ltb, arith, inl, inr, ==_refl,
}
use tiny_os.Pagedir.{
  Words, put_word, phys_base, is_user_vaddr, pt_no, pd_no, is_present, page_address, pde_create,
  pde_get_pt, pte_get_page, zeroed, table_entry, lookup_page, pagedir_get_page,
}

-- The address of a page in the kernel's space.
abbrev pub IsPage : ℕ → Type 0
IsPage a = (phys_base ≤ a) × (a < 2 ^ 32) × (a % 2 ^ 12 ≡ 0)

-- The word of a directory is for the page table at `pt`.
abbrev pub IsTable : ℕ → ℕ → Type 0
IsTable w pt = (w % 2 ≡ 1) × (page_address w + phys_base ≡ pt) × IsPage pt

table_entry-at :
    (m : Words) (pd vaddr pt : ℕ)
    → IsTable (m (pd + 4 * pd_no vaddr)) pt
    → table_entry m pd vaddr ≡ some (pt + 4 * pt_no vaddr, m)
unfolding table_entry pde_get_pt
table_entry-at m pd vaddr pt t =
    let w = m (pd + 4 * pd_no vaddr) in
    let (odd, address, (low, high, aligned)) = t in
    let p : is_present w ≡ true = ground arith in
    let l : ltb (page_address w) phys_base ≡ true = ground arith in
    let k : (page_address w + phys_base) % 2 ^ 32 ≡ pt = omega arith in rw (p, l, k) refl

-- The page table of an address, which is there or is made of `page`, and memory then.
abbrev pub Looked : ℕ → Words → ℕ → ℕ → ℕ → Words → Type 0
Looked page m pd vaddr pt m1 =
    (IsTable (m (pd + 4 * pd_no vaddr)) pt × (m1 ≡ m))
    ⊎ ((m (pd + 4 * pd_no vaddr) ≡ 0)
        × (pt ≡ page)
        × IsPage page
        × (m1 ≡ put_word (zeroed page m) (pd + 4 * pd_no vaddr) (page - phys_base + 7)))

module _ (page : ℕ) (m : Words) (pd vaddr pt : ℕ) (m1 : Words) (some_pd : (pd == 0) ≡ false)
    (user : is_user_vaddr vaddr ≡ true) where
  pub Looked-IsTable : Looked page m pd vaddr pt m1 → IsTable (m1 (pd + 4 * pd_no vaddr)) pt
  Looked-IsTable (inl (t, same)) = rw same t
  Looked-IsTable (inr (clear, made, (low, high, aligned), same)) =
      let at = ap (λ (x : Words). x (pd + 4 * pd_no vaddr)) same in
      let here = ==_refl (pd + 4 * pd_no vaddr) in
      let w : m1 (pd + 4 * pd_no vaddr) ≡ page - phys_base + 7 = at ∙ rw here refl in
      rw (w, made) (omega arith, omega arith, (low, high, aligned))

  pub lookup_page-Looked :
      Looked page m pd vaddr pt m1
      → lookup_page page m pd vaddr true ≡ some (pt + 4 * pt_no vaddr, m1)
  unfolding lookup_page pde_create
  lookup_page-Looked (inl (t, same)) =
      let e = table_entry-at m pd vaddr pt t in
      let z : m (pd + 4 * pd_no vaddr) == 0 ≡ false = let odd = t.0 in ground arith in
      rw (some_pd, user, z, e, same) refl
  lookup_page-Looked (inr (clear, made, (low, high, aligned), same)) =
      let e =
        table_entry-at m1 pd vaddr pt
          (Looked-IsTable (inr (clear, made, (low, high, aligned), same))) in
      let z : m (pd + 4 * pd_no vaddr) == 0 ≡ true = ground arith in
      let n : page == 0 ≡ false = ground arith in
      let q : page % 2 ^ 12 == 0 ≡ true = ground arith in
      let b : leb phys_base page ≡ true = ground arith in
      let e' : table_entry (put_word (zeroed page m) (pd + 4 * pd_no vaddr) (page - phys_base + 7))
            pd vaddr
          ≡ some (pt + 4 * pt_no vaddr, m1) =
        ap (λ (x : Words). table_entry x pd vaddr) (sym same) ∙ e in
      rw (some_pd, user, z, n, q, b) e'

-- What pagedir_get_page gives for an address whose page table is at `pt`, by its entry.
module _ (m : Words) (pd uaddr pt : ℕ) (some_pd : (pd == 0) ≡ false)
    (user : is_user_vaddr uaddr ≡ true) (t : IsTable (m (pd + 4 * pd_no uaddr)) pt) where
  pub looked_up : lookup_page 0 m pd uaddr false ≡ some (pt + 4 * pt_no uaddr, m)
  unfolding lookup_page
  looked_up =
      let e = table_entry-at m pd uaddr pt t in
      let z : m (pd + 4 * pd_no uaddr) == 0 ≡ false = let odd = t.0 in ground arith in
      rw (some_pd, z, e) refl

  pub entry_there : (pt + 4 * pt_no uaddr) == 0 ≡ false
  entry_there = let low = t.2.0 in ground arith

  pub get_present :
      (kpage : ℕ)
      → IsPage kpage
      → is_present (m (pt + 4 * pt_no uaddr)) ≡ true
      → page_address (m (pt + 4 * pt_no uaddr)) + phys_base ≡ kpage
      → pagedir_get_page m pd uaddr ≡ some (kpage + uaddr % 2 ^ 12)
  unfolding pagedir_get_page pte_get_page
  get_present kpage (low, high, aligned) present address =
      let n = entry_there in
      let l : ltb (page_address (m (pt + 4 * pt_no uaddr))) phys_base ≡ true = ground arith in
      let k : (page_address (m (pt + 4 * pt_no uaddr)) + phys_base) % 2 ^ 32 ≡ kpage =
        omega arith in
      rw (user, looked_up, n, present, l, k) refl

  pub get_absent :
      is_present (m (pt + 4 * pt_no uaddr)) ≡ false → pagedir_get_page m pd uaddr ≡ some 0
  unfolding pagedir_get_page
  get_absent absent = let n = entry_there in rw (user, looked_up, n, absent) refl
