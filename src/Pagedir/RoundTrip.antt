-- ===== src/Pagedir/RoundTrip.antt =====
-- pagedir_set_page, pagedir_get_page and pagedir_clear_page of userprog/pagedir.c in a row.
use tiny_os.Common.{
  ℕ, ◌+◌, ◌-◌, ◌*◌, ◌/◌, ◌%◌, ◌^◌, ◌<◌, ◌≡◌, refl, sym, ap, subst, ◌∙◌, Bool, true, false, some,
  ◌==◌, leb, ltb, if◌then◌else◌, arith, Bool-cases, inl, inr, ==_refl,
}
use tiny_os.Pagedir.{
  Words, put_word, phys_base, is_user_vaddr, pt_no, pd_no, is_present, page_address,
  pte_create_kernel, pte_create_user, pagedir_set_page, pagedir_get_page, pagedir_clear_page,
}
use tiny_os.Pagedir.Mapping.{
  IsPage, IsTable, Looked, Looked-IsTable, lookup_page-Looked, looked_up, entry_there, get_present,
  get_absent,
}

-- An entry for a page.
abbrev entry_for : ℕ → Bool → ℕ
entry_for kpage writable = kpage - phys_base + 1 + (if writable then 2 else 0) + 4

entry_for-page :
    (kpage : ℕ) (writable : Bool)
    → IsPage kpage
    → (is_present (entry_for kpage writable) ≡ true)
      × (page_address (entry_for kpage writable) + phys_base ≡ kpage)
entry_for-page kpage true (low, high, aligned) = (ground arith, ground arith)
entry_for-page kpage false (low, high, aligned) = (ground arith, ground arith)

pte_create_user-page :
    (kpage : ℕ) (writable : Bool)
    → IsPage kpage
    → pte_create_user kpage writable ≡ some (entry_for kpage writable)
unfolding pte_create_user pte_create_kernel
pte_create_user-page kpage writable (low, high, aligned) =
    let a : kpage % 2 ^ 12 == 0 ≡ true = ground arith in
    let b : leb phys_base kpage ≡ true = ground arith in rw (a, b) refl

-- The addresses of a page have the same entry.
same_entry :
    (upage o : ℕ)
    → upage % 2 ^ 12 ≡ 0
    → (pd_no (upage + o % 2 ^ 12) ≡ pd_no upage)
      × (pt_no (upage + o % 2 ^ 12) ≡ pt_no upage)
      × ((upage + o % 2 ^ 12) % 2 ^ 12 ≡ o % 2 ^ 12)
same_entry upage o aligned = (omega arith, omega arith, omega arith)

module _ (page base_page_dir ram_pages : ℕ) (m : Words) (pd upage kpage : ℕ) (writable : Bool)
    (pt : ℕ) (m1 : Words) (l : Looked page m pd upage pt m1) (is_pd : IsPage pd)
    (apart : (pt == pd) ≡ false) (other : (pd == base_page_dir) ≡ false) (is_kpage : IsPage kpage)
    (in_ram : (kpage - phys_base) / 2 ^ 12 < ram_pages) (aligned : upage % 2 ^ 12 ≡ 0)
    (user : is_user_vaddr upage ≡ true) where
  abbrev slot : ℕ
  slot = pt + 4 * pt_no upage

  -- Memory once the entry of the page has a value.
  abbrev with_entry : ℕ → Words
  with_entry w = put_word m1 slot w

  some_pd : (pd == 0) ≡ false
  some_pd = let low = is_pd.0 in ground arith

  with_entry-IsTable : (w o : ℕ) → IsTable (with_entry w (pd + 4 * pd_no (upage + o % 2 ^ 12))) pt
  with_entry-IsTable w o =
      let t = Looked-IsTable page m pd upage pt m1 some_pd user l in
      let (same_pd, same_pt, offset) = same_entry upage o aligned in
      let pt_aligned = t.2.2 in
      let pd_aligned = is_pd.2 in
      let below : upage < phys_base = ground arith in
      let differ : (pd + 4 * pd_no upage) == slot ≡ false = ground arith in
      subst (λ (v : ℕ). IsTable v pt)
        (sym (
          ap (λ (k : ℕ). with_entry w (pd + 4 * k)) same_pd
          ∙ ap (λ (b : Bool). if b then w else m1 (pd + 4 * pd_no upage)) differ))
        t

  entry_at : (w o : ℕ) → with_entry w (pt + 4 * pt_no (upage + o % 2 ^ 12)) ≡ w
  entry_at w o =
      let (same_pd, same_pt, offset) = same_entry upage o aligned in
      let here = ==_refl slot in ap (λ (k : ℕ). with_entry w (pt + 4 * k)) same_pt ∙ rw here refl

  user_inside : (o : ℕ) → is_user_vaddr (upage + o % 2 ^ 12) ≡ true
  user_inside o = let below : upage < phys_base = ground arith in ground arith

  abbrev mapped : Words
  mapped = with_entry (entry_for kpage writable)

  set_run :
      is_present (m1 slot) ≡ false
      → pagedir_set_page page base_page_dir ram_pages m pd upage kpage writable
        ≡ some (true, (slot, mapped))
  unfolding pagedir_set_page
  set_run absent =
      let run = lookup_page-Looked page m pd upage pt m1 some_pd user l in
      let e = pte_create_user-page kpage writable is_kpage in
      let low = is_kpage.0 in
      let al = is_kpage.2 in
      let a : upage % 2 ^ 12 == 0 ≡ true = ground arith in
      let b : kpage % 2 ^ 12 == 0 ≡ true = ground arith in
      let c : leb phys_base kpage ≡ true = ground arith in
      let r : ltb ((kpage - phys_base) / 2 ^ 12) ram_pages ≡ true = ground arith in
      let t = Looked-IsTable page m pd upage pt m1 some_pd user l in
      let pt_low = t.2.0 in
      let n : slot == 0 ≡ false = ground arith in
      rw (a, b, user, c, r, other, run, n, absent, e) refl

  -- pagedir_set_page maps a user page that is not mapped, in a directory that has the page table for it or is given a
  -- new one. It changes no word of memory but the entry, and those of the new page table and its own entry;
  -- pagedir_get_page then gives the kernel address for each address in the page.
  pub pagedir_get_page-set_page :
      is_present (m1 slot) ≡ false
      → (m' : Words) × (pagedir_set_page page base_page_dir ram_pages m pd upage kpage writable
          ≡ some (true, (pt + 4 * pt_no upage, m')))
        × ((a : ℕ) → m' a ≡ (if a == pt + 4 * pt_no upage then m' (pt + 4 * pt_no upage) else m1 a))
        × ((o : ℕ) → pagedir_get_page m' pd (upage + o % 2 ^ 12) ≡ some (kpage + o % 2 ^ 12))
  pagedir_get_page-set_page absent =
      let here = ==_refl slot in
      (
        mapped,
        set_run absent,
        λ k. rw here refl,
        λ o.
            let (present, address) = entry_for-page kpage writable is_kpage in
            let w = entry_at (entry_for kpage writable) o in
            let (same_pd, same_pt, offset) = same_entry upage o aligned in
            get_present mapped pd (upage + o % 2 ^ 12) pt some_pd (user_inside o)
              (with_entry-IsTable (entry_for kpage writable) o) kpage is_kpage
              (ap is_present w ∙ present) (ap (λ (k : ℕ). page_address k + phys_base) w ∙ address)
            ∙ ap (λ k. some (kpage + k)) offset,
      )

  -- After pagedir_set_page, pagedir_clear_page takes the mapping away: pagedir_get_page then gives a null pointer for
  -- each address in the page. The entry loses its lowest bit and keeps the others, and no other word changes.
  pub pagedir_clear_page-set_page :
      is_present (m1 slot) ≡ false
      → (m' m'' : Words) × (pagedir_set_page page base_page_dir ram_pages m pd upage kpage writable
          ≡ some (true, (pt + 4 * pt_no upage, m')))
        × (pagedir_clear_page m' pd upage ≡ some m'')
        × ((a : ℕ) → m'' a ≡ (if a == pt + 4 * pt_no upage then m' a - 1 else m' a))
        × ((o : ℕ) → pagedir_get_page m'' pd (upage + o % 2 ^ 12) ≡ some 0)
  unfolding pagedir_clear_page
  pagedir_clear_page-set_page absent =
      let v = entry_for kpage writable in
      let s = pagedir_get_page-set_page absent in
      let (present, address) = entry_for-page kpage writable is_kpage in
      let zero_offset : upage + 0 % 2 ^ 12 ≡ upage = omega arith in
      let t =
        subst (λ (u : ℕ). IsTable (mapped (pd + 4 * pd_no u)) pt) zero_offset
          (with_entry-IsTable v 0) in
      let a : upage % 2 ^ 12 == 0 ≡ true = ground arith in
      let found = looked_up mapped pd upage pt some_pd user t in
      let n = entry_there mapped pd upage pt some_pd user t in
      let here = ==_refl slot in
      let at : mapped slot ≡ v = rw here refl in
      let p : is_present (mapped slot) ≡ true = ap is_present at ∙ present in
      let overwritten : (k : ℕ) → put_word mapped slot (mapped slot - 1) k ≡ with_entry (v - 1) k =
        λ k. elim (Bool-cases (k == slot)) [ inl e ↦ rw (e, here) refl | inr e ↦ rw e refl ] in
      let even : is_present (v - 1) ≡ false = ground arith in
      (
        mapped,
        with_entry (v - 1),
        set_run absent,
        rw (a, user, found, n, p) (ap some (λ i k. overwritten k i)),
        λ k. elim (Bool-cases (k == slot)) [ inl e ↦ rw e refl | inr e ↦ rw e refl ],
        λ o.
            get_absent (with_entry (v - 1)) pd (upage + o % 2 ^ 12) pt some_pd (user_inside o)
              (with_entry-IsTable (v - 1) o) (ap is_present (entry_at (v - 1) o) ∙ even),
      )
