-- ===== src/Pagedir/Flags.antt =====
-- The accessed and the dirty bit of an entry in userprog/pagedir.c.
use tiny_os.Common.{
  ℕ, ◌+◌, ◌*◌, ◌%◌, ◌^◌, ◌≡◌, refl, sym, ap, ◌∙◌, Bool, true, false, Option, some, ◌==◌,
  if◌then◌else◌, arith, ==_refl,
}
use tiny_os.Common.Panic.{◌>>=◌}
use tiny_os.Pagedir.{
  Words, put_word, is_user_vaddr, ptov, pt_no, pd_no, is_present, page_address, pte_get_page,
  pagedir_get_page, pte_a, pte_d, has_flag, flagged, pagedir_is_dirty, pagedir_is_accessed,
  pagedir_set_accessed,
}
use tiny_os.Pagedir.Mapping.{IsPage, IsTable, looked_up, entry_there}

flagged-accessed :
    (w : ℕ) (on : Bool)
    → (has_flag pte_a (flagged pte_a on w) ≡ on)
      × (has_flag pte_d (flagged pte_a on w) ≡ has_flag pte_d w)
      × (is_present (flagged pte_a on w) ≡ is_present w)
      × (page_address (flagged pte_a on w) ≡ page_address w)
flagged-accessed w true = (ground arith, ground arith, ground arith, ground arith)
flagged-accessed w false = (ground arith, ground arith, ground arith, ground arith)

-- What pagedir_get_page gives, by the entry.
abbrev shown : ℕ → ℕ → Option ℕ
shown uaddr w =
    if is_present w
    then (ptov (page_address w) >>= λ kpage. some (kpage + uaddr % 2 ^ 12))
    else some 0

module _ (m : Words) (pd vpage pt : ℕ) (is_pd : IsPage pd) (user : is_user_vaddr vpage ≡ true)
    (t : IsTable (m (pd + 4 * pd_no vpage)) pt) (apart : (pt == pd) ≡ false) where
  some_pd : (pd == 0) ≡ false
  some_pd = let low = is_pd.0 in ground arith

  get_shown :
      (m2 : Words)
      → IsTable (m2 (pd + 4 * pd_no vpage)) pt
      → pagedir_get_page m2 pd vpage ≡ shown vpage (m2 (pt + 4 * pt_no vpage))
  unfolding pagedir_get_page pte_get_page
  get_shown m2 t2 =
      let n = entry_there m2 pd vpage pt some_pd user t2 in
      rw (user, looked_up m2 pd vpage pt some_pd user t2, n) refl

  put_word-IsTable :
      (w : ℕ) → IsTable (put_word m (pt + 4 * pt_no vpage) w (pd + 4 * pd_no vpage)) pt
  put_word-IsTable w =
      let pt_aligned = t.2.2 in
      let pd_aligned = is_pd.2 in
      let differ : (pd + 4 * pd_no vpage) == (pt + 4 * pt_no vpage) ≡ false = ground arith in
      rw differ t

  -- pagedir_set_accessed of a page that has a page table makes pagedir_is_accessed say what it was given, and changes
  -- neither what pagedir_is_dirty says nor what pagedir_get_page gives.
  pub pagedir_is_accessed-set_accessed :
      (accessed : Bool)
      → (m' : Words) × (pagedir_set_accessed m pd vpage accessed ≡ some m')
        × (pagedir_is_accessed m' pd vpage ≡ some accessed)
        × (pagedir_is_dirty m' pd vpage ≡ pagedir_is_dirty m pd vpage)
        × (pagedir_get_page m' pd vpage ≡ pagedir_get_page m pd vpage)
  unfolding pagedir_set_accessed pagedir_is_accessed pagedir_is_dirty
  pagedir_is_accessed-set_accessed accessed =
      let w = m (pt + 4 * pt_no vpage) in
      let f = flagged-accessed w accessed in
      let m' : Words = put_word m (pt + 4 * pt_no vpage) (flagged pte_a accessed w) in
      let t' = put_word-IsTable (flagged pte_a accessed w) in
      let n = entry_there m pd vpage pt some_pd user t in
      let here = ==_refl (pt + 4 * pt_no vpage) in
      let at : m' (pt + 4 * pt_no vpage) ≡ flagged pte_a accessed w = rw here refl in
      let found = looked_up m pd vpage pt some_pd user t in
      let found' = looked_up m' pd vpage pt some_pd user t' in
      (
        m',
        rw (found, n) refl,
        rw (found', n) (ap some (ap (has_flag pte_a) at ∙ f.0)),
        rw (found', found, n) (ap some (ap (has_flag pte_d) at ∙ f.1)),
        get_shown m' t' ∙ ap (shown vpage) at ∙ rw (f.2, f.3) refl ∙ sym (get_shown m t),
      )
