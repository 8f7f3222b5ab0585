-- ===== src/Pagedir/Tests.antt =====
-- The page at 0x08048000 is mapped in an empty directory, with a new page table.
use tiny_os.Common.{
  ℕ, ◌+◌, ◌-◌, ◌*◌, ◌%◌, ◌^◌, ◌≡◌, refl, true, false, some, ◌==◌, if◌then◌else◌, arith, inr,
}
use tiny_os.Pagedir.{
  Words, phys_base, pt_no, pd_no, put_word, zeroed, pagedir_set_page, pagedir_get_page,
  pagedir_set_accessed, pagedir_is_accessed, pagedir_is_dirty,
}
use tiny_os.Pagedir.Mapping.{Looked}
use tiny_os.Pagedir.Flags.{pagedir_is_accessed-set_accessed}
use tiny_os.Pagedir.RoundTrip.{pagedir_get_page-set_page}

abbrev no_words : Words
no_words a = 0

abbrev directory : ℕ
directory = 3222274048

abbrev new_table : ℕ
new_table = 3223322624

abbrev frame_page : ℕ
frame_page = 3225419776

abbrev text_page : ℕ
text_page = 134512640

abbrev with_table : Words
with_table =
    put_word (zeroed new_table no_words) (directory + 4 * pd_no text_page)
      (new_table - phys_base + 7)

looked : Looked new_table no_words directory text_page new_table with_table
looked = inr (refl, refl, (omega arith, omega arith, omega arith), refl)

pagedir_get_page-set_page_example :
    (m' : Words) × (pagedir_set_page new_table 0 4096 no_words directory text_page frame_page true
      ≡ some (true, (new_table + 4 * pt_no text_page, m')))
    × ((a : ℕ)
        → m' a ≡ (
            if a == new_table + 4 * pt_no text_page
            then m' (new_table + 4 * pt_no text_page)
            else with_table a))
    × ((o : ℕ)
        → pagedir_get_page m' directory (text_page + o % 2 ^ 12) ≡ some (frame_page + o % 2 ^ 12))
pagedir_get_page-set_page_example =
    pagedir_get_page-set_page new_table 0 4096 no_words directory text_page frame_page true
      new_table with_table looked (omega arith, omega arith, omega arith) refl refl
      (omega arith, omega arith, omega arith) (omega arith) refl refl refl

abbrev mapped_page : Words
mapped_page = put_word with_table (new_table + 4 * pt_no text_page) 4194407

pagedir_is_accessed-set_accessed_example :
    (m' : Words) × (pagedir_set_accessed mapped_page directory text_page false ≡ some m')
    × (pagedir_is_accessed m' directory text_page ≡ some false)
    × (pagedir_is_dirty m' directory text_page ≡ pagedir_is_dirty mapped_page directory text_page)
    × (pagedir_get_page m' directory text_page ≡ pagedir_get_page mapped_page directory text_page)
pagedir_is_accessed-set_accessed_example =
    pagedir_is_accessed-set_accessed mapped_page directory text_page new_table
      (omega arith, omega arith, omega arith) refl
      (refl, refl, (omega arith, omega arith, omega arith)) refl false
