-- ===== src/Palloc/Tests.antt =====
-- Runs of palloc.c on two small pools.
use tiny_os.Common.{ℕ, zero, suc, ◌≡◌, refl, Bool, true, false, some, [], ◌∷◌, arith}
use tiny_os.Bitmap.{bit_on, scan_and_flip, set_multiple, scan, contains, mark, test, bit_mask, set}
use tiny_os.Bitmap.Loops.{Every}
use tiny_os.Palloc.{Memory, pool_of, get_multiple, free_multiple}
use tiny_os.Palloc.Pages.{IsMemory, IsAnswer, get_multiple-IsAnswer}
use tiny_os.Palloc.RoundTrip.{in_use, free-get}

-- Eight kernel pages, of which the first three are in use, and four user pages.
abbrev small : Memory
small = record {
  kernel_pool = record { used_map = record { bit_cnt = 8; bits = 7 ∷ [] }; base = 0xc0100000 };
  user_pool = record { used_map = record { bit_cnt = 4; bits = 0 ∷ [] }; base = 0xc0108000 };
  bytes = λ a. 0;
}

small-IsMemory : IsMemory small
small-IsMemory = omega arith

-- The same after two kernel pages were handed out.
abbrev after_two : Memory
after_two = record small {
  kernel_pool = record { used_map = record { bit_cnt = 8; bits = 31 ∷ [] }; base = 0xc0100000 };
}

get_two : get_multiple 0 2 small ≡ some (0xc0103000, after_two)
unfolding get_multiple scan_and_flip scan contains test bit_on bit_mask set_multiple set mark
get_two = refl

get_multiple-IsAnswer_example :
    (r : ℕ) × (m' : Memory) × (get_multiple 0 2 small ≡ some (r, m')) × IsAnswer small 0 2 r m'
get_multiple-IsAnswer_example = get_multiple-IsAnswer 0 2 small-IsMemory (omega arith) refl

free-get_example :
    (m'' : Memory) × (free_multiple 0xc0103000 2 after_two ≡ some m'')
    × ((u : Bool) (k : ℕ) → in_use m'' u k ≡ in_use small u k)
free-get_example = free-get 0 2 0xc0103000 small-IsMemory (omega arith) get_two (omega arith)

first_used : Every (pool_of small false).used_map 0 3 true
unfolding bit_on bit_mask
first_used zero p q = refl
first_used (suc zero) p q = refl
first_used (suc (suc zero)) p q = refl
first_used (suc (suc (suc j))) p q = absurd (omega arith)

fourth_free : bit_on (pool_of small false).used_map 3 ≡ false
unfolding bit_on bit_mask
fourth_free = refl
