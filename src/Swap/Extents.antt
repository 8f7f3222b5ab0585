-- ===== src/Swap/Extents.antt =====
-- Free lists of vm/swap.c that are in order, and the sectors that they hold.
use tiny_os.Common.{
  ℕ, ◌+◌, ◌%◌, ◌^◌, ◌≤◌, ◌<◌, ◌≡◌, refl, Bool, false, ◌&&◌, ◌||◌, List, [], ◌∷◌, leb, ltb, arith,
}
use tiny_os.Swap.{FreeSwapSlot}

-- The sector is one of the `n` from `start` on.
abbrev pub within : ℕ → ℕ → ℕ → Bool
within start n x = leb start x && ltb x (start + n)

-- The sector is free.
abbrev pub is_free : List FreeSwapSlot → ℕ → Bool
is_free [] x = false
is_free (f ∷ fs) x = within f.start f.size x || is_free fs x

-- The elements are not empty, lie between `low` and the end of the disk in rising order, and no two
-- touch.
abbrev pub IsFreeList : ℕ → ℕ → List FreeSwapSlot → Type 0
IsFreeList disk_size low [] = Unit
IsFreeList disk_size low (f ∷ fs) =
    (low ≤ f.start)
    × (0 < f.size)
    × (f.start + f.size ≤ disk_size)
    × IsFreeList disk_size (f.start + f.size + 1) fs

pub wrap : (n : ℕ) → n < 2 ^ 32 → n % 2 ^ 32 ≡ n
wrap n h = omega arith

module _ (disk_size : ℕ) where
  pub lower :
      (low low' : ℕ) (l : List FreeSwapSlot)
      → low' ≤ low
      → IsFreeList disk_size low l
      → IsFreeList disk_size low' l
  lower low low' [] h w = tt
  lower low low' (f ∷ fs) h w = (omega arith, w.1, w.2, w.3)

  -- Nothing below the first element is free.
  pub is_free-below :
      (low : ℕ) (l : List FreeSwapSlot) (x : ℕ)
      → IsFreeList disk_size low l
      → x < low
      → is_free l x ≡ false
  is_free-below low [] x w h = refl
  is_free-below low (f ∷ fs) x w h =
      let rest = is_free-below (f.start + f.size + 1) fs x w.3 (let a = w.0 in omega arith) in
      let a = w.0 in ground arith
