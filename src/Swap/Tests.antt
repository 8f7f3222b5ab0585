-- ===== src/Swap/Tests.antt =====
-- Runs of vm/swap.c on a disk of 64 sectors, of which 0 to 7 and 16 to 39 are free.
use tiny_os.Common.{◌≡◌, refl, List, [], ◌∷◌, arith}
use tiny_os.Swap.{FreeSwapSlot, take_slot, alloc_swap_slot, free_swap_slot}
use tiny_os.Swap.Extents.{IsFreeList}
use tiny_os.Swap.Free.{Unfree}
use tiny_os.Swap.RoundTrip.{free-alloc}

abbrev two_holes : List FreeSwapSlot
two_holes = record { start = 0; size = 8 } ∷ record { start = 16; size = 24 } ∷ []

two_holes-IsFreeList : IsFreeList 64 0 two_holes
two_holes-IsFreeList =
    (omega arith, omega arith, omega arith, (omega arith, omega arith, omega arith, tt))

alloc_two_holes : (alloc_swap_slot 64 two_holes).0 ≡ 0
unfolding alloc_swap_slot take_slot
alloc_two_holes = refl

-- The frame at 8 fills the hole between the two elements.
Unfree-two_holes : Unfree 8 two_holes
Unfree-two_holes x h = ground arith

free_two_holes : free_swap_slot 8 two_holes ≡ record { start = 0; size = 40 } ∷ []
unfolding free_swap_slot
free_two_holes = refl

free-alloc_example :
    free_swap_slot (alloc_swap_slot 64 two_holes).0 (alloc_swap_slot 64 two_holes).1 ≡ two_holes
free-alloc_example =
    free-alloc 64 two_holes (omega arith) two_holes-IsFreeList
      (λ e. let z = alloc_two_holes in ground arith)
