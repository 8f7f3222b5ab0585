-- ===== src/Swap.antt =====
-- vm/swap.c: the free list of swap space. A list is the sequence of its elements, in order; a
-- call has the lock from its start to its end. `disk_size` is the number of sectors of the swap
-- disk, and malloc always succeeds, as the source takes it to.
pub mod Free
pub mod RoundTrip
mod Tests
pub mod Extents
pub mod Alloc
use tiny_os.Common.{
  ℕ, ◌+◌, ◌-◌, ◌%◌, ◌^◌, Bool, List, [], ◌∷◌, ◌==◌, leb, ltb, if◌then◌else◌, Option, none, some,
}

-- The number of sectors in each frame.
abbrev pub sectors_per_frame : ℕ
sectors_per_frame = 8

pub record FreeSwapSlot : Type 0 where
  pub start : ℕ
  pub size : ℕ

abbrev pub swap_slot_less : FreeSwapSlot → FreeSwapSlot → Bool
swap_slot_less a b = ltb a.start b.start

pub init : ℕ → List FreeSwapSlot
init disk_size = record { start = 0; size = disk_size } ∷ []

-- The slot without its first frame; an element of exactly one frame is removed.
abbrev pub shrink : FreeSwapSlot → List FreeSwapSlot → List FreeSwapSlot
shrink f rest =
    if f.size == sectors_per_frame
    then rest
    else record {
      start = (f.start + sectors_per_frame) % 2 ^ 32;
      size = f.size - sectors_per_frame;
    }
      ∷ rest

-- The search for the first element that has room, and the start that is taken from it.
abbrev pub behind : FreeSwapSlot → Option (ℕ × List FreeSwapSlot) → Option (ℕ × List FreeSwapSlot)
behind f none = none
behind f (some r) = some (r.0, f ∷ r.1)

pub take_slot : List FreeSwapSlot → Option (ℕ × List FreeSwapSlot)
take_slot [] = none
take_slot (f ∷ fs) =
    let rest = take_slot fs in
    if leb sectors_per_frame f.size then some (f.start, shrink f fs) else behind f rest

-- The sector behind the disk's end, and one more, says that there is no room.
pub alloc_swap_slot : ℕ → List FreeSwapSlot → ℕ × List FreeSwapSlot
alloc_swap_slot disk_size l = elim (take_slot l) [
  | none ↦ ((disk_size + 1) % 2 ^ 32, l)
  | some r ↦ r
]

-- list_insert_ordered: what stands before the new element, and what behind it.
abbrev pub split : FreeSwapSlot → List FreeSwapSlot → List FreeSwapSlot × List FreeSwapSlot
split s [] = ([], [])
split s (f ∷ fs) =
    let rest = split s fs in if swap_slot_less s f then ([], f ∷ fs) else (f ∷ rest.0, rest.1)

-- The new element, with the one on its right if they touch, and what is behind.
abbrev pub merge_right : FreeSwapSlot → List FreeSwapSlot → FreeSwapSlot × List FreeSwapSlot
merge_right s [] = (s, [])
merge_right s (f ∷ fs) =
    if (s.start + s.size) % 2 ^ 32 == f.start
    then (record s { size = (s.size + f.size) % 2 ^ 32 }, fs)
    else (s, f ∷ fs)

-- The whole list, the new element with the one on its left if they touch.
abbrev pub merge_left : List FreeSwapSlot → FreeSwapSlot → List FreeSwapSlot → List FreeSwapSlot
merge_left [] s after = s ∷ after
merge_left (f ∷ []) s after =
    if s.start == (f.start + f.size) % 2 ^ 32
    then record f { size = (f.size + s.size) % 2 ^ 32 } ∷ after
    else f ∷ s ∷ after
merge_left (f ∷ g ∷ fs) s after = f ∷ merge_left (g ∷ fs) s after

pub free_swap_slot : ℕ → List FreeSwapSlot → List FreeSwapSlot
free_swap_slot start l =
    let s : FreeSwapSlot = record { start = start; size = sectors_per_frame } in
    let parts = split s l in
    let merged = merge_right s parts.1 in merge_left parts.0 merged.0 merged.1
