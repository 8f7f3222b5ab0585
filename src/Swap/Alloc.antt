-- ===== src/Swap/Alloc.antt =====
-- alloc_swap_slot of vm/swap.c.
use tiny_os.Common.{
  ℕ, ◌+◌, ◌-◌, ◌%◌, ◌^◌, ◌≤◌, ◌<◌, ◌≡◌, ◌⊎◌, refl, true, false, not, ◌&&◌, List, [], ◌∷◌, ◌==◌, leb,
  ltb, leb→le, arith, none, some, Bool-cases, inl, inr,
}
use tiny_os.Swap.{FreeSwapSlot, sectors_per_frame, shrink, take_slot, alloc_swap_slot}
use tiny_os.Swap.Extents.{within, is_free, IsFreeList, wrap, lower, is_free-below}

-- No element has room for a frame.
abbrev pub NoRoom : List FreeSwapSlot → Type 0
NoRoom [] = Unit
NoRoom (f ∷ fs) = (f.size < sectors_per_frame) × NoRoom fs

-- The frame from `start` on was free, and is what the list `after` has lost.
pub record Taken (disk_size low : ℕ) (l : List FreeSwapSlot) (start : ℕ) (after : List FreeSwapSlot)
    : Type 0 where
  pub free_list : IsFreeList disk_size low after
  pub above : low ≤ start
  pub below : start + sectors_per_frame ≤ disk_size
  pub was_free : (x : ℕ) → within start sectors_per_frame x ≡ true → is_free l x ≡ true
  pub left : (x : ℕ) → is_free after x ≡ (is_free l x && not (within start sectors_per_frame x))

leb-lt : (n : ℕ) → leb sectors_per_frame n ≡ false → n < sectors_per_frame
leb-lt n h = ground arith

module _ (disk_size : ℕ) (small : disk_size < 2 ^ 32) where
  shrink-Taken :
      (low : ℕ) (f : FreeSwapSlot) (fs : List FreeSwapSlot)
      → IsFreeList disk_size low (f ∷ fs)
      → leb sectors_per_frame f.size ≡ true
      → Taken disk_size low (f ∷ fs) f.start (shrink f fs)
  shrink-Taken low f fs w room =
      let fits : sectors_per_frame ≤ f.size = leb→le sectors_per_frame f.size room in
      let end = w.2 in
      let first = w.0 in
      elim (Bool-cases (f.size == sectors_per_frame)) [
        | inl exact ↦ rw exact (record {
          free_list = lower disk_size (f.start + f.size + 1) low fs (omega arith) w.3;
          above = w.0;
          below = omega arith;
          was_free = λ x h. ground arith;
          left = λ x. elim (Bool-cases (ltb x (f.start + f.size))) [
            | inl inside ↦
                let out = is_free-below disk_size (f.start + f.size + 1) fs x w.3 (ground arith) in
                ground arith
            | inr outside ↦ ground arith
          ];
        })
        | inr more ↦
            let next = wrap (f.start + sectors_per_frame) (let e = w.2 in omega arith) in
            rw (more, next)
              (record {
                free_list = (
                  omega arith,
                  ground arith,
                  omega arith,
                  lower disk_size (f.start + f.size + 1)
                      (f.start + sectors_per_frame + (f.size - sectors_per_frame) + 1) fs
                      (omega arith) w.3,
                );
                above = w.0;
                below = omega arith;
                was_free = λ x h. ground arith;
                left = λ x. elim (Bool-cases (ltb x (f.start + f.size))) [
                  | inl inside ↦
                      let out =
                        is_free-below disk_size (f.start + f.size + 1) fs x w.3 (ground arith) in
                      ground arith
                  | inr outside ↦ ground arith
                ];
              })
      ]

  take_slot-Taken :
      (low : ℕ) (l : List FreeSwapSlot)
      → IsFreeList disk_size low l
      → ((take_slot l ≡ none) × NoRoom l)
        ⊎ ((start : ℕ) × (after : List FreeSwapSlot) × (take_slot l ≡ some (start, after))
            × Taken disk_size low l start after)
  unfolding take_slot
  take_slot-Taken low [] w = inl (refl, tt)
  take_slot-Taken low (f ∷ fs) w = elim (Bool-cases (leb sectors_per_frame f.size)) [
    | inl room ↦ inr (f.start, shrink f fs, rw room refl, shrink-Taken low f fs w room)
    | inr full ↦ elim (take_slot-Taken (f.start + f.size + 1) fs w.3) [
      | inl h ↦ let t = h.0 in inl (rw (full, t) refl, (leb-lt f.size full, h.1))
      | inr h ↦
          let t = h.2 in
          inr (
            h.0,
            f ∷ h.1,
            rw (full, t) refl,
            (let taken = h.3 in
                let end = w.2 in
                let first = w.0 in
                let lo = taken.above in
                record {
                  free_list = (w.0, w.1, w.2, taken.free_list);
                  above = omega arith;
                  below = taken.below;
                  was_free = λ x i. let free = taken.was_free x i in ground arith;
                  left = λ x. let rest = taken.left x in ground arith;
                }),
          )
    ]
  ]

  -- On a free list in order, on a disk of fewer than 2 ^ 32 - 1 sectors: either the start of a frame
  -- of free sectors is returned, and these and no others are no longer free; or no element has
  -- room for a frame, the list stays, and the number behind the end of the disk and one more
  -- is returned, which is the start of no frame. The list stays in order.
  pub alloc_swap_slot-Taken :
      (l : List FreeSwapSlot)
      → IsFreeList disk_size 0 l
      → (Taken disk_size 0 l (alloc_swap_slot disk_size l).0 (alloc_swap_slot disk_size l).1)
        ⊎ (NoRoom l
            × ((alloc_swap_slot disk_size l).1 ≡ l)
            × ((alloc_swap_slot disk_size l).0 ≡ (disk_size + 1) % 2 ^ 32))
  unfolding alloc_swap_slot
  alloc_swap_slot-Taken l w = elim (take_slot-Taken 0 l w) [
    | inl h ↦
        let t = h.0 in
        let e : alloc_swap_slot disk_size l ≡ ((disk_size + 1) % 2 ^ 32, l) =
          rw (alloc_swap_slot, t) refl in
        rw e (inr (h.1, refl, refl))
    | inr h ↦
        let t = h.2 in
        let e : alloc_swap_slot disk_size l ≡ (h.0, h.1) = rw (alloc_swap_slot, t) refl in
        rw e (inl h.3)
  ]
