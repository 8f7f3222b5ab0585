-- ===== src/Swap/RoundTrip.antt =====
-- A frame of swap space that is taken and given back.
use tiny_os.Common.{
  ℕ, ◌+◌, ◌^◌, ◌≤◌, ◌<◌, ◌≡◌, ◌≢◌, ◌∙◌, sym, refl, ap, true, false, List, [], ◌∷◌, leb, ltb, arith,
  Bool-cases, inl, inr,
}
use tiny_os.Swap.{FreeSwapSlot, alloc_swap_slot, free_swap_slot}
use tiny_os.Swap.Extents.{is_free, IsFreeList, lower, wrap, is_free-below}
use tiny_os.Swap.Alloc.{alloc_swap_slot-Taken}
use tiny_os.Swap.Free.{free_swap_slot-Given}

slot_eq : (f g : FreeSwapSlot) → f.start ≡ g.start → f.size ≡ g.size → f ≡ g
slot_eq f g p q = λ i. record { start = p i; size = q i }

module _ (disk_size : ℕ) where
  start_le :
      (low : ℕ) (f g : FreeSwapSlot) (fs gs : List FreeSwapSlot)
      → 0 < f.size
      → IsFreeList disk_size low (g ∷ gs)
      → ((x : ℕ) → is_free (f ∷ fs) x ≡ is_free (g ∷ gs) x)
      → g.start ≤ f.start
  start_le low f g fs gs some_sector v e = elim (Bool-cases (leb g.start f.start)) [
    | inl le ↦ ground arith
    | inr less ↦
        let here = e f.start in
        let out =
          is_free-below disk_size g.start (g ∷ gs) f.start (omega arith, v.1, v.2, v.3)
            (ground arith) in
        ground arith
  ]

  size_le :
      (f g : FreeSwapSlot) (fs gs : List FreeSwapSlot)
      → f.start ≡ g.start
      → IsFreeList disk_size (f.start + f.size + 1) fs
      → ((x : ℕ) → is_free (f ∷ fs) x ≡ is_free (g ∷ gs) x)
      → g.size ≤ f.size
  size_le f g fs gs same v e = elim (Bool-cases (leb g.size f.size)) [
    | inl le ↦ ground arith
    | inr less ↦
        let here = e (f.start + f.size) in
        let out =
          is_free-below disk_size (f.start + f.size + 1) fs (f.start + f.size) v (omega arith) in
        ground arith
  ]

  same_tails :
      (f g : FreeSwapSlot) (fs gs : List FreeSwapSlot)
      → IsFreeList disk_size (f.start + f.size + 1) fs
      → IsFreeList disk_size (f.start + f.size + 1) gs
      → f.start ≡ g.start
      → f.size ≡ g.size
      → ((x : ℕ) → is_free (f ∷ fs) x ≡ is_free (g ∷ gs) x)
      → (x : ℕ) → is_free fs x ≡ is_free gs x
  same_tails f g fs gs w v p q e x = elim (Bool-cases (ltb x (f.start + f.size + 1))) [
    | inl low ↦
        let a = is_free-below disk_size (f.start + f.size + 1) fs x w (ground arith) in
        let b = is_free-below disk_size (f.start + f.size + 1) gs x v (ground arith) in a ∙ sym b
    | inr high ↦ let h = e x in ground arith
  ]

  -- A free list in order is known by the sectors that are free.
  pub free_list_unique :
      (low : ℕ) (l r : List FreeSwapSlot)
      → IsFreeList disk_size low l
      → IsFreeList disk_size low r
      → ((x : ℕ) → is_free l x ≡ is_free r x)
      → l ≡ r
  free_list_unique low [] [] w v e = refl
  free_list_unique low [] (g ∷ gs) w v e =
      let p = v.1 in
      let full : is_free (g ∷ gs) g.start ≡ true = ground arith in
      let h : false ≡ true = e g.start ∙ full in cc
  free_list_unique low (f ∷ fs) [] w v e =
      let p = w.1 in
      let full : is_free (f ∷ fs) f.start ≡ true = ground arith in
      let h : false ≡ true = sym (e f.start) ∙ full in cc
  free_list_unique low (f ∷ fs) (g ∷ gs) w v e =
      let ge = start_le low f g fs gs w.1 v e in
      let le = start_le low g f gs fs v.1 w (λ x. sym (e x)) in
      let same : f.start ≡ g.start = omega arith in
      let sge = size_le f g fs gs same w.3 e in
      let sle = size_le g f gs fs (sym same) v.3 (λ x. sym (e x)) in
      let same_size : f.size ≡ g.size = omega arith in
      let tail =
        lower disk_size (g.start + g.size + 1) (f.start + f.size + 1) gs (omega arith) v.3 in
      let rest =
        free_list_unique (f.start + f.size + 1) fs gs w.3 tail
          (same_tails f g fs gs w.3 tail same same_size e) in
      ap (λ h. h ∷ fs) (slot_eq f g same same_size) ∙ ap (λ t. g ∷ t) rest

-- On a free list in order, of a disk of fewer than 2 ^ 32 - 1 sectors: when alloc_swap_slot does not
-- report that there is no room, giving back the frame that it returned restores the list.
pub free-alloc :
    (disk_size : ℕ) (l : List FreeSwapSlot)
    → disk_size + 1 < 2 ^ 32
    → IsFreeList disk_size 0 l
    → (alloc_swap_slot disk_size l).0 ≢ disk_size + 1
    → free_swap_slot (alloc_swap_slot disk_size l).0 (alloc_swap_slot disk_size l).1 ≡ l
free-alloc disk_size l small w room = elim (alloc_swap_slot-Taken disk_size (omega arith) l w) [
  | inl t ↦
      let g =
        free_swap_slot-Given disk_size (alloc_swap_slot disk_size l).0
          (alloc_swap_slot disk_size l).1 (omega arith) t.below t.free_list
          (λ x h. let left = t.left x in ground arith) in
      free_list_unique disk_size 0
        (free_swap_slot (alloc_swap_slot disk_size l).0 (alloc_swap_slot disk_size l).1) l
        g.free_list w
        (λ x. let a = g.gained x in let b = t.left x in let was = t.was_free x in ground arith)
  | inr h ↦ elim (room (h.2 ∙ wrap (disk_size + 1) small)) [ ]
]
