-- ===== src/Swap/Free.antt =====
-- free_swap_slot of vm/swap.c.
use tiny_os.Common.{
  ℕ, ◌+◌, ◌%◌, ◌^◌, ◌≤◌, ◌<◌, ◌≡◌, ◌⊎◌, refl, true, false, ◌||◌, List, [], ◌∷◌, ◌==◌, leb, leb→le,
  ltb, arith, Bool-cases, inl, inr,
}
use tiny_os.Swap.{FreeSwapSlot, sectors_per_frame, split, merge_right, merge_left, free_swap_slot}
use tiny_os.Swap.Extents.{within, is_free, IsFreeList, wrap, lower}

abbrev frame : ℕ → FreeSwapSlot
frame start = record { start = start; size = sectors_per_frame }

-- No sector of the frame is free.
abbrev pub Unfree : ℕ → List FreeSwapSlot → Type 0
Unfree start l = (x : ℕ) → within start sectors_per_frame x ≡ true → is_free l x ≡ false

-- An element that holds no sector of the frame is before it or behind it.
disjoint :
    (start : ℕ) (f : FreeSwapSlot) (fs : List FreeSwapSlot)
    → 0 < f.size
    → Unfree start (f ∷ fs)
    → (start + sectors_per_frame ≤ f.start) ⊎ (f.start + f.size ≤ start)
disjoint start f fs some_sector out = elim (Bool-cases (leb (start + sectors_per_frame) f.start)) [
  | inl before ↦ inl (leb→le (start + sectors_per_frame) f.start before)
  | inr far ↦ elim (Bool-cases (leb (f.start + f.size) start)) [
    | inl behind ↦ inr (leb→le (f.start + f.size) start behind)
    | inr overlap ↦ elim (Bool-cases (leb start f.start)) [
      | inl at_f ↦ let h = out f.start (ground arith) in ground arith
      | inr at_s ↦ let h = out start (ground arith) in ground arith
    ]
  ]
]

-- The list in order that has the sectors of `l` and those of the frame.
pub record Given (disk_size low : ℕ) (start : ℕ) (l after : List FreeSwapSlot) : Type 0 where
  pub free_list : IsFreeList disk_size low after
  pub gained : (x : ℕ) → is_free after x ≡ (is_free l x || within start sectors_per_frame x)

module _ (disk_size : ℕ) (small : disk_size < 2 ^ 32) (start : ℕ)
    (inside : start + sectors_per_frame ≤ disk_size) where
  no_wrap : (start + sectors_per_frame) % 2 ^ 32 ≡ start + sectors_per_frame
  no_wrap = wrap (start + sectors_per_frame) (omega arith)

  -- The new element and the one on its right.
  abbrev right : List FreeSwapSlot → List FreeSwapSlot
  right l = (merge_right (frame start) l).0 ∷ (merge_right (frame start) l).1

  right-Given :
      (low : ℕ) (l : List FreeSwapSlot)
      → low ≤ start
      → IsFreeList disk_size (start + sectors_per_frame) l
      → Given disk_size low start l (right l)
  right-Given low [] h w = record {
    free_list = (h, omega arith, inside, tt);
    gained = λ x. ground arith;
  }
  right-Given low (f ∷ fs) h w = elim (Bool-cases (start + sectors_per_frame == f.start)) [
    | inl touch ↦
        let end = w.2 in
        let sum = wrap (sectors_per_frame + f.size) (ground arith) in
        let n = no_wrap in
        rw (n, touch, sum)
          (record {
            free_list = (
              h,
              omega arith,
              ground arith,
              lower disk_size (f.start + f.size + 1) (start + (sectors_per_frame + f.size) + 1) fs
                  (ground arith) w.3,
            );
            gained = λ x. ground arith;
          })
    | inr apart ↦
        let n = no_wrap in
        rw (n, apart)
          (record {
            free_list = (h, omega arith, inside, (ground (arith, w.0), w.1, w.2, w.3));
            gained = λ x. ground arith;
          })
  ]

  right_start : (l : List FreeSwapSlot) → (merge_right (frame start) l).0.start ≡ start
  right_start [] = refl
  right_start (f ∷ fs) = elim (Bool-cases ((start + sectors_per_frame) % 2 ^ 32 == f.start)) [
    | inl touch ↦ rw touch refl
    | inr apart ↦ rw apart refl
  ]

  left-Given :
      (low : ℕ) (f s : FreeSwapSlot) (l rest : List FreeSwapSlot)
      → IsFreeList disk_size low (f ∷ [])
      → f.start + f.size ≤ start
      → s.start ≡ start
      → Given disk_size start start l (s ∷ rest)
      → Given disk_size low start (f ∷ l) (merge_left (f ∷ []) s rest)
  left-Given low f s l rest w h at g =
      let n = wrap (f.start + f.size) (omega arith) in
      let v = g.free_list in
      let end = v.2 in
      elim (Bool-cases (s.start == f.start + f.size)) [
        | inl touch ↦
            let sum = wrap (f.size + s.size) (ground arith) in
            rw (n, touch, sum)
              (record {
                free_list = (
                  w.0,
                  ground (arith, v.1),
                  ground arith,
                  lower disk_size (s.start + s.size + 1) (f.start + (f.size + s.size) + 1) rest
                      (ground arith) v.3,
                );
                gained = λ x. let i = g.gained x in ground arith;
              })
        | inr apart ↦
            rw (n, apart)
              (record {
                free_list = (w.0, w.1, w.2, (ground arith, v.1, v.2, v.3));
                gained = λ x. let i = g.gained x in ground arith;
              })
      ]

  abbrev parts : List FreeSwapSlot → List FreeSwapSlot
  parts l =
      let p = split (frame start) l in
      let merged = merge_right (frame start) p.1 in merge_left p.0 merged.0 merged.1

  Unfree-tail :
      (f : FreeSwapSlot) (fs : List FreeSwapSlot) → Unfree start (f ∷ fs) → Unfree start fs
  Unfree-tail f fs out x h = let o = out x h in ground arith

  behind-Given :
      (low : ℕ) (f : FreeSwapSlot) (fs : List FreeSwapSlot)
      → IsFreeList disk_size low (f ∷ fs)
      → f.start + f.size ≤ start
      → Unfree start fs
      → (let p = split (frame start) fs in
          let merged = merge_right (frame start) p.1 in
          Given disk_size low start (f ∷ fs) (merge_left (f ∷ p.0) merged.0 merged.1))
  behind-Given low f [] w b out =
      left-Given low f (frame start) [] [] w b refl (right-Given start [] (omega arith) tt)
  behind-Given low f (g ∷ gs) w b out = elim (disjoint start g gs w.3.1 out) [
    | inl before ↦
        let less : ltb start g.start ≡ true = ground arith in
        rw less (
          left-Given low f (merge_right (frame start) (g ∷ gs)).0 (g ∷ gs)
            (merge_right (frame start) (g ∷ gs)).1 (w.0, w.1, w.2, tt) b (right_start (g ∷ gs))
            (right-Given start (g ∷ gs) (omega arith) (before, w.3.1, w.3.2, w.3.3)))
    | inr behind ↦
        let more : ltb start g.start ≡ false = (let p = w.3.1 in ground arith) in
        let r = behind-Given (f.start + f.size + 1) g gs w.3 behind (Unfree-tail g gs out) in
        rw more (record {
          free_list = (w.0, w.1, w.2, r.free_list);
          gained = λ x. let i = r.gained x in ground arith;
        })
  ]

  parts-Given :
      (low : ℕ) (l : List FreeSwapSlot)
      → low ≤ start
      → IsFreeList disk_size low l
      → Unfree start l
      → Given disk_size low start l (parts l)
  parts-Given low [] h w out = right-Given low [] h tt
  parts-Given low (f ∷ fs) h w out = elim (disjoint start f fs w.1 out) [
    | inl before ↦
        let less : ltb start f.start ≡ true = ground arith in
        rw less (right-Given low (f ∷ fs) h (before, w.1, w.2, w.3))
    | inr behind ↦
        let more : ltb start f.start ≡ false = (let p = w.1 in ground arith) in
        rw more (behind-Given low f fs w behind (Unfree-tail f fs out))
  ]

-- On a free list in order, of a disk of fewer than 2 ^ 32 sectors: giving back a frame inside the
-- disk of which no sector is free makes its sectors free and no others, and keeps the list in
-- order, with no two elements that touch.
pub free_swap_slot-Given :
    (disk_size start : ℕ) (l : List FreeSwapSlot)
    → disk_size < 2 ^ 32
    → start + sectors_per_frame ≤ disk_size
    → IsFreeList disk_size 0 l
    → Unfree start l
    → Given disk_size 0 start l (free_swap_slot start l)
unfolding free_swap_slot
free_swap_slot-Given disk_size start l small inside w out =
    parts-Given disk_size small start inside 0 l (omega arith) w out
