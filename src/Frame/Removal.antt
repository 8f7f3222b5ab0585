-- ===== src/Frame/Removal.antt =====
-- ft_free_page of vm/frame.c.
use tiny_os.Common.{
  ℕ, ◌≡◌, refl, sym, ap, ◌∙◌, Bool, true, false, not, ◌||◌, List, [], ◌∷◌, ◌++◌, length, leb, arith,
  Bool-cases, inl, inr,
}
use mathlib.Core.List.{append-nil}
use tiny_os.Frame.{
  Frame, Hand, at_head, at_frame, at_freed, FrameTable, frame_list, without, drop_first, any_frame,
  free_loop, has_page, ft_free_page,
}
use tiny_os.Frame.Replacement.{is_freed}

drop_first-inside :
    (p : Frame → Bool) (xs ys : List Frame)
    → any_frame p xs ≡ true
    → drop_first p (xs ++ ys) ≡ drop_first p xs ++ ys
drop_first-inside p [] ys e = absurd (ground arith)
drop_first-inside p (x ∷ xs) ys e = elim (Bool-cases (p x)) [
  | inl f ↦ rw f refl
  | inr f ↦
      let ih = drop_first-inside p xs ys (sym (ap (λ b. b || any_frame p xs) f) ∙ e) in
      rw f (ap (λ l. x ∷ l) ih)
]

drop_first-outside :
    (p : Frame → Bool) (xs ys : List Frame)
    → any_frame p xs ≡ false
    → drop_first p (xs ++ ys) ≡ xs ++ drop_first p ys
drop_first-outside p [] ys e = refl
drop_first-outside p (x ∷ xs) ys e = elim (Bool-cases (p x)) [
  | inl f ↦ absurd (ground arith)
  | inr f ↦
      let ih = drop_first-outside p xs ys (sym (ap (λ b. b || any_frame p xs) f) ∙ e) in
      rw f (ap (λ l. x ∷ l) ih)
]

without-list : (b fs : List Frame) → frame_list (without b fs) ≡ b ++ fs
without-list [] [] = refl
without-list (x ∷ xs) [] = sym (append-nil (x ∷ xs))
without-list b (f ∷ fs) = refl

-- The hand is at a frame that was freed only if it was so before, or if the list is empty.
abbrev pub StillSafe : Hand → FrameTable → Type 0
StillSafe h ft = (is_freed h || not (is_freed ft.hand) || leb (length (frame_list ft)) 0) ≡ true

without-StillSafe : (h : Hand) (b fs : List Frame) → StillSafe h (without b fs)
without-StillSafe at_head [] [] = refl
without-StillSafe at_frame [] [] = refl
without-StillSafe at_freed [] [] = refl
without-StillSafe h (x ∷ xs) [] = ground arith
without-StillSafe h b (f ∷ fs) = ground arith

safe_same : (h : Hand) (x : Bool) → (is_freed h || not (is_freed h) || x) ≡ true
safe_same at_head x = refl
safe_same at_frame x = refl
safe_same at_freed x = refl

abbrev Dropped : (Frame → Bool) → FrameTable → FrameTable → Type 0
Dropped p ft ft' = (frame_list ft' ≡ drop_first p (frame_list ft)) × StillSafe ft.hand ft'

free_outside :
    (p : Frame → Bool) (b a : List Frame) (h : Hand)
    → any_frame p b ≡ false
    → Dropped p
        (record { behind = b; ahead = a; hand = h })
        (free_loop p (record { behind = b; ahead = a; hand = h }))
unfolding free_loop
free_outside p b a at_head e = rw e (sym (drop_first-outside p b a e), refl)
free_outside p b a at_freed e = rw e (sym (drop_first-outside p b a e), refl)
free_outside p b [] at_frame e = rw e (sym (drop_first-outside p b [] e), refl)
free_outside p b (f ∷ fs) at_frame e =
    let d = drop_first-outside p b (f ∷ fs) e in
    elim (Bool-cases (p f)) [
      | inl q ↦ rw (e, q) (without-list b fs ∙ sym (d ∙ rw q refl), without-StillSafe at_frame b fs)
      | inr q ↦ rw (e, q) (sym (d ∙ rw q refl), refl)
    ]

free_loop-Dropped : (p : Frame → Bool) (ft : FrameTable) → Dropped p ft (free_loop p ft)
unfolding free_loop
free_loop-Dropped p ft = elim (Bool-cases (any_frame p ft.behind)) [
  | inl e ↦ rw e (sym (drop_first-inside p ft.behind ft.ahead e), safe_same ft.hand _)
  | inr e ↦ free_outside p ft.behind ft.ahead ft.hand e
]

-- ft_free_page by a thread removes the first frame of the list that has the page and is the thread's, if there is one,
-- and no other; the frames left keep their order. The hand is at a frame that was freed
-- only if it was so before, or if no frame is left.
pub ft_free_page-drops :
    (current page : ℕ) (ft : FrameTable)
    → (frame_list (ft_free_page current page ft)
        ≡ drop_first (has_page page current) (frame_list ft))
      × StillSafe ft.hand (ft_free_page current page ft)
ft_free_page-drops current page ft = free_loop-Dropped (has_page page current) ft
