-- ===== src/Frame/Replacement.antt =====
-- get_frame_for_replacement and ft_replacement of vm/frame.c.
use tiny_os.Common.{
  Option, ℕ, ◌+◌, ◌*◌, ◌≡◌, refl, sym, ap, subst, ◌∙◌, inl, inr, Bool, true, false, ◌&&◌, ◌||◌,
  none, some, List, [], ◌∷◌, ◌++◌, length, length-append, arith, Bool-cases,
}
use tiny_os.Common.Panic.{assert, ◌>>◌, ◌>>=◌}
use mathlib.Core.List.{append_assoc, append-nil}
use tiny_os.Frame.{
  Frame, Hand, at_head, at_frame, at_freed, FrameTable, frame_list, wrapped, scan_loop,
  check_and_set_hand, get_frame_for_replacement, any_frame, without, advanced, ft_replacement,
  is_frame, is_kept, tail_of,
}
use tiny_os.Frame.Clock.{
  table, order, NoneLoaded, Victim, scan_loop-Victim, FirstLoaded, find_loaded, next-table,
}

abbrev pub is_freed : Hand → Bool
is_freed at_head = false
is_freed at_frame = false
is_freed at_freed = true

abbrev pub is_loaded : Frame → Bool
is_loaded f = f.loaded

any_frame-append :
    (p : Frame → Bool) (xs ys : List Frame)
    → any_frame p (xs ++ ys) ≡ any_frame p xs || any_frame p ys
any_frame-append p [] ys = refl
any_frame-append p (x ∷ xs) ys =
    let ih = any_frame-append p xs ys in
    elim (Bool-cases (p x)) [ inl e ↦ rw e refl | inr e ↦ rw e ih ]

NoneLoaded-any : (xs : List Frame) → NoneLoaded xs → any_frame is_loaded xs ≡ false
NoneLoaded-any [] none_loaded = refl
NoneLoaded-any (x ∷ xs) none_loaded =
    ap (λ b. b || any_frame is_loaded xs) none_loaded.0 ∙ NoneLoaded-any xs none_loaded.1

loaded_first : (xs : List Frame) → any_frame is_loaded xs ≡ true → FirstLoaded xs
loaded_first xs some_loaded = elim (find_loaded xs) [
  | inl none_loaded ↦ absurd (let e = NoneLoaded-any xs none_loaded in ground arith)
  | inr r ↦ r
]

-- The table of a list that is not empty, once the hand is set.
or_swap : (a b : Bool) → a || b ≡ true → b || a ≡ true
or_swap a b e = ground arith

wrapped-table :
    (b a : List Frame)
    → any_frame is_loaded (b ++ a) ≡ true
    → (b' : List Frame) × (f : Frame) × (fs : List Frame) × (wrapped b a ≡ table b' f fs)
      × (length (f ∷ fs ++ b') ≡ length (b ++ a))
      × (any_frame is_loaded (f ∷ fs ++ b') ≡ true)
wrapped-table [] [] some_loaded = absurd (ground arith)
wrapped-table (x ∷ xs) [] some_loaded =
    ([], x, xs, refl, ap length (append-nil (x ∷ xs) ∙ sym (append-nil (x ∷ xs))), some_loaded)
wrapped-table b (f ∷ fs) some_loaded =
    let one = length-append b (f ∷ fs) in
    let two = length-append (f ∷ fs) b in
    let e = any_frame-append is_loaded b (f ∷ fs) in
    let e' = any_frame-append is_loaded (f ∷ fs) b in
    (
      b,
      f,
      fs,
      refl,
      omega arith,
      e'
          ∙ (let z = sym e ∙ some_loaded in
              or_swap (any_frame is_loaded b) (any_frame is_loaded (f ∷ fs)) z),
    )

abbrev rotated : List Frame → List Frame
rotated [] = []
rotated (f ∷ fs) = fs ++ (f ∷ [])

-- The hand leaves the frame that is removed, and the one behind it.
advanced-without :
    (b fs : List Frame) (g : Frame) (gs : List Frame)
    → fs ++ b ≡ g ∷ gs
    → (t : FrameTable) × (advanced (without b fs) ≡ some t)
      × (is_freed t.hand ≡ false)
      × (order t ≡ gs ++ (g ∷ []))
advanced-without [] [] g gs e = absurd (let k = ap length e in omega arith)
advanced-without (x ∷ xs) [] g gs e =
    let (b', f', fs', made, queue) = next-table [] x xs in
    (table b' f' fs', ap some made, refl, queue ∙ ap (λ l. rotated l) e)
advanced-without b (f ∷ fs) g gs e =
    let (b', f', fs', made, queue) = next-table b f fs in
    (
      table b' f' fs',
      ap some made,
      refl,
      queue ∙ sym (append_assoc fs b (f ∷ [])) ∙ ap (λ l. rotated l) e,
    )

append-empty : (xs ys : List Frame) → xs ++ ys ≡ [] → (xs ≡ []) × (ys ≡ [])
append-empty [] ys e = (refl, e)
append-empty (x ∷ xs) ys e = absurd (let k = ap length e in omega arith)

-- What ft_replacement comes to, once it has chosen a frame: none if an ASSERT fails; with no other frame in the list it
-- goes on from a frame that was freed; otherwise the hand is behind the frame that follows the one chosen.
abbrev pub Removed : Bool → Option (Frame × FrameTable) → Frame → List Frame → Type 0
Removed false r c rest = r ≡ none
Removed true r c [] = r ≡ none
Removed true r c (g ∷ gs) =
    (t : FrameTable) × (r ≡ some (c, t)) × (is_freed t.hand ≡ false) × (order t ≡ gs ++ (g ∷ []))

-- How a call goes on behind its ASSERTs, for a frame between others.
abbrev taken_out : Frame → List Frame → List Frame → Option (Frame × FrameTable)
taken_out c b fs = advanced (without b fs) >>= λ next. some (c, next)

asserts-Removed :
    (x y : Bool) (c : Frame) (b fs rest : List Frame)
    → fs ++ b ≡ rest
    → Removed (x && y) (assert x >> (assert y >> taken_out c b fs)) c rest
asserts-Removed false y c b fs rest r = refl
asserts-Removed true false c b fs rest r = refl
asserts-Removed true true c b fs [] r =
    let (no_fs, no_b) = append-empty fs b r in rw (no_fs, no_b) refl
asserts-Removed true true c b fs (g ∷ gs) r =
    let a = advanced-without b fs g gs r in
    (a.0, ap (λ o. o >>= λ next. some (c, next)) a.1, a.2, a.3)

module _ (ft : FrameTable) (ready : is_freed ft.hand ≡ false)
    (some_loaded : any_frame is_loaded (frame_list ft) ≡ true) where
  set_hand :
      (h : Hand) (b a : List Frame)
      → is_freed h ≡ false
      → check_and_set_hand (record { behind = b; ahead = a; hand = h }) ≡ wrapped b a
  set_hand at_head b a e = refl
  set_hand at_frame b a e = refl
  set_hand at_freed b a e = absurd (ground arith)

  -- get_frame_for_replacement ends if a frame is loaded and the hand is at no frame that was freed. With the frames taken in turn from the hand on, it
  -- chooses the first that is loaded and was not accessed, and clears the accessed bits of those before it; if all
  -- that are loaded were accessed, it clears all their bits and chooses the first that is loaded.
  -- The hand is left at the frame that it chooses.
  pub get_frame_for_replacement-Victim :
      (b : List Frame) × (f : Frame) × (fs : List Frame) × (check_and_set_hand ft ≡ table b f fs)
      × (c : Frame) × (b' fs' : List Frame) × (get_frame_for_replacement ft
          ≡ some (c, table b' c fs'))
      × Victim (f ∷ fs ++ b) c (fs' ++ b')
  unfolding get_frame_for_replacement
  get_frame_for_replacement-Victim =
      let w = wrapped-table ft.behind ft.ahead some_loaded in
      let e = set_hand ft.hand ft.behind ft.ahead ready ∙ w.3 in
      let v =
        scan_loop-Victim (2 * length (frame_list ft) + 1) w.0 w.1 w.2 (omega (arith, w.4))
          (loaded_first (w.1 ∷ w.2 ++ w.0) w.5) in
      (
        w.0,
        w.1,
        w.2,
        e,
        v.0,
        v.1,
        v.2,
        ap (λ t. scan_loop (2 * length (frame_list ft) + 1) t) e ∙ v.3,
        v.4,
      )

  -- If a frame is loaded and the hand is at no frame that was freed, ft_replacement ends its scan and chooses a
  -- frame as get_frame_for_replacement does. It stops at an ASSERT if the frame is none by is_frame, or if its page
  -- is dirty, is no page of a file and is given no swap slot. If not, and there is another frame in the
  -- list, it returns the one chosen and takes it out of the list; no frame besides is lost or gained,
  -- and the hand ends up behind the frame that follows the one chosen. If there is no other, the hand is
  -- left at the frame that is freed, from where it is advanced.
  pub ft_replacement-Removed :
      (is_file : Bool) (swap_slot : ℕ)
      → (b : List Frame) × (f : Frame) × (fs : List Frame) × (check_and_set_hand ft ≡ table b f fs)
        × (c : Frame) × (rest : List Frame) × Victim (f ∷ fs ++ b) c rest
        × Removed
            (is_frame c && is_kept is_file swap_slot c)
            (ft_replacement is_file swap_slot ft)
            c
            rest
  unfolding ft_replacement
  ft_replacement-Removed is_file swap_slot =
      let (b, f, fs, set, c, b', fs', run, victim) = get_frame_for_replacement-Victim in
      let goes_on : ft_replacement is_file swap_slot ft
          ≡ (assert (is_frame c) >> (assert (is_kept is_file swap_slot c) >> taken_out c b' fs')) =
        ap
          (λ o. o >>= λ r.
            assert (is_frame r.0)
            >> (assert (is_kept is_file swap_slot r.0)
                >> (advanced (without r.1.behind (tail_of r.1.ahead)) >>= λ next.
                    some (r.0, next))))
          run in
      (
        b,
        f,
        fs,
        set,
        c,
        fs' ++ b',
        victim,
        subst (λ r. Removed (is_frame c && is_kept is_file swap_slot c) r c (fs' ++ b'))
            (sym goes_on)
            (asserts-Removed (is_frame c) (is_kept is_file swap_slot c) c b' fs' (fs' ++ b') refl),
      )
