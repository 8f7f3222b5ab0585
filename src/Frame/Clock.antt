-- ===== src/Frame/Clock.antt =====
-- The second-chance scan of vm/frame.c, as a queue whose first frame is the one at the hand.
use tiny_os.Common.{
  ℕ, suc, ◌+◌, ◌-◌, ◌*◌, ◌/◌, ◌%◌, ◌<◌, ◌≡◌, refl, sym, ap, ◌∙◌, ◌⊎◌, inl, inr, Bool, true, false,
  not, ◌&&◌, ◌||◌, some, List, [], ◌∷◌, ◌++◌, ◌==◌, if◌then◌else◌, length, length-append, arith,
  Bool-cases,
}
use mathlib.Core.List.{append_assoc, append-nil, map}
use tiny_os.Frame.{
  Frame, at_frame, FrameTable, is_accessed, clear_accessed, wrapped, check_and_set_hand, passed,
  is_passed, scan_loop,
}

-- The table with the hand at a frame, and its frames from the hand on.
abbrev pub table : List Frame → Frame → List Frame → FrameTable
table behind f fs = record { behind = behind; ahead = f ∷ fs; hand = at_frame }

abbrev pub order : FrameTable → List Frame
order ft = ft.ahead ++ ft.behind

abbrev pub AllPassed : List Frame → Type 0
AllPassed [] = Unit {0}
AllPassed (f ∷ fs) = (is_passed f ≡ true) × AllPassed fs

-- The table that the scan goes on with behind a frame that it passes.
pub next-table :
    (b : List Frame) (g : Frame) (fs : List Frame)
    → (b' : List Frame) × (f' : Frame) × (fs' : List Frame) × (wrapped (b ++ (g ∷ [])) fs
        ≡ table b' f' fs')
      × (f' ∷ fs' ++ b' ≡ fs ++ (b ++ (g ∷ [])))
next-table [] g [] = ([], g, [], refl, refl)
next-table (x ∷ xs) g [] = ([], x, xs ++ (g ∷ []), refl, append-nil (x ∷ xs ++ (g ∷ [])))
next-table b g (f ∷ fs) = (b ++ (g ∷ []), f, fs, refl, refl)

head_or : Frame → List Frame → Frame
head_or d [] = d
head_or d (f ∷ fs) = f

abbrev tail_or : List Frame → List Frame
tail_or [] = []
tail_or (f ∷ fs) = fs

abbrev pub NoneLoaded : List Frame → Type 0
NoneLoaded [] = Unit {0}
NoneLoaded (f ∷ fs) = (f.loaded ≡ false) × NoneLoaded fs

-- The scan comes past the frames that have no chance to be chosen.
abbrev Past : List Frame → List Frame → List Frame → Frame → List Frame → Type 0
Past xs ys b f fs =
    (b' : List Frame) × (f' : Frame) × (fs' : List Frame) × ((m : ℕ)
      → scan_loop (length xs + m) (table b f fs) ≡ scan_loop m (table b' f' fs'))
    × (f' ∷ fs' ++ b' ≡ ys ++ map passed xs)

scan_loop-Past :
    (xs ys b : List Frame) (f : Frame) (fs : List Frame)
    → f ∷ fs ++ b ≡ xs ++ ys
    → AllPassed xs
    → Past xs ys b f fs
unfolding scan_loop head_or
scan_loop-Past [] ys b f fs e all =
    (b, f, fs, λ m. let z : 0 + m ≡ m = omega arith in rw z refl, e ∙ sym (append-nil ys))
scan_loop-Past (x ∷ xs) ys b f fs e all =
    let first : f ≡ x = ap (head_or f) e in
    let others : fs ++ b ≡ xs ++ ys = ap tail_or e in
    let p : is_passed f ≡ true = ap is_passed first ∙ all.0 in
    let (b1, f1, fs1, made, queue) = next-table b (passed f) fs in
    let ih =
      scan_loop-Past xs (ys ++ (passed x ∷ [])) b1 f1 fs1
        (queue
          ∙ sym (append_assoc fs b (passed f ∷ []))
          ∙ ap (λ l. l ++ (passed f ∷ [])) others
          ∙ append_assoc xs ys (passed f ∷ [])
          ∙ ap (λ (g : Frame). xs ++ (ys ++ (passed g ∷ []))) first)
        all.1 in
    (
      ih.0,
      ih.1,
      ih.2,
      λ m.
          let n : suc (length xs) + m ≡ suc (length xs + m) = omega arith in
          ap (λ n. scan_loop n (table b f fs)) n
          ∙ ap
              (λ (x : Bool).
                if x
                then scan_loop (length xs + m) (wrapped (b ++ (passed f ∷ [])) fs)
                else some (f, table b f fs))
              p
          ∙ ap (λ t. scan_loop (length xs + m) t) made
          ∙ ih.3 m,
      ih.4 ∙ append_assoc ys (passed x ∷ []) (map passed xs),
    )

-- It stops at the first frame that is loaded and was not accessed.
scan_loop-stops :
    (xs : List Frame) (c : Frame) (ys b : List Frame) (f : Frame) (fs : List Frame) (m : ℕ)
    → f ∷ fs ++ b ≡ xs ++ (c ∷ ys)
    → AllPassed xs
    → is_passed c ≡ false
    → (b' fs' : List Frame) × (scan_loop (length xs + suc m) (table b f fs)
        ≡ some (c, table b' c fs'))
      × (fs' ++ b' ≡ ys ++ map passed xs)
unfolding scan_loop head_or
scan_loop-stops xs c ys b f fs m e all chosen =
    let (b1, f1, fs1, run, queue) = scan_loop-Past xs (c ∷ ys) b f fs e all in
    let first : f1 ≡ c = ap (head_or f1) queue in
    let stop : is_passed f1 ≡ false = ap is_passed first ∙ chosen in
    let rest = scan_loop m (
      check_and_set_hand
        (record { behind = b1 ++ (passed f1 ∷ []); ahead = fs1; hand = at_frame })) in
    (
      b1,
      fs1,
      run (suc m)
          ∙ ap (λ (x : Bool). if x then rest else some (f1, table b1 f1 fs1)) stop
          ∙ ap (λ (g : Frame). some (g, table b1 g fs1)) first,
      ap tail_or queue,
    )

-- A queue without a frame to choose, or with a first one.
abbrev FirstUnpassed : List Frame → Type 0
FirstUnpassed l =
    (xs : List Frame) × (c : Frame) × (ys : List Frame) × (l ≡ xs ++ (c ∷ ys))
    × AllPassed xs
    × (is_passed c ≡ false)

find_unpassed : (l : List Frame) → AllPassed l ⊎ FirstUnpassed l
find_unpassed [] = inl tt
find_unpassed (f ∷ fs) = elim (Bool-cases (is_passed f)) [
  | inl e ↦ elim (find_unpassed fs) [
    | inl all ↦ inl (e, all)
    | inr r ↦ inr (f ∷ r.0, r.1, r.2, ap (λ l. f ∷ l) r.3, (e, r.4), r.5)
  ]
  | inr e ↦ inr ([], f, fs, refl, tt, e)
]

abbrev pub FirstLoaded : List Frame → Type 0
FirstLoaded l =
    (xs : List Frame) × (c : Frame) × (ys : List Frame) × (l ≡ xs ++ (c ∷ ys))
    × NoneLoaded xs
    × (c.loaded ≡ true)

pub find_loaded : (l : List Frame) → NoneLoaded l ⊎ FirstLoaded l
find_loaded [] = inl tt
find_loaded (f ∷ fs) = elim (Bool-cases f.loaded) [
  | inl e ↦ inr ([], f, fs, refl, tt, e)
  | inr e ↦ elim (find_loaded fs) [
    | inl all ↦ inl (e, all)
    | inr r ↦ inr (f ∷ r.0, r.1, r.2, ap (λ l. f ∷ l) r.3, (e, r.4), r.5)
  ]
]

-- A frame that is not loaded is passed as it is; one that is has its bit cleared.
NoneLoaded-passed : (xs : List Frame) → NoneLoaded xs → AllPassed xs × (map passed xs ≡ xs)
NoneLoaded-passed [] none_loaded = (tt, refl)
NoneLoaded-passed (f ∷ fs) none_loaded =
    let (all, same) = NoneLoaded-passed fs none_loaded.1 in
    let p : is_passed f ≡ true = ap (λ (b : Bool). b && is_accessed f.pte || not b) none_loaded.0 in
    let q : passed f ≡ f =
      ap (λ (b : Bool). if b then record f { pte = clear_accessed f.pte } else f) none_loaded.0 in
    ((p, all), ap (λ g. g ∷ map passed fs) q ∙ ap (λ l. f ∷ l) same)

clear_or : {b : Bool} → b ≡ false → true && b || not true ≡ false
clear_or e = ap (λ b. true && b || not true) e

is_passed-passed : (f : Frame) → f.loaded ≡ true → is_passed (passed f) ≡ false
is_passed-passed f loaded =
    let clear : clear_accessed f.pte / 32 % 2 == 1 ≡ false = ground arith in
    ap (λ (b : Bool). is_passed (if b then record f { pte = clear_accessed f.pte } else f)) loaded
    ∙ ap (λ (b : Bool). b && (clear_accessed f.pte / 32 % 2 == 1) || not b) loaded
    ∙ clear_or clear

map-append : (xs ys : List Frame) → map passed (xs ++ ys) ≡ map passed xs ++ map passed ys
map-append [] ys = refl
map-append (x ∷ xs) ys = ap (λ l. passed x ∷ l) (map-append xs ys)

length-map : (xs : List Frame) → length (map passed xs) ≡ length xs
length-map [] = refl
length-map (x ∷ xs) = ap suc (length-map xs)

-- What the scan of a queue chooses, and the queue behind it: the first frame that is loaded and was not
-- accessed, those in front of it having lost their accessed bits; or, if every frame that is
-- loaded was accessed, the first that is loaded, all having lost them.
abbrev pub Victim : List Frame → Frame → List Frame → Type 0
Victim l c rest =
    ((xs : List Frame) × (ys : List Frame) × (l ≡ xs ++ (c ∷ ys))
      × AllPassed xs
      × (is_passed c ≡ false)
      × (rest ≡ ys ++ map passed xs))
    ⊎ (AllPassed l
        × ((xs : List Frame) × (f : Frame) × (ys : List Frame) × (l ≡ xs ++ (f ∷ ys))
            × NoneLoaded xs
            × (f.loaded ≡ true)
            × (c ≡ passed f)
            × (rest ≡ map passed ys ++ xs)))

pub scan_loop-Victim :
    (fuel : ℕ) (b : List Frame) (f : Frame) (fs : List Frame)
    → 2 * length (f ∷ fs ++ b) < fuel
    → FirstLoaded (f ∷ fs ++ b)
    → (c : Frame) × (b' fs' : List Frame) × (scan_loop fuel (table b f fs)
        ≡ some (c, table b' c fs'))
      × Victim (f ∷ fs ++ b) c (fs' ++ b')
scan_loop-Victim fuel b f fs enough loaded = elim (find_unpassed (f ∷ fs ++ b)) [
  | inr r ↦
      let len = ap length r.3 ∙ length-append r.0 (r.1 ∷ r.2) in
      let n : length r.0 + suc (fuel - length r.0 - 1) ≡ fuel = omega arith in
      let s = scan_loop-stops r.0 r.1 r.2 b f fs (fuel - length r.0 - 1) r.3 r.4 r.5 in
      (
        r.1,
        s.0,
        s.1,
        ap (λ k. scan_loop k (table b f fs)) (sym n) ∙ s.2,
        inl (r.0, r.2, r.3, r.4, r.5, s.3),
      )
  | inl all ↦
      let p = scan_loop-Past (f ∷ fs ++ b) [] b f fs (sym (append-nil (f ∷ fs ++ b))) all in
      let q = loaded in
      let none_loaded = NoneLoaded-passed q.0 q.4 in
      let queue : p.1 ∷ p.2 ++ p.0 ≡ q.0 ++ (passed q.1 ∷ map passed q.2) =
        p.4
        ∙ ap (λ l. map passed l) q.3
        ∙ map-append q.0 (q.1 ∷ q.2)
        ∙ ap (λ l. l ++ (passed q.1 ∷ map passed q.2)) none_loaded.1 in
      let len = ap length q.3 ∙ length-append q.0 (q.1 ∷ q.2) in
      let m = fuel - length (f ∷ fs ++ b) - length q.0 - 1 in
      let n : length (f ∷ fs ++ b) + (length q.0 + suc m) ≡ fuel = omega arith in
      let s =
        scan_loop-stops q.0 (passed q.1) (map passed q.2) p.0 p.1 p.2 m queue none_loaded.0
          (is_passed-passed q.1 q.5) in
      (
        passed q.1,
        s.0,
        s.1,
        ap (λ k. scan_loop k (table b f fs)) (sym n) ∙ p.3 (length q.0 + suc m) ∙ s.2,
        inr (
          all,
          (q.0, q.1, q.2, q.3, q.4, q.5, refl, s.3 ∙ ap (λ l. map passed q.2 ++ l) none_loaded.1),
        ),
      )
]
