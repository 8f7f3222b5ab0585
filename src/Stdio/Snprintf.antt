-- ===== src/Stdio/Snprintf.antt =====
-- lib/stdio.c: vsnprintf. `text` is what __vprintf outputs, one call of vsnprintf_helper for each
-- character. Memory is a function from addresses to bytes. An `int` is its word of 32 bits.
use tiny_os.Common.{
  ℕ, suc, ◌+◌, ◌-◌, ◌%◌, ◌^◌, ◌≤◌, ◌<◌, ◌≡◌, refl, sym, subst, ap, ◌∙◌, Bool, true, false, List, [],
  ◌∷◌, ◌==◌, ltb, if◌then◌else◌, length, get_or, arith, Bool-cases, inl, inr,
}

pub record VsnprintfAux : Type 0 where
  pub p : ℕ
  pub length_so_far : ℕ
  pub max_length : ℕ

abbrev pub store : (ℕ → ℕ) → ℕ → ℕ → ℕ → ℕ
store m p ch a = if p == a then ch else m a

-- `<` on `int`.
abbrev pub int_lt : ℕ → ℕ → Bool
int_lt a b = ltb ((a + 2 ^ 31) % 2 ^ 32) ((b + 2 ^ 31) % 2 ^ 32)

pub vsnprintf_helper : ℕ → VsnprintfAux → (ℕ → ℕ) → VsnprintfAux × (ℕ → ℕ)
vsnprintf_helper ch aux m =
    let aux1 = record aux { length_so_far = (aux.length_so_far + 1) % 2 ^ 32 } in
    if int_lt aux.length_so_far aux.max_length
    then (record aux1 { p = aux.p + 1 }, store m aux.p ch)
    else (aux1, m)

pub output_loop : List ℕ → VsnprintfAux → (ℕ → ℕ) → VsnprintfAux × (ℕ → ℕ)
output_loop [] aux m = (aux, m)
output_loop (ch ∷ text) aux m = let r = vsnprintf_helper ch aux m in output_loop text r.0 r.1

-- The `size_t` becomes an `int`, which is negative for a large size.
abbrev pub max_length_of : ℕ → ℕ
max_length_of buf_size = if ltb 0 buf_size then (buf_size - 1) % 2 ^ 32 else 0

pub vsnprintf : ℕ → ℕ → List ℕ → (ℕ → ℕ) → ℕ × (ℕ → ℕ)
vsnprintf buffer buf_size text m =
    let aux : VsnprintfAux = record {
      p = buffer;
      length_so_far = 0;
      max_length = max_length_of buf_size;
    } in
    let r = output_loop text aux m in
    (r.0.length_so_far, if ltb 0 buf_size then store r.1 r.0.p 0 else r.1)

abbrev pub smaller : ℕ → ℕ → ℕ
smaller a b = if ltb a b then a else b

-- Memory after the first `n` characters of the text were stored from `p` on.
abbrev pub stored : (ℕ → ℕ) → ℕ → ℕ → List ℕ → ℕ → ℕ
stored m p n text a = if ltb a p then m a else if ltb a (p + n) then get_or text (a - p) 0 else m a

stored-first :
    (m : ℕ → ℕ) (p n ch : ℕ) (text : List ℕ) (a : ℕ)
    → stored (store m p ch) (p + 1) n text a ≡ stored m p (n + 1) (ch ∷ text) a
stored-first m p n ch text a = elim (Bool-cases (p == a)) [
  | inl e ↦
      let z : a - p ≡ 0 = ground arith in
      let f : ltb a (p + 1) ≡ true = ground arith in
      let g : ltb a p ≡ false = ground arith in
      let h : ltb a (p + (n + 1)) ≡ true = ground arith in rw (e, f, g, h, z) refl
  | inr e ↦ elim (Bool-cases (ltb a p)) [
    | inl below ↦ let f : ltb a (p + 1) ≡ true = ground arith in rw (e, f, below) refl
    | inr above ↦
        let z : a - p ≡ suc (a - (p + 1)) = ground arith in
        let f : ltb a (p + 1) ≡ false = ground arith in
        let h : ltb a (p + (n + 1)) ≡ ltb a (p + 1 + n) = ground arith in
        rw (e, f, above, h, z) refl
  ]
]

-- What the calls of vsnprintf_helper leave.
abbrev pub AreStored : List ℕ → VsnprintfAux → (ℕ → ℕ) → VsnprintfAux × (ℕ → ℕ) → Type 0
AreStored text aux m r =
    let n = smaller (length text) (aux.max_length - aux.length_so_far) in
    (r.0.length_so_far ≡ aux.length_so_far + length text)
    × (r.0.p ≡ aux.p + n)
    × ((a : ℕ) → r.1 a ≡ stored m aux.p n text a)

helper-stores :
    (ch p l max : ℕ) (m : ℕ → ℕ)
    → l + 1 < 2 ^ 31
    → max < 2 ^ 31
    → ltb l max ≡ true
    → vsnprintf_helper ch (record { p = p; length_so_far = l; max_length = max }) m
      ≡ (record { p = p + 1; length_so_far = l + 1; max_length = max }, store m p ch)
unfolding vsnprintf_helper
helper-stores ch p l max m small small_max room =
    let t : int_lt l max ≡ true = ground arith in
    let n : (l + 1) % 2 ^ 32 ≡ l + 1 = omega arith in rw (t, n) refl

helper-counts :
    (ch p l max : ℕ) (m : ℕ → ℕ)
    → l + 1 < 2 ^ 31
    → max < 2 ^ 31
    → ltb l max ≡ false
    → vsnprintf_helper ch (record { p = p; length_so_far = l; max_length = max }) m
      ≡ (record { p = p; length_so_far = l + 1; max_length = max }, m)
unfolding vsnprintf_helper
helper-counts ch p l max m small small_max full =
    let t : int_lt l max ≡ false = ground arith in
    let n : (l + 1) % 2 ^ 32 ≡ l + 1 = omega arith in rw (t, n) refl

output_loop-AreStored :
    (text : List ℕ) (p l max : ℕ) (m : ℕ → ℕ)
    → l + length text < 2 ^ 31
    → max < 2 ^ 31
    → AreStored text
        (record { p = p; length_so_far = l; max_length = max })
        m
        (output_loop text (record { p = p; length_so_far = l; max_length = max }) m)
unfolding output_loop
output_loop-AreStored [] p l max m small small_max = (omega arith, ground arith, λ a. ground arith)
output_loop-AreStored (ch ∷ text) p l max m small small_max =
    let aux : VsnprintfAux = record { p = p; length_so_far = l; max_length = max } in
    elim (Bool-cases (ltb l max)) [
      | inl room ↦
          let ih =
            output_loop-AreStored text (p + 1) (l + 1) max (store m p ch) (omega arith) small_max in
          let n = smaller (length text) (max - (l + 1)) in
          let step : smaller (suc (length text)) (max - l) ≡ n + 1 = ground arith in
          subst (λ r. AreStored (ch ∷ text) aux m (output_loop text r.0 r.1))
            (sym (helper-stores ch p l max m (omega arith) small_max room))
            (rw step
              (ih.0 ∙ omega arith, ih.1 ∙ omega arith, λ a. ih.2 a ∙ stored-first m p n ch text a))
      | inr full ↦
          let ih = output_loop-AreStored text p (l + 1) max m (omega arith) small_max in
          let step : smaller (suc (length text)) (max - l) ≡ 0 = ground arith in
          let none_left : smaller (length text) (max - (l + 1)) ≡ 0 = ground arith in
          subst (λ r. AreStored (ch ∷ text) aux m (output_loop text r.0 r.1))
            (sym (helper-counts ch p l max m (omega arith) small_max full))
            (rw step (
              ih.0 ∙ omega arith,
              ih.1 ∙ rw none_left refl,
              λ a. ih.2 a ∙ rw none_left (ground arith),
            ))
    ]

abbrev loop_of : List ℕ → ℕ → ℕ → (ℕ → ℕ) → VsnprintfAux × (ℕ → ℕ)
loop_of text buffer max m =
    output_loop text (record { p = buffer; length_so_far = 0; max_length = max }) m

abbrev terminated : Bool → List ℕ → ℕ → ℕ → (ℕ → ℕ) → ℕ → ℕ
terminated t text buffer max m =
    let r = loop_of text buffer max m in if t then store r.1 r.0.p 0 else r.1

vsnprintf-run :
    (buffer buf_size : ℕ) (text : List ℕ) (m : ℕ → ℕ)
    → buf_size ≤ 2 ^ 31
    → vsnprintf buffer buf_size text m ≡ (
      (loop_of text buffer (buf_size - 1) m).0.length_so_far,
      terminated (ltb 0 buf_size) text buffer (buf_size - 1) m,
    )
unfolding vsnprintf
vsnprintf-run buffer buf_size text m small =
    let max : max_length_of buf_size ≡ buf_size - 1 = ground arith in
    ap
      (λ n.
        ((loop_of text buffer n m).0.length_so_far, terminated (ltb 0 buf_size) text buffer n m))
      max

module _ (buffer buf_size : ℕ) (text : List ℕ) (m : ℕ → ℕ) (small : buf_size ≤ 2 ^ 31)
    (short : length text < 2 ^ 31) where
  -- A buffer of size 0 is not written to.
  vsnprintf-empty : buf_size ≡ 0 → (a : ℕ) → (vsnprintf buffer buf_size text m).1 a ≡ m a
  vsnprintf-empty none_given a =
      let r = output_loop-AreStored text buffer 0 (buf_size - 1) m (omega arith) (omega arith) in
      let e : ltb 0 buf_size ≡ false = ground arith in
      let z : smaller (length text) (buf_size - 1 - 0) ≡ 0 = ground arith in
      ap (λ q. q.1 a) (vsnprintf-run buffer buf_size text m small)
      ∙ ap (λ t. terminated t text buffer (buf_size - 1) m a) e
      ∙ r.2 a
      ∙ ap (λ n. stored m buffer n text a) z
      ∙ ground arith

  -- For a buffer that is not empty, of at most 2 ^ 31 bytes, and a text of fewer, so that its length is an
  -- `int`, vsnprintf returns the length of the whole text. The buffer then holds as much of the front of the text as fits with the null
  -- terminator, the terminator follows, and no byte outside of these is changed.
  pub vsnprintf-stored :
      1 ≤ buf_size
      → ((vsnprintf buffer buf_size text m).0 ≡ length text)
        × ((a : ℕ)
            → (vsnprintf buffer buf_size text m).1 a ≡ (
                if a == buffer + smaller (length text) (buf_size - 1)
                then 0
                else stored m buffer (smaller (length text) (buf_size - 1)) text a))
  vsnprintf-stored some_given =
      let r = output_loop-AreStored text buffer 0 (buf_size - 1) m (omega arith) (omega arith) in
      let run = vsnprintf-run buffer buf_size text m small in
      let room : buf_size - 1 - 0 ≡ buf_size - 1 = omega arith in
      (
        ap (λ q. q.0) run ∙ r.0 ∙ omega arith,
        λ a.
            let e : ltb 0 buf_size ≡ true = ground arith in
            let n = smaller (length text) (buf_size - 1) in
            let end : (loop_of text buffer (buf_size - 1) m).0.p ≡ buffer + n =
              r.1 ∙ ap (λ b. buffer + smaller (length text) b) room in
            let held : (loop_of text buffer (buf_size - 1) m).1 a ≡ stored m buffer n text a =
              r.2 a ∙ ap (λ b. stored m buffer (smaller (length text) b) text a) room in
            let sides : (buffer + n == a) ≡ (a == buffer + n) = ground arith in
            ap (λ q. q.1 a) run
            ∙ ap (λ t. terminated t text buffer (buf_size - 1) m a) e
            ∙ ap (λ p. if p == a then 0 else (loop_of text buffer (buf_size - 1) m).1 a) end
            ∙ ap (λ c. if buffer + n == a then 0 else c) held
            ∙ ap (λ t. if t then 0 else stored m buffer n text a) sides,
      )
