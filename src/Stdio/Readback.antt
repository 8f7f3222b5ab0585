-- ===== src/Stdio/Readback.antt =====
-- atoi of lib/stdlib.c reads back the number that format_integer of lib/stdio.c prints.
use mathlib.Core.List.{append_assoc, append-nil}
use tiny_os.Common.{
  ℕ, zero, suc, ◌+◌, ◌-◌, ◌*◌, ◌/◌, ◌%◌, ◌^◌, ◌≤◌, ◌<◌, ◌≡◌, refl, sym, ap, ◌∙◌, subst, Bool, true,
  false, ◌&&◌, some, List, [], ◌∷◌, ◌++◌, ◌==◌, ltb, if◌then◌else◌, length, get_or, length-append,
  arith, Bool-cases, inl, inr,
}
use tiny_os.Common.Integers.{ℤ, pos, neg}
use tiny_os.Atoi.{isspace, isdigit, atoi}
use tiny_os.Atoi.Decimal.{
  Holds, All, Sign, no_sign, plus, minus, sign_text, number, signed, word32, atoi-number,
}
use tiny_os.Stdio.{
  Flags, PrintfConversion, base_d, sign_of, x_of, digits_loop, rendered_precision, zeros_loop,
  buffer, output_dup, output_unless_0, format_integer,
}
use tiny_os.Stdio.Buffer.{digits_loop-length, zeros_loop-length}

number-append : (xs ys : List ℕ) (n : ℕ) → number n (xs ++ ys) ≡ number (number n xs) ys
number-append [] ys n = refl
number-append (x ∷ xs) ys n = number-append xs ys (n * 10 + (x - 48))

All-append : (test : ℕ → Bool) (xs ys : List ℕ) → All test xs → All test ys → All test (xs ++ ys)
All-append test [] ys a b = b
All-append test (x ∷ xs) ys a b = (a.0, All-append test xs ys a.1 b)

-- Decimal digits that stand for `n`.
record IsDecimal (n : ℕ) (ds : List ℕ) : Type 0 where
  digits : All isdigit ds
  value : number 0 ds ≡ n

IsDecimal-snoc :
    (n d : ℕ) (ds : List ℕ)
    → d < 10
    → IsDecimal n ds
    → IsDecimal (n * 10 + d) (ds ++ ((48 + d) ∷ []))
IsDecimal-snoc n d ds h i = record {
  digits = All-append isdigit ds ((48 + d) ∷ []) i.digits (ground arith, tt);
  value = number-append ds ((48 + d) ∷ []) 0 ∙ (let e = i.value in rw e (omega arith));
}

digits_loop-IsDecimal :
    (fuel value cnt : ℕ) (cp r : List ℕ)
    → digits_loop fuel false base_d value cnt cp ≡ some r
    → (ds : List ℕ) × (r ≡ ds ++ cp) × IsDecimal value ds
unfolding digits_loop
digits_loop-IsDecimal zero value cnt cp r run = cc
digits_loop-IsDecimal (suc fuel) value cnt cp r run = elim (Bool-cases (ltb 0 value)) [
  | inr e ↦
      let same : some cp ≡ some r = rw e at run in
      let none_left : value ≡ 0 = ground arith in
      ([], cc, record { digits = tt; value = sym none_left })
  | inl e ↦
      let d = value % 10 in
      let step : digits_loop fuel false base_d (value / 10) (cnt + 1) ((48 + d) ∷ cp) ≡ some r =
        rw e at run in
      let i = digits_loop-IsDecimal fuel (value / 10) (cnt + 1) ((48 + d) ∷ cp) r step in
      let whole : value / 10 * 10 + d ≡ value = omega arith in
      (
        i.0 ++ ((48 + d) ∷ []),
        i.1 ∙ sym (append_assoc i.0 ((48 + d) ∷ []) cp),
        subst (λ n. IsDecimal n (i.0 ++ ((48 + d) ∷ []))) whole
            (IsDecimal-snoc (value / 10) d i.0 (omega arith) i.2),
      )
]

zeros_loop-IsDecimal :
    (fuel precision n : ℕ) (cp r : List ℕ)
    → zeros_loop fuel precision cp ≡ some r
    → 1 ≤ precision
    → IsDecimal n cp
    → IsDecimal n r × (1 ≤ length r)
unfolding zeros_loop
zeros_loop-IsDecimal zero precision n cp r run some_digit i = cc
zeros_loop-IsDecimal (suc fuel) precision n cp r run some_digit i =
    elim (Bool-cases (ltb (length cp) precision && ltb (length cp) 63)) [
      | inr e ↦
          let same : some cp ≡ some r = rw e at run in
          let enough : 1 ≤ length cp = ground arith in
          let q : cp ≡ r = cc in subst (λ l. IsDecimal n l × (1 ≤ length l)) q (i, enough)
      | inl e ↦
          let step : zeros_loop fuel precision (48 ∷ cp) ≡ some r = rw e at run in
          zeros_loop-IsDecimal fuel precision n (48 ∷ cp) r step some_digit
            (record { digits = (refl, i.digits); value = i.value })
    ]

-- A sign character is white space or what atoi takes for a sign.
sign-text :
    (f : Flags) (negative : Bool) (value : ℕ)
    → (lead : List ℕ) × (sg : Sign) × All isspace lead
      × (output_unless_0 (sign_of f true negative) ≡ lead ++ sign_text sg)
      × (signed sg value ≡ (if negative then neg value else pos value))
sign-text f negative value = elim (Bool-cases negative) [
  | inl n ↦ rw n (elim (Bool-cases f.plus_flag) [
    | inl p ↦ rw p ([], minus, tt, refl, refl)
    | inr p ↦ elim (Bool-cases f.space_flag) [
      | inl s ↦ rw (p, s) ([], minus, tt, refl, refl)
      | inr s ↦ rw (p, s) ([], minus, tt, refl, refl)
    ]
  ])
  | inr n ↦ rw n (elim (Bool-cases f.plus_flag) [
    | inl p ↦ rw p ([], plus, tt, refl, refl)
    | inr p ↦ elim (Bool-cases f.space_flag) [
      | inl s ↦ rw (p, s) (32 ∷ [], no_sign, (refl, tt), refl, refl)
      | inr s ↦ rw (p, s) ([], no_sign, tt, refl, refl)
    ]
  ])
]

dup-isspace : (n : ℕ) → All isspace (output_dup 32 n)
dup-isspace zero = tt
dup-isspace (suc n) = (refl, dup-isspace n)

-- Memory with the text at the address `s` and zeros behind it.
abbrev pub text_at : ℕ → List ℕ → ℕ → ℕ
text_at s text a = get_or text (a - s) 0

Holds-get_or :
    (m : ℕ → ℕ) (p : ℕ) (xs : List ℕ)
    → ((i : ℕ) → m (p + i) ≡ get_or xs i 0)
    → Holds m p xs (p + length xs)
Holds-get_or m p [] at = omega arith
Holds-get_or m p (x ∷ xs) at =
    let first : p + 0 ≡ p = omega arith in
    let end : p + 1 + length xs ≡ p + suc (length xs) = omega arith in
    let later : (i : ℕ) → m (p + 1 + i) ≡ get_or xs i 0 =
      λ i. let e : p + 1 + i ≡ p + suc i = omega arith in ap m e ∙ at (suc i) in
    (ap m (sym first) ∙ at 0, subst (Holds m (p + 1) xs) end (Holds-get_or m (p + 1) xs later))

text_at-Holds : (s : ℕ) (text : List ℕ) → Holds (text_at s text) s text (s + length text)
text_at-Holds s text =
    Holds-get_or (text_at s text) s text
      (λ i. let e : s + i - s ≡ i = omega arith in ap (λ k. get_or text k 0) e)

get_or-length : (xs : List ℕ) → get_or xs (length xs) 0 ≡ 0
get_or-length [] = refl
get_or-length (x ∷ xs) = get_or-length xs

text_at-stop : (s : ℕ) (text : List ℕ) → isdigit (text_at s text (s + length text)) ≡ false
text_at-stop s text =
    let e : s + length text - s ≡ length text = omega arith in
    let z : text_at s text (s + length text) ≡ 0 =
      ap (λ k. get_or text k 0) e ∙ get_or-length text in
    ap isdigit z

-- atoi reads such a text.
read :
    {value : ℕ} (spaces : List ℕ) (sg : Sign) (cp : List ℕ) (z : ℤ)
    → All isspace spaces
    → IsDecimal value cp
    → 1 ≤ length cp
    → signed sg value ≡ z
    → (fuel : ℕ) (m : ℕ → ℕ) (s q : ℕ) → (s == 0) ≡ false
    → length (spaces ++ (sign_text sg ++ cp)) < fuel
    → Holds m s (spaces ++ (sign_text sg ++ cp)) q
    → isdigit (m q) ≡ false
    → atoi fuel m s ≡ some (word32 z)
read spaces sg [] z blank i h e fuel m s q there f holds stop = absurd (omega arith)
read spaces sg (d ∷ ds) z blank i h e fuel m s q there f holds stop =
    let p = length-append spaces (sign_text sg ++ (d ∷ ds)) in
    let r = length-append (sign_text sg) (d ∷ ds) in
    atoi-number m fuel spaces sg d ds s q there (omega arith) (omega arith) blank i.digits holds
      stop
    ∙ ap (λ n. some (word32 (signed sg n))) i.value
    ∙ ap (λ y. some (word32 y)) e

-- The output where there is no padding but white space on the left.
format_integer-text :
    (c : PrintfConversion) (value : ℕ) (negative : Bool) (cp : List ℕ)
    → buffer c base_d value ≡ some cp
    → c.flags.minus_flag ≡ false
    → c.flags.zero_flag ≡ false
    → (pad_cnt : ℕ) × (format_integer value true negative base_d c
        ≡ some (output_dup 32 pad_cnt ++ (output_unless_0 (sign_of c.flags true negative) ++ cp)))
unfolding format_integer
format_integer-text c value negative cp stored left no_zeros =
    let no_x : x_of c.flags base_d value ≡ 0 =
      elim (Bool-cases (c.flags.pound_flag && ltb 0 value)) [
        | inl e ↦ rw e refl
        | inr e ↦ rw e refl
      ] in
    let pad_cnt = c.width - length cp - 0 - (if sign_of c.flags true negative == 0 then 0 else 1) in
    (pad_cnt, rw (stored, no_x, left, no_zeros, append-nil cp) refl)

module _ (c : PrintfConversion) (value : ℕ) (small : value < 2 ^ 64)
    (f : c.flags.group_flag ≡ false) (some_digit : 1 ≤ rendered_precision c.precision) where
  buffer-IsDecimal :
      (cp : List ℕ) × (buffer c base_d value ≡ some cp) × IsDecimal value cp × (1 ≤ length cp)
  unfolding buffer
  buffer-IsDecimal =
      let d =
        digits_loop-length 22 64 false base_d value 0 [] (inr (inl refl)) (omega arith)
          (omega arith) in
      let i = digits_loop-IsDecimal 64 value 0 [] d.0 d.1 in
      let z =
        zeros_loop-length 65 (rendered_precision c.precision) d.0 (let p = d.2 in omega arith)
          (omega arith) in
      let decimal : IsDecimal value d.0 =
        subst (IsDecimal value) (sym (i.1 ∙ append-nil i.0)) i.2 in
      let r =
        zeros_loop-IsDecimal 65 (rendered_precision c.precision) value d.0 z.0 z.1 some_digit
          decimal in
      (
        z.0,
        rw (f, d.1, z.1)
            (elim (Bool-cases c.flags.pound_flag) [ inl e ↦ rw e refl | inr e ↦ rw e refl ]),
        r.0,
        r.1,
      )

  -- The text that is printed: white space, a sign or none, and digits.
  printed :
      (negative : Bool)
      → c.flags.minus_flag ≡ false
      → c.flags.zero_flag ≡ false
      → (spaces : List ℕ) × (sg : Sign) × (cp : List ℕ) × (format_integer value true negative base_d
            c
          ≡ some (spaces ++ (sign_text sg ++ cp)))
        × All isspace spaces
        × IsDecimal value cp
        × (1 ≤ length cp)
        × (signed sg value ≡ (if negative then neg value else pos value))
  printed negative left no_zeros =
      let b = buffer-IsDecimal in
      let s = sign-text c.flags negative value in
      let t = format_integer-text c value negative b.0 b.1 left no_zeros in
      let pad = output_dup 32 t.0 in
      (
        pad ++ s.0,
        s.1,
        b.0,
        t.1
            ∙ ap (λ u. some (pad ++ u))
                (ap (λ u. u ++ b.0) s.3 ∙ append_assoc s.0 (sign_text s.1) b.0)
            ∙ ap some (sym (append_assoc pad s.0 (sign_text s.1 ++ b.0))),
        All-append isspace pad s.0 (dup-isspace t.0) s.2,
        b.2,
        b.3,
        s.4,
      )

  -- A number of 64 bits that is printed in decimal, with any width, any precision but 0 and any flags
  -- but those for grouping, zeros and left adjustment, is read back by atoi: at every address but NULL
  -- of a memory that holds the text that is printed and a null byte behind it, atoi returns the low 32
  -- bits of the number with its sign.
  pub format_integer-atoi :
      (negative : Bool) (s : ℕ)
      → c.flags.minus_flag ≡ false
      → c.flags.zero_flag ≡ false
      → (s == 0) ≡ false
      → (text : List ℕ) × (format_integer value true negative base_d c ≡ some text)
        × (atoi (length text + 1) (text_at s text) s
            ≡ some (word32 (if negative then neg value else pos value)))
  format_integer-atoi negative s left no_zeros there =
      let p = printed negative left no_zeros in
      let text = p.0 ++ (sign_text p.1 ++ p.2) in
      (
        text,
        p.3,
        read p.0 p.1 p.2 (if negative then neg value else pos value) p.4 p.5 p.6 p.7
            (length text + 1) (text_at s text) s (s + length text) there (omega arith)
            (text_at-Holds s text) (text_at-stop s text),
      )
