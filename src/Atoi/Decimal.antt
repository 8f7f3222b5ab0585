-- ===== src/Atoi/Decimal.antt =====
-- atoi of lib/stdlib.c reads what decimal notation stands for.
use tiny_os.Common.{
  ℕ, zero, suc, ◌+◌, ◌-◌, ◌*◌, ◌%◌, ◌^◌, ◌<◌, ◌≡◌, refl, ap, ◌∙◌, Bool, true, false, some, List, [],
  ◌∷◌, ◌++◌, ◌==◌, if◌then◌else◌, length, arith,
}
use tiny_os.Common.Integers.{ℤ, pos, negsuc, neg}
use tiny_os.Atoi.{isspace, isdigit, space_loop, digit_loop, atoi}

-- Memory holds the bytes from the address `p` to the address `q`.
abbrev pub Holds : (ℕ → ℕ) → ℕ → List ℕ → ℕ → Type 0
Holds m p [] q = p ≡ q
Holds m p (b ∷ bs) q = (m p ≡ b) × Holds m (p + 1) bs q

abbrev pub All : (ℕ → Bool) → List ℕ → Type 0
All test [] = Unit {0}
All test (b ∷ bs) = (test b ≡ true) × All test bs

pub data Sign : Type 0 where
  no_sign : Sign
  plus : Sign
  minus : Sign

abbrev pub sign_text : Sign → List ℕ
sign_text no_sign = []
sign_text plus = 43 ∷ []
sign_text minus = 45 ∷ []

-- The number that digits stand for, behind others that stand for `n`.
abbrev pub number : ℕ → List ℕ → ℕ
number n [] = n
number n (c ∷ cs) = number (n * 10 + (c - 48)) cs

abbrev pub signed : Sign → ℕ → ℤ
signed minus n = neg n
signed _ n = pos n

-- The two's complement word of 32 bits.
abbrev pub word32 : ℤ → ℕ
word32 (pos n) = n % 2 ^ 32
word32 (negsuc n) = (2 ^ 32 - (n + 1) % 2 ^ 32) % 2 ^ 32

module _ (m : ℕ → ℕ) where
  Holds-append :
      (xs ys : List ℕ) (p q : ℕ)
      → Holds m p (xs ++ ys) q
      → (r : ℕ) × Holds m p xs r × Holds m r ys q
  Holds-append [] ys p q h = (p, refl, h)
  Holds-append (x ∷ xs) ys p q h =
      let r = Holds-append xs ys (p + 1) q h.1 in (r.0, (h.0, r.1), r.2)

  space_loop-skips :
      (fuel : ℕ) (spaces : List ℕ) (p q : ℕ)
      → length spaces < fuel
      → All isspace spaces
      → Holds m p spaces q
      → isspace (m q) ≡ false
      → space_loop fuel m p ≡ some q
  unfolding space_loop
  space_loop-skips zero spaces p q f a h stop = absurd (omega arith)
  space_loop-skips (suc fuel) [] p q f a h stop =
      let e : isspace (m p) ≡ false = ap (λ x. isspace (m x)) h ∙ stop in rw e (ap some h)
  space_loop-skips (suc fuel) (c ∷ cs) p q f a h stop =
      let e : isspace (m p) ≡ true = ap isspace h.0 ∙ a.0 in
      rw e (space_loop-skips fuel cs (p + 1) q (omega arith) a.1 h.1 stop)

  abbrev negated : ℕ → ℕ
  negated n = (2 ^ 32 - n % 2 ^ 32) % 2 ^ 32

  negated-step : (n d : ℕ) → d < 10 → (negated n * 10 + 2 ^ 32 - d) % 2 ^ 32 ≡ negated (n * 10 + d)
  negated-step n d h = omega arith

  digit_loop-number :
      (fuel : ℕ) (digits : List ℕ) (p q n : ℕ)
      → length digits < fuel
      → All isdigit digits
      → Holds m p digits q
      → isdigit (m q) ≡ false
      → digit_loop fuel m p (negated n) ≡ some (negated (number n digits))
  unfolding digit_loop
  digit_loop-number zero digits p q n f a h stop = absurd (omega arith)
  digit_loop-number (suc fuel) [] p q n f a h stop =
      let e : isdigit (m p) ≡ false = ap (λ x. isdigit (m x)) h ∙ stop in rw e refl
  digit_loop-number (suc fuel) (c ∷ cs) p q n f a h stop =
      let e : isdigit (m p) ≡ true = ap isdigit h.0 ∙ a.0 in
      let d = a.0 in
      let s = negated-step n (c - 48) (ground arith) in
      rw (e, h.0, s)
        (digit_loop-number fuel cs (p + 1) q (n * 10 + (c - 48)) (omega arith) a.1 h.1 stop)

  minus_word : (n : ℕ) → negated n ≡ word32 (neg n)
  minus_word zero = refl
  minus_word (suc n) = omega arith

  -- The byte behind the spaces is a digit or a sign, and atoi goes on behind the sign.
  sign-read :
      (sg : Sign) (c : ℕ) (cs : List ℕ) (p q : ℕ)
      → isdigit c ≡ true
      → Holds m p (sign_text sg ++ (c ∷ cs)) q
      → (isspace (m p) ≡ false)
        × Holds m (if m p == 43 then p + 1 else if m p == 45 then p + 1 else p) (c ∷ cs) q
        × ((n : ℕ)
            → (if m p == 45 then negated n else (2 ^ 32 - negated n) % 2 ^ 32)
              ≡ word32 (signed sg n))
  sign-read no_sign c cs p q d h =
      let e = h.0 in
      let not_plus : (c == 43) ≡ false = ground arith in
      let not_minus : (c == 45) ≡ false = ground arith in
      rw (e, not_plus, not_minus) (ground arith, h, λ n. omega arith)
  sign-read plus c cs p q d h = let e = h.0 in rw e (refl, h.1, λ n. omega arith)
  sign-read minus c cs p q d h = let e = h.0 in rw e (refl, h.1, minus_word)

  -- atoi of spaces, a sign or none, at least one digit and then a byte that is no digit returns, at an
  -- address that is not NULL: the result is the word of 32 bits of the number that the text stands for,
  -- so a number that does not fit in an `int` is cut to its low 32 bits.
  pub atoi-number :
      (fuel : ℕ) (spaces : List ℕ) (sg : Sign) (c : ℕ) (cs : List ℕ) (s q : ℕ)
      → (s == 0) ≡ false
      → length spaces < fuel
      → length (c ∷ cs) < fuel
      → All isspace spaces
      → All isdigit (c ∷ cs)
      → Holds m s (spaces ++ (sign_text sg ++ (c ∷ cs))) q
      → isdigit (m q) ≡ false
      → atoi fuel m s ≡ some (word32 (signed sg (number 0 (c ∷ cs))))
  unfolding atoi
  atoi-number fuel spaces sg c cs s q there f g blank digits text stop =
      let r = Holds-append spaces (sign_text sg ++ (c ∷ cs)) s q text in
      let sign = sign-read sg c cs r.0 q digits.0 r.2 in
      let skipped = space_loop-skips fuel spaces s r.0 f blank r.1 sign.0 in
      let start = if m r.0 == 43 then r.0 + 1 else if m r.0 == 45 then r.0 + 1 else r.0 in
      let read = digit_loop-number fuel (c ∷ cs) start q 0 g digits sign.1 stop in
      rw (there, skipped, read) (ap some (sign.2 (number 0 (c ∷ cs))))
