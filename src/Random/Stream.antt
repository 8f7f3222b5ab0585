-- ===== src/Random/Stream.antt =====
-- The state of the generator of lib/random.c is an arrangement of the 256 bytes, and the bytes that it
-- gives do not depend on how they are divided among calls.
use tiny_os.Common.{
  ℕ, zero, suc, ◌+◌, ◌*◌, ◌%◌, ◌^◌, ◌≤◌, ◌<◌, ◌≡◌, refl, sym, ap, ◌∙◌, subst, true, false, List, [],
  ◌∷◌, ◌++◌, ltb, if◌then◌else◌, length, get_or, arith, Bool-cases, inl, inr,
}
use tiny_os.Sort.Arrays.{IsShuffled, IsShuffled-refl, IsShuffled-trans, exchange-IsShuffled}
use tiny_os.Random.{
  Random, store, swap_byte, fill_loop, seed_byte, mix_loop, random_init, next_byte, bytes_loop,
  random_bytes, random_ulong,
}

-- The table holds each byte once, and the indexes are bytes.
pub record IsCipher (r : Random) : Type 0 where
  pub table : (i : ℕ) → i < 256 → r.s i < 256
  pub position : ℕ → ℕ
  pub position-bound : (x : ℕ) → x < 256 → position x < 256
  pub s-position : (x : ℕ) → x < 256 → r.s (position x) ≡ x
  pub position-s : (i : ℕ) → i < 256 → position (r.s i) ≡ i
  pub i_bound : r.s_i < 256
  pub j_bound : r.s_j < 256
  pub inited : r.inited ≡ true

-- All of the values are bytes.
abbrev pub IsBytes : List ℕ → Type 0
IsBytes [] = Unit {0}
IsBytes (x ∷ xs) = (x < 256) × IsBytes xs

swap_byte-IsShuffled :
    (s : ℕ → ℕ) (i j : ℕ) → i < 256 → j < 256 → IsShuffled 256 s (swap_byte s i j)
swap_byte-IsShuffled s i j hi hj = exchange-IsShuffled s (swap_byte s i j) 256 i j hi hj (λ k. refl)

fill_loop-at :
    (left i : ℕ) (s : ℕ → ℕ) (k : ℕ)
    → i + left ≤ 256
    → fill_loop left i s k ≡ (if ltb k i then s k else if ltb k (i + left) then k else s k)
unfolding fill_loop
fill_loop-at zero i s k h = ground arith
fill_loop-at (suc left) i s k h =
    let ih = fill_loop-at left (i + 1) (store s i (i % 256)) k (omega arith) in ih ∙ ground arith

mix_loop-IsShuffled :
    (left seed i j : ℕ) (s : ℕ → ℕ) → i + left ≤ 256 → IsShuffled 256 s (mix_loop left seed i j s)
unfolding mix_loop
mix_loop-IsShuffled zero seed i j s h = IsShuffled-refl 256 s
mix_loop-IsShuffled (suc left) seed i j s h =
    let j1 = (j + s i + seed_byte seed (i % 4)) % 256 in
    IsShuffled-trans (swap_byte-IsShuffled s i j1 (omega arith) (omega arith))
      (mix_loop-IsShuffled left seed (i + 1) j1 (swap_byte s i j1) (omega arith))

-- A table that has the same bytes as one that holds each byte once does so too.
module _ (r : Random) (c : IsCipher r) (s : ℕ → ℕ) (i j : ℕ) (hi : i < 256) (hj : j < 256)
    (m : IsShuffled 256 r.s s) where
  target-bound : (k : ℕ) → k < 256 → m.target k < 256
  target-bound k h = elim (Bool-cases (ltb (m.target k) 256)) [
    | inl e ↦ ground arith
    | inr e ↦
        let p = m.outside (m.target k) (ground arith) in let q = m.source-target k in omega arith
  ]

  shuffled-IsCipher : IsCipher (record r { s = s; s_i = i; s_j = j })
  shuffled-IsCipher = record {
    table = λ k h. rw (m.moved k) (c.table (m.source k) (m.inside k h));
    position = λ x. m.target (c.position x);
    position-bound = λ x h. target-bound (c.position x) (c.position-bound x h);
    s-position = λ x h.
        m.moved (m.target (c.position x))
        ∙ ap r.s (m.source-target (c.position x))
        ∙ c.s-position x h;
    position-s = λ k h.
        ap (λ y. m.target (c.position y)) (m.moved k)
        ∙ ap m.target (c.position-s (m.source k) (m.inside k h))
        ∙ m.target-source k;
    i_bound = hi;
    j_bound = hj;
    inited = c.inited;
  }

-- After random_init with any seed, whatever the state was before, the table holds each byte once.
pub random_init-IsCipher : (seed : ℕ) (r : Random) → IsCipher (random_init seed r)
unfolding random_init
random_init-IsCipher seed r =
    let filled = fill_loop 256 0 r.s in
    let at : (k : ℕ) → k < 256 → filled k ≡ k = λ k h.
      let e : ltb k 256 ≡ true = ground arith in
      let f : ltb k 0 ≡ false = ground arith in
      fill_loop-at 256 0 r.s k (omega arith) ∙ rw (f, e) refl in
    let start : Random = record { s = filled; s_i = 0; s_j = 0; inited = true } in
    let c : IsCipher start = record {
      table = λ k h. let p = at k h in omega arith;
      position = λ x. x;
      position-bound = λ x h. h;
      s-position = at;
      position-s = at;
      i_bound = omega arith;
      j_bound = omega arith;
      inited = refl;
    } in
    shuffled-IsCipher start c (mix_loop 256 seed 0 0 filled) 0 0 (omega arith) (omega arith)
      (mix_loop-IsShuffled 256 seed 0 0 filled (omega arith))

next_byte-IsCipher : (r : Random) → IsCipher r → ((next_byte r).0 < 256) × IsCipher (next_byte r).1
unfolding next_byte
next_byte-IsCipher r c =
    let i = (r.s_i + 1) % 256 in
    let j = (r.s_j + r.s i) % 256 in
    let s = swap_byte r.s i j in
    let d =
      shuffled-IsCipher r c s i j (omega arith) (omega arith)
        (swap_byte-IsShuffled r.s i j (omega arith) (omega arith)) in
    (d.table ((s i + s j) % 256) (omega arith), d)

bytes_loop-IsCipher :
    (size : ℕ) (r : Random)
    → IsCipher r
    → IsBytes (bytes_loop size r).0
      × (length (bytes_loop size r).0 ≡ size)
      × IsCipher (bytes_loop size r).1
unfolding bytes_loop
bytes_loop-IsCipher zero r c = (tt, refl, c)
bytes_loop-IsCipher (suc size) r c =
    let n = next_byte-IsCipher r c in
    let rest = bytes_loop-IsCipher size (next_byte r).1 n.1 in
    ((n.0, rest.0), ap suc rest.1, rest.2)

pub random_bytes-started :
    (size : ℕ) (r : Random) → r.inited ≡ true → random_bytes size r ≡ bytes_loop size r
unfolding random_bytes
random_bytes-started size r e = ap (λ b. bytes_loop size (if b then r else random_init 0 r)) e

pub random_bytes-starts :
    (size : ℕ) (r : Random)
    → r.inited ≡ false
    → random_bytes size r ≡ bytes_loop size (random_init 0 r)
unfolding random_bytes
random_bytes-starts size r e = ap (λ b. bytes_loop size (if b then r else random_init 0 r)) e

-- What a call gives, with the state after it.
abbrev Good : ℕ → List ℕ × Random → Type 0
Good size p = IsBytes p.0 × (length p.0 ≡ size) × IsCipher p.1

-- random_bytes gives as many values as it is asked for, each of them a byte, and starts the generator
-- if need be: after it the table holds each byte once.
pub random_bytes-IsCipher :
    (size : ℕ) (r : Random)
    → (r.inited ≡ true → IsCipher r)
    → IsBytes (random_bytes size r).0
      × (length (random_bytes size r).0 ≡ size)
      × IsCipher (random_bytes size r).1
random_bytes-IsCipher size r started = elim (Bool-cases r.inited) [
  | inl e ↦
      subst (Good size) (sym (random_bytes-started size r e))
        (bytes_loop-IsCipher size r (started e))
  | inr e ↦
      subst (Good size) (sym (random_bytes-starts size r e))
        (bytes_loop-IsCipher size (random_init 0 r) (random_init-IsCipher 0 r))
]

bytes_loop-append :
    (m n : ℕ) (r : Random)
    → bytes_loop (m + n) r ≡ (
      (bytes_loop m r).0 ++ (bytes_loop n (bytes_loop m r).1).0,
      (bytes_loop n (bytes_loop m r).1).1,
    )
unfolding bytes_loop
bytes_loop-append zero n r = let z : 0 + n ≡ n = omega arith in ap (λ k. bytes_loop k r) z
bytes_loop-append (suc m) n r =
    let ih = bytes_loop-append m n (next_byte r).1 in
    let z : suc m + n ≡ suc (m + n) = omega arith in
    ap (λ k. bytes_loop k r) z ∙ ap (λ p. ((next_byte r).0 ∷ p.0, p.1)) ih

bytes_loop-inited : (size : ℕ) (r : Random) → r.inited ≡ true → (bytes_loop size r).1.inited ≡ true
unfolding bytes_loop next_byte
bytes_loop-inited zero r e = e
bytes_loop-inited (suc size) r e = bytes_loop-inited size (next_byte r).1 e

-- The bytes of two calls, and the state after them.
abbrev both : List ℕ × Random → ℕ → List ℕ × Random
both p n = (p.0 ++ (random_bytes n p.1).0, (random_bytes n p.1).1)

both-loops :
    (m n : ℕ) (r : Random) → r.inited ≡ true → bytes_loop (m + n) r ≡ both (bytes_loop m r) n
both-loops m n r e =
    let next = random_bytes-started n (bytes_loop m r).1 (bytes_loop-inited m r e) in
    bytes_loop-append m n r ∙ ap (λ q. ((bytes_loop m r).0 ++ q.0, q.1)) (sym next)

-- Two calls of random_bytes give the bytes that one call for their total size gives, and leave the
-- generator in the same state; the generator need not have been started.
pub random_bytes-append :
    (m n : ℕ) (r : Random)
    → random_bytes (m + n) r ≡ (
      (random_bytes m r).0 ++ (random_bytes n (random_bytes m r).1).0,
      (random_bytes n (random_bytes m r).1).1,
    )
random_bytes-append m n r = elim (Bool-cases r.inited) [
  | inl e ↦
      random_bytes-started (m + n) r e
      ∙ both-loops m n r e
      ∙ ap (λ p. both p n) (sym (random_bytes-started m r e))
  | inr e ↦
      random_bytes-starts (m + n) r e
      ∙ both-loops m n (random_init 0 r) (random_init-IsCipher 0 r).inited
      ∙ ap (λ p. both p n) (sym (random_bytes-starts m r e))
]

word :
    (b : List ℕ)
    → IsBytes b
    → length b ≡ 4
    → get_or b 0 0 + 256 * get_or b 1 0 + 256 ^ 2 * get_or b 2 0 + 256 ^ 3 * get_or b 3 0 < 2 ^ 32
word [] h e = absurd (omega arith)
word (w ∷ []) h e = absurd (omega arith)
word (w ∷ x ∷ []) h e = absurd (omega arith)
word (w ∷ x ∷ y ∷ []) h e = absurd (omega arith)
word (w ∷ x ∷ y ∷ z ∷ b) (p, (q, (r, (t, h)))) e = omega arith

-- random_ulong returns a word of 32 bits.
pub random_ulong-bound : (r : Random) → (r.inited ≡ true → IsCipher r) → (random_ulong r).0 < 2 ^ 32
unfolding random_ulong
random_ulong-bound r started =
    let b = random_bytes-IsCipher 4 r started in word (random_bytes 4 r).0 b.0 b.1
