-- ===== src/Intq/Contents.antt =====
-- The bytes that an interrupt queue of devices/intq.c holds, oldest first.
use tiny_os.Common.{
  ℕ, zero, suc, ◌+◌, ◌-◌, ◌≤◌, ◌<◌, ◌≡◌, refl, ap, ◌∙◌, false, List, [], ◌∷◌, ◌++◌, ◌==◌,
  if◌then◌else◌, ltb, length, arith, ==_refl,
}
use tiny_os.Intq.{Intq, next_pos, intq_empty, intq_full, store}

pub record IsIntq (q : Intq) : Type 0 where
  pub head_bound : q.head < 64
  pub tail_bound : q.tail < 64

-- How many bytes lie between the two positions.
abbrev pub distance : ℕ → ℕ → ℕ
distance tail head = if ltb head tail then head + 64 - tail else head - tail

-- `n` bytes from a position on, the buffer being a circle.
abbrev pub window : (ℕ → ℕ) → ℕ → ℕ → List ℕ
window buf pos zero = []
window buf pos (suc n) = buf pos ∷ window buf (next_pos pos) n

abbrev pub contents : Intq → List ℕ
contents q = window q.buf q.tail (distance q.tail q.head)

pub next_pos-bound : (p : ℕ) → next_pos p < 64
unfolding next_pos
next_pos-bound p = omega arith

pub next_pos-cases : (p : ℕ) → p < 64 → next_pos p ≡ (if p == 63 then 0 else p + 1)
unfolding next_pos
next_pos-cases p h = ground arith

pub length-window : (buf : ℕ → ℕ) (p n : ℕ) → length (window buf p n) ≡ n
length-window buf p zero = refl
length-window buf p (suc n) = let ih = length-window buf (next_pos p) n in omega arith

-- The position `n` places after another.
abbrev ahead : ℕ → ℕ → ℕ
ahead p zero = p
ahead p (suc n) = ahead (next_pos p) n

ahead-distance : (n p h : ℕ) → p < 64 → h < 64 → distance p h ≡ n → ahead p n ≡ h
ahead-distance zero p h bp bh d = ground arith
ahead-distance (suc n) p h bp bh d =
    let c = next_pos-cases p bp in
    let b = next_pos-bound p in ahead-distance n (next_pos p) h b bh (ground arith)

window-append :
    (buf : ℕ → ℕ) (n p : ℕ) → window buf p (suc n) ≡ window buf p n ++ (buf (ahead p n) ∷ [])
window-append buf zero p = refl
window-append buf (suc n) p = ap (λ xs. buf p ∷ xs) (window-append buf n (next_pos p))

-- A byte stored outside of a window does not change it.
window-store :
    (buf : ℕ → ℕ) (byte h n p : ℕ)
    → p < 64
    → h < 64
    → n ≤ distance p h
    → window (store buf h byte) p n ≡ window buf p n
window-store buf byte h zero p bp bh d = refl
window-store buf byte h (suc n) p bp bh d =
    let c = next_pos-cases p bp in
    let other : (h == p) ≡ false = ground arith in
    let ih = window-store buf byte h n (next_pos p) (next_pos-bound p) bh (ground arith) in
    rw (other, ih) refl

module _ (q : Intq) (wf : IsIntq q) where
  length-contents : length (contents q) ≡ distance q.tail q.head
  length-contents = length-window q.buf q.tail (distance q.tail q.head)

  -- A queue never holds more than 63 bytes; intq_empty says whether it holds none, and intq_full
  -- whether it holds 63.
  pub contents-bounds :
      (length (contents q) ≤ 63)
      × (intq_empty q ≡ (length (contents q) == 0))
      × (intq_full q ≡ (length (contents q) == 63))
  unfolding intq_empty intq_full
  contents-bounds =
      let hb = wf.head_bound in
      let tb = wf.tail_bound in
      let n = next_pos-cases q.head hb in
      let size = length-contents in (ground arith, ground arith, ground arith)

  -- Reading at the tail takes the oldest byte.
  pub contents-read :
      intq_empty q ≡ false
      → contents q ≡ q.buf q.tail ∷ contents (record q { tail = next_pos q.tail })
  unfolding intq_empty
  contents-read some_byte =
      let hb = wf.head_bound in
      let tb = wf.tail_bound in
      let n = next_pos-cases q.tail tb in
      let size : distance q.tail q.head ≡ suc (distance (next_pos q.tail) q.head) = ground arith in
      ap (window q.buf q.tail) size

  -- Storing at the head adds a byte behind the others.
  pub contents-store :
      (byte : ℕ)
      → intq_full q ≡ false
      → contents (record q { buf = store q.buf q.head byte; head = next_pos q.head })
        ≡ contents q ++ (byte ∷ [])
  unfolding intq_full
  contents-store byte space =
      let hb = wf.head_bound in
      let tb = wf.tail_bound in
      let b = next_pos-cases q.head hb in
      let n = distance q.tail q.head in
      let buf1 = store q.buf q.head byte in
      let size : distance q.tail (next_pos q.head) ≡ suc n = ground arith in
      let kept = window-store q.buf byte q.head n q.tail tb hb (omega arith) in
      let here = ahead-distance n q.tail q.head tb hb refl in
      let new : buf1 (ahead q.tail n) ≡ byte = rw here (let s = ==_refl q.head in ground arith) in
      ap (window buf1 q.tail) size
      ∙ window-append buf1 n q.tail
      ∙ ap (λ xs. xs ++ (buf1 (ahead q.tail n) ∷ [])) kept
      ∙ ap (λ x. window q.buf q.tail n ++ (x ∷ [])) new
