-- ===== src/Random.antt =====
-- lib/random.c: the RC4 generator. A byte is a number below 256; the bytes written to the buffer are
-- the sequence of them.

pub mod Stream
mod Tests
use tiny_os.Common.{
  ℕ, zero, suc, ◌+◌, ◌*◌, ◌/◌, ◌%◌, ◌^◌, Bool, true, List, [], ◌∷◌, ◌==◌, if◌then◌else◌, get_or,
}

-- The variables `s`, `s_i`, `s_j` and `inited`.
pub record Random : Type 0 where
  pub s : ℕ → ℕ
  pub s_i : ℕ
  pub s_j : ℕ
  pub inited : Bool

abbrev pub store : (ℕ → ℕ) → ℕ → ℕ → ℕ → ℕ
store s i x j = if i == j then x else s j

-- The bytes at the indexes `a` and `b` are exchanged.
abbrev pub swap_byte : (ℕ → ℕ) → ℕ → ℕ → ℕ → ℕ
swap_byte s a b = let t = s a in let s1 = store s a (s b) in store s1 b t

pub fill_loop : ℕ → ℕ → (ℕ → ℕ) → ℕ → ℕ
fill_loop zero i s = s
fill_loop (suc left) i s = fill_loop left (i + 1) (store s i (i % 256))

-- seedp[i]: `seed` is a little-endian word of 32 bits.
abbrev pub seed_byte : ℕ → ℕ → ℕ
seed_byte seed i = seed / 256 ^ i % 256

pub mix_loop : ℕ → ℕ → ℕ → ℕ → (ℕ → ℕ) → ℕ → ℕ
mix_loop zero seed i j s = s
mix_loop (suc left) seed i j s =
    let j1 = (j + s i + seed_byte seed (i % 4)) % 256 in
    mix_loop left seed (i + 1) j1 (swap_byte s i j1)

pub random_init : ℕ → Random → Random
random_init seed r = record {
  s = mix_loop 256 seed 0 0 (fill_loop 256 0 r.s);
  s_i = 0;
  s_j = 0;
  inited = true;
}

-- One round of random_bytes: the byte and the new state.
pub next_byte : Random → ℕ × Random
next_byte r =
    let i = (r.s_i + 1) % 256 in
    let j = (r.s_j + r.s i) % 256 in
    let s = swap_byte r.s i j in
    let s_k = (s i + s j) % 256 in (s s_k, record r { s = s; s_i = i; s_j = j })

pub bytes_loop : ℕ → Random → List ℕ × Random
bytes_loop zero r = ([], r)
bytes_loop (suc size) r =
    let rest = bytes_loop size (next_byte r).1 in ((next_byte r).0 ∷ rest.0, rest.1)

pub random_bytes : ℕ → Random → List ℕ × Random
random_bytes size r = bytes_loop size (if r.inited then r else random_init 0 r)

-- An unsigned long has four bytes, the lowest first.
pub random_ulong : Random → ℕ × Random
random_ulong r =
    let b = random_bytes 4 r in
    let byte = λ (i : ℕ). get_or b.0 i 0 in
    (byte 0 + 256 * byte 1 + 256 ^ 2 * byte 2 + 256 ^ 3 * byte 3, b.1)
