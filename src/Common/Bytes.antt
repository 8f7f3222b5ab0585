-- ===== src/Common/Bytes.antt =====
-- Words of 32 bits as four bytes, the lowest first.
use Prim.Native.Nat.{ℕ, ◌+◌, ◌*◌, ◌/◌, ◌%◌, ◌^◌, ◌<◌}
use mathlib.Core.Path.{◌≡◌}
use native.Mathlib.Omega.{arith}

abbrev pub le_byte : ℕ → ℕ → ℕ
le_byte w i = w / 256 ^ i % 256

abbrev pub le_word : (ℕ → ℕ) → ℕ → ℕ
le_word bytes i = bytes i + 256 * bytes (i + 1) + 65536 * bytes (i + 2) + 16777216 * bytes (i + 3)

pub le_word-le_byte :
    (bytes : ℕ → ℕ) (i w : ℕ)
    → w < 2 ^ 32
    → ((k : ℕ) → k < 4 → bytes (i + k) ≡ le_byte w k)
    → le_word bytes i ≡ w
le_word-le_byte bytes i w small same =
    let z : i + 0 ≡ i = omega arith in
    let first : bytes i ≡ w / 256 ^ 0 % 256 = rw z at (same 0 (omega arith)) in
    rw (first, same 1 (omega arith), same 2 (omega arith), same 3 (omega arith)) (omega arith)
