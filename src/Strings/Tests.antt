-- ===== src/Strings/Tests.antt =====
-- Runs of lib/string.c on a memory in which each byte is its address.
use mathlib.Core.Option
use tiny_os.Common.{ℕ, ◌≡◌, refl, some, ◌==◌, if◌then◌else◌, arith}
use tiny_os.Strings.{
  Bytes, memmove, memcpy, forward_loop, strchr, strchr_loop, strcspn, span_loop, strlen,
  strlen_loop, strlcpy, strtok_r, skip_loop,
}
use tiny_os.Strings.Moves.{copied, memmove-copied}

abbrev ramp : Bytes
ramp a = a

-- Two blocks of 8 bytes that overlap, the lower one the destination.
memmove-copied_example :
    (m' : Bytes) × (memmove 100 104 8 ramp ≡ some (108, m'))
    × ((a : ℕ) → m' a ≡ copied ramp 100 104 8 a)
memmove-copied_example = memmove-copied 100 104 8 ramp (λ e. ground arith) (λ e. ground arith)

-- The string ",ab,," at 10 and the delimiters "," at 20.
abbrev commas : Bytes
commas a =
    if a == 10
    then 44
    else if a == 11
    then 97
    else if a == 12
    then 98
    else if a == 13
    then 44
    else if a == 14
    then 44
    else if a == 20
    then 44
    else 0

first_token : Option.map {B = ℕ × ℕ} (λ r. (r.0, r.1.0)) (strtok_r 9 10 20 0 commas) ≡ some (11, 14)
unfolding strtok_r skip_loop strchr strchr_loop
first_token = refl

no_more_tokens :
    Option.map {B = ℕ × ℕ} (λ r. (r.0, r.1.0)) (strtok_r 9 0 20 14 commas) ≡ some (0, 15)
unfolding strtok_r skip_loop strchr strchr_loop
no_more_tokens = refl

find_comma : strcspn 9 11 20 commas ≡ some 2
unfolding strcspn span_loop strchr strchr_loop
find_comma = refl

length_of_commas : strlen 9 10 commas ≡ some 5
unfolding strlen strlen_loop
length_of_commas = refl

-- A copy of at most 3 bytes, of which the last is the end.
short_copy :
    Option.map {B = ℕ × ℕ × ℕ × ℕ} (λ r. (r.0, r.1 40, r.1 41, r.1 42)) (strlcpy 9 40 11 3 commas)
    ≡ some (4, 97, 98, 0)
unfolding strlcpy strlen strlen_loop memcpy forward_loop
short_copy = refl
