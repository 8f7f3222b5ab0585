-- ===== src/Strings.antt =====
-- lib/string.c: blocks and strings of bytes in memory. A pointer is an address, 0 is NULL; `none` is
-- a failed ASSERT, or a search that is out of fuel before it meets the end of its string.

pub mod Moves
mod Tests
use tiny_os.Common.{
  ℕ, zero, suc, ◌+◌, ◌-◌, ◌%◌, ◌^◌, Bool, true, false, not, ◌&&◌, ◌||◌, Option, none, some, ◌==◌,
  ltb, leb, if◌then◌else◌,
}
use tiny_os.Common.Integers.{ℤ, pos, negsuc}
use tiny_os.Common.Panic.{assert, ◌>>=◌, ◌>>◌}

abbrev pub Bytes : Type 0
Bytes = ℕ → ℕ

abbrev pub write : Bytes → ℕ → ℕ → Bytes
write m p b a = if p == a then b else m a

-- `while (size-- > 0) *dst++ = *src++;`, with the value of `dst` behind it.
pub forward_loop : ℕ → ℕ → ℕ → Bytes → ℕ × Bytes
forward_loop zero dst src m = (dst, m)
forward_loop (suc n) dst src m = forward_loop n (dst + 1) (src + 1) (write m dst (m src))

-- `while (size-- > 0) *--dst = *--src;`, with the value of `dst` behind it.
pub backward_loop : ℕ → ℕ → ℕ → Bytes → ℕ × Bytes
backward_loop zero dst src m = (dst, m)
backward_loop (suc n) dst src m =
    backward_loop n (dst - 1) (src - 1) (write m (dst - 1) (m (src - 1)))

pub memcpy : ℕ → ℕ → ℕ → Bytes → Option (ℕ × Bytes)
memcpy dst src size m = do
  assert (not (dst == 0) || size == 0)
  assert (not (src == 0) || size == 0)
  some (dst, (forward_loop size dst src m).1)

-- What is returned is the variable `dst`, which the first loop has moved.
pub memmove : ℕ → ℕ → ℕ → Bytes → Option (ℕ × Bytes)
memmove dst src size m = do
  assert (not (dst == 0) || size == 0)
  assert (not (src == 0) || size == 0)
  some (
      if ltb dst src
      then forward_loop size dst src m
      else backward_loop size (dst + size) (src + size) m)

pub memcmp_loop : ℕ → ℕ → ℕ → Bytes → ℤ
memcmp_loop zero a b m = pos 0
memcmp_loop (suc n) a b m =
    let rest = memcmp_loop n (a + 1) (b + 1) m in
    if m a == m b then rest else if ltb (m b) (m a) then pos 1 else negsuc 0

pub memcmp : ℕ → ℕ → ℕ → Bytes → Option ℤ
memcmp a b size m = do
  assert (not (a == 0) || size == 0)
  assert (not (b == 0) || size == 0)
  some (memcmp_loop size a b m)

pub strcmp_loop : ℕ → ℕ → ℕ → Bytes → Option ℤ
strcmp_loop zero a b m = none
strcmp_loop (suc fuel) a b m =
    let rest = strcmp_loop fuel (a + 1) (b + 1) m in
    if not (m a == 0) && m a == m b
    then rest
    else if ltb (m a) (m b)
    then some (negsuc 0)
    else some (if ltb (m b) (m a) then pos 1 else pos 0)

pub strcmp : ℕ → ℕ → ℕ → Bytes → Option ℤ
strcmp fuel a b m = do assert (not (a == 0)); assert (not (b == 0)); strcmp_loop fuel a b m

pub memchr_loop : ℕ → ℕ → ℕ → Bytes → ℕ
memchr_loop zero block ch m = 0
memchr_loop (suc n) block ch m =
    let rest = memchr_loop n (block + 1) ch m in if m block == ch then block else rest

pub memchr : ℕ → ℕ → ℕ → Bytes → Option ℕ
memchr block ch size m = do
  assert (not (block == 0) || size == 0)
  some (memchr_loop size block (ch % 2 ^ 8) m)

pub strchr_loop : ℕ → ℕ → ℕ → Bytes → Option ℕ
strchr_loop zero string c m = none
strchr_loop (suc fuel) string c m =
    let rest = strchr_loop fuel (string + 1) c m in
    if m string == c then some string else if m string == 0 then some 0 else rest

pub strchr : ℕ → ℕ → ℕ → Bytes → Option ℕ
strchr fuel string c m = assert (not (string == 0)) >> strchr_loop fuel string (c % 2 ^ 8) m

pub strrchr_loop : ℕ → ℕ → ℕ → ℕ → Bytes → Option ℕ
strrchr_loop zero string c p m = none
strrchr_loop (suc fuel) string c p m =
    let rest = strrchr_loop fuel (string + 1) c (if m string == c then string else p) m in
    if m string == 0 then some p else rest

pub strrchr : ℕ → ℕ → ℕ → Bytes → Option ℕ
strrchr fuel string c m = strrchr_loop fuel string (c % 2 ^ 8) 0 m

-- The loops of strcspn, strspn and strpbrk stop at the first byte of which the search in `set`
-- finds or misses; `found` says which.
pub span_loop : Bool → ℕ → ℕ → ℕ → ℕ → ℕ → Bytes → Option ℕ
span_loop found set_fuel zero string set length m = none
span_loop found set_fuel (suc fuel) string set length m =
    let rest = span_loop found set_fuel fuel string set (length + 1) m in
    let ch = m (string + length) in
    if ch == 0
    then some length
    else (strchr set_fuel set ch m >>= λ p.
        if (if found then not (p == 0) else p == 0) then some length else rest)

pub strcspn : ℕ → ℕ → ℕ → Bytes → Option ℕ
strcspn fuel string stop m = span_loop true fuel fuel string stop 0 m

pub strspn : ℕ → ℕ → ℕ → Bytes → Option ℕ
strspn fuel string skip m = span_loop false fuel fuel string skip 0 m

pub strpbrk : ℕ → ℕ → ℕ → Bytes → Option ℕ
strpbrk fuel string stop m = span_loop true fuel fuel string stop 0 m >>= λ length.
    some (if m (string + length) == 0 then 0 else string + length)

pub strlen_loop : ℕ → ℕ → Bytes → Option ℕ
strlen_loop zero p m = none
strlen_loop (suc fuel) p m =
    let rest = strlen_loop fuel (p + 1) m in if m p == 0 then some p else rest

pub strlen : ℕ → ℕ → Bytes → Option ℕ
strlen fuel string m = do
  assert (not (string == 0))
  p ← strlen_loop fuel string m
  some (p - string)

pub strstr_loop : ℕ → ℕ → ℕ → ℕ → Bytes → Option ℕ
strstr_loop zero haystack needle needle_len m = some 0
strstr_loop (suc left) haystack needle needle_len m =
    let rest = strstr_loop left (haystack + 1) needle needle_len m in
    memcmp haystack needle needle_len m >>= λ r. elim r [ pos zero ↦ some haystack | _ ↦ rest ]

pub strstr : ℕ → ℕ → ℕ → Bytes → Option ℕ
strstr fuel haystack needle m = do
  haystack_len ← strlen fuel haystack m
  needle_len ← strlen fuel needle m
  if leb needle_len haystack_len
      then strstr_loop (haystack_len - needle_len + 1) haystack needle needle_len m
      else some 0

pub strlcpy : ℕ → ℕ → ℕ → ℕ → Bytes → Option (ℕ × Bytes)
strlcpy fuel dst src size m = do
  assert (not (dst == 0))
  assert (not (src == 0))
  src_len ← strlen fuel src m
  if size == 0 then some (src_len, m) else do
    let dst_len = if ltb src_len (size - 1) then src_len else size - 1
    r ← memcpy dst src dst_len m
    some (src_len, write r.1 (dst + dst_len) 0)

pub strlcat : ℕ → ℕ → ℕ → ℕ → Bytes → Option (ℕ × Bytes)
strlcat fuel dst src size m = do
  assert (not (dst == 0))
  assert (not (src == 0))
  src_len ← strlen fuel src m
  dst_len ← strlen fuel dst m
  let total = (src_len + dst_len) % 2 ^ 32
  if size == 0 || leb size dst_len then some (total, m) else do
    let room = size - dst_len - 1
    let copy_cnt = if ltb src_len room then src_len else room
    r ← memcpy (dst + dst_len) src copy_cnt m
    some (total, write r.1 (dst + (dst_len + copy_cnt)) 0)

pub strnlen_loop : ℕ → ℕ → ℕ → Bytes → ℕ
strnlen_loop zero string length m = length
strnlen_loop (suc left) string length m =
    let rest = strnlen_loop left string (length + 1) m in
    if m (string + length) == 0 then length else rest

pub strnlen : ℕ → ℕ → Bytes → ℕ
strnlen string maxlen m = strnlen_loop maxlen string 0 m

-- The loops of strtok_r: the first goes on past delimiters and stops at the end of the string, the
-- second goes on to a delimiter, of which the end is one.
pub skip_loop : Bool → ℕ → ℕ → ℕ → ℕ → Bytes → Option ℕ
skip_loop past set_fuel zero s delimiters m = none
skip_loop past set_fuel (suc fuel) s delimiters m =
    let rest = skip_loop past set_fuel fuel (s + 1) delimiters m in
    strchr set_fuel delimiters (m s) m >>= λ p.
    if past then (if p == 0 || m s == 0 then some s else rest) else if p == 0 then rest else some s

-- The saved pointer is an argument, and the second of the results; the first is the token.
pub strtok_r : ℕ → ℕ → ℕ → ℕ → Bytes → Option (ℕ × (ℕ × Bytes))
strtok_r fuel s delimiters save m = do
  assert (not (delimiters == 0))
  let from = if s == 0 then save else s
  assert (not (from == 0))
  token ← skip_loop true fuel fuel from delimiters m
  if m token == 0 then some (0, (token, m)) else do
    end ← skip_loop false fuel fuel token delimiters m
    if m end == 0 then some (token, (end, m)) else some (token, (end + 1, write m end 0))
