-- ===== src/LinkedList.antt =====
-- lib/kernel/list.c: doubly linked lists with a head and a tail element, over an explicit store of
-- links. An element is its address, 0 is NULL. `none` is a failed
-- ASSERT, or a loop that is out of fuel. Comparisons are a function `less` of two elements.
pub mod Chain
pub mod Insert
pub mod Ordered
pub mod Remove
pub mod Walk
mod Tests
use tiny_os.Common.{
  ℕ, zero, suc, ◌+◌, ◌%◌, ◌^◌, Bool, true, false, not, ◌&&◌, Option, none, some, ◌==◌,
  if◌then◌else◌,
}

-- The two links of every `struct list_elem`.
pub record Links : Type 0 where
  pub prev : ℕ → ℕ
  pub next : ℕ → ℕ

-- The addresses of the two header elements of a `struct list`.
pub record KernelList : Type 0 where
  pub head : ℕ
  pub tail : ℕ

-- A call that reads and writes links, and may panic.
abbrev pub Cmd : Type 0 → Type 0
Cmd A = Links → Option (A × Links)

-- What follows a call, given its outcome.
abbrev pub continue : {A B : Type 0} → Option (A × Links) → (A → Cmd B) → Option (B × Links)
continue none f = none
continue (some (a, h)) f = f a h

infixl 5 ◌>>=◌ ◌>>◌
abbrev pub ◌>>=◌ : {A B : Type 0} → Cmd A → (A → Cmd B) → Cmd B
m >>= f = λ h. continue (m h) f

abbrev pub ◌>>◌ : {B : Type 0} → Cmd (Unit {0}) → Cmd B → Cmd B
m >> k = m >>= λ _. k

abbrev pub pure : {A : Type 0} → A → Cmd A
pure a h = some (a, h)

abbrev pub out_of_fuel : {A : Type 0} → Cmd A
out_of_fuel h = none

-- ASSERT (TEST).
abbrev pub check : Bool → Cmd (Unit {0})
check true h = some (tt, h)
check false h = none

abbrev pub update : (ℕ → ℕ) → ℕ → ℕ → ℕ → ℕ
update f a v b = if a == b then v else f b

abbrev get_prev : ℕ → Cmd ℕ
get_prev e h = some (h.prev e, h)

abbrev get_next : ℕ → Cmd ℕ
get_next e h = some (h.next e, h)

abbrev set_prev : ℕ → ℕ → Cmd (Unit {0})
set_prev e p h = some (tt, record h { prev = update h.prev e p })

abbrev set_next : ℕ → ℕ → Cmd (Unit {0})
set_next e n h = some (tt, record h { next = update h.next e n })

pub is_head : ℕ → Links → Bool
is_head e h = not (e == 0) && (h.prev e == 0 && not (h.next e == 0))

pub is_interior : ℕ → Links → Bool
is_interior e h = not (e == 0) && (not (h.prev e == 0) && not (h.next e == 0))

pub is_tail : ℕ → Links → Bool
is_tail e h = not (e == 0) && (not (h.prev e == 0) && h.next e == 0)

-- `ASSERT (is_head (elem) || is_interior (elem))`, and the like for a tail.
abbrev check_not_tail : ℕ → Cmd (Unit {0})
check_not_tail e h = check (if is_head e h then true else is_interior e h) h

abbrev check_not_head : ℕ → Cmd (Unit {0})
check_not_head e h = check (if is_interior e h then true else is_tail e h) h

abbrev check_interior : ℕ → Cmd (Unit {0})
check_interior e h = check (is_interior e h) h

pub init : KernelList → Cmd (Unit {0})
init l = do
  check (not (l.head == 0))
  set_prev l.head 0
  set_next l.head l.tail
  set_prev l.tail l.head
  set_next l.tail 0

abbrev pub begin : KernelList → Cmd ℕ
begin l = get_next l.head

pub next : ℕ → Cmd ℕ
next e = do check_not_tail e; get_next e

abbrev pub end : KernelList → ℕ
end l = l.tail

abbrev pub rbegin : KernelList → Cmd ℕ
rbegin l = get_prev l.tail

pub prev : ℕ → Cmd ℕ
prev e = do check_not_head e; get_prev e

abbrev pub rend : KernelList → ℕ
rend l = l.head

pub insert : ℕ → ℕ → Cmd (Unit {0})
insert before elem = do
  check_not_head before
  check (not (elem == 0))
  p ← get_prev before
  set_prev elem p
  set_next elem before
  q ← get_prev before
  set_next q elem
  set_prev before elem

pub push_front : KernelList → ℕ → Cmd (Unit {0})
push_front l elem = do b ← begin l; insert b elem

pub push_back : KernelList → ℕ → Cmd (Unit {0})
push_back l elem = insert (end l) elem

pub remove : ℕ → Cmd ℕ
remove elem = do
  check_interior elem
  p ← get_prev elem
  n ← get_next elem
  set_next p n
  m ← get_next elem
  q ← get_prev elem
  set_prev m q
  get_next elem

pub empty : KernelList → Cmd Bool
empty l = do b ← begin l; pure (b == end l)

pub front : KernelList → Cmd ℕ
front l = do no_elem ← empty l; check (not no_elem); get_next l.head

pub back : KernelList → Cmd ℕ
back l = do no_elem ← empty l; check (not no_elem); get_prev l.tail

pub pop_front : KernelList → Cmd ℕ
unfolding front empty
pop_front l = do f ← front l; after ← remove f; pure f

pub pop_back : KernelList → Cmd ℕ
unfolding back empty
pop_back l = do b ← back l; after ← remove b; pure b

-- The splice of `first` up to, but not including, `last` in front of `before`.
pub splice : ℕ → ℕ → ℕ → Cmd (Unit {0})
splice before first last = do
  check_not_head before
  if first == last then pure tt else do
    last' ← prev last
    check_interior first
    check_interior last'
    fp ← get_prev first
    ln ← get_next last'
    set_next fp ln
    ln' ← get_next last'
    fp' ← get_prev first
    set_prev ln' fp'
    bp ← get_prev before
    set_prev first bp
    set_next last' before
    bp' ← get_prev before
    set_next bp' first
    set_prev before last'

size_loop : ℕ → KernelList → ℕ → ℕ → Cmd ℕ
size_loop zero l e cnt = out_of_fuel
size_loop (suc fuel) l e cnt =
    if e == end l then pure cnt else do e' ← next e; size_loop fuel l e' ((cnt + 1) % 2 ^ 32)

pub size : ℕ → KernelList → Cmd ℕ
unfolding size_loop
size fuel l = do b ← begin l; size_loop fuel l b 0

module _ (less : ℕ → ℕ → Bool) where
  -- The place before which `list_insert_ordered` inserts.
  place_loop : ℕ → KernelList → ℕ → ℕ → Cmd ℕ
  place_loop zero l elem e = out_of_fuel
  place_loop (suc fuel) l elem e =
      if e == end l
      then pure e
      else if less elem e
      then pure e
      else do e' ← next e; place_loop fuel l elem e'

  pub insert_ordered : ℕ → KernelList → ℕ → Cmd (Unit {0})
  unfolding place_loop
  insert_ordered fuel l elem = do b ← begin l; e ← place_loop fuel l elem b; insert e elem

  pub max_loop : ℕ → KernelList → ℕ → ℕ → Cmd ℕ
  max_loop zero l max e = out_of_fuel
  max_loop (suc fuel) l max e =
      if e == end l
      then pure max
      else do e' ← next e; max_loop fuel l (if less max e then e else max) e'

  pub max : ℕ → KernelList → Cmd ℕ
  unfolding max_loop
  max fuel l = do b ← begin l; if b == end l then pure b else do e ← next b; max_loop fuel l b e

  pub min_loop : ℕ → KernelList → ℕ → ℕ → Cmd ℕ
  min_loop zero l min e = out_of_fuel
  min_loop (suc fuel) l min e =
      if e == end l
      then pure min
      else do e' ← next e; min_loop fuel l (if less e min then e else min) e'

  pub min : ℕ → KernelList → Cmd ℕ
  unfolding min_loop
  min fuel l = do b ← begin l; if b == end l then pure b else do e ← next b; min_loop fuel l b e
