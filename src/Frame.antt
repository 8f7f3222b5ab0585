-- ===== src/Frame.antt =====
-- vm/frame.c: the frame table and its clock hand. The list is the sequence of its frames, cut at the hand; the word
-- that PTE points to is the member `pte` of the frame, as it is no other frame's, and PTE itself is pte_pointer.

pub mod Clock
pub mod Replacement
pub mod Removal
mod Tests
use tiny_os.Common.{
  ℕ, zero, suc, ◌+◌, ◌-◌, ◌*◌, ◌/◌, ◌%◌, Bool, true, false, not, ◌&&◌, ◌||◌, Option, none, some,
  List, [], ◌∷◌, ◌++◌, ◌==◌, if◌then◌else◌, length,
}
use tiny_os.Common.Panic.{assert, ◌>>=◌, ◌>>◌}

pub record Frame : Type 0 where
  pub t : ℕ
  pub user_page : ℕ
  pub pte : ℕ
  pub pte_pointer : ℕ
  pub virtual_address : ℕ
  pub loaded : Bool

-- The hand is at the head of the list, at the first of the frames ahead of it, or at the tail if there are none; or
-- it is at a frame that was freed.
pub data Hand : Type 0 where
  at_head : Hand
  at_frame : Hand
  at_freed : Hand

pub record FrameTable : Type 0 where
  pub behind : List Frame
  pub ahead : List Frame
  pub hand : Hand

-- `frame_list`.
abbrev pub frame_list : FrameTable → List Frame
frame_list ft = ft.behind ++ ft.ahead

abbrev pub init : FrameTable
init = record { behind = []; ahead = []; hand = at_head }

-- `w & PTE_A` as a test, and `w & ~PTE_A`.
abbrev pub is_accessed : ℕ → Bool
is_accessed w = w / 32 % 2 == 1

abbrev pub clear_accessed : ℕ → ℕ
clear_accessed w = w - 32 * (w / 32 % 2)

abbrev pub wrapped : List Frame → List Frame → FrameTable
wrapped behind [] = record { behind = []; ahead = behind; hand = at_frame }
wrapped behind (f ∷ fs) = record { behind = behind; ahead = f ∷ fs; hand = at_frame }

abbrev pub check_and_set_hand : FrameTable → FrameTable
check_and_set_hand ft = elim ft.hand [
  | at_head ↦ wrapped ft.behind ft.ahead
  | at_frame ↦ wrapped ft.behind ft.ahead
  | at_freed ↦ ft
]

-- What the scan does to a frame that it passes, and whether it passes it.
abbrev pub passed : Frame → Frame
passed f = if f.loaded then record f { pte = clear_accessed f.pte } else f

abbrev pub is_passed : Frame → Bool
is_passed f = f.loaded && is_accessed f.pte || not f.loaded

-- The frame at the hand, or `none` where the source reads what is no frame.
abbrev pub at_hand : FrameTable → Option Frame
at_hand ft = elim ft.hand [
  | at_head ↦ none
  | at_frame ↦ elim ft.ahead [ [] ↦ none | f ∷ fs ↦ some f ]
  | at_freed ↦ none
]

abbrev pub tail_of : List Frame → List Frame
tail_of [] = []
tail_of (f ∷ fs) = fs

pub scan_loop : ℕ → FrameTable → Option (Frame × FrameTable)
scan_loop zero ft = none
scan_loop (suc fuel) ft = elim (at_hand ft) [
  | none ↦ none
  | some f ↦
      let next = check_and_set_hand (record {
        behind = ft.behind ++ (passed f ∷ []);
        ahead = tail_of ft.ahead;
        hand = at_frame;
      }) in
      let rest = scan_loop fuel next in if is_passed f then rest else some (f, ft)
]

-- The frame that is chosen, with the hand at it. Two rounds and one frame more are the fuel.
pub get_frame_for_replacement : FrameTable → Option (Frame × FrameTable)
get_frame_for_replacement ft = scan_loop (2 * length (frame_list ft) + 1) (check_and_set_hand ft)

-- `hand = list_next (hand)`, check_and_set_hand and list_remove for the frame at the hand, which is freed.
abbrev pub without : List Frame → List Frame → FrameTable
without [] [] = record { behind = []; ahead = []; hand = at_freed }
without (b ∷ bs) [] = record { behind = []; ahead = b ∷ bs; hand = at_frame }
without bs (f ∷ fs) = record { behind = bs; ahead = f ∷ fs; hand = at_frame }

-- `hand = list_next (hand)` and check_and_set_hand, `none` for a hand at a frame that was freed.
abbrev pub advanced : FrameTable → Option FrameTable
advanced ft = elim (at_hand ft) [
  | none ↦ none
  | some f ↦ some (
      check_and_set_hand
        (record { behind = ft.behind ++ (f ∷ []); ahead = tail_of ft.ahead; hand = at_frame }))
]

-- `w & PTE_D` as a test.
abbrev pub is_dirty : ℕ → Bool
is_dirty w = w / 64 % 2 == 1

-- `p & 0xfffff000` is not the pattern of memory that was freed.
abbrev pub is_filled : ℕ → Bool
is_filled p = not (p - p % 4096 == 0xccccc000)

abbrev pub is_frame : Frame → Bool
is_frame f = is_filled f.virtual_address && is_filled f.pte_pointer

-- What has to hold of the write-out of the page: a dirty page that is no page of a file is given a swap slot.
abbrev pub is_kept : Bool → ℕ → Frame → Bool
is_kept is_file swap_slot f = not (is_dirty f.pte) || is_file || not (swap_slot == 0)

-- The frame whose page is reused is taken out of the list, and the hand goes on. `is_file` says whether the
-- lazy page of the frame is a page of a file, and `swap_slot` is what swap_slot_write returns, if it is
-- called; the contents of the page and the page tables are not modelled.
pub ft_replacement : Bool → ℕ → FrameTable → Option (Frame × FrameTable)
ft_replacement is_file swap_slot ft = get_frame_for_replacement ft >>= λ r.
    assert (is_frame r.0)
    >> (assert (is_kept is_file swap_slot r.0)
        >> (advanced (without r.1.behind (tail_of r.1.ahead)) >>= λ next. some (r.0, next)))

abbrev pub has_page : ℕ → ℕ → Frame → Bool
has_page page t f = f.user_page == page && f.t == t

abbrev pub drop_first : (Frame → Bool) → List Frame → List Frame
drop_first p [] = []
drop_first p (f ∷ fs) = let rest = drop_first p fs in if p f then fs else f ∷ rest

abbrev pub any_frame : (Frame → Bool) → List Frame → Bool
any_frame p [] = false
any_frame p (f ∷ fs) = p f || any_frame p fs

-- The loop of ft_free_page: the first frame of the list that has the page is removed.
pub free_loop : (Frame → Bool) → FrameTable → FrameTable
free_loop p ft =
    if any_frame p ft.behind then record ft { behind = drop_first p ft.behind } else elim ft.hand [
      | at_head ↦ record ft { ahead = drop_first p ft.ahead }
      | at_freed ↦ record ft { ahead = drop_first p ft.ahead }
      | at_frame ↦ elim ft.ahead [
        | [] ↦ ft
        | f ∷ fs ↦ if p f then without ft.behind fs else record ft { ahead = f ∷ drop_first p fs }
      ]
    ]

-- ft_free_page up to the release of the page, by the thread `current`.
abbrev pub ft_free_page : ℕ → ℕ → FrameTable → FrameTable
ft_free_page current page ft = free_loop (has_page page current) ft

-- list_push_back of a frame that is not loaded: the tail of the list, if the hand is there, stays at the end.
abbrev pub push_frame : Frame → FrameTable → FrameTable
push_frame f ft = elim ft.hand [
  | at_head ↦ record ft { ahead = ft.ahead ++ (f ∷ []) }
  | at_freed ↦ record ft { ahead = ft.ahead ++ (f ∷ []) }
  | at_frame ↦ elim ft.ahead [
    | [] ↦ record ft { behind = ft.behind ++ (f ∷ []) }
    | g ∷ gs ↦ record ft { ahead = g ∷ gs ++ (f ∷ []) }
  ]
]

-- ft_get_page by the thread `current`, where palloc_get_page returns `page`; PTE and virtual_address of the new
-- frame are what malloc leaves there, and the other arguments those of ft_replacement.
pub ft_get_page :
    ℕ → Bool → ℕ → ℕ → ℕ → ℕ → Bool → ℕ → FrameTable → Option (Option Frame × FrameTable)
ft_get_page current user page pte pte_pointer virtual_address is_file swap_slot ft =
    let new : ℕ → Frame = λ page. record {
      t = current;
      user_page = page;
      pte = pte;
      pte_pointer = pte_pointer;
      virtual_address = virtual_address;
      loaded = false;
    } in
    let replaced = ft_replacement is_file swap_slot ft >>= λ r.
    if r.0.user_page == 0
    then some (none, r.1)
    else some (some (new r.0.user_page), push_frame (new r.0.user_page) r.1) in
    assert user
    >> (if page == 0 then replaced else some (some (new page), push_frame (new page) ft))
