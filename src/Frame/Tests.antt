-- ===== src/Frame/Tests.antt =====
-- Runs of frame.c on a table of three frames, of which the second is not loaded, with the hand at the first.
use tiny_os.Common.{◌&&◌, ◌≡◌, refl, true, false, some, List, [], ◌∷◌, ◌++◌}
use tiny_os.Frame.{
  is_frame, is_kept, ft_replacement, Frame, at_head, FrameTable, frame_list, check_and_set_hand,
  get_frame_for_replacement, drop_first, has_page, ft_free_page,
}
use tiny_os.Frame.Clock.{table, Victim}
use tiny_os.Frame.Replacement.{Removed, get_frame_for_replacement-Victim, ft_replacement-Removed}
use tiny_os.Frame.Removal.{StillSafe, ft_free_page-drops}

abbrev accessed : Frame
accessed = record {
  t = 1;
  user_page = 4096;
  pte = 39;
  pte_pointer = 3223322700;
  virtual_address = 8192;
  loaded = true;
}

abbrev still_read : Frame
still_read = record {
  t = 1;
  user_page = 12288;
  pte = 0;
  pte_pointer = 3223322700;
  virtual_address = 0;
  loaded = false;
}

abbrev unused : Frame
unused = record {
  t = 2;
  user_page = 20480;
  pte = 71;
  pte_pointer = 3223322700;
  virtual_address = 8192;
  loaded = true;
}

abbrev three_frames : FrameTable
three_frames = record { behind = []; ahead = accessed ∷ still_read ∷ unused ∷ []; hand = at_head }

get_frame_for_replacement-Victim_example :
    (b : List Frame) × (f : Frame) × (fs : List Frame) × (check_and_set_hand three_frames
      ≡ table b f fs)
    × (c : Frame) × (b' fs' : List Frame) × (get_frame_for_replacement three_frames
        ≡ some (c, table b' c fs'))
    × Victim (f ∷ fs ++ b) c (fs' ++ b')
get_frame_for_replacement-Victim_example = get_frame_for_replacement-Victim three_frames refl refl

ft_replacement-Removed_example :
    (b : List Frame) × (f : Frame) × (fs : List Frame) × (check_and_set_hand three_frames
      ≡ table b f fs)
    × (c : Frame) × (rest : List Frame) × Victim (f ∷ fs ++ b) c rest
    × Removed (is_frame c && is_kept false 4096 c) (ft_replacement false 4096 three_frames) c rest
ft_replacement-Removed_example = ft_replacement-Removed three_frames refl refl false 4096

ft_free_page-drops_example :
    (frame_list (ft_free_page 1 12288 three_frames)
      ≡ drop_first (has_page 12288 1) (frame_list three_frames))
    × StillSafe three_frames.hand (ft_free_page 1 12288 three_frames)
ft_free_page-drops_example = ft_free_page-drops 1 12288 three_frames
