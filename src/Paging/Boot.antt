-- ===== src/Paging/Boot.antt =====
-- paging.c: the state that the static initialisers give.
use luma_osjang.Common.{ℕ, refl, false, [], ◌==◌, arith}
use luma_osjang.Paging.{Paging, zero_entry}
use luma_osjang.Paging.Frames.{free_frames, IsValid}
use luma_osjang.Paging.Invariant.{IsSound}

-- `page_manager_state` as it is initialised, with empty directories.
abbrev pub boot_paging : Paging
boot_paging = record {
  page_frame_map = λ i. i == 0;
  free_page_frame_count = 31;
  directory = λ _ _. zero_entry;
  page_directory_used = λ _. false;
  flushed = [];
  cr0 = 0;
  cr3 = 0;
  cr4 = 0;
}

pub boot_paging-IsValid : IsValid boot_paging
unfolding free_frames
boot_paging-IsValid = record { reserved = refl; counted = refl }

pub boot_paging-IsSound : (list_base : ℕ) → IsSound list_base boot_paging
boot_paging-IsSound list_base = record {
  valid = boot_paging-IsValid;
  owned = record {
    held = λ i j hi hj p. absurd (ground arith);
    apart = λ i j k m hi hj hk hm p q e. absurd (ground arith);
  };
}
