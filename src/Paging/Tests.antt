-- ===== src/Paging/Tests.antt =====
-- paging.c at the state that the boot leaves: runs of its operations.
use luma_osjang.Common.{ℕ, ◌<◌, ◌≡◌, refl, ◌≢◌, true, false, arith}
use luma_osjang.Paging.{
  Paging, zero_entry, find_frame, paging_allocate_check, paging_allocate_user_page_frame,
  paging_free_user_page_frame, frame_index,
}
use luma_osjang.Paging.Boot.{boot_paging, boot_paging-IsSound}
use luma_osjang.Paging.Directories.{
  slot_addr, find_unused, new_page_directory, paging_create_new_page_directory,
  paging_free_page_directory,
}
use luma_osjang.Paging.Owners.{Present, entry}
use luma_osjang.Paging.Invariant.{IsSound, allocate-IsSound, free-IsSound}
use luma_osjang.Paging.Lifecycle.{create-IsSound, free_directory_lem}

-- An address for `page_directory_list`.
abbrev list_base : ℕ
list_base = 0xc0200000

-- A directory in slot 0, and one page in it.
abbrev created : Paging
created = (paging_create_new_page_directory list_base boot_paging).1

abbrev mapped : Paging
mapped = (paging_allocate_user_page_frame created (slot_addr list_base 0) 0x400000).1

created-IsSound : IsSound list_base created
created-IsSound = create-IsSound list_base boot_paging (boot_paging-IsSound list_base)

mapped-IsSound : IsSound list_base mapped
mapped-IsSound = allocate-IsSound list_base created 0 0x400000 created-IsSound

mapped_frame : mapped.page_frame_map 1 ≡ true
unfolding paging_create_new_page_directory find_unused paging_allocate_user_page_frame find_frame
    paging_allocate_check new_page_directory
mapped_frame = refl

mapped_used : mapped.page_directory_used 0 ≡ true
unfolding paging_create_new_page_directory find_unused paging_allocate_user_page_frame find_frame
    paging_allocate_check new_page_directory
mapped_used = refl

allocate-IsSound_example :
    IsSound list_base (paging_allocate_user_page_frame created (slot_addr list_base 0) 0x400000).1
allocate-IsSound_example = allocate-IsSound list_base created 0 0x400000 created-IsSound

free-IsSound_example :
    IsSound list_base (paging_free_user_page_frame mapped (slot_addr list_base 0) 0x400000).1
free-IsSound_example = free-IsSound list_base mapped 0 0x400000 mapped-IsSound (omega arith)

free_directory_lem_example :
    let (done, s') = paging_free_page_directory list_base mapped (slot_addr list_base 0) in
    (done ≡ true)
    × IsSound list_base s'
    × (s'.page_directory_used 0 ≡ false)
    × ((j : ℕ) → j < 1024 → entry list_base s' 0 j ≡ zero_entry)
    × ((j : ℕ)
        → j < 768
        → Present list_base mapped 0 j
        → s'.page_frame_map (frame_index (entry list_base mapped 0 j)) ≡ false)
    × ((d : ℕ) → d ≢ slot_addr list_base 0 → (j : ℕ) → s'.directory d j ≡ mapped.directory d j)
free_directory_lem_example =
    free_directory_lem list_base mapped 0 mapped-IsSound (omega arith) mapped_used
      (λ e. omega (arith, e))
