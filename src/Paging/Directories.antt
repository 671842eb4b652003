-- ===== src/Paging/Directories.antt =====
-- paging.c: taking a page directory from `page_directory_list` and giving it back.
use luma_osjang.Common.{
  ℕ, zero, suc, ◌+◌, ◌*◌, ◌%◌, ◌^◌, Bool, true, false, not, ◌&&◌, Option, none, some, ltb, ◌==◌,
  if◌then◌else◌, update,
}
use luma_osjang.Paging.{
  PageDirectory, Paging, zero_entry, kernel_flag, frame_index, page_frame_max_count,
  paging_directory_table_max_count, page_entry_count, kernel_page_index,
}

-- The table that a new directory has: only the kernel's entry 0x300.
unfoldable pub new_page_directory : PageDirectory
new_page_directory = update (λ _. zero_entry) 0x300 (record zero_entry { flag = kernel_flag })

-- One round of the loop that releases a directory: the frame of a present user entry is freed
-- (unless it is 0 or out of range), and the entry is cleared.
unfoldable pub clear_entry : Paging → ℕ → ℕ → Paging
clear_entry s page_dir j =
    let e = s.directory page_dir j in
    let frame = frame_index e in
    let freed =
      (if (ltb j kernel_page_index && e.flag.present_bit)
          && (ltb 0 frame && ltb frame page_frame_max_count)
        then record s {
          page_frame_map = update s.page_frame_map frame false;
          free_page_frame_count = (s.free_page_frame_count + 1) % 2 ^ 32;
        }
        else s) in
    record freed {
      directory = update freed.directory page_dir (update (freed.directory page_dir) j zero_entry);
    }

-- `for (int j = 0; j < 1024; j++)`, with `n` rounds left.
unfoldable pub clear_entries : ℕ → ℕ → ℕ → Paging → Paging
clear_entries page_dir zero j s = s
clear_entries page_dir (suc n) j s = clear_entries page_dir n (j + 1) (clear_entry s page_dir j)

-- The search for an unused directory, with `n` rounds left.
unfoldable pub find_unused : (ℕ → Bool) → ℕ → ℕ → Option ℕ
find_unused used zero i = none
find_unused used (suc n) i =
    let rest = find_unused used n (i + 1) in if not (used i) then some i else rest

-- `list_base` is the address of `page_directory_list`, whose elements take 4096 bytes each.
module _ (list_base : ℕ) where
  abbrev pub slot_addr : ℕ → ℕ
  slot_addr i = list_base + i * 4096

  -- The search for a directory's address, with `n` rounds left.
  unfoldable pub find_directory : ℕ → ℕ → ℕ → Option ℕ
  find_directory page_dir zero i = none
  find_directory page_dir (suc n) i =
      let rest = find_directory page_dir n (i + 1) in
      if slot_addr i == page_dir then some i else rest

  -- The address 0 stands for NULL.
  unfoldable pub paging_create_new_page_directory : Paging → ℕ × Paging
  paging_create_new_page_directory s =
      elim (find_unused s.page_directory_used paging_directory_table_max_count 0) [
        | none ↦ (0, s)
        | some i ↦ (
          slot_addr i,
          record s {
            page_directory_used = update s.page_directory_used i true;
            directory = update s.directory (slot_addr i) new_page_directory;
          },
        )
      ]

  unfoldable pub paging_free_page_directory : Paging → ℕ → Bool × Paging
  paging_free_page_directory s page_dir =
      if page_dir == 0
      then (false, s)
      else elim (find_directory page_dir paging_directory_table_max_count 0) [
        | none ↦ (false, s)
        | some i ↦ if not (s.page_directory_used i) then (false, s) else (
          true,
          clear_entries page_dir page_entry_count 0
              (record s { page_directory_used = update s.page_directory_used i false }),
        )
      ]
