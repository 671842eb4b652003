-- ===== src/Paging/Calls.antt =====
-- paging.c: what a call of the frame allocator does, on every branch, and the address arithmetic
-- of CR3.
use luma_osjang.Common.{
  ℕ, ◌+◌, ◌*◌, ◌%◌, ◌^◌, ◌≤◌, ◌<◌, ◌≡◌, refl, ◌≢◌, ◌⊎◌, inl, inr, true, false, arith, Bool-cases,
}
use luma_osjang.Paging.{
  Paging, find_frame, paging_allocate_user_page_frame, paging_free_user_page_frame, page_index,
  take_frame, user_flag, paging_get_current_page_directory_addr, paging_use_page_directory,
  paging_map_user_page,
}
use luma_osjang.Paging.Frames.{
  IsValid, find_frame_found, find_frame_first, free_frames-le, CanAllocate, allocate-take_frame,
  allocate_refused, CanAllocate-of_allocate,
}
use luma_osjang.Paging.Owners.{CanFree, free-give_frame, frame_index-user_entry}

-- Where the counter fits the map, `paging_allocate_user_page_frame` succeeds exactly when a frame
-- is free, the address is below the kernel's, and the page is not mapped: it takes the lowest free
-- frame above 0 and maps it for the user. Otherwise it changes nothing.
pub allocate_lem :
    (s : Paging) (page_dir virtual_addr : ℕ)
    → IsValid s
    → let r = paging_allocate_user_page_frame s page_dir virtual_addr in
      (CanAllocate s page_dir virtual_addr
        × ((f : ℕ) × (1 ≤ f)
            × (f < 32)
            × (s.page_frame_map f ≡ false)
            × ((j : ℕ) → 1 ≤ j → j < f → s.page_frame_map j ≡ true)
            × (r ≡ (true, take_frame s page_dir virtual_addr f))))
      ⊎ ((CanAllocate s page_dir virtual_addr → ⊥) × (r ≡ (false, s)))
allocate_lem s page_dir va v = elim (Bool-cases (paging_allocate_user_page_frame s page_dir va).0) [
  | inl e ↦
      let c = CanAllocate-of_allocate s page_dir va e in
      let f = find_frame_found v c.0 in
      inl (
        c,
        (
          find_frame s.page_frame_map 31 1,
          f.0,
          f.1,
          f.2,
          λ j a b. find_frame_first s.page_frame_map 31 1 j a b,
          allocate-take_frame page_dir va v c,
        ),
      )
  | inr e ↦ inr (
    λ c. cc (e, allocate-take_frame page_dir va v c),
    ground (arith, allocate_refused s page_dir va e),
  )
]

-- Where the counter fits the map, the directory is not at 0 and an allocation succeeds, releasing
-- the page that was just allocated gives the frames and the counter back, and the page is not
-- present any more.
pub free-allocate :
    (s : Paging) (page_dir virtual_addr : ℕ)
    → IsValid s
    → page_dir ≢ 0
    → CanAllocate s page_dir virtual_addr
    → let s' = (paging_allocate_user_page_frame s page_dir virtual_addr).1 in
      let (done, s'') = paging_free_user_page_frame s' page_dir virtual_addr in
      (done ≡ true)
      × ((j : ℕ) → s''.page_frame_map j ≡ s.page_frame_map j)
      × (s''.free_page_frame_count ≡ s.free_page_frame_count)
      × ((s''.directory page_dir (page_index virtual_addr)).flag.present_bit ≡ false)
free-allocate s page_dir va v ne c =
    let f = find_frame_found v c.0 in
    let g = find_frame s.page_frame_map 31 1 in
    let u = frame_index-user_entry g f.1 in
    let can : CanFree (take_frame s page_dir va g) page_dir va =
      (ne, c.1, ground arith, ground arith, ground arith) in
    rw
      (
        allocate-take_frame page_dir va v c,
        free-give_frame (take_frame s page_dir va g) page_dir va can,
      )
      (refl, λ j. ground arith, ground (arith, free_frames-le 32 s.page_frame_map, v), ground arith)

-- Loading a directory and reading it back gives the same address, for every address of 32 bits
-- above the kernel's base.
pub current-use_page_directory :
    (s : Paging) (page_dir : ℕ)
    → 0xc0000000 < page_dir
    → page_dir < 2 ^ 32
    → paging_get_current_page_directory_addr (paging_use_page_directory s page_dir) ≡ page_dir
unfolding paging_get_current_page_directory_addr paging_use_page_directory
current-use_page_directory s page_dir h k = ground arith

-- Mapping a page by hand, at a physical address of 32 bits: refused, with nothing changed, for no
-- directory, for the kernel's half and for an address that is not a multiple of 4 MiB; else the
-- entry gives the frame of the physical address to the user, and the frame map stays as it was.
pub map_user_page_lem :
    (s : Paging) (page_dir virtual_addr physical_addr : ℕ)
    → physical_addr < 2 ^ 32
    → let (done, s') = paging_map_user_page s page_dir virtual_addr physical_addr in
      let e = s'.directory page_dir (page_index virtual_addr) in
      ((page_dir ≢ 0)
        × (page_index virtual_addr < 768)
        × (done ≡ true)
        × (e.flag ≡ user_flag)
        × (e.lower_address * 2 ^ 22 + physical_addr % 2 ^ 22 ≡ physical_addr)
        × (physical_addr % 2 ^ 22 ≡ 0)
        × (s'.page_frame_map ≡ s.page_frame_map))
      ⊎ (((page_dir ≡ 0) ⊎ (768 ≤ page_index virtual_addr) ⊎ (physical_addr % 2 ^ 22 ≢ 0))
          × (done ≡ false)
          × (s' ≡ s))
unfolding paging_map_user_page
map_user_page_lem s page_dir va pa h = ground arith
