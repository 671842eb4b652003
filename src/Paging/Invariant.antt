-- ===== src/Paging/Invariant.antt =====
-- paging.c: the invariant of the page manager, and taking and releasing user pages.
use luma_osjang.Common.{ℕ, ◌<◌, inl, inr, false, arith, Bool-cases}
use luma_osjang.Paging.{
  Paging, paging_allocate_user_page_frame, paging_free_user_page_frame, page_index, frame_index,
}
use luma_osjang.Paging.Directories.{slot_addr}
use luma_osjang.Paging.Frames.{
  free_frames-update, free_frames-le, IsValid, find_frame_found, allocate-take_frame,
  allocate_refused, CanAllocate-of_allocate, take_frame-IsValid,
}
use luma_osjang.Paging.Owners.{
  give_frame, CanFree, free-give_frame, free_refused, CanFree-of_free, entry, IsOwned,
  take_frame-IsOwned, give_frame-IsOwned,
}

module _ (list_base : ℕ) where
  -- The counter fits the map, and every user page of the 32 directories owns its frame.
  pub record IsSound (s : Paging) : Type 0 where
    pub valid : IsValid s
    pub owned : IsOwned list_base s

  -- `paging_allocate_user_page_frame` on a directory of the list keeps the invariant, whether it
  -- succeeds or not: the counter is the number of free frames, frame 0 stays reserved, every user
  -- page of the 32 directories has a frame that is marked as used, and no two user pages have the
  -- same one.
  pub allocate-IsSound :
      (s : Paging) (k virtual_addr : ℕ)
      → IsSound s
      → IsSound (paging_allocate_user_page_frame s (slot_addr list_base k) virtual_addr).1
  allocate-IsSound s k va h =
      elim (Bool-cases (paging_allocate_user_page_frame s (slot_addr list_base k) va).0) [
        | inl e ↦
            let c = CanAllocate-of_allocate s (slot_addr list_base k) va e in
            let f = find_frame_found h.valid c.0 in
            rw (allocate-take_frame (slot_addr list_base k) va h.valid c) (record {
              valid = take_frame-IsValid (slot_addr list_base k) va _ h.valid f;
              owned = take_frame-IsOwned list_base k va _ h.owned f;
            })
        | inr e ↦ rw (allocate_refused s (slot_addr list_base k) va e) h
      ]

  pub give_frame-IsValid :
      {s : Paging} (k virtual_addr : ℕ)
      → IsSound s
      → k < 32
      → CanFree s (slot_addr list_base k) virtual_addr
      → IsValid (give_frame s (slot_addr list_base k) virtual_addr)
  give_frame-IsValid {s} k va h hk (z, a, b, c, d) =
      let f = frame_index (entry list_base s k (page_index va)) in
      let o = h.owned.held k (page_index va) hk a b in
      let v = h.valid in
      ground (
        arith,
        o,
        v,
        free_frames-update 32 s.page_frame_map f false d,
        free_frames-le 32 s.page_frame_map,
      )

  -- `paging_free_user_page_frame` on one of the 32 directories keeps the invariant, whether it
  -- succeeds or not.
  pub free-IsSound :
      (s : Paging) (k virtual_addr : ℕ)
      → IsSound s
      → k < 32
      → IsSound (paging_free_user_page_frame s (slot_addr list_base k) virtual_addr).1
  free-IsSound s k va h hk =
      elim (Bool-cases (paging_free_user_page_frame s (slot_addr list_base k) va).0) [
        | inl e ↦
            let c = CanFree-of_free s (slot_addr list_base k) va e in
            rw (free-give_frame s (slot_addr list_base k) va c) (record {
              valid = give_frame-IsValid k va h hk c;
              owned = give_frame-IsOwned list_base k va h.owned hk c;
            })
        | inr e ↦ rw (free_refused s (slot_addr list_base k) va e) h
      ]
