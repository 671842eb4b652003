-- ===== src/Paging/Owners.antt =====
-- paging.c: which user page of which directory has which physical frame.
use luma_osjang.Common.{
  ℕ, ◌+◌, ◌%◌, ◌^◌, ◌≤◌, ◌<◌, ◌≡◌, refl, ◌≢◌, true, false, ◌∷◌, ◌==◌, update, arith, all_below,
  all_below_sound, ==_iff,
}
use luma_osjang.Paging.{
  PageDirectoryEntry, Paging, paging_free_user_page_frame, page_index, frame_index, user_entry,
  cleared_entry, take_frame,
}
use luma_osjang.Paging.Directories.{slot_addr}

frame_table : all_below 32 (λ f. frame_index (user_entry f) == f) ≡ true
unfolding all_below
frame_table = refl

pub frame_index-user_entry : (f : ℕ) → f < 32 → frame_index (user_entry f) ≡ f
frame_index-user_entry f h = (==_iff _ f).0 (all_below_sound 32 _ f frame_table h)

-- What the release of a page of `s` leaves, once the checks have passed.
abbrev pub give_frame : Paging → ℕ → ℕ → Paging
give_frame s page_dir virtual_addr =
    let i = page_index virtual_addr in
    let e = s.directory page_dir i in
    record s {
      page_frame_map = update s.page_frame_map (frame_index e) false;
      free_page_frame_count = (s.free_page_frame_count + 1) % 2 ^ 32;
      directory = update s.directory page_dir (update (s.directory page_dir) i (cleared_entry e));
      flushed = virtual_addr ∷ s.flushed;
    }

abbrev pub CanFree : Paging → ℕ → ℕ → Type 0
CanFree s page_dir virtual_addr =
    let e = s.directory page_dir (page_index virtual_addr) in
    (page_dir ≢ 0)
    × (page_index virtual_addr < 768)
    × (e.flag.present_bit ≡ true)
    × (0 < frame_index e)
    × (frame_index e < 32)

pub free-give_frame :
    (s : Paging) (page_dir virtual_addr : ℕ)
    → CanFree s page_dir virtual_addr
    → paging_free_user_page_frame s page_dir virtual_addr
      ≡ (true, give_frame s page_dir virtual_addr)
unfolding paging_free_user_page_frame
free-give_frame s page_dir virtual_addr h = ground arith

pub free_refused :
    (s : Paging) (page_dir virtual_addr : ℕ)
    → (paging_free_user_page_frame s page_dir virtual_addr).0 ≡ false
    → (paging_free_user_page_frame s page_dir virtual_addr).1 ≡ s
unfolding paging_free_user_page_frame
free_refused s page_dir virtual_addr h = ground arith

pub CanFree-of_free :
    (s : Paging) (page_dir virtual_addr : ℕ)
    → (paging_free_user_page_frame s page_dir virtual_addr).0 ≡ true
    → CanFree s page_dir virtual_addr
unfolding paging_free_user_page_frame
CanFree-of_free s page_dir virtual_addr h =
    (ground arith, ground arith, ground arith, ground arith, ground arith)

module _ (list_base : ℕ) where
  -- The entry `j` of the directory in slot `i`, and whether it maps a page.
  abbrev pub entry : Paging → ℕ → ℕ → PageDirectoryEntry
  entry s i j = s.directory (slot_addr list_base i) j

  abbrev pub Present : Paging → ℕ → ℕ → Type 0
  Present s i j = (entry s i j).flag.present_bit ≡ true

  -- A user page of the 32 directories is mapped to a frame that is in use, and no two user pages
  -- to one frame.
  pub record IsOwned (s : Paging) : Type 0 where
    pub held :
        (i j : ℕ)
        → i < 32
        → j < 768
        → Present s i j
        → (0 < frame_index (entry s i j))
          × (frame_index (entry s i j) < 32)
          × (s.page_frame_map (frame_index (entry s i j)) ≡ true)
    pub apart :
        (i j k m : ℕ)
        → i < 32
        → j < 768
        → k < 32
        → m < 768
        → Present s i j
        → Present s k m
        → frame_index (entry s i j) ≡ frame_index (entry s k m)
        → (i ≡ k) × (j ≡ m)

  pub take_frame-IsOwned :
      {s : Paging} (k virtual_addr f : ℕ)
      → IsOwned s
      → (1 ≤ f) × (f < 32) × (s.page_frame_map f ≡ false)
      → IsOwned (take_frame s (slot_addr list_base k) virtual_addr f)
  take_frame-IsOwned {s} k va f o (a, b, c) = record {
    held = λ i j hi hj p. ground (arith, o.held i j hi hj, frame_index-user_entry f b);
    apart = λ i j k' m hi hj hk hm p q e. ground (
      arith,
      o.apart i j k' m hi hj hk hm,
      o.held i j hi hj,
      o.held k' m hk hm,
      frame_index-user_entry f b,
    );
  }

  pub give_frame-IsOwned :
      {s : Paging} (k virtual_addr : ℕ)
      → IsOwned s
      → k < 32
      → CanFree s (slot_addr list_base k) virtual_addr
      → IsOwned (give_frame s (slot_addr list_base k) virtual_addr)
  give_frame-IsOwned {s} k va o hk (z, a, b, c, d) = record {
    held =
        λ i j hi hj p. ground (arith, o.held i j hi hj, o.apart i j k (page_index va) hi hj hk a);
    apart = λ i j k' m hi hj hk' hm p q e. ground (arith, o.apart i j k' m hi hj hk' hm);
  }
