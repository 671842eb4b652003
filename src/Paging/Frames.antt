-- ===== src/Paging/Frames.antt =====
-- paging.c: the frame map against its counter, and what the frame allocator does with them.
use luma_osjang.Common.{
  ℕ, zero, suc, ◌+◌, ◌*◌, ◌^◌, ◌≤◌, ◌<◌, ◌≡◌, refl, inl, inr, Bool, true, false, leb, ◌==◌,
  if◌then◌else◌, update, arith, Bool-cases, dec_lt, ◌↔◌,
}
use luma_osjang.Paging.{
  Paging, find_frame, paging_allocate_check, paging_allocate_user_page_frame, page_index,
  take_frame,
}

-- How many of the first `n` frames are free.
unfoldable pub free_frames : ℕ → (ℕ → Bool) → ℕ
free_frames zero used = 0
free_frames (suc n) used = free_frames n used + (if used n then 0 else 1)

pub free_frames-update_outside :
    (n : ℕ) (used : ℕ → Bool) (i : ℕ) (b : Bool)
    → n ≤ i
    → free_frames n (update used i b) ≡ free_frames n used
unfolding free_frames
free_frames-update_outside zero used i b h = refl
free_frames-update_outside (suc n) used i b h =
    ground (arith, free_frames-update_outside n used i b)

pub free_frames-update :
    (n : ℕ) (used : ℕ → Bool) (i : ℕ) (b : Bool)
    → i < n
    → free_frames n (update used i b) + (if used i then 0 else 1)
      ≡ free_frames n used + (if b then 0 else 1)
unfolding free_frames
free_frames-update zero used i b h = absurd (omega arith)
free_frames-update (suc n) used i b h = elim (Bool-cases (i == n)) [
  | inl e ↦ ground (arith, free_frames-update_outside n used i b)
  | inr e ↦ ground (arith, free_frames-update n used i b)
]

pub free_frames-le : (n : ℕ) (used : ℕ → Bool) → free_frames n used ≤ n
unfolding free_frames
free_frames-le zero used = omega arith
free_frames-le (suc n) used = ground (arith, free_frames-le n used)

pub free_frames_pos :
    (n : ℕ) (used : ℕ → Bool) (i : ℕ) → i < n → used i ≡ false → 0 < free_frames n used
unfolding free_frames
free_frames_pos zero used i h e = absurd (omega arith)
free_frames_pos (suc n) used i h e = elim (Bool-cases (i == n)) [
  | inl q ↦ ground arith
  | inr q ↦ ground (arith, free_frames_pos n used i)
]

-- The search stops at the first free frame, or past the end.
pub find_frame_bounds :
    (used : ℕ → Bool) (n i : ℕ) → (i ≤ find_frame used n i) × (find_frame used n i ≤ i + n)
unfolding find_frame
find_frame_bounds used zero i = omega arith
find_frame_bounds used (suc n) i = ground (arith, find_frame_bounds used n (i + 1))

pub find_frame-free :
    (used : ℕ → Bool) (n i : ℕ) → find_frame used n i < i + n → used (find_frame used n i) ≡ false
unfolding find_frame
find_frame-free used zero i h = absurd (omega arith)
find_frame-free used (suc n) i h = ground (arith, find_frame-free used n (i + 1))

pub find_frame_first :
    (used : ℕ → Bool) (n i j : ℕ) → i ≤ j → j < find_frame used n i → used j ≡ true
unfolding find_frame
find_frame_first used zero i j h k = absurd (omega arith)
find_frame_first used (suc n) i j h k = elim (Bool-cases (i == j)) [
  | inl e ↦ ground arith
  | inr e ↦ ground (arith, find_frame_first used n (i + 1) j)
]

pub free_frames_none :
    (n : ℕ) (used : ℕ → Bool) → ((j : ℕ) → j < n → used j ≡ true) → free_frames n used ≡ 0
unfolding free_frames
free_frames_none zero used h = refl
free_frames_none (suc n) used h =
    ground (arith, h n (omega arith), free_frames_none n used (λ j k. h j (omega arith)))

-- Frame 0 is the kernel's, and the counter says how many frames the map has free.
pub record IsValid (s : Paging) : Type 0 where
  pub reserved : s.page_frame_map 0 ≡ true
  pub counted : s.free_page_frame_count ≡ free_frames 32 s.page_frame_map

all_used :
    (s : Paging)
    → s.page_frame_map 0 ≡ true
    → 32 ≤ find_frame s.page_frame_map 31 1
    → (j : ℕ) → j < 32
    → s.page_frame_map j ≡ true
all_used s r h zero k = r
all_used s r h (suc j) k =
    find_frame_first s.page_frame_map 31 1 (suc j) (omega arith) (omega arith)

-- While the counter is not 0 the search finds a free frame, from 1 to 31.
pub find_frame_found :
    {s : Paging}
    → IsValid s
    → 1 ≤ s.free_page_frame_count
    → let f = find_frame s.page_frame_map 31 1 in (1 ≤ f) × (f < 32) × (s.page_frame_map f ≡ false)
find_frame_found {s} v h = elim (dec_lt (find_frame s.page_frame_map 31 1) 32) [
  | yes p ↦ (
    (find_frame_bounds s.page_frame_map 31 1).0,
    p,
    find_frame-free s.page_frame_map 31 1 (omega arith),
  )
  | no p ↦ absurd (
      omega (
        arith,
        v.counted,
        free_frames_none 32 s.page_frame_map (all_used s v.reserved (omega arith)),
      ))
]

pub allocate_check-one : (s : Paging) → paging_allocate_check s 1 ≡ leb 1 s.free_page_frame_count
unfolding paging_allocate_check
allocate_check-one s = refl

-- The check over bytes: it passes exactly when the frames that `amount` bytes need are free.
pub allocate_check_iff :
    (s : Paging) (amount : ℕ)
    → amount + 4194303 < 2 ^ 32
    → (paging_allocate_check s amount ≡ true) ↔ (amount ≤ s.free_page_frame_count * 4194304)
unfolding paging_allocate_check
allocate_check_iff s amount h = (λ e. ground arith, λ e. ground arith)

-- When an allocation succeeds.
abbrev pub CanAllocate : Paging → ℕ → ℕ → Type 0
CanAllocate s page_dir virtual_addr =
    (1 ≤ s.free_page_frame_count)
    × (page_index virtual_addr < 768)
    × ((s.directory page_dir (page_index virtual_addr)).flag.present_bit ≡ false)

pub allocate-take_frame :
    {s : Paging} (page_dir virtual_addr : ℕ)
    → IsValid s
    → CanAllocate s page_dir virtual_addr
    → paging_allocate_user_page_frame s page_dir virtual_addr
      ≡ (true, take_frame s page_dir virtual_addr (find_frame s.page_frame_map 31 1))
unfolding paging_allocate_user_page_frame
allocate-take_frame {s} page_dir virtual_addr v (a, b, c) =
    ground (arith, find_frame_found v a, allocate_check-one s)

-- An allocation that fails changes nothing, and it fails exactly when no frame is free, the address
-- is the kernel's, or the page is already mapped.
pub allocate_refused :
    (s : Paging) (page_dir virtual_addr : ℕ)
    → let (done, s') = paging_allocate_user_page_frame s page_dir virtual_addr in
      done ≡ false → s' ≡ s
unfolding paging_allocate_user_page_frame
allocate_refused s page_dir virtual_addr = ground arith

pub CanAllocate-of_allocate :
    (s : Paging) (page_dir virtual_addr : ℕ)
    → (paging_allocate_user_page_frame s page_dir virtual_addr).0 ≡ true
    → CanAllocate s page_dir virtual_addr
unfolding paging_allocate_user_page_frame
CanAllocate-of_allocate s page_dir virtual_addr h =
    (ground (arith, allocate_check-one s), ground arith, ground arith)

pub take_frame-IsValid :
    {s : Paging} (page_dir virtual_addr f : ℕ)
    → IsValid s
    → (1 ≤ f) × (f < 32) × (s.page_frame_map f ≡ false)
    → IsValid (take_frame s page_dir virtual_addr f)
take_frame-IsValid {s} page_dir virtual_addr f v (a, b, c) =
    ground (arith, free_frames-update 32 s.page_frame_map f true b)
