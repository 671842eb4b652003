-- ===== src/Paging/Release.antt =====
-- paging.c: creating and releasing a page directory.
use luma_osjang.Common.{
  ℕ, zero, suc, ◌+◌, ◌≤◌, ◌<◌, ◌≡◌, inl, inr, Bool, true, false, ◌&&◌, none, some, ◌==◌,
  if◌then◌else◌, arith, Bool-cases,
}
use luma_osjang.Paging.{Paging, frame_index, zero_entry}
use luma_osjang.Paging.Directories.{
  slot_addr, clear_entry, clear_entries, find_unused, find_directory,
}
use luma_osjang.Paging.Frames.{free_frames-update, free_frames-le}
use luma_osjang.Paging.Owners.{entry}
use luma_osjang.Paging.Invariant.{IsSound}

-- What `paging_create_new_page_directory` finds.
pub find_unused_found :
    (used : ℕ → Bool) (n i : ℕ) {k : ℕ}
    → find_unused used n i ≡ some k
    → (i ≤ k) × (k < i + n) × (used k ≡ false)
unfolding find_unused
find_unused_found used zero i h = absurd (cc)
find_unused_found used (suc n) i {k} h = ground (arith, find_unused_found used n (i + 1) {k = k})

pub find_unused-none :
    (used : ℕ → Bool) (n i : ℕ)
    → find_unused used n i ≡ none
    → (j : ℕ) → i ≤ j
    → j < i + n
    → used j ≡ true
unfolding find_unused
find_unused-none used zero i h j a b = absurd (omega arith)
find_unused-none used (suc n) i h j a b = elim (Bool-cases (i == j)) [
  | inl e ↦ ground arith
  | inr e ↦ ground (
    arith,
    λ (q : find_unused used n (i + 1) ≡ none).
        find_unused-none used n (i + 1) q j (ground arith) (omega arith),
  )
]

module _ (list_base : ℕ) where
  pub find_directory_found :
      (page_dir n i : ℕ) {k : ℕ}
      → find_directory list_base page_dir n i ≡ some k
      → (i ≤ k) × (k < i + n) × (slot_addr list_base k ≡ page_dir)
  unfolding find_directory
  find_directory_found page_dir zero i h = absurd (cc)
  find_directory_found page_dir (suc n) i {k} h =
      ground (arith, find_directory_found page_dir n (i + 1) {k = k})

  pub find_directory_slot :
      (n i k : ℕ)
      → i ≤ k
      → k < i + n
      → find_directory list_base (slot_addr list_base k) n i ≡ some k
  unfolding find_directory
  find_directory_slot zero i k a b = absurd (omega arith)
  find_directory_slot (suc n) i k a b = elim (Bool-cases (i == k)) [
    | inl e ↦ ground arith
    | inr e ↦ ground (arith, find_directory_slot n (i + 1) k (ground arith) (omega arith))
  ]

  -- One round of the release keeps the invariant.
  pub clear_entry-IsSound :
      (s : Paging) (k j : ℕ)
      → IsSound list_base s
      → k < 32
      → IsSound list_base (clear_entry s (slot_addr list_base k) j)
  unfolding clear_entry
  clear_entry-IsSound s k j h hk =
      let f = frame_index (entry list_base s k j) in
      let v = h.valid in
      let o = h.owned in
      record {
        valid = ground (
          arith,
          v,
          o.held k j hk,
          free_frames-update 32 s.page_frame_map f false,
          free_frames-le 32 s.page_frame_map,
        );
        owned = record {
          held = λ a b ha hb p. ground (arith, o.held a b ha hb, o.apart a b k j ha hb hk);
          apart = λ a b c d ha hb hc hd p q e. ground (arith, o.apart a b c d ha hb hc hd);
        };
      }

  pub clear_entries-IsSound :
      (k n j : ℕ) (s : Paging)
      → IsSound list_base s
      → k < 32
      → IsSound list_base (clear_entries (slot_addr list_base k) n j s)
  unfolding clear_entries
  clear_entries-IsSound k zero j s h hk = h
  clear_entries-IsSound k (suc n) j s h hk =
      clear_entries-IsSound k n (j + 1) _ (clear_entry-IsSound s k j h hk) hk

  -- What one round does to the entries.
  pub directory-clear_entry :
      (s : Paging) (page_dir j d m : ℕ)
      → (clear_entry s page_dir j).directory d m
        ≡ (if (page_dir == d) && (j == m) then zero_entry else s.directory d m)
  unfolding clear_entry
  directory-clear_entry s page_dir j d m = ground arith
