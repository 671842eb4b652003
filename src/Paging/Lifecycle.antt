-- ===== src/Paging/Lifecycle.antt =====
-- paging.c: what creating and releasing a page directory do to the directories and the frames.
use luma_osjang.Common.{
  ℕ, zero, suc, ◌+◌, ◌≤◌, ◌<◌, ◌≡◌, refl, ◌∙◌, ◌≢◌, ◌⊎◌, inl, inr, true, false, ◌&&◌, none, some,
  ltb, leb, ◌==◌, if◌then◌else◌, update, arith, Bool-cases, Option-cases, ==_iff,
}
use luma_osjang.Paging.{Paging, frame_index, zero_entry}
use luma_osjang.Paging.Directories.{
  slot_addr, clear_entry, clear_entries, find_unused, new_page_directory,
  paging_create_new_page_directory, paging_free_page_directory,
}
use luma_osjang.Paging.Owners.{entry, Present}
use luma_osjang.Paging.Invariant.{IsSound}
use luma_osjang.Paging.Release.{
  find_unused_found, find_unused-none, find_directory_slot, clear_entry-IsSound,
  clear_entries-IsSound, directory-clear_entry,
}

module _ (list_base : ℕ) where
  -- After the loop the entries from `j` on are zero, and no other entry has changed.
  directory-clear_entries :
      (k n j : ℕ) (s : Paging) (d m : ℕ)
      → (clear_entries (slot_addr list_base k) n j s).directory d m ≡ (
          if (slot_addr list_base k == d) && (leb j m && ltb m (j + n))
          then zero_entry
          else s.directory d m)
  unfolding clear_entries
  directory-clear_entries k zero j s d m = ground arith
  directory-clear_entries k (suc n) j s d m = ground (
    arith,
    directory-clear_entries k n (j + 1) (clear_entry s (slot_addr list_base k) j) d m,
    directory-clear_entry list_base s (slot_addr list_base k) j d m,
  )

  -- A round only frees frames.
  free-clear_entry :
      (s : Paging) (page_dir j f : ℕ)
      → s.page_frame_map f ≡ false
      → (clear_entry s page_dir j).page_frame_map f ≡ false
  unfolding clear_entry
  free-clear_entry s page_dir j f h = ground arith

  free-clear_entries :
      (page_dir n j : ℕ) (s : Paging) (f : ℕ)
      → s.page_frame_map f ≡ false
      → (clear_entries page_dir n j s).page_frame_map f ≡ false
  unfolding clear_entries
  free-clear_entries page_dir zero j s f h = h
  free-clear_entries page_dir (suc n) j s f h =
      free-clear_entries page_dir n (j + 1) _ f (free-clear_entry s page_dir j f h)

  -- The round of a present user entry frees its frame.
  clear_entry-frees :
      (s : Paging) (k j : ℕ)
      → IsSound list_base s
      → k < 32
      → j < 768
      → Present list_base s k j
      → (clear_entry s (slot_addr list_base k) j).page_frame_map
          (frame_index (entry list_base s k j))
        ≡ false
  unfolding clear_entry
  clear_entry-frees s k j h hk hj p = let o = h.owned in ground (arith, o.held k j hk hj p)

  clear_entries-frees :
      (k n j : ℕ) (s : Paging)
      → IsSound list_base s
      → k < 32
      → (m : ℕ) → j ≤ m
      → m < j + n
      → m < 768
      → Present list_base s k m
      → (clear_entries (slot_addr list_base k) n j s).page_frame_map
          (frame_index (entry list_base s k m))
        ≡ false
  unfolding clear_entries
  clear_entries-frees k zero j s h hk m a b c p = absurd (omega arith)
  clear_entries-frees k (suc n) j s h hk m a b c p = elim (Bool-cases (j == m)) [
    | inl e ↦
        let q : j ≡ m = (==_iff j m).0 e in
        free-clear_entries (slot_addr list_base k) n (j + 1) _ _
          (rw (← q) (clear_entry-frees s k j h hk (rw q c) (rw q p)))
    | inr e ↦
        let same : entry list_base (clear_entry s (slot_addr list_base k) j) k m
            ≡ entry list_base s k m =
          ground (
            arith,
            directory-clear_entry list_base s (slot_addr list_base k) j (slot_addr list_base k) m,
          ) in
        rw (← same) (
          clear_entries-frees k n (j + 1) (clear_entry s (slot_addr list_base k) j)
            (clear_entry-IsSound list_base s k j h hk) hk m (ground arith) (omega arith) c
            (rw same p))
  ]

  -- The state once slot `k` is taken.
  abbrev pub taken : Paging → ℕ → Paging
  taken s k = record s {
    page_directory_used = update s.page_directory_used k true;
    directory = update s.directory (slot_addr list_base k) new_page_directory;
  }

  create_none :
      (s : Paging)
      → find_unused s.page_directory_used 32 0 ≡ none
      → paging_create_new_page_directory list_base s ≡ (0, s)
  unfolding paging_create_new_page_directory
  create_none s e = rw (e, paging_create_new_page_directory)

  create_some :
      (s : Paging) (k : ℕ)
      → find_unused s.page_directory_used 32 0 ≡ some k
      → paging_create_new_page_directory list_base s ≡ (slot_addr list_base k, taken s k)
  unfolding paging_create_new_page_directory
  create_some s k e = rw (e, paging_create_new_page_directory)

  taken-IsSound : (s : Paging) (k : ℕ) → IsSound list_base s → IsSound list_base (taken s k)
  unfolding new_page_directory
  taken-IsSound s k h =
      let o = h.owned in
      let v = h.valid in
      record {
        valid = ground (arith, v);
        owned = record {
          held = λ a b ha hb p. ground (arith, o.held a b ha hb);
          apart = λ a b c d ha hb hc hd p q e. ground (arith, o.apart a b c d ha hb hc hd);
        };
      }

  -- `paging_create_new_page_directory` keeps the invariant, whether it succeeds or not.
  pub create-IsSound :
      (s : Paging)
      → IsSound list_base s
      → IsSound list_base (paging_create_new_page_directory list_base s).1
  create-IsSound s h = elim (Option-cases (find_unused s.page_directory_used 32 0)) [
    | inl e ↦ rw (create_none s e) h
    | inr (k, e) ↦ rw (create_some s k e) (taken-IsSound s k h)
  ]

  -- Either all 32 slots are used, and the answer is NULL and nothing changes; or an unused slot is
  -- taken: it is marked used, its directory has only the kernel's entry, no other directory
  -- changes, and the answer is its address.
  pub create_directory_lem :
      (s : Paging)
      → (((i : ℕ) → i < 32 → s.page_directory_used i ≡ true)
          × (paging_create_new_page_directory list_base s ≡ (0, s)))
        ⊎ ((k : ℕ) × (k < 32)
            × (s.page_directory_used k ≡ false)
            × (paging_create_new_page_directory list_base s ≡ (slot_addr list_base k, taken s k)))
  create_directory_lem s = elim (Option-cases (find_unused s.page_directory_used 32 0)) [
    | inl e ↦ inl (
      λ i h. find_unused-none s.page_directory_used 32 0 e i (omega arith) (omega arith),
      create_none s e,
    )
    | inr (k, e) ↦
        let f = find_unused_found s.page_directory_used 32 0 e in
        inr (k, f.1, f.2, create_some s k e)
  ]

  abbrev released : Paging → ℕ → Paging
  released s k = record s { page_directory_used = update s.page_directory_used k false }

  free_directory_run :
      (s : Paging) (k : ℕ)
      → k < 32
      → s.page_directory_used k ≡ true
      → (slot_addr list_base k == 0) ≡ false
      → paging_free_page_directory list_base s (slot_addr list_base k)
        ≡ (true, clear_entries (slot_addr list_base k) 1024 0 (released s k))
  unfolding paging_free_page_directory
  free_directory_run s k hk used ne = rw (
    ne,
    find_directory_slot list_base 32 0 k (omega arith) (omega arith),
    paging_free_page_directory,
    used,
  )

  used-clear_entries :
      (page_dir n j : ℕ) (s : Paging)
      → (clear_entries page_dir n j s).page_directory_used ≡ s.page_directory_used
  unfolding clear_entries clear_entry
  used-clear_entries page_dir zero j s = refl
  used-clear_entries page_dir (suc n) j s =
      used-clear_entries page_dir n (j + 1) _ ∙ used-clear_entry s page_dir j
    where
      used-clear_entry :
          (s : Paging) (page_dir j : ℕ)
          → (clear_entry s page_dir j).page_directory_used ≡ s.page_directory_used
      used-clear_entry s page_dir j = ground arith

  -- In a state with the invariant, releasing a directory of the list that is in use, and whose
  -- address is not 0, succeeds: the slot is unused again, its 1024 entries are zero, the frames of
  -- its user pages are free, no other directory changes, and the invariant holds.
  pub free_directory_lem :
      (s : Paging) (k : ℕ)
      → IsSound list_base s
      → k < 32
      → s.page_directory_used k ≡ true
      → slot_addr list_base k ≢ 0
      → let (done, s') = paging_free_page_directory list_base s (slot_addr list_base k) in
        (done ≡ true)
        × IsSound list_base s'
        × (s'.page_directory_used k ≡ false)
        × ((j : ℕ) → j < 1024 → entry list_base s' k j ≡ zero_entry)
        × ((j : ℕ)
            → j < 768
            → Present list_base s k j
            → s'.page_frame_map (frame_index (entry list_base s k j)) ≡ false)
        × ((d : ℕ) → d ≢ slot_addr list_base k → (j : ℕ) → s'.directory d j ≡ s.directory d j)
  free_directory_lem s k h hk used ne = rw (free_directory_run s k hk used (ground arith)) (
    refl,
    clear_entries-IsSound list_base k 1024 0 (released s k) sound hk,
    rw (used-clear_entries (slot_addr list_base k) 1024 0 (released s k)) (ground arith),
    λ j hj.
        ground (arith, directory-clear_entries k 1024 0 (released s k) (slot_addr list_base k) j),
    λ j hj p.
        clear_entries-frees k 1024 0 (released s k) sound hk j (omega arith) (omega arith) hj p,
    λ d hd j. ground (arith, directory-clear_entries k 1024 0 (released s k) d j),
  )
    where
      sound : IsSound list_base (released s k)
      sound = record {
        valid = record { reserved = h.valid.reserved; counted = h.valid.counted };
        owned = record { held = h.owned.held; apart = h.owned.apart };
      }
