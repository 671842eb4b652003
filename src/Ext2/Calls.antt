-- ===== src/Ext2/Calls.antt =====
-- ext2.c: what the file operations leave when they refuse a request.
use luma_osjang.Common.{
  ℕ, ◌≡◌, ◌≢◌, ◌∙◌, ap, Option, none, some, ◌==◌, arith, Bool-cases, ==_iff, Option-cases, inl, inr,
  ◌⊎◌,
}
use luma_osjang.Common.Bytes.{Bytes}
use luma_osjang.Ext2.Disk.{
  FileSystem, allocate_node, find_clear_bit, bg_inode_bitmap, allocate_node_from,
}
use luma_osjang.Ext2.Allocation.{allocate_node-some}
use luma_osjang.Ext2.Inodes.{Inode}
use luma_osjang.Ext2.Files.{Ext2DriverRequest, find_dir, write, delete}

allocate_node-none :
    (fs : FileSystem)
    → find_clear_bit (fs.disk (bg_inode_bitmap fs 0)) 32 0 ≡ none
    → allocate_node fs ≡ (0, fs)
unfolding allocate_node allocate_node_from
allocate_node-none fs e = ground arith

-- Where no inode is free, looking for one changes nothing.
pub allocate_node_full : (fs : FileSystem) → (allocate_node fs).0 ≡ 0 → (allocate_node fs).1 ≡ fs
allocate_node_full fs z =
    elim (Option-cases (find_clear_bit (fs.disk (bg_inode_bitmap fs 0)) 32 0)) [
      | inl e ↦ ap (λ r. r.1) (allocate_node-none fs e)
      | inr (j, e) ↦ absurd (ground (arith, allocate_node-some fs j e, z))
    ]

-- The outcomes of a call whose refusals change nothing.
pub outcome :
    {P : ℕ → Type 0} (r : Option (ℕ × FileSystem)) (fs : FileSystem)
    → ((c : ℕ) (fs' : FileSystem) → r ≡ some (c, fs') → c ≢ 0 → P c × (fs' ≡ fs))
    → (r ≡ none)
      ⊎ ((fs' : FileSystem) × (r ≡ some (0, fs')))
      ⊎ ((code : ℕ) × P code × (r ≡ some (code, fs)))
outcome r fs h = elim (Option-cases r) [
  | inl e ↦ inl e
  | inr ((c, fs'), e) ↦ elim (Bool-cases (c == 0)) [
    | inl z ↦ inr (inl (fs', e ∙ ap (λ x. some (x, fs')) ((==_iff c 0).0 z)))
    | inr nz ↦ let w = h c fs' e (ground arith) in inr (inr (c, w.0, e ∙ ap (λ x. some (c, x)) w.1))
  ]
]

module _ (stack : Bytes) (stale : Inode) where
  delete_refused :
      (fs : FileSystem) (request : Ext2DriverRequest) (code : ℕ) (fs' : FileSystem)
      → delete stack stale fs request ≡ some (code, fs')
      → code ≢ 0
      → fs' ≡ fs
  unfolding delete find_dir
  delete_refused fs request code fs' e ne = ground arith

  write_refused :
      (fs : FileSystem) (request : Ext2DriverRequest) (code : ℕ) (fs' : FileSystem)
      → write stack stale fs request ≡ some (code, fs')
      → code ≢ 0
      → fs' ≡ fs
  unfolding write find_dir
  write_refused fs request code fs' e ne = ground (arith, allocate_node_full fs)

  write_code :
      (fs : FileSystem) (request : Ext2DriverRequest) (code : ℕ) (fs' : FileSystem)
      → write stack stale fs request ≡ some (code, fs')
      → code ≢ 0
      → (code ≡ 1) ⊎ (code ≡ 2) ⊎ (code ≡ 255)
  unfolding write find_dir
  write_code fs request code fs' e ne = ground arith

  delete_code :
      (fs : FileSystem) (request : Ext2DriverRequest) (code : ℕ) (fs' : FileSystem)
      → delete stack stale fs request ≡ some (code, fs')
      → code ≢ 0
      → (code ≡ 1) ⊎ (code ≡ 2) ⊎ (code ≡ 3)
  unfolding delete find_dir
  delete_code fs request code fs' e ne = ground arith

  -- A call of `write` has one of three outcomes: a walk along the parent's entries without end,
  -- success (0), or a refusal with the code 1, 2 or -1, which changes neither the disk nor the
  -- tables in memory.
  pub write_outcomes :
      (fs : FileSystem) (request : Ext2DriverRequest)
      → let r = write stack stale fs request in
        (r ≡ none)
        ⊎ ((fs' : FileSystem) × (r ≡ some (0, fs')))
        ⊎ ((code : ℕ) × ((code ≡ 1) ⊎ (code ≡ 2) ⊎ (code ≡ 255)) × (r ≡ some (code, fs)))
  write_outcomes fs request =
      outcome (write stack stale fs request) fs
        (λ c fs' e ne. (write_code fs request c fs' e ne, write_refused fs request c fs' e ne))

  -- A call of `delete` has one of three outcomes: a walk along a directory's entries without end,
  -- success (0), or a refusal with the code 1, 2 or 3, which changes neither the disk nor the
  -- tables in memory.
  pub delete_outcomes :
      (fs : FileSystem) (request : Ext2DriverRequest)
      → let r = delete stack stale fs request in
        (r ≡ none)
        ⊎ ((fs' : FileSystem) × (r ≡ some (0, fs')))
        ⊎ ((code : ℕ) × ((code ≡ 1) ⊎ (code ≡ 2) ⊎ (code ≡ 3)) × (r ≡ some (code, fs)))
  delete_outcomes fs request =
      outcome (delete stack stale fs request) fs
        (λ c fs' e ne. (delete_code fs request c fs' e ne, delete_refused fs request c fs' e ne))
