-- ===== src/FileCalls/Refusals.antt =====
-- interrupt.c: what the file operations leave when they refuse a request.
use luma_osjang.Common.{
  ℕ, ◌≡◌, refl, ◌≢◌, ◌⊎◌, inl, inr, Option, none, some, arith, ◌==◌, Bool-cases, Option-cases,
}
use luma_osjang.Ext2.Disk.{FileSystem}
use luma_osjang.Ext2.Inodes.{Inode, read_inode, is_directory}
use luma_osjang.Ext2.Files.{Ext2DriverRequest}
use luma_osjang.Ext2.Calls.{outcome}
use luma_osjang.Ext2.Directory.{entry_inode, entry_file_type}
use luma_osjang.FileCalls.{minus, find_name}
use luma_osjang.FileCalls.Delete.{
  delete_file, delete_directory, delete_file_at, delete_directory_at, done, remove_target,
  is_empty_from,
}
use luma_osjang.FileCalls.Move.{move_file, move_found}

-- The codes of the two deletions: a missing request or name, a parent that is no directory, a name
-- that is not there, an entry of the wrong type, and for a directory that it is not empty.
abbrev pub IsDeleteFileCode : ℕ → Type 0
IsDeleteFileCode c = (c ≡ minus 1) ⊎ (c ≡ minus 2) ⊎ (c ≡ minus 3) ⊎ (c ≡ minus 6)

abbrev pub IsDeleteCode : ℕ → Type 0
IsDeleteCode c = (c ≡ minus 1) ⊎ (c ≡ minus 2) ⊎ (c ≡ minus 3) ⊎ (c ≡ minus 6) ⊎ (c ≡ minus 7)

abbrev pub IsMoveCode : ℕ → Type 0
IsMoveCode c = (c ≡ minus 1) ⊎ (c ≡ minus 2) ⊎ (c ≡ minus 3) ⊎ (c ≡ minus 5)

-- A call that fails with a code of `P` has changed nothing.
abbrev pub IsRefusal : (ℕ → Type 0) → FileSystem → Option (ℕ × FileSystem) → Type 0
IsRefusal P fs r = (c : ℕ) (fs' : FileSystem) → r ≡ some (c, fs') → c ≢ 0 → P c × (fs' ≡ fs)

refuse : (P : ℕ → Type 0) (fs : FileSystem) (c : ℕ) → P c → IsRefusal P fs (some (c, fs))
refuse P fs c p c' fs' e ne = let q : c' ≡ c = cc e in let r : fs' ≡ fs = cc e in (rw q p, r)

IsRefusal-done :
    (P : ℕ → Type 0) (fs : FileSystem) (r : Option FileSystem) → IsRefusal P fs (done r)
IsRefusal-done P fs none c fs' e ne = absurd (cc e)
IsRefusal-done P fs (some fs1) c fs' e ne = absurd (ne (cc e))

abbrev pub HasOutcome : (ℕ → Type 0) → FileSystem → Option (ℕ × FileSystem) → Type 0
HasOutcome P fs r =
    (r ≡ none)
    ⊎ ((fs' : FileSystem) × (r ≡ some (0, fs')))
    ⊎ ((code : ℕ) × P code × (r ≡ some (code, fs)))

module _ (stale : Inode) where
  delete_file_at_refused :
      (fs : FileSystem) (parent : Inode) (block_idx offset : ℕ)
      → IsRefusal IsDeleteFileCode fs (delete_file_at stale fs parent block_idx offset)
  unfolding delete_file_at
  delete_file_at_refused fs parent block_idx offset =
      let target : ℕ = entry_inode (fs.disk (parent.i_block block_idx)) offset in
      let done' =
        IsRefusal-done IsDeleteFileCode fs
          (remove_target fs parent block_idx offset target (read_inode fs target stale)) in
      elim (Bool-cases (entry_file_type (fs.disk (parent.i_block block_idx)) offset == 2)) [
        | inl q ↦ rw q (refuse IsDeleteFileCode fs 250 (inr (inr (inr refl))))
        | inr q ↦ rw q done'
      ]

  delete_file_refused :
      (fs : FileSystem) (request : Option Ext2DriverRequest)
      → IsRefusal IsDeleteFileCode fs (delete_file stale fs request)
  unfolding delete_file
  delete_file_refused fs none = refuse IsDeleteFileCode fs 255 (inl refl)
  delete_file_refused fs (some request) =
      let parent = read_inode fs request.parent_inode stale in
      elim (Bool-cases (request.name_len == 0)) [
        | inl q ↦ rw q (refuse IsDeleteFileCode fs 255 (inl refl))
        | inr q ↦ elim (Bool-cases (is_directory parent)) [
          | inr d ↦ rw (q, d) (refuse IsDeleteFileCode fs 254 (inr (inl refl)))
          | inl d ↦ elim (Option-cases (find_name fs parent request.name request.name_len)) [
            | inl e ↦ rw (q, d, e) (refuse IsDeleteFileCode fs 253 (inr (inr (inl refl))))
            | inr ((b, o), e) ↦ rw (q, d, e) (delete_file_at_refused fs parent b o)
          ]
        ]
      ]

  delete_directory_at_refused :
      (fs : FileSystem) (parent : Inode) (block_idx offset : ℕ)
      → IsRefusal IsDeleteCode fs (delete_directory_at stale fs parent block_idx offset)
  unfolding delete_directory_at
  delete_directory_at_refused fs parent block_idx offset =
      let target : ℕ = entry_inode (fs.disk (parent.i_block block_idx)) offset in
      let done' =
        IsRefusal-done IsDeleteCode fs
          (remove_target fs parent block_idx offset target (read_inode fs target stale)) in
      elim (Bool-cases (entry_file_type (fs.disk (parent.i_block block_idx)) offset == 2)) [
        | inr q ↦ rw q (refuse IsDeleteCode fs 250 (inr (inr (inr (inl refl)))))
        | inl q ↦ elim (Bool-cases (is_empty_from fs (read_inode fs target stale) 12 0)) [
          | inr n ↦ rw (q, n) (refuse IsDeleteCode fs 249 (inr (inr (inr (inr refl)))))
          | inl n ↦ rw (q, n) done'
        ]
      ]

  delete_directory_refused :
      (fs : FileSystem) (request : Option Ext2DriverRequest)
      → IsRefusal IsDeleteCode fs (delete_directory stale fs request)
  unfolding delete_directory
  delete_directory_refused fs none = refuse IsDeleteCode fs 255 (inl refl)
  delete_directory_refused fs (some request) =
      let parent = read_inode fs request.parent_inode stale in
      elim (Bool-cases (request.name_len == 0)) [
        | inl q ↦ rw q (refuse IsDeleteCode fs 255 (inl refl))
        | inr q ↦ elim (Bool-cases (is_directory parent)) [
          | inr d ↦ rw (q, d) (refuse IsDeleteCode fs 254 (inr (inl refl)))
          | inl d ↦ elim (Option-cases (find_name fs parent request.name request.name_len)) [
            | inl e ↦ rw (q, d, e) (refuse IsDeleteCode fs 253 (inr (inr (inl refl))))
            | inr ((b, o), e) ↦ rw (q, d, e) (delete_directory_at_refused fs parent b o)
          ]
        ]
      ]

  move_file_same :
      (fs : FileSystem) (src dst : Option Ext2DriverRequest) (code : ℕ) (fs' : FileSystem)
      → move_file stale fs src dst ≡ some (code, fs')
      → code ≢ 0
      → fs' ≡ fs
  unfolding move_file move_found
  move_file_same fs none dst code fs' e ne = ground arith
  move_file_same fs (some src) none code fs' e ne = ground arith
  move_file_same fs (some src) (some dst) code fs' e ne = ground arith

  move_file_code :
      (fs : FileSystem) (src dst : Option Ext2DriverRequest) (code : ℕ) (fs' : FileSystem)
      → move_file stale fs src dst ≡ some (code, fs')
      → code ≢ 0
      → IsMoveCode code
  unfolding move_file move_found
  move_file_code fs none dst code fs' e ne = ground arith
  move_file_code fs (some src) none code fs' e ne = ground arith
  move_file_code fs (some src) (some dst) code fs' e ne = ground arith

  -- Each of `delete_file`, `delete_directory` and `move_file` has one of three outcomes: a walk
  -- along a directory's entries without end, success (0), or a refusal with one of its codes, which
  -- changes neither the disk nor the tables in memory.
  pub removals_outcomes :
      (fs : FileSystem) (request dst : Option Ext2DriverRequest)
      → HasOutcome IsDeleteFileCode fs (delete_file stale fs request)
        × HasOutcome IsDeleteCode fs (delete_directory stale fs request)
        × HasOutcome IsMoveCode fs (move_file stale fs request dst)
  removals_outcomes fs request dst = (
    outcome (delete_file stale fs request) fs (delete_file_refused fs request),
    outcome (delete_directory stale fs request) fs (delete_directory_refused fs request),
    outcome (move_file stale fs request dst) fs (λ c fs' e ne.
        (move_file_code fs request dst c fs' e ne, move_file_same fs request dst c fs' e ne)),
  )
