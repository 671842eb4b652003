-- ===== src/Builtins/Copying/Moving.antt =====
-- builtin_commands.c and interrupt.c: what a refused copy leaves of a move.
use luma_osjang.Common.{
  ℕ, ◌≡◌, refl, ◌⊎◌, inl, inr, false, some, List, [], ◌∷◌, ◌==◌, Bool-cases, arith,
}
use luma_osjang.Common.Bytes.{Bytes}
use luma_osjang.Ext2.Disk.{FileSystem}
use luma_osjang.Ext2.Inodes.{Inode}
use luma_osjang.FileCalls.{minus}
use luma_osjang.FileCalls.Copy.{copy_file}
use luma_osjang.FileCalls.Creations.{IsEarly, IsCopyCode, copy_file-IsEarly}
use luma_osjang.Builtins.{
  ShellState, codes, is_empty, next_row, report, report_from, print_strings, print_string,
  request_for,
}
use luma_osjang.Builtins.Directories.Place.{
  SamePlace, SamePlace-report, SamePlace-trans, SamePlace-print_strings,
}
use luma_osjang.Builtins.Copying.{copy_message, handle_cp, handle_mv}

early_same :
    (fs : FileSystem) (r : ℕ × FileSystem)
    → IsEarly IsCopyCode fs r
    → (r.0 == 0) ≡ false
    → (r.0 ≡ minus 5) ⊎ (r.0 ≡ minus 8) ⊎ (r.1 ≡ fs)
early_same fs r (inl (inl z)) h = absurd (ground (arith, z, h))
early_same fs r (inl (inr (inl z))) h = inl z
early_same fs r (inl (inr (inr z))) h = inr (inl z)
early_same fs r (inr (c, e)) h = inr (inr e)

module _ (stack : Bytes) (stale : Inode) where
  -- A move whose copy is refused ends after the copy: no removal is tried, and the file system is
  -- what the copy left, which is the old one unless the copy ran out of blocks (-5) or of room in the
  -- directory (-8); the shell stays where it is. Both names are given.
  pub handle_mv_refused :
      (s : ShellState) (source destination : List ℕ)
      → is_empty source ≡ false
      → is_empty destination ≡ false
      → let r =
          copy_file stack stale s.fs
            (some (request_for s source false))
            (some (request_for s destination false)) in
        (r.0 == 0) ≡ false
        → (s' : ShellState) × (handle_mv stack stale s source destination ≡ some s')
          × (s'.fs ≡ r.1)
          × (s'.current_inode ≡ s.current_inode)
          × (s'.current_working_directory ≡ s.current_working_directory)
          × ((r.0 ≡ minus 5) ⊎ (r.0 ≡ minus 8) ⊎ (r.1 ≡ s.fs))
  unfolding handle_mv handle_cp report report_from print_strings print_string request_for
  handle_mv_refused s source destination hs hd code =
      let r =
        copy_file stack stale s.fs (some (request_for s source false))
          (some (request_for s destination false)) in
      let early =
        early_same s.fs r
          (copy_file-IsEarly stack stale s.fs (some (request_for s source false))
            (some (request_for s destination false)))
          code in
      let (t, b) = print_strings (codes "mv: Attempting to move file..." ∷ []) (s, 0) in
      let s1 = next_row t in
      let s2 = report (copy_message source destination r.0) (record s1 { fs = r.1 }) in
      let exists =
        codes "mv: destination '" ∷ destination ∷ codes "' already exists. Aborting move." ∷ [] in
      let failed = codes "mv: failed to copy file. Aborting move." ∷ [] in
      let copied : ShellState = record s1 { fs = r.1 } in
      let kept : (strs : List (List ℕ)) → SamePlace copied (report_from b strs s2) = λ strs.
        SamePlace-trans copied s2 (report_from b strs s2)
          (SamePlace-report (copy_message source destination r.0) copied)
          (SamePlace-print_strings strs s2 b) in
      elim (Bool-cases (r.0 == minus 2)) [
        | inl q ↦
            let (fs_kept, inode_kept, cwd_kept) = kept exists in
            (
              report_from b exists s2,
              rw (hs, hd, code, q) refl,
              fs_kept,
              inode_kept,
              cwd_kept,
              early,
            )
        | inr q ↦
            let (fs_kept, inode_kept, cwd_kept) = kept failed in
            (
              report_from b failed s2,
              rw (hs, hd, code, q) refl,
              fs_kept,
              inode_kept,
              cwd_kept,
              early,
            )
      ]
