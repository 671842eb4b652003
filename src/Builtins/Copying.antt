-- ===== src/Builtins/Copying.antt =====
-- builtin_commands.c: copying a file, and moving one as a copy and a removal. `stack` and `stale`
-- are what uninitialised tables and inodes of the kernel hold.
pub mod Moving
use luma_osjang.Common.{
  ℕ, zero, suc, ◌+◌, Bool, true, false, ◌||◌, Option, none, some, List, [], ◌∷◌, ◌==◌,
  if◌then◌else◌,
}
use luma_osjang.Common.Bytes.{Bytes}
use luma_osjang.Ext2.Inodes.{Inode}
use luma_osjang.FileCalls.{minus}
use luma_osjang.FileCalls.Copy.{copy_file}
use luma_osjang.Builtins.{
  ShellState, codes, is_empty, next_row, print_strings, report, report_from, print_line,
  request_for,
}
use luma_osjang.Builtins.Removal.{handle_rm}

-- The messages of `handle_cp`, by the result.
unfoldable pub copy_message : List ℕ → List ℕ → ℕ → List (List ℕ)
copy_message source destination result =
    if result == 0
    then codes "File copied successfully: " ∷ source ∷ codes " -> " ∷ destination ∷ []
    else if result == minus 1
    then codes "cp: source file '" ∷ source ∷ codes "' not found" ∷ []
    else if result == minus 2
    then codes "cp: destination file '" ∷ destination ∷ codes "' already exists" ∷ []
    else if result == minus 3
    then codes "cp: cannot copy directory '" ∷ source ∷ codes "' (use cp -r for directories)" ∷ []
    else if result == minus 4
    then codes "cp: failed to allocate inode for destination" ∷ []
    else if result == minus 5
    then codes "cp: failed to allocate blocks for destination" ∷ []
    else if result == minus 6
    then codes "cp: failed to read source file" ∷ []
    else if result == minus 7
    then codes "cp: failed to write destination file" ∷ []
    else if result == minus 8
    then codes "cp: parent directory is full" ∷ []
    else codes "cp: unknown error occurred" ∷ []

module _ (stack : Bytes) (stale : Inode) where
  unfoldable pub handle_cp : ShellState → List ℕ → List ℕ → ℕ × ShellState
  unfolding copy_message report print_line request_for
  handle_cp s source destination =
      let (result, fs) =
        copy_file stack stale s.fs (some (request_for s source false))
          (some (request_for s destination false)) in
      if is_empty source
      then (minus 1, print_line (codes "cp: missing source argument") s)
      else if is_empty destination
      then (minus 1, print_line (codes "cp: missing destination argument") s)
      else (result, report (copy_message source destination result) (record s { fs = fs }))

  -- `b` is the column behind the first message, where the later ones of `handle_mv` begin. `none`
  -- where the kernel's search for the entry has no end.
  unfoldable pub handle_mv : ShellState → List ℕ → List ℕ → Option ShellState
  unfolding handle_cp handle_rm report_from print_strings
  handle_mv s source destination =
      let (t, b) = print_strings (codes "mv: Attempting to move file..." ∷ []) (s, 0) in
      let (copy_result, s2) = handle_cp (next_row t) source destination in
      let removing =
        report_from b (codes "Copy successful. Attempting to remove source file: " ∷ source ∷ [])
          s2 in
      if is_empty source || is_empty destination
      then some (
          report_from 0
            (codes "mv: missing source or destination argument (usage: mv source destination)" ∷ [])
            s)
      else if copy_result == 0
      then handle_rm stale removing source
      else if copy_result == minus 2
      then some (
          report_from b
            (codes "mv: destination '"
              ∷ destination
              ∷ codes "' already exists. Aborting move."
              ∷ [])
            s2)
      else some (report_from b (codes "mv: failed to copy file. Aborting move." ∷ []) s2)
