-- ===== src/Builtins/Removal.antt =====
-- builtin_commands.c: removing a file or a directory. `stale` is what an uninitialised inode of the
-- kernel holds.
pub mod Request
pub mod Reach
use luma_osjang.Common.{
  ℕ, zero, suc, ◌+◌, Bool, true, false, ◌||◌, Option, none, some, List, [], ◌∷◌, ◌++◌, ◌==◌,
  if◌then◌else◌,
}
use luma_osjang.Ext2.Disk.{FileSystem}
use luma_osjang.Ext2.Inodes.{Inode}
use luma_osjang.FileCalls.Delete.{delete_file, delete_directory}
use luma_osjang.Builtins.{ShellState, codes, same_string, is_empty, report, request_for}
use luma_osjang.Builtins.Lookup.{find_for_rm}

abbrev kind_of : Bool → List ℕ
kind_of is_directory = if is_directory then codes "directory '" else codes "file '"

-- The messages of `handle_rm` about a result.
unfoldable pub removal_message : Bool → List ℕ → ℕ → List (List ℕ)
removal_message is_directory path result =
    let failed : List ℕ → List (List ℕ) =
      λ why. codes "rm: failed to remove " ∷ kind_of is_directory ∷ path ∷ why ∷ [] in
    if result == 0
    then codes "rm: " ∷ kind_of is_directory ∷ path ∷ codes "' removed successfully" ∷ []
    else if result == 1
    then failed (codes "' - already exists or permission denied")
    else if result == 2
    then failed (codes "' - parent is not a directory")
    else if result == 3
    then failed (codes "' - directory not empty")
    else failed (codes "' - unknown error")

module _ (stale : Inode) where
  -- System call 26 or 25.
  unfoldable pub delete_call : ShellState → List ℕ → Bool → Option (ℕ × FileSystem)
  unfolding request_for
  delete_call s path is_directory =
      let request = request_for s path is_directory in
      if is_directory
      then delete_directory stale s.fs (some request)
      else delete_file stale s.fs (some request)

  unfoldable pub remove_named : ShellState → List ℕ → Bool → Option ShellState
  unfolding delete_call removal_message report
  remove_named s path is_directory = elim (delete_call s path is_directory) [
    | none ↦ none
    | some (result, fs) ↦
        some (report (removal_message is_directory path result) (record s { fs = fs }))
  ]

  -- `none` where the kernel's search for the entry has no end.
  unfoldable pub handle_rm : ShellState → List ℕ → Option ShellState
  unfolding remove_named find_for_rm
  handle_rm s path =
      let missing = report (codes "rm: file/directory '" ∷ path ∷ codes "' not found" ∷ []) s in
      if is_empty path
      then some (report (codes "rm: missing file/directory name" ∷ []) s)
      else if same_string path (codes ".")
          || same_string path (codes "..")
          || same_string path (codes "../")
      then some (report (codes "rm: cannot remove '.' or '..' or '../' directories" ∷ []) s)
      else elim (find_for_rm s.fs s.current_inode path) [
        | none ↦ some missing
        | some (target_inode, is_directory) ↦
            if target_inode == 0 then some missing else remove_named s path is_directory
      ]
