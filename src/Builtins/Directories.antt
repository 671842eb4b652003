-- ===== src/Builtins/Directories.antt =====
-- builtin_commands.c: changing the directory, making one and listing one. `stack` and `stale` are
-- what uninitialised tables and inodes of the kernel hold.
pub mod Place
pub mod Messages
use luma_osjang.Common.{
  ℕ, zero, suc, ◌+◌, leb, length, ◌≡◌, refl, ◌⊎◌, inl, inr, ◌≢◌, Bool, true, false, not, ◌||◌,
  Option, none, some, List, [], ◌∷◌, ◌++◌, ◌==◌, if◌then◌else◌, Bool-cases, Option-cases,
}
use luma_osjang.Common.Bytes.{Bytes}
use luma_osjang.Ext2.Disk.{FileSystem}
use luma_osjang.Ext2.Inodes.{Inode, read_inode, zero_inode}
use luma_osjang.FileCalls.Create.{create_directory}
use luma_osjang.Builtins.{
  ShellState, codes, same_string, is_empty, print_string, print_strings, next_row, report,
  print_line, request_for,
}
use luma_osjang.Builtins.Lookup.{find_for_rm, has_directory_bit}

-- `current_inode = 2; strcpy(current_working_directory, "/");`
abbrev pub to_root : ShellState → ShellState
to_root s = record s { current_inode = 2; current_working_directory = codes "/" }

-- `strcat` for a relative path, `strcpy` for one from the root.
unfoldable pub joined : List ℕ → List ℕ → List ℕ
unfolding same_string
joined cwd [] = cwd
joined cwd (c ∷ cs) =
    if c == b'/'
    then c ∷ cs
    else if not (same_string cwd (codes "/"))
    then (cwd ++ codes "/") ++ (c ∷ cs)
    else cwd ++ (c ∷ cs)

-- `none` where the path and its terminator outgrow the 256 characters of the array, which no call
-- checks.
abbrev pub enter : ShellState → ℕ → List ℕ → Option ShellState
enter s target path =
    let cwd = joined s.current_working_directory path in
    if leb (length cwd) 255
    then some (record s { current_inode = target; current_working_directory = cwd })
    else none

abbrev pub show_entered : Option ShellState → Option ShellState
show_entered none = none
show_entered (some s) =
    some (report (codes "Changed directory to: " ∷ s.current_working_directory ∷ []) s)

-- System call 18 is left out of `handle_cd`: it changes nothing, and its result is not looked at.
unfoldable pub cd_named : ShellState → List ℕ → Option ShellState
unfolding find_for_rm print_strings report joined
cd_named s path =
    let missing =
      (print_strings (codes "cd: directory '" ∷ path ∷ codes "' not found" ∷ [])
        (next_row s, 0)).0 in
    elim (find_for_rm s.fs s.current_inode path) [
      | none ↦ some missing
      | some (target_inode, is_directory) ↦
          if target_inode == 0
          then some missing
          else if not is_directory
          then some
              (print_strings (codes "cd: '" ∷ path ∷ codes "' is not a directory" ∷ [])
                (next_row s, 0)).0
          else show_entered (enter s target_inode path)
    ]

unfoldable pub handle_cd : ShellState → List ℕ → Option ShellState
unfolding cd_named print_line
handle_cd s path =
    let changed = some (print_line (codes "Changed to root directory: /") (next_row (to_root s))) in
    if is_empty path
    then some (print_line (codes "Error: Missing argument") s)
    else if same_string path (codes "/")
    then changed
    else if same_string path (codes "..") || same_string path (codes "../")
    then if not (same_string s.current_working_directory (codes "/"))
      then changed
      else some (print_line (codes "Already at root directory") (next_row s))
    else if same_string path (codes ".")
    then some (report (codes "Staying in current directory: " ∷ s.current_working_directory ∷ []) s)
    else cd_named s path

module _ (stack : Bytes) (stale : Inode) where
  unfoldable pub handle_mkdir : ShellState → List ℕ → ShellState
  unfolding report print_line request_for
  handle_mkdir s name =
      let (result, fs) = create_directory stack stale s.fs (some (request_for s name true)) in
      let s1 = record s { fs = fs } in
      if is_empty name
      then print_line (codes "mkdir: missing argument") s
      else if result == 0
      then report (codes "Directory created: " ∷ name ∷ []) s1
      else if result == 1
      then report (codes "mkdir: directory '" ∷ name ∷ codes "' already exists" ∷ []) s1
      else if result == 2
      then report (codes "mkdir: parent is not a directory" ∷ []) s1
      else report (codes "mkdir: failed to create directory" ∷ []) s1
