-- ===== src/Builtins/Finding.antt =====
-- builtin_commands.c: the search for a name below the root. The walk along a directory is the one of
-- Builtins.Lookup, with a descent into the directories on the way.
pub mod Root
use luma_osjang.Common.{
  ℕ, zero, suc, ◌+◌, ◌-◌, Bool, true, false, not, ◌&&◌, ◌||◌, List, [], ◌∷◌, ◌++◌, ltb, leb, ◌==◌,
  if◌then◌else◌, bit_and, length, take, get_or,
}
use luma_osjang.Common.Bytes.{Bytes}
use luma_osjang.Ext2.Disk.{FileSystem}
use luma_osjang.Ext2.Inodes.{Inode, zero_inode, read_inode, is_directory}
use luma_osjang.Ext2.Directory.{entry_inode, entry_rec_len, entry_header_size}
use luma_osjang.Builtins.{ShellState, codes, same_string, is_empty, report}
use luma_osjang.Builtins.Lookup.{
  has_directory_bit, unusable, read_buf, stops_lookup, skips, entry_name_length, is_match,
}

-- `n` characters of the array from `at` on.
unfoldable pub chars_at : Bytes → ℕ → ℕ → List ℕ
chars_at buf at zero = []
chars_at buf at (suc n) = buf at ∷ chars_at buf (at + 1) n

-- `entry_name`
unfoldable pub entry_name : Bytes → ℕ → List ℕ
unfolding chars_at entry_name_length
entry_name buf offset = chars_at buf (offset + entry_header_size) (entry_name_length buf offset)

-- The path of an entry: at most 400 characters of the directory's and 511 in all.
unfoldable pub child_path : List ℕ → List ℕ → List ℕ
child_path path name =
    let start = take 400 path in
    let parted =
      if ltb 1 (length start) || not (get_or path 0 0 == b'/') then start ++ codes "/" else start in
    parted ++ take (511 - length parted) name

unfoldable pub announce : FileSystem → Bytes → ℕ → List ℕ → ShellState → ShellState
unfolding child_path entry_name report
announce fs buf offset path s =
    let found_inode = read_inode fs (entry_inode buf offset) zero_inode in
    if ltb s.current_output_row 22
    then report
        ((if has_directory_bit found_inode then codes "FOUND DIR: " else codes "FOUND FILE: ")
          ∷ child_path path (entry_name buf offset)
          ∷ [])
        s
    else s

-- Whether the search goes down into an entry.
unfoldable pub descends : FileSystem → ℕ → ℕ → Bool
unfolding is_directory
descends fs curr_inode inode =
    let child_inode = read_inode fs inode zero_inode in
    (not (inode == curr_inode) && ltb 1 inode)
    && (is_directory child_inode
        && ltb 0 child_inode.i_size
        && ltb child_inode.i_size 65536
        && not (child_inode.i_block 0 == 0))

-- The walk along a directory, with rounds left out of MAX_ENTRIES; `visit` is the search below an
-- inode with its path. The Boolean is `*found`.
unfoldable pub find_entries :
    (ℕ → List ℕ → ShellState × Bool → ShellState × Bool)
    → ℕ
    → List ℕ
    → List ℕ
    → Bytes
    → ℕ
    → ℕ
    → ShellState × Bool
    → ShellState × Bool
unfolding announce descends stops_lookup skips is_match entry_name child_path
find_entries visit curr_inode search_name path buf zero offset p = p
find_entries visit curr_inode search_name path buf (suc n) offset (s, found) =
    let name = entry_name buf offset in
    let inode = entry_inode buf offset in
    let skipped =
      skips buf offset || (same_string name (codes ".") || same_string name (codes "..")) in
    let next : ShellState × Bool =
      if not skipped && descends s.fs curr_inode inode
      then visit inode (child_path path name) (s, found)
      else (s, found) in
    let rest =
      find_entries visit curr_inode search_name path buf n (offset + entry_rec_len buf offset)
        next in
    if not (ltb offset 1000) || found
    then (s, found)
    else if stops_lookup buf offset
    then (s, found)
    else if not skipped && is_match buf offset search_name
    then (announce s.fs buf offset path s, true)
    else rest

-- The search, with levels left out of the 11 that `recursion_depth` allows.
unfoldable pub find_recursive : ℕ → List ℕ → ℕ → List ℕ → ShellState × Bool → ShellState × Bool
unfolding find_entries read_buf
find_recursive zero search_name curr_inode path p = p
find_recursive (suc depth) search_name curr_inode path (s, found) =
    let dir_inode = read_inode s.fs curr_inode zero_inode in
    if (found || (curr_inode == 0)) || (is_empty search_name || unusable dir_inode)
    then (s, found)
    else find_entries (find_recursive depth search_name) curr_inode search_name path
        (read_buf s.fs (dir_inode.i_block 0)) 50 0 (s, found)

-- Whether the first 255 characters are printable; a `char` from 128 on is negative.
abbrev pub are_printable : List ℕ → Bool
are_printable [] = true
are_printable (c ∷ cs) = (leb 32 c && leb c 126) && are_printable cs

unfoldable pub handle_find : ShellState → List ℕ → ShellState
unfolding find_recursive report
handle_find s filename =
    let started = report (codes "Searching for: " ∷ filename ∷ []) s in
    let (searched, found) = find_recursive 11 filename 2 (codes "/") (started, false) in
    if is_empty filename
    then report (codes "find: usage: find <filename>" ∷ []) s
    else if not (are_printable (take 255 filename))
    then report (codes "find: invalid character in filename" ∷ []) s
    else if leb 18 s.current_output_row
    then report (codes "find: insufficient screen space" ∷ []) s
    else if not found
    then report (codes "File or directory not found" ∷ []) searched
    else searched
