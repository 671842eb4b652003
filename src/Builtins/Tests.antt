-- ===== src/Builtins/Tests.antt =====
-- Witnesses for the shell's commands, in a directory with one file.
use luma_osjang.Common.{
  ℕ, ◌+◌, ◌≤◌, ◌≡◌, refl, ◌≢◌, ◌⊎◌, true, false, ◌||◌, some, [], ◌∷◌, arith, ◌==◌, if◌then◌else◌,
}
use luma_osjang.Common.Bytes.{Bytes, get16, get32, put_name}
use luma_osjang.Ext2.Disk.{FileSystem, read_block}
use luma_osjang.Ext2.Inodes.{zero_inode, read_inode, decode_inode, read_table, is_directory}
use luma_osjang.Ext2.Numbers.{inode_to_bgd, inode_to_local}
use luma_osjang.Ext2.Directory.{entry_inode, entry_rec_len, entry_name_len, entry_file_type}
use luma_osjang.FileCalls.{minus, find_name, find_in_block, has_name, ends_walk}
use luma_osjang.FileCalls.Listing.{IsEntry}
use luma_osjang.FileCalls.Copy.{copy_file}
use luma_osjang.FileCalls.Create.{create_directory}
use luma_osjang.Builtins.{ShellState, codes, request_for, report, same_string}
use luma_osjang.Builtins.Lookup.{find_for_rm, has_directory_bit}
use luma_osjang.Builtins.Lookup.Agreement.{IsShown, found_by, find_for_rm-find_name}
use luma_osjang.Builtins.Lookup.Walk.{stop, next, array_of}
use luma_osjang.Builtins.Directories.{handle_cd, handle_mkdir}
use luma_osjang.Builtins.Directories.Place.{Outcome, handle_cd-Stays}
use luma_osjang.Builtins.Directories.Messages.{handle_mkdir_lem}
use luma_osjang.Builtins.Removal.{handle_rm}
use luma_osjang.Builtins.Finding.{find_recursive, handle_find}
use luma_osjang.Builtins.Finding.Root.{handle_find_root}
use luma_osjang.Builtins.Paths.{full_path, resolve_path_display}
use luma_osjang.Builtins.Paths.Components.{push_all, pieces, shown}
use luma_osjang.Builtins.Paths.Display.{resolve_path_display_lem}
use luma_osjang.Builtins.Removal.Request.{is_known, files_of, removed}
use luma_osjang.Builtins.Removal.Reach.{handle_rm-removed}
use luma_osjang.Builtins.Copying.{handle_mv}
use luma_osjang.Builtins.Copying.Moving.{handle_mv_refused}

-- The table of inodes is at block 0, where inode 2 is a directory with block 5 and inode 3 a file.
abbrev table_block : Bytes
table_block i =
    if i == 71
    then 0x40
    else if i == 73
    then 2
    else if i == 76
    then 1
    else if i == 80
    then 5
    else if i == 141
    then 0x80
    else 0

-- "." and the file "a".
abbrev root_block : Bytes
root_block i =
    if i == 0
    then 2
    else if i == 4
    then 12
    else if (i == 6) || (i == 17) || (i == 18) || (i == 20)
    then 1
    else if i == 8
    then 2
    else if i == 9
    then b'.'
    else if i == 12
    then 3
    else if i == 16
    then 244
    else if i == 21
    then b'a'
    else 0

abbrev files : FileSystem
files = record {
  disk = λ n i. if n == 0 then table_block i else if n == 5 then root_block i else 0;
  superblock = λ _. 0;
  bgd_table = λ _. 0;
}

abbrev at_root : ShellState
at_root = record {
  fs = files;
  current_inode = 2;
  current_working_directory = codes "/";
  current_output_row = 3;
  printed = [];
}

root_is : (read_inode files 2 zero_inode).i_blocks ≡ 1
unfolding read_inode inode_to_bgd inode_to_local decode_inode read_table get32 get16
root_is = refl

shown_entry :
    (o : ℕ)
    → entry_inode root_block o ≢ 0
    → 9 + entry_name_len root_block o ≤ entry_rec_len root_block o
    → o + entry_rec_len root_block o ≤ 512
    → IsEntry root_block o
shown_entry o a b c = record { used = a; holds = b; within = c }

IsShown-root : IsShown files 2
unfolding read_inode inode_to_bgd inode_to_local decode_inode read_table get32 get16
IsShown-root = record {
  numbered = refl;
  usable = refl;
  one_block = refl;
  last = 12;
  entries = next (shown_entry 0 (λ e. omega (arith, e)) (omega arith) (omega arith)) (omega arith) (
      stop (shown_entry 12 (λ e. omega (arith, e)) (omega arith) (omega arith)) (omega arith) refl);
}

find_for_rm-find_name_example :
    let dir = read_inode files 2 zero_inode in
    find_for_rm files 2 (codes "a")
    ≡ found_by files (dir.i_block 0) (find_name files dir (array_of (codes "a")) 1)
find_for_rm-find_name_example =
    find_for_rm-find_name files 2 (codes "a") IsShown-root (omega arith) (omega arith)

a_found : find_for_rm files 2 (codes "a") ≡ some (3, false)
unfolding find_for_rm read_inode inode_to_bgd inode_to_local decode_inode read_table get32 get16
    put_name
a_found = refl

a_named : find_name files (read_inode files 2 zero_inode) (array_of (codes "a")) 1 ≡ some (0, 12)
unfolding find_name read_inode inode_to_bgd inode_to_local decode_inode read_table get32 get16
    put_name find_in_block has_name ends_walk
a_named = refl

root_known : is_known files 2 ≡ true
unfolding inode_to_bgd inode_to_local
root_known = refl

root_directory : is_directory (read_inode files 2 zero_inode) ≡ true
unfolding is_directory read_inode inode_to_bgd inode_to_local decode_inode read_table get32 get16
root_directory = refl

a_type :
    (entry_file_type (read_block files ((read_inode files 2 zero_inode).i_block 0)) 12 == 2) ≡ false
unfolding read_inode inode_to_bgd inode_to_local decode_inode read_table get32 get16
a_type = refl

a_bit :
    let dir = read_inode files 2 zero_inode in
    has_directory_bit
      (read_inode files (entry_inode (read_block files (dir.i_block 0)) 12) zero_inode)
    ≡ false
unfolding read_inode inode_to_bgd inode_to_local decode_inode read_table get32 get16
a_bit = refl

a_no_dots :
    (same_string (codes "a") (codes ".")
      || same_string (codes "a") (codes "..")
      || same_string (codes "a") (codes "../"))
    ≡ false
unfolding same_string
a_no_dots = refl

handle_rm-removed_example :
    files_of (handle_rm zero_inode at_root (codes "a"))
    ≡ removed zero_inode files (read_inode files 2 zero_inode) 0 12 false
handle_rm-removed_example =
    handle_rm-removed zero_inode at_root (codes "a") 12 false IsShown-root root_known (omega arith)
      (omega arith) a_no_dots root_directory a_named a_type a_bit

root_bit : has_directory_bit (read_inode files 2 zero_inode) ≡ true
unfolding read_inode inode_to_bgd inode_to_local decode_inode read_table get32 get16
root_bit = refl

handle_cd-Stays_example : Outcome at_root (codes "a") (handle_cd at_root (codes "a"))
handle_cd-Stays_example =
    handle_cd-Stays at_root (codes "a") root_bit
      (record { here = root_bit; rooted = refl; fits = omega arith })

handle_mkdir_lem_example :
    let (result, fs) =
      create_directory (λ _. 0) zero_inode files (some (request_for at_root (codes "b") true)) in
    handle_mkdir (λ _. 0) zero_inode at_root (codes "b")
    ≡ report
        (if result == 0
          then codes "Directory created: " ∷ codes "b" ∷ []
          else codes "mkdir: failed to create directory" ∷ [])
        (record at_root { fs = fs })
handle_mkdir_lem_example = handle_mkdir_lem (λ _. 0) zero_inode at_root (codes "b") refl

-- "b", which does not exist, to "c".
b_missing :
    ((copy_file
        (λ _. 0)
        zero_inode
        files
        (some (request_for at_root (codes "b") false))
        (some (request_for at_root (codes "c") false))).0
      == 0)
    ≡ false
unfolding copy_file request_for find_name read_inode inode_to_bgd inode_to_local decode_inode
    read_table get32 get16 put_name find_in_block has_name ends_walk is_directory
b_missing = refl

handle_mv_refused_example :
    let r =
      copy_file
        (λ _. 0)
        zero_inode
        files
        (some (request_for at_root (codes "b") false))
        (some (request_for at_root (codes "c") false)) in
    (s' : ShellState) × (handle_mv (λ _. 0) zero_inode at_root (codes "b") (codes "c") ≡ some s')
    × (s'.fs ≡ r.1)
    × (s'.current_inode ≡ 2)
    × (s'.current_working_directory ≡ codes "/")
    × ((r.0 ≡ minus 5) ⊎ (r.0 ≡ minus 8) ⊎ (r.1 ≡ files))
handle_mv_refused_example =
    handle_mv_refused (λ _. 0) zero_inode at_root (codes "b") (codes "c") refl refl b_missing

handle_find_root_example :
    let started = report (codes "Searching for: " ∷ codes "a" ∷ []) at_root in
    handle_find at_root (codes "a")
    ≡ (find_recursive 11 (codes "a") 2 (codes "/") (started, false)).0
unfolding same_string
handle_find_root_example =
    handle_find_root at_root (codes "a") (3, false) refl refl refl refl a_found

resolve_path_display_lem_example :
    resolve_path_display (codes "/a/b") (codes "../c")
    ≡ some (shown (push_all [] (pieces (full_path (codes "/a/b") (codes "../c")))))
unfolding full_path
resolve_path_display_lem_example =
    resolve_path_display_lem (codes "/a/b") (codes "../c") (omega arith)

path_run : resolve_path_display (codes "/a/b") (codes "../c") ≡ some (codes "/a/c")
unfolding resolve_path_display
path_run = refl
