-- ===== src/Builtins/Removal/Reach.antt =====
-- builtin_commands.c and interrupt.c: `rm` from the shell's lookup to the kernel's block.
use luma_osjang.Common.{
  ℕ, ◌+◌, ◌≤◌, ◌<◌, ◌≡◌, ◌∙◌, ap, Bool, true, false, ◌||◌, Option, some, List, ◌==◌, length, arith,
}
use luma_osjang.Common.Bytes.{get32-ext}
use luma_osjang.Ext2.Disk.{FileSystem, read_block}
use luma_osjang.Ext2.Inodes.{Inode, zero_inode, read_inode, is_directory}
use luma_osjang.Ext2.Directory.{entry_inode, entry_file_type}
use luma_osjang.FileCalls.{find_name}
use luma_osjang.Builtins.{ShellState, codes, same_string, is_empty}
use luma_osjang.Builtins.Lookup.{find_for_rm, has_directory_bit, target_of, read_buf}
use luma_osjang.Builtins.Lookup.Agreement.{
  IsShown, find_for_rm-find_name, found_by, read_buf-block, find_name-IsEntry,
}
use luma_osjang.Builtins.Lookup.Walk.{array_of}
use luma_osjang.FileCalls.Listing.{IsEntry}
use luma_osjang.Builtins.Removal.{remove_named, handle_rm}
use luma_osjang.Builtins.Removal.Request.{
  is_known, read_inode_known, files_of, not_empty, named_lem, removed, remove_named_files,
  delete_call_files,
}

module _ (stale : Inode) where
  -- What the shell finds, where the kernel finds an entry.
  found_lem :
      (fs : FileSystem) (curr_inode : ℕ) (name : List ℕ) (o : ℕ)
      → IsShown fs curr_inode
      → 0 < length name
      → length name ≤ 255
      → let dir = read_inode fs curr_inode zero_inode in
        find_name fs dir (array_of name) (length name) ≡ some (0, o)
        → IsEntry (read_block fs (dir.i_block 0)) o
        → find_for_rm fs curr_inode name ≡ some (target_of fs (read_block fs (dir.i_block 0)) o)
  found_lem fs curr_inode name o s h l e x =
      let dir = read_inode fs curr_inode zero_inode in
      let b = dir.i_block 0 in
      let same : entry_inode (read_buf fs b) o ≡ entry_inode (read_block fs b) o =
        get32-ext (read_buf fs b) (read_block fs b) o o
          (λ d hd. read_buf-block fs b (o + d) (omega (arith, x.holds, x.within))) in
      let target : ℕ → Option (ℕ × Bool) =
        λ i. some (i, has_directory_bit (read_inode fs i zero_inode)) in
      find_for_rm-find_name fs curr_inode name s h l ∙ (ap (found_by fs b) e ∙ ap target same)

  remove_named_found :
      (s : ShellState) (name : List ℕ) (t : ℕ) (is_dir : Bool)
      → is_empty name ≡ false
      → (same_string name (codes ".")
          || same_string name (codes "..")
          || same_string name (codes "../"))
        ≡ false
      → find_for_rm s.fs s.current_inode name ≡ some (t, is_dir)
      → (t == 0) ≡ false
      → handle_rm stale s name ≡ remove_named stale s name is_dir
  unfolding handle_rm
  remove_named_found s name t is_dir h d e z =
      named_lem (is_empty name)
        (same_string name (codes ".")
          || same_string name (codes "..")
          || same_string name (codes "../"))
        (find_for_rm s.fs s.current_inode name) t is_dir _ _ _ (remove_named stale s name) h d e z

  -- `rm` of a name with 1 to 255 characters that is not one of the dots, in a directory that the
  -- shell and the kernel read whole and where the kernel finds it: if the entry's type and its
  -- inode's mode agree on what is a directory, the shell makes the call for that kind, and the file
  -- system becomes what the kernel's removal of the entry leaves, or stays as it is for a directory
  -- that is not empty; where that removal has no end, `rm` has none.
  pub handle_rm-removed :
      (s : ShellState) (name : List ℕ) (o : ℕ) (is_dir : Bool)
      → IsShown s.fs s.current_inode
      → is_known s.fs s.current_inode ≡ true
      → 0 < length name
      → length name ≤ 255
      → (same_string name (codes ".")
          || same_string name (codes "..")
          || same_string name (codes "../"))
        ≡ false
      → let dir = read_inode s.fs s.current_inode zero_inode in
        let buf = read_block s.fs (dir.i_block 0) in
        is_directory dir ≡ true
        → find_name s.fs dir (array_of name) (length name) ≡ some (0, o)
        → (entry_file_type buf o == 2) ≡ is_dir
        → has_directory_bit (read_inode s.fs (entry_inode buf o) zero_inode) ≡ is_dir
        → files_of (handle_rm stale s name) ≡ removed stale s.fs dir 0 o is_dir
  handle_rm-removed s name o is_dir shown known h l dots d e t m =
      let dir = read_inode s.fs s.current_inode zero_inode in
      let parent = read_inode s.fs s.current_inode stale in
      let k : parent ≡ dir = read_inode_known s.fs s.current_inode stale zero_inode known in
      let (_, x) =
        find_name-IsEntry s.fs s.current_inode (array_of name) (length name) 0 o shown e in
      let t_inode = entry_inode (read_block s.fs (dir.i_block 0)) o in
      let z : (t_inode == 0) ≡ false = ground (arith, x.used) in
      let found : find_for_rm s.fs s.current_inode name ≡ some (t_inode, is_dir) =
        found_lem s.fs s.current_inode name o shown h l e x
        ∙ ap (λ (i : Bool). some (t_inode, i)) m in
      let called = remove_named_found s name t_inode is_dir (not_empty name h) dots found z in
      let find_p : find_name s.fs parent (array_of name) (length name) ≡ some (0, o) =
        ap (λ (p : Inode). find_name s.fs p (array_of name) (length name)) k ∙ e in
      let type_p : (entry_file_type (read_block s.fs (parent.i_block 0)) o == 2) ≡ is_dir =
        ap (λ (p : Inode). entry_file_type (read_block s.fs (p.i_block 0)) o == 2) k ∙ t in
      ap files_of called
      ∙ (remove_named_files stale s name is_dir
          ∙ (delete_call_files stale s name 0 o is_dir h l (ap is_directory k ∙ d) find_p type_p
              ∙ ap (λ (p : Inode). removed stale s.fs p 0 o is_dir) k))
