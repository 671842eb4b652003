-- ===== src/FileCalls/Delete.antt =====
-- interrupt.c: deleting a file or an empty directory. `stale` is what an uninitialised inode holds.
use luma_osjang.Common.{
  ℕ, zero, suc, ◌+◌, ◌-◌, ◌%◌, ◌^◌, Bool, true, false, not, ◌&&◌, ◌||◌, Option, none, some, ltb,
  ◌==◌, if◌then◌else◌, update,
}
use luma_osjang.Common.Bytes.{Bytes, put16, put32, copy_bytes}
use luma_osjang.Ext2.Disk.{
  FileSystem, block_size, read_block, write_block, clear_inode_used, deallocate_block,
}
use luma_osjang.Ext2.Inodes.{Inode, is_directory, read_inode}
use luma_osjang.Ext2.Directory.{
  entry_inode, entry_rec_len, entry_name_len, entry_file_type, entry_header_size, ext2_ft_dir, Walk,
  at_offset, missing, endless,
}
use luma_osjang.Ext2.Files.{Ext2DriverRequest}
use luma_osjang.FileCalls.{minus, find_name, ends_walk}

-- `for (i = 0; i < file_inode.i_blocks && i < 12; i++)`, with rounds left: the inode in memory keeps
-- its pointers.
unfoldable pub free_blocks : Inode → ℕ → ℕ → FileSystem → FileSystem
free_blocks inode zero i fs = fs
free_blocks inode (suc n) i fs = free_blocks inode n (i + 1) (
    if ltb i inode.i_blocks && not (inode.i_block i == 0)
    then deallocate_block fs (inode.i_block i)
    else fs)

-- The search for the entry before `target`, with rounds left: a record length of 0 keeps it in place
-- for ever.
unfoldable pub find_previous : Bytes → ℕ → ℕ → ℕ → Walk
find_previous buf target zero prev = if ltb prev target then endless else missing
find_previous buf target (suc n) prev =
    let rest = find_previous buf target n (prev + entry_rec_len buf prev) in
    if ltb prev target
    then if prev + entry_rec_len buf prev == target then at_offset prev else rest
    else missing

-- The record lengths are 16 bits wide.
unfoldable pub grow_record : Bytes → ℕ → ℕ → Bytes
grow_record buf at rec_len = put16 buf (at + 4) ((entry_rec_len buf at + rec_len) % 2 ^ 16)

-- The block without the entry at `target`; `none` where the search has no end.
unfoldable pub remove_at : Bytes → ℕ → Option Bytes
unfolding find_previous grow_record
remove_at buf target =
    let rec_len = entry_rec_len buf target in
    if ltb 0 target
    then elim (find_previous buf target block_size 0) [
      | at_offset prev ↦ some (grow_record buf prev rec_len)
      | missing ↦ some buf
      | endless ↦ none
    ]
    else if ltb rec_len block_size
    then if not (entry_inode buf rec_len == 0)
      then some (grow_record (copy_bytes buf 0 buf rec_len (block_size - rec_len)) 0 rec_len)
      else some (update (put16 (put16 (put32 buf 0 0) 4 rec_len) 6 0) 8 0)
    else some buf

-- What both deletions do once the target's inode is read.
unfoldable pub remove_target : FileSystem → Inode → ℕ → ℕ → ℕ → Inode → Option FileSystem
unfolding free_blocks remove_at
remove_target fs parent block_idx offset target_idx target =
    let fs1 = clear_inode_used (free_blocks target 12 0 fs) target_idx in
    let b = parent.i_block block_idx in
    elim (remove_at (read_block fs1 b) offset) [
      | some buf ↦ some (write_block fs1 b buf)
      | none ↦ none
    ]

-- "." and "..", by length and characters.
unfoldable pub is_dots : Bytes → ℕ → Bool
is_dots buf offset =
    let name = offset + entry_header_size in
    ((entry_name_len buf offset == 1) && (buf name == b'.'))
    || ((entry_name_len buf offset == 2) && ((buf name == b'.') && (buf (name + 1) == b'.')))

-- Whether the walk finds nothing but "." and "..", with rounds left.
unfoldable pub only_dots : Bytes → ℕ → ℕ → Bool
unfolding is_dots
only_dots buf zero offset = true
only_dots buf (suc n) offset =
    let rest = only_dots buf n (offset + entry_rec_len buf offset) in
    if ltb offset block_size
    then if ends_walk buf offset then true else if is_dots buf offset then rest else false
    else true

-- The loop over the direct blocks of the directory, with rounds left.
unfoldable pub is_empty_from : FileSystem → Inode → ℕ → ℕ → Bool
unfolding only_dots
is_empty_from fs dir zero block_idx = true
is_empty_from fs dir (suc n) block_idx =
    let rest = is_empty_from fs dir n (block_idx + 1) in
    if ltb block_idx dir.i_blocks
    then if dir.i_block block_idx == 0
      then rest
      else if only_dots (read_block fs (dir.i_block block_idx)) block_size 0
      then rest
      else false
    else true

abbrev pub done : Option FileSystem → Option (ℕ × FileSystem)
done none = none
done (some fs) = some (0, fs)

module _ (stale : Inode) where
  -- What `delete_file` does with the entry that it finds.
  unfoldable pub delete_file_at : FileSystem → Inode → ℕ → ℕ → Option (ℕ × FileSystem)
  unfolding remove_target
  delete_file_at fs parent block_idx offset =
      let buf = read_block fs (parent.i_block block_idx) in
      let target = entry_inode buf offset in
      if entry_file_type buf offset == ext2_ft_dir
      then some (minus 6, fs)
      else done (remove_target fs parent block_idx offset target (read_inode fs target stale))

  -- `none` stands for a NULL pointer, and in the result for a search without end.
  unfoldable pub delete_file : FileSystem → Option Ext2DriverRequest → Option (ℕ × FileSystem)
  unfolding delete_file_at
  delete_file fs none = some (minus 1, fs)
  delete_file fs (some request) =
      let parent = read_inode fs request.parent_inode stale in
      if request.name_len == 0
      then some (minus 1, fs)
      else if not (is_directory parent)
      then some (minus 2, fs)
      else elim (find_name fs parent request.name request.name_len) [
        | none ↦ some (minus 3, fs)
        | some (block_idx, offset) ↦ delete_file_at fs parent block_idx offset
      ]

  -- What `delete_directory` does with the entry that it finds.
  unfoldable pub delete_directory_at : FileSystem → Inode → ℕ → ℕ → Option (ℕ × FileSystem)
  unfolding remove_target is_empty_from
  delete_directory_at fs parent block_idx offset =
      let buf = read_block fs (parent.i_block block_idx) in
      let target = entry_inode buf offset in
      if not (entry_file_type buf offset == ext2_ft_dir)
      then some (minus 6, fs)
      else if not (is_empty_from fs (read_inode fs target stale) 12 0)
      then some (minus 7, fs)
      else done (remove_target fs parent block_idx offset target (read_inode fs target stale))

  unfoldable pub delete_directory : FileSystem → Option Ext2DriverRequest → Option (ℕ × FileSystem)
  unfolding delete_directory_at
  delete_directory fs none = some (minus 1, fs)
  delete_directory fs (some request) =
      let parent = read_inode fs request.parent_inode stale in
      if request.name_len == 0
      then some (minus 1, fs)
      else if not (is_directory parent)
      then some (minus 2, fs)
      else elim (find_name fs parent request.name request.name_len) [
        | none ↦ some (minus 3, fs)
        | some (block_idx, offset) ↦ delete_directory_at fs parent block_idx offset
      ]
