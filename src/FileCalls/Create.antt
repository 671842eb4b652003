-- ===== src/FileCalls/Create.antt =====
-- interrupt.c: creating a directory. `stack` and `stale` are what the uninitialised inode table and
-- inodes hold.
use luma_osjang.Common.{
  ℕ, ◌+◌, ◌-◌, ◌^◌, not, Option, none, some, [], ◌∷◌, leb, ◌==◌, if◌then◌else◌, update,
}
use luma_osjang.Common.Bytes.{Bytes, put_name}
use luma_osjang.Ext2.Numbers.{inode_to_bgd}
use luma_osjang.Ext2.Disk.{
  FileSystem, block_size, write_block, allocate_node, allocate_block, clear_inode_used,
  set_block_free, sync_superblock,
}
use luma_osjang.Ext2.Inodes.{Inode, is_directory, read_inode, sync_node, ext2_s_ifdir}
use luma_osjang.Ext2.Directory.{put_entry, get_entry_record_len, ext2_ft_dir}
use luma_osjang.Ext2.Files.{Ext2DriverRequest}
use luma_osjang.FileCalls.{minus, find_name, append_entry}

-- The block of a new directory: "." takes no more than its record, ".." the rest.
unfoldable pub create_block : ℕ → ℕ → Bytes
unfolding put_entry put_name get_entry_record_len
create_block inode parent_inode =
    let offset = get_entry_record_len 1 in
    put_name
      (put_entry (put_name (put_entry (λ _. 0) 0 inode offset 1 ext2_ft_dir) 9 (b'.' ∷ [])) offset
        parent_inode (block_size - offset) 2 ext2_ft_dir)
      (offset + 9) (b'.' ∷ b'.' ∷ [])

module _ (stack : Bytes) (stale : Inode) where
  -- The directory once its block is taken.
  unfoldable pub create_in_block : FileSystem → Inode → Ext2DriverRequest → ℕ → ℕ → ℕ × FileSystem
  unfolding create_block
  create_in_block fs parent request new_inode new_block =
      let node : Inode = record {
        i_mode = ext2_s_ifdir;
        i_size = block_size;
        i_blocks = 1;
        i_block = update (λ _. 0) 0 new_block;
      } in
      let fs1 = write_block fs new_block (create_block new_inode request.parent_inode) in
      let fs2 = sync_node stack fs1 node new_inode in
      elim (append_entry fs2 parent new_inode request.name request.name_len ext2_ft_dir) [
        | none ↦ (minus 6, set_block_free (clear_inode_used fs2 new_inode) new_block)
        | some fs3 ↦ (0, sync_superblock (sync_node stack fs3 parent request.parent_inode))
      ]

  -- The directory once the name is known to be new.
  unfoldable pub create_new : FileSystem → Inode → Ext2DriverRequest → ℕ × FileSystem
  unfolding create_in_block
  create_new fs parent request =
      let (new_inode, fs1) = allocate_node fs in
      let (new_block, fs2) = allocate_block fs1 (inode_to_bgd new_inode) in
      if new_inode == 0
      then (minus 4, fs1)
      else if leb (2 ^ 31) new_block
      then (minus 5, clear_inode_used fs2 new_inode)
      else create_in_block fs2 parent request new_inode new_block

  -- `none` stands for a NULL pointer.
  unfoldable pub create_directory : FileSystem → Option Ext2DriverRequest → ℕ × FileSystem
  unfolding create_new
  create_directory fs none = (minus 1, fs)
  create_directory fs (some request) =
      let parent = read_inode fs request.parent_inode stale in
      if request.name_len == 0
      then (minus 1, fs)
      else if not (is_directory parent)
      then (minus 2, fs)
      else elim (find_name fs parent request.name request.name_len) [
        | some _ ↦ (minus 3, fs)
        | none ↦ create_new fs parent request
      ]
