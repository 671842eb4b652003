-- ===== src/Ext2/Files.antt =====
-- ext2.c: creating the file system, and the calls that read, write and delete files. A call is
-- `none` where a walk along a directory has no end. `stale` is what an uninitialised
-- `struct EXT2Inode` holds, and `stack` what an uninitialised inode table does.
use luma_osjang.Common.{
  ℕ, zero, suc, ◌+◌, ◌-◌, ◌*◌, ◌^◌, Bool, true, false, not, ◌&&◌, ◌||◌, Option, none, some, List,
  ltb, ◌==◌, if◌then◌else◌, update,
}
use luma_osjang.Common.Bytes.{Bytes, get16, put16, put32, c_string}
use luma_osjang.Ext2.Numbers.{inode_to_bgd, inodes_per_group}
use luma_osjang.Ext2.Disk.{
  FileSystem, block_size, groups_count, blocks_per_group, read_block, write_block, allocate_block,
  allocate_node, add16, add32, sync_superblock, set_inode_used, bitmap_set,
}
use luma_osjang.Ext2.Inodes.{
  Inode, zero_inode, is_directory, read_inode, sync_node, ext2_s_ifdir, ext2_s_ifreg, store_inode,
  inode_size, write_table,
}
use luma_osjang.Ext2.Blocks.{allocate_node_blocks_extended, read_inode_data_extended, max_supported}
use luma_osjang.Ext2.Release.{deallocate_node}
use luma_osjang.Ext2.Directory.{
  init_directory_table, find_inode_in_dir, add_inode_to_dir, remove_inode_from_dir,
  is_empty_directory, directory_block,
}

-- `struct EXT2DriverRequest`; `buf` is `none` for NULL.
pub record Ext2DriverRequest : Type 0 where
  pub buf : Option Bytes
  pub name : Bytes
  pub name_len : ℕ
  pub parent_inode : ℕ
  pub buffer_size : ℕ
  pub is_dir : Bool

-- The codes -1 to 5, -1 as the byte that an int8_t holds.
abbrev pub failure : ℕ
failure = 255

abbrev pub is_null : Option Bytes → Bool
is_null none = true
is_null (some _) = false

-- The name cut at `name_len`, and the name up to its terminator in the array of 256 bytes.
abbrev pub name_copy : Ext2DriverRequest → List ℕ
name_copy request = c_string request.name request.name_len 0

abbrev pub whole_name : Ext2DriverRequest → List ℕ
whole_name request = c_string request.name 256 0

unfoldable pub is_empty_storage : FileSystem → Bool
is_empty_storage fs = not (get16 (read_block fs 1) 56 == 0xef53)

-- The fields that `create_ext2` stores in the zeroed superblock, in its order.
unfoldable pub new_superblock : Bytes
new_superblock =
    let a = put16 (λ _. 0) 56 0xef53 in
    let a = put32 a 0 (inodes_per_group * groups_count) in
    let a = put32 a 4 (blocks_per_group * groups_count) in
    let a = put32 a 12 (blocks_per_group * groups_count - 9) in
    let a = put32 a 16 (inodes_per_group * groups_count - 1) in
    let a = put32 (put32 (put32 a 20 0) 24 0) 28 0 in
    let a = put32 (put32 (put32 a 32 blocks_per_group) 36 blocks_per_group) 40 inodes_per_group in
    let a = put16 (put16 (put32 (put32 a 44 0) 48 0) 52 0) 54 20 in
    let a = put16 (put16 (put16 a 58 1) 60 1) 62 0 in
    let a = put32 (put32 (put32 (put32 a 64 0) 68 0) 72 0) 76 0 in
    put32 (put16 (put16 a 80 0) 82 0) 84 11

-- The one group's descriptor.
unfoldable pub new_bgd_table : Bytes
new_bgd_table =
    put16 (put16 (put32 (put32 (put32 (λ _. 0) 0 3) 4 4) 8 5) 12 (blocks_per_group - 9)) 14
      inodes_per_group

-- Bits `0 … n - 1` of an empty bitmap.
unfoldable pub reserved_blocks : ℕ → Bytes
reserved_blocks zero = λ _. 0
reserved_blocks (suc n) = bitmap_set (reserved_blocks n) n

unfoldable pub create_ext2 : FileSystem → FileSystem
unfolding new_superblock new_bgd_table reserved_blocks
create_ext2 old =
    let fs0 = record old {
      superblock = λ i. if ltb i 90 then new_superblock i else old.superblock i;
      bgd_table = λ i. if ltb i 32 then new_bgd_table i else old.bgd_table i;
    } in
    let fs1 = write_block (write_block fs0 1 fs0.superblock) 2 fs0.bgd_table in
    let fs2 = write_block (write_block fs1 3 (reserved_blocks 9)) 4 (λ _. 0) in
    let (b, fs3) = allocate_block fs2 0 in
    let root : Inode = record {
      i_mode = ext2_s_ifdir;
      i_size = block_size;
      i_blocks = 1;
      i_block = update (λ _. 0) 0 b;
    } in
    let fs4 = write_block fs3 b (directory_block 2 2) in
    let fs5 = write_table fs4 5 (store_inode (λ _. 0) inode_size root) in
    sync_superblock (set_inode_used fs5 2)

unfoldable pub initialize_filesystem_ext2 : FileSystem → FileSystem
initialize_filesystem_ext2 fs = if is_empty_storage fs then create_ext2 fs else record fs {
  superblock = λ i. if ltb i block_size then read_block fs 1 i else fs.superblock i;
  bgd_table = λ i. if ltb i block_size then read_block fs 2 i else fs.bgd_table i;
}

module _ (stack : Bytes) (stale : Inode) where
  unfoldable pub find_dir : FileSystem → ℕ → Option ℕ
  find_dir fs inode = if is_directory (read_inode fs inode stale) then some inode else none

  -- The new inode of `write`: a directory of one block with its two entries, or a file with its
  -- data.
  unfoldable pub new_node : FileSystem → Ext2DriverRequest → ℕ → Inode × FileSystem
  new_node fs request new_inode =
      if request.is_dir
      then (let (b, fs') = allocate_block fs (inode_to_bgd new_inode) in
          let node : Inode = record {
            i_mode = ext2_s_ifdir;
            i_size = block_size;
            i_blocks = 1;
            i_block = update (λ _. 0) 0 b;
          } in
          (node, init_directory_table fs' node new_inode request.parent_inode))
      else (let node : Inode = record zero_inode {
        i_mode = ext2_s_ifreg;
        i_size = request.buffer_size;
      } in
          if request.buffer_size == 0 then (node, fs) else elim (request.buf) [
            | none ↦ (node, fs)
            | some data_ptr ↦
                allocate_node_blocks_extended data_ptr node (inode_to_bgd new_inode) fs
          ])

  -- What `write` does once the inode is taken.
  unfoldable pub write_new : FileSystem → Ext2DriverRequest → Inode → ℕ → FileSystem
  write_new fs request parent new_inode =
      let (node, fs1) = new_node fs request new_inode in
      let fs2 =
        add_inode_to_dir (sync_node stack fs1 node new_inode) parent new_inode
          (name_copy request) in
      let at = inode_to_bgd new_inode * 32 in
      let bgd = add16 fs2.bgd_table (at + 14) (2 ^ 16 - 1) in
      sync_superblock (record fs2 {
        bgd_table = if request.is_dir then add16 bgd (at + 16) 1 else bgd;
        superblock = add32 fs2.superblock 16 (2 ^ 32 - 1);
      })

  unfoldable pub write : FileSystem → Ext2DriverRequest → Option (ℕ × FileSystem)
  unfolding find_dir
  write fs request =
      if (request.name_len == 0)
        || ((request.name 0 == 0)
            || ((ltb 0 request.buffer_size && is_null request.buf)
                || ltb (max_supported * block_size) request.buffer_size))
      then some (failure, fs)
      else elim (find_dir fs request.parent_inode) [
        | none ↦ some (2, fs)
        | some parent_idx ↦
            let parent = read_inode fs parent_idx stale in
            elim (find_inode_in_dir fs parent (name_copy request)) [
              | none ↦ none
              | some (some existing) ↦ some (1, fs)
              | some none ↦
                  let (new_inode, fs1) = allocate_node fs in
                  if new_inode == 0
                  then some (failure, fs1)
                  else some (0, write_new fs1 request parent new_inode)
            ]
      ]

  unfoldable pub delete : FileSystem → Ext2DriverRequest → Option (ℕ × FileSystem)
  unfolding find_dir
  delete fs request = elim (find_dir fs request.parent_inode) [
    | none ↦ some (3, fs)
    | some inode_idx ↦
        let dir_inode = read_inode fs inode_idx stale in
        elim (find_inode_in_dir fs dir_inode (whole_name request)) [
          | none ↦ none
          | some none ↦ some (1, fs)
          | some (some target) ↦
              let file_inode = read_inode fs target stale in
              if request.is_dir && not (is_empty_directory fs file_inode)
              then some (2, fs)
              else elim (remove_inode_from_dir fs dir_inode (whole_name request)) [
                | none ↦ none
                | some fs1 ↦ some (0, sync_superblock (deallocate_node stale fs1 target))
              ]
        ]
  ]

  unfoldable pub read_directory : FileSystem → Ext2DriverRequest → Option ℕ
  unfolding find_dir
  read_directory fs request =
      if request.name_len == 0 then some failure else elim (find_dir fs request.parent_inode) [
        | none ↦ some 3
        | some parent_idx ↦
            elim (find_inode_in_dir fs (read_inode fs parent_idx stale) (name_copy request)) [
              | none ↦ none
              | some none ↦ some 4
              | some (some target) ↦
                  if is_directory (read_inode fs target stale) then some 0 else some 5
            ]
      ]

  -- The answer and the caller's buffer after the call; `buf` is not NULL.
  unfoldable pub read : FileSystem → Ext2DriverRequest → Bytes → Option (ℕ × Bytes)
  read fs request buf =
      let parent = read_inode fs request.parent_inode stale in
      if request.name 0 == 0
      then some (failure, buf)
      else if request.buffer_size == 0
      then some (failure, buf)
      else if not (is_directory parent)
      then some (3, buf)
      else elim (find_inode_in_dir fs parent (c_string request.name 255 0)) [
        | none ↦ none
        | some none ↦ some (3, buf)
        | some (some target) ↦
            let file_inode = read_inode fs target stale in
            if is_directory file_inode
            then some (1, buf)
            else if ltb request.buffer_size file_inode.i_size
            then some (2, buf)
            else some (
              0,
              if ltb 0 file_inode.i_size
                  then read_inode_data_extended fs file_inode buf file_inode.i_size
                  else buf,
            )
      ]
