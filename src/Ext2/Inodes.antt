-- ===== src/Ext2/Inodes.antt =====
-- ext2.c: inodes and the table that holds them.
use luma_osjang.Common.{
  ℕ, ◌+◌, ◌-◌, ◌*◌, ◌/◌, ◌%◌, Bool, ◌&&◌, ltb, leb, ◌==◌, if◌then◌else◌, bit_and,
}
use luma_osjang.Common.Bytes.{Bytes, get16, get32, put16, put32}
use luma_osjang.Ext2.Numbers.{inode_to_bgd, inode_to_local, inodes_per_group}
use luma_osjang.Ext2.Disk.{FileSystem, block_size, groups_count, bg_inode_table}

-- `struct EXT2Inode`: 70 bytes, packed.
pub record Inode : Type 0 where
  pub i_mode : ℕ
  pub i_size : ℕ
  pub i_blocks : ℕ
  pub i_block : ℕ → ℕ

abbrev pub inode_size : ℕ
inode_size = 70

abbrev pub inodes_table_block_count : ℕ
inodes_table_block_count = 4

abbrev pub ext2_s_ifreg : ℕ
ext2_s_ifreg = 0x8000

abbrev pub ext2_s_ifdir : ℕ
ext2_s_ifdir = 0x4000

-- `memset(&new_node, 0, sizeof(new_node))`
abbrev pub zero_inode : Inode
zero_inode = record { i_mode = 0; i_size = 0; i_blocks = 0; i_block = λ _. 0 }

unfoldable pub is_directory : Inode → Bool
is_directory inode = bit_and inode.i_mode ext2_s_ifdir == ext2_s_ifdir

-- The struct at byte `at` of an array; `i_block` has 15 elements.
unfoldable pub decode_inode : Bytes → ℕ → Inode
decode_inode a at = record {
  i_mode = get16 a at;
  i_size = get32 a (at + 2);
  i_blocks = get32 a (at + 6);
  i_block = λ k. get32 a (at + 10 + k * 4);
}

-- The bytes of an inode, one by one.
unfoldable pub inode_byte : Inode → ℕ → ℕ
inode_byte node k =
    if ltb k 2
    then put16 (λ _. 0) 0 node.i_mode k
    else if ltb k 6
    then put32 (λ _. 0) 2 node.i_size k
    else if ltb k 10
    then put32 (λ _. 0) 6 node.i_blocks k
    else put32 (λ _. 0) (10 + (k - 10) / 4 * 4) (node.i_block ((k - 10) / 4)) k

-- `inode_table.table[local] = *node`
unfoldable pub store_inode : Bytes → ℕ → Inode → Bytes
unfolding inode_byte
store_inode a at node j =
    if leb at j && ltb j (at + inode_size) then inode_byte node (j - at) else a j

-- The four blocks of the table, read into an array that holds `rest` behind them: the array has room
-- for 32 inodes, which is more than the blocks.
unfoldable pub read_table : FileSystem → ℕ → Bytes → Bytes
read_table fs b rest i =
    if ltb i (inodes_table_block_count * block_size)
    then fs.disk (b + i / block_size) (i % block_size)
    else rest i

unfoldable pub write_table : FileSystem → ℕ → Bytes → FileSystem
write_table fs b a = record fs {
  disk = λ n i.
      if leb b n && ltb n (b + inodes_table_block_count)
      then (if ltb i block_size then a ((n - b) * block_size + i) else fs.disk n i)
      else fs.disk n i;
}

-- `*out_inode` keeps `out` where the number is 0 or out of range.
unfoldable pub read_inode : FileSystem → ℕ → Inode → Inode
read_inode fs inode out =
    if inode == 0
    then out
    else if leb groups_count (inode_to_bgd inode)
    then out
    else if leb inodes_per_group (inode_to_local inode)
    then out
    else decode_inode (read_table fs (bg_inode_table fs (inode_to_bgd inode)) (λ _. 0))
        (inode_to_local inode * inode_size)

-- `stack` is what the uninitialised table holds behind the four blocks that are read.
unfoldable pub sync_node : Bytes → FileSystem → Inode → ℕ → FileSystem
sync_node stack fs node inode =
    let b = bg_inode_table fs (inode_to_bgd inode) in
    write_table fs b (store_inode (read_table fs b stack) (inode_to_local inode * inode_size) node)
