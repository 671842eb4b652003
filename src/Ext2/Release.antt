-- ===== src/Ext2/Release.antt =====
-- ext2.c: giving the blocks of an inode back.
use luma_osjang.Common.{ℕ, zero, suc, ◌+◌, ◌*◌, Bool, not, ◌&&◌, ltb, ◌==◌, if◌then◌else◌}
use luma_osjang.Common.Bytes.{Bytes, get32}
use luma_osjang.Ext2.Numbers.{ceil_div, inode_to_bgd}
use luma_osjang.Ext2.Disk.{
  FileSystem, block_size, read_block, set_block_free, deallocate_block, clear_inode_used, add16,
  add32,
}
use luma_osjang.Ext2.Inodes.{Inode, read_inode}
use luma_osjang.Ext2.Blocks.{ptrs_per_block, double_indirect_base, max_supported, set_pointer}

-- `for (i …; i++) if (inode->i_block[i] != 0) { free(inode->i_block[i]); inode->i_block[i] = 0; }`
-- with `n` rounds left; `free` is `set_block_free` or `deallocate_block`.
unfoldable pub free_direct :
    (FileSystem → ℕ → FileSystem) → ℕ → ℕ → Inode → FileSystem → Inode × FileSystem
free_direct free zero i inode fs = (inode, fs)
free_direct free (suc n) i inode fs =
    let used = not (inode.i_block i == 0) in
    free_direct free n (i + 1) (if used then set_pointer inode i 0 else inode)
      (if used then free fs (inode.i_block i) else fs)

-- The blocks that the words of a table from `i` on name, where they are not 0. The table is in
-- memory, so it is read before the first block is freed.
unfoldable pub free_pointers :
    (FileSystem → ℕ → FileSystem) → Bytes → ℕ → ℕ → FileSystem → FileSystem
free_pointers free table zero i fs = fs
free_pointers free table (suc n) i fs =
    let b = get32 table (i * 4) in
    free_pointers free table n (i + 1) (if b == 0 then fs else free fs b)

-- A table and all that it names.
unfoldable pub free_table : FileSystem → ℕ → FileSystem
unfolding free_pointers
free_table fs b =
    set_block_free (free_pointers set_block_free (read_block fs b) ptrs_per_block 0 fs) b

unfoldable pub deallocate_node_blocks_extended : Inode → FileSystem → Inode × FileSystem
unfolding free_direct free_pointers free_table
deallocate_node_blocks_extended inode fs =
    let direct = if ltb inode.i_blocks 12 then inode.i_blocks else 12 in
    let (node, fs1) = free_direct set_block_free direct 0 inode fs in
    let fs2 = if node.i_block 12 == 0 then fs1 else free_table fs1 (node.i_block 12) in
    let fs3 =
      (if node.i_block 13 == 0
        then fs2
        else set_block_free
            (free_pointers free_table (read_block fs2 (node.i_block 13)) ptrs_per_block 0 fs2)
            (node.i_block 13)) in
    (record node { i_block = λ k. if ltb k 15 then 0 else node.i_block k; i_blocks = 0 }, fs3)

-- `stale` is what the uninitialised `node` holds.
unfoldable pub deallocate_node : Inode → FileSystem → ℕ → FileSystem
unfolding deallocate_node_blocks_extended
deallocate_node stale fs inode =
    let fs1 = (deallocate_node_blocks_extended (read_inode fs inode stale) fs).1 in
    let fs2 = clear_inode_used fs1 inode in
    record fs2 {
      bgd_table = add16 fs2.bgd_table (inode_to_bgd inode * 32 + 14) 1;
      superblock = add32 fs2.superblock 16 1;
    }

-- The recursion is on `level`; level 0 frees as level 1 does.
unfoldable pub deallocate_indirect_block : ℕ → FileSystem → ℕ → FileSystem
deallocate_indirect_block zero fs b =
    if b == 0
    then fs
    else deallocate_block (free_pointers deallocate_block (read_block fs b) ptrs_per_block 0 fs) b
deallocate_indirect_block (suc level) fs b =
    let free : FileSystem → ℕ → FileSystem =
      (if level == 0 then deallocate_block else deallocate_indirect_block level) in
    if b == 0
    then fs
    else deallocate_block (free_pointers free (read_block fs b) ptrs_per_block 0 fs) b

-- One of the three indirect blocks, where the file is long enough to have it.
abbrev pub free_indirect : ℕ → ℕ → Bool → Inode → FileSystem → Inode × FileSystem
free_indirect k level long inode fs =
    if long && not (inode.i_block k == 0)
    then (set_pointer inode k 0, deallocate_indirect_block level fs (inode.i_block k))
    else (inode, fs)

unfoldable pub deallocate_inode_blocks : Inode → FileSystem → Inode × FileSystem
unfolding free_direct deallocate_indirect_block
deallocate_inode_blocks inode fs =
    let total_blocks = ceil_div inode.i_size block_size in
    let direct = if ltb total_blocks 12 then total_blocks else 12 in
    let (n1, fs1) = free_direct deallocate_block direct 0 inode fs in
    let (n2, fs2) = free_indirect 12 1 (ltb 12 total_blocks) n1 fs1 in
    let (n3, fs3) = free_indirect 13 2 (ltb double_indirect_base total_blocks) n2 fs2 in
    let (n4, fs4) = free_indirect 14 3 (ltb max_supported total_blocks) n3 fs3 in
    (record n4 { i_blocks = 0; i_size = 0 }, fs4)
