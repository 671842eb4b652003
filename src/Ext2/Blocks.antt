-- ===== src/Ext2/Blocks.antt =====
-- ext2.c: the map from a file's logical blocks to disk blocks, through direct, single and double
-- indirect blocks.
use luma_osjang.Common.{ℕ, zero, suc, ◌+◌, ◌-◌, ◌*◌, ◌/◌, ◌%◌, ltb, ◌==◌, if◌then◌else◌, update}
use luma_osjang.Common.Bytes.{Bytes, get32, put32, copy_bytes, fill_bytes}
use luma_osjang.Ext2.Numbers.{ceil_div}
use luma_osjang.Ext2.Disk.{FileSystem, block_size, read_block, write_block, allocate_block}
use luma_osjang.Ext2.Inodes.{Inode}

-- BLOCK_SIZE / sizeof(uint32_t)
abbrev pub ptrs_per_block : ℕ
ptrs_per_block = 128

-- Where the double indirect blocks begin and end.
abbrev pub double_indirect_base : ℕ
double_indirect_base = 12 + ptrs_per_block

abbrev pub max_supported : ℕ
max_supported = double_indirect_base + ptrs_per_block * ptrs_per_block

-- `table[i]` of a block read as an array of 32-bit words
abbrev pub pointer : FileSystem → ℕ → ℕ → ℕ
pointer fs table i = get32 (read_block fs table) (i * 4)

unfoldable pub get_physical_block_from_logical : FileSystem → Inode → ℕ → ℕ
get_physical_block_from_logical fs inode logical_block_idx =
    if ltb logical_block_idx 12
    then inode.i_block logical_block_idx
    else if ltb logical_block_idx double_indirect_base
    then if inode.i_block 12 == 0 then 0 else pointer fs (inode.i_block 12) (logical_block_idx - 12)
    else if ltb logical_block_idx max_supported
    then (let offset = logical_block_idx - double_indirect_base in
        let second = pointer fs (inode.i_block 13) (offset / ptrs_per_block) in
        if inode.i_block 13 == 0
        then 0
        else if second == 0
        then 0
        else pointer fs second (offset % ptrs_per_block))
    else 0

-- `inode->i_block[k] = allocate_block(preferred_bgd)` where it is 0
abbrev pub set_pointer : Inode → ℕ → ℕ → Inode
set_pointer inode k b = record inode { i_block = update inode.i_block k b }

-- An indirect table in `i_block[k]`, allocated and zeroed if there is none.
unfoldable pub need_table : FileSystem → Inode → ℕ → ℕ → Inode × FileSystem
need_table fs inode k preferred_bgd =
    if inode.i_block k == 0
    then (let (b, fs') = allocate_block fs preferred_bgd in
        (set_pointer inode k b, write_block fs' b (λ _. 0)))
    else (inode, fs)

-- The data block behind `table[i]`, allocated if there is none.
unfoldable pub need_block : FileSystem → ℕ → ℕ → ℕ → ℕ × FileSystem
need_block fs table i preferred_bgd =
    if pointer fs table i == 0
    then (let (b, fs') = allocate_block fs preferred_bgd in
        (b, write_block fs' table (put32 (read_block fs table) (i * 4) b)))
    else (pointer fs table i, fs)

-- The second level's table behind `table[i]`, allocated, entered and zeroed if there is none.
unfoldable pub need_second : FileSystem → ℕ → ℕ → ℕ → ℕ × FileSystem
need_second fs table i preferred_bgd =
    if pointer fs table i == 0
    then (let (b, fs') = allocate_block fs preferred_bgd in
        (b, write_block (write_block fs' table (put32 (read_block fs table) (i * 4) b)) b (λ _. 0)))
    else (pointer fs table i, fs)

unfoldable pub allocate_logical_block : FileSystem → Inode → ℕ → ℕ → ℕ × Inode × FileSystem
allocate_logical_block fs inode logical_block_idx preferred_bgd =
    if ltb logical_block_idx 12
    then if inode.i_block logical_block_idx == 0
      then (let (b, fs') = allocate_block fs preferred_bgd in
          (b, set_pointer inode logical_block_idx b, fs'))
      else (inode.i_block logical_block_idx, inode, fs)
    else if ltb logical_block_idx double_indirect_base
    then (let (node, fs1) = need_table fs inode 12 preferred_bgd in
        let (b, fs2) = need_block fs1 (node.i_block 12) (logical_block_idx - 12) preferred_bgd in
        (b, node, fs2))
    else if ltb logical_block_idx max_supported
    then (let (node, fs1) = need_table fs inode 13 preferred_bgd in
        let offset = logical_block_idx - double_indirect_base in
        let (second, fs2) =
          need_second fs1 (node.i_block 13) (offset / ptrs_per_block) preferred_bgd in
        let (b, fs3) = need_block fs2 second (offset % ptrs_per_block) preferred_bgd in
        (b, node, fs3))
    else (0, inode, fs)

-- The bytes of a round: no more than asked for, than a block, and than the file has left.
abbrev pub to_read : ℕ → ℕ → ℕ → ℕ
to_read size i_size bytes_read =
    let asked = if ltb block_size (size - bytes_read) then block_size else size - bytes_read in
    if ltb (i_size - bytes_read) asked then i_size - bytes_read else asked

-- The loop of `read_inode_data_extended`, with `n` rounds left: `out` is the caller's buffer, and a
-- block that is not allocated reads as zeros.
unfoldable pub read_blocks_from : FileSystem → Inode → ℕ → ℕ → ℕ → ℕ → Bytes → Bytes
read_blocks_from fs inode size zero bytes_read logical_block_idx out = out
read_blocks_from fs inode size (suc n) bytes_read logical_block_idx out =
    let physical_block = get_physical_block_from_logical fs inode logical_block_idx in
    let count = to_read size inode.i_size bytes_read in
    let out' =
      (if physical_block == 0
        then fill_bytes out bytes_read 0 count
        else copy_bytes out bytes_read (read_block fs physical_block) 0 count) in
    let rest = read_blocks_from fs inode size n (bytes_read + count) (logical_block_idx + 1) out' in
    if ltb bytes_read size then rest else out

unfoldable pub read_inode_data_extended : FileSystem → Inode → Bytes → ℕ → Bytes
unfolding read_blocks_from
read_inode_data_extended fs inode buf size =
    if size == 0
    then buf
    else read_blocks_from fs inode size (ceil_div inode.i_size block_size) 0 0 buf

abbrev pub read_inode_data : FileSystem → Inode → Bytes → ℕ → Bytes
read_inode_data = read_inode_data_extended

-- The loop of `allocate_node_blocks_extended`, with `n` blocks left. The data pointer is not NULL.
unfoldable pub write_blocks_from : ℕ → Bytes → ℕ → ℕ → Inode → FileSystem → Inode × FileSystem
write_blocks_from preferred_bgd data_ptr zero i node fs = (node, fs)
write_blocks_from preferred_bgd data_ptr (suc n) i node fs =
    let (physical_block, node', fs') = allocate_logical_block fs node i preferred_bgd in
    let left = node.i_size - i * block_size in
    let count = if ltb block_size left then block_size else left in
    let rest =
      write_blocks_from preferred_bgd data_ptr n (i + 1) node'
        (write_block fs' physical_block (copy_bytes (λ _. 0) 0 data_ptr (i * block_size) count)) in
    if physical_block == 0 then (node', fs') else rest

unfoldable pub allocate_node_blocks_extended : Bytes → Inode → ℕ → FileSystem → Inode × FileSystem
allocate_node_blocks_extended data_ptr node preferred_bgd fs =
    let needed = ceil_div node.i_size block_size in
    let blocks_needed = if ltb max_supported needed then max_supported else needed in
    write_blocks_from preferred_bgd data_ptr blocks_needed 0
      (record node { i_blocks = blocks_needed }) fs

-- The loop of `allocate_node_blocks`, which takes direct blocks only.
unfoldable pub write_direct_from : ℕ → Bytes → ℕ → ℕ → Inode → FileSystem → Inode × FileSystem
write_direct_from preferred_bgd data_ptr zero i node fs = (node, fs)
write_direct_from preferred_bgd data_ptr (suc n) i node fs =
    let (b, fs') = allocate_block fs preferred_bgd in
    let left = node.i_size - i * block_size in
    let count = if ltb block_size left then block_size else left in
    write_direct_from preferred_bgd data_ptr n (i + 1) (set_pointer node i b)
      (write_block fs' b (copy_bytes (λ _. 0) 0 data_ptr (i * block_size) count))

unfoldable pub allocate_node_blocks : Bytes → Inode → ℕ → FileSystem → Inode × FileSystem
allocate_node_blocks data_ptr node preferred_bgd fs =
    let needed = ceil_div node.i_size block_size in
    let blocks_to_allocate = if ltb 12 needed then 12 else needed in
    write_direct_from preferred_bgd data_ptr blocks_to_allocate 0
      (record node { i_blocks = blocks_to_allocate }) fs
