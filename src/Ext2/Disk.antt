-- ===== src/Ext2/Disk.antt =====
-- ext2.c: the disk, the two tables that stay in memory, and the bitmaps. A struct in memory is its
-- bytes, at the offsets that its packed layout gives.
use luma_osjang.Common.{
  ℕ, zero, suc, ◌+◌, ◌-◌, ◌*◌, ◌/◌, ◌%◌, ◌^◌, Bool, false, Option, none, some, ltb, ◌==◌,
  if◌then◌else◌, update,
}
use luma_osjang.Common.Bits.{bit, with_bit, without_bit}
use luma_osjang.Common.Bytes.{Bytes, get16, get32, put16, put32}
use luma_osjang.Ext2.Numbers.{inode_to_bgd, inode_to_local, inodes_per_group}

abbrev pub block_size : ℕ
block_size = 512

abbrev pub groups_count : ℕ
groups_count = 1

abbrev pub blocks_per_group : ℕ
blocks_per_group = 1024

-- The disk by block and byte, and the bytes from `superblock` and from `bgd_table` on.
pub record FileSystem : Type 0 where
  pub disk : ℕ → Bytes
  pub superblock : Bytes
  pub bgd_table : Bytes

-- One block through `read_blocks` and `write_blocks`; a write takes 512 bytes of the buffer.
abbrev pub read_block : FileSystem → ℕ → Bytes
read_block fs b = fs.disk b

abbrev pub write_block : FileSystem → ℕ → Bytes → FileSystem
write_block fs b buf = record fs {
  disk = update fs.disk b (λ i. if ltb i block_size then buf i else fs.disk b i);
}

-- Fields of `struct EXT2Superblock`.
abbrev pub s_free_blocks_count : FileSystem → ℕ
s_free_blocks_count fs = get32 fs.superblock 12

abbrev pub s_free_inodes_count : FileSystem → ℕ
s_free_inodes_count fs = get32 fs.superblock 16

abbrev pub s_first_data_block : FileSystem → ℕ
s_first_data_block fs = get32 fs.superblock 20

abbrev pub s_blocks_per_group : FileSystem → ℕ
s_blocks_per_group fs = get32 fs.superblock 32

-- Fields of `bgd_table.table[group]`, a struct of 32 bytes.
abbrev pub bg_block_bitmap : FileSystem → ℕ → ℕ
bg_block_bitmap fs group = get32 fs.bgd_table (group * 32)

abbrev pub bg_inode_bitmap : FileSystem → ℕ → ℕ
bg_inode_bitmap fs group = get32 fs.bgd_table (group * 32 + 4)

abbrev pub bg_inode_table : FileSystem → ℕ → ℕ
bg_inode_table fs group = get32 fs.bgd_table (group * 32 + 8)

-- `x++` and `x--` on an unsigned field of 16 or 32 bits at an offset.
unfoldable pub add16 : Bytes → ℕ → ℕ → Bytes
add16 a i d = put16 a i ((get16 a i + d) % 2 ^ 16)

unfoldable pub add32 : Bytes → ℕ → ℕ → Bytes
add32 a i d = put32 a i ((get32 a i + d) % 2 ^ 32)

-- Bit `j` of a bitmap block: byte `j / 8`, bit `j % 8`.
unfoldable pub bitmap_bit : Bytes → ℕ → Bool
bitmap_bit buf j = bit (buf (j / 8)) (j % 8)

unfoldable pub bitmap_set : Bytes → ℕ → Bytes
bitmap_set buf j = update buf (j / 8) (with_bit (buf (j / 8)) (j % 8))

unfoldable pub bitmap_clear : Bytes → ℕ → Bytes
bitmap_clear buf j = update buf (j / 8) (without_bit (buf (j / 8)) (j % 8))

unfoldable pub is_inode_used : FileSystem → ℕ → Bool
is_inode_used fs inode =
    bitmap_bit (read_block fs (bg_inode_bitmap fs (inode_to_bgd inode))) (inode_to_local inode)

unfoldable pub set_inode_used : FileSystem → ℕ → FileSystem
set_inode_used fs inode =
    let b = bg_inode_bitmap fs (inode_to_bgd inode) in
    write_block fs b (bitmap_set (read_block fs b) (inode_to_local inode))

unfoldable pub clear_inode_used : FileSystem → ℕ → FileSystem
clear_inode_used fs inode =
    let b = bg_inode_bitmap fs (inode_to_bgd inode) in
    write_block fs b (bitmap_clear (read_block fs b) (inode_to_local inode))

-- The loop over a bitmap's bits, with `n` of them left from `j` on.
unfoldable pub find_clear_bit : Bytes → ℕ → ℕ → Option ℕ
find_clear_bit buf zero j = none
find_clear_bit buf (suc n) j =
    let rest = find_clear_bit buf n (j + 1) in if bitmap_bit buf j then rest else some j

-- `return -1` of an int32_t
abbrev pub no_block : ℕ
no_block = 0xffffffff

-- The loop over the groups, with `n` of them left from `i` on.
unfoldable pub allocate_block_from : FileSystem → ℕ → ℕ → ℕ → ℕ × FileSystem
allocate_block_from fs preferred_bgd zero i = (no_block, fs)
allocate_block_from fs preferred_bgd (suc n) i =
    let group = (preferred_bgd + i) % groups_count in
    let b = bg_block_bitmap fs group in
    elim (find_clear_bit (read_block fs b) (block_size * 8) 0) [
      | some j ↦ (group * blocks_per_group + j, write_block fs b (bitmap_set (read_block fs b) j))
      | none ↦ allocate_block_from fs preferred_bgd n (i + 1)
    ]

unfoldable pub allocate_block : FileSystem → ℕ → ℕ × FileSystem
unfolding allocate_block_from
allocate_block fs preferred_bgd = allocate_block_from fs preferred_bgd groups_count 0

unfoldable pub allocate_node_from : FileSystem → ℕ → ℕ → ℕ × FileSystem
allocate_node_from fs zero i = (0, fs)
allocate_node_from fs (suc n) i =
    let b = bg_inode_bitmap fs i in
    elim (find_clear_bit (read_block fs b) inodes_per_group 0) [
      | some j ↦ (i * inodes_per_group + j + 1, write_block fs b (bitmap_set (read_block fs b) j))
      | none ↦ allocate_node_from fs n (i + 1)
    ]

unfoldable pub allocate_node : FileSystem → ℕ × FileSystem
unfolding allocate_node_from
allocate_node fs = allocate_node_from fs groups_count 0

unfoldable pub set_block_free : FileSystem → ℕ → FileSystem
set_block_free fs block =
    let b = bg_block_bitmap fs (block / s_blocks_per_group fs) in
    write_block fs b (bitmap_clear (read_block fs b) (block % s_blocks_per_group fs))

-- `block_num - superblock.s_first_data_block` in 32 bits
abbrev pub from_first : FileSystem → ℕ → ℕ
from_first fs block_num = (block_num + 2 ^ 32 - s_first_data_block fs) % 2 ^ 32

unfoldable pub deallocate_block : FileSystem → ℕ → FileSystem
deallocate_block fs block_num =
    if block_num == 0
    then fs
    else (let group = from_first fs block_num / s_blocks_per_group fs in
        let b = bg_block_bitmap fs group in
        let fs' =
          write_block fs b
            (bitmap_clear (read_block fs b) (from_first fs block_num % s_blocks_per_group fs)) in
        record fs' {
          bgd_table = add16 fs'.bgd_table (group * 32 + 12) 1;
          superblock = add32 fs'.superblock 12 1;
        })

unfoldable pub is_block_allocated : FileSystem → ℕ → Bool
is_block_allocated fs block_num =
    if block_num == 0
    then false
    else bitmap_bit
        (read_block fs (bg_block_bitmap fs (from_first fs block_num / s_blocks_per_group fs)))
        (from_first fs block_num % s_blocks_per_group fs)

-- `write_blocks(&superblock, 1, 1); write_blocks(&bgd_table, 2, 1);`: 512 bytes from each on.
unfoldable pub sync_superblock : FileSystem → FileSystem
sync_superblock fs = write_block (write_block fs 1 fs.superblock) 2 fs.bgd_table
