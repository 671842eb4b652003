-- ===== src/Ext2/Tests.antt =====
-- ext2.c on a disk of zeros with the tables that `create_ext2` stores.
use luma_osjang.Common.{
  ℕ, ◌+◌, ◌-◌, ◌/◌, ◌≤◌, ◌<◌, ◌≡◌, refl, ◌≢◌, ◌⊎◌, inl, inr, true, false, none, some, [], ◌∷◌, ◌==◌,
  if◌then◌else◌, arith,
}
use luma_osjang.Common.Bits.{bit}
use luma_osjang.Common.Bytes.{get32, put16, put32}
use luma_osjang.Ext2.Disk.{
  FileSystem, bg_block_bitmap, s_blocks_per_group, bitmap_bit, allocate_block, no_block,
}
use luma_osjang.Ext2.Inodes.{Inode, zero_inode, read_inode, sync_node}
use luma_osjang.Ext2.Directory.{
  entry_inode, entry_rec_len, init_directory_table, add_inode_to_dir, padded_size,
}
use luma_osjang.Ext2.Files.{
  new_superblock, new_bgd_table, Ext2DriverRequest, write, delete, create_ext2,
  initialize_filesystem_ext2, is_empty_storage,
}
use luma_osjang.Ext2.Blocks.{get_physical_block_from_logical}
use luma_osjang.Ext2.Calls.{write_outcomes, delete_outcomes}
use luma_osjang.Ext2.Format.{initialize-create_ext2}
use luma_osjang.Ext2.Bitmap.{AreBytes}
use luma_osjang.Ext2.Allocation.{block_bit, IsTaken, allocate_block_lem}
use luma_osjang.Ext2.Table.{Fits, SameInode, read-sync_node, read-sync_node_ne}
use luma_osjang.Ext2.Entries.{Chain, fresh-Chain, add_overwrites}

abbrev blank : FileSystem
blank = record { disk = λ _ _. 0; superblock = new_superblock; bgd_table = new_bgd_table }

zeros-AreBytes : AreBytes (λ _. 0)
zeros-AreBytes i = omega arith

group_size : s_blocks_per_group blank ≡ 1024
unfolding new_superblock get32 put32 put16
group_size = refl

second_descriptor : bg_block_bitmap blank (2000 / 1024) ≢ bg_block_bitmap blank 0
unfolding new_bgd_table get32 put32 put16
second_descriptor e = omega (arith, e)

first_block_free : block_bit blank 0 ≡ false
unfolding bitmap_bit bit
first_block_free = refl

first_block_small : (allocate_block blank 0).0 < 1024
first_block_small = elim (allocate_block_lem blank 0 zeros-AreBytes) [
  | inl h ↦ ground (arith, h.0 0 (omega arith), first_block_free)
  | inr h ↦ ground (arith, h.2, h.3.lowest 0, first_block_free)
]

-- A directory in block 20.
abbrev node : Inode
node = record zero_inode { i_mode = 0x4000; i_block = λ k. if k == 0 then 20 else 0 }

node-Fits : Fits node
node-Fits = record {
  mode = omega arith;
  size = omega arith;
  blocks = omega arith;
  pointers = λ k h. ground arith;
}

allocate_block_lem_example :
    let r = allocate_block blank 0 in
    (((k : ℕ) → k < 4096 → block_bit blank k ≡ true) × (r ≡ (no_block, blank)))
    ⊎ ((j : ℕ) × (j < 4096) × (r.0 ≡ j) × IsTaken blank (bg_block_bitmap blank 0) j r.1)
allocate_block_lem_example = allocate_block_lem blank 0 zeros-AreBytes

read-sync_node_example : SameInode (read_inode (sync_node (λ _. 0) blank node 7) 7 zero_inode) node
read-sync_node_example =
    read-sync_node (λ _. 0) blank node 7 zero_inode node-Fits (omega arith) (omega arith)

read-sync_node_ne_example :
    SameInode
      (read_inode (sync_node (λ _. 0) blank node 7) 2 zero_inode)
      (read_inode blank 2 zero_inode)
read-sync_node_ne_example =
    read-sync_node_ne (λ _. 0) blank node 7 2 zero_inode (omega arith) (omega arith) (omega arith)
      (omega arith) (λ e. omega (arith, e))

-- The disk with the new directory.
abbrev with_directory : FileSystem
with_directory = init_directory_table blank node 7 2

name_fits : 12 + padded_size 3 ≤ 512
unfolding padded_size
name_fits = omega arith

add_overwrites_example :
    let fs' = add_inode_to_dir with_directory node 9 (b'l' ∷ b's' ∷ b'!' ∷ []) in
    (entry_inode (fs'.disk (node.i_block 0)) 12 ≡ 9)
    × (entry_rec_len (fs'.disk (node.i_block 0)) 12 ≡ 512 - 12)
    × ((j : ℕ) → j < 12 → fs'.disk (node.i_block 0) j ≡ with_directory.disk (node.i_block 0) j)
    × ((b : ℕ) → b ≢ node.i_block 0 → fs'.disk b ≡ with_directory.disk b)
    × Chain (fs'.disk (node.i_block 0)) 12 0
add_overwrites_example =
    add_overwrites with_directory node 9 12 (b'l' ∷ b's' ∷ b'!' ∷ [])
      (fresh-Chain blank node 7 2 (omega arith) (omega arith)) (omega arith) (omega arith) name_fits
      (omega arith)

mapped_first : get_physical_block_from_logical blank node 0 ≢ 0
unfolding get_physical_block_from_logical
mapped_first e = omega (arith, e)

-- A request without a name, in a disk without a root directory.
abbrev nameless : Ext2DriverRequest
nameless = record {
  buf = none;
  name = λ _. 0;
  name_len = 0;
  parent_inode = 2;
  buffer_size = 0;
  is_dir = false;
}

write_outcomes_example :
    let r = write (λ _. 0) zero_inode blank nameless in
    (r ≡ none)
    ⊎ ((fs' : FileSystem) × (r ≡ some (0, fs')))
    ⊎ ((code : ℕ) × ((code ≡ 1) ⊎ (code ≡ 2) ⊎ (code ≡ 255)) × (r ≡ some (code, blank)))
write_outcomes_example = write_outcomes (λ _. 0) zero_inode blank nameless

delete_outcomes_example :
    let r = delete (λ _. 0) zero_inode blank nameless in
    (r ≡ none)
    ⊎ ((fs' : FileSystem) × (r ≡ some (0, fs')))
    ⊎ ((code : ℕ) × ((code ≡ 1) ⊎ (code ≡ 2) ⊎ (code ≡ 3)) × (r ≡ some (code, blank)))
delete_outcomes_example = delete_outcomes (λ _. 0) zero_inode blank nameless

initialize-create_ext2_example :
    let fs = create_ext2 blank in
    let fs' = initialize_filesystem_ext2 fs in
    (is_empty_storage fs ≡ false)
    × (fs'.disk ≡ fs.disk)
    × ((i : ℕ) → fs'.superblock i ≡ fs.superblock i)
initialize-create_ext2_example = initialize-create_ext2 blank
