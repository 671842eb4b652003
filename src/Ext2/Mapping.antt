-- ===== src/Ext2/Mapping.antt =====
-- ext2.c: `allocate_logical_block` against `get_physical_block_from_logical`.
use luma_osjang.Common.{ℕ, ◌-◌, ◌/◌, ◌%◌, ◌<◌, ◌≡◌, ◌≢◌, ltb, arith, Bool-cases, inl, inr}
use luma_osjang.Ext2.Disk.{FileSystem}
use luma_osjang.Ext2.Inodes.{Inode}
use luma_osjang.Ext2.Blocks.{
  get_physical_block_from_logical, pointer, need_table, need_block, need_second,
  allocate_logical_block,
}

need_table_present :
    (fs : FileSystem) (inode : Inode) (k pref : ℕ)
    → inode.i_block k ≢ 0
    → need_table fs inode k pref ≡ (inode, fs)
unfolding need_table
need_table_present fs inode k pref ne = ground arith

need_block_present :
    (fs : FileSystem) (table i pref : ℕ)
    → pointer fs table i ≢ 0
    → need_block fs table i pref ≡ (pointer fs table i, fs)
unfolding need_block
need_block_present fs table i pref ne = ground arith

need_second_present :
    (fs : FileSystem) (table i pref : ℕ)
    → pointer fs table i ≢ 0
    → need_second fs table i pref ≡ (pointer fs table i, fs)
unfolding need_second
need_second_present fs table i pref ne = ground arith

-- A logical block that has a physical block, direct or through one or two tables, is not allocated
-- again: `allocate_logical_block` answers with it and changes neither the inode nor the disk.
pub allocate_logical_block_present :
    (fs : FileSystem) (inode : Inode) (idx pref : ℕ)
    → get_physical_block_from_logical fs inode idx ≢ 0
    → allocate_logical_block fs inode idx pref
      ≡ (get_physical_block_from_logical fs inode idx, inode, fs)
unfolding get_physical_block_from_logical allocate_logical_block
allocate_logical_block_present fs inode idx pref ne = elim (Bool-cases (ltb idx 12)) [
  | inl a ↦ ground arith
  | inr a ↦ elim (Bool-cases (ltb idx 140)) [
    | inl b ↦ ground (
      arith,
      need_table_present fs inode 12 pref,
      need_block_present fs (inode.i_block 12) (idx - 12) pref,
    )
    | inr b ↦
        let second = pointer fs (inode.i_block 13) ((idx - 140) / 128) in
        ground (
          arith,
          need_table_present fs inode 13 pref,
          need_second_present fs (inode.i_block 13) ((idx - 140) / 128) pref,
          need_block_present fs second ((idx - 140) % 128) pref,
        )
  ]
]

-- A direct block: afterwards the inode maps the index to the block that is answered, which is the
-- old one or one from `allocate_block`, and every other direct index as before.
pub allocate_logical_block_direct :
    (fs : FileSystem) (inode : Inode) (idx pref : ℕ)
    → idx < 12
    → let (b, node, fs') = allocate_logical_block fs inode idx pref in
      (get_physical_block_from_logical fs' node idx ≡ b)
      × ((k : ℕ)
          → k < 12
          → k ≢ idx
          → get_physical_block_from_logical fs' node k ≡ get_physical_block_from_logical fs inode k)
unfolding get_physical_block_from_logical allocate_logical_block
allocate_logical_block_direct fs inode idx pref h = (ground arith, λ k hk ne. ground arith)
