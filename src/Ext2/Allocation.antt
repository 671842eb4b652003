-- ===== src/Ext2/Allocation.antt =====
-- ext2.c: taking blocks and inodes from the bitmaps, and giving blocks back.
use luma_osjang.Common.{
  ℕ, ◌+◌, ◌/◌, ◌%◌, ◌≤◌, ◌<◌, ◌≡◌, refl, ◌≢◌, Bool, true, false, none, some, ltb, ◌==◌,
  if◌then◌else◌, arith, Bool-cases, inl, inr, ◌⊎◌, Option-cases,
}
use luma_osjang.Common.Bytes.{Bytes}
use luma_osjang.Ext2.Disk.{
  FileSystem, bitmap_bit, bitmap_set, bitmap_clear, find_clear_bit, write_block, allocate_block,
  allocate_node, allocate_node_from, no_block, bg_block_bitmap, bg_inode_bitmap, s_blocks_per_group,
  set_block_free,
}
use luma_osjang.Ext2.Bitmap.{
  AreBytes, bitmap_bit-set, bitmap_bit-clear, bitmap_clear-set, find_clear_bit_found,
  find_clear_bit_first, find_clear_bit-none,
}

-- Whether a bit of the first group's block bitmap, or inode bitmap, is set.
abbrev pub block_bit : FileSystem → ℕ → Bool
block_bit fs j = bitmap_bit (fs.disk (bg_block_bitmap fs 0)) j

abbrev pub inode_bit : FileSystem → ℕ → Bool
inode_bit fs j = bitmap_bit (fs.disk (bg_inode_bitmap fs 0)) j

-- Bit `j` of the bitmap in block `b` has been set, and nothing else has changed.
pub record IsTaken (fs : FileSystem) (b j : ℕ) (fs' : FileSystem) : Type 0 where
  pub was_free : bitmap_bit (fs.disk b) j ≡ false
  pub lowest : (k : ℕ) → k < j → bitmap_bit (fs.disk b) k ≡ true
  pub bits :
      (k : ℕ)
      → k < 4096
      → bitmap_bit (fs'.disk b) k ≡ (if j == k then true else bitmap_bit (fs.disk b) k)
  pub other_blocks : (n : ℕ) → n ≢ b → fs'.disk n ≡ fs.disk n
  pub same_superblock : fs'.superblock ≡ fs.superblock
  pub same_table : fs'.bgd_table ≡ fs.bgd_table

bit-write :
    (fs : FileSystem) (b : ℕ) (buf : Bytes) (k : ℕ)
    → k < 4096
    → bitmap_bit ((write_block fs b buf).disk b) k ≡ bitmap_bit buf k
unfolding bitmap_bit
bit-write fs b buf k h = ground arith

IsTaken-of_set :
    (fs : FileSystem) (b j n : ℕ)
    → AreBytes (fs.disk b)
    → find_clear_bit (fs.disk b) n 0 ≡ some j
    → IsTaken fs b j (write_block fs b (bitmap_set (fs.disk b) j))
IsTaken-of_set fs b j n h e = record {
  was_free = (find_clear_bit_found (fs.disk b) n 0 e).2;
  lowest = λ k lt. find_clear_bit_first (fs.disk b) n 0 j k e (omega arith) lt;
  bits = λ k lt.
      ground
        (arith, bit-write fs b (bitmap_set (fs.disk b) j) k lt, bitmap_bit-set (fs.disk b) j k h);
  other_blocks = λ k ne. ground arith;
  same_superblock = refl;
  same_table = refl;
}

pub allocate_some :
    (fs : FileSystem) (p j : ℕ)
    → find_clear_bit (fs.disk (bg_block_bitmap fs 0)) 4096 0 ≡ some j
    → allocate_block fs p
      ≡ (j, write_block fs (bg_block_bitmap fs 0) (bitmap_set (fs.disk (bg_block_bitmap fs 0)) j))
unfolding allocate_block
allocate_some fs p j e = let g : (p + 0) % 1 ≡ 0 = omega arith in ground (arith, g)

pub allocate_none :
    (fs : FileSystem) (p : ℕ)
    → find_clear_bit (fs.disk (bg_block_bitmap fs 0)) 4096 0 ≡ none
    → allocate_block fs p ≡ (no_block, fs)
unfolding allocate_block
allocate_none fs p e = let g : (p + 0) % 1 ≡ 0 = omega arith in ground (arith, g)

-- Over a bitmap of bytes, `allocate_block` takes the lowest block whose bit is clear among the
-- 4096, sets that bit and nothing else on the disk, and returns its number; with all of them set
-- it returns -1 and changes nothing.
pub allocate_block_lem :
    (fs : FileSystem) (preferred_bgd : ℕ)
    → AreBytes (fs.disk (bg_block_bitmap fs 0))
    → let r = allocate_block fs preferred_bgd in
      (((k : ℕ) → k < 4096 → block_bit fs k ≡ true) × (r ≡ (no_block, fs)))
      ⊎ ((j : ℕ) × (j < 4096) × (r.0 ≡ j) × IsTaken fs (bg_block_bitmap fs 0) j r.1)
allocate_block_lem fs p h =
    elim (Option-cases (find_clear_bit (fs.disk (bg_block_bitmap fs 0)) 4096 0)) [
      | inl e ↦ inl (
        λ k lt.
            find_clear_bit-none (fs.disk (bg_block_bitmap fs 0)) 4096 0 k e (omega arith)
              (omega arith),
        allocate_none fs p e,
      )
      | inr (j, e) ↦ rw (allocate_some fs p j e) (
          inr (
            j,
            (find_clear_bit_found (fs.disk (bg_block_bitmap fs 0)) 4096 0 e).1,
            refl,
            IsTaken-of_set fs (bg_block_bitmap fs 0) j 4096 h e,
          ))
    ]

pub allocate_node-some :
    (fs : FileSystem) (j : ℕ)
    → find_clear_bit (fs.disk (bg_inode_bitmap fs 0)) 32 0 ≡ some j
    → allocate_node fs ≡ (
      j + 1,
      write_block fs (bg_inode_bitmap fs 0) (bitmap_set (fs.disk (bg_inode_bitmap fs 0)) j),
    )
unfolding allocate_node
allocate_node-some fs j e = ground arith

-- Over a bitmap of bytes, `allocate_node` takes the lowest inode whose bit is clear among the 32,
-- sets that bit and nothing else on the disk, and returns its number, from 1 on; with all of them
-- set it returns 0 and changes nothing.
pub allocate_node_lem :
    (fs : FileSystem)
    → AreBytes (fs.disk (bg_inode_bitmap fs 0))
    → let r = allocate_node fs in
      (((k : ℕ) → k < 32 → inode_bit fs k ≡ true) × (r ≡ (0, fs)))
      ⊎ ((j : ℕ) × (j < 32) × (r.0 ≡ j + 1) × IsTaken fs (bg_inode_bitmap fs 0) j r.1)
unfolding allocate_node
allocate_node_lem fs h =
    elim (Option-cases (find_clear_bit (fs.disk (bg_inode_bitmap fs 0)) 32 0)) [
      | inl e ↦ inl (
        λ k lt.
            find_clear_bit-none (fs.disk (bg_inode_bitmap fs 0)) 32 0 k e (omega arith)
              (omega arith),
        rw (e, allocate_node_from),
      )
      | inr (j, e) ↦ rw (allocate_node-some fs j e) (
          inr (
            j,
            (find_clear_bit_found (fs.disk (bg_inode_bitmap fs 0)) 32 0 e).1,
            refl,
            IsTaken-of_set fs (bg_inode_bitmap fs 0) j 32 h e,
          ))
    ]

-- With 1024 blocks to a group and a bitmap of bytes, freeing a block below 1024 clears its bit
-- alone and changes no other block of the disk.
pub set_block_free_lem :
    (fs : FileSystem) (block : ℕ)
    → s_blocks_per_group fs ≡ 1024
    → AreBytes (fs.disk (bg_block_bitmap fs 0))
    → block < 1024
    → let fs' = set_block_free fs block in
      ((k : ℕ) → k < 4096 → block_bit fs' k ≡ (if block == k then false else block_bit fs k))
      × ((n : ℕ) → n ≢ bg_block_bitmap fs 0 → fs'.disk n ≡ fs.disk n)
unfolding set_block_free
set_block_free_lem fs block spg h lt =
    let d : block / 1024 ≡ 0 = omega arith in
    let m : block % 1024 ≡ block = omega arith in
    let b = bg_block_bitmap fs 0 in
    rw (spg, d, m)
      (
        λ k hk. ground (
          arith,
          bit-write fs b (bitmap_clear (fs.disk b) block) k hk,
          bitmap_bit-clear (fs.disk b) block k h,
        ),
        λ n ne. ground arith,
      )

-- Clearing the bit in the written block.
clear-written :
    (fs : FileSystem) (b j i : ℕ)
    → AreBytes (fs.disk b)
    → bitmap_bit (fs.disk b) j ≡ false
    → j < 4096
    → i < 512
    → bitmap_clear ((write_block fs b (bitmap_set (fs.disk b) j)).disk b) j i ≡ fs.disk b i
unfolding bitmap_clear
clear-written fs b j i h e lt hi = ground (arith, bitmap_clear-set (fs.disk b) j i h e)

free-taken :
    (fs : FileSystem) (j n i : ℕ)
    → s_blocks_per_group fs ≡ 1024
    → AreBytes (fs.disk (bg_block_bitmap fs 0))
    → block_bit fs j ≡ false
    → j < 1024
    → (set_block_free
          (write_block fs (bg_block_bitmap fs 0) (bitmap_set (fs.disk (bg_block_bitmap fs 0)) j))
          j).disk
        n i
      ≡ fs.disk n i
unfolding set_block_free
free-taken fs j n i spg h e lt =
    let d : j / 1024 ≡ 0 = omega arith in
    let m : j % 1024 ≡ j = omega arith in
    let b = bg_block_bitmap fs 0 in
    rw (spg, d, m)
      (elim (Bool-cases (ltb i 512)) [
        | inl lt' ↦ ground (arith, clear-written fs b j i h e (omega arith) (ground arith))
        | inr ge ↦ ground arith
      ])

-- With 1024 blocks to a group and a bitmap of bytes, allocating a block below 1024 and freeing it
-- gives the whole disk back.
pub free-allocate_block :
    (fs : FileSystem) (preferred_bgd : ℕ)
    → s_blocks_per_group fs ≡ 1024
    → AreBytes (fs.disk (bg_block_bitmap fs 0))
    → (allocate_block fs preferred_bgd).0 < 1024
    → (n i : ℕ)
    → let (block, fs') = allocate_block fs preferred_bgd in
      (set_block_free fs' block).disk n i ≡ fs.disk n i
free-allocate_block fs p spg h =
    elim (Option-cases (find_clear_bit (fs.disk (bg_block_bitmap fs 0)) 4096 0)) [
      | inl e ↦ rw (allocate_none fs p e) (λ lt. absurd (omega arith))
      | inr (j, e) ↦ rw (allocate_some fs p j e) (λ lt n i.
          free-taken fs j n i spg h
            (find_clear_bit_found (fs.disk (bg_block_bitmap fs 0)) 4096 0 e).2 lt)
    ]

-- With 1024 blocks to a group, a block number from 1024 on belongs to no group that exists: as
-- long as the word read for its bitmap does not name the one bitmap there is, freeing such a block
-- leaves its bit as it was.
pub set_block_free_leak :
    (fs : FileSystem) (block : ℕ)
    → s_blocks_per_group fs ≡ 1024
    → 1024 ≤ block
    → bg_block_bitmap fs (block / 1024) ≢ bg_block_bitmap fs 0
    → block_bit (set_block_free fs block) block ≡ block_bit fs block
unfolding set_block_free
set_block_free_leak fs block spg h ne = rw spg (ground arith)
