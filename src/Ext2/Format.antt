-- ===== src/Ext2/Format.antt =====
-- ext2.c: formatting a disk and mounting it.
use luma_osjang.Common.{ℕ, ◌≡◌, ◌<◌, refl, ◌∙◌, ap, false, ltb, if◌then◌else◌, arith}
use luma_osjang.Common.Bytes.{Bytes, get16, get16-ext, put16, put32}
use luma_osjang.Ext2.Disk.{
  FileSystem, allocate_block, allocate_block_from, sync_superblock, set_inode_used,
}
use luma_osjang.Ext2.Inodes.{write_table}
use luma_osjang.Ext2.Files.{
  is_empty_storage, create_ext2, initialize_filesystem_ext2, new_superblock,
}

-- The superblock and the descriptors stay the same in memory.
allocate_block-memory :
    (fs : FileSystem) (pref : ℕ)
    → ((allocate_block fs pref).1.superblock ≡ fs.superblock)
      × ((allocate_block fs pref).1.bgd_table ≡ fs.bgd_table)
unfolding allocate_block allocate_block_from
allocate_block-memory fs pref = ground arith

set_inode_used-memory :
    (fs : FileSystem) (inode : ℕ) → (set_inode_used fs inode).superblock ≡ fs.superblock
unfolding set_inode_used
set_inode_used-memory fs inode = ground arith

write_table-memory :
    (fs : FileSystem) (b : ℕ) (t : Bytes) → (write_table fs b t).superblock ≡ fs.superblock
unfolding write_table
write_table-memory fs b t = ground arith

sync_superblock-block :
    (fs : FileSystem) (i : ℕ)
    → i < 512
    → (sync_superblock fs).disk 1 i ≡ (sync_superblock fs).superblock i
unfolding sync_superblock
sync_superblock-block fs i h = ground arith

new_magic : get16 new_superblock 56 ≡ 0xef53
unfolding new_superblock get16 put16 put32
new_magic = refl

create_ext2-memory :
    (old : FileSystem)
    → (create_ext2 old).superblock ≡ (λ i. if ltb i 90 then new_superblock i else old.superblock i)
unfolding create_ext2 sync_superblock
create_ext2-memory old =
    set_inode_used-memory _ 2 ∙ write_table-memory _ 5 _ ∙ (allocate_block-memory _ 0).0

create_ext2-block :
    (old : FileSystem) (i : ℕ)
    → i < 512
    → (create_ext2 old).disk 1 i ≡ (create_ext2 old).superblock i
unfolding create_ext2
create_ext2-block old i h = sync_superblock-block _ i h

create_ext2-magic : (old : FileSystem) → get16 ((create_ext2 old).disk 1) 56 ≡ 0xef53
create_ext2-magic old =
    let m = create_ext2-memory old in
    get16-ext ((create_ext2 old).disk 1) new_superblock 56 56
      (create_ext2-block old 56 (omega arith) ∙ ap (λ f. f 56) m)
      (create_ext2-block old 57 (omega arith) ∙ ap (λ f. f 57) m)
    ∙ new_magic

-- A formatted disk is recognised: mounting it again does not format it, changes nothing on the disk,
-- and reads the superblock that formatting left in memory.
pub initialize-create_ext2 :
    (old : FileSystem)
    → let fs = create_ext2 old in
      let fs' = initialize_filesystem_ext2 fs in
      (is_empty_storage fs ≡ false)
      × (fs'.disk ≡ fs.disk)
      × ((i : ℕ) → fs'.superblock i ≡ fs.superblock i)
unfolding is_empty_storage initialize_filesystem_ext2
initialize-create_ext2 old =
    let m = create_ext2-magic old in
    (ground (arith, m), ground (arith, m), λ i. ground (arith, m, create_ext2-block old i))
