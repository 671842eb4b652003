-- ===== src/FileCalls/Copy.antt =====
-- interrupt.c: copying a file within a directory. `stack` and `stale` are what the uninitialised
-- inode table and inodes hold.
use luma_osjang.Common.{
  ℕ, zero, suc, ◌+◌, ◌-◌, ◌/◌, ◌%◌, ◌^◌, Bool, true, false, not, ◌||◌, Option, none, some, ltb, leb,
  ◌==◌, if◌then◌else◌,
}
use luma_osjang.Common.Bytes.{Bytes}
use luma_osjang.Ext2.Numbers.{inode_to_bgd}
use luma_osjang.Ext2.Disk.{
  FileSystem, block_size, read_block, write_block, allocate_node, allocate_block, clear_inode_used,
  set_block_free, sync_superblock,
}
use luma_osjang.Ext2.Inodes.{Inode, is_directory, read_inode, sync_node}
use luma_osjang.Ext2.Blocks.{set_pointer}
use luma_osjang.Ext2.Release.{free_direct}
use luma_osjang.Ext2.Directory.{entry_inode, entry_file_type, ext2_ft_dir, ext2_ft_reg_file}
use luma_osjang.Ext2.Files.{Ext2DriverRequest}
use luma_osjang.FileCalls.{minus, find_name, append_entry}

-- The round of the loop over the blocks: `false` where no block is free.
unfoldable pub copy_block : Inode → ℕ → ℕ → Inode × FileSystem → Bool × (Inode × FileSystem)
copy_block source bgd i (dest, fs) =
    let (b, fs1) = allocate_block fs bgd in
    if source.i_block i == 0
    then (true, (dest, fs))
    else if leb (2 ^ 31) b
    then (false, (dest, fs1))
    else (true, (set_pointer dest i b, write_block fs1 b (read_block fs1 (source.i_block i))))

-- The loop over the blocks from `i` on, with `n` rounds left: the index where no block was free, if
-- any.
unfoldable pub copy_blocks :
    Inode → ℕ → ℕ → ℕ → Inode × FileSystem → Option ℕ × (Inode × FileSystem)
unfolding copy_block
copy_blocks source bgd zero i m = (none, m)
copy_blocks source bgd (suc n) i m =
    let (ok, m1) = copy_block source bgd i m in
    let rest = copy_blocks source bgd n (i + 1) m1 in if ok then rest else (some i, m1)

-- What the cleanup leaves: the inode and the first `n` blocks of the new file are free again.
unfoldable pub give_up : ℕ → ℕ → Inode × FileSystem → FileSystem
give_up new_inode n (dest, fs) =
    (free_direct set_block_free n 0 dest (clear_inode_used fs new_inode)).1

abbrev pub blocks_to_copy : Inode → ℕ
blocks_to_copy source =
    let n = (source.i_size + block_size - 1) % 2 ^ 32 / block_size in
    if ltb source.i_blocks n then source.i_blocks else n

abbrev pub direct_blocks : ℕ → ℕ
direct_blocks n = if ltb n 12 then n else 12

module _ (stack : Bytes) (stale : Inode) where
  -- The copy once an inode is taken.
  unfoldable pub copy_to :
      FileSystem → Inode → Inode → Ext2DriverRequest → Ext2DriverRequest → ℕ → ℕ × FileSystem
  unfolding copy_blocks give_up
  copy_to fs parent source src dst new_inode =
      let blocks = direct_blocks (blocks_to_copy source) in
      let (failed, m) =
        copy_blocks source (inode_to_bgd new_inode) blocks 0
          (record source { i_block = λ _. 0 }, fs) in
      elim failed [
        | some i ↦ (minus 5, give_up new_inode i m)
        | none ↦
            elim (append_entry (sync_node stack m.1 m.0 new_inode) parent new_inode dst.name
              dst.name_len ext2_ft_reg_file) [
                | none ↦
                    (minus 8, give_up new_inode blocks (m.0, sync_node stack m.1 m.0 new_inode))
                | some fs1 ↦ (0, sync_superblock (sync_node stack fs1 parent src.parent_inode))
              ]
      ]

  -- The copy once the source's entry is found.
  unfoldable pub copy_found :
      FileSystem → Inode → Ext2DriverRequest → Ext2DriverRequest → ℕ → ℕ × FileSystem
  unfolding copy_to
  copy_found fs parent src dst source_inode_idx = elim (find_name fs parent dst.name dst.name_len) [
    | some _ ↦ (minus 2, fs)
    | none ↦
        let source = read_inode fs source_inode_idx stale in
        if is_directory source
        then (minus 3, fs)
        else (let (new_inode, fs1) = allocate_node fs in
            if new_inode == 0 then (minus 4, fs1) else copy_to fs1 parent source src dst new_inode)
  ]

  -- `none` stands for a NULL pointer.
  unfoldable pub copy_file :
      FileSystem → Option Ext2DriverRequest → Option Ext2DriverRequest → ℕ × FileSystem
  unfolding copy_found
  copy_file fs none dst_request = (minus 1, fs)
  copy_file fs (some src) none = (minus 1, fs)
  copy_file fs (some src) (some dst) =
      let parent = read_inode fs src.parent_inode stale in
      if (src.name_len == 0) || (dst.name_len == 0)
      then (minus 1, fs)
      else if not (is_directory parent)
      then (minus 1, fs)
      else elim (find_name fs parent src.name src.name_len) [
        | none ↦ (minus 1, fs)
        | some (block_idx, offset) ↦
            let buf = read_block fs (parent.i_block block_idx) in
            if entry_file_type buf offset == ext2_ft_dir
            then (minus 3, fs)
            else copy_found fs parent src dst (entry_inode buf offset)
      ]
