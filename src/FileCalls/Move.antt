-- ===== src/FileCalls/Move.antt =====
-- interrupt.c: renaming a file. `stale` is what an uninitialised inode holds.
use luma_osjang.Common.{ℕ, not, ◌&&◌, ◌||◌, Option, none, some, ◌==◌, if◌then◌else◌}
use luma_osjang.Ext2.Disk.{FileSystem}
use luma_osjang.Ext2.Inodes.{Inode, is_directory, read_inode}
use luma_osjang.Ext2.Directory.{
  find_inode_in_dir, is_empty_directory, remove_inode_from_dir, add_inode_to_dir,
}
use luma_osjang.Ext2.Files.{Ext2DriverRequest, name_copy}
use luma_osjang.FileCalls.{minus}

module _ (stale : Inode) where
  -- The renaming once the source's inode number is known; `none` is a walk without end.
  unfoldable pub move_found :
      FileSystem → Inode → Ext2DriverRequest → Ext2DriverRequest → ℕ → Option (ℕ × FileSystem)
  move_found fs parent src dst src_inode_num = elim (find_inode_in_dir fs parent (name_copy dst)) [
    | none ↦ none
    | some (some _) ↦ some (minus 3, fs)
    | some none ↦
        let src_inode = read_inode fs src_inode_num stale in
        if is_directory src_inode && not (is_empty_directory fs src_inode)
        then some (minus 5, fs)
        else elim (remove_inode_from_dir fs parent (name_copy src)) [
          | none ↦ none
          | some fs1 ↦ some (0, add_inode_to_dir fs1 parent src_inode_num (name_copy dst))
        ]
  ]

  -- `none` stands for a NULL pointer.
  unfoldable pub move_file :
      FileSystem → Option Ext2DriverRequest → Option Ext2DriverRequest → Option (ℕ × FileSystem)
  unfolding move_found
  move_file fs none dst_request = some (minus 1, fs)
  move_file fs (some src) none = some (minus 1, fs)
  move_file fs (some src) (some dst) =
      let parent = read_inode fs src.parent_inode stale in
      if (src.name_len == 0) || (dst.name_len == 0)
      then some (minus 1, fs)
      else if not (is_directory parent)
      then some (minus 1, fs)
      else elim (find_inode_in_dir fs parent (name_copy src)) [
        | none ↦ none
        | some none ↦ some (minus 2, fs)
        | some (some src_inode_num) ↦ move_found fs parent src dst src_inode_num
      ]
