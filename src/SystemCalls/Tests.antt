-- ===== src/SystemCalls/Tests.antt =====
-- A witness for the listing of a directory.
use luma_osjang.Common.{[], arith}
use luma_osjang.Ext2.Disk.{FileSystem}
use luma_osjang.Ext2.Inodes.{zero_inode}
use luma_osjang.Console.{Screen}
use luma_osjang.SystemCalls.{sys_list_dir}
use luma_osjang.SystemCalls.Rows.{IsListed, sys_list_dir-IsListed}

abbrev zeros : FileSystem
zeros = record { disk = λ n i. 0; superblock = λ _. 0; bgd_table = λ _. 0 }

abbrev blank : Screen
blank = record { cells = λ _. 0; ports = [] }

sys_list_dir-IsListed_example : IsListed blank 21 (sys_list_dir zero_inode zeros 21 2 blank)
sys_list_dir-IsListed_example = sys_list_dir-IsListed zero_inode zeros 21 2 blank (omega arith)
