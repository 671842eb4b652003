-- ===== src/FileCalls/Tests.antt =====
-- Runs and witnesses for the file operations of interrupt.c.
use luma_osjang.Common.{
  ℕ, ◌+◌, ◌≤◌, ◌<◌, ◌≡◌, refl, ◌≢◌, ◌⊎◌, true, false, Option, none, some, ◌==◌, if◌then◌else◌,
  arith, update,
}
use luma_osjang.Common.Bytes.{Bytes, get16, get32, put16, put32, copy_bytes}
use luma_osjang.Common.Bits.{bit}
use luma_osjang.Ext2.Directory.{
  entry_inode, entry_rec_len, entry_name_len, entry_file_type, directory_block,
  get_entry_record_len,
}
use luma_osjang.Ext2.Disk.{FileSystem, bitmap_bit}
use luma_osjang.Ext2.Inodes.{Inode, zero_inode}
use luma_osjang.Ext2.Files.{Ext2DriverRequest, new_superblock, new_bgd_table}
use luma_osjang.FileCalls.{find_in_block, split_entry, append_in_block, ends_walk, has_name}
use luma_osjang.FileCalls.Listing.{IsEntry, Listing, stop, next}
use luma_osjang.FileCalls.Append.{append_lookup, or_else, same_name}
use luma_osjang.FileCalls.Remove.{Kept}
use luma_osjang.FileCalls.Removed.{remove_lookup}
use luma_osjang.FileCalls.Copy.{copy_blocks}
use luma_osjang.FileCalls.Contents.{IsInUse, IsCopied, IsFull, copy_blocks_lem}
use luma_osjang.FileCalls.Refusals.{
  HasOutcome, IsDeleteFileCode, IsDeleteCode, IsMoveCode, removals_outcomes,
}
use luma_osjang.FileCalls.Create.{create_block}
use luma_osjang.FileCalls.Delete.{remove_at, only_dots, delete_file, delete_directory}
use luma_osjang.FileCalls.Move.{move_file}
use luma_osjang.FileCalls.Empty.{new_directories_empty}

new_directories_empty_example :
    ((Listing (create_block 5 2) 10 0) × (only_dots (create_block 5 2) 512 0 ≡ true))
    × (Listing (directory_block 5 2) 12 0)
    × (only_dots (directory_block 5 2) 512 0 ≡ true)
new_directories_empty_example =
    new_directories_empty 5 2 (omega arith) (omega arith) (λ e. omega (arith, e))
      (λ e. omega (arith, e))

-- The letters of "ab".
abbrev ab : Bytes
ab i = i + b'a'

abbrev listed : Listing (create_block 5 2) 10 0
listed =
    (new_directories_empty 5 2 (omega arith) (omega arith) (λ e. omega (arith, e))
      (λ e. omega (arith, e))).0.0

append_lookup_example :
    (buf' : Bytes) × (append_in_block (create_block 5 2) 7 ab 2 1 ≡ some buf')
    × Listing buf' 21 0
    × (entry_inode buf' 21 ≡ 7)
    × (entry_file_type buf' 21 ≡ 1)
    × ((nm : Bytes) (l : ℕ)
        → find_in_block buf' nm l 512 0
          ≡ or_else
              (find_in_block (create_block 5 2) nm l 512 0)
              (if same_name ab 2 nm l then some 21 else none))
unfolding get16 create_block put16
append_lookup_example =
    append_lookup (create_block 5 2) 10 7 ab 2 1 listed (omega arith) (omega arith)
      (λ e. omega (arith, e)) (omega arith)

-- The block with "ab" behind the two entries of a new directory.
abbrev with_ab : Bytes
with_ab = split_entry (create_block 5 2) 10 7 ab 2 1

found_ab : find_in_block with_ab ab 2 512 0 ≡ some 21
unfolding find_in_block split_entry ends_walk get32 copy_bytes get_entry_record_len get16
    create_block put16 put32 has_name
found_ab = refl

entry :
    (o : ℕ)
    → entry_inode with_ab o ≢ 0
    → 9 + entry_name_len with_ab o ≤ entry_rec_len with_ab o
    → o + entry_rec_len with_ab o ≤ 512
    → IsEntry with_ab o
entry o a b c = record { used = a; holds = b; within = c }

listed_ab : Listing with_ab 21 0
unfolding split_entry get32 copy_bytes get_entry_record_len get16 create_block put16 put32
listed_ab = next (entry 0 (λ e. omega (arith, e)) (omega arith) (omega arith)) (
    next (entry 10 (λ e. omega (arith, e)) (omega arith) (omega arith))
      (stop (entry 21 (λ e. omega (arith, e)) (omega arith) (omega arith)) refl))

remove_lookup_example :
    (buf' : Bytes) × (remove_at with_ab 21 ≡ some buf')
    × ((last' : ℕ) × Listing buf' last' 0)
    × ((nm : Bytes) (l : ℕ)
        → ¬ (find_in_block buf' nm l 512 0 ≡ some 21)
          × Kept 21 (find_in_block with_ab nm l 512 0) (find_in_block buf' nm l 512 0))
remove_lookup_example = remove_lookup with_ab 21 21 ab 2 listed_ab found_ab (λ e. omega (arith, e))

-- A disk whose blocks 0 to 7 are in use, and a file in block 6.
abbrev eight_used : FileSystem
eight_used = record {
  disk = λ n i. if n == 3 then (if i == 0 then 255 else 0) else if n == 6 then b'x' else 0;
  superblock = new_superblock;
  bgd_table = new_bgd_table;
}

abbrev small_file : Inode
small_file = record { i_mode = 0x8000; i_size = 512; i_blocks = 1; i_block = update (λ _. 0) 0 6 }

eight_used-IsInUse : IsInUse eight_used 3 small_file
unfolding bitmap_bit new_bgd_table get32 put32 put16 bit
eight_used-IsInUse = record {
  bitmap = refl;
  bytes = λ i. ground arith;
  own = (omega arith, refl);
  blocks = λ i ne.
      let q : small_file.i_block i ≡ 6 = ground (arith, ne) in
      rw q (omega arith, (λ e. omega (arith, e)), refl);
}

copy_blocks_lem_example :
    let (failed, (dest', fs')) = copy_blocks small_file 0 1 0 (zero_inode, eight_used) in
    ((failed ≡ none) × IsCopied small_file 3 0 1 zero_inode eight_used dest' fs')
    ⊎ ((k : ℕ) × (failed ≡ some k)
        × (k < 1)
        × IsFull 3 fs'
        × IsCopied small_file 3 0 k zero_inode eight_used dest' fs')
copy_blocks_lem_example =
    copy_blocks_lem small_file 3 0 1 0 zero_inode eight_used eight_used-IsInUse

abbrev request_ab : Option Ext2DriverRequest
request_ab = some (record {
  buf = none;
  name = ab;
  name_len = 2;
  parent_inode = 2;
  buffer_size = 0;
  is_dir = false;
})

removals_outcomes_example :
    HasOutcome IsDeleteFileCode eight_used (delete_file zero_inode eight_used request_ab)
    × HasOutcome IsDeleteCode eight_used (delete_directory zero_inode eight_used request_ab)
    × HasOutcome IsMoveCode eight_used (move_file zero_inode eight_used request_ab none)
removals_outcomes_example = removals_outcomes zero_inode eight_used request_ab none
