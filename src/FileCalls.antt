-- ===== src/FileCalls.antt =====
-- interrupt.c: the file operations behind the system calls, which walk the blocks of a directory
-- themselves. An int8_t result is its byte.
pub mod Copy
pub mod Create
pub mod Delete
pub mod Move
pub mod Listing
pub mod Split
pub mod Append
pub mod Remove
pub mod Removed
pub mod Contents
pub mod Refusals
pub mod Creations
pub mod Empty
mod Tests
use luma_osjang.Common.{
  ℕ, zero, suc, ◌+◌, ◌-◌, ◌*◌, ◌%◌, ◌^◌, Bool, true, false, not, ◌&&◌, ◌||◌, Option, none, some,
  ltb, leb, ◌==◌, if◌then◌else◌, update,
}
use luma_osjang.Common.Bytes.{Bytes, put16, put32, copy_bytes}
use luma_osjang.Ext2.Disk.{FileSystem, block_size, read_block, write_block}
use luma_osjang.Ext2.Inodes.{Inode}
use luma_osjang.Ext2.Directory.{
  entry_inode, entry_rec_len, entry_name_len, entry_file_type, entry_header_size,
  get_entry_record_len,
}

-- The byte of -k in an int8_t.
abbrev pub minus : ℕ → ℕ
minus k = 256 - k

-- The loop that compares the names, with `n` characters left from `i` on.
unfoldable pub names_match : Bytes → ℕ → Bytes → ℕ → ℕ → Bool
names_match buf at name zero i = true
names_match buf at name (suc n) i =
    let rest = names_match buf at name n (i + 1) in if buf (at + i) == name i then rest else false

-- Where a walk along the entries stops: an unused entry, or one that leaves the block.
unfoldable pub ends_walk : Bytes → ℕ → Bool
ends_walk buf offset =
    ((entry_inode buf offset == 0) || (entry_rec_len buf offset == 0))
    || ltb block_size (offset + entry_rec_len buf offset)

unfoldable pub has_name : Bytes → ℕ → Bytes → ℕ → Bool
unfolding names_match
has_name buf offset name name_len =
    (entry_name_len buf offset == name_len)
    && names_match buf (offset + entry_header_size) name (entry_name_len buf offset) 0

-- The walk for a name in a block, with rounds left; an offset grows in each round, so that 512 are
-- enough.
unfoldable pub find_in_block : Bytes → Bytes → ℕ → ℕ → ℕ → Option ℕ
find_in_block buf name name_len zero offset = none
find_in_block buf name name_len (suc n) offset =
    let rest = find_in_block buf name name_len n (offset + entry_rec_len buf offset) in
    if ltb offset block_size
    then if ends_walk buf offset
      then none
      else if has_name buf offset name name_len
      then some offset
      else rest
    else none

-- The loop over the direct blocks of a directory, with rounds left at `block_idx`: the block's index
-- and the entry's offset.
unfoldable pub find_in_blocks : FileSystem → Inode → Bytes → ℕ → ℕ → ℕ → Option (ℕ × ℕ)
find_in_blocks fs parent name name_len zero block_idx = none
find_in_blocks fs parent name name_len (suc n) block_idx =
    let rest = find_in_blocks fs parent name name_len n (block_idx + 1) in
    if ltb block_idx parent.i_blocks
    then if parent.i_block block_idx == 0
      then rest
      else elim (find_in_block (read_block fs (parent.i_block block_idx)) name name_len block_size
          0) [ some offset ↦ some (block_idx, offset) | none ↦ rest ]
    else none

unfoldable pub find_name : FileSystem → Inode → Bytes → ℕ → Option (ℕ × ℕ)
unfolding find_in_blocks
find_name fs parent name name_len = find_in_blocks fs parent name name_len 12 0

-- The walk to the last entry of a block: `last` is the one before `offset`.
unfoldable pub last_in_block : Bytes → ℕ → ℕ → Option ℕ → Option ℕ
last_in_block buf zero offset last = last
last_in_block buf (suc n) offset last =
    let rest = last_in_block buf n (offset + entry_rec_len buf offset) (some offset) in
    if ltb offset block_size then if ends_walk buf offset then last else rest else last

-- The block with the record of the entry at `last` cut to its size, and a new entry behind it.
unfoldable pub split_entry : Bytes → ℕ → ℕ → Bytes → ℕ → ℕ → Bytes
split_entry buf last inode name name_len file_type =
    let actual_last_size = get_entry_record_len (entry_name_len buf last % 2 ^ 8) in
    let new_offset = last + actual_last_size in
    let cut = put16 buf (last + 4) actual_last_size in
    let entry =
      put16
        (update (put16 (put32 cut new_offset inode) (new_offset + 6) name_len) (new_offset + 8)
          file_type)
        (new_offset + 4) ((block_size + 2 ^ 16 - new_offset) % 2 ^ 16) in
    copy_bytes entry (new_offset + entry_header_size) name 0 name_len

-- Whether the record at `last` has room for a name: the difference wraps in 16 bits.
unfoldable pub has_room : Bytes → ℕ → ℕ → Bool
has_room buf last name_len = leb (get_entry_record_len name_len) (
    (entry_rec_len buf last + 2 ^ 16 - get_entry_record_len (entry_name_len buf last % 2 ^ 8))
    % 2 ^ 16)

-- The block with a new entry, if it has room.
unfoldable pub append_in_block : Bytes → ℕ → Bytes → ℕ → ℕ → Option Bytes
unfolding last_in_block split_entry has_room
append_in_block buf inode name name_len file_type = elim (last_in_block buf block_size 0 none) [
  | none ↦ none
  | some last ↦
      if has_room buf last name_len
      then some (split_entry buf last inode name name_len file_type)
      else none
]

-- The loop that adds an entry to the first block with room, with rounds left at `block_idx`.
unfoldable pub append_in_blocks : FileSystem → Inode → ℕ → Bytes → ℕ → ℕ → ℕ → ℕ → Option FileSystem
append_in_blocks fs parent inode name name_len file_type zero block_idx = none
append_in_blocks fs parent inode name name_len file_type (suc n) block_idx =
    let rest = append_in_blocks fs parent inode name name_len file_type n (block_idx + 1) in
    if ltb block_idx parent.i_blocks
    then if parent.i_block block_idx == 0
      then rest
      else elim (append_in_block (read_block fs (parent.i_block block_idx)) inode name name_len
          file_type) [
            | some buf ↦ some (write_block fs (parent.i_block block_idx) buf)
            | none ↦ rest
          ]
    else none

unfoldable pub append_entry : FileSystem → Inode → ℕ → Bytes → ℕ → ℕ → Option FileSystem
unfolding append_in_blocks
append_entry fs parent inode name name_len file_type =
    append_in_blocks fs parent inode name name_len file_type 12 0
