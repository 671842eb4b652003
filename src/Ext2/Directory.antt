-- ===== src/Ext2/Directory.antt =====
-- ext2.c: directory entries in a block. An entry is 9 bytes (inode, rec_len, name_len, file_type)
-- and its name; bytes behind a block are those that follow the buffer in memory.
use luma_osjang.Common.{
  ℕ, zero, suc, ◌+◌, ◌-◌, ◌%◌, ◌^◌, Bool, not, ◌&&◌, ◌||◌, Option, none, some, List, [], ◌∷◌,
  length, ltb, leb, ◌==◌, if◌then◌else◌, update,
}
use luma_osjang.Common.Bytes.{Bytes, get16, get32, put16, put32, fill_bytes, put_name, name_at}
use luma_osjang.Ext2.Disk.{FileSystem, block_size, read_block, write_block}
use luma_osjang.Ext2.Inodes.{Inode}

abbrev pub entry_header_size : ℕ
entry_header_size = 9

abbrev pub ext2_ft_reg_file : ℕ
ext2_ft_reg_file = 1

abbrev pub ext2_ft_dir : ℕ
ext2_ft_dir = 2

-- The fields of `struct EXT2DirectoryEntry` at a byte of a block, and where its name is.
abbrev pub entry_inode : Bytes → ℕ → ℕ
entry_inode buf at = get32 buf at

abbrev pub entry_rec_len : Bytes → ℕ → ℕ
entry_rec_len buf at = get16 buf (at + 4)

abbrev pub entry_name_len : Bytes → ℕ → ℕ
entry_name_len buf at = get16 buf (at + 6)

abbrev pub entry_file_type : Bytes → ℕ → ℕ
entry_file_type buf at = buf (at + 8)

unfoldable pub get_entry_name : ℕ → ℕ
get_entry_name at = at + entry_header_size

unfoldable pub get_directory_entry : ℕ → ℕ → ℕ
get_directory_entry ptr offset = ptr + offset

unfoldable pub get_next_directory_entry : Bytes → ℕ → ℕ
get_next_directory_entry buf at = at + entry_rec_len buf at

unfoldable pub get_entry_record_len : ℕ → ℕ
get_entry_record_len name_len = (entry_header_size + name_len) % 2 ^ 16

unfoldable pub get_dir_first_child_offset : Bytes → ℕ
get_dir_first_child_offset buf = if entry_inode buf 0 == 0 then block_size else entry_rec_len buf 0

-- The four fields of an entry, as the code stores them.
unfoldable pub put_entry : Bytes → ℕ → ℕ → ℕ → ℕ → ℕ → Bytes
put_entry buf at inode rec_len name_len file_type =
    update (put16 (put16 (put32 buf at inode) (at + 4) rec_len) (at + 6) name_len) (at + 8)
      file_type

-- The block with "." and "..".
unfoldable pub directory_block : ℕ → ℕ → Bytes
unfolding put_entry put_name
directory_block inode parent_inode =
    put_name
      (put_entry (put_name (put_entry (λ _. 0) 0 inode 12 1 ext2_ft_dir) 9 (b'.' ∷ [])) 12
        parent_inode (block_size - 12) 2 ext2_ft_dir)
      21 (b'.' ∷ b'.' ∷ [])

unfoldable pub init_directory_table : FileSystem → Inode → ℕ → ℕ → FileSystem
unfolding directory_block
init_directory_table fs node inode parent_inode =
    write_block fs (node.i_block 0) (directory_block inode parent_inode)

-- What a walk along the entries comes to; a record length of 0 keeps it in place for ever.
pub data Walk : Type 0 where
  at_offset : ℕ → Walk
  missing : Walk
  endless : Walk

-- An entry in use with that name: `strlen(name) == name_len && memcmp(…) == 0`
unfoldable pub entry_matches : Bytes → ℕ → List ℕ → Bool
entry_matches buf at name =
    not (entry_inode buf at == 0)
    && ((length name == entry_name_len buf at) && name_at buf (at + entry_header_size) name)

-- The walk of `find_inode_in_dir` and `remove_inode_from_dir`, with rounds left.
unfoldable pub find_entry : Bytes → List ℕ → ℕ → ℕ → Walk
find_entry buf name zero offset = if ltb offset block_size then endless else missing
find_entry buf name (suc n) offset =
    let rest = find_entry buf name n (offset + entry_rec_len buf offset) in
    if ltb offset block_size
    then if entry_matches buf offset name then at_offset offset else rest
    else missing

-- The inode that goes to `*out_inode`; the outer `none` is the walk without end.
unfoldable pub find_inode_in_dir : FileSystem → Inode → List ℕ → Option (Option ℕ)
unfolding find_entry entry_matches
find_inode_in_dir fs dir_inode name =
    let buf = read_block fs (dir_inode.i_block 0) in
    elim (find_entry buf name block_size 0) [
      | at_offset at ↦ some (some (entry_inode buf at))
      | missing ↦ some none
      | endless ↦ none
    ]

-- The walk of `add_inode_to_dir`: it stops at an entry that is empty or reaches the block's end.
unfoldable pub last_entry : Bytes → ℕ → ℕ → ℕ
last_entry buf zero offset = offset
last_entry buf (suc n) offset =
    let rest = last_entry buf n (offset + entry_rec_len buf offset) in
    if ltb offset block_size
    then if (entry_rec_len buf offset == 0) || leb block_size (offset + entry_rec_len buf offset)
      then offset
      else rest
    else offset

-- The size of an entry, rounded up to 4.
unfoldable pub padded_size : ℕ → ℕ
padded_size name_len =
    let size = entry_header_size + name_len in if size % 4 == 0 then size else size + (4 - size % 4)

-- The block with the new entry at `offset`, which takes the rest of the block.
unfoldable pub entry_block : Bytes → ℕ → ℕ → List ℕ → Bytes
unfolding padded_size put_entry
entry_block buf offset inode name =
    put_name
      (put_entry (fill_bytes buf offset 0 (padded_size (length name))) offset inode
        (block_size - offset) (length name) ext2_ft_reg_file)
      (offset + entry_header_size) name

-- The checks on the name and on the room, and the entry at `offset`.
unfoldable pub add_at : FileSystem → Inode → ℕ → List ℕ → ℕ → FileSystem
unfolding entry_block
add_at fs parent_inode inode name offset =
    if (length name == 0) || ltb 255 (length name)
    then fs
    else if ltb block_size (offset + padded_size (length name))
    then fs
    else write_block fs (parent_inode.i_block 0)
        (entry_block (read_block fs (parent_inode.i_block 0)) offset inode name)

unfoldable pub add_inode_to_dir : FileSystem → Inode → ℕ → List ℕ → FileSystem
unfolding last_entry
add_inode_to_dir fs parent_inode inode name =
    add_at fs parent_inode inode name
      (last_entry (read_block fs (parent_inode.i_block 0)) block_size 0)

unfoldable pub is_empty_directory : FileSystem → Inode → Bool
unfolding get_dir_first_child_offset
is_empty_directory fs inode =
    let buf = read_block fs (inode.i_block 0) in
    let offset = get_dir_first_child_offset buf in
    (entry_inode buf offset == 0) || leb block_size offset

-- The walk of `remove_inode_from_dir`: the entry before the current one comes along.
unfoldable pub remove_walk : Bytes → List ℕ → ℕ → Option ℕ → ℕ → Option Bytes
remove_walk buf name zero prev offset = if ltb offset block_size then none else some buf
remove_walk buf name (suc n) prev offset =
    let rest = remove_walk buf name n (some offset) (offset + entry_rec_len buf offset) in
    if ltb offset block_size
    then if entry_matches buf offset name
      then some (
          put32
            (elim prev [
              | none ↦ buf
              | some p ↦
                  put16 buf (p + 4) ((entry_rec_len buf p + entry_rec_len buf offset) % 2 ^ 16)
            ])
            offset 0)
      else rest
    else some buf

unfoldable pub remove_inode_from_dir : FileSystem → Inode → List ℕ → Option FileSystem
unfolding remove_walk entry_matches
remove_inode_from_dir fs dir_inode name =
    elim (remove_walk (read_block fs (dir_inode.i_block 0)) name block_size none 0) [
      | none ↦ none
      | some buf ↦ some (write_block fs (dir_inode.i_block 0) buf)
    ]
