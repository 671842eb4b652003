-- ===== src/Builtins/Lookup.antt =====
-- builtin_commands.c: the shell's own walk along a directory, by system calls 21 and 23.
pub mod Walk
pub mod Agreement
use luma_osjang.Common.{
  ℕ, zero, suc, ◌+◌, ◌-◌, Bool, true, false, not, ◌&&◌, ◌||◌, Option, none, some, List, [], ◌∷◌,
  ltb, ◌==◌, if◌then◌else◌, bit_and, length,
}
use luma_osjang.Common.Bytes.{Bytes, put_name}
use luma_osjang.Ext2.Disk.{FileSystem, block_size, read_block}
use luma_osjang.Ext2.Inodes.{Inode, zero_inode, read_inode}
use luma_osjang.Ext2.Directory.{entry_inode, entry_rec_len, entry_name_len, entry_header_size}
use luma_osjang.Builtins.{is_empty}

-- `inode.i_mode & 0x4000`
abbrev pub has_directory_bit : Inode → Bool
has_directory_bit inode = not (bit_and inode.i_mode 0x4000 == 0)

abbrev pub unusable : Inode → Bool
unusable inode =
    (inode.i_size == 0)
    || ltb 65536 inode.i_size
    || not (has_directory_bit inode)
    || (inode.i_block 0 == 0)

-- The 1024 bytes of `buf`, of which system call 23 fills the first block.
unfoldable pub read_buf : FileSystem → ℕ → Bytes
read_buf fs b i = if ltb i block_size then read_block fs b i else 0

-- Where the walk stops: a record shorter than 8, longer than 500 or longer than the array.
unfoldable pub stops_lookup : Bytes → ℕ → Bool
stops_lookup buf offset =
    let rec_len = entry_rec_len buf offset in
    ltb 1024 (offset + entry_header_size)
    || ((rec_len == 0) || ltb rec_len 8 || ltb 500 rec_len || ltb 1024 (offset + rec_len))

unfoldable pub skips : Bytes → ℕ → Bool
skips buf offset =
    (entry_inode buf offset == 0)
    || (entry_name_len buf offset == 0)
    || ltb 255 (entry_name_len buf offset)

-- `name_len`, cut where the name would leave the array.
unfoldable pub entry_name_length : Bytes → ℕ → ℕ
entry_name_length buf offset =
    let name_len = entry_name_len buf offset in
    if ltb 1024 (offset + entry_header_size + name_len)
    then (if ltb 255 (1024 - offset - entry_header_size)
        then 255
        else 1024 - offset - entry_header_size)
    else name_len

-- The loop that compares the names, with `n` characters left from `i` on.
unfoldable pub chars_match : Bytes → Bytes → ℕ → ℕ → ℕ → Bool
chars_match search_name buf at zero i = true
chars_match search_name buf at (suc n) i =
    let rest = chars_match search_name buf at n (i + 1) in
    if not (search_name i == buf (at + i)) then false else rest

-- `search_len` counts no more than 255 characters.
abbrev pub search_length : List ℕ → ℕ
search_length name = if ltb (length name) 255 then length name else 255

unfoldable pub is_match : Bytes → ℕ → List ℕ → Bool
unfolding entry_name_length chars_match
is_match buf offset name =
    ((search_length name == entry_name_length buf offset) && ltb 0 (search_length name))
    && chars_match (put_name (λ _. 0) 0 name) buf (offset + entry_header_size) (search_length name)
        0

-- The walk, with rounds left out of MAX_ENTRIES: the offset of the entry that matches.
unfoldable pub lookup_from : Bytes → List ℕ → ℕ → ℕ → Option ℕ
unfolding stops_lookup skips is_match
lookup_from buf name zero offset = none
lookup_from buf name (suc n) offset =
    let rest = lookup_from buf name n (offset + entry_rec_len buf offset) in
    if ltb offset 1000
    then if stops_lookup buf offset
      then none
      else if skips buf offset
      then rest
      else if is_match buf offset name
      then some offset
      else rest
    else none

-- What the shell learns of an entry: its inode's number, and whether that inode has the directory
-- bit.
abbrev pub target_of : FileSystem → Bytes → ℕ → ℕ × Bool
target_of fs buf offset =
    (entry_inode buf offset, has_directory_bit (read_inode fs (entry_inode buf offset) zero_inode))

-- A call with `*found` clear: `*target_inode` and `*is_dir`, if the name is found.
unfoldable pub find_for_rm : FileSystem → ℕ → List ℕ → Option (ℕ × Bool)
unfolding lookup_from read_buf
find_for_rm fs curr_inode search_name =
    let dir_inode = read_inode fs curr_inode zero_inode in
    let buf = read_buf fs (dir_inode.i_block 0) in
    if (curr_inode == 0) || is_empty search_name
    then none
    else if unusable dir_inode
    then none
    else elim (lookup_from buf search_name 50 0) [
      | none ↦ none
      | some offset ↦ some (target_of fs buf offset)
    ]
