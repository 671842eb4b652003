-- ===== src/SystemCalls.antt =====
-- interrupt.c: the system calls that list a directory, change it and end a process. `stale` is what
-- an uninitialised inode holds.
pub mod Rows
mod Tests
use luma_osjang.Common.{
  ℕ, zero, suc, ◌+◌, ◌-◌, ◌%◌, ◌^◌, Bool, true, false, not, ◌&&◌, ◌||◌, List, [], ◌∷◌, ltb, leb,
  ◌==◌, if◌then◌else◌, bit_and,
}
use luma_osjang.Common.Bytes.{Bytes}
use luma_osjang.Ext2.Disk.{FileSystem, read_block, block_size}
use luma_osjang.Ext2.Inodes.{Inode, read_inode, is_directory}
use luma_osjang.Ext2.Directory.{entry_rec_len, entry_name_len, entry_file_type, entry_header_size}
use luma_osjang.FileCalls.{ends_walk}
use luma_osjang.Builtins.{ShellState, codes}
use luma_osjang.Console.{Screen, framebuffer_set_cursor, framebuffer_write}

-- The loop that writes a string on a row from a column on.
unfoldable pub write_string : Screen → ℕ → ℕ → List ℕ → Screen
unfolding framebuffer_write
write_string s row col [] = s
write_string s row col (c ∷ cs) =
    write_string (framebuffer_write s row col c 0x0F 0x00) row (col + 1) cs

-- The loop over a name, with `n` characters left from `k` on; what cannot be printed shows as '?'.
unfoldable pub write_name : Screen → ℕ → Bytes → ℕ → ℕ → ℕ → Screen
write_name s row buf name zero k = s
write_name s row buf name (suc n) k =
    let c = buf (name + k) in
    write_name (framebuffer_write s row k (if leb 32 c && leb c 126 then c else b'?') 0x0F 0x00) row
      buf name n (k + 1)

abbrev pub type_str : ℕ → List ℕ
type_str file_type =
    if file_type == 2 then codes "dir" else if file_type == 1 then codes "file" else codes "unk"

-- An entry's row: up to 19 characters of the name, the type, and a size that is always 0.
unfoldable pub write_entry_row : Screen → ℕ → Bytes → ℕ → Screen
unfolding write_string write_name
write_entry_row s row buf offset =
    let name_len = entry_name_len buf offset in
    let named =
      write_name s row buf (offset + entry_header_size) (if ltb name_len 19 then name_len else 19)
        0 in
    write_string (write_string named row 20 (type_str (entry_file_type buf offset))) row 27
      (codes "0")

-- The walk along a block, with rounds left: whether the last row is reached, the screen and the next
-- row, which is 8 bits wide.
unfoldable pub list_entries : Bytes → ℕ → ℕ → Screen × ℕ → Bool × (Screen × ℕ)
unfolding write_entry_row
list_entries buf zero offset p = (false, p)
list_entries buf (suc n) offset (s, row) =
    let next : Screen × ℕ = (write_entry_row s row buf offset, (row + 1) % 256) in
    let rest = list_entries buf n (offset + entry_rec_len buf offset) next in
    if ltb offset block_size
    then if ends_walk buf offset
      then (false, (s, row))
      else if leb 24 next.1
      then (true, next)
      else rest
    else (false, (s, row))

-- The loop over the direct blocks, with rounds left at `i`.
unfoldable pub list_blocks : FileSystem → Inode → ℕ → ℕ → Screen × ℕ → Screen × ℕ
unfolding list_entries
list_blocks fs dir zero i p = p
list_blocks fs dir (suc n) i p =
    let (full, listed) = list_entries (read_block fs (dir.i_block i)) block_size 0 p in
    let rest = list_blocks fs dir n (i + 1) (if dir.i_block i == 0 then p else listed) in
    if ltb i dir.i_blocks
    then if dir.i_block i == 0 then rest else if full then listed else rest
    else p

-- `end_list_dir_syscall_modified`: the row is written back where the shell keeps its own.
abbrev pub finish : Screen × ℕ → Screen × ℕ
finish (s, row) = (framebuffer_set_cursor s row 0, row)

-- The listing behind its two lines of headers: `s1` has the first and `s2` both, and `row1` is the
-- row of the second.
unfoldable pub list_headed : Inode → FileSystem → ℕ → ℕ → Screen → Screen → ℕ → Screen × ℕ
unfolding list_blocks
list_headed stale fs row dir_inode_idx s1 s2 row1 =
    let row2 = (row1 + 1) % 256 in
    let dir = read_inode fs dir_inode_idx stale in
    if leb 24 row1
    then finish (s1, row1)
    else if leb 24 row2
    then finish (s2, row2)
    else if not (is_directory dir)
    then (s2, row)
    else finish (list_blocks fs dir 12 0 (s2, row2))

-- System call 22: `row` is what the shell's pointer holds, and the result's row what it holds then.
unfoldable pub sys_list_dir : Inode → FileSystem → ℕ → ℕ → Screen → Screen × ℕ
unfolding list_headed write_string
sys_list_dir stale fs row dir_inode_idx s =
    let row0 = row % 256 in
    let row1 = (row0 + 1) % 256 in
    let s1 = write_string s row0 0 (codes "name                type   size") in
    let s2 = write_string s1 row1 0 (codes "================================") in
    list_headed stale fs row dir_inode_idx s1 s2 row1

-- System call 18: what is written to `eax` of the handler's own copy of the frame.
unfoldable pub sys_change_dir : Inode → FileSystem → ℕ → ℕ
sys_change_dir stale fs target_inode =
    if (target_inode == 0) || ltb 1000 target_inode
    then 1
    else if not (is_directory (read_inode fs target_inode stale))
    then 2
    else 0

-- System call 11, up to the halt.
unfoldable pub sys_exit : ℕ → Screen → Screen
unfolding write_string
sys_exit exit_code s =
    framebuffer_write (write_string s 0 60 (codes "EXIT:")) 0 65
      (if ltb exit_code 10 then b'0' + exit_code else b'X') 0x0F 0x00

-- `handle_ls`: the shell's row is the pointer that system call 22 writes through.
unfoldable pub handle_ls : Inode → ShellState → Screen → ShellState × Screen
unfolding sys_list_dir
handle_ls stale s screen =
    let (screen', row) = sys_list_dir stale s.fs s.current_output_row s.current_inode screen in
    (record s { current_output_row = row }, screen')
