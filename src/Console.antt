-- ===== src/Console.antt =====
-- The screen: framebuffer.c, the system calls of interrupt.c that write on it, and the shell's count
-- of the cursor's position in builtin_commands.c.
pub mod Position
pub mod Bounds
mod Tests
use luma_osjang.Common.{
  ℕ, zero, suc, ◌+◌, ◌*◌, ◌/◌, ◌%◌, ◌^◌, Bool, not, ◌&&◌, List, [], ◌∷◌, ltb, leb, ◌==◌,
  if◌then◌else◌, update, bit_and, bit_or, Option, none, some,
}
use luma_osjang.Common.Bytes.{Bytes}

-- The 16-bit cells from FRAMEBUFFER_MEMORY_OFFSET on, and what has been sent to the ports, the last
-- first.
pub record Screen : Type 0 where
  pub cells : ℕ → ℕ
  pub ports : List (ℕ × ℕ)

unfoldable pub out : Screen → ℕ → ℕ → Screen
out s port byte = record s { ports = (port, byte) ∷ s.ports }

-- `row` and `col` are 8 bits wide, the position 16.
unfoldable pub framebuffer_set_cursor : Screen → ℕ → ℕ → Screen
unfolding out
framebuffer_set_cursor s row col =
    let at = (row * 80 + col) % 2 ^ 16 in
    out (out (out (out s 0x3D4 0x0F) 0x3D5 (at % 256)) 0x3D4 0x0E) 0x3D5 (at / 256 % 256)

-- A `char` from 128 on is negative; it is converted to `int` before the bits of the colours are
-- joined to it, which the 16 bits of the cell show.
unfoldable pub cell : ℕ → ℕ → ℕ → ℕ
cell c fg bg =
    let char = if ltb c 128 then c else c + 0xFF00 in
    let attrib = bit_or (bg * 16 % 2 ^ 16) (bit_and fg 0x0F) in bit_or char (attrib * 256 % 2 ^ 16)

unfoldable pub framebuffer_write : Screen → ℕ → ℕ → ℕ → ℕ → ℕ → Screen
unfolding cell framebuffer_set_cursor
framebuffer_write s row col c fg bg =
    framebuffer_set_cursor (record s { cells = update s.cells (row * 80 + col) (cell c fg bg) }) row
      col

-- `for (int i = 0; i < 80 * 25; i++) fb[i] = blank;`, with rounds left.
unfoldable pub clear_from : ℕ → ℕ → (ℕ → ℕ) → ℕ → ℕ
clear_from zero i cells = cells
clear_from (suc n) i cells = clear_from n (i + 1) (update cells i 0x0720)

unfoldable pub framebuffer_clear : Screen → Screen
unfolding clear_from framebuffer_set_cursor
framebuffer_clear s = framebuffer_set_cursor (record s { cells = clear_from 2000 0 s.cells }) 0 0

-- The cursor after a character of `print_str`; row and column are 8 bits wide.
unfoldable pub next_cell : ℕ × ℕ → ℕ × ℕ
next_cell (row, col) =
    let col' = (col + 1) % 256 in
    if leb 80 col'
    then ((if leb 25 ((row + 1) % 256) then 24 else (row + 1) % 256), 0)
    else (row, col')

-- `print_str`, with rounds left; `none` where there is no terminator among them.
unfoldable pub print_from : ℕ → Screen → Bytes → ℕ → ℕ → ℕ → ℕ → ℕ → Option Screen
unfolding framebuffer_write next_cell
print_from zero s m str row col fg bg = none
print_from (suc n) s m str row col fg bg =
    let (row', col') = next_cell (row, col) in
    let s' = framebuffer_set_cursor (framebuffer_write s row col (m str) fg bg) row' col' in
    let rest = print_from n s' m (str + 1) row' col' fg bg in if m str == 0 then some s else rest

unfoldable pub print_str : ℕ → Screen → Bytes → ℕ → ℕ → ℕ → ℕ → Option Screen
unfolding print_from
print_str fuel s m str row col color =
    print_from fuel s m str row col (color % 16) (color / 16 % 16)

unfoldable pub puts : ℕ → Screen → Bytes → ℕ → ℕ → ℕ → ℕ → Option Screen
unfolding print_str
puts fuel s m str row col color = print_str fuel s m str row col color

-- One round of SYS_PUTS: the screen and the cursor's row and column.
unfoldable pub put_one : ℕ → Screen × ℕ × ℕ → Screen × ℕ × ℕ
unfolding framebuffer_write
put_one c (s, row, col) =
    let col' = (col + 1) % 256 in
    let s' = framebuffer_write s row col c 0x0F 0x00 in
    if c == b'\n'
    then (s, (row + 1) % 256, 0)
    else if leb 80 col'
    then (s', (row + 1) % 256, 0)
    else (s', row, col')

-- The loop of SYS_PUTS, with rounds left out of the 1000 that it allows.
unfoldable pub puts_from : ℕ → Bytes → ℕ → Screen × ℕ × ℕ → Screen × ℕ × ℕ
unfolding put_one
puts_from zero m str p = p
puts_from (suc n) m str p =
    let next = put_one (m str) p in
    let rest = puts_from n m (str + 1) next in
    if m str == 0 then p else if leb 25 next.1 then next else rest

-- System call 6: `ebx` is the string, `ecx` the row and `edx` the column.
unfoldable pub sys_puts : Screen → Bytes → ℕ → ℕ → ℕ → Screen × ℕ × ℕ
unfolding puts_from framebuffer_set_cursor
sys_puts s m ebx ecx edx =
    let (s', row, col) = puts_from 1000 m ebx (s, ecx % 256, edx % 256) in
    (framebuffer_set_cursor s' row col, row, col)

-- The shell's `print_string`: the loop that moves its own row and column past the `n` characters
-- from `str` on.
unfoldable pub move_from : ℕ → Bytes → ℕ → ℕ × ℕ → ℕ × ℕ
move_from zero m str p = p
move_from (suc n) m str (row, col) = move_from n m (str + 1) (
    if m str == b'\n'
    then (row + 1, 0)
    else if leb 80 (col + 1)
    then (row + 1, 0)
    else (row, col + 1))

-- `print_char`
unfoldable pub print_char : Screen → ℕ → ℕ × ℕ → Screen × ℕ × ℕ
unfolding framebuffer_write
print_char s c (row, col) =
    let s' = framebuffer_write s (row % 256) (col % 256) c 0x0F 0x00 in
    if leb 80 (col + 1) then (s', row + 1, 0) else (s', row, col + 1)
