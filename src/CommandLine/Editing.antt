-- ===== src/CommandLine/Editing.antt =====
-- user-shell.c: the loop that reads a line from the keyboard. What the shell is given is the
-- characters that system call 4 leaves in `c`, 0 for none.
pub mod Typing
use luma_osjang.Common.{
  ℕ, zero, suc, ◌+◌, ◌-◌, ◌%◌, ◌≤◌, ◌<◌, ◌≡◌, refl, ◌⊎◌, Bool, true, false, ◌&&◌, ◌||◌, List, [],
  ◌∷◌, ltb, leb, ◌==◌, if◌then◌else◌, update, arith, Bool-cases, inl, inr, ◌≢◌,
}
use luma_osjang.Common.Bytes.{Bytes}
use luma_osjang.Libc.Compare.{IsString}
use luma_osjang.Console.{Screen, framebuffer_set_cursor, framebuffer_write, print_char}

abbrev pub command_buffer_size : ℕ
command_buffer_size = 128

-- `buffer`, `buffer_pos`, `cursor_col_for_input`, `current_output_row`, and the screen.
pub record Line : Type 0 where
  pub buffer : Bytes
  pub buffer_pos : ℕ
  pub cursor_col_for_input : ℕ
  pub current_output_row : ℕ
  pub screen : Screen

-- `set_cursor` with the line's column and row: system call 9 keeps 8 bits of each.
unfoldable pub set_cursor : Line → Line
unfolding framebuffer_set_cursor
set_cursor l = record l {
  screen =
      framebuffer_set_cursor l.screen (l.current_output_row % 256) (l.cursor_col_for_input % 256);
}

-- System call 5 is given the character ' ' for a pointer: what it writes is the byte `low` at the
-- address 32.
unfoldable pub erase : ℕ → Line → Line
unfolding set_cursor framebuffer_write
erase low l =
    let l1 = set_cursor (record l {
      buffer = update l.buffer (l.buffer_pos - 1) 0;
      buffer_pos = l.buffer_pos - 1;
      cursor_col_for_input = l.cursor_col_for_input - 1;
    }) in
    set_cursor (record l1 {
      screen =
          framebuffer_write l1.screen (l1.current_output_row % 256) (l1.cursor_col_for_input % 256)
            low 0x0F 0x00;
    })

unfoldable pub append : ℕ → Line → Line
unfolding set_cursor print_char
append c l =
    let (screen, row, col) = print_char l.screen c (l.current_output_row, l.cursor_col_for_input) in
    set_cursor (record l {
      buffer = update l.buffer l.buffer_pos c;
      buffer_pos = l.buffer_pos + 1;
      cursor_col_for_input = col;
      current_output_row = row;
      screen = screen;
    })

-- A round of the loop with a character that does not end the line; `prompt_full_len` is the length
-- of what was printed in front of it. A `char` from 128 on is negative.
unfoldable pub edit : ℕ → ℕ → ℕ → Line → Line
unfolding erase append
edit low prompt_full_len c l =
    if (c == 8) || (c == 127)
    then if ltb 0 l.buffer_pos && ltb prompt_full_len l.cursor_col_for_input then erase low l else l
    else if leb 32 c && leb c 126 && ltb l.buffer_pos (command_buffer_size - 1)
    then append c l
    else l

-- What the loop comes to: a line that is waiting for more, or one that was ended, with the
-- characters that are left.
pub data Input : Type 0 where
  waiting : Line → Input
  entered : Line → List ℕ → Input

unfoldable pub read_line : ℕ → ℕ → List ℕ → Line → Input
unfolding edit
read_line low prompt_full_len [] l = waiting l
read_line low prompt_full_len (c ∷ cs) l =
    let rest = read_line low prompt_full_len cs (edit low prompt_full_len c l) in
    if (c == b'\n') || (c == b'\r')
    then entered
        (record l {
          buffer = update l.buffer l.buffer_pos 0;
          current_output_row = l.current_output_row + 1;
        })
        cs
    else rest

-- The line before the first character: a prompt ends at `col` of `row`.
unfoldable pub new_line : ℕ → ℕ → Screen → Line
unfolding set_cursor
new_line row col screen = set_cursor (record {
  buffer = λ _. 0;
  buffer_pos = 0;
  cursor_col_for_input = col;
  current_output_row = row;
  screen = screen;
})
