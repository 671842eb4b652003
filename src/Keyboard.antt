-- ===== src/Keyboard.antt =====
-- keyboard.c: the driver state, the interrupt service routine and the read of the buffer. `in` on
-- the data port is the argument `scancode`. A character is its code, since no entry of the tables
-- is above 127.
pub mod Tables
pub mod Modifiers
pub mod Buffer
pub mod Session
mod Tests
use luma_osjang.Common.{
  ℕ, zero, suc, ◌+◌, ◌-◌, ◌^◌, Bool, true, false, not, ◌&&◌, ◌||◌, ltb, leb, ◌==◌, if◌then◌else◌,
  update, get_or, bit_and, bit_or, bit_xor,
}
use luma_osjang.Keyboard.Tables.{
  keyboard_scancode_1_to_ascii_map, keyboard_scancode_1_to_shifted_ascii_map,
}

abbrev pub keyboard_buffer_size : ℕ
keyboard_buffer_size = 256

abbrev pub framebuffer_height : ℕ
framebuffer_height = 25

abbrev pub shift_pressed : ℕ
shift_pressed = 0x01

abbrev pub caps_lock_active : ℕ
caps_lock_active = 0x02

-- `struct KeyboardDriverState` with the file's statics `key_state` and `line_end_positions`.
pub record KeyboardState : Type 0 where
  pub read_extended_mode : Bool
  pub keyboard_input_on : Bool
  pub buffer_index : ℕ
  pub keyboard_buffer : ℕ → ℕ
  pub cursor_x : ℕ
  pub cursor_y : ℕ
  pub key_state : ℕ
  pub line_end_positions : ℕ → ℕ

-- The static initialiser.
abbrev pub keyboard_state : KeyboardState
keyboard_state = record {
  read_extended_mode = false;
  keyboard_input_on = false;
  buffer_index = 0;
  keyboard_buffer = λ _. 0;
  cursor_x = 0;
  cursor_y = 0;
  key_state = 0;
  line_end_positions = λ _. 0;
}

unfoldable pub to_uppercase : ℕ → ℕ
to_uppercase c = if leb b'a' c && leb c b'z' then c - 32 else c

-- `for (i = 0; i < n; i++) a[i] = 0;`, which is also what `memset(a, 0, n)` leaves
abbrev pub zeroed : ℕ → (ℕ → ℕ) → ℕ → ℕ
zeroed n a i = if ltb i n then 0 else a i

unfoldable pub keyboard_state_activate : KeyboardState → KeyboardState
keyboard_state_activate s = record s {
  keyboard_input_on = true;
  buffer_index = 0;
  cursor_x = 0;
  cursor_y = 0;
  key_state = 0;
  line_end_positions = zeroed framebuffer_height s.line_end_positions;
  keyboard_buffer = zeroed keyboard_buffer_size s.keyboard_buffer;
}

unfoldable pub keyboard_state_deactivate : KeyboardState → KeyboardState
keyboard_state_deactivate s = record s { keyboard_input_on = false }

-- The character that goes to `*buf`, and the state after it.
unfoldable pub get_keyboard_buffer : KeyboardState → ℕ × KeyboardState
get_keyboard_buffer s =
    if ltb 0 s.buffer_index
    then (
      s.keyboard_buffer (s.buffer_index - 1),
      record s {
        buffer_index = s.buffer_index - 1;
        keyboard_buffer = update s.keyboard_buffer (s.buffer_index - 1) 0;
      },
    )
    else (0, s)

-- The character of a key press, by the modifiers.
unfoldable pub key_ascii : ℕ → ℕ → ℕ
unfolding to_uppercase keyboard_scancode_1_to_ascii_map keyboard_scancode_1_to_shifted_ascii_map
key_ascii key_state scancode =
    if not (bit_and key_state shift_pressed == 0)
    then get_or keyboard_scancode_1_to_shifted_ascii_map scancode 0
    else (let ascii = get_or keyboard_scancode_1_to_ascii_map scancode 0 in
        if not (bit_and key_state caps_lock_active == 0) && (leb b'a' ascii && leb ascii b'z')
        then to_uppercase ascii
        else ascii)

-- Only a character is kept, and only while the buffer has room.
abbrev pub store_ascii : KeyboardState → ℕ → KeyboardState
store_ascii s ascii =
    if not (ascii == 0) && ltb s.buffer_index (keyboard_buffer_size - 1)
    then record s {
      buffer_index = s.buffer_index + 1;
      keyboard_buffer = update s.keyboard_buffer s.buffer_index ascii;
    }
    else s

unfoldable pub keyboard_isr : KeyboardState → ℕ → KeyboardState
keyboard_isr s scancode =
    if not s.keyboard_input_on
    then s
    else if (scancode == 0x2a) || (scancode == 0x36)
    then record s { key_state = bit_or s.key_state shift_pressed }
    else if (scancode == 0xaa) || (scancode == 0xb6)
    then record s { key_state = bit_and s.key_state 0xfe }
    else if (scancode == 0x3a) && (bit_and scancode 0x80 == 0)
    then record s { key_state = bit_xor s.key_state caps_lock_active }
    else if bit_and scancode 0x80 == 0
    then store_ascii s (key_ascii s.key_state scancode)
    else s
