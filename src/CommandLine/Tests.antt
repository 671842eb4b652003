-- ===== src/CommandLine/Tests.antt =====
-- Runs and witnesses for the shell's handling of text.
use luma_osjang.Console.{Screen}
use luma_osjang.CommandLine.Editing.{Line, edit, new_line, read_line, entered}
use luma_osjang.CommandLine.Editing.Typing.{Spells, read_line_typed}
use luma_osjang.CommandLine.Totality.{process_command-entered}
use luma_osjang.CommandLine.{Words, split_command}
use luma_osjang.CommandLine.Commands.{command_of}
use luma_osjang.Common.{
  List, [], ◌∷◌, update, ℕ, ◌+◌, ◌-◌, ◌≤◌, ◌≡◌, refl, some, arith, true, ◌==◌, if◌then◌else◌,
}
use luma_osjang.Common.Bytes.{Bytes}
use luma_osjang.Common.Int.{negsuc}
use luma_osjang.Libc.Compare.{IsString}
use luma_osjang.CommandLine.{string_to_int, int_to_string, digits_of}
use luma_osjang.CommandLine.Numbers.{magnitude, string_to_int-int_to_string}
use luma_osjang.CommandLine.Splitting.{IsLine}
use luma_osjang.CommandLine.Commands.{process_command, handle_cp, process_command-two}

string_to_int-int_to_string_example :
    (text : Bytes) × (int_to_string (λ _. 7) (λ _. 0) (negsuc 41) 5 ≡ some text)
    × (string_to_int (12 + 0) text 5 ≡ some (negsuc 41))
    × ((digits_of (magnitude (negsuc 41)) (magnitude (negsuc 41)) (λ _. 7) 0).0 ≤ 10)
string_to_int-int_to_string_example =
    string_to_int-int_to_string (λ _. 7) (λ _. 0) (negsuc 41) 5 0 (omega arith)

-- 23:59:07
abbrev registers : ℕ → ℕ
registers r = if r == 4 then 0x23 else if r == 2 then 0x59 else 0x07

-- "cp  a b"
abbrev cp_line : Bytes
cp_line i =
    if i == 0
    then b'c'
    else if i == 1
    then b'p'
    else if i == 4
    then b'a'
    else if i == 6
    then b'b'
    else if i == 7
    then 0
    else b' '

cp_line-IsLine : IsLine cp_line 0 7 2 2 1 4 1 5 0 6
cp_line-IsLine = record {
  line = record { chars = λ i lt e. ground arith; end = refl };
  places = (refl, refl, refl, refl, omega arith, omega arith);
  command = λ j hj e. ground arith;
  first_space = refl;
  first_gap = λ j hj. ground arith;
  first = λ j hj e. ground arith;
  second_space = refl;
  second_gap = λ j hj. absurd (omega arith);
  second = λ e. omega (arith, e);
}

process_command-two_example :
    (m' : Bytes) × IsString m' 4 1
    × IsString m' 6 (0 + 7 - 6)
    × (process_command 8 cp_line 0 ≡ some (handle_cp 4 6, m'))
process_command-two_example =
    process_command-two true cp_line 0 7 2 1 4 1 5 0 6 8 cp_line-IsLine refl refl (omega arith)

abbrev blank : Screen
blank = record { cells = λ _. 0; ports = [] }

-- "ls" and Enter behind a prompt of ten characters.
abbrev keys : List ℕ
keys = b'l' ∷ b's' ∷ b'\n' ∷ []

abbrev typed_ls : Line
typed_ls =
    let l = edit 0 10 b's' (edit 0 10 b'l' (new_line 3 10 blank)) in
    record l {
      buffer = update l.buffer l.buffer_pos 0;
      current_output_row = l.current_output_row + 1;
    }

keys_entered : read_line 0 10 keys (new_line 3 10 blank) ≡ entered typed_ls []
unfolding read_line
keys_entered = refl

process_command-entered_example :
    IsString typed_ls.buffer 0 typed_ls.buffer_pos
    × ((w : Words) × (split_command 128 typed_ls.buffer 0 ≡ some w)
        × (process_command 128 typed_ls.buffer 0 ≡ some (command_of w 0, w.memory)))
process_command-entered_example =
    process_command-entered 0 10 3 10 blank keys [] typed_ls keys_entered

read_line_typed_example :
    (l : Line) × (read_line 0 10 keys (new_line 3 10 blank) ≡ entered l [])
    × (l.buffer_pos ≡ 2)
    × Spells l.buffer 0 (b'l' ∷ b's' ∷ [])
read_line_typed_example =
    read_line_typed 0 10 3 10 blank (b'l' ∷ b's' ∷ []) []
      (omega arith, omega arith, (omega arith, omega arith, refl)) (omega arith)
