-- ===== src/Builtins.antt =====
-- builtin_commands.c: the state of the shell's commands and what they print. A string is the list
-- of its characters before the terminator; an array that a string outgrows is left out, but for those
-- of the paths.
pub mod Lookup
pub mod Directories
pub mod Removal
pub mod Copying
pub mod Paths
pub mod Processes
pub mod Finding
mod Tests
use Prim.Native.Char.{code}
use Prim.Native.String.{String}
use luma_osjang.Common.{
  ℕ, zero, suc, ◌+◌, ◌%◌, ◌^◌, Bool, true, false, ◌&&◌, none, List, [], ◌∷◌, ltb, leb, ◌==◌,
  if◌then◌else◌, length, take,
}
use luma_osjang.Common.Bytes.{put_name}
use luma_osjang.Ext2.Disk.{FileSystem}
use luma_osjang.Ext2.Files.{Ext2DriverRequest}
use luma_osjang.Console.{move_from}

-- `current_inode`, `current_working_directory`, `current_output_row`, the kernel's file system
-- behind the system calls, and the calls of SYS_PUTS with their rows and columns, the last first.
pub record ShellState : Type 0 where
  pub fs : FileSystem
  pub current_inode : ℕ
  pub current_working_directory : List ℕ
  pub current_output_row : ℕ
  pub printed : List (List ℕ × ℕ × ℕ)

-- The characters of a literal.
abbrev pub codes : String → List ℕ
codes String.[] = []
codes (String.◌∷◌ c s) = code c ∷ codes s

-- `strcmp(a, b) == 0`
unfoldable pub same_string : List ℕ → List ℕ → Bool
same_string [] [] = true
same_string [] (y ∷ ys) = false
same_string (x ∷ xs) [] = false
same_string (x ∷ xs) (y ∷ ys) = (x == y) && same_string xs ys

abbrev pub is_empty : List ℕ → Bool
is_empty [] = true
is_empty (c ∷ cs) = false

-- A call with `&current_output_row` and a column of the caller's.
unfoldable pub print_string : List ℕ → ShellState × ℕ → ShellState × ℕ
print_string str (s, col) =
    let (row, col') =
      move_from (length str) (put_name (λ _. 0) 0 str) 0 (s.current_output_row, col) in
    (
      record s { current_output_row = row; printed = (str, s.current_output_row, col) ∷ s.printed },
      col',
    )

-- Calls in a row that share their column.
unfoldable pub print_strings : List (List ℕ) → ShellState × ℕ → ShellState × ℕ
unfolding print_string
print_strings [] p = p
print_strings (str ∷ strs) p = print_strings strs (print_string str p)

-- `current_output_row++`
abbrev pub next_row : ShellState → ShellState
next_row s = record s { current_output_row = s.current_output_row + 1 }

-- `int b = 0;`, the calls of `print_string`, and `current_output_row++;`
unfoldable pub report : List (List ℕ) → ShellState → ShellState
unfolding print_strings
report strs s = next_row (print_strings strs (s, 0)).0

-- Such calls with the column that the caller's earlier ones have left.
unfoldable pub report_from : ℕ → List (List ℕ) → ShellState → ShellState
unfolding print_strings
report_from b strs s = next_row (print_strings strs (s, b)).0

unfoldable pub print_line : List ℕ → ShellState → ShellState
unfolding print_string
print_line str s = next_row (if ltb s.current_output_row 24 then (print_string str (s, 0)).0 else s)

-- The request that the commands build: the name is cut to the 255 characters that fit in front of
-- its terminator, the length to the 8 bits of its field.
unfoldable pub request_for : ShellState → List ℕ → Bool → Ext2DriverRequest
request_for s name is_dir = record {
  buf = none;
  name = put_name (λ _. 0) 0 (take 255 name);
  name_len = length name % 2 ^ 8;
  parent_inode = s.current_inode;
  buffer_size = 0;
  is_dir = is_dir;
}

unfoldable pub resolve_path : List ℕ → ℕ
unfolding same_string
resolve_path path =
    if same_string path (codes "/") then 2 else if same_string path (codes "..") then 2 else 9999

-- `handle_clear`, but for the screen.
unfoldable pub handle_clear : ShellState → ShellState
handle_clear s = record s { current_output_row = 0 }

-- Calls of `print_line` in a row.
unfoldable pub print_lines : List (List ℕ) → ShellState → ShellState
unfolding print_line
print_lines [] s = s
print_lines (str ∷ strs) s = print_lines strs (print_line str s)

unfoldable pub handle_help : ShellState → ShellState
unfolding print_lines
handle_help = print_lines (
    codes "LumaOS Shell - Available Commands:"
    ∷ codes "  ls                 - List directory contents"
    ∷ codes "  cd <path>          - Change directory"
    ∷ codes "  mkdir <name>       - Create directory"
    ∷ codes "  cat <file>         - Display file contents"
    ∷ codes "  cp <src> <dest>    - Copy file"
    ∷ codes "  rm <file>          - Remove file"
    ∷ codes "  mv <src> <dest>    - Move/rename file"
    ∷ codes "  find <name>        - Search for file"
    ∷ codes "  exec <file>        - Execute program"
    ∷ codes "  ps                 - List running processes"
    ∷ codes "  kill <pid>         - Terminate process by PID"
    ∷ codes "  help               - Show this help message"
    ∷ codes "  clear              - Clear the screen"
    ∷ codes "  clock              - Enable clock display"
    ∷ codes "  exit               - Exit the shell"
    ∷ codes "  beep               - Play system beep"
    ∷ codes "  stop               - Stop audio playback"
    ∷ [])
