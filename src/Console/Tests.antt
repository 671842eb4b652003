-- ===== src/Console/Tests.antt =====
-- Witnesses for printing on the screen.
use luma_osjang.Common.{ℕ, ◌+◌, ◌*◌, ◌≡◌, refl, some, [], arith, ◌==◌, if◌then◌else◌}
use luma_osjang.Common.Bytes.{Bytes}
use luma_osjang.Libc.Compare.{IsString}
use luma_osjang.Console.{Screen, print_str, sys_puts, move_from}
use luma_osjang.Console.Position.{shown_cursor, sys_puts-move}
use luma_osjang.Console.Bounds.{Within, printing-Within}

abbrev blank : Screen
blank = record { cells = λ _. 0x0720; ports = [] }

-- "hi" from 10 on, and zeros.
abbrev hi : Bytes
hi i = if i == 10 then b'h' else if i == 11 then b'i' else 0

hi-IsString : IsString hi 10 2
hi-IsString = record { chars = λ i lt e. ground arith; end = refl }

over_the_edge : move_from 2 hi 10 (3, 79) ≡ (4, 1)
unfolding move_from
over_the_edge = refl

sys_puts-move_example :
    let (s', row', col') = sys_puts blank hi 10 3 79 in
    let end = move_from 2 hi 10 (3, 79) in
    (shown_cursor s' ≡ end.0 * 80 + end.1) × ((row', col') ≡ end)
unfolding move_from
sys_puts-move_example =
    sys_puts-move blank hi 10 2 3 79 hi-IsString (omega arith) (omega arith) (omega arith)
      (omega arith)

printing-Within_example :
    ((s' : Screen) × (print_str 8 blank hi 10 24 79 7 ≡ some s') × Within blank s')
    × ((t : Bytes) (at : ℕ) → Within blank (sys_puts blank t at 24 79).0)
printing-Within_example =
    printing-Within blank hi 10 2 24 79 7 8 hi-IsString (omega arith) (omega arith) (omega arith)
