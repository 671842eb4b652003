-- ===== src/Libc.antt =====
-- The string and memory routines of the kernel (src/string.c) and of the shell
-- (src/stdlib/string.c). Memory is a function of the address; a loop over a string runs for the
-- rounds it is given, `none` standing for a string without a terminator among them.
pub mod Kernel
pub mod Shell
pub mod Moves
pub mod Compare
pub mod Strings
pub mod Padding
mod Tests
use luma_osjang.Common.{ℕ, zero, suc, ◌-◌, leb, if◌then◌else◌}
use luma_osjang.Common.Int.{ℤ, pos, negsuc}

-- `a - b` of two bytes as an `int`
unfoldable pub difference : ℕ → ℕ → ℤ
difference a b = if leb b a then pos (a - b) else negsuc (b - a - 1)
