-- ===== src/Libc/Tests.antt =====
-- Witnesses for the string and memory routines.
use luma_osjang.Common.{ℕ, ◌%◌, ◌≡◌, inr, refl, some, arith, ◌==◌, if◌then◌else◌}
use luma_osjang.Common.Bytes.{Bytes, copy_bytes, fill_bytes}
use luma_osjang.Libc.Kernel
use luma_osjang.Libc.Shell
use luma_osjang.Libc.Moves.{moves_agree}
use luma_osjang.Libc.Compare.{IsString}
use luma_osjang.Libc.Strings.{strings_lem}

-- "hi" from 10 on, and zeros.
abbrev hi : Bytes
hi i = if i == 10 then b'h' else if i == 11 then b'i' else 0

hi-IsString : IsString hi 10 2
hi-IsString = record { chars = λ i lt e. ground arith; end = refl }

empty-IsString : IsString hi 30 0
empty-IsString = record { chars = λ i lt e. omega arith; end = refl }

-- The two areas overlap.
moves_agree_example :
    ((Kernel.memset hi 11 256 4 ≡ Shell.memset hi 11 256 4)
      × ((j : ℕ) → Kernel.memset hi 11 256 4 j ≡ fill_bytes hi 11 (256 % 256) 4 j))
    × ((Kernel.memmove hi 11 10 4 ≡ Shell.memmove hi 11 10 4)
        × ((j : ℕ) → Kernel.memmove hi 11 10 4 j ≡ copy_bytes hi 11 hi 10 4 j))
    × (Kernel.memcpy hi 11 10 4 ≡ Shell.memcpy hi 11 10 4)
moves_agree_example = moves_agree hi 11 10 256 4

strings_lem_example :
    let copy : Bytes = Kernel.memcpy hi 20 10 3 in
    ((Kernel.strlen 8 hi 10 ≡ some 2) × (Shell.strlen 8 hi 10 ≡ some 2))
    × ((Kernel.strcpy 8 hi 20 10 ≡ some copy) × (Shell.strcpy 8 hi 20 10 ≡ some copy))
    × ((Kernel.sprintf 8 hi 20 10 ≡ some (2, copy)) × (Shell.sprintf 8 hi 20 10 ≡ some (2, copy)))
    × (Shell.strcat 8 hi 30 10 ≡ some (Kernel.memcpy hi 30 10 3))
strings_lem_example =
    strings_lem hi 20 10 30 0 2 8 hi-IsString empty-IsString (inr (omega arith)) (inr (omega arith))
      (omega arith) (omega arith)
