-- ===== src/Interrupts/Order.antt =====
-- interrupt.c: when the controllers are told that an interrupt is over.
use luma_osjang.Common.{ℕ, Bool, true, false, ◌&&◌, ◌||◌, List, [], ◌∷◌, leb, ◌==◌, if◌then◌else◌}
use luma_osjang.Interrupts.{Action, out, keyboard_isr, syscall, framebuffer_write, forever}

-- The commands sent to the controllers, in order.
unfoldable pub acknowledged : List Action → List (ℕ × ℕ)
acknowledged [] = []
acknowledged (out port byte ∷ xs) =
    if (port == 0x20) || (port == 0xA0) then (port, byte) ∷ acknowledged xs else acknowledged xs
acknowledged (keyboard_isr ∷ xs) = acknowledged xs
acknowledged (syscall ∷ xs) = acknowledged xs
acknowledged (framebuffer_write row col c ∷ xs) = acknowledged xs
acknowledged (forever ∷ xs) = acknowledged xs

-- Whether a loop without end is reached.
unfoldable pub hangs : List Action → Bool
hangs [] = false
hangs (forever ∷ xs) = true
hangs (out port byte ∷ xs) = hangs xs
hangs (keyboard_isr ∷ xs) = hangs xs
hangs (syscall ∷ xs) = hangs xs
hangs (framebuffer_write row col c ∷ xs) = hangs xs

-- What the controllers expect at the end of a vector: lines 0 to 7 are the first one's, and the
-- second one's pass through it.
unfoldable pub expected : ℕ → List (ℕ × ℕ)
expected int_num =
    if leb 0x20 int_num && leb int_num 0x27
    then (0x20, 0x20) ∷ []
    else if leb 0x28 int_num && leb int_num 0x2F
    then (0xA0, 0x20) ∷ (0x20, 0x20) ∷ []
    else []
