-- ===== src/Interrupts/Tests.antt =====
-- A run and a witness for the interrupt handler.
use luma_osjang.Common.{◌≡◌, refl, [], ◌∷◌}
use luma_osjang.Interrupts.{out, keyboard_isr, main_interrupt_handler}

keyboard_run : main_interrupt_handler 0 0x21 ≡ keyboard_isr ∷ out 0x20 0x20 ∷ []
unfolding main_interrupt_handler
keyboard_run = refl
