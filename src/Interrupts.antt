-- ===== src/Interrupts.antt =====
-- interrupt.c: the interrupt controllers and the handler of all vectors, as what they do in order.
-- The stubs that call it and the return from the interrupt are assembly.
pub mod Order
mod Tests
use luma_osjang.Common.{
  ℕ, ◌+◌, ◌-◌, ◌/◌, ◌%◌, ◌^◌, Bool, ◌&&◌, List, [], ◌∷◌, ◌++◌, ltb, leb, ◌==◌, if◌then◌else◌,
  bit_and, bit_or,
}

-- An action: a byte sent to a port, one of the two handlers run, a character written on the screen
-- at a row and column, or a loop without end.
pub data Action : Type 0 where
  out : ℕ → ℕ → Action
  keyboard_isr : Action
  syscall : Action
  framebuffer_write : ℕ → ℕ → ℕ → Action
  forever : Action

unfoldable pub io_wait : List Action
io_wait = out 0x80 0 ∷ []

unfoldable pub pic_ack : ℕ → List Action
pic_ack irq = if leb 8 irq then out 0xA0 0x20 ∷ out 0x20 0x20 ∷ [] else out 0x20 0x20 ∷ []

unfoldable pub pic_remap : List Action
unfolding io_wait
pic_remap =
    (out 0x20 0x11 ∷ io_wait)
    ++ (out 0xA0 0x11 ∷ io_wait)
    ++ (out 0x21 0x20 ∷ io_wait)
    ++ (out 0xA1 0x28 ∷ io_wait)
    ++ (out 0x21 4 ∷ io_wait)
    ++ (out 0xA1 2 ∷ io_wait)
    ++ (out 0x21 1 ∷ io_wait)
    ++ (out 0xA1 1 ∷ io_wait)
    ++ (out 0x21 0xFF ∷ out 0xA1 0xFF ∷ [])

-- The digit of 4 bits of the address, on its row; the bits of the codes from 10 on run into the
-- characters behind '9'.
abbrev pub address_digit : ℕ → ℕ → ℕ → Action
address_digit cr2 row shift = framebuffer_write row 0 (cr2 / 2 ^ shift % 16 + b'0')

unfoldable pub page_fault : ℕ → List Action
page_fault cr2 =
    framebuffer_write 5 0 b'F'
    ∷ address_digit cr2 6 24
    ∷ address_digit cr2 7 20
    ∷ address_digit cr2 8 16
    ∷ address_digit cr2 9 12
    ∷ address_digit cr2 10 8
    ∷ address_digit cr2 11 4
    ∷ address_digit cr2 12 0
    ∷ forever
    ∷ []

-- `switch (int_num)`, where `cr2` is what the register holds.
unfoldable pub run_vector : ℕ → ℕ → List Action
unfolding page_fault
run_vector cr2 int_num =
    if int_num == 0
    then []
    else if int_num == 0x21
    then keyboard_isr ∷ []
    else if int_num == 0x30
    then syscall ∷ []
    else if int_num == 0x0E
    then page_fault cr2
    else if int_num == 0x0D
    then framebuffer_write 6 0 b'G' ∷ forever ∷ []
    else []

-- `while (1);` ends what is done.
unfoldable pub then_do : List Action → List Action → List Action
then_do [] next = next
then_do (forever ∷ xs) next = forever ∷ []
then_do (out port byte ∷ xs) next = out port byte ∷ then_do xs next
then_do (keyboard_isr ∷ xs) next = keyboard_isr ∷ then_do xs next
then_do (syscall ∷ xs) next = syscall ∷ then_do xs next
then_do (framebuffer_write row col c ∷ xs) next = framebuffer_write row col c ∷ then_do xs next

unfoldable pub main_interrupt_handler : ℕ → ℕ → List Action
unfolding run_vector then_do pic_ack
main_interrupt_handler cr2 int_num =
    then_do (run_vector cr2 int_num)
      (if leb 0x20 int_num && leb int_num 0x2F then pic_ack (int_num - 0x20) else [])

-- `mask` is what `in` reads; the enabled line's bit is cleared.
unfoldable pub activate_keyboard_interrupt : ℕ → List Action
activate_keyboard_interrupt mask = out 0x21 (bit_and mask 0xFD) ∷ []
