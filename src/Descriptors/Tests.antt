-- ===== src/Descriptors/Tests.antt =====
-- A witness for the interrupt gates.
use luma_osjang.Common.{ℕ, ◌+◌, ◌*◌, ◌≤◌, ◌<◌, ◌≡◌, ◌⊎◌, ◌==◌, if◌then◌else◌, arith}
use luma_osjang.Descriptors.{IdtGate, initialize_idt, gdt_kernel_code_segment_selector}
use luma_osjang.Descriptors.Gates.{handler_of, ring_of, IsInterruptGate, initialize_idt_lem}

abbrev empty_table : ℕ → IdtGate
empty_table k = record { offset_low = 0; segment = 0; reserved = 0; type_attr = 0; offset_high = 0 }

-- Stubs of 16 bytes each, in the upper half.
abbrev stubs : ℕ → ℕ
stubs k = 0xC0101230 + k * 16

initialize_idt_lem_example :
    let g = initialize_idt stubs empty_table 0x30 in
    ((0x30 < 64)
      × (handler_of g ≡ stubs 0x30)
      × (g.segment ≡ gdt_kernel_code_segment_selector)
      × (ring_of g ≡ (if 0x30 == 0x30 then 3 else 0))
      × IsInterruptGate g)
    ⊎ ((64 ≤ 0x30) × (g ≡ empty_table 0x30))
initialize_idt_lem_example = initialize_idt_lem stubs empty_table 0x30 (omega arith)
