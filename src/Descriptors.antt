-- ===== src/Descriptors.antt =====
-- idt.c and gdt.c: the interrupt gates and the descriptor of the task state segment. The addresses
-- of the stubs and of the task state are arguments.
pub mod Gates
mod Tests
use luma_osjang.Common.{ℕ, zero, suc, ◌+◌, ◌*◌, ◌/◌, ◌%◌, update, bit_or, bit_and}

-- `struct IDTGate`
pub record IdtGate : Type 0 where
  pub offset_low : ℕ
  pub segment : ℕ
  pub reserved : ℕ
  pub type_attr : ℕ
  pub offset_high : ℕ

abbrev pub isr_stub_table_limit : ℕ
isr_stub_table_limit = 64

abbrev pub gdt_kernel_code_segment_selector : ℕ
gdt_kernel_code_segment_selector = 0x8

unfoldable pub set_interrupt_gate : (ℕ → IdtGate) → ℕ → ℕ → ℕ → ℕ → ℕ → IdtGate
set_interrupt_gate table int_vector handler gdt_seg_selector dpl = update table int_vector (record {
  offset_low = handler % 65536;
  segment = gdt_seg_selector;
  reserved = 0;
  type_attr = bit_or (bit_or 0x80 (dpl * 32)) 0x0E % 256;
  offset_high = handler / 65536 % 65536;
})

-- The loop over the stubs, with `n` of them left from `i` on.
unfoldable pub set_gates : (ℕ → ℕ) → ℕ → ℕ → (ℕ → IdtGate) → ℕ → IdtGate
unfolding set_interrupt_gate
set_gates isr_stub_table zero i table = table
set_gates isr_stub_table (suc n) i table =
    set_gates isr_stub_table n (i + 1)
      (set_interrupt_gate table i (isr_stub_table i) gdt_kernel_code_segment_selector 0)

unfoldable pub initialize_idt : (ℕ → ℕ) → (ℕ → IdtGate) → ℕ → IdtGate
unfolding set_gates
initialize_idt isr_stub_table table =
    set_interrupt_gate (set_gates isr_stub_table isr_stub_table_limit 0 table) 0x30
      (isr_stub_table 0x30) gdt_kernel_code_segment_selector 3
