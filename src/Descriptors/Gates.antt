-- ===== src/Descriptors/Gates.antt =====
-- idt.c: what the processor reads from the gates.
use luma_osjang.Common.{
  ℕ, zero, suc, ◌+◌, ◌*◌, ◌/◌, ◌%◌, ◌^◌, ◌≤◌, ◌<◌, ◌≡◌, refl, ap, ◌∙◌, ltb, leb, ◌==◌, ◌&&◌,
  if◌then◌else◌, arith, Bool-cases, ltb→lt, ◌⊎◌, inl, inr, true, false,
}
use luma_osjang.Descriptors.{
  IdtGate, set_interrupt_gate, set_gates, initialize_idt, gdt_kernel_code_segment_selector,
}

-- The handler's address, and the least privileged ring that may call the gate.
abbrev pub handler_of : IdtGate → ℕ
handler_of g = g.offset_low + g.offset_high * 65536

abbrev pub ring_of : IdtGate → ℕ
ring_of g = g.type_attr / 32 % 4

-- The gate is present, and of the type of a 32-bit interrupt gate.
abbrev pub IsInterruptGate : IdtGate → Type 0
IsInterruptGate g = (g.type_attr / 128 ≡ 1) × (g.type_attr % 32 ≡ 0x0E) × (g.reserved ≡ 0)

-- The gate that `set_interrupt_gate` stores.
abbrev gate : ℕ → ℕ → ℕ → IdtGate
gate handler selector dpl =
    set_interrupt_gate
      (λ _. record { offset_low = 0; segment = 0; reserved = 0; type_attr = 0; offset_high = 0 }) 0
      handler selector dpl 0

set_gate :
    (table : ℕ → IdtGate) (v handler selector dpl k : ℕ)
    → set_interrupt_gate table v handler selector dpl k
      ≡ (if v == k then gate handler selector dpl else table k)
unfolding set_interrupt_gate
set_gate table v handler selector dpl k = refl

set_gates_lem :
    (stubs : ℕ → ℕ) (n i : ℕ) (table : ℕ → IdtGate) (k : ℕ)
    → set_gates stubs n i table k ≡ (
        if leb i k && ltb k (i + n)
        then gate (stubs k) gdt_kernel_code_segment_selector 0
        else table k)
unfolding set_gates
set_gates_lem stubs zero i table k =
    let o : (leb i k && ltb k (i + 0)) ≡ false = ground arith in rw o refl
set_gates_lem stubs (suc n) i table k =
    let one = set_interrupt_gate table i (stubs i) gdt_kernel_code_segment_selector 0 in
    set_gates_lem stubs n (i + 1) one k ∙ elim (Bool-cases (i == k)) [
      | inl q ↦
          let e : i ≡ k = ground arith in
          let a : (leb (i + 1) k && ltb k (i + 1 + n)) ≡ false = ground (arith, e) in
          let b : (leb i k && ltb k (i + suc n)) ≡ true = ground (arith, e) in
          rw (a, b)
            (set_gate table i (stubs i) gdt_kernel_code_segment_selector 0 k ∙ rw (q, e) refl)
      | inr q ↦
          let same : (leb (i + 1) k && ltb k (i + 1 + n)) ≡ (leb i k && ltb k (i + suc n)) =
            ground arith in
          rw (same, set_gate table i (stubs i) gdt_kernel_code_segment_selector 0 k, q) refl
    ]

gate-handler_of : (h s d : ℕ) → h < 2 ^ 32 → handler_of (gate h s d) ≡ h
unfolding set_interrupt_gate
gate-handler_of h s d lt = omega arith

gate-IsInterruptGate : (h s : ℕ) → IsInterruptGate (gate h s 0) × IsInterruptGate (gate h s 3)
unfolding set_interrupt_gate
gate-IsInterruptGate h s = ((refl, refl, refl), (refl, refl, refl))

gate_rings : (h s : ℕ) → (ring_of (gate h s 0) ≡ 0) × (ring_of (gate h s 3) ≡ 3)
unfolding set_interrupt_gate
gate_rings h s = (refl, refl)

gate_segment : (h s d : ℕ) → (gate h s d).segment ≡ s
unfolding set_interrupt_gate
gate_segment h s d = refl

system_call_gate :
    (stubs : ℕ → ℕ) (table : ℕ → IdtGate) (k : ℕ)
    → (0x30 == k) ≡ true
    → initialize_idt stubs table k ≡ gate (stubs k) gdt_kernel_code_segment_selector 3
unfolding initialize_idt
system_call_gate stubs table k q =
    let e : 0x30 ≡ k = ground (arith, q) in
    set_gate (set_gates stubs 64 0 table) 0x30 (stubs 0x30) gdt_kernel_code_segment_selector 3 k
    ∙ rw q (ap (λ x. gate (stubs x) gdt_kernel_code_segment_selector 3) e)

set_outside :
    (table : ℕ → IdtGate) (v handler selector dpl k : ℕ)
    → (v == k) ≡ false
    → set_interrupt_gate table v handler selector dpl k ≡ table k
set_outside table v handler selector dpl k q = set_gate table v handler selector dpl k ∙ rw q refl

set_gates_inside :
    (stubs : ℕ → ℕ) (n : ℕ) (table : ℕ → IdtGate) (k : ℕ)
    → k < n
    → set_gates stubs n 0 table k ≡ gate (stubs k) gdt_kernel_code_segment_selector 0
set_gates_inside stubs n table k lt =
    let b : (leb 0 k && ltb k (0 + n)) ≡ true = ground arith in
    set_gates_lem stubs n 0 table k ∙ rw b refl

set_gates_outside :
    (stubs : ℕ → ℕ) (n : ℕ) (table : ℕ → IdtGate) (k : ℕ)
    → n ≤ k
    → set_gates stubs n 0 table k ≡ table k
set_gates_outside stubs n table k le =
    let b : (leb 0 k && ltb k (0 + n)) ≡ false = ground arith in
    set_gates_lem stubs n 0 table k ∙ rw b refl

other_gate :
    (stubs : ℕ → ℕ) (table : ℕ → IdtGate) (k : ℕ)
    → (0x30 == k) ≡ false
    → k < 64
    → initialize_idt stubs table k ≡ gate (stubs k) gdt_kernel_code_segment_selector 0
unfolding initialize_idt
other_gate stubs table k q lt =
    set_outside (set_gates stubs 64 0 table) 0x30 (stubs 0x30) gdt_kernel_code_segment_selector 3 k
      q
    ∙ set_gates_inside stubs 64 table k lt

no_gate :
    (stubs : ℕ → ℕ) (table : ℕ → IdtGate) (k : ℕ) → 64 ≤ k → initialize_idt stubs table k ≡ table k
unfolding initialize_idt
no_gate stubs table k ge =
    let q : (0x30 == k) ≡ false = ground arith in
    set_outside (set_gates stubs 64 0 table) 0x30 (stubs 0x30) gdt_kernel_code_segment_selector 3 k
      q
    ∙ set_gates_outside stubs 64 table k ge

-- After `initialize_idt` the first 64 gates lead to the stubs of their vectors, whose addresses are
-- 32 bits wide, in the kernel's code segment, as interrupt gates that are present; user code may call the gate 0x30 of the system calls
-- and no other of them; the gates behind the 64 are as they were.
pub initialize_idt_lem :
    (stubs : ℕ → ℕ) (table : ℕ → IdtGate) (k : ℕ)
    → stubs k < 2 ^ 32
    → let g = initialize_idt stubs table k in
      ((k < 64)
        × (handler_of g ≡ stubs k)
        × (g.segment ≡ gdt_kernel_code_segment_selector)
        × (ring_of g ≡ (if 0x30 == k then 3 else 0))
        × IsInterruptGate g)
      ⊎ ((64 ≤ k) × (g ≡ table k))
initialize_idt_lem stubs table k h = elim (Bool-cases (ltb k 64)) [
  | inr ge ↦ inr (ground arith, no_gate stubs table k (ground arith))
  | inl lt ↦ elim (Bool-cases (0x30 == k)) [
    | inl q ↦
        let e = system_call_gate stubs table k q in
        rw (e, q)
          (inl (
            ltb→lt k 64 lt,
            gate-handler_of (stubs k) gdt_kernel_code_segment_selector 3 h,
            gate_segment (stubs k) gdt_kernel_code_segment_selector 3,
            (gate_rings (stubs k) gdt_kernel_code_segment_selector).1,
            (gate-IsInterruptGate (stubs k) gdt_kernel_code_segment_selector).1,
          ))
    | inr q ↦
        let e = other_gate stubs table k q (ltb→lt k 64 lt) in
        rw (e, q)
          (inl (
            ltb→lt k 64 lt,
            gate-handler_of (stubs k) gdt_kernel_code_segment_selector 0 h,
            gate_segment (stubs k) gdt_kernel_code_segment_selector 0,
            (gate_rings (stubs k) gdt_kernel_code_segment_selector).0,
            (gate-IsInterruptGate (stubs k) gdt_kernel_code_segment_selector).0,
          ))
  ]
]
