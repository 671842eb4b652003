-- ===== src/Keyboard/Buffer.antt =====
-- keyboard.c: the buffer against a bounded stack of characters, the latest on top.
use luma_osjang.Common.{
  ℕ, zero, suc, ◌+◌, ◌-◌, ◌≤◌, ◌<◌, ◌≡◌, refl, ◌∙◌, ap, ◌≢◌, true, not, ◌&&◌, ltb, ◌==◌,
  if◌then◌else◌, update, arith, length, List, [], ◌∷◌, Bool-cases, inl, inr, ◌⊎◌,
}
use native.Mathlib.Numerals.{add-one}
use luma_osjang.Keyboard.{
  KeyboardState, keyboard_isr, key_ascii, get_keyboard_buffer, keyboard_state_activate, store_ascii,
}
use luma_osjang.Keyboard.Modifiers.{bit_and-high, key_ascii-modifier, isr_modifiers}

-- The first `n` cells of the buffer, the last one first.
abbrev pub stack : (ℕ → ℕ) → ℕ → List ℕ
stack buf zero = []
stack buf (suc n) = buf n ∷ stack buf n

abbrev pub contents : KeyboardState → List ℕ
contents s = stack s.keyboard_buffer s.buffer_index

-- The index fits its byte and leaves the last cell free, the cells below it hold characters, and
-- only the two modifier bits are in use.
pub record IsValid (s : KeyboardState) : Type 0 where
  pub room : s.buffer_index ≤ 255
  pub full_cells : (i : ℕ) → i < s.buffer_index → s.keyboard_buffer i ≢ 0
  pub modifiers : s.key_state < 4

stack-update : (buf : ℕ → ℕ) (n i v : ℕ) → n ≤ i → stack (update buf i v) n ≡ stack buf n
stack-update buf zero i v h = refl
stack-update buf (suc n) i v h = ground (arith, stack-update buf n i v)

length-stack : (buf : ℕ → ℕ) (n : ℕ) → length (stack buf n) ≡ n
length-stack buf zero = refl
length-stack buf (suc n) = ap suc (length-stack buf n)

pub isr-IsValid :
    (s : KeyboardState) (scancode : ℕ)
    → scancode < 256
    → IsValid s
    → IsValid (keyboard_isr s scancode)
unfolding keyboard_isr
isr-IsValid s k hk v = record {
  room = ground (arith, v);
  full_cells = λ i hi. ground (arith, v, v.full_cells i);
  modifiers = elim (Bool-cases s.keyboard_input_on) [
    | inl on ↦ (isr_modifiers s k on v.modifiers hk).0
    | inr off ↦ ground (arith, v)
  ];
}

-- The character that a scancode types in a state: none while input is off, for a release, and for
-- a key without one.
abbrev pub typed : KeyboardState → ℕ → ℕ
typed s scancode =
    if s.keyboard_input_on && ltb scancode 128 then key_ascii s.key_state scancode else 0

stack_store : (buf : ℕ → ℕ) (n c : ℕ) → stack (update buf n c) (n + 1) ≡ c ∷ stack buf n
stack_store buf n c = rw add-one (ground (arith, stack-update buf n n c))

contents-store_ascii :
    (s : KeyboardState) (c : ℕ)
    → contents (store_ascii s c)
      ≡ (if not (c == 0) && ltb (length (contents s)) 255 then c ∷ contents s else contents s)
contents-store_ascii s c = ground (
  arith,
  stack_store s.keyboard_buffer s.buffer_index c,
  length-stack s.keyboard_buffer s.buffer_index,
)

isr-store_ascii :
    (s : KeyboardState) (k : ℕ)
    → k < 256
    → IsValid s
    → contents (keyboard_isr s k) ≡ contents (store_ascii s (typed s k))
unfolding keyboard_isr
isr-store_ascii s k hk v =
    ground (arith, bit_and-high k hk, key_ascii-modifier s.key_state v.modifiers)

-- In a valid state and for a scancode of one byte, the interrupt routine keeps the invariant and
-- pushes the typed character, if there is one and the stack has fewer than 255.
pub isr_refines :
    (s : KeyboardState) (scancode : ℕ)
    → scancode < 256
    → IsValid s
    → IsValid (keyboard_isr s scancode)
      × (contents (keyboard_isr s scancode) ≡ (
          if not (typed s scancode == 0) && ltb (length (contents s)) 255
          then typed s scancode ∷ contents s
          else contents s))
isr_refines s k hk v =
    (isr-IsValid s k hk v, isr-store_ascii s k hk v ∙ contents-store_ascii s (typed s k))

-- The read pops the latest character; 0 stands for the empty stack and for nothing else.
abbrev pub Popped : KeyboardState → ℕ × KeyboardState → Type 0
Popped s (c, s') =
    ((contents s ≡ []) × (c ≡ 0) × (s' ≡ s))
    ⊎ ((c ≢ 0) × (contents s ≡ c ∷ contents s') × (s'.keyboard_input_on ≡ s.keyboard_input_on))

pop_cases :
    (s : KeyboardState) (n : ℕ) → s.buffer_index ≡ n → IsValid s → Popped s (get_keyboard_buffer s)
unfolding get_keyboard_buffer
pop_cases s zero e v = ground arith
pop_cases s (suc n) e v =
    let k : s.buffer_index - 1 ≡ n = omega arith in
    inr (
      ground (arith, v.full_cells n (omega arith), k),
      ground (arith, k, e, stack-update s.keyboard_buffer n n 0),
      ground (arith, k),
    )

get-IsValid : (s : KeyboardState) → IsValid s → IsValid (get_keyboard_buffer s).1
unfolding get_keyboard_buffer
get-IsValid s v = record {
  room = ground (arith, v);
  full_cells = λ i hi. ground (arith, v, v.full_cells i);
  modifiers = ground (arith, v);
}

-- In a valid state the read keeps the invariant and pops the latest character. It gives 0 exactly
-- when the stack is empty, and then changes nothing.
pub get_refines :
    (s : KeyboardState)
    → IsValid s
    → IsValid (get_keyboard_buffer s).1 × Popped s (get_keyboard_buffer s)
get_refines s v = (get-IsValid s v, pop_cases s s.buffer_index refl v)

pub activate-IsValid :
    (s : KeyboardState)
    → IsValid (keyboard_state_activate s)
      × (contents (keyboard_state_activate s) ≡ [])
      × ((keyboard_state_activate s).keyboard_input_on ≡ true)
unfolding keyboard_state_activate
activate-IsValid s = (
  record { room = omega arith; full_cells = λ i hi. absurd (omega arith); modifiers = omega arith },
  refl,
  refl,
)
