-- ===== src/Keyboard/Tests.antt =====
-- keyboard.c: a session on the layout of the source, "H", "i" and a read.
use mathlib.Core.List.{reverse}
use luma_osjang.Common.{
  ◌<◌, ◌≡◌, refl, true, not, ◌&&◌, ltb, ◌==◌, if◌then◌else◌, [], ◌∷◌, map, length, arith,
}
use luma_osjang.Keyboard.{
  KeyboardState, keyboard_state, keyboard_state_activate, keyboard_isr, key_ascii,
}
use luma_osjang.Keyboard.Buffer.{IsValid, contents, typed, isr_refines, activate-IsValid}
use luma_osjang.Keyboard.Session.{feed, drain, Plain, drain-feed}

abbrev ready_state : KeyboardState
ready_state = keyboard_state_activate keyboard_state

ready_state-IsValid : IsValid ready_state
ready_state-IsValid = (activate-IsValid keyboard_state).0

-- Shift down, H, shift up, i.
typed_text : contents (feed ready_state (0x2a ∷ 35 ∷ 0xaa ∷ 23 ∷ [])) ≡ b'i' ∷ b'H' ∷ []
unfolding keyboard_state_activate feed keyboard_isr key_ascii
typed_text = refl

h_then_i : Plain ready_state.key_state (35 ∷ 23 ∷ [])
unfolding keyboard_state_activate key_ascii
h_then_i = ground arith

isr_refines_example :
    IsValid (keyboard_isr ready_state 35)
    × (contents (keyboard_isr ready_state 35) ≡ (
        if not (typed ready_state 35 == 0) && ltb (length (contents ready_state)) 255
        then typed ready_state 35 ∷ contents ready_state
        else contents ready_state))
isr_refines_example = isr_refines ready_state 35 (omega arith) ready_state-IsValid

-- The state after one press of h.
abbrev one_typed : KeyboardState
one_typed = keyboard_isr ready_state 35

drain-feed_example :
    drain 2 (feed ready_state (35 ∷ 23 ∷ []))
    ≡ reverse (map (key_ascii ready_state.key_state) (35 ∷ 23 ∷ []))
drain-feed_example =
    drain-feed ready_state (35 ∷ 23 ∷ []) ready_state-IsValid (activate-IsValid keyboard_state).2
      (activate-IsValid keyboard_state).1 h_then_i (omega arith)

input_on : ready_state.keyboard_input_on ≡ true
input_on = (activate-IsValid keyboard_state).2

modifiers_small : ready_state.key_state < 4
modifiers_small = ready_state-IsValid.modifiers
