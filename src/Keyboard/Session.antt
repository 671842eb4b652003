-- ===== src/Keyboard/Session.antt =====
-- keyboard.c: a run of key presses followed by reads.
use mathlib.Core.List.{reverse, reverse_aux}
use luma_osjang.Common.{
  ℕ, zero, suc, ◌+◌, ◌≤◌, ◌<◌, ◌≡◌, refl, ◌∙◌, ap, ◌≢◌, true, arith, length, map, List, [], ◌∷◌,
  inl, inr,
}
use luma_osjang.Keyboard.{KeyboardState, keyboard_isr, key_ascii, get_keyboard_buffer}
use luma_osjang.Keyboard.Modifiers.{bit_and-high, key_ascii-modifier}
use luma_osjang.Keyboard.Buffer.{IsValid, contents, isr_refines, get_refines}

-- Key presses, one interrupt after the other.
unfoldable pub feed : KeyboardState → List ℕ → KeyboardState
feed s [] = s
feed s (k ∷ ks) = feed (keyboard_isr s k) ks

-- `n` reads, one after the other.
unfoldable pub drain : ℕ → KeyboardState → List ℕ
drain zero s = []
drain (suc n) s = let (c, s') = get_keyboard_buffer s in c ∷ drain n s'

drain_list :
    (s : KeyboardState) (cs : List ℕ) → IsValid s → contents s ≡ cs → drain (length cs) s ≡ cs
unfolding drain
drain_list s [] v e = refl
drain_list s (c ∷ cs) v e = elim (get_refines s v).1 [
  | inl h ↦ absurd (cc (h.0, e))
  | inr h ↦
      ground
        (arith, h, drain_list (get_keyboard_buffer s).1 cs (get_refines s v).0 (ground (arith, h)))
]

-- Presses of keys that type a character.
abbrev pub Plain : ℕ → List ℕ → Type 0
Plain m [] = Unit {0}
Plain m (k ∷ ks) = (k < 128) × (key_ascii m k ≢ 0) × Plain m ks

isr_plain :
    (s : KeyboardState) (k : ℕ)
    → IsValid s
    → k < 128
    → key_ascii s.key_state k ≢ 0
    → ((keyboard_isr s k).keyboard_input_on ≡ s.keyboard_input_on)
      × ((keyboard_isr s k).key_state ≡ s.key_state)
unfolding keyboard_isr
isr_plain s k v hk ne =
    ground (arith, bit_and-high k (omega arith), key_ascii-modifier s.key_state v.modifiers)

feed-contents :
    (s : KeyboardState) (m : ℕ) (ks : List ℕ)
    → IsValid s
    → s.keyboard_input_on ≡ true
    → s.key_state ≡ m
    → Plain m ks
    → length ks + length (contents s) ≤ 255
    → IsValid (feed s ks) × (contents (feed s ks) ≡ reverse_aux (map (key_ascii m) ks) (contents s))
unfolding feed
feed-contents s m [] v on e p h = (v, refl)
feed-contents s m (k ∷ ks) v on e (hk, ne, p) h =
    let ne' : key_ascii s.key_state k ≢ 0 = rw e ne in
    let plain = isr_plain s k v hk ne' in
    let step = isr_refines s k (omega arith) v in
    let pushed : contents (keyboard_isr s k) ≡ key_ascii m k ∷ contents s =
      ground (arith, step.1) in
    let rest =
      feed-contents (keyboard_isr s k) m ks step.0 (plain.0 ∙ on) (plain.1 ∙ e) p
        (ground (arith, pushed)) in
    (rest.0, rest.1 ∙ ap (reverse_aux (map (key_ascii m) ks)) pushed)

length-reverse_aux :
    (f : ℕ → ℕ) (xs ys : List ℕ) → length (reverse_aux (map f xs) ys) ≡ length xs + length ys
length-reverse_aux f [] ys = omega arith
length-reverse_aux f (x ∷ xs) ys = omega (arith, length-reverse_aux f xs (f x ∷ ys))

-- From a valid state with an empty buffer and input on, at most 255 presses of keys that type a
-- character under the current modifiers, followed by as many reads, give the characters in the
-- reverse order of typing.
pub drain-feed :
    (s : KeyboardState) (ks : List ℕ)
    → IsValid s
    → s.keyboard_input_on ≡ true
    → contents s ≡ []
    → Plain s.key_state ks
    → length ks ≤ 255
    → drain (length ks) (feed s ks) ≡ reverse (map (key_ascii s.key_state) ks)
drain-feed s ks v on e p h =
    let f = feed-contents s s.key_state ks v on refl p (rw e (omega arith)) in
    let g : contents (feed s ks) ≡ reverse (map (key_ascii s.key_state) ks) =
      f.1 ∙ ap (reverse_aux (map (key_ascii s.key_state) ks)) e in
    let n : length (reverse (map (key_ascii s.key_state) ks)) ≡ length ks =
      omega (arith, length-reverse_aux (key_ascii s.key_state) ks []) in
    rw n at (drain_list (feed s ks) (reverse (map (key_ascii s.key_state) ks)) f.0 g)
