-- ===== src/Keyboard/Modifiers.antt =====
-- keyboard.c: shift, caps lock and the choice of the character.
use luma_osjang.Common.{
  ℕ, ◌<◌, ◌≡◌, refl, Bool, true, false, not, ◌&&◌, ◌||◌, ltb, leb, ◌==◌, if◌then◌else◌, bit_and,
  bit_or, bit_xor, arith, all_below, all_below_sound,
}
use luma_osjang.Keyboard.{KeyboardState, keyboard_isr, key_ascii, shift_pressed, caps_lock_active}

-- The scancodes of the 26 letter keys.
abbrev pub is_letter_key : ℕ → Bool
is_letter_key k = (leb 16 k && leb k 25) || ((leb 30 k && leb k 38) || (leb 44 k && leb k 50))

abbrev pub is_upper : ℕ → Bool
is_upper c = leb b'A' c && leb c b'Z'

abbrev pub is_lower : ℕ → Bool
is_lower c = leb b'a' c && leb c b'z'

abbrev pub shifted : ℕ → Bool
shifted key_state = not (bit_and key_state shift_pressed == 0)

abbrev pub capital : ℕ → Bool
capital key_state = shifted key_state || not (bit_and key_state caps_lock_active == 0)

same : Bool → Bool → Bool
same true b = b
same false b = not b

letter_table :
    all_below 4 (λ m. all_below 128 (λ k.
      not (is_letter_key k)
      || (if capital m then is_upper (key_ascii m k) else is_lower (key_ascii m k))))
    ≡ true
unfolding all_below key_ascii
letter_table = refl

-- With only the two modifier bits in use, a letter key gives a capital exactly when shift is held
-- or caps lock is on, and else the small letter.
pub key_ascii-letter :
    (key_state scancode : ℕ)
    → key_state < 4
    → scancode < 128
    → is_letter_key scancode ≡ true
    → (is_upper (key_ascii key_state scancode) ≡ capital key_state)
      × (is_lower (key_ascii key_state scancode) ≡ not (capital key_state))
key_ascii-letter m k hm hk h =
    let t = all_below_sound 128 _ k (all_below_sound 4 _ m letter_table hm) hk in
    (ground (arith, t), ground (arith, t))

digit_table :
    all_below 128 (λ k.
      is_letter_key k || ((key_ascii 2 k == key_ascii 0 k) && (key_ascii 3 k == key_ascii 1 k)))
    ≡ true
unfolding all_below key_ascii
digit_table = refl

ascii_table : all_below 4 (λ m. all_below 256 (λ k. ltb (key_ascii m k) 128)) ≡ true
unfolding all_below key_ascii
ascii_table = refl

release_table : all_below 4 (λ m. all_below 256 (λ k. ltb k 128 || (key_ascii m k == 0))) ≡ true
unfolding all_below key_ascii
release_table = refl

pub key_ascii-lt :
    (key_state scancode : ℕ) → key_state < 4 → scancode < 256 → key_ascii key_state scancode < 128
key_ascii-lt m k hm hk =
    ground (arith, all_below_sound 256 _ k (all_below_sound 4 _ m ascii_table hm) hk)

caps_table :
    all_below 4 (λ m.
      all_below 256
        (λ k. is_letter_key k || (key_ascii m k == key_ascii (bit_xor m caps_lock_active) k)))
    ≡ true
unfolding all_below key_ascii
caps_table = refl

-- With only the two modifier bits in use, caps lock makes no difference to a scancode of one byte
-- that is not a letter key's.
pub key_ascii-caps :
    (key_state scancode : ℕ)
    → key_state < 4
    → scancode < 256
    → is_letter_key scancode ≡ false
    → key_ascii key_state scancode ≡ key_ascii (bit_xor key_state caps_lock_active) scancode
key_ascii-caps m k hm hk h =
    ground (arith, all_below_sound 256 _ k (all_below_sound 4 _ m caps_table hm) hk)

-- The keys that change a modifier give no character, and neither does a key's release.
silent_table :
    all_below 4
      (λ m. (key_ascii m 0x2a == 0) && ((key_ascii m 0x36 == 0) && (key_ascii m 0x3a == 0)))
    ≡ true
unfolding all_below key_ascii
silent_table = refl

pub key_ascii-modifier :
    (m : ℕ) → m < 4 → (key_ascii m 0x2a ≡ 0) × (key_ascii m 0x36 ≡ 0) × (key_ascii m 0x3a ≡ 0)
key_ascii-modifier m h = ground (arith, all_below_sound 4 _ m silent_table h)

abbrev pub caps : ℕ → Bool
caps key_state = not (bit_and key_state caps_lock_active == 0)

modifier_table :
    all_below 4 (λ m.
      (ltb (bit_or m 1) 4 && (ltb (bit_and m 0xfe) 4 && ltb (bit_xor m 2) 4))
      && ((shifted (bit_or m 1) && same (caps (bit_or m 1)) (caps m))
          && ((not (shifted (bit_and m 0xfe)) && same (caps (bit_and m 0xfe)) (caps m))
              && (same (shifted (bit_xor m 2)) (shifted m)
                  && same (caps (bit_xor m 2)) (not (caps m))))))
    ≡ true
unfolding all_below same
modifier_table = refl

high_table : all_below 256 (λ k. same (bit_and k 0x80 == 0) (ltb k 128)) ≡ true
unfolding all_below same
high_table = refl

-- The test of the top bit tells presses from releases.
pub bit_and-high : (k : ℕ) → k < 256 → (bit_and k 0x80 == 0) ≡ ltb k 128
unfolding same
bit_and-high k h = ground (arith, all_below_sound 256 _ k high_table h)

-- While input is on and only the two modifier bits are in use, each scancode of one byte moves the
-- modifiers as a keyboard does: a shift key sets shift until either one is released, caps lock
-- turns caps over, and no other scancode changes them.
pub isr_modifiers :
    (s : KeyboardState) (scancode : ℕ)
    → s.keyboard_input_on ≡ true
    → s.key_state < 4
    → scancode < 256
    → let s' = keyboard_isr s scancode in
      (s'.key_state < 4)
      × (shifted s'.key_state ≡ (
          if (scancode == 0x2a) || (scancode == 0x36)
          then true
          else if (scancode == 0xaa) || (scancode == 0xb6)
          then false
          else shifted s.key_state))
      × (caps s'.key_state
          ≡ (if scancode == 0x3a then not (caps s.key_state) else caps s.key_state))
unfolding keyboard_isr same
isr_modifiers s k on hm hk =
    ground (arith, bit_and-high k hk, all_below_sound 4 _ s.key_state modifier_table hm)
