-- ===== src/Speaker.antt =====
-- speaker.c: the bytes that go to the timer's channel 2 and to the speaker's gate, in order; `state`
-- is what `in` reads from the port 0x61.

mod Tests
use luma_osjang.Common.{
  ℕ, zero, suc, ◌+◌, ◌*◌, ◌/◌, ◌%◌, ◌^◌, ◌≤◌, ◌<◌, ◌≡◌, refl, Bool, true, false, List, [], ◌∷◌,
  ◌==◌, if◌then◌else◌, bit_and, bit_or, arith, Bool-cases, inl, inr,
}
use native.Mathlib.Omega.{div_any}
use native.Mathlib.Nat.{mod-lt, mul-le-mul_right}
use luma_osjang.Interrupts.{Action, out}

unfoldable pub speaker_stop : ℕ → List Action
speaker_stop state = out 0x61 (bit_and state 0xFC) ∷ []

unfoldable pub speaker_init : ℕ → List Action
speaker_init state = out 0x61 (bit_and state 0xFC) ∷ []

unfoldable pub speaker_play : ℕ → ℕ → List Action
unfolding speaker_stop
speaker_play state frequency =
    let divisor = 1193180 / frequency in
    if frequency == 0
    then speaker_stop state
    else out 0x43 0xB6
      ∷ out 0x42 (divisor % 256)
      ∷ out 0x42 (divisor / 256 % 256)
      ∷ out 0x61 (bit_or state 3)
      ∷ []

-- How many bytes of its count the timer's channel 2 has taken, and the count they make, the low one
-- first: the mode byte 0xB6 starts it anew, and without one there is no count of two bytes.
unfoldable pub divisor_of : List Action → ℕ × ℕ → ℕ × ℕ
divisor_of [] d = d
divisor_of (out port byte ∷ xs) (n, v) =
    if port == 0x43
    then if byte == 0xB6 then divisor_of xs (0, 0) else divisor_of xs (3, 0)
    else if port == 0x42
    then divisor_of xs (n + 1, v + byte * 256 ^ n)
    else divisor_of xs (n, v)
divisor_of (_ ∷ xs) d = divisor_of xs d

-- The 8254 counts 65536 for a programmed 0.
unfoldable pub counted : ℕ → ℕ
counted v = if v == 0 then 2 ^ 16 else v

quotient_pos : (f q r : ℕ) → f * q + r ≡ 1193180 → r < f → f ≤ 1193180 → 0 < q
quotient_pos f zero r e h u = let z : f * 0 ≡ 0 = omega arith in absurd (omega (arith, e, h, u, z))
quotient_pos f (suc q) r e h u = omega arith

quotient_lem :
    (f q r : ℕ) → f * q + r ≡ 1193180 → r < f → 19 ≤ f → (q < 2 ^ 16) × (1193180 < f * q + f)
quotient_lem f q r e h l =
    let m : 19 * q ≤ f * q = mul-le-mul_right q l in (omega (arith, m, e), omega (arith, e, h))

-- From 19 Hz to 1193180 Hz, `speaker_play` sends the mode byte of channel 2 and then two bytes, and
-- what the timer counts with them is the divisor of its 1193180 Hz: it is within 16 bits, the
-- largest whose tone is not below the frequency, and not the 65536 that a 0 stands for.
pub speaker_play_lem :
    (state frequency : ℕ)
    → 19 ≤ frequency
    → frequency ≤ 1193180
    → let (bytes, value) = divisor_of (speaker_play state frequency) (3, 0) in
      let divisor = counted value in
      (bytes ≡ 2)
      × (divisor < 2 ^ 16)
      × (frequency * divisor ≤ 1193180)
      × (1193180 < frequency * divisor + frequency)
unfolding speaker_play divisor_of counted
speaker_play_lem state frequency h u =
    let q = 1193180 / frequency in
    let r = 1193180 % frequency in
    let e : frequency * q + r ≡ 1193180 = div_any 1193180 frequency in
    let (small, above) = quotient_lem frequency q r e (mod-lt 1193180 (omega arith)) h in
    let bytes : 0 + q % 256 * 256 ^ 0 + q / 256 % 256 * 256 ^ 1 ≡ q = omega (arith, small) in
    let nz : (frequency == 0) ≡ false = ground (arith, h) in
    let some_tone : (q == 0) ≡ false =
      ground (arith, quotient_pos frequency q r e (mod-lt 1193180 (omega arith)) u) in
    rw (nz, bytes, some_tone) (refl, small, omega (arith, e), above)
