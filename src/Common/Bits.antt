-- ===== src/Common/Bits.antt =====
-- Bits of a byte: `b & (1 << k)`, `b | (1 << k)` and `b & ~(1 << k)` in an uint8_t, with their laws
-- checked over every byte.
use luma_osjang.Common.Tests.{ltb, ◌==◌, if◌then◌else◌, all_below, all_below_sound}
use Prim.Native.Nat.{ℕ, ◌-◌, ◌^◌, ◌<◌, bit_and, bit_or}
use mathlib.Core.Path.{◌≡◌, refl}
use mathlib.Core.Bool.{Bool, true, false, not, ◌&&◌, ◌||◌}
use native.Mathlib.Omega.{arith}

-- `(b & (1 << k)) != 0`
unfoldable pub bit : ℕ → ℕ → Bool
bit b k = not (bit_and b (2 ^ k) == 0)

-- `b |= (1 << k)`
unfoldable pub with_bit : ℕ → ℕ → ℕ
with_bit b k = bit_or b (2 ^ k)

-- `b &= ~(1 << k)`, in the eight bits that the array keeps
unfoldable pub without_bit : ℕ → ℕ → ℕ
without_bit b k = bit_and b (255 - 2 ^ k)

same : Bool → Bool → Bool
same true b = b
same false b = not b

same→eq : (a b : Bool) → same a b ≡ true → a ≡ b
unfolding same
same→eq true b h = ground arith
same→eq false b h = ground arith

-- One property of a byte and two bit positions, at every byte.
every : (ℕ → ℕ → ℕ → Bool) → Bool
every p = all_below 8 (λ k. all_below 8 (λ j. all_below 256 (λ b. p b k j)))

every_sound :
    (p : ℕ → ℕ → ℕ → Bool) → every p ≡ true → (b k j : ℕ) → b < 256 → k < 8 → j < 8 → p b k j ≡ true
unfolding every
every_sound p h b k j hb hk hj =
    all_below_sound 256 (λ b. p b k j) b
      (all_below_sound 8 (λ j. all_below 256 (λ b. p b k j)) j
        (all_below_sound 8 (λ k. all_below 8 (λ j. all_below 256 (λ b. p b k j))) k h hk) hj)
      hb

with_table : every (λ b k j. same (bit (with_bit b k) j) (if k == j then true else bit b j)) ≡ true
unfolding every all_below same bit with_bit
with_table = refl

without_table :
    every (λ b k j. same (bit (without_bit b k) j) (if k == j then false else bit b j)) ≡ true
unfolding every all_below same bit without_bit
without_table = refl

byte_table : every (λ b k j. ltb (with_bit b k) 256 && ltb (without_bit b k) 256) ≡ true
unfolding every all_below with_bit without_bit
byte_table = refl

restore_table : every (λ b k j. bit b k || (without_bit (with_bit b k) k == b)) ≡ true
unfolding every all_below with_bit without_bit bit
restore_table = refl

module _ (b k : ℕ) (hb : b < 256) (hk : k < 8) where
  pub bit-with_bit : (j : ℕ) → j < 8 → bit (with_bit b k) j ≡ (if k == j then true else bit b j)
  bit-with_bit j hj = same→eq _ _ (every_sound _ with_table b k j hb hk hj)

  pub bit-without_bit :
      (j : ℕ) → j < 8 → bit (without_bit b k) j ≡ (if k == j then false else bit b j)
  bit-without_bit j hj = same→eq _ _ (every_sound _ without_table b k j hb hk hj)

  pub with_bit-lt : with_bit b k < 256
  with_bit-lt = ground (arith, every_sound _ byte_table b k 0 hb hk)

  pub without_bit-lt : without_bit b k < 256
  without_bit-lt = ground (arith, every_sound _ byte_table b k 0 hb hk)

  pub without_bit-with_bit : bit b k ≡ false → without_bit (with_bit b k) k ≡ b
  without_bit-with_bit h = ground (arith, every_sound _ restore_table b k 0 hb hk)
