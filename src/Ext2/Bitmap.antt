-- ===== src/Ext2/Bitmap.antt =====
-- ext2.c: bitmap blocks as sets of numbers, and the search for a clear bit.
use luma_osjang.Common.{
  ℕ, zero, suc, ◌+◌, ◌/◌, ◌%◌, ◌≤◌, ◌<◌, ◌≡◌, true, false, none, some, ◌==◌, if◌then◌else◌, arith,
  Bool-cases, inl, inr,
}
use luma_osjang.Common.Bits.{
  bit-with_bit, bit-without_bit, with_bit-lt, without_bit-lt, without_bit-with_bit,
}
use luma_osjang.Common.Bytes.{Bytes}
use luma_osjang.Ext2.Disk.{bitmap_bit, bitmap_set, bitmap_clear, find_clear_bit}

-- Every element is a byte.
abbrev pub AreBytes : Bytes → Type 0
AreBytes buf = (i : ℕ) → buf i < 256

pub bitmap_bit-set :
    (buf : Bytes) (j k : ℕ)
    → AreBytes buf
    → bitmap_bit (bitmap_set buf j) k ≡ (if j == k then true else bitmap_bit buf k)
unfolding bitmap_bit bitmap_set
bitmap_bit-set buf j k h =
    ground
      (arith, bit-with_bit (buf (j / 8)) (j % 8) (h (j / 8)) (omega arith) (k % 8) (omega arith))

pub bitmap_bit-clear :
    (buf : Bytes) (j k : ℕ)
    → AreBytes buf
    → bitmap_bit (bitmap_clear buf j) k ≡ (if j == k then false else bitmap_bit buf k)
unfolding bitmap_bit bitmap_clear
bitmap_bit-clear buf j k h =
    ground
      (arith, bit-without_bit (buf (j / 8)) (j % 8) (h (j / 8)) (omega arith) (k % 8) (omega arith))

pub bitmap_set-AreBytes : (buf : Bytes) (j : ℕ) → AreBytes buf → AreBytes (bitmap_set buf j)
unfolding bitmap_set
bitmap_set-AreBytes buf j h i =
    ground (arith, h i, with_bit-lt (buf (j / 8)) (j % 8) (h (j / 8)) (omega arith))

pub bitmap_clear-AreBytes : (buf : Bytes) (j : ℕ) → AreBytes buf → AreBytes (bitmap_clear buf j)
unfolding bitmap_clear
bitmap_clear-AreBytes buf j h i =
    ground (arith, h i, without_bit-lt (buf (j / 8)) (j % 8) (h (j / 8)) (omega arith))

-- Clearing a bit that was just set gives the block back.
pub bitmap_clear-set :
    (buf : Bytes) (j i : ℕ)
    → AreBytes buf
    → bitmap_bit buf j ≡ false
    → bitmap_clear (bitmap_set buf j) j i ≡ buf i
unfolding bitmap_bit bitmap_set bitmap_clear
bitmap_clear-set buf j i h e =
    ground (arith, without_bit-with_bit (buf (j / 8)) (j % 8) (h (j / 8)) (omega arith) e)

pub find_clear_bit_found :
    (buf : Bytes) (n i : ℕ) {j : ℕ}
    → find_clear_bit buf n i ≡ some j
    → (i ≤ j) × (j < i + n) × (bitmap_bit buf j ≡ false)
unfolding find_clear_bit
find_clear_bit_found buf zero i e = absurd (cc)
find_clear_bit_found buf (suc n) i {j} e =
    ground (arith, find_clear_bit_found buf n (i + 1) {j = j})

pub find_clear_bit_first :
    (buf : Bytes) (n i j k : ℕ)
    → find_clear_bit buf n i ≡ some j
    → i ≤ k
    → k < j
    → bitmap_bit buf k ≡ true
unfolding find_clear_bit
find_clear_bit_first buf zero i j k e a b = absurd (cc)
find_clear_bit_first buf (suc n) i j k e a b = elim (Bool-cases (i == k)) [
  | inl q ↦ ground arith
  | inr q ↦ ground (
    arith,
    λ (f : find_clear_bit buf n (i + 1) ≡ some j) (le : i + 1 ≤ k).
        find_clear_bit_first buf n (i + 1) j k f le b,
  )
]

pub find_clear_bit-none :
    (buf : Bytes) (n i k : ℕ)
    → find_clear_bit buf n i ≡ none
    → i ≤ k
    → k < i + n
    → bitmap_bit buf k ≡ true
unfolding find_clear_bit
find_clear_bit-none buf zero i k e a b = absurd (omega arith)
find_clear_bit-none buf (suc n) i k e a b = elim (Bool-cases (i == k)) [
  | inl q ↦ ground arith
  | inr q ↦
      let rest : find_clear_bit buf n (i + 1) ≡ none = ground arith in
      find_clear_bit-none buf n (i + 1) k rest (ground arith) (omega arith)
]
