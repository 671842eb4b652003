-- ===== src/Libc/Padding.antt =====
-- `strncpy`
use luma_osjang.Common.{
  ℕ, zero, suc, ◌+◌, ◌-◌, ◌≡◌, ◌≢◌, refl, ap, ◌∙◌, inl, inr, false, ◌||◌, ltb, leb, ◌==◌,
  if◌then◌else◌, update, arith, Bool-cases,
}
use luma_osjang.Common.Bytes.{Bytes, fill_bytes}
use luma_osjang.Libc.Kernel
use luma_osjang.Libc.Shell
use luma_osjang.Libc.Compare.{IsString, IsString-end, IsString-head, IsString-tail}
use luma_osjang.Libc.Strings.{IsString-update, Apart, Apart-tail}

pad_lem : (m : Bytes) (d n i j : ℕ) → Kernel.pad m d n i j ≡ fill_bytes m (d + i) 0 n j
unfolding Kernel.pad fill_bytes
pad_lem m d zero i j = ground arith
pad_lem m d (suc n) i j = ground (arith, pad_lem (update m (d + i) 0) d n (i + 1) j)

pad_agree : (m : Bytes) (d n i : ℕ) → Kernel.pad m d n i ≡ Shell.pad m d n i
unfolding Kernel.pad Shell.pad
pad_agree m d zero i = refl
pad_agree m d (suc n) i = pad_agree (update m (d + i) 0) d n (i + 1)

strncpy_agree :
    (m : Bytes) (d s n i : ℕ) → Kernel.strncpy_from m d s n i ≡ Shell.strncpy_from m d s n i
unfolding Kernel.strncpy_from Shell.strncpy_from
strncpy_agree m d s zero i = refl
strncpy_agree m d s (suc n) i = elim (Bool-cases (m (s + i) == 0)) [
  | inl z ↦ rw z (pad_agree m d (suc n) i)
  | inr f ↦ rw f (strncpy_agree (update m (d + i) (m (s + i))) d s n (i + 1))
]

-- What the byte at `j` is after `n` bytes have been stored from `d` on, of the `len` characters at
-- `s` and then of zeros.
abbrev pub padded : Bytes → ℕ → ℕ → ℕ → ℕ → ℕ → ℕ
padded m d s n len j =
    if ltb j d || leb (d + n) j then m j else if ltb (j - d) len then m (s + (j - d)) else 0

fill_padded : (m : Bytes) (d s n j : ℕ) → fill_bytes m d 0 n j ≡ padded m d s n 0 j
unfolding fill_bytes
fill_padded m d s n j = ground arith

padded_step :
    (m : Bytes) (d s n len j : ℕ)
    → Apart d s (suc len)
    → padded (update m d (m s)) (d + 1) (s + 1) n len j ≡ padded m d s (suc n) (suc len) j
padded_step m d s n len j a = elim (Bool-cases (leb j d)) [
  | inl le ↦ elim (Bool-cases (j == d)) [
    | inl q ↦ let z : s + (j - d) ≡ s = ground arith in ground (arith, ap m z)
    | inr q ↦ ground arith
  ]
  | inr gt ↦
      let e : s + 1 + (j - (d + 1)) ≡ s + (j - d) = ground arith in
      elim (Bool-cases (ltb (j - d) (suc len))) [
        | inl lt ↦ let ne : s + (j - d) ≢ d = ground (arith, a) in ground (arith, ap m e, e, ne)
        | inr ge ↦ ground arith
      ]
]

strncpy_from_lem :
    (m : Bytes) (d s n i len j : ℕ)
    → IsString m (s + i) len
    → Apart (d + i) (s + i) len
    → Kernel.strncpy_from m d s n i j ≡ padded m (d + i) (s + i) n len j
unfolding Kernel.strncpy_from
strncpy_from_lem m d s zero i len j h a = ground arith
strncpy_from_lem m d s (suc n) i zero j h a =
    rw (IsString-end h) (pad_lem m d (suc n) i j ∙ fill_padded m (d + i) (s + i) (suc n) j)
strncpy_from_lem m d s (suc n) i (suc len) j h a =
    let nz : (m (s + i) == 0) ≡ false = ground (arith, IsString-head h) in
    let y : d + (i + 1) ≡ d + i + 1 = omega arith in
    let z : s + (i + 1) ≡ s + i + 1 = omega arith in
    let t =
      IsString-update (d + i) (m (s + i))
        (elim a [ inl x ↦ inl (omega arith) | inr x ↦ inr (omega arith) ]) (IsString-tail h) in
    let next = Apart-tail (d + i) (s + i) len a in
    rw nz (
      strncpy_from_lem (update m (d + i) (m (s + i))) d s n (i + 1) len j (rw z t) (rw (y, z) next)
      ∙ rw (y, z) (padded_step m (d + i) (s + i) n len j a))

-- In both files `strncpy` stores `n` bytes: of a string of `len` characters the first `n`, and zeros
-- behind them; all other bytes are unchanged.
pub strncpy_lem :
    (m : Bytes) (d s n len : ℕ)
    → IsString m s len
    → Apart d s len
    → (Kernel.strncpy m d s n ≡ Shell.strncpy m d s n)
      × ((j : ℕ) → Kernel.strncpy m d s n j ≡ padded m d s n len j)
unfolding Kernel.strncpy Shell.strncpy
strncpy_lem m d s n len h a =
    let y : d + 0 ≡ d = omega arith in
    let z : s + 0 ≡ s = omega arith in
    (
      strncpy_agree m d s n 0,
      λ j. strncpy_from_lem m d s n 0 len j (rw z h) (rw (y, z) a) ∙ rw (y, z) refl,
    )
