-- ===== src/Libc/Moves.antt =====
-- Filling and copying memory.
use luma_osjang.Common.{
  ℕ, zero, suc, ◌+◌, ◌-◌, ◌%◌, ◌≤◌, ◌≡◌, ◌≢◌, refl, sym, ◌∙◌, ap, ◌⊎◌, inl, inr, ◌&&◌, ltb, leb,
  ◌==◌, update, arith, Bool-cases,
}
use luma_osjang.Common.Bytes.{Bytes, copy_bytes, fill_bytes}
use luma_osjang.Libc.Kernel
use luma_osjang.Libc.Shell

set_lem : (m : Bytes) (s c n j : ℕ) → Kernel.memset m s c n j ≡ fill_bytes m s (c % 256) n j
unfolding Kernel.memset fill_bytes
set_lem m s c zero j = ground arith
set_lem m s c (suc n) j = ground (arith, set_lem (update m s (c % 256)) (s + 1) c n j)

copy_lem :
    (m : Bytes) (d s n j : ℕ)
    → (d ≤ s) ⊎ (s + n ≤ d)
    → Kernel.memcpy m d s n j ≡ copy_bytes m d m s n j
unfolding Kernel.memcpy copy_bytes
copy_lem m d s zero j h = ground arith
copy_lem m d s (suc n) j h =
    let apart : (d + 1 ≤ s + 1) ⊎ (s + 1 + n ≤ d + 1) = elim h [
      | inl a ↦ inl (omega arith)
      | inr a ↦ inr (omega arith)
    ] in
    copy_lem (update m d (m s)) (d + 1) (s + 1) n j apart
    ∙ elim (Bool-cases (leb (d + 1) j && ltb j (d + 1 + n))) [
      | inl i ↦
          let e : s + 1 + (j - (d + 1)) ≡ s + (j - d) = ground arith in
          let ne : s + (j - d) ≢ d = ground arith in ground (arith, ap m e, e, ne)
      | inr o ↦ elim (Bool-cases (j == d)) [
        | inl q ↦ let z : s + (j - d) ≡ s = ground arith in ground (arith, ap m z)
        | inr q ↦ ground arith
      ]
    ]

down_lem :
    (m : Bytes) (d s n j : ℕ)
    → s ≤ d
    → Kernel.copy_down m (d + n) (s + n) n j ≡ copy_bytes m d m s n j
unfolding Kernel.copy_down copy_bytes
down_lem m d s zero j h = ground arith
down_lem m d s (suc n) j h =
    let a : d + suc n - 1 ≡ d + n = omega arith in
    let b : s + suc n - 1 ≡ s + n = omega arith in
    rw (a, b)
      (down_lem (update m (d + n) (m (s + n))) d s n j h ∙ elim (Bool-cases (d + n == j)) [
        | inl q ↦ let z : s + (j - d) ≡ s + n = ground (arith, q) in ground (arith, q, ap m z)
        | inr q ↦ ground (arith, q)
      ])

-- The loops by index move as those by pointer do.
set_from-memset : (m : Bytes) (s c n i : ℕ) → Shell.set_from m s c n i ≡ Kernel.memset m (s + i) c n
unfolding Shell.set_from Kernel.memset
set_from-memset m s c zero i = refl
set_from-memset m s c (suc n) i =
    let q : s + (i + 1) ≡ s + i + 1 = omega arith in
    set_from-memset (update m (s + i) (c % 256)) s c n (i + 1) ∙ rw q refl

copy_from-memcpy :
    (m : Bytes) (d s n i : ℕ) → Shell.copy_from m d s n i ≡ Kernel.memcpy m (d + i) (s + i) n
unfolding Shell.copy_from Kernel.memcpy
copy_from-memcpy m d s zero i = refl
copy_from-memcpy m d s (suc n) i =
    let q : d + (i + 1) ≡ d + i + 1 = omega arith in
    let r : s + (i + 1) ≡ s + i + 1 = omega arith in
    copy_from-memcpy (update m (d + i) (m (s + i))) d s n (i + 1) ∙ rw (q, r) refl

copy_back-copy_down :
    (m : Bytes) (d s n : ℕ) → Shell.copy_back m d s n ≡ Kernel.copy_down m (d + n) (s + n) n
unfolding Shell.copy_back Kernel.copy_down
copy_back-copy_down m d s zero = refl
copy_back-copy_down m d s (suc n) =
    let a : d + suc n - 1 ≡ d + n = omega arith in
    let b : s + suc n - 1 ≡ s + n = omega arith in
    rw (a, b) (copy_back-copy_down (update m (d + n) (m (s + n))) d s n)

set_agree : (m : Bytes) (s c n : ℕ) → Kernel.memset m s c n ≡ Shell.memset m s c n
unfolding Shell.memset
set_agree m s c n = let z : s + 0 ≡ s = omega arith in sym (set_from-memset m s c n 0 ∙ rw z refl)

copy_agree_from : (m : Bytes) (d s n : ℕ) → Kernel.memcpy m d s n ≡ Shell.copy_from m d s n 0
copy_agree_from m d s n =
    let y : d + 0 ≡ d = omega arith in
    let z : s + 0 ≡ s = omega arith in sym (copy_from-memcpy m d s n 0 ∙ rw (y, z) refl)

copy_agree : (m : Bytes) (d s n : ℕ) → Kernel.memcpy m d s n ≡ Shell.memcpy m d s n
unfolding Shell.memcpy
copy_agree m d s n = copy_agree_from m d s n

move_agree : (m : Bytes) (d s n : ℕ) → Kernel.memmove m d s n ≡ Shell.memmove m d s n
unfolding Shell.memmove Kernel.memmove
move_agree m d s n = elim (Bool-cases (ltb d s)) [
  | inl lt ↦ rw lt (copy_agree_from m d s n)
  | inr ge ↦ rw ge (sym (copy_back-copy_down m d s n))
]

move_lem : (m : Bytes) (d s n j : ℕ) → Kernel.memmove m d s n j ≡ copy_bytes m d m s n j
unfolding Kernel.memmove
move_lem m d s n j = elim (Bool-cases (ltb d s)) [
  | inl lt ↦ rw lt (copy_lem m d s n j (inl (ground arith)))
  | inr ge ↦ rw ge (down_lem m d s n j (ground arith))
]

-- The two files' `memset`, `memcpy` and `memmove` give the same memory. `memset` stores the low byte
-- of its argument in the `n` bytes from `d` on; `memmove` stores there what the memory held from `s`
-- on before the call, also where the two overlap.
pub moves_agree :
    (m : Bytes) (d s c n : ℕ)
    → ((Kernel.memset m d c n ≡ Shell.memset m d c n)
        × ((j : ℕ) → Kernel.memset m d c n j ≡ fill_bytes m d (c % 256) n j))
      × ((Kernel.memmove m d s n ≡ Shell.memmove m d s n)
          × ((j : ℕ) → Kernel.memmove m d s n j ≡ copy_bytes m d m s n j))
      × (Kernel.memcpy m d s n ≡ Shell.memcpy m d s n)
moves_agree m d s c n = (
  (set_agree m d c n, set_lem m d c n),
  (move_agree m d s n, move_lem m d s n),
  copy_agree m d s n,
)
