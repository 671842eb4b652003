-- ===== src/Libc/Compare.antt =====
-- Comparing memory and strings.
use luma_osjang.Common.{
  ℕ, zero, suc, ◌+◌, ◌<◌, ◌≡◌, ◌≢◌, ◌↔◌, refl, sym, ap, ◌∙◌, inl, inr, false, some, ltb, ◌==◌,
  if◌then◌else◌, arith, Bool-cases,
}
use luma_osjang.Common.Bytes.{Bytes}
use luma_osjang.Common.Int.{ℤ, pos, negsuc}
use luma_osjang.Libc.{difference}
use luma_osjang.Libc.Kernel
use luma_osjang.Libc.Shell

-- -1, 0 or 1
abbrev pub sign : ℤ → ℤ
sign (pos zero) = pos 0
sign (pos (suc n)) = pos 1
sign (negsuc n) = negsuc 0

sign-difference :
    (a b : ℕ)
    → sign (difference a b) ≡ (if ltb a b then negsuc 0 else if ltb b a then pos 1 else pos 0)
unfolding difference
sign-difference a b = ground arith

difference_zero : (a b : ℕ) → (difference a b ≡ pos 0) ↔ (a ≡ b)
unfolding difference
difference_zero a b = (λ e. ground (arith, e), λ e. ground (arith, e))

-- The `n` bytes from `p` and from `q` on are the same.
abbrev pub SameBytes : Bytes → ℕ → ℕ → ℕ → Type 0
SameBytes m p q n = (i : ℕ) → i < n → m (p + i) ≡ m (q + i)

memcmp-sign :
    (m : Bytes) (p q n i : ℕ)
    → Shell.compare_from m p q n i ≡ sign (Kernel.memcmp m (p + i) (q + i) n)
unfolding Shell.compare_from Kernel.memcmp
memcmp-sign m p q zero i = refl
memcmp-sign m p q (suc n) i =
    let y : p + (i + 1) ≡ p + i + 1 = omega arith in
    let z : q + (i + 1) ≡ q + i + 1 = omega arith in
    let rest : Shell.compare_from m p q n (i + 1)
        ≡ sign (Kernel.memcmp m (p + i + 1) (q + i + 1) n) =
      memcmp-sign m p q n (i + 1) ∙ rw (y, z) refl in
    ground (arith, rest, sign-difference (m (p + i)) (m (q + i)))

first : (m : Bytes) (p q n : ℕ) → SameBytes m p q (suc n) → m p ≡ m q
first m p q n h =
    let y : p + 0 ≡ p = omega arith in
    let z : q + 0 ≡ q = omega arith in
    let e : m (p + 0) ≡ m (q + 0) = h 0 (omega arith) in sym (ap m y) ∙ e ∙ ap m z

rest_same : (m : Bytes) (p q n : ℕ) → SameBytes m p q (suc n) → SameBytes m (p + 1) (q + 1) n
rest_same m p q n h i lt =
    let y : p + suc i ≡ p + 1 + i = omega arith in
    let z : q + suc i ≡ q + 1 + i = omega arith in
    let e : m (p + suc i) ≡ m (q + suc i) = h (suc i) (omega arith) in sym (ap m y) ∙ e ∙ ap m z

both : (m : Bytes) (p q n : ℕ) → m p ≡ m q → SameBytes m (p + 1) (q + 1) n → SameBytes m p q (suc n)
both m p q n e h zero lt =
    let y : p + 0 ≡ p = omega arith in let z : q + 0 ≡ q = omega arith in ap m y ∙ e ∙ sym (ap m z)
both m p q n e h (suc i) lt =
    let y : p + suc i ≡ p + 1 + i = omega arith in
    let z : q + suc i ≡ q + 1 + i = omega arith in ap m y ∙ h i (omega arith) ∙ sym (ap m z)

sign_zero : (x : ℤ) → sign x ≡ pos 0 → x ≡ pos 0
sign_zero (pos zero) e = refl
sign_zero (pos (suc n)) e = absurd (cc e)
sign_zero (negsuc n) e = absurd (cc e)

memcmp_zero : (m : Bytes) (p q n : ℕ) → (Kernel.memcmp m p q n ≡ pos 0) ↔ SameBytes m p q n
unfolding Kernel.memcmp
memcmp_zero m p q zero = (λ e i lt. absurd (omega arith), λ h. refl)
memcmp_zero m p q (suc n) = elim (Bool-cases (m p == m q)) [
  | inl t ↦
      let e : m p ≡ m q = ground (arith, t) in
      rw t (
        λ z. both m p q n e ((memcmp_zero m (p + 1) (q + 1) n).0 z),
        λ h. (memcmp_zero m (p + 1) (q + 1) n).1 (rest_same m p q n h),
      )
  | inr f ↦ rw f (
    λ z. absurd (ground (arith, f, (difference_zero (m p) (m q)).0 z)),
    λ h. absurd (ground (arith, f, first m p q n h)),
  )
]

-- The kernel's `memcmp` returns the difference of the first two bytes that differ and the shell's
-- only its sign: the results have the same sign, and both are 0 just where the `n` bytes are the
-- same.
pub memcmp_agree :
    (m : Bytes) (p q n : ℕ)
    → (Shell.memcmp m p q n ≡ sign (Kernel.memcmp m p q n))
      × ((Kernel.memcmp m p q n ≡ pos 0) ↔ SameBytes m p q n)
      × ((Shell.memcmp m p q n ≡ pos 0) ↔ SameBytes m p q n)
unfolding Shell.memcmp
memcmp_agree m p q n =
    let y : p + 0 ≡ p = omega arith in
    let z : q + 0 ≡ q = omega arith in
    let s : Shell.memcmp m p q n ≡ sign (Kernel.memcmp m p q n) =
      memcmp-sign m p q n 0 ∙ rw (y, z) refl in
    let k = memcmp_zero m p q n in
    (s, k, (λ e. k.0 (sign_zero (Kernel.memcmp m p q n) (sym s ∙ e)), λ h. s ∙ ap sign (k.1 h)))

-- A string of `len` characters and its terminator.
pub record IsString (m : Bytes) (s len : ℕ) : Type 0 where
  pub chars : (i : ℕ) → i < len → m (s + i) ≢ 0
  pub end : m (s + len) ≡ 0

pub IsString-end : {m : Bytes} {s : ℕ} → IsString m s 0 → m s ≡ 0
IsString-end {m} {s} h = let z : s + 0 ≡ s = omega arith in sym (ap m z) ∙ h.end

pub IsString-head : {m : Bytes} {s len : ℕ} → IsString m s (suc len) → m s ≢ 0
IsString-head {m} {s} h e = let z : s + 0 ≡ s = omega arith in h.chars 0 (omega arith) (ap m z ∙ e)

pub IsString-tail : {m : Bytes} {s len : ℕ} → IsString m s (suc len) → IsString m (s + 1) len
IsString-tail {m} {s} {len} h = record {
  chars = λ i lt e.
      let z : s + suc i ≡ s + 1 + i = omega arith in h.chars (suc i) (omega arith) (ap m z ∙ e);
  end = let z : s + suc len ≡ s + 1 + len = omega arith in sym (ap m z) ∙ h.end;
}

-- Where the first string ends within the rounds given, `strcmp` returns, in both files the same
-- number, which is 0 just where the second string's bytes are the first's up to its terminator.
pub strcmp_lem :
    (m : Bytes) (p q len fuel : ℕ)
    → IsString m p len
    → len < fuel
    → (r : ℤ) × (Kernel.strcmp fuel m p q ≡ some r)
      × (Shell.strcmp fuel m p q ≡ some r)
      × ((r ≡ pos 0) ↔ SameBytes m p q (suc len))
unfolding Kernel.strcmp Shell.strcmp
strcmp_lem m p q len zero h lt = absurd (omega arith)
strcmp_lem m p q zero (suc fuel) h lt =
    let e = IsString-end h in
    let d = difference_zero 0 (m q) in
    rw e (
      difference 0 (m q),
      refl,
      refl,
      (
        λ z. both m p q 0 (e ∙ d.0 z) (λ i lt'. absurd (omega arith)),
        λ s. d.1 (sym e ∙ first m p q 0 s),
      ),
    )
strcmp_lem m p q (suc len) (suc fuel) h lt =
    let nz : (m p == 0) ≡ false = ground (arith, IsString-head h) in
    elim (Bool-cases (m p == m q)) [
      | inl t ↦
          let e : m p ≡ m q = ground (arith, t) in
          let (r, k, s, z) =
            strcmp_lem m (p + 1) (q + 1) len fuel (IsString-tail h) (omega arith) in
          rw (nz, t)
            (r, k, s, (λ x. both m p q (suc len) e (z.0 x), λ x. z.1 (rest_same m p q (suc len) x)))
      | inr f ↦
          let d = difference_zero (m p) (m q) in
          rw (nz, f)
            (
              difference (m p) (m q),
              refl,
              refl,
              (
                λ z. absurd (ground (arith, f, d.0 z)),
                λ x. absurd (ground (arith, f, first m p q (suc len) x)),
              ),
            )
    ]
