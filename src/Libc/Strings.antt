-- ===== src/Libc/Strings.antt =====
-- Measuring and copying strings.
use luma_osjang.Common.{
  ℕ, zero, suc, ◌+◌, ◌≤◌, ◌<◌, ◌≡◌, refl, sym, ap, ◌∙◌, ◌⊎◌, inl, inr, false, Option, some, ◌==◌,
  update, arith,
}
use luma_osjang.Common.Bytes.{Bytes}
use luma_osjang.Libc.Kernel
use luma_osjang.Libc.Shell
use luma_osjang.Libc.Compare.{IsString, IsString-end, IsString-head, IsString-tail}

-- Bytes written from `d` on do not change the string at `s` before they are read.
abbrev pub Apart : ℕ → ℕ → ℕ → Type 0
Apart d s len = (d ≤ s) ⊎ (s + len < d)

pub Apart-tail : (d s len : ℕ) → Apart d s (suc len) → Apart (d + 1) (s + 1) len
Apart-tail d s len (inl a) = inl (omega arith)
Apart-tail d s len (inr a) = inr (omega arith)

pub IsString-update :
    {m : Bytes} {s len : ℕ} (d x : ℕ)
    → (d < s) ⊎ (s + len < d)
    → IsString m s len
    → IsString (update m d x) s len
IsString-update {m} {s} {len} d x a h = record {
  chars = λ i lt e. h.chars i lt (ground (arith, e));
  end = ground (arith, h.end);
}

pub strlen_from_lem :
    (m : Bytes) (str n len k : ℕ)
    → IsString m (str + len) k
    → k < n
    → (Kernel.strlen_from m str n len ≡ some (len + k))
      × (Shell.strlen_from m str n len ≡ some (len + k))
unfolding Kernel.strlen_from Shell.strlen_from
strlen_from_lem m str zero len k h lt = absurd (omega arith)
strlen_from_lem m str (suc n) len zero h lt =
    let z : len + 0 ≡ len = omega arith in rw (IsString-end h, z) (refl, refl)
strlen_from_lem m str (suc n) len (suc k) h lt =
    let nz : (m (str + len) == 0) ≡ false = ground (arith, IsString-head h) in
    let shift : str + len + 1 ≡ str + (len + 1) = omega arith in
    let sum : len + suc k ≡ len + 1 + k = omega arith in
    rw (nz, sum)
      (strlen_from_lem m str n (len + 1) k (rw (sym shift) (IsString-tail h)) (omega arith))

strcpy-memcpy :
    (m : Bytes) (d s len fuel : ℕ)
    → IsString m s len
    → Apart d s len
    → len < fuel
    → (Kernel.strcpy fuel m d s ≡ some (Kernel.memcpy m d s (suc len)))
      × (Shell.strcpy fuel m d s ≡ some (Kernel.memcpy m d s (suc len)))
unfolding Kernel.strcpy Shell.strcpy Kernel.memcpy
strcpy-memcpy m d s len zero h a lt = absurd (omega arith)
strcpy-memcpy m d s zero (suc fuel) h a lt = rw (IsString-end h) (refl, refl)
strcpy-memcpy m d s (suc len) (suc fuel) h a lt =
    let nz : (m s == 0) ≡ false = ground (arith, IsString-head h) in
    let t =
      IsString-update d (m s) (elim a [ inl x ↦ inl (omega arith) | inr x ↦ inr (omega arith) ])
        (IsString-tail h) in
    rw nz (
      strcpy-memcpy (update m d (m s)) (d + 1) (s + 1) len fuel t (Apart-tail d s len a)
        (omega arith))

sprintf-memcpy :
    (m : Bytes) (d s len fuel w : ℕ)
    → IsString m s len
    → Apart d s len
    → len < fuel
    → (Kernel.sprintf_from fuel m d s w ≡ some (w + len, Kernel.memcpy m d s (suc len)))
      × (Shell.sprintf_from fuel m d s w ≡ some (w + len, Kernel.memcpy m d s (suc len)))
unfolding Kernel.sprintf_from Shell.sprintf_from Kernel.memcpy
sprintf-memcpy m d s len zero w h a lt = absurd (omega arith)
sprintf-memcpy m d s zero (suc fuel) w h a lt =
    let z : w + 0 ≡ w = omega arith in rw (IsString-end h, z) (refl, refl)
sprintf-memcpy m d s (suc len) (suc fuel) w h a lt =
    let nz : (m s == 0) ≡ false = ground (arith, IsString-head h) in
    let z : w + suc len ≡ w + 1 + len = omega arith in
    let t =
      IsString-update d (m s) (elim a [ inl x ↦ inl (omega arith) | inr x ↦ inr (omega arith) ])
        (IsString-tail h) in
    rw (nz, z)
      (sprintf-memcpy (update m d (m s)) (d + 1) (s + 1) len fuel (w + 1) t (Apart-tail d s len a)
        (omega arith))

strcat-memcpy :
    (m : Bytes) (d s k len n fuel : ℕ)
    → IsString m d k
    → IsString m s len
    → Apart (d + k) s len
    → k < n
    → len < fuel
    → Shell.strcat_from n fuel m d s ≡ some (Kernel.memcpy m (d + k) s (suc len))
unfolding Shell.strcat_from
strcat-memcpy m d s k len zero fuel g h a lt lf = absurd (omega arith)
strcat-memcpy m d s zero len (suc n) fuel g h a lt lf =
    let z : d + 0 ≡ d = omega arith in
    rw (IsString-end g, z) ((strcpy-memcpy m d s len fuel h (rw (sym z) a) lf).1)
strcat-memcpy m d s (suc k) len (suc n) fuel g h a lt lf =
    let nz : (m d == 0) ≡ false = ground (arith, IsString-head g) in
    let z : d + suc k ≡ d + 1 + k = omega arith in
    rw (nz, z)
      (strcat-memcpy m (d + 1) s k len n fuel (IsString-tail g) h (rw (sym z) a) (omega arith) lf)

-- With a string of `len` characters at `s`, enough rounds, and a destination that does not change
-- the string before it is read: both files' `strlen` returns `len`, their `strcpy` copies `len + 1`
-- bytes as `memcpy` does, their `sprintf`, whatever conversions the format has, copies it in the
-- same way and returns `len`, and `strcat` copies it behind the string of `k` characters at `t`.
pub strings_lem :
    (m : Bytes) (d s t k len fuel : ℕ)
    → IsString m s len
    → IsString m t k
    → Apart d s len
    → Apart (t + k) s len
    → len < fuel
    → k < fuel
    → let copy : Bytes = Kernel.memcpy m d s (suc len) in
      ((Kernel.strlen fuel m s ≡ some len) × (Shell.strlen fuel m s ≡ some len))
      × ((Kernel.strcpy fuel m d s ≡ some copy) × (Shell.strcpy fuel m d s ≡ some copy))
      × ((Kernel.sprintf fuel m d s ≡ some (len, copy))
          × (Shell.sprintf fuel m d s ≡ some (len, copy)))
      × (Shell.strcat fuel m t s ≡ some (Kernel.memcpy m (t + k) s (suc len)))
unfolding Kernel.strlen Shell.strlen Kernel.sprintf Shell.sprintf Shell.strcat
strings_lem m d s t k len fuel h g a b lt lk =
    let z : s + 0 ≡ s = omega arith in
    let e : 0 + len ≡ len = omega arith in
    let (l, l') = strlen_from_lem m s fuel 0 len (rw z h) lt in
    let (p, p') = sprintf-memcpy m d s len fuel 0 h a lt in
    let copied : ℕ → Option (ℕ × Bytes) = λ r. some (r, Kernel.memcpy m d s (suc len)) in
    (
      (l ∙ ap some e, l' ∙ ap some e),
      strcpy-memcpy m d s len fuel h a lt,
      (p ∙ ap copied e, p' ∙ ap copied e),
      strcat-memcpy m t s k len fuel fuel g h b lk lt,
    )
