-- ===== src/CommandLine/Clock.antt =====
-- The time of day: cmos.c, system call 10 of interrupt.c and the shell's string.
use luma_osjang.Common.{
  ℕ, suc, ◌+◌, ◌*◌, ◌-◌, ◌/◌, ◌%◌, ◌^◌, ltb, ◌<◌, ◌≡◌, refl, ap, ◌∙◌, ◌==◌, update, arith, true,
  false, some, bit_and, all_below, all_below_sound,
}
use luma_osjang.Common.Bytes.{Bytes}
use luma_osjang.CommandLine.{is_digit, digits_from, skip_spaces, simple_atoi}

pub record Time : Type 0 where
  pub hour : ℕ
  pub minute : ℕ
  pub second : ℕ

unfoldable pub bcd_to_bin : ℕ → ℕ
bcd_to_bin val = (bit_and val 0x0F + val / 16 * 10) % 256

-- `registers` is what the ports 0x70 and 0x71 give for a register's number.
unfoldable pub get_cmos_time : (ℕ → ℕ) → Time
unfolding bcd_to_bin
get_cmos_time registers = record {
  second = bcd_to_bin (registers 0x00);
  minute = bcd_to_bin (registers 0x02);
  hour = bcd_to_bin (registers 0x04);
}

-- The bytes that the shell stores from `buffer` on; system call 10 fills in the time.
unfoldable pub get_time_string : (ℕ → ℕ) → Bytes → ℕ → Bytes
unfolding get_cmos_time
get_time_string registers m buffer =
    let t = get_cmos_time registers in
    let m1 =
      update (update m buffer ((b'0' + t.hour / 10) % 256)) (buffer + 1) (b'0' + t.hour % 10) in
    let m2 = update (update m1 (buffer + 2) b':') (buffer + 3) ((b'0' + t.minute / 10) % 256) in
    let m3 = update (update m2 (buffer + 4) (b'0' + t.minute % 10)) (buffer + 5) b':' in
    let m4 =
      update (update m3 (buffer + 6) ((b'0' + t.second / 10) % 256)) (buffer + 7)
        (b'0' + t.second % 10) in
    update m4 (buffer + 8) 0

-- The byte whose two halves are the decimal digits of `v`.
abbrev pub bcd : ℕ → ℕ
bcd v = v / 10 * 16 + v % 10

skip_none : (n : ℕ) (m : Bytes) (p : ℕ) → (m p == b' ') ≡ false → skip_spaces (suc n) m p ≡ some p
unfolding skip_spaces
skip_none n m p h = rw h refl

digit_step :
    (n : ℕ) (m : Bytes) (p r : ℕ)
    → is_digit (m p) ≡ true
    → ltb (r * 10 + (m p - b'0')) (2 ^ 31) ≡ true
    → digits_from (suc n) m p r ≡ digits_from n m (p + 1) (r * 10 + (m p - b'0'))
unfolding digits_from
digit_step n m p r h small = rw (h, small) refl

digit_stop :
    (n : ℕ) (m : Bytes) (p r : ℕ) → is_digit (m p) ≡ false → digits_from (suc n) m p r ≡ some r
unfolding digits_from
digit_stop n m p r h = rw h refl

-- Two digits and then a byte that is none.
two_digits :
    (n : ℕ) (m : Bytes) (p v : ℕ)
    → v < 100
    → m p ≡ b'0' + v / 10
    → m (p + 1) ≡ b'0' + v % 10
    → is_digit (m (p + 2)) ≡ false
    → simple_atoi (suc (suc (suc n))) m p ≡ some v
unfolding simple_atoi
two_digits n m p v h a b c =
    let d : is_digit (m p) ≡ true = ground (arith, a) in
    let e : is_digit (m (p + 1)) ≡ true = ground (arith, b) in
    let s : (m p == b' ') ≡ false = ground (arith, a) in
    let two : p + 1 + 1 ≡ p + 2 = omega arith in
    let sum : (0 * 10 + (m p - b'0')) * 10 + (m (p + 1) - b'0') ≡ v = omega (arith, a, b) in
    rw
      (
        skip_none (suc (suc n)) m p s,
        simple_atoi,
        digit_step (suc (suc n)) m p 0 d (ground (arith, a, h)),
        digit_step (suc n) m (p + 1) (0 * 10 + (m p - b'0')) e (ground (arith, sum, h)),
        two,
        digit_stop n m (p + 2) ((0 * 10 + (m p - b'0')) * 10 + (m (p + 1) - b'0')) c,
      )
      (ap some sum)

low_table : all_below 100 (λ v. bcd_to_bin (bcd v) == v) ≡ true
unfolding all_below bcd_to_bin
low_table = refl

bcd_to_bin-bcd : (v : ℕ) → v < 100 → bcd_to_bin (bcd v) ≡ v
bcd_to_bin-bcd v h =
    ground (arith, all_below_sound 100 (λ x. bcd_to_bin (bcd x) == x) v low_table h)

-- The clock's registers hold a time in BCD.
abbrev pub IsClock : (ℕ → ℕ) → ℕ → ℕ → ℕ → Type 0
IsClock registers h m s = (registers 4 ≡ bcd h) × (registers 2 ≡ bcd m) × (registers 0 ≡ bcd s)

-- Where the clock's registers hold, in BCD, an hour, a minute and a second below 100, reading the
-- time and writing it as the shell does gives a string from which `simple_atoi` reads the hour at
-- its start, the minute behind the first colon and the second behind the other.
pub clock_lem :
    (registers : ℕ → ℕ) (mem : Bytes) (buffer h m s n : ℕ)
    → h < 100
    → m < 100
    → s < 100
    → IsClock registers h m s
    → let text = get_time_string registers mem buffer in
      (simple_atoi (suc (suc (suc n))) text buffer ≡ some h)
      × (simple_atoi (suc (suc (suc n))) text (buffer + 3) ≡ some m)
      × (simple_atoi (suc (suc (suc n))) text (buffer + 6) ≡ some s)
unfolding get_time_string
clock_lem registers mem buffer h m s n hh hm hs (a, b, c) =
    let a' : bcd_to_bin (registers 4) ≡ h = ap bcd_to_bin a ∙ bcd_to_bin-bcd h hh in
    let b' : bcd_to_bin (registers 2) ≡ m = ap bcd_to_bin b ∙ bcd_to_bin-bcd m hm in
    let c' : bcd_to_bin (registers 0) ≡ s = ap bcd_to_bin c ∙ bcd_to_bin-bcd s hs in
    let text = get_time_string registers mem buffer in
    (
      two_digits n text buffer h hh (ground (arith, a')) (ground (arith, a')) (ground arith),
      two_digits n text (buffer + 3) m hm (ground (arith, b')) (ground (arith, b')) (ground arith),
      two_digits n text (buffer + 6) s hs (ground (arith, c')) (ground (arith, c')) (ground arith),
    )
