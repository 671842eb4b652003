-- ===== src/CommandLine/Numbers.antt =====
-- builtin_commands.c: writing a number and reading it again.
use luma_osjang.Common.{
  ℕ, Bool, none, if◌then◌else◌, ◌^◌, zero, suc, ◌+◌, ◌*◌, ◌-◌, ◌/◌, ◌%◌, ◌≤◌, ◌<◌, ◌≡◌, ◌≢◌, refl,
  sym, ap, ◌∙◌, ltb, ◌==◌, update, arith, Bool-cases, ltb→lt, inl, inr, true, false, some,
}
use luma_osjang.Common.Bytes.{Bytes}
use luma_osjang.Common.Int.{ℤ, pos, negsuc}
use luma_osjang.CommandLine.{
  is_digit, digits_from, negate, string_to_int, digits_of, emit, emit_value, write_value,
  int_to_string,
}

-- The number whose digits `temp` holds below `i`, the last first, behind the number `acc`.
read_down : Bytes → ℕ → ℕ → ℕ
read_down temp zero acc = acc
read_down temp (suc i) acc = read_down temp i (acc * 10 + (temp i - b'0'))

read_down-update :
    (temp : Bytes) (i k x acc : ℕ)
    → i ≤ k
    → read_down (update temp k x) i acc ≡ read_down temp i acc
unfolding read_down
read_down-update temp zero k x acc h = refl
read_down-update temp (suc i) k x acc h =
    let e : update temp k x i ≡ temp i = ground arith in
    rw e (read_down-update temp i k x (acc * 10 + (temp i - b'0')) (omega arith))

abbrev AreDigits : Bytes → ℕ → Type 0
AreDigits temp i = (k : ℕ) → k < i → is_digit (temp k) ≡ true

pow10 : ℕ → ℕ
pow10 zero = 1
pow10 (suc n) = 10 * pow10 n

next_digit :
    (temp : Bytes) (v i : ℕ) → AreDigits temp i → AreDigits (update temp i (b'0' + v % 10)) (i + 1)
next_digit temp v i d x h = elim (Bool-cases (i == x)) [
  | inl e ↦ let m : v % 10 < 10 = omega arith in ground (arith, e)
  | inr e ↦ ground (arith, e, d x)
]

read_next :
    (temp : Bytes) (v i : ℕ)
    → read_down (update temp i (b'0' + v % 10)) (i + 1) (v / 10) ≡ read_down temp i v
unfolding read_down
read_next temp v i =
    let one : i + 1 ≡ suc i = omega arith in
    let own : update temp i (b'0' + v % 10) i ≡ b'0' + v % 10 = ground arith in
    let sum : v / 10 * 10 + (b'0' + v % 10 - b'0') ≡ v = omega arith in
    rw (one, own, sum) (read_down-update temp i i (b'0' + v % 10) v (omega arith))

digits_of_lem :
    (n v : ℕ) (temp : Bytes) (i k : ℕ)
    → v ≤ n
    → AreDigits temp i
    → v < pow10 k
    → let (i', temp') = digits_of n v temp i in
      (read_down temp' i' 0 ≡ read_down temp i v) × AreDigits temp' i' × (i' ≤ i + k)
unfolding digits_of pow10
digits_of_lem zero v temp i k h d p = let z : v ≡ 0 = omega arith in rw z (refl, d, omega arith)
digits_of_lem (suc n) v temp i zero h d p =
    let z : v ≡ 0 = omega arith in rw z (refl, d, omega arith)
digits_of_lem (suc n) v temp i (suc k) h d p = elim (Bool-cases (ltb 0 v)) [
  | inr z ↦ let q : v ≡ 0 = ground arith in rw q (refl, d, omega arith)
  | inl lt ↦
      let temp1 : Bytes = update temp i (b'0' + v % 10) in
      let d1 : AreDigits temp1 (i + 1) = λ x hx. next_digit temp v i d x hx in
      let (r, d', b) =
        digits_of_lem n (v / 10) temp1 (i + 1) k (omega (arith, ltb→lt 0 v lt)) d1 (omega arith) in
      rw lt (r ∙ read_next temp v i, d', omega (arith, b))
]

emit_below : (m temp : Bytes) (i j x : ℕ) → x < j → emit m temp i j x ≡ m x
unfolding emit
emit_below m temp zero j x h = ground arith
emit_below m temp (suc i) j x h =
    emit_below (update m j (temp i)) temp i (j + 1) x (omega arith) ∙ ground arith

-- Reading further digits makes a number no smaller.
read_down-le : (temp : Bytes) (i acc : ℕ) → acc ≤ read_down temp i acc
unfolding read_down
read_down-le temp zero acc = omega arith
read_down-le temp (suc i) acc = omega (arith, read_down-le temp i (acc * 10 + (temp i - b'0')))

read_emit :
    (n : ℕ) (m temp : Bytes) (i j acc : ℕ)
    → AreDigits temp i
    → i < n
    → read_down temp i acc < 2 ^ 31
    → digits_from n (emit m temp i j) j acc ≡ some (read_down temp i acc)
unfolding emit digits_from read_down
read_emit zero m temp i j acc d h lt = absurd (omega arith)
read_emit (suc n) m temp zero j acc d h lt = ground arith
read_emit (suc n) m temp (suc i) j acc d h lt =
    let acc' = acc * 10 + (temp i - b'0') in
    let small : ltb acc' (2 ^ 31) ≡ true = ground (arith, read_down-le temp i acc', lt) in
    let e : emit (update m j (temp i)) temp i (j + 1) j ≡ temp i =
      emit_below (update m j (temp i)) temp i (j + 1) j (omega arith) ∙ ground arith in
    rw (e, d i (omega arith), small)
      (read_emit n (update m j (temp i)) temp i (j + 1) acc' (λ k hk. d k (omega arith))
        (omega arith) lt)

ten_digits : (v : ℕ) → v < 2 ^ 31 → v < pow10 10
unfolding pow10
ten_digits v lt = omega (arith, lt)

-- A value written by `emit_value` is read by `digits_from`.
read-emit_value :
    (stale m : Bytes) (v j n : ℕ)
    → v < 2 ^ 31
    → 10 < n
    → digits_from n (emit_value stale m v j) j 0 ≡ some v
unfolding emit_value read_down
read-emit_value stale m v j n lt h =
    let (i, temp) = digits_of v v stale 0 in
    let (r, d, b) =
      digits_of_lem v v stale 0 10 (omega arith) (λ k hk. absurd (omega arith)) (ten_digits v lt) in
    read_emit n m temp i j 0 d (omega (arith, b)) (rw r lt) ∙ ap some r

empty : (temp : Bytes) (i : ℕ) → i ≡ 0 → read_down temp i 0 ≡ 0
unfolding read_down
empty temp zero z = refl
empty temp (suc i) z = absurd (cc z)

emit_head :
    (m temp : Bytes) (i j : ℕ) → AreDigits temp i → i ≢ 0 → is_digit (emit m temp i j j) ≡ true
unfolding emit
emit_head m temp zero j d ne = absurd (ne refl)
emit_head m temp (suc i) j d ne =
    let e : emit (update m j (temp i)) temp i (j + 1) j ≡ temp i =
      emit_below (update m j (temp i)) temp i (j + 1) j (omega arith) ∙ ground arith in
    rw e (d i (omega arith))

emit_value-head :
    (stale m : Bytes) (v j : ℕ) → v ≢ 0 → v < 2 ^ 31 → is_digit (emit_value stale m v j j) ≡ true
unfolding emit_value read_down
emit_value-head stale m v j ne lt =
    let (i, temp) = digits_of v v stale 0 in
    let (r, d, b) =
      digits_of_lem v v stale 0 10 (omega arith) (λ k hk. absurd (omega arith)) (ten_digits v lt) in
    emit_head m temp i j d (λ z. ne (sym r ∙ empty temp i z))

emit_value-below : (stale m : Bytes) (v j x : ℕ) → x < j → emit_value stale m v j x ≡ m x
unfolding emit_value
emit_value-below stale m v j x h =
    let (i, temp) = digits_of v v stale 0 in emit_below m temp i j x h

abbrev pub magnitude : ℤ → ℕ
magnitude (pos n) = n
magnitude (negsuc n) = n + 1

-- Of a string that starts with a digit, or with "-".
read_positive :
    (n : ℕ) (m : Bytes) (str v : ℕ)
    → is_digit (m str) ≡ true
    → digits_from n m str 0 ≡ some v
    → string_to_int n m str ≡ some (pos v)
unfolding string_to_int
read_positive n m str v d e =
    let a : (m str == 0) ≡ false = ground (arith, d) in
    let b : (m str == b'-') ≡ false = ground (arith, d) in rw (a, b, e) refl

read_negative :
    (n : ℕ) (m : Bytes) (str v : ℕ)
    → m str ≡ b'-'
    → digits_from n m (str + 1) 0 ≡ some (v + 1)
    → string_to_int n m str ≡ some (negsuc v)
unfolding string_to_int negate
read_negative n m str v d e = let z : v + 1 ≡ suc v = omega arith in rw (d, e, z) refl

zero_digits :
    (n : ℕ) (m : Bytes) (str : ℕ)
    → digits_from (suc (suc n)) (update (update m str b'0') (str + 1) 0) str 0 ≡ some 0
unfolding digits_from
zero_digits n m str = ground arith

count : (stale : Bytes) (v : ℕ) → v < 2 ^ 31 → (digits_of v v stale 0).0 ≤ 10
count stale v lt =
    let (r, d, b) =
      digits_of_lem v v stale 0 10 (omega arith) (λ k hk. absurd (omega arith)) (ten_digits v lt) in
    b

write_value-read :
    (stale m : Bytes) (v str n : ℕ)
    → v < 2 ^ 31
    → string_to_int (12 + n) (write_value stale m v str) str ≡ some (pos v)
unfolding write_value
write_value-read stale m v str n lt = elim (Bool-cases (v == 0)) [
  | inl z ↦
      let q : v ≡ 0 = ground arith in
      let two : suc (suc (10 + n)) ≡ 12 + n = omega arith in
      let e : digits_from (12 + n) (update (update m str b'0') (str + 1) 0) str 0 ≡ some 0 =
        rw (sym two) (zero_digits (10 + n) m str) in
      rw q (read_positive (12 + n) (update (update m str b'0') (str + 1) 0) str 0 (ground arith) e)
  | inr z ↦ rw z (
      read_positive (12 + n) (emit_value stale m v str) str v
        (emit_value-head stale m v str (ground (arith, z)) lt)
        (read-emit_value stale m v str (12 + n) lt (omega arith)))
]

pick_text : (b : Bool) (text : Bytes) → b ≡ true → (if b then some text else none) ≡ some text
pick_text b text h = rw h refl

-- `string_to_int` reads what `int_to_string` wrote: for every value of an `int` of 32 bits but the
-- lowest, and with at least twelve rounds, neither overflows and the value comes back, whatever its
-- sign and whatever `temp` held; no more than ten of the 16 bytes of `temp` are written.
pub string_to_int-int_to_string :
    (stale m : Bytes) (value : ℤ) (str n : ℕ)
    → magnitude value < 2 ^ 31
    → (text : Bytes) × (int_to_string stale m value str ≡ some text)
      × (string_to_int (12 + n) text str ≡ some value)
      × ((digits_of (magnitude value) (magnitude value) stale 0).0 ≤ 10)
unfolding int_to_string
string_to_int-int_to_string stale m (pos v) str n lt =
    (write_value stale m v str, refl, write_value-read stale m v str n lt, count stale v lt)
string_to_int-int_to_string stale m (negsuc v) str n lt =
    let text = emit_value stale (update m str b'-') (v + 1) (str + 1) in
    let fits : ltb (v + 1) (2 ^ 31) ≡ true = ground (arith, lt) in
    (
      text,
      pick_text (ltb (v + 1) (2 ^ 31)) text fits,
      read_negative (12 + n) text str v
          (emit_value-below stale (update m str b'-') (v + 1) (str + 1) str (omega arith)
            ∙ ground arith)
          (read-emit_value stale (update m str b'-') (v + 1) (str + 1) (12 + n) lt (omega arith)),
      count stale (v + 1) lt,
    )
