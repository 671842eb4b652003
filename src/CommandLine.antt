-- ===== src/CommandLine.antt =====
-- The shell's handling of text: user-shell.c and the conversions of builtin_commands.c. Loops over a
-- string run for the rounds given. `none` where the rounds do not suffice, and where an `int`
-- overflows, which C does not define.
pub mod Splitting
pub mod Commands
pub mod Numbers
pub mod Clock
pub mod Editing
pub mod Totality
mod Tests
use luma_osjang.Common.{
  ℕ, zero, suc, ◌+◌, ◌*◌, ◌-◌, ◌/◌, ◌%◌, ◌^◌, Bool, not, ◌&&◌, Option, none, some, ltb, leb, ◌==◌,
  if◌then◌else◌, update,
}
use luma_osjang.Common.Bytes.{Bytes}
use luma_osjang.Libc.Shell
use luma_osjang.Common.Int.{ℤ, pos, negsuc}

abbrev pub is_digit : ℕ → Bool
is_digit c = leb b'0' c && leb c b'9'

-- `while (c >= '0' && c <= '9') result = result * 10 + (c - '0')`
unfoldable pub digits_from : ℕ → Bytes → ℕ → ℕ → Option ℕ
digits_from zero m str result = none
digits_from (suc n) m str result =
    let result' = result * 10 + (m str - b'0') in
    let rest = digits_from n m (str + 1) result' in
    if is_digit (m str) then (if ltb result' (2 ^ 31) then rest else none) else some result

unfoldable pub skip_spaces : ℕ → Bytes → ℕ → Option ℕ
skip_spaces zero m str = none
skip_spaces (suc n) m str =
    let rest = skip_spaces n m (str + 1) in if m str == b' ' then rest else some str

unfoldable pub simple_atoi : ℕ → Bytes → ℕ → Option ℕ
unfolding digits_from skip_spaces
simple_atoi fuel m str = elim (skip_spaces fuel m str) [
  | none ↦ none
  | some at ↦ digits_from fuel m at 0
]

-- `result * sign` with a sign of -1
unfoldable pub negate : ℕ → ℤ
negate zero = pos 0
negate (suc n) = negsuc n

abbrev pub negated : Option ℕ → Option ℤ
negated none = none
negated (some n) = some (negate n)

abbrev pub positive : Option ℕ → Option ℤ
positive none = none
positive (some n) = some (pos n)

unfoldable pub string_to_int : ℕ → Bytes → ℕ → Option ℤ
unfolding digits_from negate
string_to_int fuel m str =
    if m str == 0
    then some (negsuc 0)
    else if m str == b'-'
    then negated (digits_from fuel m (str + 1) 0)
    else positive (digits_from fuel m str 0)

-- The digits of `value` into `temp` from `i` on, the last first, with rounds left: how many there
-- are, and the array.
unfoldable pub digits_of : ℕ → ℕ → Bytes → ℕ → ℕ × Bytes
digits_of zero value temp i = (i, temp)
digits_of (suc n) value temp i =
    let rest = digits_of n (value / 10) (update temp i (b'0' + value % 10)) (i + 1) in
    if ltb 0 value then rest else (i, temp)

-- `while (i > 0) str[j++] = temp[--i]; str[j] = '\0';`
unfoldable pub emit : Bytes → Bytes → ℕ → ℕ → Bytes
emit m temp zero j = update m j 0
emit m temp (suc i) j = emit (update m j (temp i)) temp i (j + 1)

-- A value and `stale`, what the uninitialised `temp` holds; as many rounds as the value are enough.
unfoldable pub emit_value : Bytes → Bytes → ℕ → ℕ → Bytes
unfolding digits_of emit
emit_value stale m value j = let (i, temp) = digits_of value value stale 0 in emit m temp i j

-- What `int_to_string` writes of a value that is not negative.
unfoldable pub write_value : Bytes → Bytes → ℕ → ℕ → Bytes
unfolding emit_value
write_value stale m value str =
    if value == 0 then update (update m str b'0') (str + 1) 0 else emit_value stale m value str

-- `value = -value` overflows for the lowest `int`.
unfoldable pub int_to_string : Bytes → Bytes → ℤ → ℕ → Option Bytes
unfolding write_value emit_value
int_to_string stale m (pos value) str = some (write_value stale m value str)
int_to_string stale m (negsuc n) str =
    if ltb (n + 1) (2 ^ 31)
    then some (emit_value stale (update m str b'-') (n + 1) (str + 1))
    else none

-- The first loop of `process_command`, with rounds left.
unfoldable pub find_space : ℕ → Bytes → ℕ → Option ℕ
find_space zero m p = none
find_space (suc n) m p = let rest = find_space n m (p + 1) in if m p == b' ' then some p else rest

-- `while (*temp_ptr != '\0' && *temp_ptr != ' ') temp_ptr++;`
unfoldable pub word_end : ℕ → Bytes → ℕ → Option ℕ
word_end zero m p = none
word_end (suc n) m p =
    let rest = word_end n m (p + 1) in if not (m p == 0) && not (m p == b' ') then rest else some p

-- The buffer with its words ended, and the pointers to the arguments, `none` for NULL.
pub record Words : Type 0 where
  pub memory : Bytes
  pub arg1 : Option ℕ
  pub arg2 : Option ℕ

-- From the end `t` of the first argument `a` on.
unfoldable pub split_second : ℕ → Bytes → ℕ → ℕ → Option Words
unfolding skip_spaces
split_second fuel m a t =
    if m t == b' '
    then elim (skip_spaces fuel (update m t 0) (t + 1)) [
      | none ↦ none
      | some b ↦ some (record {
        memory = update m t 0;
        arg1 = some a;
        arg2 = if update m t 0 b == 0 then none else some b;
      })
    ]
    else some (record { memory = m; arg1 = some a; arg2 = none })

-- From the first space, which is at `i`, on.
unfoldable pub split_first : ℕ → Bytes → ℕ → Option Words
unfolding split_second word_end
split_first fuel m i = elim (skip_spaces fuel (update m i 0) (i + 1)) [
  | none ↦ none
  | some a ↦
      if update m i 0 a == 0
      then some (record { memory = update m i 0; arg1 = none; arg2 = none })
      else elim (word_end fuel (update m i 0) a) [
        | none ↦ none
        | some t ↦ split_second fuel (update m i 0) a t
      ]
]

-- What `process_command` does with the line before it looks at the command's name.
unfoldable pub split_command : ℕ → Bytes → ℕ → Option Words
unfolding split_first find_space
split_command fuel m command_buffer = elim (Shell.strlen fuel m command_buffer) [
  | none ↦ none
  | some cmd_len ↦ elim (find_space cmd_len m command_buffer) [
    | none ↦ some (record { memory = m; arg1 = none; arg2 = none })
    | some i ↦ split_first fuel m i
  ]
]
