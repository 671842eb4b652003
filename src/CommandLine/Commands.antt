-- ===== src/CommandLine/Commands.antt =====
-- user-shell.c: the commands of `process_command`.
use luma_osjang.Common.{
  true, false, ℕ, ◌+◌, ◌-◌, ◌<◌, ◌≡◌, refl, ◌∙◌, ◌==◌, ◌&&◌, if◌then◌else◌, update, arith, Bool,
  Option, none, some, List, [], ◌∷◌,
}
use luma_osjang.Common.Bytes.{Bytes}
use luma_osjang.Libc.Compare.{IsString, IsString-tail, IsString-end}
use luma_osjang.CommandLine.{Words, split_command}
use luma_osjang.CommandLine.Splitting.{IsLine, split_command-line, words_lem}

-- What is called; the arguments are pointers.
pub data Command : Type 0 where
  nothing : Command
  handle_cd : ℕ → Command
  handle_ls : Command
  handle_clear : Command
  handle_help : Command
  handle_mkdir : ℕ → Command
  handle_cat : ℕ → Command
  handle_cp : ℕ → ℕ → Command
  handle_rm : ℕ → Command
  handle_mv : ℕ → ℕ → Command
  handle_find : ℕ → Command
  beep : Command
  stop : Command
  goodbye : Command
  clock_running : Command
  handle_exec : ℕ → Command
  handle_ps : Command
  handle_kill : ℕ → Command
  missing_argument : Command
  unknown_command : Command

-- `strcmp(s, literal) == 0`
unfoldable pub equals : Bytes → ℕ → List ℕ → Bool
equals m s [] = m s == 0
equals m s (c ∷ cs) = (m s == c) && equals m (s + 1) cs

abbrev pub with_one : Option ℕ → (ℕ → Command) → Command
with_one none f = missing_argument
with_one (some a) f = f a

abbrev pub with_two : Option ℕ → Option ℕ → (ℕ → ℕ → Command) → Command
with_two none b f = missing_argument
with_two (some a) none f = missing_argument
with_two (some a) (some b) f = f a b

-- The chain of comparisons; an empty name is left alone before it.
unfoldable pub command_of : Words → ℕ → Command
unfolding equals
command_of w name =
    let is = equals w.memory name in
    if w.memory name == 0
    then nothing
    else if is (b'c' ∷ b'd' ∷ [])
    then with_one w.arg1 handle_cd
    else if is (b'l' ∷ b's' ∷ [])
    then handle_ls
    else if is (b'c' ∷ b'l' ∷ b'e' ∷ b'a' ∷ b'r' ∷ [])
    then handle_clear
    else if is (b'h' ∷ b'e' ∷ b'l' ∷ b'p' ∷ [])
    then handle_help
    else if is (b'm' ∷ b'k' ∷ b'd' ∷ b'i' ∷ b'r' ∷ [])
    then with_one w.arg1 handle_mkdir
    else if is (b'c' ∷ b'a' ∷ b't' ∷ [])
    then with_one w.arg1 handle_cat
    else if is (b'c' ∷ b'p' ∷ [])
    then with_two w.arg1 w.arg2 handle_cp
    else if is (b'r' ∷ b'm' ∷ [])
    then with_one w.arg1 handle_rm
    else if is (b'm' ∷ b'v' ∷ [])
    then with_two w.arg1 w.arg2 handle_mv
    else if is (b'f' ∷ b'i' ∷ b'n' ∷ b'd' ∷ [])
    then with_one w.arg1 handle_find
    else if is (b'b' ∷ b'e' ∷ b'e' ∷ b'p' ∷ [])
    then beep
    else if is (b's' ∷ b't' ∷ b'o' ∷ b'p' ∷ [])
    then stop
    else if is (b'e' ∷ b'x' ∷ b'i' ∷ b't' ∷ [])
    then goodbye
    else if is (b'c' ∷ b'l' ∷ b'o' ∷ b'c' ∷ b'k' ∷ [])
    then clock_running
    else if is (b'e' ∷ b'x' ∷ b'e' ∷ b'c' ∷ [])
    then with_one w.arg1 handle_exec
    else if is (b'p' ∷ b's' ∷ [])
    then handle_ps
    else if is (b'k' ∷ b'i' ∷ b'l' ∷ b'l' ∷ [])
    then with_one w.arg1 handle_kill
    else unknown_command

unfoldable pub process_command : ℕ → Bytes → ℕ → Option (Command × Bytes)
unfolding split_command command_of
process_command fuel m command_buffer = elim (split_command fuel m command_buffer) [
  | none ↦ none
  | some w ↦ some (command_of w command_buffer, w.memory)
]

-- A name of two letters.
command_two :
    (w : Words) (b a q : ℕ)
    → IsString w.memory b 2
    → w.arg1 ≡ some a
    → w.arg2 ≡ some q
    → ((w.memory b ≡ b'c') × (w.memory (b + 1) ≡ b'p') → command_of w b ≡ handle_cp a q)
      × ((w.memory b ≡ b'm') × (w.memory (b + 1) ≡ b'v') → command_of w b ≡ handle_mv a q)
unfolding command_of equals
command_two w b a q s e1 e2 =
    let z : w.memory (b + 1 + 1) ≡ 0 = IsString-end (IsString-tail (IsString-tail s)) in
    ((λ (c, p). rw (c, p, z, e1, e2) refl), (λ (c, p). rw (c, p, z, e1, e2) refl))

named :
    (copying : Bool) (w : Words) (b a q : ℕ)
    → ((w.memory b ≡ b'c') × (w.memory (b + 1) ≡ b'p') → command_of w b ≡ handle_cp a q)
      × ((w.memory b ≡ b'm') × (w.memory (b + 1) ≡ b'v') → command_of w b ≡ handle_mv a q)
    → w.memory b ≡ (if copying then b'c' else b'm')
    → w.memory (b + 1) ≡ (if copying then b'p' else b'v')
    → command_of w b ≡ (if copying then handle_cp a q else handle_mv a q)
named true w b a q (cp, mv) x y = cp (x, y)
named false w b a q (cp, mv) x y = mv (x, y)

called :
    (fuel : ℕ) (m : Bytes) (b : ℕ) (w : Words) (c : Command)
    → split_command fuel m b ≡ some w
    → command_of w b ≡ c
    → process_command fuel m b ≡ some (c, w.memory)
unfolding process_command
called fuel m b w c e f = rw (e, process_command, f) refl

-- A line that starts with `cp` or `mv`, and has two arguments and spaces between them in any number:
-- `process_command` calls `handle_cp` or `handle_mv` with the first argument's string and with the
-- string of the rest of the line. One round more than the line has characters is enough.
pub process_command-two :
    (copying : Bool) (m : Bytes) (b len i g a l t h q fuel : ℕ)
    → IsLine m b len 2 i g a l t h q
    → m b ≡ (if copying then b'c' else b'm')
    → m (b + 1) ≡ (if copying then b'p' else b'v')
    → len < fuel
    → (m' : Bytes) × IsString m' a l
      × IsString m' q (b + len - q)
      × (process_command fuel m b ≡ some ((if copying then handle_cp a q else handle_mv a q), m'))
process_command-two copying m b len i g a l t h q fuel line x y lt =
    let (pi, pa, pt, pq, in_line, pl) = line.places in
    let m' : Bytes = update (update m i 0) t 0 in
    let w : Words = record { memory = m'; arg1 = some a; arg2 = some q } in
    let (s0, s1, s2) = words_lem line in
    let e = split_command-line line fuel lt in
    let b0 : m' b ≡ m b = ground arith in
    let b1 : m' (b + 1) ≡ m (b + 1) = ground arith in
    (
      m',
      s1,
      s2,
      called fuel m b w (if copying then handle_cp a q else handle_mv a q) e
          (named copying w b a q (command_two w b a q s0 refl refl) (b0 ∙ x) (b1 ∙ y)),
    )
