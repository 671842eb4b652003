-- ===== src/CommandLine/Totality.antt =====
-- user-shell.c: the walks of `process_command` end on every string.
use luma_osjang.Common.{
  ℕ, zero, suc, ◌+◌, ◌≤◌, ◌<◌, ◌≡◌, refl, ◌∙◌, ap, ◌≢◌, not, ◌&&◌, List, Option, some, ◌==◌, update,
  arith, Bool-cases, Option-cases, inl, inr, ℕ_discrete,
}
use luma_osjang.Common.Bytes.{Bytes}
use luma_osjang.Libc.Shell
use luma_osjang.Libc.Compare.{IsString}
use luma_osjang.Libc.Strings.{strlen_from_lem}
use luma_osjang.CommandLine.{
  Words, skip_spaces, word_end, find_space, split_second, split_first, split_command,
}
use luma_osjang.Console.{Screen}
use luma_osjang.CommandLine.Editing.{Line, Input, entered, read_line, new_line}
use luma_osjang.CommandLine.Editing.Typing.{IsRead, read_line_new}
use luma_osjang.CommandLine.Commands.{command_of, process_command}

-- A walk from `p` that ends no later than `last`.
abbrev Ends : ℕ → ℕ → Option ℕ → Type 0
Ends p last r = (q : ℕ) × (r ≡ some q) × (p ≤ q) × (q ≤ last)

Ends-later : (p last : ℕ) (r : Option ℕ) → Ends (p + 1) last r → Ends p last r
Ends-later p last r (q, e, l, h) = (q, e, omega (arith, l), h)

-- With a terminator at `last`.
skip_spaces-Ends :
    (n : ℕ) (m : Bytes) (p last : ℕ)
    → m last ≡ 0
    → p ≤ last
    → last < n + p
    → Ends p last (skip_spaces n m p)
unfolding skip_spaces
skip_spaces-Ends zero m p last z h lt = absurd (omega (arith, h, lt))
skip_spaces-Ends (suc n) m p last z h lt = elim (Bool-cases (m p == b' ')) [
  | inr q ↦ rw q (p, refl, omega arith, h)
  | inl q ↦ elim (ℕ_discrete p last) [
    | yes e ↦ absurd (ground (arith, q, ap m e, z))
    | no ne ↦ rw q (
        Ends-later p last (skip_spaces n m (p + 1))
          (skip_spaces-Ends n m (p + 1) last z (omega (arith, ne, h)) (omega (arith, lt))))
  ]
]

word_end-Ends :
    (n : ℕ) (m : Bytes) (p last : ℕ)
    → m last ≡ 0
    → p ≤ last
    → last < n + p
    → Ends p last (word_end n m p)
unfolding word_end
word_end-Ends zero m p last z h lt = absurd (omega (arith, h, lt))
word_end-Ends (suc n) m p last z h lt = elim (Bool-cases (not (m p == 0) && not (m p == b' '))) [
  | inr q ↦ rw q (p, refl, omega arith, h)
  | inl q ↦ elim (ℕ_discrete p last) [
    | yes e ↦ absurd (ground (arith, q, ap m e, z))
    | no ne ↦ rw q (
        Ends-later p last (word_end n m (p + 1))
          (word_end-Ends n m (p + 1) last z (omega (arith, ne, h)) (omega (arith, lt))))
  ]
]

find_space-within :
    (n : ℕ) (m : Bytes) (p i : ℕ) → find_space n m p ≡ some i → (p ≤ i) × (i < p + n)
unfolding find_space
find_space-within zero m p i e = absurd (cc e)
find_space-within (suc n) m p i e = ground (arith, find_space-within n m (p + 1) i)

-- A terminator stays one.
update_zero : (m : Bytes) (i last : ℕ) → m last ≡ 0 → update m i 0 last ≡ 0
update_zero m i last z = ground (arith, z)

module _ (fuel last : ℕ) where
  split_second_total :
      (m : Bytes) (a t : ℕ)
      → m last ≡ 0
      → t ≤ last
      → last < fuel + t
      → (w : Words) × (split_second fuel m a t ≡ some w)
  unfolding split_second
  split_second_total m a t z h lt = elim (Bool-cases (m t == b' ')) [
    | inr q ↦ rw q (_, refl)
    | inl q ↦
        let ne : t ≢ last = λ e. absurd (ground (arith, q, ap m e, z)) in
        let (b, e, _, _) =
          skip_spaces-Ends fuel (update m t 0) (t + 1) last (update_zero m t last z)
            (omega (arith, h, ne)) (omega (arith, lt)) in
        rw (q, e) (_, refl)
  ]

  split_first_total :
      (m : Bytes) (i : ℕ)
      → m last ≡ 0
      → i < last
      → last < fuel + i
      → (w : Words) × (split_first fuel m i ≡ some w)
  unfolding split_first
  split_first_total m i z h lt =
      let m1 = update m i 0 in
      let z1 = update_zero m i last z in
      let (a, e, ha, la) =
        skip_spaces-Ends fuel m1 (i + 1) last z1 (omega (arith, h)) (omega (arith, lt)) in
      elim (Bool-cases (m1 a == 0)) [
        | inl q ↦ rw (e, split_first, q) (_, refl)
        | inr q ↦
            let (t, e', ht, lt') = word_end-Ends fuel m1 a last z1 la (omega (arith, lt, ha)) in
            let (w, s) = split_second_total m1 a t z1 lt' (omega (arith, lt, ha, ht)) in
            (w, rw (e, split_first, q, e') s)
      ]

split_command_total :
    (fuel : ℕ) (m : Bytes) (b len : ℕ)
    → IsString m b len
    → len < fuel
    → (w : Words) × (split_command fuel m b ≡ some w)
unfolding split_command Shell.strlen
split_command_total fuel m b len s h =
    let zero_in : b + 0 ≡ b = omega arith in
    let length_is : Shell.strlen_from m b fuel 0 ≡ some (0 + len) =
      (strlen_from_lem m b fuel 0 len (rw zero_in s) h).1 in
    let z : 0 + len ≡ len = omega arith in
    let e : Shell.strlen_from m b fuel 0 ≡ some len = length_is ∙ ap some z in
    elim (Option-cases (find_space len m b)) [
      | inl f ↦ rw (e, split_command, f) (_, refl)
      | inr (i, f) ↦
          let (lo, hi) = find_space-within len m b i f in
          let (w, t) = split_first_total fuel (b + len) m i s.end hi (omega (arith, h, lo)) in
          (w, rw (e, split_command, f) t)
    ]

-- On a command line that is a string, with one round more than it has characters, every walk of
-- `process_command` ends: one command, or none, is called, whatever the line holds.
pub process_command_total :
    (fuel : ℕ) (m : Bytes) (command_buffer len : ℕ)
    → IsString m command_buffer len
    → len < fuel
    → (w : Words) × (split_command fuel m command_buffer ≡ some w)
      × (process_command fuel m command_buffer ≡ some (command_of w command_buffer, w.memory))
unfolding process_command
process_command_total fuel m command_buffer len s h =
    let (w, e) = split_command_total fuel m command_buffer len s h in
    (w, e, rw (e, process_command) refl)

coe-IsRead : {a b : Input} → a ≡ b → IsRead a → IsRead b
coe-IsRead e r = rw⁻¹ e r

-- Whatever keys are pressed on a new line: when the line is ended, its buffer of 128 characters is a
-- string, and `process_command`, with as many rounds as the buffer has characters, comes to an end on
-- it with the command of the words that it splits the buffer into.
pub process_command-entered :
    (low prompt row col : ℕ) (screen : Screen) (cs rest : List ℕ) (l : Line)
    → read_line low prompt cs (new_line row col screen) ≡ entered l rest
    → IsString l.buffer 0 l.buffer_pos
      × ((w : Words) × (split_command 128 l.buffer 0 ≡ some w)
          × (process_command 128 l.buffer 0 ≡ some (command_of w 0, w.memory)))
process_command-entered low prompt row col screen cs rest l e =
    let r : IsRead (entered l rest) = coe-IsRead e (read_line_new low prompt row col screen cs) in
    (r.1, process_command_total 128 l.buffer 0 l.buffer_pos r.1 (omega (arith, r.0)))
