-- ===== src/CommandLine/Splitting.antt =====
-- user-shell.c: the words of a command line.
use luma_osjang.Common.{
  ℕ, zero, suc, ◌+◌, ◌-◌, ◌≤◌, ◌<◌, ◌≡◌, ◌≢◌, refl, sym, ap, ◌∙◌, ◌==◌, update, arith, false, some,
}
use luma_osjang.Common.Bytes.{Bytes}
use luma_osjang.Libc.Shell
use luma_osjang.Libc.Compare.{IsString}
use luma_osjang.Libc.Strings.{strlen_from_lem}
use luma_osjang.CommandLine.{
  find_space, word_end, skip_spaces, split_second, split_first, split_command,
}

find_space_lem :
    (n : ℕ) (m : Bytes) (p k : ℕ)
    → ((j : ℕ) → j < k → m (p + j) ≢ b' ')
    → m (p + k) ≡ b' '
    → k < n
    → find_space n m p ≡ some (p + k)
unfolding find_space
find_space_lem zero m p k c e h = absurd (omega arith)
find_space_lem (suc n) m p zero c e h =
    let z : p + 0 ≡ p = omega arith in let q : m p ≡ b' ' = sym (ap m z) ∙ e in rw (q, z) refl
find_space_lem (suc n) m p (suc k) c e h =
    let z : p + 0 ≡ p = omega arith in
    let ne : m p ≢ b' ' = λ x. c 0 (omega arith) (ap m z ∙ x) in
    let f : (m p == b' ') ≡ false = ground (arith, ne) in
    let s : p + suc k ≡ p + 1 + k = omega arith in
    let shift : (j : ℕ) → p + suc j ≡ p + 1 + j = λ j. omega arith in
    rw (f, s)
      (find_space_lem n m (p + 1) k (λ j hj x. c (suc j) (omega arith) (ap m (shift j) ∙ x))
        (sym (ap m s) ∙ e) (omega arith))

skip_spaces_lem :
    (n : ℕ) (m : Bytes) (p k : ℕ)
    → ((j : ℕ) → j < k → m (p + j) ≡ b' ')
    → m (p + k) ≢ b' '
    → k < n
    → skip_spaces n m p ≡ some (p + k)
unfolding skip_spaces
skip_spaces_lem zero m p k c e h = absurd (omega arith)
skip_spaces_lem (suc n) m p zero c e h =
    let z : p + 0 ≡ p = omega arith in
    let f : (m p == b' ') ≡ false = ground (arith, e, ap m z) in rw (f, z) refl
skip_spaces_lem (suc n) m p (suc k) c e h =
    let z : p + 0 ≡ p = omega arith in
    let q : m p ≡ b' ' = sym (ap m z) ∙ c 0 (omega arith) in
    let s : p + suc k ≡ p + 1 + k = omega arith in
    let shift : (j : ℕ) → p + suc j ≡ p + 1 + j = λ j. omega arith in
    rw (q, s)
      (skip_spaces_lem n m (p + 1) k (λ j hj. sym (ap m (shift j)) ∙ c (suc j) (omega arith))
        (λ x. e (ap m s ∙ x)) (omega arith))

word_end_lem :
    (n : ℕ) (m : Bytes) (p k : ℕ)
    → ((j : ℕ) → j < k → (m (p + j) ≢ b' ') × (m (p + j) ≢ 0))
    → m (p + k) ≡ b' '
    → k < n
    → word_end n m p ≡ some (p + k)
unfolding word_end
word_end_lem zero m p k c e h = absurd (omega arith)
word_end_lem (suc n) m p zero c e h =
    let z : p + 0 ≡ p = omega arith in let q : m p ≡ b' ' = sym (ap m z) ∙ e in rw (q, z) refl
word_end_lem (suc n) m p (suc k) c e h =
    let z : p + 0 ≡ p = omega arith in
    let (a, b) = c 0 (omega arith) in
    let f : (m p == b' ') ≡ false = ground (arith, a, ap m z) in
    let g : (m p == 0) ≡ false = ground (arith, b, ap m z) in
    let s : p + suc k ≡ p + 1 + k = omega arith in
    let shift : (j : ℕ) → p + suc j ≡ p + 1 + j = λ j. omega arith in
    rw (f, g, s)
      (word_end_lem n m (p + 1) k
        (λ j hj. (
          λ x. (c (suc j) (omega arith)).0 (ap m (shift j) ∙ x),
          λ x. (c (suc j) (omega arith)).1 (ap m (shift j) ∙ x),
        ))
        (sym (ap m s) ∙ e) (omega arith))

-- A line of `len` characters: a command of `k` characters, then a space at `i`, the first argument
-- from `a` to the space at `t`, and the second from `q` on.
pub record IsLine (m : Bytes) (b len k i g a l t h q : ℕ) : Type 0 where
  pub line : IsString m b len
  pub places :
      (i ≡ b + k) × (a ≡ i + 1 + g) × (t ≡ a + l) × (q ≡ t + 1 + h) × (q < b + len) × (0 < l)
  pub command : (j : ℕ) → j < k → m (b + j) ≢ b' '
  pub first_space : m i ≡ b' '
  pub first_gap : (j : ℕ) → j < g → m (i + 1 + j) ≡ b' '
  pub first : (j : ℕ) → j < l → m (a + j) ≢ b' '
  pub second_space : m t ≡ b' '
  pub second_gap : (j : ℕ) → j < h → m (t + 1 + j) ≡ b' '
  pub second : m q ≢ b' '

module _ {m : Bytes} {b len k i g a l t h q : ℕ} (line : IsLine m b len k i g a l t h q) where
  -- The characters of the line are not its terminator.
  not_end : (j : ℕ) → b ≤ j → j < b + len → m j ≢ 0
  not_end j le lt e =
      let z : b + (j - b) ≡ j = omega arith in line.line.chars (j - b) (omega arith) (ap m z ∙ e)

  split_second-line :
      (fuel : ℕ) (m1 : Bytes)
      → len < fuel
      → ((j : ℕ) → i < j → m1 j ≡ m j)
      → split_second fuel m1 a t
        ≡ some (record { memory = update m1 t 0; arg1 = some a; arg2 = some q })
  unfolding split_second
  split_second-line fuel m1 lt same =
      let (pi, pa, pt, pq, in_line, pl) = line.places in
      let s : m1 t ≡ b' ' = same t (omega arith) ∙ line.second_space in
      let later : (j : ℕ) → t < j → update m1 t 0 j ≡ m j =
        λ j hj. ground (arith, same j (omega arith)) in
      let at_q : update m1 t 0 q ≡ m q = later q (omega arith) in
      let place : t + 1 + h ≡ q = omega arith in
      let skip : skip_spaces fuel (update m1 t 0) (t + 1) ≡ some q =
        skip_spaces_lem fuel (update m1 t 0) (t + 1) h
          (λ j hj. later (t + 1 + j) (omega arith) ∙ line.second_gap j hj)
          (λ e. line.second (sym at_q ∙ ap (update m1 t 0) (sym place) ∙ e)) (omega arith)
        ∙ ap some place in
      let used : (update m1 t 0 q == 0) ≡ false =
        ground (arith, at_q, not_end q (omega arith) in_line) in
      rw (s, skip, split_second, used) refl

  split_first-line :
      (fuel : ℕ)
      → len < fuel
      → split_first fuel m i
        ≡ some (record { memory = update (update m i 0) t 0; arg1 = some a; arg2 = some q })
  unfolding split_first
  split_first-line fuel lt =
      let (pi, pa, pt, pq, in_line, pl) = line.places in
      let m1 : Bytes = update m i 0 in
      let later : (j : ℕ) → i < j → m1 j ≡ m j = λ j hj. ground arith in
      let at_a : m1 a ≡ m a = later a (omega arith) in
      let place : i + 1 + g ≡ a = omega arith in
      let head : m a ≢ b' ' =
        λ e. let z : a + 0 ≡ a = omega arith in line.first 0 pl (ap m z ∙ e) in
      let skip : skip_spaces fuel m1 (i + 1) ≡ some a =
        skip_spaces_lem fuel m1 (i + 1) g
          (λ j hj. later (i + 1 + j) (omega arith) ∙ line.first_gap j hj)
          (λ e. head (sym at_a ∙ ap m1 (sym place) ∙ e)) (omega arith)
        ∙ ap some place in
      let used : (m1 a == 0) ≡ false =
        ground (arith, at_a, not_end a (omega arith) (omega arith)) in
      let stop : a + l ≡ t = omega arith in
      let word : word_end fuel m1 a ≡ some t =
        word_end_lem fuel m1 a l
          (λ j hj. (
            λ e. line.first j hj (sym (later (a + j) (omega arith)) ∙ e),
            λ e.
                not_end (a + j) (omega arith) (omega arith) (sym (later (a + j) (omega arith)) ∙ e),
          ))
          (ap m1 stop ∙ later t (omega arith) ∙ line.second_space) (omega arith)
        ∙ ap some stop in
      rw (skip, split_first, used, word, split_first) (split_second-line fuel m1 lt later)

  -- The three strings.
  pub words_lem :
      let m' : Bytes = update (update m i 0) t 0 in
      IsString m' b k × IsString m' a l × IsString m' q (b + len - q)
  words_lem =
      let (pi, pa, pt, pq, in_line, pl) = line.places in
      (
        record {
          chars = λ j hj e. not_end (b + j) (omega arith) (omega arith) (ground (arith, e));
          end = ground (arith, pi);
        },
        record {
          chars = λ j hj e. not_end (a + j) (omega arith) (omega arith) (ground (arith, e));
          end = ground (arith, pt);
        },
        record {
          chars = λ j hj e. not_end (q + j) (omega arith) (omega arith) (ground (arith, e));
          end =
              let z : q + (b + len - q) ≡ b + len = omega arith in ground (arith, line.line.end, z);
        },
      )

  -- As many rounds as the line has characters, and one, are enough.
  pub split_command-line :
      (fuel : ℕ)
      → len < fuel
      → split_command fuel m b
        ≡ some (record { memory = update (update m i 0) t 0; arg1 = some a; arg2 = some q })
  unfolding split_command Shell.strlen
  split_command-line fuel lt =
      let (pi, pa, pt, pq, in_line, pl) = line.places in
      let z : b + 0 ≡ b = omega arith in
      let y : 0 + len ≡ len = omega arith in
      let place : b + k ≡ i = omega arith in
      let measured : Shell.strlen_from m b fuel 0 ≡ some len =
        (strlen_from_lem m b fuel 0 len (rw z line.line) lt).1 ∙ ap some y in
      let space : find_space len m b ≡ some i =
        find_space_lem len m b k line.command (ap m place ∙ line.first_space) (omega arith)
        ∙ ap some place in
      rw (measured, split_command, space, split_command) (split_first-line fuel lt)
