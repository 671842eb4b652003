-- ===== src/CommandLine/Editing/Typing.antt =====
-- user-shell.c: what is in the line when it is ended.
use luma_osjang.Common.{
  ℕ, ◌+◌, ◌-◌, ◌≤◌, ◌<◌, ◌≡◌, refl, ◌∙◌, true, false, ◌&&◌, ◌||◌, List, [], ◌∷◌, ◌++◌, ltb, leb,
  ◌==◌, update, update_self, update_ne, ap, arith, Bool-cases, inl, inr, length,
}
use luma_osjang.Common.Bytes.{Bytes}
use luma_osjang.Libc.Compare.{IsString}
use luma_osjang.Console.{Screen}
use luma_osjang.CommandLine.Editing.{
  Line, append, edit, read_line, Input, waiting, entered, new_line, command_buffer_size,
}

-- Printable characters up to the position, which is within the array, and zeros from there on.
pub record IsTyped (l : Line) : Type 0 where
  pub fits : l.buffer_pos ≤ 127
  pub printable : (i : ℕ) → i < l.buffer_pos → (32 ≤ l.buffer i) × (l.buffer i ≤ 126)
  pub cleared : (i : ℕ) → l.buffer_pos ≤ i → l.buffer i ≡ 0

edit-IsTyped : (low prompt c : ℕ) (l : Line) → IsTyped l → IsTyped (edit low prompt c l)
unfolding edit
edit-IsTyped low prompt c l t = elim (Bool-cases ((c == 8) || (c == 127))) [
  | inl q ↦ elim (Bool-cases (ltb 0 l.buffer_pos && ltb prompt l.cursor_col_for_input)) [
    | inr n ↦ rw (q, n) t
    | inl y ↦
        rw (q, y)
          (record {
            fits = omega (arith, t.fits);
            printable = λ i h. ground (arith, t.printable i (omega arith), h);
            cleared = λ i h. elim (Bool-cases (l.buffer_pos - 1 == i)) [
              | inl e ↦ rw e refl
              | inr e ↦ ground (arith, t.cleared i, h, e)
            ];
          })
  ]
  | inr q ↦
      elim (Bool-cases (leb 32 c && leb c 126 && ltb l.buffer_pos (command_buffer_size - 1))) [
        | inr n ↦ rw (q, n) t
        | inl y ↦
            rw (q, y)
              (record {
                fits = ground (arith, y);
                printable = λ i h. elim (Bool-cases (l.buffer_pos == i)) [
                  | inl e ↦ rw e (ground (arith, y), ground (arith, y))
                  | inr e ↦ rw e (t.printable i (ground (arith, e, h)))
                ];
                cleared = λ i h. ground (arith, t.cleared i, h);
              })
      ]
]

-- What the loop leaves, ended or not.
abbrev pub IsRead : Input → Type 0
IsRead (waiting l) = IsTyped l
IsRead (entered l cs) = (l.buffer_pos ≤ 127) × IsString l.buffer 0 l.buffer_pos × IsTyped l

entered-IsString : (l : Line) → IsTyped l → IsString l.buffer 0 l.buffer_pos
entered-IsString l t = record {
  chars = λ i h z. absurd (omega (arith, (t.printable (0 + i) (omega (arith, h))).0, z));
  end = t.cleared (0 + l.buffer_pos) (omega arith);
}

ended-IsTyped :
    (l : Line)
    → IsTyped l
    → IsTyped (record l {
      buffer = update l.buffer l.buffer_pos 0;
      current_output_row = l.current_output_row + 1;
    })
ended-IsTyped l t = record {
  fits = t.fits;
  printable = λ i h. ground (arith, t.printable i h, h);
  cleared = λ i h. ground (arith, t.cleared i h);
}

read_line-IsRead :
    (low prompt : ℕ) (cs : List ℕ) (l : Line) → IsTyped l → IsRead (read_line low prompt cs l)
unfolding read_line
read_line-IsRead low prompt [] l t = t
read_line-IsRead low prompt (c ∷ cs) l t = elim (Bool-cases ((c == b'\n') || (c == b'\r'))) [
  | inl q ↦ let e = ended-IsTyped l t in rw q (t.fits, entered-IsString _ e, e)
  | inr q ↦
      rw q (read_line-IsRead low prompt cs (edit low prompt c l) (edit-IsTyped low prompt c l t))
]

new_line-IsTyped : (row col : ℕ) (screen : Screen) → IsTyped (new_line row col screen)
unfolding new_line
new_line-IsTyped row col screen = record {
  fits = omega arith;
  printable = λ i h. absurd (omega (arith, h));
  cleared = λ i h. refl;
}

-- A new line, whatever is typed and erased: the position stays below the 128 characters of the
-- buffer, only printable characters are before it and only zeros behind, and when the line is ended
-- the buffer is a string of that length.
pub read_line_new :
    (low prompt row col : ℕ) (screen : Screen) (cs : List ℕ)
    → IsRead (read_line low prompt cs (new_line row col screen))
read_line_new low prompt row col screen cs =
    read_line-IsRead low prompt cs (new_line row col screen) (new_line-IsTyped row col screen)

-- The characters of an array from a position on.
abbrev pub Spells : Bytes → ℕ → List ℕ → Type 0
Spells m at [] = m at ≡ 0
Spells m at (c ∷ cs) = (m at ≡ c) × Spells m (at + 1) cs

abbrev pub AllPrintable : List ℕ → Type 0
AllPrintable [] = true ≡ true
AllPrintable (c ∷ cs) = (32 ≤ c) × (c ≤ 126) × AllPrintable cs

-- A printable character is put into the line.
edit_append :
    (low prompt c : ℕ) (l : Line)
    → 32 ≤ c
    → c ≤ 126
    → l.buffer_pos < 127
    → ((edit low prompt c l).buffer ≡ update l.buffer l.buffer_pos c)
      × ((edit low prompt c l).buffer_pos ≡ l.buffer_pos + 1)
unfolding edit append
edit_append low prompt c l a b h =
    let p : ((c == 8) || (c == 127)) ≡ false = ground (arith, a, b) in
    let q : (leb 32 c && leb c 126 && ltb l.buffer_pos (command_buffer_size - 1)) ≡ true =
      ground (arith, a, b, h) in
    rw (p, q) (refl, refl)

not_enter : (c : ℕ) → 32 ≤ c → ((c == b'\n') || (c == b'\r')) ≡ false
not_enter c h = ground (arith, h)

typed_from :
    (low prompt : ℕ) (cs rest : List ℕ) (l : Line)
    → IsTyped l
    → AllPrintable cs
    → l.buffer_pos + length cs ≤ 127
    → (l' : Line) × (read_line low prompt (cs ++ (b'\n' ∷ rest)) l ≡ entered l' rest)
      × (l'.buffer_pos ≡ l.buffer_pos + length cs)
      × ((i : ℕ) → i < l.buffer_pos → l'.buffer i ≡ l.buffer i)
      × Spells l'.buffer l.buffer_pos cs
unfolding read_line
typed_from low prompt [] rest l t a h =
    (_, refl, omega arith, (λ i lt. ground (arith, lt)), update_self l.buffer l.buffer_pos 0)
typed_from low prompt (c ∷ cs) rest l t (lo, hi, a) h =
    let (same, pos) = edit_append low prompt c l lo hi (omega (arith, h)) in
    let l1 = edit low prompt c l in
    let (l', e, p, before, spells) =
      typed_from low prompt cs rest l1 (edit-IsTyped low prompt c l t) a (omega (arith, pos, h)) in
    let written : (i : ℕ) → l1.buffer i ≡ update l.buffer l.buffer_pos c i =
      λ i. ap (λ (b : Bytes). b i) same in
    (
      l',
      rw (not_enter c lo) e,
      omega (arith, p, pos),
      (λ i lt.
          before i (omega (arith, pos, lt))
          ∙ (written i ∙ update_ne l.buffer l.buffer_pos i c (omega arith))),
      (
        before l.buffer_pos (omega (arith, pos))
            ∙ (written l.buffer_pos ∙ update_self l.buffer l.buffer_pos c),
        rw pos at spells,
      ),
    )

-- What is typed is what the buffer holds: up to 127 printable characters on a new line, ended by
-- Enter, stand in the buffer in their order with a terminator behind them, and what follows is left
-- for the next line.
pub read_line_typed :
    (low prompt row col : ℕ) (screen : Screen) (cs rest : List ℕ)
    → AllPrintable cs
    → length cs ≤ 127
    → (l : Line) × (read_line low prompt (cs ++ (b'\n' ∷ rest)) (new_line row col screen)
        ≡ entered l rest)
      × (l.buffer_pos ≡ length cs)
      × Spells l.buffer 0 cs
unfolding new_line
read_line_typed low prompt row col screen cs rest a h =
    let (l, e, p, _, spells) =
      typed_from low prompt cs rest (new_line row col screen) (new_line-IsTyped row col screen) a
        (omega (arith, h)) in
    (l, e, omega (arith, p), spells)
