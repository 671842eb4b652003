-- ===== src/Console/Position.antt =====
-- interrupt.c and builtin_commands.c: where printing a string leaves the cursor.
use luma_osjang.Common.{
  ℕ, zero, suc, ◌+◌, ◌*◌, ◌/◌, ◌%◌, ◌^◌, ◌&&◌, List, [], ◌∷◌, ◌≤◌, ◌<◌, ◌≡◌, refl, ap, ◌∙◌, leb,
  ◌==◌, if◌then◌else◌, arith, Bool-cases, inl, inr, false,
}
use luma_osjang.Common.Bytes.{Bytes}
use luma_osjang.Libc.Compare.{IsString, IsString-end, IsString-head, IsString-tail}
use luma_osjang.Console.{
  Screen, out, framebuffer_set_cursor, put_one, puts_from, sys_puts, move_from,
}

-- The rows only grow.
move_from-le : (n : ℕ) (m : Bytes) (str row col : ℕ) → row ≤ (move_from n m str (row, col)).0
unfolding move_from
move_from-le zero m str row col = omega arith
move_from-le (suc n) m str row col =
    ground (arith, move_from-le n m (str + 1) (row + 1) 0, move_from-le n m (str + 1) row (col + 1))

move_from-col :
    (n : ℕ) (m : Bytes) (str row col : ℕ) → col < 80 → (move_from n m str (row, col)).1 < 80
unfolding move_from
move_from-col zero m str row col h = h
move_from-col (suc n) m str row col h = elim (Bool-cases (m str == b'\n')) [
  | inl q ↦ rw (move_from, q) (move_from-col n m (str + 1) (row + 1) 0 (omega arith))
  | inr q ↦ elim (Bool-cases (leb 80 (col + 1))) [
    | inl e ↦ rw (move_from, q, e) (move_from-col n m (str + 1) (row + 1) 0 (omega arith))
    | inr l ↦ rw (move_from, q, l) (move_from-col n m (str + 1) row (col + 1) (ground (arith, l)))
  ]
]

-- The screen's controller after what has been sent: the register that is chosen by the port 0x3D4,
-- and the registers 0x0F and 0x0E, which the port 0x3D5 writes.
unfoldable pub registers : List (ℕ × ℕ) → ℕ × ℕ × ℕ
registers [] = (0, 0, 0)
registers ((port, byte) ∷ older) =
    let (chosen, low, high) = registers older in
    if port == 0x3D4
    then (byte, low, high)
    else if (port == 0x3D5) && (chosen == 0x0F)
    then (chosen, byte, high)
    else if (port == 0x3D5) && (chosen == 0x0E)
    then (chosen, low, byte)
    else (chosen, low, high)

-- Where the controller shows the cursor: the cell's number, from its low and its high byte.
unfoldable pub shown_cursor : Screen → ℕ
unfolding registers
shown_cursor s = let (chosen, low, high) = registers s.ports in low + high * 256

framebuffer_set_cursor-shown :
    (s : Screen) (row col : ℕ)
    → row < 25
    → col < 80
    → shown_cursor (framebuffer_set_cursor s row col) ≡ row * 80 + col
unfolding framebuffer_set_cursor shown_cursor registers out
framebuffer_set_cursor-shown s row col hr hc =
    let at = (row * 80 + col) % 2 ^ 16 in
    let whole : at ≡ row * 80 + col = omega (arith, hr, hc) in
    let bytes : at % 256 + at / 256 % 256 * 256 ≡ at = omega arith in bytes ∙ whole

-- What one round of the two loops does to the position, where the row stays on the screen.
abbrev moved : ℕ → ℕ × ℕ → ℕ × ℕ
moved c (row, col) =
    if c == b'\n' then (row + 1, 0) else if leb 80 (col + 1) then (row + 1, 0) else (row, col + 1)

abbrev place : Screen × ℕ × ℕ → ℕ × ℕ
place r = (r.1, r.2)

put_one-moved :
    (c row col : ℕ) (s : Screen)
    → row < 25
    → col < 80
    → (s' : Screen) × (put_one c (s, row, col)
        ≡ (s', (moved c (row, col)).0, (moved c (row, col)).1))
      × ((moved c (row, col)).1 < 80)
unfolding put_one
put_one-moved c row col s hr hc =
    let a : (row + 1) % 256 ≡ row + 1 = omega arith in
    let b : (col + 1) % 256 ≡ col + 1 = omega arith in
    elim (Bool-cases (c == b'\n')) [
      | inl q ↦ rw (q, a) (s, refl, omega arith)
      | inr q ↦ elim (Bool-cases (leb 80 (col + 1))) [
        | inl e ↦ rw (q, a, b, e) (_, refl, omega arith)
        | inr l ↦ rw (q, a, b, l) (_, refl, ground (arith, l))
      ]
    ]

puts-move :
    (n : ℕ) (m : Bytes) (str len : ℕ) (s : Screen) (row col : ℕ)
    → IsString m str len
    → len < n
    → row < 25
    → col < 80
    → (move_from len m str (row, col)).0 < 25
    → place (puts_from n m str (s, row, col)) ≡ move_from len m str (row, col)
unfolding puts_from move_from
puts-move zero m str len s row col h lt hr hc end = absurd (omega arith)
puts-move (suc n) m str zero s row col h lt hr hc end = rw (IsString-end h) refl
puts-move (suc n) m str (suc len) s row col h lt hr hc end =
    let nz : (m str == 0) ≡ false = ground (arith, IsString-head h) in
    let (row', col') = moved (m str) (row, col) in
    let (s', e, hc') = put_one-moved (m str) row col s hr hc in
    let hr' : row' < 25 = omega (arith, move_from-le len m (str + 1) row' col', end) in
    let on : leb 25 row' ≡ false = ground arith in
    rw (nz, e, on)
      (puts-move n m (str + 1) len s' row' col' (IsString-tail h) (omega arith) hr' hc' end)

sys_puts-place :
    (s : Screen) (m : Bytes) (str len row col : ℕ)
    → IsString m str len
    → len < 1000
    → row < 25
    → col < 80
    → (move_from len m str (row, col)).0 < 25
    → place (sys_puts s m str row col) ≡ move_from len m str (row, col)
unfolding sys_puts
sys_puts-place s m str len row col h lt hr hc end =
    let a : row % 256 ≡ row = omega arith in
    let b : col % 256 ≡ col = omega arith in
    ap (λ x. place (puts_from 1000 m str (s, x, col % 256))) a
    ∙ ap (λ y. place (puts_from 1000 m str (s, row, y))) b
    ∙ puts-move 1000 m str len s row col h lt hr hc end

-- From a place on the screen, and with the string ending below 1000 characters and on the screen,
-- SYS_PUTS ends with the screen's controller told to show the cursor where the shell's
-- `print_string` counts it to be: the registers 0x0F and 0x0E hold the number of that cell, whatever
-- they held, and the row and column of the two loops agree.
pub sys_puts-move :
    (s : Screen) (m : Bytes) (str len row col : ℕ)
    → IsString m str len
    → len < 1000
    → row < 25
    → col < 80
    → (move_from len m str (row, col)).0 < 25
    → let (s', row', col') = sys_puts s m str row col in
      let end = move_from len m str (row, col) in
      (shown_cursor s' ≡ end.0 * 80 + end.1) × ((row', col') ≡ end)
unfolding sys_puts
sys_puts-move s m str len row col h lt hr hc end =
    let e = sys_puts-place s m str len row col h lt hr hc end in
    let r = sys_puts s m str row col in
    let p = puts_from 1000 m str (s, row % 256, col % 256) in
    let row_end = (move_from len m str (row, col)).0 in
    let col_end = (move_from len m str (row, col)).1 in
    let r_eq : r.1 ≡ row_end = ap (λ (q : ℕ × ℕ). q.0) e in
    let c_eq : r.2 ≡ col_end = ap (λ (q : ℕ × ℕ). q.1) e in
    (
      ap (λ x. shown_cursor (framebuffer_set_cursor p.0 x r.2)) r_eq
          ∙ (ap (λ y. shown_cursor (framebuffer_set_cursor p.0 row_end y)) c_eq
              ∙ framebuffer_set_cursor-shown p.0 row_end col_end end
                  (move_from-col len m str row col hc)),
      e,
    )
