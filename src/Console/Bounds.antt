-- ===== src/Console/Bounds.antt =====
-- framebuffer.c and interrupt.c: printing stays within the 80 * 25 cells of the screen.
use luma_osjang.Common.{
  ℕ, zero, suc, ◌+◌, ◌/◌, ◌%◌, ◌≤◌, ◌<◌, ◌≡◌, refl, ◌∙◌, leb, ◌==◌, arith, Bool-cases, inl, inr,
  false, some,
}
use luma_osjang.Common.Bytes.{Bytes}
use luma_osjang.Libc.Compare.{IsString, IsString-end, IsString-head, IsString-tail}
use luma_osjang.Console.{
  Screen, framebuffer_set_cursor, framebuffer_write, next_cell, print_from, print_str, put_one,
  puts_from, sys_puts,
}

-- No cell behind the screen has changed.
abbrev pub Within : Screen → Screen → Type 0
Within s s' = (j : ℕ) → 2000 ≤ j → s'.cells j ≡ s.cells j

write-Within :
    (s : Screen) (row col c fg bg : ℕ)
    → row < 25
    → col < 80
    → Within s (framebuffer_write s row col c fg bg)
unfolding framebuffer_write framebuffer_set_cursor
write-Within s row col c fg bg hr hc j h = ground arith

cursor-Within : (s : Screen) (row col : ℕ) → Within s (framebuffer_set_cursor s row col)
unfolding framebuffer_set_cursor
cursor-Within s row col j h = refl

next_cell-bounds :
    (row col : ℕ)
    → row < 25
    → col < 80
    → ((next_cell (row, col)).0 < 25) × ((next_cell (row, col)).1 < 80)
unfolding next_cell
next_cell-bounds row col hr hc = (ground arith, ground arith)

print_from-Within :
    (n : ℕ) (s : Screen) (m : Bytes) (str len row col fg bg : ℕ)
    → IsString m str len
    → len < n
    → row < 25
    → col < 80
    → (s' : Screen) × (print_from n s m str row col fg bg ≡ some s') × Within s s'
unfolding print_from
print_from-Within zero s m str len row col fg bg h lt hr hc = absurd (omega arith)
print_from-Within (suc n) s m str zero row col fg bg h lt hr hc =
    rw (IsString-end h) (s, refl, λ j hj. refl)
print_from-Within (suc n) s m str (suc len) row col fg bg h lt hr hc =
    let nz : (m str == 0) ≡ false = ground (arith, IsString-head h) in
    let (row', col') = next_cell (row, col) in
    let (hr', hc') = next_cell-bounds row col hr hc in
    let s1 = framebuffer_write s row col (m str) fg bg in
    let (s', e, w) =
      print_from-Within n (framebuffer_set_cursor s1 row' col') m (str + 1) len row' col' fg bg
        (IsString-tail h) (omega arith) hr' hc' in
    rw nz (
      s',
      e,
      λ j hj.
          w j hj
          ∙ cursor-Within s1 row' col' j hj
          ∙ write-Within s row col (m str) fg bg hr hc j hj,
    )

put_one-Within :
    (c row col : ℕ) (s : Screen)
    → row < 25
    → col < 80
    → let r = put_one c (s, row, col) in Within s r.0 × (r.2 < 80)
unfolding put_one
put_one-Within c row col s hr hc =
    (λ j hj. ground (arith, write-Within s row col c 0x0F 0x00 hr hc j hj), ground arith)

puts_from-Within :
    (n : ℕ) (m : Bytes) (str row col : ℕ) (s : Screen)
    → row < 25
    → col < 80
    → Within s (puts_from n m str (s, row, col)).0
unfolding puts_from
puts_from-Within zero m str row col s hr hc j hj = refl
puts_from-Within (suc n) m str row col s hr hc j hj =
    let (s1, row1, col1) = put_one (m str) (s, row, col) in
    let (w, hc1) = put_one-Within (m str) row col s hr hc in
    elim (Bool-cases (m str == 0)) [
      | inl z ↦ rw z refl
      | inr nz ↦ elim (Bool-cases (leb 25 row1)) [
        | inl e ↦ rw (nz, e) (w j hj)
        | inr on ↦
            rw (nz, on)
              (puts_from-Within n m (str + 1) row1 col1 s1 (ground arith) hc1 j hj ∙ w j hj)
      ]
    ]

-- From a place on the screen, `print_str` of a string of any length ends, and neither it nor system
-- call 6, with any string, terminated or not, changes a cell behind the 2000 of the screen.
pub printing-Within :
    (s : Screen) (m : Bytes) (str len row col color fuel : ℕ)
    → IsString m str len
    → len < fuel
    → row < 25
    → col < 80
    → ((s' : Screen) × (print_str fuel s m str row col color ≡ some s') × Within s s')
      × ((t : Bytes) (at : ℕ) → Within s (sys_puts s t at row col).0)
unfolding print_str sys_puts
printing-Within s m str len row col color fuel h lt hr hc = (
  print_from-Within fuel s m str len row col (color % 16) (color / 16 % 16) h lt hr hc,
  λ t at j hj.
      let a : row % 256 < 25 = omega arith in
      let b : col % 256 < 80 = omega arith in
      let (s', row', col') = puts_from 1000 t at (s, row % 256, col % 256) in
      cursor-Within s' row' col' j hj
      ∙ puts_from-Within 1000 t at (row % 256) (col % 256) s a b j hj,
)
