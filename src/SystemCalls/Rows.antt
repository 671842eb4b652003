-- ===== src/SystemCalls/Rows.antt =====
-- interrupt.c: the rows that a listing writes.
use luma_osjang.Common.{
  ℕ, zero, suc, ◌+◌, ◌%◌, ◌≤◌, ◌<◌, ◌≡◌, refl, ◌∙◌, ◌⊎◌, Bool, true, false, not, ◌&&◌, List, [],
  ◌∷◌, ltb, leb, ◌==◌, if◌then◌else◌, length, arith, Bool-cases, inl, inr,
}
use luma_osjang.Common.Bytes.{Bytes}
use luma_osjang.Ext2.Disk.{FileSystem, read_block}
use luma_osjang.Ext2.Inodes.{Inode, read_inode, is_directory}
use luma_osjang.Ext2.Directory.{entry_rec_len, entry_name_len, entry_file_type}
use luma_osjang.FileCalls.{ends_walk}
use luma_osjang.Builtins.{codes}
use luma_osjang.Console.{Screen, framebuffer_set_cursor, framebuffer_write}
use luma_osjang.SystemCalls.{
  type_str, finish, write_string, write_name, write_entry_row, list_entries, list_blocks,
  list_headed, sys_list_dir,
}

-- The cells of the last row, where the shell keeps its clock, and behind it are the same.
abbrev pub Above : Screen → Screen → Type 0
Above s s' = (j : ℕ) → 1920 ≤ j → s'.cells j ≡ s.cells j

write-Above :
    (s : Screen) (row col c fg bg : ℕ)
    → row < 24
    → col < 80
    → Above s (framebuffer_write s row col c fg bg)
unfolding framebuffer_write framebuffer_set_cursor
write-Above s row col c fg bg hr hc j h = ground arith

write_string-Above :
    (s : Screen) (row col : ℕ) (cs : List ℕ)
    → row < 24
    → col + length cs ≤ 80
    → Above s (write_string s row col cs)
unfolding write_string
write_string-Above s row col [] hr hc j h = refl
write_string-Above s row col (c ∷ cs) hr hc j h =
    write_string-Above (framebuffer_write s row col c 0x0F 0x00) row (col + 1) cs hr
      (omega (arith, hc)) j h
    ∙ write-Above s row col c 0x0F 0x00 hr (omega (arith, hc)) j h

write_name-Above :
    (s : Screen) (row : ℕ) (buf : Bytes) (name n k : ℕ)
    → row < 24
    → k + n ≤ 80
    → Above s (write_name s row buf name n k)
unfolding write_name
write_name-Above s row buf name zero k hr hc j h = refl
write_name-Above s row buf name (suc n) k hr hc j h =
    let c = buf (name + k) in
    let shown = if leb 32 c && leb c 126 then c else b'?' in
    write_name-Above (framebuffer_write s row k shown 0x0F 0x00) row buf name n (k + 1) hr
      (omega (arith, hc)) j h
    ∙ write-Above s row k shown 0x0F 0x00 hr (omega (arith, hc)) j h

type_length : (t : ℕ) → 20 + length (type_str t) ≤ 80
type_length t = elim (Bool-cases (t == 2)) [
  | inl q ↦ rw q (omega arith)
  | inr q ↦ elim (Bool-cases (t == 1)) [
    | inl r ↦ rw (q, r) (omega arith)
    | inr r ↦ rw (q, r) (omega arith)
  ]
]

write_entry_row-Above :
    (s : Screen) (row : ℕ) (buf : Bytes) (offset : ℕ)
    → row < 24
    → Above s (write_entry_row s row buf offset)
unfolding write_entry_row
write_entry_row-Above s row buf offset hr j h =
    let name_len = entry_name_len buf offset in
    let shown = if ltb name_len 19 then name_len else 19 in
    let fits : 0 + shown ≤ 80 = ground arith in
    let named = write_name s row buf (offset + 9) shown 0 in
    let typed = type_str (entry_file_type buf offset) in
    write_string-Above (write_string named row 20 typed) row 27 (codes "0") hr (omega arith) j h
    ∙ (write_string-Above named row 20 typed hr (type_length (entry_file_type buf offset)) j h
        ∙ write_name-Above s row buf (offset + 9) shown 0 hr fits j h)

-- What a part of the listing leaves: the rows grow to 24 at most.
pub record IsListed (s : Screen) (row : ℕ) (p : Screen × ℕ) : Type 0 where
  pub above : Above s p.0
  pub grows : row ≤ p.1
  pub bound : p.1 ≤ 24

IsListed-here : (s : Screen) (row : ℕ) → row ≤ 24 → IsListed s row (s, row)
IsListed-here s row h = record { above = λ j k. refl; grows = omega arith; bound = h }

IsListed-then :
    {s s' : Screen} {row row' : ℕ} {p : Screen × ℕ}
    → IsListed s row (s', row')
    → IsListed s' row' p
    → IsListed s row p
IsListed-then a b = record {
  above = λ j h. b.above j h ∙ a.above j h;
  grows = omega (arith, a.grows, b.grows);
  bound = b.bound;
}

-- A block's listing, which is full or leaves a row.
abbrev IsPart : Screen → ℕ → Bool × (Screen × ℕ) → Type 0
IsPart s row (full, p) = IsListed s row p × ((full ≡ true) ⊎ (p.1 < 24))

write_entry_row-IsListed :
    (s : Screen) (row : ℕ) (buf : Bytes) (offset : ℕ)
    → row < 24
    → IsListed s row (write_entry_row s row buf offset, (row + 1) % 256)
write_entry_row-IsListed s row buf offset h = record {
  above = write_entry_row-Above s row buf offset h;
  grows = omega (arith, h);
  bound = omega (arith, h);
}

list_entries-IsPart :
    (buf : Bytes) (n offset : ℕ) (s : Screen) (row : ℕ)
    → row < 24
    → IsPart s row (list_entries buf n offset (s, row))
unfolding list_entries
list_entries-IsPart buf zero offset s row h = (IsListed-here s row (omega (arith, h)), inr h)
list_entries-IsPart buf (suc n) offset s row h =
    let here = IsListed-here s row (omega (arith, h)) in
    let s1 = write_entry_row s row buf offset in
    let written = write_entry_row-IsListed s row buf offset h in
    elim (Bool-cases (ltb offset 512)) [
      | inr q ↦ rw (q, list_entries) (here, inr h)
      | inl q ↦ elim (Bool-cases (ends_walk buf offset)) [
        | inl e ↦ rw (q, list_entries, e) (here, inr h)
        | inr e ↦ elim (Bool-cases (leb 24 ((row + 1) % 256))) [
          | inl f ↦ rw (q, list_entries, e, f) (written, inl refl)
          | inr f ↦
              let (listed, more) =
                list_entries-IsPart buf n (offset + entry_rec_len buf offset) s1 ((row + 1) % 256)
                  (ground (arith, f)) in
              rw (q, list_entries, e, f) (IsListed-then written listed, more)
        ]
      ]
    ]

list_blocks-IsListed :
    (fs : FileSystem) (dir : Inode) (n i : ℕ) (s : Screen) (row : ℕ)
    → row < 24
    → IsListed s row (list_blocks fs dir n i (s, row))
unfolding list_blocks
list_blocks-IsListed fs dir zero i s row h = IsListed-here s row (omega (arith, h))
list_blocks-IsListed fs dir (suc n) i s row h =
    let here = IsListed-here s row (omega (arith, h)) in
    let r = list_entries (read_block fs (dir.i_block i)) 512 0 (s, row) in
    let (listed, more) = list_entries-IsPart (read_block fs (dir.i_block i)) 512 0 s row h in
    elim (Bool-cases (ltb i dir.i_blocks)) [
      | inr q ↦ rw q here
      | inl q ↦ elim (Bool-cases (dir.i_block i == 0)) [
        | inl z ↦ rw (q, z) (list_blocks-IsListed fs dir n (i + 1) s row h)
        | inr z ↦ elim more [
          | inl full ↦ rw (q, z, full) listed
          | inr lt ↦ elim (Bool-cases r.0) [
            | inl full ↦ rw (q, z, full) listed
            | inr room ↦
                rw (q, z, room)
                  (IsListed-then listed (list_blocks-IsListed fs dir n (i + 1) r.1.0 r.1.1 lt))
          ]
        ]
      ]
    ]

finish-IsListed :
    (s : Screen) (row : ℕ) (p : Screen × ℕ) → IsListed s row p → IsListed s row (finish p)
unfolding framebuffer_set_cursor
finish-IsListed s row p l = record { above = λ j h. l.above j h; grows = l.grows; bound = l.bound }

-- The four ways out of a listing.
abbrev pick : Bool → Bool → Bool → Screen × ℕ → Screen × ℕ → Screen × ℕ → Screen × ℕ → Screen × ℕ
pick first second dir p1 p2 p3 p4 =
    if first then p1 else if second then p2 else if not dir then p3 else p4

pick-IsListed :
    (s : Screen) (row : ℕ) (first second dir : Bool) (p1 p2 p3 p4 : Screen × ℕ)
    → IsListed s row p1
    → (first ≡ false → IsListed s row p2)
    → (first ≡ false → IsListed s row p3)
    → (first ≡ false → second ≡ false → IsListed s row p4)
    → IsListed s row (pick first second dir p1 p2 p3 p4)
pick-IsListed s row true second dir p1 p2 p3 p4 l1 l2 l3 l4 = l1
pick-IsListed s row false true dir p1 p2 p3 p4 l1 l2 l3 l4 = l2 refl
pick-IsListed s row false false false p1 p2 p3 p4 l1 l2 l3 l4 = l3 refl
pick-IsListed s row false false true p1 p2 p3 p4 l1 l2 l3 l4 = l4 refl refl

list_headed-IsListed :
    (stale : Inode) (fs : FileSystem) (row dir_inode_idx : ℕ) (s s1 s2 : Screen) (row1 : ℕ)
    → row < 24
    → row1 ≡ row + 1
    → Above s s1
    → (row1 < 24 → Above s1 s2)
    → IsListed s row (list_headed stale fs row dir_inode_idx s1 s2 row1)
unfolding list_headed
list_headed-IsListed stale fs row dir_inode_idx s s1 s2 row1 h r1 a1 a2 =
    let dir = read_inode fs dir_inode_idx stale in
    let row2 = (row1 + 1) % 256 in
    let above : leb 24 row1 ≡ false → Above s s2 = λ q j k. a2 (ground (arith, q)) j k ∙ a1 j k in
    let headed : leb 24 row1 ≡ false → IsListed s row (s2, row2) =
      λ q. record { above = above q; grows = ground (arith, r1, q); bound = ground (arith, q) } in
    pick-IsListed s row (leb 24 row1) (leb 24 row2) (is_directory dir) (finish (s1, row1))
      (finish (s2, row2)) (s2, row) (finish (list_blocks fs dir 12 0 (s2, row2)))
      (finish-IsListed s row (s1, row1)
        (record { above = a1; grows = omega (arith, r1); bound = omega (arith, r1, h) }))
      (λ q. finish-IsListed s row (s2, row2) (headed q))
      (λ q. record { above = above q; grows = omega arith; bound = omega (arith, h) })
      (λ q e.
        finish-IsListed s row (list_blocks fs dir 12 0 (s2, row2))
          (IsListed-then (headed q) (list_blocks-IsListed fs dir 12 0 s2 row2 (ground (arith, e)))))

-- A listing that starts above the last row ends at most there, with the row not before the one it
-- started from, and changes no cell of the last row or behind it, for any directory on any disk.
pub sys_list_dir-IsListed :
    (stale : Inode) (fs : FileSystem) (row dir_inode_idx : ℕ) (s : Screen)
    → row < 24
    → IsListed s row (sys_list_dir stale fs row dir_inode_idx s)
unfolding sys_list_dir
sys_list_dir-IsListed stale fs row dir_inode_idx s h =
    let s1 = write_string s (row % 256) 0 (codes "name                type   size") in
    let row1 = (row % 256 + 1) % 256 in
    list_headed-IsListed stale fs row dir_inode_idx s s1
      (write_string s1 row1 0 (codes "================================")) row1 h (omega (arith, h))
      (write_string-Above s (row % 256) 0 (codes "name                type   size")
        (omega (arith, h)) (omega arith))
      (λ lt.
        write_string-Above s1 row1 0 (codes "================================") lt (omega arith))
