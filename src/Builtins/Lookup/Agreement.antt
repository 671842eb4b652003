-- ===== src/Builtins/Lookup/Agreement.antt =====
-- builtin_commands.c and interrupt.c: the shell's walk along a directory and the kernel's.
use luma_osjang.Common.{
  ℕ, zero, suc, ◌≤◌, ◌<◌, ◌≡◌, refl, ◌∙◌, sym, Bool, true, false, Option, none, some, List, [], ◌∷◌,
  ◌==◌, arith, length, inl, inr, Option-cases,
}
use luma_osjang.Common.Bytes.{Bytes, get16}
use luma_osjang.Ext2.Disk.{FileSystem, read_block}
use luma_osjang.Ext2.Inodes.{Inode, zero_inode, read_inode}
use luma_osjang.FileCalls.{find_in_block, find_in_blocks, find_name}
use luma_osjang.FileCalls.Listing.{IsEntry}
use luma_osjang.Builtins.Lookup.{read_buf, stops_lookup, unusable, target_of, find_for_rm}
use luma_osjang.Builtins.{is_empty}
use luma_osjang.Builtins.Lookup.Walk.{
  Shown, array_of, lookup_from-find_in_block, find_in_block-IsEntry,
}

-- The kernel's search in a directory of one block.
find_blocks_end :
    (fs : FileSystem) (parent : Inode) (nm : Bytes) (len n : ℕ)
    → parent.i_blocks ≡ 1
    → find_in_blocks fs parent nm len n 1 ≡ none
unfolding find_in_blocks
find_blocks_end fs parent nm len zero h = refl
find_blocks_end fs parent nm len (suc n) h = rw h refl

abbrev in_first : Option ℕ → Option (ℕ × ℕ)
in_first none = none
in_first (some offset) = some (0, offset)

find_blocks_one :
    (fs : FileSystem) (parent : Inode) (nm : Bytes) (len n : ℕ)
    → parent.i_blocks ≡ 1
    → (parent.i_block 0 == 0) ≡ false
    → find_in_blocks fs parent nm len (suc n) 0
      ≡ in_first (find_in_block (read_block fs (parent.i_block 0)) nm len 512 0)
unfolding find_in_blocks
find_blocks_one fs parent nm len n h b =
    elim (Option-cases (find_in_block (read_block fs (parent.i_block 0)) nm len 512 0)) [
      | inl e ↦ rw (h, b, e, find_blocks_end fs parent nm len n h) refl
      | inr (o, e) ↦ rw (h, b, e) refl
    ]

-- A directory that both walks read whole: in use, of one block, and its entries shown.
pub record IsShown (fs : FileSystem) (curr_inode : ℕ) : Type 0 where
  pub numbered : (curr_inode == 0) ≡ false
  pub usable : unusable (read_inode fs curr_inode zero_inode) ≡ false
  pub one_block : (read_inode fs curr_inode zero_inode).i_blocks ≡ 1
  pub last : ℕ
  pub entries : Shown (read_block fs ((read_inode fs curr_inode zero_inode).i_block 0)) last 50 0

pub find_name_one :
    (fs : FileSystem) (parent : Inode) (nm : Bytes) (len : ℕ)
    → parent.i_blocks ≡ 1
    → (parent.i_block 0 == 0) ≡ false
    → find_name fs parent nm len
      ≡ in_first (find_in_block (read_block fs (parent.i_block 0)) nm len 512 0)
unfolding find_name
find_name_one fs parent nm len h b = find_blocks_one fs parent nm len 11 h b

usable_block : (inode : Inode) → unusable inode ≡ false → (inode.i_block 0 == 0) ≡ false
usable_block inode h = ground (arith, h)

stops_read_buf : (fs : FileSystem) (b : ℕ) → stops_lookup (read_buf fs b) 512 ≡ true
unfolding stops_lookup read_buf get16
stops_read_buf fs b = refl

pub read_buf-block : (fs : FileSystem) (b i : ℕ) → i < 512 → read_buf fs b i ≡ read_block fs b i
unfolding read_buf
read_buf-block fs b i h = ground arith

abbrev pub found_by : FileSystem → ℕ → Option (ℕ × ℕ) → Option (ℕ × Bool)
found_by fs b none = none
found_by fs b (some (_, offset)) = some (target_of fs (read_buf fs b) offset)

is_empty-length : (name : List ℕ) → 0 < length name → is_empty name ≡ false
is_empty-length [] h = absurd (omega (arith, h))
is_empty-length (c ∷ cs) h = refl

-- In a directory of one block that has no record longer than 500 and at most 50 entries, the shell's
-- walk (`find_for_rm`) and the search of the kernel's file calls (`find_name`) find the same entry
-- of a name with 1 to 255 characters, or both find none.
pub find_for_rm-find_name :
    (fs : FileSystem) (curr_inode : ℕ) (name : List ℕ)
    → IsShown fs curr_inode
    → 0 < length name
    → length name ≤ 255
    → let dir = read_inode fs curr_inode zero_inode in
      find_for_rm fs curr_inode name
      ≡ found_by fs (dir.i_block 0) (find_name fs dir (array_of name) (length name))
unfolding find_for_rm
find_for_rm-find_name fs curr_inode name s h l =
    let dir = read_inode fs curr_inode zero_inode in
    let b = dir.i_block 0 in
    let agree =
      lookup_from-find_in_block (read_buf fs b) (read_block fs b) (read_buf-block fs b) name s.last
        50 50 512 0 h l (stops_read_buf fs b) s.entries (omega arith) (omega arith) in
    let one =
      find_name_one fs dir (array_of name) (length name) s.one_block (usable_block dir s.usable) in
    let empty = is_empty-length name h in
    elim (Option-cases (find_in_block (read_block fs b) (array_of name) (length name) 512 0)) [
      | inl e ↦ rw (s.numbered, empty, s.usable, agree, one, e) refl
      | inr (o, e) ↦ rw (s.numbered, empty, s.usable, agree, one, e) refl
    ]

first_entry :
    {buf : Bytes} (x : Option ℕ) (b o : ℕ)
    → in_first x ≡ some (b, o)
    → ((o' : ℕ) → x ≡ some o' → IsEntry buf o')
    → (b ≡ 0) × IsEntry buf o
first_entry none b o e h = absurd (cc e)
first_entry (some o') b o e h =
    let here : o ≡ o' = ground (arith, e) in (ground (arith, e), rw here (h o' refl))

-- What the kernel finds in such a directory stands at an entry of its block.
pub find_name-IsEntry :
    (fs : FileSystem) (curr_inode : ℕ) (nm : Bytes) (len b o : ℕ)
    → IsShown fs curr_inode
    → let dir = read_inode fs curr_inode zero_inode in
      find_name fs dir nm len ≡ some (b, o) → (b ≡ 0) × IsEntry (read_block fs (dir.i_block 0)) o
find_name-IsEntry fs curr_inode nm len b o s e =
    let dir = read_inode fs curr_inode zero_inode in
    let buf = read_block fs (dir.i_block 0) in
    let one = sym (find_name_one fs dir nm len s.one_block (usable_block dir s.usable)) ∙ e in
    first_entry (find_in_block buf nm len 512 0) b o one
      (λ o' x. find_in_block-IsEntry nm len 50 512 0 o' s.entries x)
