-- ===== src/Ext2/Fresh.antt =====
-- ext2.c: a new directory block, and what the calls make of it.
use luma_osjang.Common.{
  ℕ, zero, suc, ◌+◌, ◌^◌, ◌<◌, ◌≡◌, refl, ◌∙◌, ◌≢◌, true, false, none, some, List, [], ◌∷◌, ◌==◌,
  if◌then◌else◌, arith, Bool-cases, inl, inr, ap, ==_iff,
}
use luma_osjang.Common.Bytes.{Bytes, get16, get32, put16, put32, name_at}
use luma_osjang.Ext2.Disk.{FileSystem, read_block}
use luma_osjang.Ext2.Inodes.{Inode}
use luma_osjang.Ext2.Directory.{
  entry_inode, entry_rec_len, entry_name_len, directory_block, init_directory_table, at_offset,
  missing, entry_matches, find_entry, find_inode_in_dir, is_empty_directory,
}

-- The fields of the two entries.
pub fresh_fields :
    (i p : ℕ)
    → i < 2 ^ 32
    → p < 2 ^ 32
    → let buf = directory_block i p in
      (entry_inode buf 0 ≡ i)
      × (entry_rec_len buf 0 ≡ 12)
      × (entry_name_len buf 0 ≡ 1)
      × (buf 9 ≡ b'.')
      × (entry_inode buf 12 ≡ p)
      × (entry_rec_len buf 12 ≡ 500)
      × (entry_name_len buf 12 ≡ 2)
      × (buf 21 ≡ b'.')
      × (buf 22 ≡ b'.')
unfolding directory_block get32 get16 put32 put16
fresh_fields i p hi hp = (omega arith, refl, refl, refl, omega arith, refl, refl, refl, refl)

find_step :
    (buf : Bytes) (name : List ℕ) (n offset next : ℕ)
    → offset < 512
    → offset + entry_rec_len buf offset ≡ next
    → find_entry buf name (suc n) offset
      ≡ (if entry_matches buf offset name then at_offset offset else find_entry buf name n next)
unfolding find_entry
find_step buf name n offset next h e = ground arith

find_end : (buf : Bytes) (name : List ℕ) (n : ℕ) → find_entry buf name n 512 ≡ missing
unfolding find_entry
find_end buf name zero = refl
find_end buf name (suc n) = refl

-- The two entries of a block.
abbrev pub TwoEntries : Bytes → ℕ → ℕ → Type 0
TwoEntries buf i p =
    (entry_inode buf 0 ≡ i)
    × (entry_rec_len buf 0 ≡ 12)
    × (entry_name_len buf 0 ≡ 1)
    × (buf 9 ≡ b'.')
    × (entry_inode buf 12 ≡ p)
    × (entry_rec_len buf 12 ≡ 500)
    × (entry_name_len buf 12 ≡ 2)
    × (buf 21 ≡ b'.')
    × (buf 22 ≡ b'.')

find_two :
    (buf : Bytes) (i p : ℕ) (name : List ℕ)
    → TwoEntries buf i p
    → find_entry buf name 512 0 ≡ (
        if entry_matches buf 0 name
        then at_offset 0
        else if entry_matches buf 12 name
        then at_offset 12
        else missing)
find_two buf i p name t =
    let a : 0 + entry_rec_len buf 0 ≡ 12 = omega (arith, t.1) in
    let b : 12 + entry_rec_len buf 12 ≡ 512 = omega (arith, t.5) in
    ground (
      arith,
      find_step buf name 511 0 12 (omega arith) a,
      find_step buf name 510 12 512 (omega arith) b,
      find_end buf name 510,
    )

dot : (buf : Bytes) (i p : ℕ) → TwoEntries buf i p → i ≢ 0 → entry_matches buf 0 (b'.' ∷ []) ≡ true
unfolding entry_matches name_at
dot buf i p t ne = ground (arith, t)

dot_dot :
    (buf : Bytes) (i p : ℕ)
    → TwoEntries buf i p
    → p ≢ 0
    → (entry_matches buf 0 (b'.' ∷ b'.' ∷ []) ≡ false)
      × (entry_matches buf 12 (b'.' ∷ b'.' ∷ []) ≡ true)
unfolding entry_matches name_at
dot_dot buf i p t ne = ground (arith, t)

other_name :
    (buf : Bytes) (i p : ℕ) (name : List ℕ)
    → TwoEntries buf i p
    → name ≢ b'.' ∷ []
    → name ≢ b'.' ∷ b'.' ∷ []
    → (entry_matches buf 0 name ≡ false) × (entry_matches buf 12 name ≡ false)
unfolding entry_matches name_at
other_name buf i p [] t a b = (ground (arith, t), ground (arith, t))
other_name buf i p (c ∷ []) t a b =
    let ne : c ≢ b'.' = λ e. a (ap (λ x. x ∷ []) e) in (ground (arith, t, ne), ground (arith, t))
other_name buf i p (c ∷ d ∷ []) t a b = (
  ground (arith, t),
  elim (Bool-cases (c == b'.')) [
    | inl e ↦
        let q : c ≡ b'.' = (==_iff _ _).0 e in
        let ne : d ≢ b'.' = λ f. b (cc (q, f)) in ground (arith, t, ne)
    | inr e ↦ let ne : c ≢ b'.' = ground arith in ground (arith, t, ne)
  ],
)
other_name buf i p (c ∷ d ∷ e ∷ r) t a b = (ground (arith, t), ground (arith, t))

-- What `find_inode_in_dir` reads after `init_directory_table`.
pub read_fresh :
    (fs : FileSystem) (node : Inode) (i p : ℕ)
    → i < 2 ^ 32
    → p < 2 ^ 32
    → TwoEntries ((init_directory_table fs node i p).disk (node.i_block 0)) i p
unfolding init_directory_table get16 get32
read_fresh fs node i p hi hp =
    let f = fresh_fields i p hi hp in
    (
      ground (arith, f.0),
      ground (arith, f.1),
      ground (arith, f.2),
      ground (arith, f.3),
      ground (arith, f.4),
      ground (arith, f.5),
      ground (arith, f.6),
      ground (arith, f.7),
      ground (arith, f.8),
    )

lookup_found :
    (fs : FileSystem) (node : Inode) (name : List ℕ) (offset : ℕ)
    → find_entry (read_block fs (node.i_block 0)) name 512 0 ≡ at_offset offset
    → find_inode_in_dir fs node name ≡ some (some (entry_inode (fs.disk (node.i_block 0)) offset))
unfolding find_inode_in_dir
lookup_found fs node name offset e = rw (e, find_inode_in_dir) refl

lookup_missing :
    (fs : FileSystem) (node : Inode) (name : List ℕ)
    → find_entry (read_block fs (node.i_block 0)) name 512 0 ≡ missing
    → find_inode_in_dir fs node name ≡ some none
unfolding find_inode_in_dir
lookup_missing fs node name e = rw (e, find_inode_in_dir) refl

-- The walk over two entries, by name.
two_walks :
    (buf : Bytes) (i p : ℕ)
    → TwoEntries buf i p
    → i ≢ 0
    → p ≢ 0
    → (find_entry buf (b'.' ∷ []) 512 0 ≡ at_offset 0)
      × (find_entry buf (b'.' ∷ b'.' ∷ []) 512 0 ≡ at_offset 12)
      × ((name : List ℕ)
          → name ≢ b'.' ∷ []
          → name ≢ b'.' ∷ b'.' ∷ []
          → find_entry buf name 512 0 ≡ missing)
two_walks buf i p t ni np =
    let dd = dot_dot buf i p t np in
    (
      find_two buf i p (b'.' ∷ []) t ∙ rw (dot buf i p t ni) refl,
      find_two buf i p (b'.' ∷ b'.' ∷ []) t ∙ rw dd.0 (rw dd.1 refl),
      λ name a b.
          let o = other_name buf i p name t a b in find_two buf i p name t ∙ rw o.0 (rw o.1 refl),
    )

two_lookup :
    (fs : FileSystem) (node : Inode) (i p : ℕ)
    → TwoEntries (read_block fs (node.i_block 0)) i p
    → i ≢ 0
    → p ≢ 0
    → (find_inode_in_dir fs node (b'.' ∷ []) ≡ some (some i))
      × (find_inode_in_dir fs node (b'.' ∷ b'.' ∷ []) ≡ some (some p))
      × ((name : List ℕ)
          → name ≢ b'.' ∷ []
          → name ≢ b'.' ∷ b'.' ∷ []
          → find_inode_in_dir fs node name ≡ some none)
two_lookup fs node i p t ni np =
    let w = two_walks (read_block fs (node.i_block 0)) i p t ni np in
    (
      lookup_found fs node (b'.' ∷ []) 0 w.0 ∙ ap (λ x. some (some x)) t.0,
      lookup_found fs node (b'.' ∷ b'.' ∷ []) 12 w.1 ∙ ap (λ x. some (some x)) t.4,
      λ name a b. lookup_missing fs node name (w.2 name a b),
    )

-- In a new directory, with its own number and its parent's not 0, "." is found as the directory,
-- ".." as its parent, and no other name is.
pub fresh_lookup :
    (fs : FileSystem) (node : Inode) (i p : ℕ)
    → i < 2 ^ 32
    → p < 2 ^ 32
    → i ≢ 0
    → p ≢ 0
    → let fs' = init_directory_table fs node i p in
      (find_inode_in_dir fs' node (b'.' ∷ []) ≡ some (some i))
      × (find_inode_in_dir fs' node (b'.' ∷ b'.' ∷ []) ≡ some (some p))
      × ((name : List ℕ)
          → name ≢ b'.' ∷ []
          → name ≢ b'.' ∷ b'.' ∷ []
          → find_inode_in_dir fs' node name ≡ some none)
fresh_lookup fs node i p hi hp ni np =
    two_lookup (init_directory_table fs node i p) node i p (read_fresh fs node i p hi hp) ni np

-- A new directory, with its own number and its parent's not 0, is not taken for an empty one: the
-- test looks at the second entry, which is "..".
pub fresh_not_empty :
    (fs : FileSystem) (node : Inode) (i p : ℕ)
    → i < 2 ^ 32
    → p < 2 ^ 32
    → i ≢ 0
    → p ≢ 0
    → is_empty_directory (init_directory_table fs node i p) node ≡ false
unfolding is_empty_directory
fresh_not_empty fs node i p hi hp ni np =
    let t = read_fresh fs node i p hi hp in ground (arith, t.0, t.1, t.4)
