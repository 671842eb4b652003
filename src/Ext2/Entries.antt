-- ===== src/Ext2/Entries.antt =====
-- ext2.c: directory blocks as chains of entries, and adding an entry to one.
use luma_osjang.Common.{
  ℕ, zero, suc, ◌+◌, ◌-◌, ◌^◌, ◌≤◌, ◌<◌, ◌≡◌, refl, ◌∙◌, ◌≢◌, List, [], ◌∷◌, length, update, arith,
}
use luma_osjang.Common.Bytes.{
  Bytes, get16, get32, put16, put32, get16-ext, get32-ext, get32-put32, get32-put16_apart,
  get16-put16_apart, put16_outside, put32_outside, get16-put16, fill_bytes, put_name,
}
use luma_osjang.Ext2.Disk.{FileSystem, read_block, write_block}
use luma_osjang.Ext2.Inodes.{Inode}
use luma_osjang.Ext2.Fresh.{read_fresh}
use luma_osjang.Ext2.Directory.{
  entry_inode, entry_rec_len, put_entry, init_directory_table, last_entry, padded_size, entry_block,
  add_at, add_inode_to_dir,
}

fill_below : (a : Bytes) (i n j : ℕ) → j < i → fill_bytes a i 0 n j ≡ a j
unfolding fill_bytes
fill_below a i n j h = ground arith

-- From `offset` the record lengths, none below an entry's 9 bytes, lead to the entry at `last`, which reaches the end of the block.
pub data Chain (buf : Bytes) (last : ℕ) : ℕ → Type 0 where
  stop : last < 512 → last + entry_rec_len buf last ≡ 512 → Chain buf last last
  next :
      {offset : ℕ}
      → 9 ≤ entry_rec_len buf offset
      → offset + entry_rec_len buf offset < 512
      → Chain buf last (offset + entry_rec_len buf offset)
      → Chain buf last offset

Chain-le : {buf : Bytes} {last offset : ℕ} → Chain buf last offset → offset ≤ last
Chain-le (stop a b) = omega arith
Chain-le (next a b c) = omega (arith, Chain-le c)

-- The walk of `add_inode_to_dir` ends at the last entry of a chain.
last_entry-Chain :
    (buf : Bytes) (last n offset : ℕ)
    → Chain buf last offset
    → 512 ≤ n + offset
    → last_entry buf n offset ≡ last
unfolding last_entry
last_entry-Chain buf last zero offset (stop a b) h = absurd (omega arith)
last_entry-Chain buf last zero offset (next a b c) h = absurd (omega arith)
last_entry-Chain buf last (suc n) offset (stop a b) h = ground arith
last_entry-Chain buf last (suc n) offset (next a b c) h =
    ground (arith, last_entry-Chain buf last n (offset + entry_rec_len buf offset) c (omega arith))

put_name_below : (a : Bytes) (i : ℕ) (name : List ℕ) (j : ℕ) → j < i → put_name a i name j ≡ a j
unfolding put_name
put_name_below a i [] j h = refl
put_name_below a i (c ∷ cs) j h =
    ground (arith, put_name_below (update a i c) (i + 1) cs j (omega arith))

update_ne : (a : Bytes) (i c j : ℕ) → j ≢ i → update a i c j ≡ a j
update_ne a i c j h = ground arith

put_entry_fields :
    (a : Bytes) (i inode rec_len name_len kind : ℕ)
    → inode < 2 ^ 32
    → rec_len < 2 ^ 16
    → (get32 (put_entry a i inode rec_len name_len kind) i ≡ inode)
      × (get16 (put_entry a i inode rec_len name_len kind) (i + 4) ≡ rec_len)
      × ((j : ℕ) → j < i → put_entry a i inode rec_len name_len kind j ≡ a j)
unfolding put_entry
put_entry_fields a i inode rec_len name_len kind hi hr =
    let first : Bytes = put32 a i inode in
    let second : Bytes = put16 first (i + 4) rec_len in
    let third : Bytes = put16 second (i + 6) name_len in
    let kept : (j : ℕ) → j < i + 8 → update third (i + 8) kind j ≡ third j =
      λ j h. update_ne third (i + 8) kind j (omega arith) in
    (
      get32-ext _ third i i (λ d h. kept (i + d) (omega arith))
          ∙ get32-put16_apart second (i + 6) name_len i (ground arith)
          ∙ get32-put16_apart first (i + 4) rec_len i (ground arith)
          ∙ get32-put32 a i inode hi,
      get16-ext _ third (i + 4) (i + 4) (kept (i + 4) (omega arith))
            (kept (i + 4 + 1) (omega arith))
          ∙ get16-put16_apart second (i + 6) name_len (i + 4) (ground arith)
          ∙ get16-put16 first (i + 4) rec_len hr,
      λ j h.
          kept j (omega arith)
          ∙ put16_outside second (i + 6) name_len j (ground arith)
          ∙ put16_outside first (i + 4) rec_len j (ground arith)
          ∙ put32_outside a i inode j (ground arith),
    )

-- Below its name the new block has the entry's fields, and below the entry the old bytes.
entry_block_fields :
    (buf : Bytes) (offset inode : ℕ) (name : List ℕ)
    → offset < 512
    → inode < 2 ^ 32
    → (entry_inode (entry_block buf offset inode name) offset ≡ inode)
      × (entry_rec_len (entry_block buf offset inode name) offset ≡ 512 - offset)
      × ((j : ℕ) → j < offset → entry_block buf offset inode name j ≡ buf j)
unfolding entry_block
entry_block_fields buf offset inode name ho hi =
    let zeroed : Bytes = fill_bytes buf offset 0 (padded_size (length name)) in
    let entry : Bytes = put_entry zeroed offset inode (512 - offset) (length name) 1 in
    let f = put_entry_fields zeroed offset inode (512 - offset) (length name) 1 hi (omega arith) in
    let below : (j : ℕ) → j < offset + 9 → put_name entry (offset + 9) name j ≡ entry j =
      λ j h. put_name_below entry (offset + 9) name j h in
    (
      get32-ext _ entry offset offset (λ d h. below (offset + d) (omega arith)) ∙ f.0,
      get16-ext _ entry (offset + 4) (offset + 4) (below (offset + 4) (omega arith))
            (below (offset + 4 + 1) (omega arith))
          ∙ f.1,
      λ j h.
          below j (omega arith) ∙ f.2 j h ∙ fill_below buf offset (padded_size (length name)) j h,
    )

Chain-same_below :
    (buf buf' : Bytes) (last offset : ℕ)
    → Chain buf last offset
    → ((j : ℕ) → j < last → buf' j ≡ buf j)
    → entry_rec_len buf' last ≡ 512 - last
    → Chain buf' last offset
Chain-same_below buf buf' last offset (stop a b) same e = stop a (omega arith)
Chain-same_below buf buf' last offset (next a b c) same e =
    let le = Chain-le c in
    let r : entry_rec_len buf' offset ≡ entry_rec_len buf offset =
      get16-ext buf' buf (offset + 4) (offset + 4) (same (offset + 4) (omega arith))
        (same (offset + 4 + 1) (omega arith)) in
    let rest = Chain-same_below buf buf' last _ c same e in
    next (omega arith) (omega arith) (rw r rest)

-- A block that holds the entry, as far as it reaches.
Chain-written :
    (buf buf' : Bytes) (inode last : ℕ) (name : List ℕ)
    → Chain buf last 0
    → last + 10 ≤ 512
    → inode < 2 ^ 32
    → ((j : ℕ) → j < 512 → buf' j ≡ entry_block buf last inode name j)
    → (entry_inode buf' last ≡ inode)
      × (entry_rec_len buf' last ≡ 512 - last)
      × ((j : ℕ) → j < last → buf' j ≡ buf j)
      × Chain buf' last 0
Chain-written buf buf' inode last name chain h hi w =
    let f = entry_block_fields buf last inode name (omega arith) hi in
    let same : (j : ℕ) → j < last → buf' j ≡ buf j = λ j hj. w j (omega arith) ∙ f.2 j hj in
    let len : entry_rec_len buf' last ≡ 512 - last =
      get16-ext buf' _ (last + 4) (last + 4) (w (last + 4) (omega arith))
        (w (last + 4 + 1) (omega arith))
      ∙ f.1 in
    (
      get32-ext buf' _ last last (λ d hd. w (last + d) (omega arith)) ∙ f.0,
      len,
      same,
      Chain-same_below buf buf' last 0 chain same len,
    )

add_writes :
    (fs : FileSystem) (parent : Inode) (inode last : ℕ) (name : List ℕ)
    → Chain (read_block fs (parent.i_block 0)) last 0
    → 0 < length name
    → length name ≤ 255
    → last + padded_size (length name) ≤ 512
    → add_inode_to_dir fs parent inode name
      ≡ write_block fs
          (parent.i_block 0)
          (entry_block (read_block fs (parent.i_block 0)) last inode name)
unfolding add_at add_inode_to_dir
add_writes fs parent inode last name chain h0 h1 fit =
    let buf = read_block fs (parent.i_block 0) in
    rw (last_entry-Chain buf last 512 0 chain (omega arith)) (ground arith)

read_written :
    (fs : FileSystem) (p : ℕ) (buf : Bytes) (j : ℕ)
    → j < 512
    → (write_block fs p buf).disk p j ≡ buf j
read_written fs p buf j h = ground arith

read_other :
    (fs : FileSystem) (p : ℕ) (buf : Bytes) (b : ℕ)
    → b ≢ p
    → (write_block fs p buf).disk b ≡ fs.disk b
read_other fs p buf b ne = ground arith

padded_size-ge : (n : ℕ) → 0 < n → 10 ≤ padded_size n
unfolding padded_size
padded_size-ge n h = ground arith

-- Adding an entry whose name has 1 to 255 characters and fits to a block that is a chain of
-- entries: the new entry takes the place of the last one and reaches the end of the block, what is
-- before it and the other blocks stay, and the block is a chain with the same last entry again.
pub add_overwrites :
    (fs : FileSystem) (parent : Inode) (inode last : ℕ) (name : List ℕ)
    → Chain (read_block fs (parent.i_block 0)) last 0
    → 0 < length name
    → length name ≤ 255
    → last + padded_size (length name) ≤ 512
    → inode < 2 ^ 32
    → let p = parent.i_block 0 in
      let fs' = add_inode_to_dir fs parent inode name in
      (entry_inode (fs'.disk p) last ≡ inode)
      × (entry_rec_len (fs'.disk p) last ≡ 512 - last)
      × ((j : ℕ) → j < last → fs'.disk p j ≡ fs.disk p j)
      × ((b : ℕ) → b ≢ p → fs'.disk b ≡ fs.disk b)
      × Chain (fs'.disk p) last 0
unfolding add_inode_to_dir
add_overwrites fs parent inode last name chain h0 h1 fit hi =
    let p = parent.i_block 0 in
    let buf = read_block fs p in
    let w = add_writes fs parent inode last name chain h0 h1 fit in
    let ge = padded_size-ge (length name) h0 in
    let r =
      Chain-written buf ((add_inode_to_dir fs parent inode name).disk p) inode last name chain
        (omega arith) hi (λ j h. rw w (read_written fs p _ j h)) in
    (r.0, r.1, r.2, (λ b ne. rw w (read_other fs p _ b ne)), r.3)

-- A new directory's block is a chain that ends at the entry of "..".
pub fresh-Chain :
    (fs : FileSystem) (node : Inode) (i p : ℕ)
    → i < 2 ^ 32
    → p < 2 ^ 32
    → Chain (read_block (init_directory_table fs node i p) (node.i_block 0)) 12 0
fresh-Chain fs node i p hi hp =
    let t = read_fresh fs node i p hi hp in
    next (omega (arith, t.1)) (omega (arith, t.1))
      (rw t.1 (stop (omega arith) (omega (arith, t.5))))
