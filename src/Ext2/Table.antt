-- ===== src/Ext2/Table.antt =====
-- ext2.c: what goes through the inode table. Its four blocks hold 2048 bytes, the 32 inodes of the
-- struct 2240.
use luma_osjang.Common.{
  ℕ, ◌+◌, ◌-◌, ◌*◌, ◌/◌, ◌%◌, ◌^◌, ◌≤◌, ◌<◌, ◌≡◌, refl, ◌∙◌, ◌≢◌, ◌&&◌, ltb, leb, arith, Bool-cases,
  inl, inr, ◌⊎◌, dec_lt,
}
use luma_osjang.Common.Bytes.{Bytes, get16, get32, put16, put32, get16-ext, get32-ext, get32-put32}
use luma_osjang.Ext2.Numbers.{first_group}
use luma_osjang.Ext2.Disk.{FileSystem, bg_inode_table}
use luma_osjang.Ext2.Inodes.{
  Inode, decode_inode, inode_byte, store_inode, read_table, write_table, read_inode, sync_node,
}

pub read-write_table :
    (fs : FileSystem) (b : ℕ) (a rest : Bytes) (i : ℕ)
    → i < 2048
    → read_table (write_table fs b a) b rest i ≡ a i
unfolding read_table write_table
read-write_table fs b a rest i h =
    let e : (b + i / 512 - b) * 512 + i % 512 ≡ i = omega arith in ground (arith, e)

-- The bytes of a stored inode, and those around it.
store-in :
    (a : Bytes) (at k : ℕ) (node : Inode)
    → k < 70
    → store_inode a at node (at + k) ≡ inode_byte node k
unfolding store_inode
store-in a at k node h = let e : at + k - at ≡ k = omega arith in ground (arith, e)

store-out :
    (a : Bytes) (at j : ℕ) (node : Inode) → (j < at) ⊎ (at + 70 ≤ j) → store_inode a at node j ≡ a j
unfolding store_inode
store-out a at j node h = ground arith

-- The fields that the struct keeps: 16 and 32 bits, and 15 block pointers.
pub record Fits (node : Inode) : Type 0 where
  pub mode : node.i_mode < 2 ^ 16
  pub size : node.i_size < 2 ^ 32
  pub blocks : node.i_blocks < 2 ^ 32
  pub pointers : (k : ℕ) → k < 15 → node.i_block k < 2 ^ 32

pub record SameInode (n m : Inode) : Type 0 where
  pub mode : n.i_mode ≡ m.i_mode
  pub size : n.i_size ≡ m.i_size
  pub blocks : n.i_blocks ≡ m.i_blocks
  pub pointers : (k : ℕ) → k < 15 → n.i_block k ≡ m.i_block k

mode-byte : (node : Inode) → Fits node → get16 (inode_byte node) 0 ≡ node.i_mode
unfolding get16 inode_byte put16
mode-byte node f = ground arith

size-byte : (node : Inode) → Fits node → get32 (inode_byte node) 2 ≡ node.i_size
unfolding get32 inode_byte put32
size-byte node f = ground arith

blocks-byte : (node : Inode) → Fits node → get32 (inode_byte node) 6 ≡ node.i_blocks
unfolding get32 inode_byte put32
blocks-byte node f = ground arith

pointer-byte_at :
    (node : Inode) (k d : ℕ)
    → d < 4
    → inode_byte node (10 + k * 4 + d)
      ≡ put32 (λ _. 0) (10 + k * 4) (node.i_block k) (10 + k * 4 + d)
unfolding inode_byte
pointer-byte_at node k d h =
    let e : (10 + k * 4 + d - 10) / 4 ≡ k = omega arith in ground (arith, e)

pointer-byte :
    (node : Inode) (k : ℕ)
    → Fits node
    → k < 15
    → get32 (inode_byte node) (10 + k * 4) ≡ node.i_block k
pointer-byte node k f h =
    get32-ext (inode_byte node) (put32 (λ _. 0) (10 + k * 4) (node.i_block k)) (10 + k * 4)
      (10 + k * 4) (λ d hd. pointer-byte_at node k d hd)
    ∙ get32-put32 (λ _. 0) (10 + k * 4) (node.i_block k) (f.pointers k h)

-- Reading 32 or 16 bits of an inode, once the table's bytes there are those of the inode.
decode-at :
    (a : Bytes) (at : ℕ) (node : Inode)
    → Fits node
    → ((k : ℕ) → k < 70 → a (at + k) ≡ inode_byte node k)
    → SameInode (decode_inode a at) node
unfolding decode_inode
decode-at a at node f h = record {
  mode =
      get16-ext a (inode_byte node) at 0 (zero_at 0 (omega arith) ∙ refl) (h 1 (omega arith))
      ∙ mode-byte node f;
  size =
      get32-ext a (inode_byte node) (at + 2) 2 (λ d hd. shifted 2 d (omega arith))
      ∙ size-byte node f;
  blocks =
      get32-ext a (inode_byte node) (at + 6) 6 (λ d hd. shifted 6 d (omega arith))
      ∙ blocks-byte node f;
  pointers = λ k hk.
      get32-ext a (inode_byte node) (at + 10 + k * 4) (10 + k * 4)
        (λ d hd. pointer_shifted k d (omega arith))
      ∙ pointer-byte node k f hk;
}
  where
    shifted : (o d : ℕ) → o + d < 70 → a (at + o + d) ≡ inode_byte node (o + d)
    shifted o d lt = let e : at + o + d ≡ at + (o + d) = omega arith in rw e (h (o + d) lt)

    pointer_shifted :
        (k d : ℕ) → 10 + k * 4 + d < 70 → a (at + 10 + k * 4 + d) ≡ inode_byte node (10 + k * 4 + d)
    pointer_shifted k d lt =
        let e : at + 10 + k * 4 + d ≡ at + (10 + k * 4 + d) = omega arith in
        rw e (h (10 + k * 4 + d) lt)

    zero_at : (k : ℕ) → k < 70 → a at ≡ inode_byte node 0
    zero_at k lt = let e : at + 0 ≡ at = omega arith in rw e at (h 0 (omega arith))

read_inode_run :
    (fs : FileSystem) (inode : ℕ) (stale : Inode)
    → 1 ≤ inode
    → inode ≤ 32
    → read_inode fs inode stale
      ≡ decode_inode (read_table fs (bg_inode_table fs 0) (λ _. 0)) ((inode - 1) * 70)
unfolding read_inode
read_inode_run fs inode stale a b = let g = first_group inode a b in ground (arith, g)

sync_node_run :
    (stack : Bytes) (fs : FileSystem) (node : Inode) (inode : ℕ)
    → 1 ≤ inode
    → inode ≤ 32
    → sync_node stack fs node inode
      ≡ write_table fs
          (bg_inode_table fs 0)
          (store_inode (read_table fs (bg_inode_table fs 0) stack) ((inode - 1) * 70) node)
unfolding sync_node
sync_node_run stack fs node inode a b = let g = first_group inode a b in ground (arith, g)

read_table_low :
    (fs : FileSystem) (b : ℕ) (f g : Bytes) (i : ℕ)
    → i < 2048
    → read_table fs b f i ≡ read_table fs b g i
unfolding read_table
read_table_low fs b f g i h = ground arith

-- What a later read sees of the table: the stored array, in the 2048 bytes of the four blocks.
synced :
    (stack : Bytes) (fs : FileSystem) (node : Inode) (inode i : ℕ)
    → 1 ≤ inode
    → inode ≤ 32
    → i < 2048
    → read_table (sync_node stack fs node inode) (bg_inode_table fs 0) (λ _. 0) i
      ≡ store_inode (read_table fs (bg_inode_table fs 0) stack) ((inode - 1) * 70) node i
synced stack fs node inode i a b h =
    rw (sync_node_run stack fs node inode a b)
      (read-write_table fs (bg_inode_table fs 0) _ (λ _. 0) i h)

read_synced :
    (stack : Bytes) (fs : FileSystem) (node : Inode) (inode other : ℕ) (stale : Inode)
    → 1 ≤ other
    → other ≤ 32
    → read_inode (sync_node stack fs node inode) other stale
      ≡ decode_inode
          (read_table (sync_node stack fs node inode) (bg_inode_table fs 0) (λ _. 0))
          ((other - 1) * 70)
unfolding sync_node write_table
read_synced stack fs node inode other stale a b =
    read_inode_run (sync_node stack fs node inode) other stale a b

-- An inode whose fields fit their widths, written to one of the first 29 places, is read back as
-- it was, whatever the stack held.
pub read-sync_node :
    (stack : Bytes) (fs : FileSystem) (node : Inode) (inode : ℕ) (stale : Inode)
    → Fits node
    → 1 ≤ inode
    → inode ≤ 29
    → SameInode (read_inode (sync_node stack fs node inode) inode stale) node
read-sync_node stack fs node inode stale f a b =
    let t = read_table (sync_node stack fs node inode) (bg_inode_table fs 0) (λ _. 0) in
    let old = read_table fs (bg_inode_table fs 0) stack in
    rw (read_synced stack fs node inode inode stale a (omega arith)) (
      decode-at t ((inode - 1) * 70) node f (λ k hk.
        synced stack fs node inode ((inode - 1) * 70 + k) a (omega arith) (omega arith)
        ∙ store-in old ((inode - 1) * 70) k node hk))

decode-same :
    (f g : Bytes) (at : ℕ)
    → ((k : ℕ) → k < 70 → f (at + k) ≡ g (at + k))
    → SameInode (decode_inode f at) (decode_inode g at)
unfolding decode_inode
decode-same f g at h = record {
  mode = get16-ext f g at at start (h 1 (omega arith));
  size = get32-ext f g (at + 2) (at + 2) (λ d hd. moved 2 d (omega arith));
  blocks = get32-ext f g (at + 6) (at + 6) (λ d hd. moved 6 d (omega arith));
  pointers =
      λ k hk. get32-ext f g (at + 10 + k * 4) (at + 10 + k * 4) (λ d hd. far k d (omega arith));
}
  where
    start : f at ≡ g at
    start = let e : at + 0 ≡ at = omega arith in rw e at (h 0 (omega arith))

    moved : (o d : ℕ) → o + d < 70 → f (at + o + d) ≡ g (at + o + d)
    moved o d lt = let e : at + o + d ≡ at + (o + d) = omega arith in rw e (h (o + d) lt)

    far : (k d : ℕ) → 10 + k * 4 + d < 70 → f (at + 10 + k * 4 + d) ≡ g (at + 10 + k * 4 + d)
    far k d lt =
        let e : at + 10 + k * 4 + d ≡ at + (10 + k * 4 + d) = omega arith in
        rw e (h (10 + k * 4 + d) lt)

-- Writing an inode to one of the 32 places leaves what is read from every other of the first 29 as
-- it was.
pub read-sync_node_ne :
    (stack : Bytes) (fs : FileSystem) (node : Inode) (inode other : ℕ) (stale : Inode)
    → 1 ≤ inode
    → inode ≤ 32
    → 1 ≤ other
    → other ≤ 29
    → inode ≢ other
    → SameInode (read_inode (sync_node stack fs node inode) other stale) (read_inode fs other stale)
read-sync_node_ne stack fs node inode other stale a b c d ne =
    let t = read_table (sync_node stack fs node inode) (bg_inode_table fs 0) (λ _. 0) in
    rw
      (
        read_synced stack fs node inode other stale c (omega arith),
        read_inode_run fs other stale c (omega arith),
      )
      (decode-same t (read_table fs (bg_inode_table fs 0) (λ _. 0)) ((other - 1) * 70) (λ k hk.
        synced stack fs node inode ((other - 1) * 70 + k) a b (omega arith)
        ∙ store-out (read_table fs (bg_inode_table fs 0) stack) ((inode - 1) * 70)
            ((other - 1) * 70 + k) node (beside k hk)
        ∙ same_rest k hk))
  where
    beside :
        (k : ℕ)
        → k < 70
        → ((other - 1) * 70 + k < (inode - 1) * 70) ⊎ ((inode - 1) * 70 + 70 ≤ (other - 1) * 70 + k)
    beside k hk = elim (dec_lt other inode) [ yes p ↦ inl (omega arith) | no p ↦ inr (omega arith) ]

    same_rest :
        (k : ℕ)
        → k < 70
        → read_table fs (bg_inode_table fs 0) stack ((other - 1) * 70 + k)
          ≡ read_table fs (bg_inode_table fs 0) (λ _. 0) ((other - 1) * 70 + k)
    same_rest k hk =
        read_table_low fs (bg_inode_table fs 0) stack (λ _. 0) ((other - 1) * 70 + k) (omega arith)

lost_bytes :
    (stack : Bytes) (fs : FileSystem) (b : ℕ) (node : Inode) (at n i : ℕ)
    → 2048 ≤ at
    → (write_table fs b (store_inode (read_table fs b stack) at node)).disk n i ≡ fs.disk n i
unfolding write_table read_table
lost_bytes stack fs b node at n i h = elim (Bool-cases ((leb b n && ltb n (b + 4)) && ltb i 512)) [
  | inl e ↦
      let q : b + ((n - b) * 512 + i) / 512 ≡ n = ground arith in
      let r : ((n - b) * 512 + i) % 512 ≡ i = ground arith in
      let s : (n - b) * 512 + i < 2048 = ground arith in
      ground (
        arith,
        q,
        r,
        s,
        store-out (read_table fs b stack) at ((n - b) * 512 + i) node (inl (omega arith)),
      )
  | inr e ↦ ground arith
]

lost_decode :
    (fs : FileSystem) (b at : ℕ)
    → 2048 ≤ at
    → let m = decode_inode (read_table fs b (λ _. 0)) at in
      (m.i_mode ≡ 0) × (m.i_size ≡ 0) × (m.i_block 0 ≡ 0)
unfolding read_table decode_inode get16 get32
lost_decode fs b at h = (ground arith, ground arith, ground arith)

-- The places 31 and 32 lie behind the four blocks: writing an inode there changes no byte of the
-- disk, and reading it gives no mode, no size and no first block.
pub sync_node_lost :
    (stack : Bytes) (fs : FileSystem) (node : Inode) (inode : ℕ) (stale : Inode)
    → 31 ≤ inode
    → inode ≤ 32
    → let m = read_inode (sync_node stack fs node inode) inode stale in
      ((n i : ℕ) → (sync_node stack fs node inode).disk n i ≡ fs.disk n i)
      × (m.i_mode ≡ 0)
      × (m.i_size ≡ 0)
      × (m.i_block 0 ≡ 0)
sync_node_lost stack fs node inode stale a b =
    let o : 1 ≤ inode = omega arith in
    let l =
      lost_decode (sync_node stack fs node inode) (bg_inode_table fs 0) ((inode - 1) * 70)
        (omega arith) in
    let r = read_synced stack fs node inode inode stale o b in
    (
      λ n i.
          rw (sync_node_run stack fs node inode o b)
            (lost_bytes stack fs (bg_inode_table fs 0) node ((inode - 1) * 70) n i (omega arith)),
      rw r (l.0),
      rw r (l.1),
      rw r (l.2),
    )
