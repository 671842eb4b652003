-- ===== src/FileCalls/Split.antt =====
-- interrupt.c: the bytes of a directory block with a new entry behind the last one.
use luma_osjang.Common.{ℕ, ◌+◌, ◌-◌, ◌%◌, ◌^◌, ◌≤◌, ◌<◌, ◌≡◌, refl, ◌∙◌, ap, ◌≢◌, update, arith}
use luma_osjang.Common.Bytes.{
  Bytes, get16, get32, put16, put32, copy_bytes, get16-ext, get32-ext, get32-put32, get16-put16,
  get32-put16_apart, get16-put16_apart, put16_outside, put32_outside,
}
use luma_osjang.Ext2.Directory.{
  entry_inode, entry_rec_len, entry_name_len, entry_file_type, get_entry_record_len,
}
use luma_osjang.FileCalls.{split_entry}

update_ne : (a : Bytes) (i c j : ℕ) → j ≢ i → update a i c j ≡ a j
update_ne a i c j h = ground arith

update_eq : (a : Bytes) (i c : ℕ) → update a i c i ≡ c
update_eq a i c = ground arith

copy_outside : (a : Bytes) (i : ℕ) (b : Bytes) (n j : ℕ) → j < i → copy_bytes a i b 0 n j ≡ a j
unfolding copy_bytes
copy_outside a i b n j h = ground arith

copy_inside : (a : Bytes) (i : ℕ) (b : Bytes) (n d : ℕ) → d < n → copy_bytes a i b 0 n (i + d) ≡ b d
unfolding copy_bytes
copy_inside a i b n d h = let e : 0 + (i + d - i) ≡ d = omega arith in ground (arith, ap b e)

-- The header that the code writes at `s`, field by field.
header : Bytes → ℕ → ℕ → ℕ → ℕ → ℕ → Bytes
header a s inode len kind rec_len =
    put16 (update (put16 (put32 a s inode) (s + 6) len) (s + 8) kind) (s + 4) rec_len

header_fields :
    (a : Bytes) (s inode len kind rec_len : ℕ)
    → inode < 2 ^ 32
    → len < 2 ^ 16
    → rec_len < 2 ^ 16
    → let b = header a s inode len kind rec_len in
      (get32 b s ≡ inode)
      × (get16 b (s + 4) ≡ rec_len)
      × (get16 b (s + 6) ≡ len)
      × (b (s + 8) ≡ kind)
      × ((j : ℕ) → j < s → b j ≡ a j)
unfolding header
header_fields a s inode len kind rec_len hi hl hr =
    let a1 : Bytes = put32 a s inode in
    let a2 : Bytes = put16 a1 (s + 6) len in
    let a3 : Bytes = update a2 (s + 8) kind in
    let three : (j : ℕ) → j < s + 8 → a3 j ≡ a2 j =
      λ j h. update_ne a2 (s + 8) kind j (omega arith) in
    (
      get32-put16_apart a3 (s + 4) rec_len s (ground arith)
          ∙ get32-ext a3 a2 s s (λ d h. three (s + d) (omega arith))
          ∙ get32-put16_apart a1 (s + 6) len s (ground arith)
          ∙ get32-put32 a s inode hi,
      get16-put16 a3 (s + 4) rec_len hr,
      get16-put16_apart a3 (s + 4) rec_len (s + 6) (ground arith)
          ∙ get16-ext a3 a2 (s + 6) (s + 6) (three (s + 6) (omega arith))
              (three (s + 6 + 1) (omega arith))
          ∙ get16-put16 a1 (s + 6) len hl,
      put16_outside a3 (s + 4) rec_len (s + 8) (ground arith) ∙ update_eq a2 (s + 8) kind,
      λ j h.
          put16_outside a3 (s + 4) rec_len j (ground arith)
          ∙ three j (omega arith)
          ∙ put16_outside a1 (s + 6) len j (ground arith)
          ∙ put32_outside a s inode j (ground arith),
    )

-- What the block with the new entry holds: `s` is where the new entry is.
pub record IsSplit (buf buf' : Bytes) (last s inode : ℕ) (name : Bytes) (len kind : ℕ)
    : Type 0 where
  pub place : s ≡ last + 9 + entry_name_len buf last
  pub cut : entry_rec_len buf' last ≡ 9 + entry_name_len buf last
  pub number : entry_inode buf' s ≡ inode
  pub reach : entry_rec_len buf' s ≡ 512 - s
  pub length : entry_name_len buf' s ≡ len
  pub type : entry_file_type buf' s ≡ kind
  pub chars : (d : ℕ) → d < len → buf' (s + 9 + d) ≡ name d
  pub same : (j : ℕ) → j < s → j ≢ last + 4 → j ≢ last + 5 → buf' j ≡ buf j

split_is :
    (buf : Bytes) (last inode : ℕ) (name : Bytes) (len kind : ℕ)
    → entry_name_len buf last < 256
    → last + 9 + entry_name_len buf last ≤ 512
    → let s = last + 9 + entry_name_len buf last in
      split_entry buf last inode name len kind
      ≡ copy_bytes
          (header (put16 buf (last + 4) (9 + entry_name_len buf last)) s inode len kind (512 - s))
          (s + 9)
          name
          0
          len
unfolding split_entry get_entry_record_len header
split_is buf last inode name len kind hn hs =
    let n = entry_name_len buf last in
    let a : (9 + n % 2 ^ 8) % 2 ^ 16 ≡ 9 + n = omega arith in
    let b : last + (9 + n) ≡ last + 9 + n = omega arith in
    let c : (512 + 2 ^ 16 - (last + 9 + n)) % 2 ^ 16 ≡ 512 - (last + 9 + n) = omega arith in
    rw a (rw b (rw c refl))

pub split_entry-IsSplit :
    (buf : Bytes) (last inode : ℕ) (name : Bytes) (len kind : ℕ)
    → entry_name_len buf last < 256
    → last + 9 + entry_name_len buf last ≤ 512
    → inode < 2 ^ 32
    → len < 2 ^ 16
    → IsSplit buf
        (split_entry buf last inode name len kind)
        last
        (last + 9 + entry_name_len buf last)
        inode
        name
        len
        kind
split_entry-IsSplit buf last inode name len kind hn hs hi hl =
    let n = entry_name_len buf last in
    let s = last + 9 + n in
    let cut : Bytes = put16 buf (last + 4) (9 + n) in
    let h : Bytes = header cut s inode len kind (512 - s) in
    let f = header_fields cut s inode len kind (512 - s) hi hl (omega arith) in
    let b : Bytes = copy_bytes h (s + 9) name 0 len in
    let out : (j : ℕ) → j < s + 9 → b j ≡ h j = λ j hj. copy_outside h (s + 9) name len j hj in
    let below : (j : ℕ) → j < s → b j ≡ cut j = λ j hj. out j (omega arith) ∙ f.4 j hj in
    rw (split_is buf last inode name len kind hn hs) (record {
      place = refl;
      cut =
          get16-ext b cut (last + 4) (last + 4) (below (last + 4) (omega arith))
            (below (last + 4 + 1) (omega arith))
          ∙ get16-put16 buf (last + 4) (9 + n) (omega arith);
      number = get32-ext b h s s (λ d hd. out (s + d) (omega arith)) ∙ f.0;
      reach =
          get16-ext b h (s + 4) (s + 4) (out (s + 4) (omega arith)) (out (s + 4 + 1) (omega arith))
          ∙ f.1;
      length =
          get16-ext b h (s + 6) (s + 6) (out (s + 6) (omega arith)) (out (s + 6 + 1) (omega arith))
          ∙ f.2;
      type = out (s + 8) (omega arith) ∙ f.3;
      chars = λ d hd. copy_inside h (s + 9) name len d hd;
      same = λ j hj a b. below j hj ∙ put16_outside buf (last + 4) (9 + n) j (ground arith);
    })
