-- ===== src/FileCalls/Append.antt =====
-- interrupt.c: a new entry behind the last one of a directory block.
use luma_osjang.Common.{
  ℕ, zero, suc, ◌+◌, ◌^◌, ◌≤◌, ◌<◌, ◌≡◌, refl, ◌∙◌, sym, ap, ◌≢◌, Bool, true, false, ◌&&◌, Option,
  none, some, ◌==◌, if◌then◌else◌, arith,
}
use luma_osjang.Common.Bytes.{Bytes, get16-ext, get32-ext}
use luma_osjang.Ext2.Directory.{
  entry_inode, entry_rec_len, entry_name_len, entry_file_type, get_entry_record_len,
}
use luma_osjang.FileCalls.{
  names_match, has_name, find_in_block, split_entry, has_room, append_in_block,
}
use luma_osjang.FileCalls.Split.{IsSplit, split_entry-IsSplit}
use luma_osjang.FileCalls.Listing.{
  IsEntry, Listing, stop, next, Listing-le, Listing-lt, Listing-end, find_step, find_end,
  last_in_block-Listing, names_match-ext, has_name-ext,
}

abbrev pub or_else : Option ℕ → Option ℕ → Option ℕ
or_else (some o) m = some o
or_else none m = m

or_else-if :
    (b : Bool) (o : ℕ) (m : Option ℕ)
    → (if b then some o else m) ≡ or_else (if b then some o else none) m
or_else-if true o m = refl
or_else-if false o m = refl

or_else-step :
    (b : Bool) (o : ℕ) (r r' m : Option ℕ)
    → r' ≡ or_else r m
    → (if b then some o else r') ≡ or_else (if b then some o else r) m
or_else-step true o r r' m e = refl
or_else-step false o r r' m e = e

module _ {buf buf' : Bytes} {last s inode : ℕ} {name : Bytes} {len kind : ℕ}
    (split : IsSplit buf buf' last s inode name len kind) where
  before : (j : ℕ) → j < last → buf' j ≡ buf j
  before j h =
      split.same j (omega (arith, split.place)) (λ e. omega (arith, e)) (λ e. omega (arith, e))

  -- An entry before the last one is the same.
  rec_len-before :
      (offset : ℕ) → offset + 9 ≤ last → entry_rec_len buf' offset ≡ entry_rec_len buf offset
  rec_len-before offset h =
      get16-ext buf' buf (offset + 4) (offset + 4) (before (offset + 4) (omega arith))
        (before (offset + 4 + 1) (omega arith))

  name_len-before :
      (offset : ℕ) → offset + 9 ≤ last → entry_name_len buf' offset ≡ entry_name_len buf offset
  name_len-before offset h =
      get16-ext buf' buf (offset + 6) (offset + 6) (before (offset + 6) (omega arith))
        (before (offset + 6 + 1) (omega arith))

  inode-before : (offset : ℕ) → offset + 9 ≤ last → entry_inode buf' offset ≡ entry_inode buf offset
  inode-before offset h =
      get32-ext buf' buf offset offset (λ d hd. before (offset + d) (omega arith))

  IsEntry-before :
      (offset : ℕ)
      → IsEntry buf offset
      → offset + entry_rec_len buf offset ≤ last
      → IsEntry buf' offset
  IsEntry-before offset e le =
      let h : offset + 9 ≤ last = omega (arith, e.holds) in
      let r = rec_len-before offset h in
      record {
        used = λ z. e.used (sym (inode-before offset h) ∙ z);
        holds = omega (arith, r, name_len-before offset h, e.holds);
        within = omega (arith, r, e.within);
      }

  has_name-before :
      (offset : ℕ) (nm : Bytes) (l : ℕ)
      → offset + 9 + entry_name_len buf offset ≤ last
      → has_name buf' offset nm l ≡ has_name buf offset nm l
  has_name-before offset nm l le =
      has_name-ext buf' buf offset nm l (λ d a b. before (offset + d) (omega arith))

  -- The last one keeps all but the length of its record.
  in_last :
      (d : ℕ) → d < 9 + entry_name_len buf last → d ≢ 4 → d ≢ 5 → buf' (last + d) ≡ buf (last + d)
  in_last d h a b =
      split.same (last + d) (omega (arith, split.place)) (λ e. a (omega (arith, e)))
        (λ e. b (omega (arith, e)))

  has_name-last : (nm : Bytes) (l : ℕ) → has_name buf' last nm l ≡ has_name buf last nm l
  has_name-last nm l =
      has_name-ext buf' buf last nm l
        (λ d a b. in_last d b (λ e. omega (arith, e)) (λ e. omega (arith, e)))

  inode-last : entry_inode buf' last ≡ entry_inode buf last
  inode-last =
      get32-ext buf' buf last last
        (λ d hd. in_last d (omega arith) (λ e. omega (arith, e)) (λ e. omega (arith, e)))

  name_len-last : entry_name_len buf' last ≡ entry_name_len buf last
  name_len-last =
      let six : last + 6 + 1 ≡ last + 7 = omega arith in
      get16-ext buf' buf (last + 6) (last + 6)
        (in_last 6 (omega arith) (λ e. omega (arith, e)) (λ e. omega (arith, e)))
        (rw six (in_last 7 (omega arith) (λ e. omega (arith, e)) (λ e. omega (arith, e))))

  module _ (fits : s + 9 + len ≤ 512) (number : inode ≢ 0) where
    IsEntry-last : IsEntry buf last → IsEntry buf' last
    IsEntry-last e = record {
      used = λ z. e.used (sym inode-last ∙ z);
      holds = omega (arith, split.cut, name_len-last);
      within = omega (arith, split.cut, split.place);
    }

    IsEntry-new : IsEntry buf' s
    IsEntry-new = record {
      used = λ z. number (sym split.number ∙ z);
      holds = omega (arith, split.reach, split.length);
      within = omega (arith, split.reach);
    }

    -- The entries with the new one behind them.
    Listing-split : {offset : ℕ} → Listing buf last offset → Listing buf' s offset
    Listing-split (stop e h) =
        let q : last + entry_rec_len buf' last ≡ s = omega (arith, split.cut, split.place) in
        next (IsEntry-last e) (rw q (stop IsEntry-new (omega (arith, split.reach))))
    Listing-split {offset} (next e r) =
        let le = Listing-le r in
        let q = rec_len-before offset (omega (arith, e.holds)) in
        next (IsEntry-before offset e le) (rw q (Listing-split r))

    -- A name is looked up among the old entries first.
    find-split :
        (nm : Bytes) (l n offset : ℕ)
        → Listing buf last offset
        → 512 ≤ n + offset
        → find_in_block buf' nm l n offset
          ≡ or_else
              (find_in_block buf nm l n offset)
              (if has_name buf' s nm l then some s else none)
    find-split nm l zero offset r h = absurd (omega (arith, Listing-le r, Listing-lt r))
    find-split nm l (suc zero) offset (stop e q) h = absurd (omega (arith, split.place))
    find-split nm l (suc (suc n)) offset (stop e q) h =
        let to_new : last + entry_rec_len buf' last ≡ s = omega (arith, split.cut, split.place) in
        rw
          (
            find_step buf' nm l (suc n) last (IsEntry-last e),
            find_step buf nm l (suc n) last e,
            has_name-last nm l,
            to_new,
            find_step buf' nm l n s IsEntry-new,
            find_end buf nm l (suc n) (last + entry_rec_len buf last) (omega arith),
            find_end buf' nm l n (s + entry_rec_len buf' s) (omega (arith, split.reach)),
          )
          (or_else-if (has_name buf last nm l) last (if has_name buf' s nm l then some s else none))
    find-split nm l (suc n) offset (next e r) h =
        let le = Listing-le r in
        let q = rec_len-before offset (omega (arith, e.holds)) in
        rw
          (
            find_step buf' nm l n offset (IsEntry-before offset e le),
            find_step buf nm l n offset e,
            has_name-before offset nm l (omega (arith, e.holds)),
            q,
          )
          (or_else-step (has_name buf offset nm l) offset _ _ _
            (find-split nm l n (offset + entry_rec_len buf offset) r (omega (arith, e.holds))))

-- The name of `len` characters at the head of `name` is the `l` characters of `nm`.
abbrev pub same_name : Bytes → ℕ → Bytes → ℕ → Bool
same_name name len nm l = (len == l) && names_match name 0 nm len 0

has_name-new :
    {buf buf' : Bytes} {last s inode : ℕ} {name : Bytes} {len kind : ℕ}
    → IsSplit buf buf' last s inode name len kind
    → (nm : Bytes) (l : ℕ) → has_name buf' s nm l ≡ same_name name len nm l
unfolding has_name
has_name-new {buf} {buf'} {last} {s} {inode} {name} {len} split nm l =
    rw
      (
        split.length,
        names_match-ext buf' name (s + 9) 0 nm len 0
            (λ d h. let a : 0 + d ≡ d = omega arith in rw a (rw a (split.chars d h))),
      )
      refl

has_room-fits :
    (buf : Bytes) (last len : ℕ)
    → entry_name_len buf last < 256
    → 18 + entry_name_len buf last + len ≤ entry_rec_len buf last
    → entry_rec_len buf last < 2 ^ 16
    → has_room buf last len ≡ true
unfolding has_room get_entry_record_len
has_room-fits buf last len hn h hr = ground arith

-- Adding an entry to a block of entries that follow each other up to the block's end, whose last
-- record has room for it: the last entry's record is cut to its size, the new entry follows it up
-- to the end, and every name is found where it was found before, or else at the new entry if it is
-- that entry's name.
pub append_lookup :
    (buf : Bytes) (last inode : ℕ) (name : Bytes) (len kind : ℕ)
    → Listing buf last 0
    → entry_name_len buf last < 256
    → 18 + entry_name_len buf last + len ≤ entry_rec_len buf last
    → inode ≢ 0
    → inode < 2 ^ 32
    → let s = last + 9 + entry_name_len buf last in
      (buf' : Bytes) × (append_in_block buf inode name len kind ≡ some buf')
      × Listing buf' s 0
      × (entry_inode buf' s ≡ inode)
      × (entry_file_type buf' s ≡ kind)
      × ((nm : Bytes) (l : ℕ)
          → find_in_block buf' nm l 512 0
            ≡ or_else
                (find_in_block buf nm l 512 0)
                (if same_name name len nm l then some s else none))
unfolding append_in_block
append_lookup buf last inode name len kind r hn room ne hi =
    let end = Listing-end r in
    let split =
      split_entry-IsSplit buf last inode name len kind hn (omega (arith, end)) hi
        (omega (arith, end)) in
    let fits : last + 9 + entry_name_len buf last + 9 + len ≤ 512 = omega (arith, end) in
    (
      split_entry buf last inode name len kind,
      rw
          (
            last_in_block-Listing 512 0 none r (omega arith),
            has_room-fits buf last len hn room (omega (arith, end)),
            append_in_block,
          )
          refl,
      Listing-split split fits ne r,
      split.number,
      split.type,
      λ nm l.
          find-split split fits ne nm l 512 0 r (omega arith)
          ∙ ap
              (λ b.
                or_else (find_in_block buf nm l 512 0)
                  (if b then some (last + 9 + entry_name_len buf last) else none))
              (has_name-new split nm l),
    )
