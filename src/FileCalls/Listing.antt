-- ===== src/FileCalls/Listing.antt =====
-- interrupt.c: the entries of a directory block, as the walks of the file operations see them.
use luma_osjang.Common.{
  ℕ, zero, suc, ◌+◌, ◌≤◌, ◌<◌, ◌≡◌, refl, ◌∙◌, sym, ◌≢◌, false, Option, none, some, if◌then◌else◌,
  arith,
}
use luma_osjang.Common.Bytes.{Bytes, get16-ext, get32-ext}
use luma_osjang.Ext2.Directory.{entry_inode, entry_rec_len, entry_name_len}
use luma_osjang.FileCalls.{names_match, has_name, ends_walk, find_in_block, last_in_block}

-- An entry in use, whose record holds its name and ends within the block.
pub record IsEntry (buf : Bytes) (offset : ℕ) : Type 0 where
  pub used : entry_inode buf offset ≢ 0
  pub holds : 9 + entry_name_len buf offset ≤ entry_rec_len buf offset
  pub within : offset + entry_rec_len buf offset ≤ 512

-- From `offset` on the entries follow each other, and the one at `last` reaches the block's end.
pub data Listing (buf : Bytes) (last : ℕ) : ℕ → Type 0 where
  stop : IsEntry buf last → last + entry_rec_len buf last ≡ 512 → Listing buf last last
  next :
      {offset : ℕ}
      → IsEntry buf offset
      → Listing buf last (offset + entry_rec_len buf offset)
      → Listing buf last offset

pub IsEntry-lt : {buf : Bytes} {offset : ℕ} → IsEntry buf offset → offset < 512
IsEntry-lt e = omega (arith, e.holds, e.within)

pub Listing-le : {buf : Bytes} {last offset : ℕ} → Listing buf last offset → offset ≤ last
Listing-le (stop e h) = omega arith
Listing-le (next e r) = omega (arith, Listing-le r)

pub Listing-lt : {buf : Bytes} {last offset : ℕ} → Listing buf last offset → last < 512
Listing-lt (stop e h) = IsEntry-lt e
Listing-lt (next e r) = Listing-lt r

pub Listing-end :
    {buf : Bytes} {last offset : ℕ} → Listing buf last offset → last + entry_rec_len buf last ≡ 512
Listing-end (stop e h) = h
Listing-end (next e r) = Listing-end r

pub ends_walk-IsEntry :
    (buf : Bytes) (offset : ℕ) → IsEntry buf offset → ends_walk buf offset ≡ false
unfolding ends_walk
ends_walk-IsEntry buf offset e = ground (arith, e.used, e.holds, e.within)

-- One round of a walk at an entry.
pub find_step :
    (buf name : Bytes) (len n offset : ℕ)
    → IsEntry buf offset
    → find_in_block buf name len (suc n) offset ≡ (
        if has_name buf offset name len
        then some offset
        else find_in_block buf name len n (offset + entry_rec_len buf offset))
unfolding find_in_block
find_step buf name len n offset e = ground (arith, ends_walk-IsEntry buf offset e, IsEntry-lt e)

pub find_end :
    (buf name : Bytes) (len n offset : ℕ)
    → 512 ≤ offset
    → find_in_block buf name len n offset ≡ none
unfolding find_in_block
find_end buf name len zero offset h = refl
find_end buf name len (suc n) offset h = ground arith

last_end :
    (buf : Bytes) (n offset : ℕ) (l : Option ℕ) → 512 ≤ offset → last_in_block buf n offset l ≡ l
unfolding last_in_block
last_end buf zero offset l h = refl
last_end buf (suc n) offset l h = ground arith

last_step :
    (buf : Bytes) (n offset : ℕ) (l : Option ℕ)
    → IsEntry buf offset
    → last_in_block buf (suc n) offset l
      ≡ last_in_block buf n (offset + entry_rec_len buf offset) (some offset)
unfolding last_in_block
last_step buf n offset l e = ground (arith, ends_walk-IsEntry buf offset e, IsEntry-lt e)

-- The walk to the last entry of a listing gets there.
pub last_in_block-Listing :
    {buf : Bytes} {last : ℕ} (n offset : ℕ) (l : Option ℕ)
    → Listing buf last offset
    → 512 ≤ n + offset
    → last_in_block buf n offset l ≡ some last
last_in_block-Listing zero offset l r h = absurd (omega (arith, Listing-le r, Listing-lt r))
last_in_block-Listing {buf} {last} (suc n) offset l (stop e q) h =
    last_step buf n last l e
    ∙ last_end buf n (last + entry_rec_len buf last) (some last) (omega arith)
last_in_block-Listing {buf} {last} (suc n) offset l (next e r) h =
    last_step buf n offset l e
    ∙ last_in_block-Listing n (offset + entry_rec_len buf offset) (some offset) r
        (omega (arith, e.holds))

-- The names are compared by the bytes they have.
pub names_match-ext :
    (f g : Bytes) (at at' : ℕ) (name : Bytes) (n i : ℕ)
    → ((d : ℕ) → d < n → f (at + (i + d)) ≡ g (at' + (i + d)))
    → names_match f at name n i ≡ names_match g at' name n i
unfolding names_match
names_match-ext f g at at' name zero i h = refl
names_match-ext f g at at' name (suc n) i h =
    let z : i + 0 ≡ i = omega arith in
    let first : f (at + i) ≡ g (at' + i) = rw z at (h 0 (omega arith)) in
    let shift : (d : ℕ) → i + 1 + d ≡ i + suc d = λ d. omega arith in
    ground (
      arith,
      first,
      names_match-ext f g at at' name n (i + 1) (λ d hd. rw (shift d) (h (suc d) (omega arith))),
    )

-- An entry whose bytes, but for its record length, are the same in another block.
pub has_name-ext :
    (f g : Bytes) (offset : ℕ) (name : Bytes) (len : ℕ)
    → ((d : ℕ) → 6 ≤ d → d < 9 + entry_name_len g offset → f (offset + d) ≡ g (offset + d))
    → has_name f offset name len ≡ has_name g offset name len
unfolding has_name
has_name-ext f g offset name len h =
    let six : offset + 6 + 1 ≡ offset + 7 = omega arith in
    let same_len : entry_name_len f offset ≡ entry_name_len g offset =
      get16-ext f g (offset + 6) (offset + 6) (h 6 (omega arith) (omega arith))
        (rw six (h 7 (omega arith) (omega arith))) in
    let shift : (d : ℕ) → offset + 9 + (0 + d) ≡ offset + (9 + d) = λ d. omega arith in
    let names : names_match f (offset + 9) name (entry_name_len g offset) 0
        ≡ names_match g (offset + 9) name (entry_name_len g offset) 0 =
      names_match-ext f g (offset + 9) (offset + 9) name (entry_name_len g offset) 0
        (λ d hd. rw (shift d) (h (9 + d) (omega arith) (omega arith))) in
    rw same_len (rw names refl)

pub rec_len-ext :
    (f g : Bytes) (offset : ℕ)
    → ((d : ℕ) → d < 9 → f (offset + d) ≡ g (offset + d))
    → entry_rec_len f offset ≡ entry_rec_len g offset
rec_len-ext f g offset h =
    let five : offset + 4 + 1 ≡ offset + 5 = omega arith in
    get16-ext f g (offset + 4) (offset + 4) (h 4 (omega arith)) (rw five (h 5 (omega arith)))

pub IsEntry-ext :
    (f g : Bytes) (offset : ℕ)
    → ((d : ℕ) → d < 9 → f (offset + d) ≡ g (offset + d))
    → IsEntry g offset
    → IsEntry f offset
IsEntry-ext f g offset h e =
    let r = rec_len-ext f g offset h in
    let six : offset + 6 + 1 ≡ offset + 7 = omega arith in
    let n : entry_name_len f offset ≡ entry_name_len g offset =
      get16-ext f g (offset + 6) (offset + 6) (h 6 (omega arith)) (rw six (h 7 (omega arith))) in
    let i : entry_inode f offset ≡ entry_inode g offset =
      get32-ext f g offset offset (λ d hd. h d (omega arith)) in
    record {
      used = λ z. e.used (sym i ∙ z);
      holds = omega (arith, r, n, e.holds);
      within = omega (arith, r, e.within);
    }
