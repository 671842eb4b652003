-- ===== src/Builtins/Lookup/Walk.antt =====
-- builtin_commands.c and interrupt.c: the shell's walk along a block of a directory and the kernel's.
use luma_osjang.Common.{
  ℕ, zero, suc, ◌+◌, ◌≤◌, ◌<◌, ◌≡◌, refl, ◌∙◌, true, false, none, some, List, ltb, ◌==◌,
  if◌then◌else◌, arith, length, Bool-cases, inl, inr,
}
use luma_osjang.Common.Bytes.{Bytes, put_name}
use luma_osjang.Ext2.Directory.{entry_rec_len, entry_name_len}
use luma_osjang.FileCalls.{names_match, has_name, find_in_block}
use luma_osjang.FileCalls.Listing.{
  IsEntry, IsEntry-lt, find_step, find_end, has_name-ext, rec_len-ext, IsEntry-ext,
}
use luma_osjang.Builtins.Lookup.{
  stops_lookup, skips, is_match, entry_name_length, chars_match, lookup_from, search_length,
}

-- From an offset on there are at most so many entries, none of them longer than 500, and the one at
-- `last` reaches the block's end.
pub data Shown (buf : Bytes) (last : ℕ) : ℕ → ℕ → Type 0 where
  stop :
      {n : ℕ}
      → IsEntry buf last
      → entry_rec_len buf last ≤ 500
      → last + entry_rec_len buf last ≡ 512
      → Shown buf last (suc n) last
  next :
      {n offset : ℕ}
      → IsEntry buf offset
      → entry_rec_len buf offset ≤ 500
      → Shown buf last n (offset + entry_rec_len buf offset)
      → Shown buf last (suc n) offset

abbrev pub array_of : List ℕ → Bytes
array_of name = put_name (λ _. 0) 0 name

chars_match-names_match :
    (nm buf : Bytes) (at n i : ℕ) → chars_match nm buf at n i ≡ names_match buf at nm n i
unfolding chars_match names_match
chars_match-names_match nm buf at zero i = refl
chars_match-names_match nm buf at (suc n) i =
    ground (arith, chars_match-names_match nm buf at n (i + 1))

-- The tests of the two walks on one entry.
module _ (f : Bytes) (offset : ℕ) (e : IsEntry f offset)
    (short : entry_rec_len f offset ≤ 500) where
  stops_lookup-IsEntry : stops_lookup f offset ≡ false
  unfolding stops_lookup
  stops_lookup-IsEntry = ground (arith, e.holds, e.within, short)

  entry_name_length_lem : entry_name_length f offset ≡ entry_name_len f offset
  unfolding entry_name_length
  entry_name_length_lem = ground (arith, e.holds, e.within)

  is_match-has_name :
      (name : List ℕ)
      → 0 < length name
      → length name ≤ 255
      → is_match f offset name ≡ has_name f offset (array_of name) (length name)
  unfolding is_match has_name
  is_match-has_name name h k =
      let s : search_length name ≡ length name = ground arith in
      let l : entry_name_length f offset ≡ entry_name_len f offset = entry_name_length_lem in
      let c = chars_match-names_match (array_of name) f (offset + 9) (length name) 0 in
      elim (Bool-cases (length name == entry_name_len f offset)) [
        | inl q ↦
            let same : entry_name_len f offset ≡ length name = ground (arith, q) in
            let p : (length name == length name) ≡ true = ground arith in
            let pos : ltb 0 (length name) ≡ true = ground arith in rw (s, l, same, p, pos) c
        | inr q ↦
            let p : (entry_name_len f offset == length name) ≡ false = ground (arith, q) in
            rw (s, l, q, p) refl
      ]

  has_name-skips :
      (name : List ℕ)
      → 0 < length name
      → length name ≤ 255
      → skips f offset ≡ true
      → has_name f offset (array_of name) (length name) ≡ false
  unfolding skips has_name
  has_name-skips name h k q = ground (arith, e.used)

  -- One round at an entry.
  lookup_step :
      (name : List ℕ) (n : ℕ)
      → 0 < length name
      → length name ≤ 255
      → lookup_from f name (suc n) offset ≡ (
          if has_name f offset (array_of name) (length name)
          then some offset
          else lookup_from f name n (offset + entry_rec_len f offset))
  unfolding lookup_from
  lookup_step name n h k = elim (Bool-cases (skips f offset)) [
    | inl q ↦ ground (arith, stops_lookup-IsEntry, IsEntry-lt e, has_name-skips name h k q)
    | inr q ↦ ground (arith, stops_lookup-IsEntry, IsEntry-lt e, is_match-has_name name h k)
  ]

lookup_end :
    (f : Bytes) (name : List ℕ) (n offset : ℕ)
    → stops_lookup f offset ≡ true
    → lookup_from f name n offset ≡ none
unfolding lookup_from
lookup_end f name zero offset h = refl
lookup_end f name (suc n) offset h = ground arith

-- Two arrays that are the same on the block: the shell's, which goes on behind it, and the block.
module _ (f g : Bytes) (same : (i : ℕ) → i < 512 → f i ≡ g i) (name : List ℕ) where
  shown_step :
      (n offset : ℕ)
      → 0 < length name
      → length name ≤ 255
      → IsEntry g offset
      → entry_rec_len g offset ≤ 500
      → lookup_from f name (suc n) offset ≡ (
          if has_name g offset (array_of name) (length name)
          then some offset
          else lookup_from f name n (offset + entry_rec_len g offset))
  shown_step n offset h k e short =
      let nine : (d : ℕ) → d < 9 → f (offset + d) ≡ g (offset + d) =
        λ d hd. same (offset + d) (omega (arith, e.holds, e.within)) in
      let r = rec_len-ext f g offset nine in
      let e' = IsEntry-ext f g offset nine e in
      let short' : entry_rec_len f offset ≤ 500 = omega (arith, r, short) in
      let same_name =
        has_name-ext f g offset (array_of name) (length name)
          (λ d a b. same (offset + d) (omega (arith, e.holds, e.within))) in
      lookup_step f offset e' short' name n h k ∙ rw (same_name, r) refl

  pub lookup_from-find_in_block :
      (last k n m offset : ℕ)
      → 0 < length name
      → length name ≤ 255
      → stops_lookup f 512 ≡ true
      → Shown g last k offset
      → k ≤ n
      → 512 ≤ m + offset
      → lookup_from f name n offset ≡ find_in_block g (array_of name) (length name) m offset
  lookup_from-find_in_block last zero n m offset h l end r kn hm = elim r [ ]
  lookup_from-find_in_block last (suc k) zero m offset h l end r kn hm = absurd (omega (arith, kn))
  lookup_from-find_in_block last (suc k) (suc n) zero offset h l end (stop e s q) kn hm =
      absurd (omega (arith, IsEntry-lt e))
  lookup_from-find_in_block last (suc k) (suc n) zero offset h l end (next e s r) kn hm =
      absurd (omega (arith, IsEntry-lt e))
  lookup_from-find_in_block last (suc k) (suc n) (suc m) offset h l end (stop e s q) kn hm =
      rw
        (
          shown_step n offset h l e s,
          find_step g (array_of name) (length name) m offset e,
          find_end g (array_of name) (length name) m (offset + entry_rec_len g offset)
              (omega arith),
          q,
          lookup_end f name n 512 end,
        )
        refl
  lookup_from-find_in_block last (suc k) (suc n) (suc m) offset h l end (next e s r) kn hm =
      rw
        (
          shown_step n offset h l e s,
          find_step g (array_of name) (length name) m offset e,
          lookup_from-find_in_block last k n m (offset + entry_rec_len g offset) h l end r
              (omega (arith, kn)) (omega (arith, e.holds)),
        )
        refl

-- A name that is found is an entry's.
find_none : (buf nm : Bytes) (len offset o : ℕ) → find_in_block buf nm len zero offset ≡ some o → ⊥
unfolding find_in_block
find_none buf nm len offset o e = cc e

pub find_in_block-IsEntry :
    {buf : Bytes} {last : ℕ} (nm : Bytes) (len k n offset o : ℕ)
    → Shown buf last k offset
    → find_in_block buf nm len n offset ≡ some o
    → IsEntry buf o
find_in_block-IsEntry {buf} {last} nm len k zero offset o r e =
    absurd (find_none buf nm len offset o e)
find_in_block-IsEntry {buf} {last} nm len zero (suc n) offset o r e = elim r [ ]
find_in_block-IsEntry {buf} {last} nm len (suc k) (suc n) offset o (stop x s q) e =
    elim (Bool-cases (has_name buf offset nm len)) [
      | inl h ↦ let here : o ≡ offset = ground (arith, find_step buf nm len n offset x) in rw here x
      | inr h ↦ absurd (
          ground (
            arith,
            find_step buf nm len n offset x,
            find_end buf nm len n (offset + entry_rec_len buf offset),
          ))
    ]
find_in_block-IsEntry {buf} {last} nm len (suc k) (suc n) offset o (next x s r) e =
    elim (Bool-cases (has_name buf offset nm len)) [
      | inl h ↦ let here : o ≡ offset = ground (arith, find_step buf nm len n offset x) in rw here x
      | inr h ↦
          find_in_block-IsEntry nm len k n (offset + entry_rec_len buf offset) o r
            (ground (arith, find_step buf nm len n offset x))
    ]
