-- ===== src/FileCalls/Removed.antt =====
-- interrupt.c: a directory block whose entry went to the one before it.
use luma_osjang.Common.{
  ℕ, zero, suc, ◌+◌, ◌%◌, ◌^◌, ◌≤◌, ◌<◌, ◌≡◌, refl, ◌∙◌, sym, ap, ◌≢◌, ◌⊎◌, some, arith, inl, inr,
}
use luma_osjang.Common.Bytes.{Bytes, get16-ext, get32-ext, get16-put16, put16_outside}
use luma_osjang.Ext2.Directory.{entry_inode, entry_rec_len, entry_name_len, at_offset}
use luma_osjang.FileCalls.{has_name, find_in_block}
use luma_osjang.FileCalls.Delete.{find_previous, grow_record, remove_at}
use luma_osjang.FileCalls.Listing.{
  IsEntry, Listing, stop, next, IsEntry-lt, find_step, find_end, has_name-ext, rec_len-ext,
  IsEntry-ext,
}
use luma_osjang.FileCalls.Remove.{
  Before, here, there, find_previous-Before, Before-le, Before-lt, Before-rec_len, find-Before,
  find-agree, Kept, Kept-step, Kept-here,
}

-- A name is found at or behind the offset the walk starts from.
find_from :
    (buf nm : Bytes) (l n offset o : ℕ) → find_in_block buf nm l n offset ≡ some o → offset ≤ o
unfolding find_in_block
find_from buf nm l zero offset o e = absurd (cc e)
find_from buf nm l (suc n) offset o e =
    ground (arith, find_from buf nm l n (offset + entry_rec_len buf offset) o)

-- The record at `prev` takes in the one at `target`.
record IsGrown (buf buf' : Bytes) (prev target : ℕ) : Type 0 where
  pub same : (j : ℕ) → j ≢ prev + 4 → j ≢ prev + 5 → buf' j ≡ buf j
  pub grown : prev + entry_rec_len buf' prev ≡ target + entry_rec_len buf target

grow_record-IsGrown :
    (buf : Bytes) (prev target : ℕ)
    → prev + entry_rec_len buf prev ≡ target
    → target + entry_rec_len buf target ≤ 512
    → IsGrown buf (grow_record buf prev (entry_rec_len buf target)) prev target
unfolding grow_record
grow_record-IsGrown buf prev target q h =
    let fits : (entry_rec_len buf prev + entry_rec_len buf target) % 2 ^ 16
        ≡ entry_rec_len buf prev + entry_rec_len buf target =
      omega arith in
    let five : prev + 4 + 1 ≡ prev + 5 = omega arith in
    rw fits (record {
      same = λ j a b.
          put16_outside buf (prev + 4) (entry_rec_len buf prev + entry_rec_len buf target) j
            (ground (arith, a, b, five));
      grown =
          ap (λ r. prev + r)
            (get16-put16 buf (prev + 4) (entry_rec_len buf prev + entry_rec_len buf target)
              (omega arith))
          ∙ omega arith;
    })

target-IsEntry : {buf : Bytes} {target last : ℕ} → Listing buf last target → IsEntry buf target
target-IsEntry (stop e h) = e
target-IsEntry (next e r) = e

-- What follows an entry.
tail :
    {buf : Bytes} {last offset : ℕ}
    → Listing buf last offset
    → (offset + entry_rec_len buf offset ≡ 512)
      ⊎ Listing buf last (offset + entry_rec_len buf offset)
tail (stop e q) = inl q
tail (next e r) = inr r

-- Entries that are the same from an offset on.
Listing-ext :
    (f g : Bytes) (last offset : ℕ)
    → ((j : ℕ) → offset ≤ j → f j ≡ g j)
    → Listing g last offset
    → Listing f last offset
Listing-ext f g last offset same (stop e q) =
    let nine : (d : ℕ) → d < 9 → f (offset + d) ≡ g (offset + d) =
      λ d h. same (offset + d) (omega arith) in
    stop (IsEntry-ext f g offset nine e) (omega (arith, q, rec_len-ext f g offset nine))
Listing-ext f g last offset same (next e r) =
    let nine : (d : ℕ) → d < 9 → f (offset + d) ≡ g (offset + d) =
      λ d h. same (offset + d) (omega arith) in
    let q = rec_len-ext f g offset nine in
    next (IsEntry-ext f g offset nine e) (
      rw q (Listing-ext f g last (offset + entry_rec_len g offset) (λ j h. same j (omega arith)) r))

module _ {buf buf' : Bytes} {prev target : ℕ} (grow : IsGrown buf buf' prev target) where
  after : (j : ℕ) → prev + 9 ≤ j → buf' j ≡ buf j
  after j h = grow.same j (λ e. omega (arith, e)) (λ e. omega (arith, e))

  before : (j : ℕ) → j < prev → buf' j ≡ buf j
  before j h = grow.same j (λ e. omega (arith, e)) (λ e. omega (arith, e))

  has_name-same :
      (nm : Bytes) (l offset : ℕ)
      → (offset ≡ prev) ⊎ (offset + 9 + entry_name_len buf offset ≤ prev)
      → has_name buf' offset nm l ≡ has_name buf offset nm l
  has_name-same nm l offset (inl q) =
      has_name-ext buf' buf offset nm l
        (λ d a b. grow.same (offset + d) (λ e. omega (arith, e, q)) (λ e. omega (arith, e, q)))
  has_name-same nm l offset (inr h) =
      has_name-ext buf' buf offset nm l (λ d a b. before (offset + d) (omega arith))

  nine : (offset d : ℕ) → offset + 9 ≤ prev → d < 9 → buf' (offset + d) ≡ buf (offset + d)
  nine offset d h hd = before (offset + d) (omega arith)

  -- The grown entry is one still.
  IsEntry-grown :
      IsEntry buf prev
      → prev + entry_rec_len buf prev ≡ target
      → IsEntry buf target
      → IsEntry buf' prev
  IsEntry-grown e q t =
      let six : prev + 6 + 1 ≡ prev + 7 = omega arith in
      let n : entry_name_len buf' prev ≡ entry_name_len buf prev =
        get16-ext buf' buf (prev + 6) (prev + 6)
          (grow.same (prev + 6) (λ e. omega (arith, e)) (λ e. omega (arith, e)))
          (grow.same (prev + 6 + 1) (λ e. omega (arith, e)) (λ e. omega (arith, e))) in
      let i : entry_inode buf' prev ≡ entry_inode buf prev =
        get32-ext buf' buf prev prev
          (λ d hd. grow.same (prev + d) (λ e. omega (arith, e)) (λ e. omega (arith, e))) in
      record {
        used = λ z. e.used (sym i ∙ z);
        holds = omega (arith, n, q, e.holds, grow.grown);
        within = omega (arith, q, t.within, grow.grown);
      }

  -- Behind the target the walks agree.
  find-tail :
      (nm : Bytes) (l n m last : ℕ)
      → Listing buf last target
      → prev + 9 ≤ target
      → 512 ≤ n + target
      → 512 ≤ m + target
      → find_in_block buf' nm l n (target + entry_rec_len buf target)
        ≡ find_in_block buf nm l m (target + entry_rec_len buf target)
  find-tail nm l n m last r h hn hm = elim (tail r) [
    | inl q ↦
        find_end buf' nm l n (target + entry_rec_len buf target) (omega (arith, q))
        ∙ sym (find_end buf nm l m (target + entry_rec_len buf target) (omega (arith, q)))
    | inr t ↦
        find-agree buf' buf nm l last n m (target + entry_rec_len buf target) t
          (λ j hj. after j (omega arith)) (omega arith) (omega arith)
  ]

  -- One step more is enough to reach the grown entry.
  find_prev :
      (nm : Bytes) (l n last : ℕ)
      → IsEntry buf prev
      → prev + entry_rec_len buf prev ≡ target
      → Listing buf last target
      → 512 ≤ suc (suc n) + prev
      → Kept target
          (find_in_block buf nm l (suc (suc n)) prev)
          (find_in_block buf' nm l (suc (suc n)) prev)
  find_prev nm l n last e q r h =
      rw
        (
          find_step buf nm l (suc n) prev e,
          find_step buf' nm l (suc n) prev (IsEntry-grown e q (target-IsEntry r)),
          has_name-same nm l prev (inl refl),
          q,
          find_step buf nm l n target (target-IsEntry r),
          grow.grown,
          find-tail nm l (suc n) n last r (omega (arith, e.holds, q)) (omega (arith, e.holds, q))
              (omega (arith, e.holds, q)),
        )
        (Kept-here (has_name buf prev nm l) (has_name buf target nm l) prev target
          (find_in_block buf nm l n (target + entry_rec_len buf target)))

  -- Every lookup keeps its result, but for the entry that is gone.
  lookup-Kept :
      (nm : Bytes) (l n offset last : ℕ)
      → Before buf prev target offset
      → Listing buf last target
      → 512 ≤ n + offset
      → Kept target (find_in_block buf nm l n offset) (find_in_block buf' nm l n offset)
  lookup-Kept nm l zero offset last b r h =
      absurd (omega (arith, Before-le b, Before-lt b, IsEntry-lt (target-IsEntry r)))
  lookup-Kept nm l (suc zero) offset last b r h =
      absurd (omega (arith, Before-le b, Before-lt b, IsEntry-lt (target-IsEntry r)))
  lookup-Kept nm l (suc (suc n)) offset last (here e q) r h = find_prev nm l n last e q r h
  lookup-Kept nm l (suc (suc n)) offset last (there e b) r h =
      let le : offset + entry_rec_len buf offset ≤ prev = Before-le b in
      let q = rec_len-ext buf' buf offset (λ d hd. nine offset d (omega (arith, e.holds)) hd) in
      rw
        (
          find_step buf nm l (suc n) offset e,
          find_step buf' nm l (suc n) offset
              (IsEntry-ext buf' buf offset (λ d hd. nine offset d (omega (arith, e.holds)) hd) e),
          has_name-same nm l offset (inr (omega (arith, e.holds))),
          q,
        )
        (Kept-step (has_name buf offset nm l) offset target _ _ (
          lookup-Kept nm l (suc n) (offset + entry_rec_len buf offset) last b r
            (omega (arith, e.holds))))

  -- The entries that are left follow each other still.
  Listing-removed :
      (last offset : ℕ)
      → Before buf prev target offset
      → Listing buf last target
      → (last' : ℕ) × Listing buf' last' offset
  Listing-removed last offset (here e q) r = elim (tail r) [
    | inl h ↦ (prev, stop (IsEntry-grown e q (target-IsEntry r)) (grow.grown ∙ h))
    | inr t ↦
        let g = grow.grown in
        (
          last,
          next (IsEntry-grown e q (target-IsEntry r)) (
              rw g (
                Listing-ext buf' buf last (target + entry_rec_len buf target)
                  (λ j hj. after j (omega (arith, e.holds))) t)),
        )
  ]
  Listing-removed last offset (there e b) r =
      let le : offset + entry_rec_len buf offset ≤ prev = Before-le b in
      let same : (d : ℕ) → d < 9 → buf' (offset + d) ≡ buf (offset + d) =
        λ d hd. nine offset d (omega (arith, e.holds)) hd in
      let q = rec_len-ext buf' buf offset same in
      let (last', t) = Listing-removed last (offset + entry_rec_len buf offset) b r in
      (last', next (IsEntry-ext buf' buf offset same e) (rw q t))

  -- No lookup finds the entry that is gone.
  lookup_gone :
      (nm : Bytes) (l n offset last : ℕ)
      → Before buf prev target offset
      → Listing buf last target
      → 512 ≤ n + offset
      → find_in_block buf' nm l n offset ≡ some target
      → ⊥
  lookup_gone nm l zero offset last b r h f =
      absurd (omega (arith, Before-le b, Before-lt b, IsEntry-lt (target-IsEntry r)))
  lookup_gone nm l (suc zero) offset last b r h f =
      absurd (omega (arith, Before-le b, Before-lt b, IsEntry-lt (target-IsEntry r)))
  lookup_gone nm l (suc (suc n)) offset last (here e q) r h f =
      let g = grow.grown in
      let t = target-IsEntry r in
      let more = find_from buf nm l (suc n) (target + entry_rec_len buf target) target in
      let rest =
        find-tail nm l (suc n) (suc n) last r (omega (arith, e.holds, q))
          (omega (arith, e.holds, q)) (omega (arith, e.holds, q)) in
      ground (
        arith,
        find_step buf' nm l (suc n) prev (IsEntry-grown e q t),
        e.holds,
        t.holds,
        more,
        rest,
      )
  lookup_gone nm l (suc (suc n)) offset last (there e b) r h f =
      let le : offset + entry_rec_len buf offset ≤ prev = Before-le b in
      let same : (d : ℕ) → d < 9 → buf' (offset + d) ≡ buf (offset + d) =
        λ d hd. nine offset d (omega (arith, e.holds)) hd in
      let q = rec_len-ext buf' buf offset same in
      let less = Before-lt b in
      let rest =
        lookup_gone nm l (suc n) (offset + entry_rec_len buf offset) last b r
          (omega (arith, e.holds)) in
      ground (arith, find_step buf' nm l (suc n) offset (IsEntry-ext buf' buf offset same e), rest)

remove_at_prev :
    (buf : Bytes) (prev target : ℕ)
    → 0 < target
    → find_previous buf target 512 0 ≡ at_offset prev
    → remove_at buf target ≡ some (grow_record buf prev (entry_rec_len buf target))
unfolding remove_at
remove_at_prev buf prev target h e = ground (arith, e)

-- Taking an entry that a lookup finds, and that is not the first, out of a block of entries that
-- follow each other up to the block's end: the loop that looks for the entry before it ends, the
-- entries that are left follow each other up to the end, no lookup finds the entry any more, and
-- every lookup that found another entry or none gives what it gave.
pub remove_lookup :
    (buf : Bytes) (last target : ℕ) (name : Bytes) (len : ℕ)
    → Listing buf last 0
    → find_in_block buf name len 512 0 ≡ some target
    → target ≢ 0
    → (buf' : Bytes) × (remove_at buf target ≡ some buf')
      × ((last' : ℕ) × Listing buf' last' 0)
      × ((nm : Bytes) (l : ℕ)
          → ¬ (find_in_block buf' nm l 512 0 ≡ some target)
            × Kept target (find_in_block buf nm l 512 0) (find_in_block buf' nm l 512 0))
remove_lookup buf last target name len r e ne = elim (find-Before name len 512 0 r e) [
  | inl q ↦ absurd (ne q)
  | inr (prev, b, t) ↦
      let (q, x) = Before-rec_len b in
      let g = grow_record-IsGrown buf prev target q ((target-IsEntry t).within) in
      (
        grow_record buf prev (entry_rec_len buf target),
        remove_at_prev buf prev target (omega (arith, Before-lt b))
            (find_previous-Before 512 0 b (omega arith)),
        Listing-removed g last 0 b t,
        λ nm l. (
          lookup_gone g nm l 512 0 last b t (omega arith),
          lookup-Kept g nm l 512 0 last b t (omega arith),
        ),
      )
]
