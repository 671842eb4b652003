-- ===== src/FileCalls/Remove.antt =====
-- interrupt.c: taking an entry out of a directory block.
use luma_osjang.Common.{
  ℕ, zero, suc, ◌+◌, ◌≤◌, ◌<◌, ◌≡◌, refl, sym, ◌≢◌, ◌⊎◌, Bool, true, false, Option, none, some,
  if◌then◌else◌, arith, Bool-cases, inl, inr,
}
use luma_osjang.Common.Bytes.{Bytes}
use luma_osjang.Ext2.Directory.{entry_rec_len, at_offset}
use luma_osjang.FileCalls.{has_name, find_in_block}
use luma_osjang.FileCalls.Delete.{find_previous}
use luma_osjang.FileCalls.Listing.{
  IsEntry, Listing, stop, next, Listing-le, Listing-lt, find_step, find_end, has_name-ext,
  rec_len-ext, IsEntry-ext,
}

-- From `offset` the entries lead to the one at `prev`, whose record ends at `target`.
pub data Before (buf : Bytes) (prev target : ℕ) : ℕ → Type 0 where
  here : IsEntry buf prev → prev + entry_rec_len buf prev ≡ target → Before buf prev target prev
  there :
      {offset : ℕ}
      → IsEntry buf offset
      → Before buf prev target (offset + entry_rec_len buf offset)
      → Before buf prev target offset

pub Before-le :
    {buf : Bytes} {prev target offset : ℕ} → Before buf prev target offset → offset ≤ prev
Before-le (here e h) = omega arith
Before-le (there e b) = omega (arith, Before-le b)

pub Before-lt :
    {buf : Bytes} {prev target offset : ℕ} → Before buf prev target offset → prev + 9 ≤ target
Before-lt (here e h) = omega (arith, e.holds)
Before-lt (there e b) = Before-lt b

pub Before-rec_len :
    {buf : Bytes} {prev target offset : ℕ}
    → Before buf prev target offset
    → (prev + entry_rec_len buf prev ≡ target) × IsEntry buf prev
Before-rec_len (here e h) = (h, e)
Before-rec_len (there e b) = Before-rec_len b

-- The search for the entry before the target finds it.
pub find_previous-Before :
    {buf : Bytes} {prev target : ℕ} (n offset : ℕ)
    → Before buf prev target offset
    → 512 ≤ n + offset
    → find_previous buf target n offset ≡ at_offset prev
unfolding find_previous
find_previous-Before zero offset b h =
    absurd (omega (arith, Before-le b, (Before-rec_len b).1.holds, (Before-rec_len b).1.within))
find_previous-Before (suc n) offset (here e q) h = ground (arith, e.holds)
find_previous-Before {buf} {prev} {target} (suc n) offset (there e b) h = ground (
  arith,
  Before-le b,
  Before-lt b,
  e.holds,
  find_previous-Before n (offset + entry_rec_len buf offset) b (omega (arith, e.holds)),
)

-- A name that is found stands at an entry that the walk reaches.
find_zero :
    (buf nm : Bytes) (l offset target : ℕ) → find_in_block buf nm l 0 offset ≡ some target → ⊥
unfolding find_in_block
find_zero buf nm l offset target e = cc e

pub find-Before :
    {buf : Bytes} {last target : ℕ} (nm : Bytes) (l n offset : ℕ)
    → Listing buf last offset
    → find_in_block buf nm l n offset ≡ some target
    → (target ≡ offset) ⊎ ((prev : ℕ) × Before buf prev target offset × Listing buf last target)
find-Before {buf} {last} {target} nm l zero offset r e = absurd (find_zero buf nm l offset target e)
find-Before {buf} {last} {target} nm l (suc n) offset (stop x q) e =
    elim (Bool-cases (has_name buf offset nm l)) [
      | inl h ↦ inl (ground (arith, find_step buf nm l n offset x))
      | inr h ↦ absurd (
          ground (
            arith,
            find_step buf nm l n offset x,
            find_end buf nm l n (offset + entry_rec_len buf offset),
          ))
    ]
find-Before {buf} {last} {target} nm l (suc n) offset (next x r) e =
    elim (Bool-cases (has_name buf offset nm l)) [
      | inl h ↦ inl (ground (arith, find_step buf nm l n offset x))
      | inr h ↦
          let rest : find_in_block buf nm l n (offset + entry_rec_len buf offset) ≡ some target =
            ground (arith, find_step buf nm l n offset x) in
          elim (find-Before nm l n (offset + entry_rec_len buf offset) r rest) [
            | inl q ↦ inr (offset, here x (sym q), rw q r)
            | inr (prev, b, t) ↦ inr (prev, there x b, t)
          ]
    ]

-- Two blocks that are the same from an entry on, with enough rounds left for each.
pub find-agree :
    (f g nm : Bytes) (l last n m offset : ℕ)
    → Listing g last offset
    → ((j : ℕ) → offset ≤ j → f j ≡ g j)
    → 512 ≤ n + offset
    → 512 ≤ m + offset
    → find_in_block f nm l n offset ≡ find_in_block g nm l m offset
find-agree f g nm l last zero m offset r same hn hm =
    absurd (omega (arith, Listing-le r, Listing-lt r))
find-agree f g nm l last (suc n) zero offset r same hn hm =
    absurd (omega (arith, Listing-le r, Listing-lt r))
find-agree f g nm l last (suc n) (suc m) offset (stop e q) same hn hm =
    let nine : (d : ℕ) → d < 9 → f (offset + d) ≡ g (offset + d) =
      λ d h. same (offset + d) (omega arith) in
    rw
      (
        find_step f nm l n offset (IsEntry-ext f g offset nine e),
        find_step g nm l m offset e,
        has_name-ext f g offset nm l (λ d a b. same (offset + d) (omega arith)),
        rec_len-ext f g offset nine,
        find_end f nm l n (offset + entry_rec_len g offset) (omega arith),
        find_end g nm l m (offset + entry_rec_len g offset) (omega arith),
      )
      refl
find-agree f g nm l last (suc n) (suc m) offset (next e r) same hn hm =
    let nine : (d : ℕ) → d < 9 → f (offset + d) ≡ g (offset + d) =
      λ d h. same (offset + d) (omega arith) in
    rw
      (
        find_step f nm l n offset (IsEntry-ext f g offset nine e),
        find_step g nm l m offset e,
        has_name-ext f g offset nm l (λ d a b. same (offset + d) (omega arith)),
        rec_len-ext f g offset nine,
        find-agree f g nm l last n m (offset + entry_rec_len g offset) r
            (λ j h. same j (omega arith)) (omega (arith, e.holds)) (omega (arith, e.holds)),
      )
      refl

-- What a lookup gave, it still gives, unless it gave `target`.
abbrev pub Kept : ℕ → Option ℕ → Option ℕ → Type 0
Kept target a b = ((o : ℕ) → a ≡ some o → o ≢ target → b ≡ some o) × (a ≡ none → b ≡ none)

pub Kept-step :
    (p : Bool) (x target : ℕ) (a b : Option ℕ)
    → Kept target a b
    → Kept target (if p then some x else a) (if p then some x else b)
Kept-step true x target a b k = ((λ o e ne. e), (λ e. e))
Kept-step false x target a b k = k

pub Kept-here :
    (p q : Bool) (prev target : ℕ) (r : Option ℕ)
    → Kept target
        (if p then some prev else if q then some target else r)
        (if p then some prev else r)
Kept-here true q prev target r = ((λ o e ne. e), (λ e. e))
Kept-here false true prev target r =
    ((λ o e ne. absurd (ground (arith, e, ne))), (λ e. absurd (ground (arith, e))))
Kept-here false false prev target r = ((λ o e ne. e), (λ e. e))
