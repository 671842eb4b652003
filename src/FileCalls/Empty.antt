-- ===== src/FileCalls/Empty.antt =====
-- interrupt.c: the test for an empty directory on a new one.
use luma_osjang.Common.{ℕ, zero, suc, ◌+◌, ◌-◌, ◌^◌, ◌≤◌, ◌<◌, ◌≡◌, refl, ◌∙◌, ◌≢◌, true, arith}
use luma_osjang.Common.Bytes.{Bytes, get16, get32, put16, put32}
use luma_osjang.Ext2.Directory.{entry_inode, entry_rec_len, entry_name_len, directory_block}
use luma_osjang.Ext2.Fresh.{fresh_fields}
use luma_osjang.FileCalls.Create.{create_block}
use luma_osjang.FileCalls.Delete.{is_dots, only_dots}
use luma_osjang.FileCalls.Listing.{IsEntry, Listing, stop, next, IsEntry-lt, ends_walk-IsEntry}

-- "." at 0, whose record ends at `r`, and ".." from there up to the end.
record IsPair (buf : Bytes) (r : ℕ) : Type 0 where
  pub own : entry_inode buf 0 ≢ 0
  pub own_len : entry_rec_len buf 0 ≡ r
  pub own_name : (entry_name_len buf 0 ≡ 1) × (buf 9 ≡ b'.')
  pub up : entry_inode buf r ≢ 0
  pub up_len : entry_rec_len buf r ≡ 512 - r
  pub up_name : (entry_name_len buf r ≡ 2) × (buf (r + 9) ≡ b'.') × (buf (r + 10) ≡ b'.')
  pub fits : (10 ≤ r) × (r + 11 ≤ 512)

IsEntry-own : {buf : Bytes} {r : ℕ} → IsPair buf r → IsEntry buf 0
IsEntry-own p = record {
  used = p.own;
  holds = omega (arith, p.own_len, p.own_name.0, p.fits.0);
  within = omega (arith, p.own_len, p.fits.1);
}

IsEntry-up : {buf : Bytes} {r : ℕ} → IsPair buf r → IsEntry buf r
IsEntry-up p = record {
  used = p.up;
  holds = omega (arith, p.up_len, p.up_name.0, p.fits.1);
  within = omega (arith, p.up_len, p.fits.1);
}

dots_step :
    (buf : Bytes) (n offset : ℕ)
    → IsEntry buf offset
    → is_dots buf offset ≡ true
    → only_dots buf (suc n) offset ≡ only_dots buf n (offset + entry_rec_len buf offset)
unfolding only_dots
dots_step buf n offset e d = ground (arith, ends_walk-IsEntry buf offset e, IsEntry-lt e)

dots_end : (buf : Bytes) (n : ℕ) → only_dots buf n 512 ≡ true
unfolding only_dots
dots_end buf zero = refl
dots_end buf (suc n) = refl

is_dots-own : {buf : Bytes} {r : ℕ} → IsPair buf r → is_dots buf 0 ≡ true
unfolding is_dots
is_dots-own p = ground (arith, p.own_name.0, p.own_name.1)

is_dots-up : {buf : Bytes} {r : ℕ} → IsPair buf r → is_dots buf r ≡ true
unfolding is_dots
is_dots-up {buf} {r} p =
    let q : r + 9 + 1 ≡ r + 10 = omega arith in rw (p.up_name.0, p.up_name.1, q, p.up_name.2) refl

only_dots-pair :
    {buf : Bytes} {r : ℕ} → IsPair buf r → (Listing buf r 0) × (only_dots buf 512 0 ≡ true)
only_dots-pair {buf} {r} p =
    let q : 0 + entry_rec_len buf 0 ≡ r = omega (arith, p.own_len) in
    let end : r + entry_rec_len buf r ≡ 512 = omega (arith, p.up_len, p.fits.1) in
    (
      next (IsEntry-own p) (rw q (stop (IsEntry-up p) end)),
      dots_step buf 511 0 (IsEntry-own p) (is_dots-own p)
          ∙ rw (q, dots_step buf 510 r (IsEntry-up p) (is_dots-up p), end) (dots_end buf 510),
    )

create_block-IsPair :
    (i p : ℕ) → i < 2 ^ 32 → p < 2 ^ 32 → i ≢ 0 → p ≢ 0 → IsPair (create_block i p) 10
unfolding create_block get32 get16 put32 put16
create_block-IsPair i p hi hp ni np = record {
  own = omega (arith, ni);
  own_len = refl;
  own_name = (refl, refl);
  up = omega (arith, np);
  up_len = refl;
  up_name = (refl, refl, refl);
  fits = (omega arith, omega arith);
}

directory_block-IsPair :
    (i p : ℕ) → i < 2 ^ 32 → p < 2 ^ 32 → i ≢ 0 → p ≢ 0 → IsPair (directory_block i p) 12
directory_block-IsPair i p hi hp ni np =
    let f = fresh_fields i p hi hp in
    record {
      own = λ z. ni (omega (arith, z, f.0));
      own_len = f.1;
      own_name = (f.2, f.3);
      up = λ z. np (omega (arith, z, f.4));
      up_len = f.5;
      up_name = (f.6, f.7, f.8);
      fits = (omega arith, omega arith);
    }

-- The block of a new directory, as `create_directory` writes it and as `init_directory_table` does,
-- is a chain of two entries up to the block's end, and the test of `delete_directory` takes it for
-- empty; the directory's own number and its parent's are 32 bits wide and not 0.
pub new_directories_empty :
    (i p : ℕ)
    → i < 2 ^ 32
    → p < 2 ^ 32
    → i ≢ 0
    → p ≢ 0
    → ((Listing (create_block i p) 10 0) × (only_dots (create_block i p) 512 0 ≡ true))
      × (Listing (directory_block i p) 12 0)
      × (only_dots (directory_block i p) 512 0 ≡ true)
new_directories_empty i p hi hp ni np =
    let d = only_dots-pair (directory_block-IsPair i p hi hp ni np) in
    (only_dots-pair (create_block-IsPair i p hi hp ni np), d.0, d.1)
