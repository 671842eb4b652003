-- ===== src/FileCalls/Contents.antt =====
-- interrupt.c: the blocks of a copied file.
use luma_osjang.Common.{
  ℕ, zero, suc, ◌+◌, ◌^◌, ◌≤◌, ◌<◌, ◌≡◌, refl, ◌∙◌, sym, ap, ◌≢◌, ◌⊎◌, true, false, none, some, leb,
  ◌==◌, if◌then◌else◌, update, arith, Bool-cases, inl, inr, Option-cases, ℕ_discrete,
}
use luma_osjang.Common.Bytes.{Bytes, get32}
use luma_osjang.Ext2.Disk.{
  FileSystem, bg_block_bitmap, bitmap_bit, find_clear_bit, allocate_block, write_block, no_block,
}
use luma_osjang.Ext2.Inodes.{Inode}
use luma_osjang.Ext2.Blocks.{set_pointer}
use luma_osjang.Ext2.Bitmap.{AreBytes, bitmap_set-AreBytes}
use luma_osjang.Ext2.Allocation.{IsTaken, allocate_block_lem, allocate_some, allocate_none}
use luma_osjang.FileCalls.Copy.{copy_block, copy_blocks}

-- The bitmap in block `b` is in use by its own bits, and so are the blocks that `source` names.
pub record IsInUse (fs : FileSystem) (b : ℕ) (source : Inode) : Type 0 where
  pub bitmap : bg_block_bitmap fs 0 ≡ b
  pub bytes : AreBytes (fs.disk b)
  pub own : (b < 4096) × (bitmap_bit (fs.disk b) b ≡ true)
  pub blocks :
      (i : ℕ)
      → source.i_block i ≢ 0
      → (source.i_block i < 4096)
        × (source.i_block i ≢ b)
        × (bitmap_bit (fs.disk b) (source.i_block i) ≡ true)

-- Block `c`, which was free, now holds what block `s` held, and is in use.
abbrev pub IsCopyOf : FileSystem → FileSystem → ℕ → ℕ → ℕ → Type 0
IsCopyOf fs fs' b s c =
    (c < 4096)
    × (c ≢ b)
    × (bitmap_bit (fs.disk b) c ≡ false)
    × (bitmap_bit (fs'.disk b) c ≡ true)
    × ((d : ℕ) → d < 512 → fs'.disk c d ≡ fs.disk s d)

-- From one file system to a later one, the blocks from `lo` to `hi` have been copied.
pub record IsCopied (source : Inode) (b lo hi : ℕ) (dest : Inode) (fs : FileSystem) (dest' : Inode)
    (fs' : FileSystem) : Type 0 where
  pub in_use : IsInUse fs' b source
  pub used : (k : ℕ) → k < 4096 → bitmap_bit (fs.disk b) k ≡ true → bitmap_bit (fs'.disk b) k ≡ true
  pub kept : (k : ℕ) → k < 4096 → k ≢ b → bitmap_bit (fs.disk b) k ≡ true → fs'.disk k ≡ fs.disk k
  pub pointers : (i : ℕ) → i < lo → dest'.i_block i ≡ dest.i_block i
  pub copied :
      (i : ℕ)
      → lo ≤ i
      → i < hi
      → source.i_block i ≢ 0
      → IsCopyOf fs fs' b (source.i_block i) (dest'.i_block i)

-- The 4096 bits of the bitmap are all set.
abbrev pub IsFull : ℕ → FileSystem → Type 0
IsFull b fs = (k : ℕ) → k < 4096 → bitmap_bit (fs.disk b) k ≡ true

update_ne : (disk : ℕ → Bytes) (j : ℕ) (a : Bytes) (k : ℕ) → k ≢ j → update disk j a k ≡ disk k
update_ne disk j a k h = ground arith

module _ (source : Inode) (b : ℕ) where
  IsCopied-nothing :
      (i : ℕ) (dest : Inode) (fs : FileSystem)
      → IsInUse fs b source
      → IsCopied source b i i dest fs dest fs
  IsCopied-nothing i dest fs u = record {
    in_use = u;
    used = λ k h e. e;
    kept = λ k h ne e. refl;
    pointers = λ j h. refl;
    copied = λ j h h' ne. absurd (omega arith);
  }

  not_used :
      {lo hi : ℕ} {dest dest1 : Inode} {fs fs1 : FileSystem}
      → IsCopied source b lo hi dest fs dest1 fs1
      → (k : ℕ) → k < 4096
      → bitmap_bit (fs1.disk b) k ≡ false
      → bitmap_bit (fs.disk b) k ≡ false
  not_used {fs = fs} r k h e = elim (Bool-cases (bitmap_bit (fs.disk b) k)) [
    | inl t ↦ absurd (cc (r.used k h t, e))
    | inr f ↦ f
  ]

  copied_later :
      {lo hi : ℕ} {dest dest1 : Inode} {fs fs1 : FileSystem} (fs2 : FileSystem) (s c : ℕ)
      → (s < 4096) × (s ≢ b) × (bitmap_bit (fs.disk b) s ≡ true)
      → IsCopied source b lo hi dest fs dest1 fs1
      → IsCopyOf fs1 fs2 b s c
      → IsCopyOf fs fs2 b s c
  copied_later fs2 s c u r (lt, ne, free, set, same) =
      (lt, ne, not_used r c lt free, set, λ d h. same d h ∙ ap (λ a. a d) (r.kept s u.0 u.1 u.2))

  copied_earlier :
      {lo hi : ℕ} {dest1 dest2 : Inode} (fs : FileSystem) {fs1 fs2 : FileSystem} (s c : ℕ)
      → IsCopyOf fs fs1 b s c
      → IsCopied source b lo hi dest1 fs1 dest2 fs2
      → IsCopyOf fs fs2 b s c
  copied_earlier fs s c (lt, ne, free, set, same) r =
      (lt, ne, free, r.used c lt set, λ d h. ap (λ a. a d) (r.kept c lt ne set) ∙ same d h)

  IsCopied-step :
      {i hi : ℕ} {dest dest1 dest2 : Inode} {fs fs1 fs2 : FileSystem}
      → IsInUse fs b source
      → IsCopied source b i (suc i) dest fs dest1 fs1
      → IsCopied source b (suc i) hi dest1 fs1 dest2 fs2
      → IsCopied source b i hi dest fs dest2 fs2
  IsCopied-step {i} {hi} {dest} {dest1} {dest2} {fs} {fs1} {fs2} u r s = record {
    in_use = s.in_use;
    used = λ k h e. s.used k h (r.used k h e);
    kept = λ k h ne e. s.kept k h ne (r.used k h e) ∙ r.kept k h ne e;
    pointers = λ j h. s.pointers j (omega arith) ∙ r.pointers j h;
    copied = λ j h h' ne. elim (ℕ_discrete i j) [
      | yes q ↦
          let e = s.pointers j (omega (arith, q)) in
          rw e (
            copied_earlier fs (source.i_block j) (dest1.i_block j)
              (r.copied j h (omega (arith, q)) ne) s)
      | no n ↦
          copied_later fs2 (source.i_block j) (dest2.i_block j) (u.blocks j ne) r
            (s.copied j (omega (arith, n)) h' ne)
    ];
  }

  -- One block taken and filled.
  IsCopied-one :
      (i j : ℕ) (dest : Inode) (fs fs1 : FileSystem)
      → IsInUse fs b source
      → source.i_block i ≢ 0
      → j < 4096
      → AreBytes (fs1.disk b)
      → IsTaken fs b j fs1
      → IsCopied source b i
          (suc i)
          dest
          fs
          (set_pointer dest i j)
          (write_block fs1 j (fs1.disk (source.i_block i)))
  IsCopied-one i j dest fs fs1 u nz h bytes t =
      let apart : j ≢ b = ground (arith, u.own, t.was_free) in
      let fs2 : FileSystem = write_block fs1 j (fs1.disk (source.i_block i)) in
      let at_b : fs2.disk b ≡ fs1.disk b = update_ne fs1.disk j _ b (λ e. apart (sym e)) in
      let bits : (k : ℕ)
          → k < 4096
          → bitmap_bit (fs2.disk b) k ≡ (if j == k then true else bitmap_bit (fs.disk b) k) =
        λ k hk. ap (λ a. bitmap_bit a k) at_b ∙ t.bits k hk in
      let used : (k : ℕ)
          → k < 4096
          → bitmap_bit (fs.disk b) k ≡ true
          → bitmap_bit (fs2.disk b) k ≡ true =
        λ k hk e. ground (arith, bits k hk, e) in
      record {
        in_use = record {
          bitmap = ap (λ a. get32 a 0) t.same_table ∙ u.bitmap;
          bytes = λ k. rw at_b (bytes k);
          own = (u.own.0, used b u.own.0 u.own.1);
          blocks =
              λ k ne. let (lt, nb, set) = u.blocks k ne in (lt, nb, used (source.i_block k) lt set);
        };
        used = used;
        kept = λ k hk ne e.
            update_ne fs1.disk j _ k (λ q. absurd (ground (arith, t.was_free, e, q)))
            ∙ t.other_blocks k ne;
        pointers = λ k hk. ground arith;
        copied = λ k hk hk' ne.
            let q : k ≡ i = omega arith in
            let own : (set_pointer dest i j).i_block k ≡ j = ground (arith, q) in
            rw (own, q)
              (
                h,
                apart,
                t.was_free,
                ground (arith, bits j h),
                λ d hd. ground (arith, t.other_blocks (source.i_block i) ((u.blocks i nz).1)),
              );
      }

  allocate_block-AreBytes :
      (fs : FileSystem) (p : ℕ)
      → bg_block_bitmap fs 0 ≡ b
      → AreBytes (fs.disk b)
      → AreBytes ((allocate_block fs p).1.disk b)
  allocate_block-AreBytes fs p q h =
      elim (Option-cases (find_clear_bit (fs.disk (bg_block_bitmap fs 0)) 4096 0)) [
        | inl e ↦ rw (allocate_none fs p e) h
        | inr (j, e) ↦
            rw (allocate_some fs p j e, q)
              (λ k. ground (arith, bitmap_set-AreBytes (fs.disk b) j h k, h k))
      ]

  IsCopied-skip :
      (i : ℕ) (dest : Inode) (fs : FileSystem)
      → IsInUse fs b source
      → source.i_block i ≡ 0
      → IsCopied source b i (suc i) dest fs dest fs
  IsCopied-skip i dest fs u z = record {
    in_use = u;
    used = λ k h e. e;
    kept = λ k h ne e. refl;
    pointers = λ j h. refl;
    copied = λ j h h' ne. absurd (ne (let q : j ≡ i = omega arith in rw q z));
  }

  copy_block_skip :
      (bgd i : ℕ) (dest : Inode) (fs : FileSystem)
      → source.i_block i ≡ 0
      → copy_block source bgd i (dest, fs) ≡ (true, (dest, fs))
  unfolding copy_block
  copy_block_skip bgd i dest fs z = rw z refl

  copy_block_full :
      (bgd i : ℕ) (dest : Inode) (fs : FileSystem)
      → source.i_block i ≢ 0
      → allocate_block fs bgd ≡ (no_block, fs)
      → copy_block source bgd i (dest, fs) ≡ (false, (dest, fs))
  unfolding copy_block
  copy_block_full bgd i dest fs nz e =
      let f : (source.i_block i == 0) ≡ false = ground (arith, nz) in rw (f, e) refl

  copy_block_fill :
      (bgd i j : ℕ) (dest : Inode) (fs : FileSystem)
      → source.i_block i ≢ 0
      → j < 4096
      → (allocate_block fs bgd).0 ≡ j
      → let fs1 = (allocate_block fs bgd).1 in
        copy_block source bgd i (dest, fs)
        ≡ (true, (set_pointer dest i j, write_block fs1 j (fs1.disk (source.i_block i))))
  unfolding copy_block
  copy_block_fill bgd i j dest fs nz lt e =
      let f : (source.i_block i == 0) ≡ false = ground (arith, nz) in
      let g : leb (2 ^ 31) j ≡ false = ground arith in rw (f, e, g) refl

  copy_block_lem :
      (bgd i : ℕ) (dest : Inode) (fs : FileSystem)
      → IsInUse fs b source
      → ((dest1 : Inode) × (fs1 : FileSystem) × (copy_block source bgd i (dest, fs)
            ≡ (true, (dest1, fs1)))
          × IsCopied source b i (suc i) dest fs dest1 fs1)
        ⊎ ((copy_block source bgd i (dest, fs) ≡ (false, (dest, fs))) × IsFull b fs)
  copy_block_lem bgd i dest fs u = elim (ℕ_discrete (source.i_block i) 0) [
    | yes z ↦ inl (dest, fs, copy_block_skip bgd i dest fs z, IsCopied-skip i dest fs u z)
    | no nz ↦
        let q = u.bitmap in
        elim (allocate_block_lem fs bgd (rw q u.bytes)) [
          | inl (full, e) ↦ inr (copy_block_full bgd i dest fs nz e, λ k hk. rw (sym q) (full k hk))
          | inr (j, lt, e, t) ↦
              let fs1 = (allocate_block fs bgd).1 in
              inl (
                set_pointer dest i j,
                write_block fs1 j (fs1.disk (source.i_block i)),
                copy_block_fill bgd i j dest fs nz lt e,
                IsCopied-one i j dest fs fs1 u nz lt (allocate_block-AreBytes fs bgd q u.bytes)
                    (rw (sym q) t),
              )
        ]
  ]

  -- Copying `n` blocks of a file from block `i` on, where the bitmap has its own block and the
  -- file's blocks in use: either every block of the file has got a copy, in a block that was free
  -- and is in use now, or no block is free any more and the blocks before the one the loop stops at
  -- have got one. Every block that was in use, but for the bitmap, is unchanged.
  pub copy_blocks_lem :
      (bgd n i : ℕ) (dest : Inode) (fs : FileSystem)
      → IsInUse fs b source
      → let (failed, (dest', fs')) = copy_blocks source bgd n i (dest, fs) in
        ((failed ≡ none) × IsCopied source b i (i + n) dest fs dest' fs')
        ⊎ ((k : ℕ) × (failed ≡ some k)
            × (k < i + n)
            × IsFull b fs'
            × IsCopied source b i k dest fs dest' fs')
  unfolding copy_blocks
  copy_blocks_lem bgd zero i dest fs u =
      let z : i + 0 ≡ i = omega arith in inl (refl, rw z (IsCopied-nothing i dest fs u))
  copy_blocks_lem bgd (suc n) i dest fs u = elim (copy_block_lem bgd i dest fs u) [
    | inr (e, full) ↦ rw e (inr (i, refl, omega arith, full, IsCopied-nothing i dest fs u))
    | inl (dest1, fs1, e, r) ↦
        let one : i + 1 ≡ suc i = omega arith in
        let shift : i + suc n ≡ suc i + n = omega arith in
        rw (e, one, shift)
          (elim (copy_blocks_lem bgd n (suc i) dest1 fs1 r.in_use) [
            | inl (f, s) ↦ inl (f, IsCopied-step u r s)
            | inr (k, f, lt, full, s) ↦ inr (k, f, lt, full, IsCopied-step u r s)
          ])
  ]
