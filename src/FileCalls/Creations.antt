-- ===== src/FileCalls/Creations.antt =====
-- interrupt.c: what creating and copying leave when they refuse a request.
use luma_osjang.Common.{
  ℕ, ◌^◌, ◌||◌, leb, ◌≡◌, refl, ◌⊎◌, inl, inr, Option, none, some, arith, ◌==◌, Bool-cases,
  Option-cases,
}
use luma_osjang.Common.Bytes.{Bytes}
use luma_osjang.Ext2.Disk.{FileSystem, allocate_node, allocate_block}
use luma_osjang.Ext2.Numbers.{inode_to_bgd}
use luma_osjang.Ext2.Inodes.{Inode, read_inode, is_directory}
use luma_osjang.Ext2.Files.{Ext2DriverRequest}
use luma_osjang.Ext2.Calls.{allocate_node_full}
use luma_osjang.Ext2.Directory.{entry_inode, entry_file_type}
use luma_osjang.FileCalls.{minus, find_name}
use luma_osjang.FileCalls.Copy.{copy_file, copy_found, copy_to}
use luma_osjang.FileCalls.Create.{create_directory, create_new, create_in_block}

-- A call that refuses with -1 to -4 has changed nothing; after the first allocation only `late` is
-- possible.
abbrev pub IsEarly : (ℕ → Type 0) → FileSystem → ℕ × FileSystem → Type 0
IsEarly late fs (c, fs') =
    late c ⊎ (((c ≡ minus 1) ⊎ (c ≡ minus 2) ⊎ (c ≡ minus 3) ⊎ (c ≡ minus 4)) × (fs' ≡ fs))

abbrev pub IsCreateCode : ℕ → Type 0
IsCreateCode c = (c ≡ 0) ⊎ (c ≡ minus 5) ⊎ (c ≡ minus 6)

abbrev pub IsCopyCode : ℕ → Type 0
IsCopyCode c = (c ≡ 0) ⊎ (c ≡ minus 5) ⊎ (c ≡ minus 8)

module _ (stack : Bytes) (stale : Inode) where
  create_in_block_early :
      (fs : FileSystem) (parent : Inode) (request : Ext2DriverRequest) (new_inode new_block : ℕ)
      → IsCreateCode ((create_in_block stack stale fs parent request new_inode new_block).0)
  unfolding create_in_block
  create_in_block_early fs parent request new_inode new_block = ground arith

  create_new-IsEarly :
      (fs : FileSystem) (parent : Inode) (request : Ext2DriverRequest)
      → IsEarly IsCreateCode fs (create_new stack stale fs parent request)
  unfolding create_new
  create_new-IsEarly fs parent request =
      let fs1 = (allocate_node fs).1 in
      let new_inode = (allocate_node fs).0 in
      let (new_block, fs2) = allocate_block fs1 (inode_to_bgd new_inode) in
      elim (Bool-cases (new_inode == 0)) [
        | inl z ↦ rw z (inr (inr (inr (inr refl)), allocate_node_full fs (ground (arith, z))))
        | inr nz ↦ elim (Bool-cases (leb (2 ^ 31) new_block)) [
          | inl full ↦ rw (nz, full) (inl (inr (inl refl)))
          | inr ok ↦
              rw (nz, ok) (inl (create_in_block_early fs2 parent request new_inode new_block))
        ]
      ]

  pub create_directory-IsEarly :
      (fs : FileSystem) (request : Option Ext2DriverRequest)
      → IsEarly IsCreateCode fs (create_directory stack stale fs request)
  unfolding create_directory
  create_directory-IsEarly fs none = inr (inl refl, refl)
  create_directory-IsEarly fs (some request) =
      let parent = read_inode fs request.parent_inode stale in
      elim (Bool-cases (request.name_len == 0)) [
        | inl q ↦ rw q (inr (inl refl, refl))
        | inr q ↦ elim (Bool-cases (is_directory parent)) [
          | inr d ↦ rw (q, d) (inr (inr (inl refl), refl))
          | inl d ↦ elim (Option-cases (find_name fs parent request.name request.name_len)) [
            | inr (x, e) ↦ rw (q, d, e) (inr (inr (inr (inl refl)), refl))
            | inl e ↦ rw (q, d, e) (create_new-IsEarly fs parent request)
          ]
        ]
      ]

  copy_to_code :
      (fs : FileSystem) (parent source : Inode) (src dst : Ext2DriverRequest) (new_inode : ℕ)
      → IsCopyCode ((copy_to stack stale fs parent source src dst new_inode).0)
  unfolding copy_to
  copy_to_code fs parent source src dst new_inode = ground arith

  copy_found-IsEarly :
      (fs : FileSystem) (parent : Inode) (src dst : Ext2DriverRequest) (source_inode_idx : ℕ)
      → IsEarly IsCopyCode fs (copy_found stack stale fs parent src dst source_inode_idx)
  unfolding copy_found
  copy_found-IsEarly fs parent src dst source_inode_idx =
      let source = read_inode fs source_inode_idx stale in
      let (new_inode, fs1) = allocate_node fs in
      elim (Option-cases (find_name fs parent dst.name dst.name_len)) [
        | inr (x, e) ↦ rw (e, copy_found) (inr (inr (inl refl), refl))
        | inl e ↦ elim (Bool-cases (is_directory source)) [
          | inl d ↦ rw (e, copy_found, d) (inr (inr (inr (inl refl)), refl))
          | inr d ↦ elim (Bool-cases ((allocate_node fs).0 == 0)) [
            | inl z ↦
                rw (e, copy_found, d, z)
                  (inr (inr (inr (inr refl)), allocate_node_full fs (ground (arith, z))))
            | inr nz ↦
                rw (e, copy_found, d, nz) (inl (copy_to_code fs1 parent source src dst new_inode))
          ]
        ]
      ]

  pub copy_file-IsEarly :
      (fs : FileSystem) (src dst : Option Ext2DriverRequest)
      → IsEarly IsCopyCode fs (copy_file stack stale fs src dst)
  unfolding copy_file
  copy_file-IsEarly fs none dst = inr (inl refl, refl)
  copy_file-IsEarly fs (some src) none = inr (inl refl, refl)
  copy_file-IsEarly fs (some src) (some dst) =
      let parent = read_inode fs src.parent_inode stale in
      elim (Bool-cases ((src.name_len == 0) || (dst.name_len == 0))) [
        | inl q ↦ rw q (inr (inl refl, refl))
        | inr q ↦ elim (Bool-cases (is_directory parent)) [
          | inr d ↦ rw (q, d) (inr (inl refl, refl))
          | inl d ↦ elim (Option-cases (find_name fs parent src.name src.name_len)) [
            | inl e ↦ rw (q, d, e) (inr (inl refl, refl))
            | inr ((b, o), e) ↦
                elim (Bool-cases (entry_file_type (fs.disk (parent.i_block b)) o == 2)) [
                  | inl t ↦ rw (q, d, e, t) (inr (inr (inr (inl refl)), refl))
                  | inr t ↦
                      rw (q, d, e, t)
                        (copy_found-IsEarly fs parent src dst
                          (entry_inode (fs.disk (parent.i_block b)) o))
                ]
          ]
        ]
      ]
