-- ===== src/Builtins/Directories/Messages.antt =====
-- builtin_commands.c and interrupt.c: what `mkdir` says about the kernel's result.
use luma_osjang.Common.{
  ℕ, ◌≡◌, refl, inl, inr, true, false, some, List, [], ◌∷◌, ◌==◌, if◌then◌else◌, Bool-cases, arith,
}
use luma_osjang.Common.Bytes.{Bytes}
use luma_osjang.Ext2.Disk.{FileSystem}
use luma_osjang.Ext2.Inodes.{Inode}
use luma_osjang.FileCalls.Create.{create_directory}
use luma_osjang.FileCalls.Creations.{IsEarly, IsCreateCode, create_directory-IsEarly}
use luma_osjang.Builtins.{ShellState, codes, is_empty, report, request_for}
use luma_osjang.Builtins.Directories.{handle_mkdir}

create_codes :
    (fs : FileSystem) (r : ℕ × FileSystem)
    → IsEarly IsCreateCode fs r
    → ((r.0 == 1) ≡ false) × ((r.0 == 2) ≡ false)
create_codes fs r (inl h) = ground (arith, h)
create_codes fs r (inr (h, e)) = ground (arith, h)

module _ (stack : Bytes) (stale : Inode) where
  -- `mkdir` with a name reports that the directory was created where the kernel's result is 0, and
  -- else that it failed: the messages for a name that exists and for a parent that is no directory
  -- are never printed. The new file system is the kernel's.
  pub handle_mkdir_lem :
      (s : ShellState) (name : List ℕ)
      → is_empty name ≡ false
      → let (result, fs) = create_directory stack stale s.fs (some (request_for s name true)) in
        handle_mkdir stack stale s name
        ≡ report
            (if result == 0
              then codes "Directory created: " ∷ name ∷ []
              else codes "mkdir: failed to create directory" ∷ [])
            (record s { fs = fs })
  unfolding handle_mkdir
  handle_mkdir_lem s name h =
      let r = create_directory stack stale s.fs (some (request_for s name true)) in
      let c =
        create_codes s.fs r
          (create_directory-IsEarly stack stale s.fs (some (request_for s name true))) in
      elim (Bool-cases (r.0 == 0)) [ inl q ↦ rw (h, q) refl | inr q ↦ rw (h, q, c.0, c.1) refl ]
