-- ===== src/Builtins/Removal/Request.antt =====
-- builtin_commands.c and interrupt.c: the request of `rm`, and what the kernel does with it.
use luma_osjang.Common.{
  ℕ, zero, suc, ◌%◌, ◌^◌, ◌≤◌, ◌<◌, ◌≡◌, refl, ◌∙◌, ap, Bool, true, false, not, ◌&&◌, Option, none,
  some, List, [], ◌∷◌, leb, ◌==◌, if◌then◌else◌, length, take, arith, Option-cases, inl, inr,
}
use luma_osjang.Common.Bytes.{put_name}
use luma_osjang.Ext2.Numbers.{inode_to_bgd, inode_to_local, inodes_per_group}
use luma_osjang.Ext2.Disk.{FileSystem, groups_count, read_block}
use luma_osjang.Ext2.Inodes.{Inode, read_inode, is_directory}
use luma_osjang.Ext2.Directory.{entry_inode, entry_file_type}
use luma_osjang.Ext2.Files.{Ext2DriverRequest}
use luma_osjang.FileCalls.{minus, find_name}
use luma_osjang.FileCalls.Delete.{
  done, remove_target, is_empty_from, delete_file, delete_file_at, delete_directory,
  delete_directory_at,
}
use luma_osjang.Builtins.{ShellState, is_empty, request_for}
use luma_osjang.Builtins.Lookup.Walk.{array_of}
use luma_osjang.Builtins.Directories.Place.{SamePlace-report}
use luma_osjang.Builtins.Removal.{removal_message, delete_call, remove_named}

take_all : (n : ℕ) (name : List ℕ) → length name ≤ n → take n name ≡ name
take_all zero [] h = refl
take_all zero (c ∷ cs) h = absurd (omega (arith, h))
take_all (suc n) [] h = refl
take_all (suc n) (c ∷ cs) h = ap (λ xs. c ∷ xs) (take_all n cs (omega (arith, h)))

-- An inode number with a place in the tables.
abbrev pub is_known : FileSystem → ℕ → Bool
is_known fs inode =
    not (inode == 0)
    && not (leb groups_count (inode_to_bgd inode))
    && not (leb inodes_per_group (inode_to_local inode))

pub read_inode_known :
    (fs : FileSystem) (inode : ℕ) (a b : Inode)
    → is_known fs inode ≡ true
    → read_inode fs inode a ≡ read_inode fs inode b
unfolding read_inode
read_inode_known fs inode a b h = ground (arith, h)

-- The file system of an outcome.
abbrev pub files_of : Option ShellState → Option FileSystem
files_of none = none
files_of (some s) = some s.fs

abbrev pub files_after : Option (ℕ × FileSystem) → Option FileSystem
files_after none = none
files_after (some (_, fs)) = some fs

pub not_empty : (name : List ℕ) → 0 < length name → is_empty name ≡ false
not_empty [] h = absurd (omega (arith, h))
not_empty (c ∷ cs) h = refl

-- The checks that the two deletions share.
abbrev checked :
    FileSystem
    → Bool
    → Bool
    → Option (ℕ × ℕ)
    → (ℕ → ℕ → Option (ℕ × FileSystem))
    → Option (ℕ × FileSystem)
checked fs l d e k =
    if l
    then some (minus 1, fs)
    else if not d
    then some (minus 2, fs)
    else elim e [ none ↦ some (minus 3, fs) | some (block_idx, offset) ↦ k block_idx offset ]

checked_lem :
    (fs : FileSystem) (l d : Bool) (e : Option (ℕ × ℕ)) (b o : ℕ)
    (k : ℕ → ℕ → Option (ℕ × FileSystem))
    → l ≡ false
    → d ≡ true
    → e ≡ some (b, o)
    → checked fs l d e k ≡ k b o
checked_lem fs l d e b o k hl hd he = rw (hl, hd, he) refl

-- The tests of `handle_rm`.
abbrev pub named :
    Bool
    → Bool
    → Option (ℕ × Bool)
    → Option ShellState
    → Option ShellState
    → Option ShellState
    → (Bool → Option ShellState)
    → Option ShellState
named none_given dots found a b missing k =
    if none_given then a else if dots then b else elim found [
      | none ↦ missing
      | some (target_inode, is_dir) ↦ if target_inode == 0 then missing else k is_dir
    ]

pub named_lem :
    (none_given dots : Bool) (found : Option (ℕ × Bool)) (t : ℕ) (is_dir : Bool)
    (a b missing : Option ShellState) (k : Bool → Option ShellState)
    → none_given ≡ false
    → dots ≡ false
    → found ≡ some (t, is_dir)
    → (t == 0) ≡ false
    → named none_given dots found a b missing k ≡ k is_dir
named_lem none_given dots found t is_dir a b missing k g d e z = rw (g, d, e, z) refl

module _ (stale : Inode) where
  delete_file_found :
      (fs : FileSystem) (request : Ext2DriverRequest) (b o : ℕ)
      → (request.name_len == 0) ≡ false
      → is_directory (read_inode fs request.parent_inode stale) ≡ true
      → find_name fs (read_inode fs request.parent_inode stale) request.name request.name_len
        ≡ some (b, o)
      → delete_file stale fs (some request)
        ≡ delete_file_at stale fs (read_inode fs request.parent_inode stale) b o
  unfolding delete_file
  delete_file_found fs request b o l d e =
      let parent = read_inode fs request.parent_inode stale in
      checked_lem fs (request.name_len == 0) (is_directory parent)
        (find_name fs parent request.name request.name_len) b o (delete_file_at stale fs parent) l d
        e

  delete_directory_found :
      (fs : FileSystem) (request : Ext2DriverRequest) (b o : ℕ)
      → (request.name_len == 0) ≡ false
      → is_directory (read_inode fs request.parent_inode stale) ≡ true
      → find_name fs (read_inode fs request.parent_inode stale) request.name request.name_len
        ≡ some (b, o)
      → delete_directory stale fs (some request)
        ≡ delete_directory_at stale fs (read_inode fs request.parent_inode stale) b o
  unfolding delete_directory
  delete_directory_found fs request b o l d e =
      let parent = read_inode fs request.parent_inode stale in
      checked_lem fs (request.name_len == 0) (is_directory parent)
        (find_name fs parent request.name request.name_len) b o
        (delete_directory_at stale fs parent) l d e

  -- What the kernel does with an entry whose type is `is_dir`.
  unfoldable pub removed : FileSystem → Inode → ℕ → ℕ → Bool → Option FileSystem
  removed fs parent b o is_dir =
      let target = entry_inode (read_block fs (parent.i_block b)) o in
      if is_dir && not (is_empty_from fs (read_inode fs target stale) 12 0)
      then some fs
      else remove_target fs parent b o target (read_inode fs target stale)

  pub remove_named_files :
      (s : ShellState) (name : List ℕ) (is_dir : Bool)
      → files_of (remove_named stale s name is_dir) ≡ files_after (delete_call stale s name is_dir)
  unfolding remove_named
  remove_named_files s name is_dir = elim (Option-cases (delete_call stale s name is_dir)) [
    | inl e ↦ rw (e, remove_named) refl
    | inr ((r, fs), e) ↦
        rw (e, remove_named)
          (ap some (SamePlace-report (removal_message is_dir name r) (record s { fs = fs })).0)
  ]

  files_after-done : (o : Option FileSystem) → files_after (done o) ≡ o
  files_after-done none = refl
  files_after-done (some fs) = refl

  -- The kernel's tests of the entry's type, by their outcome.
  delete_kind :
      (fs : FileSystem) (t empty is_dir : Bool) (x : Option FileSystem)
      → t ≡ is_dir
      → files_after (
          if is_dir
          then (if not t
              then some (minus 6, fs)
              else if not empty
              then some (minus 7, fs)
              else done x)
          else (if t then some (minus 6, fs) else done x))
        ≡ (if is_dir && not empty then some fs else x)
  delete_kind fs true true true x e = files_after-done x
  delete_kind fs true false true x e = refl
  delete_kind fs false empty false x e = files_after-done x
  delete_kind fs true empty false x e = absurd (cc e)
  delete_kind fs false empty true x e = absurd (cc e)

  -- The request names what the shell was given, if the name has no more than 255 characters.
  request_finds :
      (s : ShellState) (name : List ℕ) (is_dir : Bool) (o : Option (ℕ × ℕ))
      → length name ≤ 255
      → let request = request_for s name is_dir in
        let parent = read_inode s.fs s.current_inode stale in
        find_name s.fs parent (array_of name) (length name) ≡ o
        → find_name s.fs parent request.name request.name_len ≡ o
  unfolding request_for
  request_finds s name is_dir o l e =
      let parent = read_inode s.fs s.current_inode stale in
      let len : length name % 2 ^ 8 ≡ length name = omega (arith, l) in
      ap (λ (xs : List ℕ). find_name s.fs parent (put_name (λ _. 0) 0 xs) (length name % 2 ^ 8))
        (take_all 255 name l)
      ∙ (ap (λ n. find_name s.fs parent (array_of name) n) len ∙ e)

  request_named :
      (s : ShellState) (name : List ℕ) (is_dir : Bool)
      → 0 < length name
      → length name ≤ 255
      → ((request_for s name is_dir).name_len == 0) ≡ false
  unfolding request_for
  request_named s name is_dir h l = ground (arith, h, l)

  -- The call that `rm` makes, once the kernel finds the name.
  pub delete_call_files :
      (s : ShellState) (name : List ℕ) (b o : ℕ) (is_dir : Bool)
      → 0 < length name
      → length name ≤ 255
      → let parent = read_inode s.fs s.current_inode stale in
        is_directory parent ≡ true
        → find_name s.fs parent (array_of name) (length name) ≡ some (b, o)
        → (entry_file_type (read_block s.fs (parent.i_block b)) o == 2) ≡ is_dir
        → files_after (delete_call stale s name is_dir) ≡ removed s.fs parent b o is_dir
  unfolding delete_call removed delete_file_at delete_directory_at
  delete_call_files s name b o true h l d e t =
      let parent = read_inode s.fs s.current_inode stale in
      let buf = read_block s.fs (parent.i_block b) in
      let target = read_inode s.fs (entry_inode buf o) stale in
      ap files_after (
        delete_directory_found s.fs (request_for s name true) b o (request_named s name true h l) d
          (request_finds s name true (some (b, o)) l e))
      ∙ delete_kind s.fs (entry_file_type buf o == 2) (is_empty_from s.fs target 12 0) true
          (remove_target s.fs parent b o (entry_inode buf o) target) t
  delete_call_files s name b o false h l d e t =
      let parent = read_inode s.fs s.current_inode stale in
      let buf = read_block s.fs (parent.i_block b) in
      let target = read_inode s.fs (entry_inode buf o) stale in
      ap files_after (
        delete_file_found s.fs (request_for s name false) b o (request_named s name false h l) d
          (request_finds s name false (some (b, o)) l e))
      ∙ delete_kind s.fs (entry_file_type buf o == 2) (is_empty_from s.fs target 12 0) false
          (remove_target s.fs parent b o (entry_inode buf o) target) t
