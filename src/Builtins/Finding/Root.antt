-- ===== src/Builtins/Finding/Root.antt =====
-- builtin_commands.c: the search finds what is in the directory it starts from.
use luma_osjang.Common.{
  ℕ, zero, suc, ◌+◌, ◌≡◌, refl, ◌∙◌, ap, Bool, true, false, not, ◌&&◌, ◌||◌, Option, none, some,
  List, [], ◌∷◌, ltb, leb, ◌==◌, ==_iff, if◌then◌else◌, take, arith, Bool-cases, inl, inr,
}
use luma_osjang.Common.Bytes.{Bytes, put_name}
use luma_osjang.Ext2.Disk.{FileSystem}
use luma_osjang.Ext2.Inodes.{zero_inode, read_inode}
use luma_osjang.Ext2.Directory.{entry_rec_len}
use luma_osjang.Builtins.{ShellState, codes, same_string, is_empty, report}
use luma_osjang.Builtins.Lookup.{
  read_buf, stops_lookup, skips, is_match, chars_match, entry_name_length, search_length,
  lookup_from, unusable, find_for_rm, target_of,
}
use luma_osjang.Builtins.Directories.Place.{SamePlace-report}
use luma_osjang.Builtins.Finding.{
  chars_at, entry_name, find_entries, find_recursive, handle_find, are_printable,
}

abbrev pub names_dots : List ℕ → Bool
names_dots name = same_string name (codes ".") || same_string name (codes "..")

one_dot :
    (buf : Bytes) (at n : ℕ)
    → same_string (chars_at buf at n) (codes ".") ≡ true
    → (n ≡ 1) × (buf at ≡ b'.')
unfolding same_string chars_at
one_dot buf at zero h = absurd (cc h)
one_dot buf at (suc zero) h = (refl, ground (arith, h))
one_dot buf at (suc (suc n)) h = absurd (ground (arith, h))

two_dots :
    (buf : Bytes) (at n : ℕ)
    → same_string (chars_at buf at n) (codes "..") ≡ true
    → (n ≡ 2) × (buf at ≡ b'.') × (buf (at + 1) ≡ b'.')
unfolding same_string chars_at
two_dots buf at zero h = absurd (cc h)
two_dots buf at (suc zero) h = absurd (ground (arith, h))
two_dots buf at (suc (suc zero)) h = (refl, ground (arith, h), ground (arith, h))
two_dots buf at (suc (suc (suc n))) h = absurd (ground (arith, h))

and_parts : (a b c : Bool) → ((a && b) && c) ≡ true → (a ≡ true) × (c ≡ true)
and_parts true true true h = (refl, refl)
and_parts true true false h = absurd (cc h)
and_parts true false c h = absurd (cc h)
and_parts false b c h = absurd (cc h)

is_match_parts :
    (buf : Bytes) (offset : ℕ) (name : List ℕ)
    → is_match buf offset name ≡ true
    → (search_length name ≡ entry_name_length buf offset)
      × (chars_match (put_name (λ _. 0) 0 name) buf (offset + 9) (search_length name) 0 ≡ true)
unfolding is_match
is_match_parts buf offset name h =
    let (l, c) =
      and_parts (search_length name == entry_name_length buf offset) (ltb 0 (search_length name))
        (chars_match (put_name (λ _. 0) 0 name) buf (offset + 9) (search_length name) 0) h in
    ((==_iff (search_length name) (entry_name_length buf offset)).0 l, c)

name_one :
    (buf : Bytes) (at : ℕ) (name : List ℕ)
    → search_length name ≡ 1
    → chars_match (put_name (λ _. 0) 0 name) buf at (search_length name) 0 ≡ true
    → buf at ≡ b'.'
    → same_string name (codes ".") ≡ true
unfolding same_string chars_match put_name
name_one buf at [] l m h = absurd (ground (arith, l))
name_one buf at (c ∷ []) l m h = let z : at + 0 ≡ at = omega arith in ground (arith, m, h, ap buf z)
name_one buf at (c ∷ d ∷ cs) l m h = absurd (ground (arith, l))

name_two :
    (buf : Bytes) (at : ℕ) (name : List ℕ)
    → search_length name ≡ 2
    → chars_match (put_name (λ _. 0) 0 name) buf at (search_length name) 0 ≡ true
    → buf at ≡ b'.'
    → buf (at + 1) ≡ b'.'
    → same_string name (codes "..") ≡ true
unfolding same_string chars_match put_name
name_two buf at [] l m h k = absurd (ground (arith, l))
name_two buf at (c ∷ []) l m h k = absurd (ground (arith, l))
name_two buf at (c ∷ d ∷ []) l m h k =
    let z : at + 0 ≡ at = omega arith in ground (arith, m, h, k, ap buf z)
name_two buf at (c ∷ d ∷ e ∷ cs) l m h k = absurd (ground (arith, l))

-- An entry that matches a name is one of the dots only if the name is.
dots_match :
    (buf : Bytes) (offset : ℕ) (name : List ℕ)
    → is_match buf offset name ≡ true
    → names_dots name ≡ false
    → names_dots (entry_name buf offset) ≡ false
unfolding entry_name
dots_match buf offset name m d =
    let (l, c) = is_match_parts buf offset name m in
    elim (Bool-cases (same_string (entry_name buf offset) (codes "."))) [
      | inl q ↦
          let (n, h) = one_dot buf (offset + 9) (entry_name_length buf offset) q in
          let x = name_one buf (offset + 9) name (l ∙ n) c h in absurd (ground (arith, x, d))
      | inr q ↦ elim (Bool-cases (same_string (entry_name buf offset) (codes ".."))) [
        | inl r ↦
            let (n, h, k) = two_dots buf (offset + 9) (entry_name_length buf offset) r in
            let x = name_two buf (offset + 9) name (l ∙ n) c h k in absurd (ground (arith, x, d))
        | inr r ↦ rw (q, r) refl
      ]
    ]

-- A walk that has found its name is over.
found_stays :
    (visit : ℕ → List ℕ → ShellState × Bool → ShellState × Bool) (curr : ℕ) (name path : List ℕ)
    (buf : Bytes) (n offset : ℕ) (s : ShellState)
    → find_entries visit curr name path buf n offset (s, true) ≡ (s, true)
unfolding find_entries
found_stays visit curr name path buf zero offset s = refl
found_stays visit curr name path buf (suc n) offset s = ground arith

step_found :
    (visit : ℕ → List ℕ → ShellState × Bool → ShellState × Bool) (curr : ℕ) (name path : List ℕ)
    (buf : Bytes) (n offset : ℕ) (p : ShellState × Bool)
    → ((s : ShellState) → (find_entries visit curr name path buf n offset (s, false)).1 ≡ true)
    → (find_entries visit curr name path buf n offset p).1 ≡ true
step_found visit curr name path buf n offset (s, true) h =
    ap (λ (p : ShellState × Bool). p.1) (found_stays visit curr name path buf n offset s)
step_found visit curr name path buf n offset (s, false) h = h s

find_entries-lookup_from :
    (visit : ℕ → List ℕ → ShellState × Bool → ShellState × Bool) (curr : ℕ) (name path : List ℕ)
    (buf : Bytes) (n offset o : ℕ) (s : ShellState)
    → names_dots name ≡ false
    → lookup_from buf name n offset ≡ some o
    → (find_entries visit curr name path buf n offset (s, false)).1 ≡ true
unfolding find_entries lookup_from
find_entries-lookup_from visit curr name path buf zero offset o s d e = absurd (cc e)
find_entries-lookup_from visit curr name path buf (suc n) offset o s d e =
    let rest : (p : ShellState × Bool)
        → lookup_from buf name n (offset + entry_rec_len buf offset) ≡ some o
        → (find_entries visit curr name path buf n (offset + entry_rec_len buf offset) p).1 ≡ true =
      λ p e'. step_found visit curr name path buf n (offset + entry_rec_len buf offset) p (λ s'.
        find_entries-lookup_from visit curr name path buf n (offset + entry_rec_len buf offset) o s'
          d e') in
    elim (Bool-cases (ltb offset 1000)) [
      | inr q ↦ absurd (ground (arith, q))
      | inl q ↦ elim (Bool-cases (stops_lookup buf offset)) [
        | inl t ↦ absurd (ground (arith, q, t))
        | inr t ↦ elim (Bool-cases (skips buf offset)) [
          | inl k ↦ rw (q, t, k) (rest _ (ground (arith, e, q, t, k)))
          | inr k ↦ elim (Bool-cases (is_match buf offset name)) [
            | inl m ↦ rw (q, t, k, dots_match buf offset name m d, m) refl
            | inr m ↦
                let e' : lookup_from buf name n (offset + entry_rec_len buf offset) ≡ some o =
                  ground (arith, e, q, t, k, m) in
                elim (Bool-cases (names_dots (entry_name buf offset))) [
                  | inl w ↦ rw (q, t, k, m, w) (rest _ e')
                  | inr w ↦ rw (q, t, k, m, w) (rest _ e')
                ]
          ]
        ]
      ]
    ]

looked_up :
    (a e u : Bool) (o : Option ℕ) (f : ℕ → ℕ × Bool) (x : ℕ × Bool)
    → (if a || e
        then none
        else if u
        then none
        else elim o [ none ↦ none | some offset ↦ some (f offset) ])
      ≡ some x
    → (a ≡ false) × (e ≡ false) × (u ≡ false) × ((offset : ℕ) × (o ≡ some offset))
looked_up true e u o f x h = absurd (cc h)
looked_up false true u o f x h = absurd (cc h)
looked_up false false true o f x h = absurd (cc h)
looked_up false false false none f x h = absurd (cc h)
looked_up false false false (some offset) f x h = (refl, refl, refl, (offset, refl))

searched_lem :
    (a e u : Bool) (s : ShellState) (p : ShellState × Bool)
    → a ≡ false
    → e ≡ false
    → u ≡ false
    → p.1 ≡ true
    → (if (false || a) || (e || u) then (s, false) else p).1 ≡ true
searched_lem a e u s p ha he hu h = rw (ha, he, hu) h

-- A name that the shell finds in a directory, `find` finds from there.
find_recursive-find_for_rm :
    (depth curr : ℕ) (name path : List ℕ) (s : ShellState) (x : ℕ × Bool)
    → names_dots name ≡ false
    → find_for_rm s.fs curr name ≡ some x
    → (find_recursive (suc depth) name curr path (s, false)).1 ≡ true
unfolding find_recursive find_for_rm
find_recursive-find_for_rm depth curr name path s x d e =
    let dir = read_inode s.fs curr zero_inode in
    let buf = read_buf s.fs (dir.i_block 0) in
    let (a, b, u, w) =
      looked_up (curr == 0) (is_empty name) (unusable dir) (lookup_from buf name 50 0)
        (target_of s.fs buf) x e in
    searched_lem (curr == 0) (is_empty name) (unusable dir) s
      (find_entries (find_recursive depth name) curr name path buf 50 0 (s, false)) a b u
      (find_entries-lookup_from (find_recursive depth name) curr name path buf 50 0 w.0 s d w.1)

handled_lem :
    (none_given printable full : Bool) (r : ShellState × Bool) (a b c : ShellState)
    (missing : ShellState → ShellState)
    → none_given ≡ false
    → printable ≡ true
    → full ≡ false
    → r.1 ≡ true
    → (if none_given
        then a
        else if not printable
        then b
        else if full
        then c
        else if not r.1
        then missing r.0
        else r.0)
      ≡ r.0
handled_lem none_given printable full r a b c missing hg hp hf hr = rw (hg, hp, hf, hr) refl

-- With a printable name of at most 255 characters that is not one of the dots, and rows left on the
-- screen, `find` finds every name that the shell's lookup finds in the root, wherever the search goes
-- down before it gets there: the message that nothing was found is not printed.
pub handle_find_root :
    (s : ShellState) (filename : List ℕ) (x : ℕ × Bool)
    → is_empty filename ≡ false
    → are_printable (take 255 filename) ≡ true
    → leb 18 s.current_output_row ≡ false
    → names_dots filename ≡ false
    → find_for_rm s.fs 2 filename ≡ some x
    → let started = report (codes "Searching for: " ∷ filename ∷ []) s in
      handle_find s filename ≡ (find_recursive 11 filename 2 (codes "/") (started, false)).0
unfolding handle_find
handle_find_root s filename x given printable row d e =
    let started = report (codes "Searching for: " ∷ filename ∷ []) s in
    let same = (SamePlace-report (codes "Searching for: " ∷ filename ∷ []) s).0 in
    let e' : find_for_rm started.fs 2 filename ≡ some x =
      ap (λ (fs : FileSystem). find_for_rm fs 2 filename) same ∙ e in
    let found = find_recursive-find_for_rm 10 2 filename (codes "/") started x d e' in
    handled_lem (is_empty filename) (are_printable (take 255 filename))
      (leb 18 s.current_output_row) (find_recursive 11 filename 2 (codes "/") (started, false)) _ _
      _ (λ t. report (codes "File or directory not found" ∷ []) t) given printable row found
