-- ===== src/Builtins/Directories/Place.antt =====
-- builtin_commands.c: where `cd` leads.
use luma_osjang.Common.{
  ltb, leb, length, ℕ, ◌≤◌, ◌<◌, ◌⊎◌, ◌≡◌, refl, Bool, true, false, ◌||◌, Option, none, some, List,
  [], ◌∷◌, ◌==◌, Bool-cases, Option-cases, inl, inr, arith, ◌∙◌,
}
use luma_osjang.Ext2.Disk.{FileSystem}
use luma_osjang.Ext2.Inodes.{read_inode, zero_inode}
use luma_osjang.Builtins.{
  ShellState, next_row, codes, same_string, is_empty, print_string, print_strings, report,
  print_line,
}
use luma_osjang.Builtins.Lookup.{find_for_rm, has_directory_bit, read_buf, lookup_from, unusable}
use luma_osjang.Builtins.Directories.{to_root, enter, show_entered, joined, cd_named, handle_cd}

abbrev pub is_absolute : List ℕ → Bool
is_absolute [] = false
is_absolute (c ∷ cs) = c == b'/'

-- The current inode is a directory's, and the path that is shown starts at the root and fits its
-- array.
pub record IsPlaced (s : ShellState) : Type 0 where
  pub here : has_directory_bit (read_inode s.fs s.current_inode zero_inode) ≡ true
  pub rooted : is_absolute s.current_working_directory ≡ true
  pub fits : length s.current_working_directory ≤ 255

-- What printing keeps.
abbrev pub SamePlace : ShellState → ShellState → Type 0
SamePlace s s' =
    (s'.fs ≡ s.fs)
    × (s'.current_inode ≡ s.current_inode)
    × (s'.current_working_directory ≡ s.current_working_directory)

pub SamePlace-print_line : (str : List ℕ) (s : ShellState) → SamePlace s (print_line str s)
unfolding print_line print_string
SamePlace-print_line str s = elim (Bool-cases (ltb s.current_output_row 24)) [
  | inl q ↦ rw q (refl, refl, refl)
  | inr q ↦ rw q (refl, refl, refl)
]

pub SamePlace-print_strings :
    (strs : List (List ℕ)) (s : ShellState) (col : ℕ) → SamePlace s (print_strings strs (s, col)).0
unfolding print_strings print_string
SamePlace-print_strings [] s col = (refl, refl, refl)
SamePlace-print_strings (str ∷ strs) s col =
    let p = print_string str (s, col) in SamePlace-print_strings strs p.0 p.1

pub SamePlace-report : (strs : List (List ℕ)) (s : ShellState) → SamePlace s (report strs s)
unfolding report
SamePlace-report strs s = SamePlace-print_strings strs s 0

pub SamePlace-trans : (s s' s'' : ShellState) → SamePlace s s' → SamePlace s' s'' → SamePlace s s''
SamePlace-trans s s' s'' (f, i, d) (f', i', d') = (f' ∙ f, i' ∙ i, d' ∙ d)

IsPlaced-same : {s s' : ShellState} → SamePlace s s' → IsPlaced s → IsPlaced s'
IsPlaced-same {s} {s'} (f, i, d) p = record {
  here = rw (f, i) p.here;
  rooted = rw d p.rooted;
  fits = rw d p.fits;
}

joined-is_absolute :
    (cwd path : List ℕ) → is_absolute cwd ≡ true → is_absolute (joined cwd path) ≡ true
unfolding joined
joined-is_absolute cwd [] h = h
joined-is_absolute [] (c ∷ cs) h = absurd (ground (arith, h))
joined-is_absolute (d ∷ ds) (c ∷ cs) h = elim (Bool-cases (c == b'/')) [
  | inl q ↦ rw q q
  | inr q ↦ elim (Bool-cases (same_string (d ∷ ds) (codes "/"))) [
    | inl r ↦ rw (q, r) h
    | inr r ↦ rw (q, r) h
  ]
]

-- What the shell takes for a directory has the directory bit.
abbrev HasBit : FileSystem → Option (ℕ × Bool) → Type 0
HasBit fs none = true ≡ true
HasBit fs (some (target, is_directory)) =
    has_directory_bit (read_inode fs target zero_inode) ≡ is_directory

find_for_rm-HasBit :
    (fs : FileSystem) (curr_inode : ℕ) (name : List ℕ) → HasBit fs (find_for_rm fs curr_inode name)
unfolding find_for_rm
find_for_rm-HasBit fs curr_inode name =
    let dir = read_inode fs curr_inode zero_inode in
    let buf = read_buf fs (dir.i_block 0) in
    elim (Bool-cases ((curr_inode == 0) || is_empty name)) [
      | inl q ↦ rw q refl
      | inr q ↦ elim (Bool-cases (unusable dir)) [
        | inl u ↦ rw (q, u) refl
        | inr u ↦ elim (Option-cases (lookup_from buf name 50 0)) [
          | inl e ↦ rw (q, u, e) refl
          | inr (o, e) ↦ rw (q, u, e) refl
        ]
      ]
    ]

-- What a command leaves when it only reads the file system.
abbrev pub Stays : FileSystem → ShellState → Type 0
Stays fs s = IsPlaced s × (s.fs ≡ fs)

Stays-same : {s s' : ShellState} → SamePlace s s' → IsPlaced s → Stays s.fs s'
Stays-same k p = (IsPlaced-same k p, k.0)

-- A state with the same file system and place, and its rows elsewhere.
IsPlaced-row : (s : ShellState) → IsPlaced s → IsPlaced (next_row s)
IsPlaced-row s p = record { here = p.here; rooted = p.rooted; fits = p.fits }

-- The two ends of `cd`: the command returns in such a state, or the path that it enters outgrows the
-- array.
abbrev pub Outcome : ShellState → List ℕ → Option ShellState → Type 0
Outcome s path r =
    ((s' : ShellState) × (r ≡ some s') × Stays s.fs s')
    ⊎ ((r ≡ none) × (255 < length (joined s.current_working_directory path)))

returned :
    (s : ShellState) (path : List ℕ) {s' : ShellState} → Stays s.fs s' → Outcome s path (some s')
returned s path {s'} st = inl (s', refl, st)

show_entered-Stays :
    (s : ShellState) (path : List ℕ) (t : ℕ)
    → IsPlaced s
    → has_directory_bit (read_inode s.fs t zero_inode) ≡ true
    → Outcome s path (show_entered (enter s t path))
show_entered-Stays s path t p bit =
    let cwd = joined s.current_working_directory path in
    let entered : ShellState = record s { current_inode = t; current_working_directory = cwd } in
    elim (Bool-cases (leb (length cwd) 255)) [
      | inl l ↦
          let at_target : IsPlaced entered = record {
            here = bit;
            rooted = joined-is_absolute s.current_working_directory path p.rooted;
            fits = ground (arith, l);
          } in
          rw l (
            returned s path (
              Stays-same (SamePlace-report (codes "Changed directory to: " ∷ cwd ∷ []) entered)
                at_target))
      | inr l ↦ rw l (inr (refl, ground (arith, l)))
    ]

cd_named-Stays : (s : ShellState) (path : List ℕ) → IsPlaced s → Outcome s path (cd_named s path)
unfolding cd_named
cd_named-Stays s path p =
    let printed : (strs : List (List ℕ))
        → Outcome s path (some (print_strings strs (next_row s, 0)).0) =
      λ strs.
        returned s path
          (Stays-same (SamePlace-print_strings strs (next_row s) 0) (IsPlaced-row s p)) in
    let missing = printed (codes "cd: directory '" ∷ path ∷ codes "' not found" ∷ []) in
    elim (Option-cases (find_for_rm s.fs s.current_inode path)) [
      | inl e ↦ rw (e, cd_named) missing
      | inr ((t, d), e) ↦
          let bit : has_directory_bit (read_inode s.fs t zero_inode) ≡ d =
            rw e at (find_for_rm-HasBit s.fs s.current_inode path) in
          elim (Bool-cases (t == 0)) [
            | inl z ↦ rw (e, cd_named, z) missing
            | inr z ↦ elim (Bool-cases d) [
              | inr n ↦
                  rw (e, cd_named, z, n)
                    (printed (codes "cd: '" ∷ path ∷ codes "' is not a directory" ∷ []))
              | inl y ↦ rw (e, cd_named, z, y) (show_entered-Stays s path t p (bit ∙ y))
            ]
          ]
    ]

-- `cd` with any argument leaves the file system as it is, the shell in a directory and a path from
-- the root of at most 255 characters on display, if the shell was in a directory with such a path and
-- inode 2 is a directory. The one other end is that the path it would put on display has more
-- than 255 characters, which outgrows its array.
pub handle_cd-Stays :
    (s : ShellState) (path : List ℕ)
    → has_directory_bit (read_inode s.fs 2 zero_inode) ≡ true
    → IsPlaced s
    → Outcome s path (handle_cd s path)
unfolding handle_cd
handle_cd-Stays s path root p =
    let r : ShellState = next_row (to_root s) in
    let at_root : IsPlaced r = record { here = root; rooted = refl; fits = omega arith } in
    let changed : Outcome s path (some (print_line (codes "Changed to root directory: /") r)) =
      returned s path
        (Stays-same (SamePlace-print_line (codes "Changed to root directory: /") r) at_root) in
    let stay : Outcome s path (some (print_line (codes "Already at root directory") (next_row s))) =
      returned s path (
        Stays-same (SamePlace-print_line (codes "Already at root directory") (next_row s))
          (IsPlaced-row s p)) in
    elim (Bool-cases (is_empty path)) [
      | inl q ↦ rw q (
          returned s path (Stays-same (SamePlace-print_line (codes "Error: Missing argument") s) p))
      | inr q ↦ elim (Bool-cases (same_string path (codes "/"))) [
        | inl a ↦ rw (q, a) changed
        | inr a ↦
            elim (Bool-cases (same_string path (codes "..") || same_string path (codes "../"))) [
              | inl b ↦ elim (Bool-cases (same_string s.current_working_directory (codes "/"))) [
                | inl c ↦ rw (q, a, b, c) stay
                | inr c ↦ rw (q, a, b, c) changed
              ]
              | inr b ↦ elim (Bool-cases (same_string path (codes "."))) [
                | inl c ↦
                    rw (q, a, b, c)
                      (returned s path (
                        Stays-same
                          (SamePlace-report
                            (codes "Staying in current directory: "
                              ∷ s.current_working_directory
                              ∷ [])
                            s)
                          p))
                | inr c ↦ rw (q, a, b, c) (cd_named-Stays s path p)
              ]
            ]
      ]
    ]
