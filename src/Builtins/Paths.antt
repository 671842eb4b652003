-- ===== src/Builtins/Paths.antt =====
-- builtin_commands.c: the normal form of a path for display, in arrays of 256 characters. `none`
-- where a character or a terminator is written behind the end of one.
pub mod Components
pub mod Display
use luma_osjang.Common.{
  ℕ, zero, suc, ◌+◌, ◌-◌, Bool, true, false, not, ◌&&◌, ◌||◌, List, [], ◌∷◌, ◌++◌, ltb, leb, ◌==◌,
  Option, none, some, if◌then◌else◌, length, take, get_or,
}
use luma_osjang.Builtins.{codes, same_string, is_empty}

-- The characters up to a slash or the end, and what is left.
unfoldable pub segment_of : List ℕ → List ℕ × List ℕ
segment_of [] = ([], [])
segment_of (c ∷ cs) =
    let (segment, rest) = segment_of cs in if c == b'/' then ([], c ∷ cs) else (c ∷ segment, rest)

-- `while (last_slash_idx > 0 && normalized_path[last_slash_idx] != '/') last_slash_idx--;`
unfoldable pub last_slash : List ℕ → ℕ → ℕ
last_slash path zero = zero
last_slash path (suc i) =
    let rest = last_slash path i in if not (get_or path (suc i) 0 == b'/') then rest else suc i

-- A ".." in the path.
unfoldable pub drop_segment : List ℕ → List ℕ
unfolding last_slash same_string
drop_segment path =
    let last_slash_idx = last_slash path (length path - 1) in
    if not (same_string path (codes "/"))
    then if ltb 1 (length path)
      then if (last_slash_idx == 0) && (get_or path 0 0 == b'/')
        then take 1 path
        else take last_slash_idx path
      else path
    else path

-- The slash in front of a segment.
unfoldable pub add_slash : List ℕ → List ℕ
add_slash path =
    if ltb 1 (length path) || not (get_or path 0 0 == b'/') then path ++ codes "/" else path

-- The copying loop stops at the index 255, but the terminator goes behind the whole length of the
-- segment: within the array, all of the segment is copied.
unfoldable pub add_segment : List ℕ → List ℕ → Option (List ℕ)
unfolding drop_segment add_slash
add_segment path segment =
    let slashed = add_slash path in
    if same_string segment (codes "..")
    then some (drop_segment path)
    else if same_string segment (codes ".")
    then some path
    else if leb (length slashed + length segment) 255
    then some (slashed ++ segment)
    else none

abbrev pub and_then : Option (List ℕ) → (List ℕ → Option (List ℕ)) → Option (List ℕ)
and_then none next = none
and_then (some path) next = next path

-- The loop over the path, with rounds left: each takes a slash or a segment.
unfoldable pub normalize : ℕ → List ℕ → List ℕ → Option (List ℕ)
unfolding segment_of add_segment
normalize zero rest path = some path
normalize (suc n) [] path = some path
normalize (suc n) (c ∷ cs) path =
    let (segment, rest) = segment_of (c ∷ cs) in
    let skipped = normalize n cs path in
    let added = and_then (add_segment path segment) (λ p. normalize n rest p) in
    if c == b'/' then skipped else added

-- The path from the root: a relative one goes behind the working directory.
unfoldable pub full_path : List ℕ → List ℕ → List ℕ
full_path cwd path =
    if get_or path 0 0 == b'/'
    then path
    else if ltb 1 (length cwd) && not (get_or cwd (length cwd - 1) 0 == b'/')
    then (cwd ++ codes "/") ++ path
    else cwd ++ path

unfoldable pub resolve_path_display : List ℕ → List ℕ → Option (List ℕ)
unfolding normalize full_path
resolve_path_display cwd path =
    let temp_path = full_path cwd path in
    let normalized_path = normalize (length temp_path) temp_path (codes "/") in
    if leb (length temp_path) 255
    then and_then normalized_path (λ path. some (if is_empty path then codes "/" else path))
    else none
