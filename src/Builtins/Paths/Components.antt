-- ===== src/Builtins/Paths/Components.antt =====
-- builtin_commands.c: a path as the stack of its components.
use luma_osjang.Common.{
  ℕ, zero, suc, ◌+◌, ◌-◌, ◌≤◌, ◌<◌, ◌≡◌, refl, ◌∙◌, sym, ap, Bool, true, false, not, ◌&&◌, ◌||◌,
  List, [], ◌∷◌, ◌++◌, ltb, leb, ◌==◌, none, some, if◌then◌else◌, length, take, get_or, arith,
  Bool-cases, inl, inr, length-append,
}
use luma_osjang.Builtins.{codes, same_string, is_empty}
use luma_osjang.Builtins.Paths.{last_slash, drop_segment, add_slash, add_segment}

-- The components, the last first: ".." takes one away, "." and an empty segment change none.
abbrev pub pop : List (List ℕ) → List (List ℕ)
pop [] = []
pop (c ∷ cs) = cs

unfoldable pub push : List (List ℕ) → List ℕ → List (List ℕ)
push cs segment =
    if is_empty segment
    then cs
    else if same_string segment (codes "..")
    then pop cs
    else if same_string segment (codes ".")
    then cs
    else segment ∷ cs

unfoldable pub push_all : List (List ℕ) → List (List ℕ) → List (List ℕ)
push_all cs [] = cs
push_all cs (segment ∷ segments) = push_all (push cs segment) segments

unfoldable pub body : List (List ℕ) → List ℕ
body [] = []
body (c ∷ cs) = body cs ++ (b'/' ∷ c)

unfoldable pub shown : List (List ℕ) → List ℕ
unfolding body
shown [] = b'/' ∷ []
shown (c ∷ cs) = body (c ∷ cs)

-- What is before, between and behind the slashes of a text.
abbrev pub attach : ℕ → List (List ℕ) → List (List ℕ)
attach c [] = (c ∷ []) ∷ []
attach c (p ∷ ps) = (c ∷ p) ∷ ps

unfoldable pub pieces : List ℕ → List (List ℕ)
pieces [] = [] ∷ []
pieces (c ∷ cs) = let rest = pieces cs in if c == b'/' then [] ∷ rest else attach c rest

abbrev pub NoSlash : List ℕ → Type 0
NoSlash [] = true ≡ true
NoSlash (c ∷ cs) = ((c == b'/') ≡ false) × NoSlash cs

-- Components with a character each, and without slashes.
abbrev pub AreComponents : List (List ℕ) → Type 0
AreComponents [] = true ≡ true
AreComponents (c ∷ cs) = (0 < length c) × NoSlash c × AreComponents cs

get_or-append : (xs ys : List ℕ) (j d : ℕ) → get_or (xs ++ ys) (length xs + j) d ≡ get_or ys j d
get_or-append [] ys j d = let z : 0 + j ≡ j = omega arith in rw z refl
get_or-append (x ∷ xs) ys j d =
    let s : suc (length xs) + j ≡ suc (length xs + j) = omega arith in
    rw s (get_or-append xs ys j d)

take-append : (xs ys : List ℕ) → take (length xs) (xs ++ ys) ≡ xs
take-append [] ys = refl
take-append (x ∷ xs) ys = ap (λ (zs : List ℕ). x ∷ zs) (take-append xs ys)

append_assoc : (xs ys zs : List ℕ) → (xs ++ ys) ++ zs ≡ xs ++ (ys ++ zs)
append_assoc [] ys zs = refl
append_assoc (x ∷ xs) ys zs = ap (λ (ws : List ℕ). x ∷ ws) (append_assoc xs ys zs)

NoSlash-at : (c : List ℕ) (j : ℕ) → NoSlash c → j < length c → (get_or c j 0 == b'/') ≡ false
NoSlash-at [] j n h = absurd (omega (arith, h))
NoSlash-at (x ∷ c) zero n h = n.0
NoSlash-at (x ∷ c) (suc j) n h = NoSlash-at c j n.1 (omega (arith, h))

last_slash_at : (path : List ℕ) (i : ℕ) → get_or path i 0 ≡ b'/' → last_slash path i ≡ i
unfolding last_slash
last_slash_at path zero h = refl
last_slash_at path (suc i) h = rw h refl

last_slash-append :
    (xs c : List ℕ) (j : ℕ)
    → NoSlash c
    → j ≤ length c
    → last_slash (xs ++ (b'/' ∷ c)) (length xs + j) ≡ length xs
unfolding last_slash
last_slash-append xs c zero n h =
    let z : length xs + 0 ≡ length xs = omega arith in
    let at : get_or (xs ++ (b'/' ∷ c)) (length xs) 0 ≡ b'/' =
      ap (λ i. get_or (xs ++ (b'/' ∷ c)) i 0) (sym z) ∙ get_or-append xs (b'/' ∷ c) 0 0 in
    ap (last_slash (xs ++ (b'/' ∷ c))) z ∙ last_slash_at (xs ++ (b'/' ∷ c)) (length xs) at
last_slash-append xs c (suc j) n h =
    let path = xs ++ (b'/' ∷ c) in
    let s : length xs + suc j ≡ suc (length xs + j) = omega arith in
    let at : (get_or path (suc (length xs + j)) 0 == b'/') ≡ false =
      ap (λ i. get_or path i 0 == b'/') (sym s)
      ∙ (ap (λ i. i == b'/') (get_or-append xs (b'/' ∷ c) (suc j) 0)
          ∙ NoSlash-at c j n (omega (arith, h))) in
    ap (last_slash path) s ∙ rw at (last_slash-append xs c j n (omega (arith, h)))

-- A path with two characters is not the root.
not_root : (path : List ℕ) → 2 ≤ length path → same_string path (codes "/") ≡ false
unfolding same_string
not_root [] h = refl
not_root (c ∷ []) h = absurd (omega (arith, h))
not_root (c ∷ d ∷ cs) h = ground arith

drop_lem :
    (front c : List ℕ) (i : ℕ) (root long : Bool)
    → i ≡ length front
    → root ≡ false
    → long ≡ true
    → (if not root
        then if long
          then if (i == 0) && (get_or (front ++ (b'/' ∷ c)) 0 0 == b'/')
            then take 1 (front ++ (b'/' ∷ c))
            else take i (front ++ (b'/' ∷ c))
          else front ++ (b'/' ∷ c)
        else front ++ (b'/' ∷ c))
      ≡ (if length front == 0 then codes "/" else front)
drop_lem [] c i root long hi hr hl = rw (hi, hr, hl) refl
drop_lem (x ∷ xs) c i root long hi hr hl =
    let nz : (suc (length xs) == 0) ≡ false = ground arith in
    rw (hi, hr, hl, nz) (take-append (x ∷ xs) (b'/' ∷ c))

-- What ".." makes of a path with a component `c` behind `front`.
drop_segment-append :
    (front c : List ℕ)
    → NoSlash c
    → 0 < length c
    → drop_segment (front ++ (b'/' ∷ c)) ≡ (if length front == 0 then codes "/" else front)
unfolding drop_segment
drop_segment-append front c n h =
    let path = front ++ (b'/' ∷ c) in
    let len : length path ≡ length front + suc (length c) = length-append front (b'/' ∷ c) in
    let two : 2 ≤ length path = omega (arith, len, h) in
    let last : length path - 1 ≡ length front + length c = omega (arith, len) in
    let idx : last_slash path (length path - 1) ≡ length front =
      ap (last_slash path) last ∙ last_slash-append front c (length c) n (omega arith) in
    let long : ltb 1 (length path) ≡ true = ground (arith, two) in
    drop_lem front c (last_slash path (length path - 1)) (same_string path (codes "/"))
      (ltb 1 (length path)) idx (not_root path two) long

pick_front : (b : Bool) (front : List ℕ) → b ≡ false → (if b then codes "/" else front) ≡ front
pick_front b front h = rw h refl

pick_then : (b : Bool) (xs ys : List ℕ) → b ≡ true → (if b then xs else ys) ≡ xs
pick_then b xs ys h = rw h refl

root_drop : drop_segment (codes "/") ≡ codes "/"
unfolding drop_segment same_string
root_drop = refl

-- One segment, which is not empty and has no slash, on a path that is shown.
pub body_pos : (c : List ℕ) (cs : List (List ℕ)) → 0 < length (body (c ∷ cs))
unfolding body
body_pos c cs = omega (arith, length-append (body cs) (b'/' ∷ c))

shown-drop : (cs : List (List ℕ)) → AreComponents cs → drop_segment (shown cs) ≡ shown (pop cs)
unfolding shown body
shown-drop [] a = root_drop
shown-drop (c ∷ []) a = drop_segment-append [] c a.1 a.0
shown-drop (c ∷ d ∷ ds) a =
    let nz : (length (body (d ∷ ds)) == 0) ≡ false = ground (arith, body_pos d ds) in
    drop_segment-append (body (d ∷ ds)) c a.1 a.0
    ∙ pick_front (length (body (d ∷ ds)) == 0) (body (d ∷ ds)) nz

shown-slash : (cs : List (List ℕ)) → AreComponents cs → add_slash (shown cs) ≡ body cs ++ codes "/"
unfolding shown body add_slash
shown-slash [] a = refl
shown-slash (c ∷ cs) a =
    let path = body (c ∷ cs) in
    let len : length path ≡ length (body cs) + suc (length c) =
      length-append (body cs) (b'/' ∷ c) in
    let long : ltb 1 (length path) ≡ true = ground (arith, len, a.0) in
    let q : (ltb 1 (length path) || not (get_or path 0 0 == b'/')) ≡ true = rw long refl in
    pick_then (ltb 1 (length path) || not (get_or path 0 0 == b'/')) (path ++ codes "/") path q

-- What is shown of a stack with one more component.
shown-add :
    (cs : List (List ℕ)) (segment : List ℕ)
    → AreComponents cs
    → (add_slash (shown cs) ++ segment ≡ shown (segment ∷ cs))
      × (length (add_slash (shown cs)) ≡ length (body cs) + 1)
unfolding shown body
shown-add cs segment a = (
  ap (λ (path : List ℕ). path ++ segment) (shown-slash cs a)
      ∙ append_assoc (body cs) (codes "/") segment,
  ap (λ (path : List ℕ). length path) (shown-slash cs a) ∙ length-append (body cs) (codes "/"),
)

pick_fitting :
    (b : Bool) (xs ys : List ℕ) → b ≡ true → xs ≡ ys → (if b then some xs else none) ≡ some ys
pick_fitting b xs ys h e = rw (h, e) refl

pub add_segment-push :
    (cs : List (List ℕ)) (segment : List ℕ)
    → AreComponents cs
    → is_empty segment ≡ false
    → length (body cs) + 1 + length segment ≤ 255
    → add_segment (shown cs) segment ≡ some (shown (push cs segment))
unfolding add_segment push
add_segment-push cs segment a e fits = elim (Bool-cases (same_string segment (codes ".."))) [
  | inl q ↦ rw (e, q) (ap some (shown-drop cs a))
  | inr q ↦ elim (Bool-cases (same_string segment (codes "."))) [
    | inl r ↦ rw (e, q, r) refl
    | inr r ↦
        let (path, len) = shown-add cs segment a in
        let long : leb (length (add_slash (shown cs)) + length segment) 255 ≡ true =
          ground (arith, len, fits) in
        rw (e, q, r)
          (pick_fitting (leb (length (add_slash (shown cs)) + length segment) 255)
            (add_slash (shown cs) ++ segment) (shown (segment ∷ cs)) long path)
  ]
]

-- A segment takes no more room than itself and its slash.
length-body-pop : (cs : List (List ℕ)) → length (body (pop cs)) ≤ length (body cs)
unfolding body
length-body-pop [] = omega arith
length-body-pop (c ∷ cs) = omega (arith, length-append (body cs) (b'/' ∷ c))

pub length-body-push :
    (cs : List (List ℕ)) (segment : List ℕ)
    → length (body (push cs segment)) ≤ length (body cs) + 1 + length segment
unfolding body push
length-body-push cs segment =
    let added : length (body (segment ∷ cs)) ≤ length (body cs) + 1 + length segment =
      omega (arith, length-append (body cs) (b'/' ∷ segment)) in
    ground (arith, added, length-body-pop cs)
