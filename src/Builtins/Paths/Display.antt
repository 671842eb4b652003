-- ===== src/Builtins/Paths/Display.antt =====
-- builtin_commands.c: the loop over a path, and what it shows.
use luma_osjang.Common.{
  ℕ, zero, suc, true, ◌+◌, leb, some, ◌≤◌, ◌<◌, ◌≡◌, refl, ◌∙◌, sym, ap, Bool, false, List, [], ◌∷◌,
  ◌==◌, if◌then◌else◌, length, arith, Bool-cases, inl, inr,
}
use luma_osjang.Builtins.{codes, same_string, is_empty}
use luma_osjang.Builtins.Paths.{segment_of, and_then, normalize, full_path, resolve_path_display}
use luma_osjang.Builtins.Paths.Components.{
  pop, push, push_all, body, body_pos, shown, pieces, NoSlash, AreComponents, add_segment-push,
  length-body-push,
}

-- The characters that a text can still add to a path: those it has, and a slash in front of a first
-- segment without one.
room : List ℕ → ℕ
room [] = 0
room (c ∷ cs) = if c == b'/' then length cs + 1 else length cs + 2

-- The first segment of a text is its first piece, and the other pieces are those of the rest, which
-- is no longer.
record IsSplit (cs : List ℕ) : Type 0 where
  pub others : List (List ℕ)
  pub first : pieces cs ≡ (segment_of cs).0 ∷ others
  pub rest : (st : List (List ℕ)) → push_all st others ≡ push_all st (pieces (segment_of cs).1)
  pub slashless : NoSlash (segment_of cs).0
  pub sized : length (segment_of cs).0 + room (segment_of cs).1 ≤ length cs
  pub shorter : length (segment_of cs).1 ≤ length cs

segment_of-IsSplit : (cs : List ℕ) → IsSplit cs
unfolding segment_of pieces push_all push room
segment_of-IsSplit [] = record {
  others = [];
  first = refl;
  rest = λ st. refl;
  slashless = refl;
  sized = omega arith;
  shorter = omega arith;
}
segment_of-IsSplit (c ∷ cs) = elim (Bool-cases (c == b'/')) [
  | inl q ↦ record {
    others = pieces cs;
    first = rw q refl;
    rest = λ st. rw (q, pieces, q) refl;
    slashless = rw q refl;
    sized = rw (q, room, q) (omega arith);
    shorter = rw q (omega arith);
  }
  | inr q ↦
      let i = segment_of-IsSplit cs in
      record {
        others = i.others;
        first = rw (q, i.first) refl;
        rest = λ st. rw q (i.rest st);
        slashless = rw q (q, i.slashless);
        sized = rw q (omega (arith, i.sized));
        shorter = rw q (omega (arith, i.shorter));
      }
]

pop-AreComponents : (cs : List (List ℕ)) → AreComponents cs → AreComponents (pop cs)
pop-AreComponents [] a = refl
pop-AreComponents (c ∷ cs) a = a.2

push-AreComponents :
    (cs : List (List ℕ)) (segment : List ℕ)
    → AreComponents cs
    → NoSlash segment
    → AreComponents (push cs segment)
unfolding push
push-AreComponents cs [] a n = a
push-AreComponents cs (x ∷ xs) a n = elim (Bool-cases (same_string (x ∷ xs) (codes ".."))) [
  | inl q ↦ rw q (pop-AreComponents cs a)
  | inr q ↦ elim (Bool-cases (same_string (x ∷ xs) (codes "."))) [
    | inl r ↦ rw (q, r) a
    | inr r ↦ rw (q, r) (omega arith, n, a)
  ]
]

-- The loop carries out the pieces of what is left of the path.
push_nothing : (cs ps : List (List ℕ)) → push_all cs ([] ∷ ps) ≡ push_all cs ps
unfolding push_all push
push_nothing cs ps = refl

push_end : (cs : List (List ℕ)) → push_all cs ([] ∷ []) ≡ cs
unfolding push_all push
push_end cs = refl

push_first :
    (cs : List (List ℕ)) (p : List ℕ) (ps : List (List ℕ))
    → push_all cs (p ∷ ps) ≡ push_all (push cs p) ps
unfolding push_all
push_first cs p ps = refl

room-le : (text : List ℕ) → room text ≤ length text + 1
unfolding room
room-le [] = omega arith
room-le (c ∷ cs) = ground arith

normalize-shown :
    (n : ℕ) (text : List ℕ) (cs : List (List ℕ))
    → AreComponents cs
    → length text ≤ n
    → length (body cs) + room text ≤ 255
    → normalize n text (shown cs) ≡ some (shown (push_all cs (pieces text)))
unfolding normalize pieces room
normalize-shown zero [] cs a h fits = ap (λ st. some (shown st)) (sym (push_end cs))
normalize-shown zero (c ∷ text) cs a h fits = absurd (omega (arith, h))
normalize-shown (suc n) [] cs a h fits = ap (λ st. some (shown st)) (sym (push_end cs))
normalize-shown (suc n) (c ∷ text) cs a h fits =
    let i = segment_of-IsSplit text in
    let segment = c ∷ (segment_of text).0 in
    let rest = (segment_of text).1 in
    let pushed = push cs segment in
    elim (Bool-cases (c == b'/')) [
      | inl q ↦ rw q (
          normalize-shown n text cs a (omega (arith, h)) (omega (arith, room-le text, rw q at fits))
          ∙ ap (λ st. some (shown st)) (sym (push_nothing cs (pieces text))))
      | inr q ↦
          let long : length (body cs) + (length text + 2) ≤ 255 = rw q at fits in
          rw (q, i.first)
            (ap (λ path. and_then path (λ p. normalize n rest p))
                (add_segment-push cs segment a refl (omega (arith, i.sized, long)))
              ∙ (normalize-shown n rest pushed (push-AreComponents cs segment a (q, i.slashless))
                    (omega (arith, h, i.shorter))
                    (omega (arith, length-body-push cs segment, i.sized, long))
                  ∙ ap (λ st. some (shown st))
                      (sym (push_first cs segment i.others ∙ i.rest pushed))))
    ]

long_not_empty : (xs : List ℕ) → 0 < length xs → is_empty xs ≡ false
long_not_empty [] h = absurd (omega (arith, h))
long_not_empty (x ∷ xs) h = refl

pick_shown : (b : Bool) (path : List ℕ) → b ≡ false → (if b then codes "/" else path) ≡ path
pick_shown b path h = rw h refl

root_shown :
    (text : List ℕ)
    → length text ≤ 254
    → normalize (length text) text (codes "/") ≡ some (shown (push_all [] (pieces text)))
unfolding shown body
root_shown text h =
    normalize-shown (length text) text [] refl (omega arith) (omega (arith, room-le text, h))

is_empty-shown : (cs : List (List ℕ)) → is_empty (shown cs) ≡ false
unfolding shown
is_empty-shown [] = refl
is_empty-shown (c ∷ cs) = long_not_empty (body (c ∷ cs)) (body_pos c cs)

-- The path that is shown is that of a stack of components: the pieces between the slashes of the
-- full path, in order, where ".." takes the last one away (at the root there is none), and "." and an
-- empty piece change nothing; each component stands behind one slash, and the root is "/". The full
-- path has at most 254 characters; no array of 256 is outgrown then.
pub resolve_path_display_lem :
    (cwd path : List ℕ)
    → length (full_path cwd path) ≤ 254
    → resolve_path_display cwd path ≡ some (shown (push_all [] (pieces (full_path cwd path))))
unfolding resolve_path_display
resolve_path_display_lem cwd path h =
    let text = full_path cwd path in
    let cs = push_all [] (pieces text) in
    let e : normalize (length text) text (codes "/") ≡ some (shown cs) = root_shown text h in
    let long : leb (length text) 255 ≡ true = ground (arith, h) in
    rw (long, e) (ap some (pick_shown (is_empty (shown cs)) (shown cs) (is_empty-shown cs)))
