-- ===== src/Common/Bytes.antt =====
-- Little-endian words in a byte array, as the packed structs of the file system lay them out, and
-- `memcpy` and `memset` between such arrays.
use Prim.Native.Nat.{ℕ, zero, suc, ◌+◌, ◌-◌, ◌*◌, ◌/◌, ◌%◌, ◌^◌, ◌<◌}
use mathlib.Core.Path.{◌≡◌}
use mathlib.Core.Bool.{Bool, true, ◌&&◌}
use mathlib.Core.List.{List, [], ◌∷◌}
use native.Mathlib.Omega.{arith}
use luma_osjang.Common.Tests.{leb, ltb, ◌==◌, if◌then◌else◌, update}

abbrev pub Bytes : Type 0
Bytes = ℕ → ℕ

unfoldable pub get16 : Bytes → ℕ → ℕ
get16 a i = a i + a (i + 1) * 256

unfoldable pub get32 : Bytes → ℕ → ℕ
get32 a i = a i + a (i + 1) * 256 + a (i + 2) * 65536 + a (i + 3) * 16777216

-- A store keeps the low 16 or 32 bits.
unfoldable pub put16 : Bytes → ℕ → ℕ → Bytes
put16 a i v j = if j == i then v % 256 else if j == i + 1 then v / 256 % 256 else a j

unfoldable pub put32 : Bytes → ℕ → ℕ → Bytes
put32 a i v j =
    if j == i
    then v % 256
    else if j == i + 1
    then v / 256 % 256
    else if j == i + 2
    then v / 65536 % 256
    else if j == i + 3
    then v / 16777216 % 256
    else a j

-- `memcpy(dst + i, src + k, n)` and `memset(dst + i, c, n)`
unfoldable pub copy_bytes : Bytes → ℕ → Bytes → ℕ → ℕ → Bytes
copy_bytes dst i src k n j = if leb i j && ltb j (i + n) then src (k + (j - i)) else dst j

unfoldable pub fill_bytes : Bytes → ℕ → ℕ → ℕ → Bytes
fill_bytes dst i c n j = if leb i j && ltb j (i + n) then c else dst j

-- A string without its terminator, stored and compared from a position on.
unfoldable pub put_name : Bytes → ℕ → List ℕ → Bytes
put_name a i [] = a
put_name a i (c ∷ cs) = put_name (update a i c) (i + 1) cs

unfoldable pub name_at : Bytes → ℕ → List ℕ → Bool
name_at a i [] = true
name_at a i (c ∷ cs) = (a i == c) && name_at a (i + 1) cs

-- The characters before the terminator, among the first `n` of an array from `i` on.
unfoldable pub c_string : Bytes → ℕ → ℕ → List ℕ
c_string a zero i = []
c_string a (suc n) i = let rest = c_string a n (i + 1) in if a i == 0 then [] else a i ∷ rest

pub get32-put32 : (a : Bytes) (i v : ℕ) → v < 2 ^ 32 → get32 (put32 a i v) i ≡ v
unfolding get32 put32
get32-put32 a i v h = ground arith

pub get16-put16 : (a : Bytes) (i v : ℕ) → v < 2 ^ 16 → get16 (put16 a i v) i ≡ v
unfolding get16 put16
get16-put16 a i v h = ground arith

pub put32_outside :
    (a : Bytes) (i v j : ℕ) → (if ltb j i then true else leb (i + 4) j) ≡ true → put32 a i v j ≡ a j
unfolding put32
put32_outside a i v j h = ground arith

pub put16_outside :
    (a : Bytes) (i v j : ℕ) → (if ltb j i then true else leb (i + 2) j) ≡ true → put16 a i v j ≡ a j
unfolding put16
put16_outside a i v j h = ground arith

abbrev pub apart : ℕ → ℕ → ℕ → ℕ → Bool
apart i n j m = if leb (i + n) j then true else leb (j + m) i

pub get32-put32_apart :
    (a : Bytes) (i v j : ℕ) → apart i 4 j 4 ≡ true → get32 (put32 a i v) j ≡ get32 a j
unfolding get32 put32
get32-put32_apart a i v j h = ground arith

pub get16-put32_apart :
    (a : Bytes) (i v j : ℕ) → apart i 4 j 2 ≡ true → get16 (put32 a i v) j ≡ get16 a j
unfolding get16 put32
get16-put32_apart a i v j h = ground arith

pub get32-put16_apart :
    (a : Bytes) (i v j : ℕ) → apart i 2 j 4 ≡ true → get32 (put16 a i v) j ≡ get32 a j
unfolding get32 put16
get32-put16_apart a i v j h = ground arith

pub get16-put16_apart :
    (a : Bytes) (i v j : ℕ) → apart i 2 j 2 ≡ true → get16 (put16 a i v) j ≡ get16 a j
unfolding get16 put16
get16-put16_apart a i v j h = ground arith

pub get16-ext : (f g : Bytes) (i j : ℕ) → f i ≡ g j → f (i + 1) ≡ g (j + 1) → get16 f i ≡ get16 g j
unfolding get16
get16-ext f g i j a b = ground arith

pub get32-ext :
    (f g : Bytes) (i j : ℕ) → ((d : ℕ) → d < 4 → f (i + d) ≡ g (j + d)) → get32 f i ≡ get32 g j
unfolding get32
get32-ext f g i j h =
    let p : i + 0 ≡ i = omega arith in
    let q : j + 0 ≡ j = omega arith in
    ground (arith, h 0 (omega arith), h 1 (omega arith), h 2 (omega arith), h 3 (omega arith))
