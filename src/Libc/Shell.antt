-- ===== src/Libc/Shell.antt =====
-- src/stdlib/string.c, by the index where its loops count one.
use luma_osjang.Common.{
  ℕ, zero, suc, ◌+◌, ◌%◌, not, ◌&&◌, Option, none, some, ltb, ◌==◌, if◌then◌else◌, update,
}
use luma_osjang.Common.Bytes.{Bytes}
use luma_osjang.Common.Int.{ℤ, pos, negsuc}
use luma_osjang.Libc.{difference}

-- The loops over an index have rounds left, from `i` on.
unfoldable pub set_from : Bytes → ℕ → ℕ → ℕ → ℕ → Bytes
set_from m s c zero i = m
set_from m s c (suc n) i = set_from (update m (s + i) (c % 256)) s c n (i + 1)

unfoldable pub memset : Bytes → ℕ → ℕ → ℕ → Bytes
unfolding set_from
memset m s c n = set_from m s c n 0

unfoldable pub copy_from : Bytes → ℕ → ℕ → ℕ → ℕ → Bytes
copy_from m dest src zero i = m
copy_from m dest src (suc n) i = copy_from (update m (dest + i) (m (src + i))) dest src n (i + 1)

unfoldable pub memcpy : Bytes → ℕ → ℕ → ℕ → Bytes
unfolding copy_from
memcpy m dest src n = copy_from m dest src n 0

unfoldable pub compare_from : Bytes → ℕ → ℕ → ℕ → ℕ → ℤ
compare_from m s1 s2 zero i = pos 0
compare_from m s1 s2 (suc n) i =
    let rest = compare_from m s1 s2 n (i + 1) in
    if ltb (m (s1 + i)) (m (s2 + i))
    then negsuc 0
    else if ltb (m (s2 + i)) (m (s1 + i))
    then pos 1
    else rest

unfoldable pub memcmp : Bytes → ℕ → ℕ → ℕ → ℤ
unfolding compare_from
memcmp m s1 s2 n = compare_from m s1 s2 n 0

-- `for (size_t i = n; i != 0; i--)`
unfoldable pub copy_back : Bytes → ℕ → ℕ → ℕ → Bytes
copy_back m dest src zero = m
copy_back m dest src (suc i) = copy_back (update m (dest + i) (m (src + i))) dest src i

unfoldable pub memmove : Bytes → ℕ → ℕ → ℕ → Bytes
unfolding copy_from copy_back
memmove m dest src n = if ltb dest src then copy_from m dest src n 0 else copy_back m dest src n

unfoldable pub strlen_from : Bytes → ℕ → ℕ → ℕ → Option ℕ
strlen_from m str zero len = none
strlen_from m str (suc n) len =
    let rest = strlen_from m str n (len + 1) in if not (m (str + len) == 0) then rest else some len

unfoldable pub strlen : ℕ → Bytes → ℕ → Option ℕ
unfolding strlen_from
strlen fuel m str = strlen_from m str fuel 0

unfoldable pub strcmp : ℕ → Bytes → ℕ → ℕ → Option ℤ
strcmp zero m s1 s2 = none
strcmp (suc n) m s1 s2 =
    let rest = strcmp n m (s1 + 1) (s2 + 1) in
    if not (m s1 == 0) && (m s1 == m s2) then rest else some (difference (m s1) (m s2))

unfoldable pub strncmp : Bytes → ℕ → ℕ → ℕ → ℤ
strncmp m s1 s2 zero = pos 0
strncmp m s1 s2 (suc n) =
    let rest = strncmp m (s1 + 1) (s2 + 1) n in
    if not (m s1 == 0) && (m s1 == m s2) then rest else difference (m s1) (m s2)

unfoldable pub strcpy : ℕ → Bytes → ℕ → ℕ → Option Bytes
strcpy zero m dest src = none
strcpy (suc n) m dest src =
    let m1 = update m dest (m src) in
    let rest = strcpy n m1 (dest + 1) (src + 1) in if not (m src == 0) then rest else some m1

-- The walk to the end of `dest`, with the rounds for the copy that follows it.
unfoldable pub strcat_from : ℕ → ℕ → Bytes → ℕ → ℕ → Option Bytes
unfolding strcpy
strcat_from zero fuel m dest src = none
strcat_from (suc n) fuel m dest src =
    let rest = strcat_from n fuel m (dest + 1) src in
    if not (m dest == 0) then rest else strcpy fuel m dest src

unfoldable pub strcat : ℕ → Bytes → ℕ → ℕ → Option Bytes
unfolding strcat_from
strcat fuel m dest src = strcat_from fuel fuel m dest src

unfoldable pub sprintf_from : ℕ → Bytes → ℕ → ℕ → ℕ → Option (ℕ × Bytes)
sprintf_from zero m dst src written = none
sprintf_from (suc n) m dst src written =
    let rest = sprintf_from n (update m dst (m src)) (dst + 1) (src + 1) (written + 1) in
    if not (m src == 0) then rest else some (written, update m dst 0)

unfoldable pub sprintf : ℕ → Bytes → ℕ → ℕ → Option (ℕ × Bytes)
unfolding sprintf_from
sprintf fuel m str format = sprintf_from fuel m str format 0

unfoldable pub pad : Bytes → ℕ → ℕ → ℕ → Bytes
pad m dest zero i = m
pad m dest (suc n) i = pad (update m (dest + i) 0) dest n (i + 1)

unfoldable pub strncpy_from : Bytes → ℕ → ℕ → ℕ → ℕ → Bytes
unfolding pad
strncpy_from m dest src zero i = m
strncpy_from m dest src (suc n) i =
    let rest = strncpy_from (update m (dest + i) (m (src + i))) dest src n (i + 1) in
    if not (m (src + i) == 0) then rest else pad m dest (suc n) i

unfoldable pub strncpy : Bytes → ℕ → ℕ → ℕ → Bytes
unfolding strncpy_from
strncpy m dest src n = strncpy_from m dest src n 0
