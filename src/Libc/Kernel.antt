-- ===== src/Libc/Kernel.antt =====
-- src/string.c, by the pointers as the loops move them.
use luma_osjang.Common.{
  ℕ, zero, suc, ◌+◌, ◌-◌, ◌%◌, not, ◌&&◌, Option, none, some, ltb, ◌==◌, if◌then◌else◌, update,
}
use luma_osjang.Common.Bytes.{Bytes}
use luma_osjang.Common.Int.{ℤ, pos}
use luma_osjang.Libc.{difference}

unfoldable pub memset : Bytes → ℕ → ℕ → ℕ → Bytes
memset m s c zero = m
memset m s c (suc n) = memset (update m s (c % 256)) (s + 1) c n

unfoldable pub memcpy : Bytes → ℕ → ℕ → ℕ → Bytes
memcpy m dest src zero = m
memcpy m dest src (suc n) = memcpy (update m dest (m src)) (dest + 1) (src + 1) n

unfoldable pub memcmp : Bytes → ℕ → ℕ → ℕ → ℤ
memcmp m p1 p2 zero = pos 0
memcmp m p1 p2 (suc n) =
    let rest = memcmp m (p1 + 1) (p2 + 1) n in
    if not (m p1 == m p2) then difference (m p1) (m p2) else rest

-- `while (n--) *(--d) = *(--s);`
unfoldable pub copy_down : Bytes → ℕ → ℕ → ℕ → Bytes
copy_down m d s zero = m
copy_down m d s (suc n) = copy_down (update m (d - 1) (m (s - 1))) (d - 1) (s - 1) n

-- The loop that goes up is that of `memcpy`.
unfoldable pub memmove : Bytes → ℕ → ℕ → ℕ → Bytes
unfolding memcpy copy_down
memmove m dest src n =
    if ltb dest src then memcpy m dest src n else copy_down m (dest + n) (src + n) n

-- From `len` on, with rounds left.
unfoldable pub strlen_from : Bytes → ℕ → ℕ → ℕ → Option ℕ
strlen_from m str zero len = none
strlen_from m str (suc n) len =
    let rest = strlen_from m str n (len + 1) in if m (str + len) == 0 then some len else rest

unfoldable pub strlen : ℕ → Bytes → ℕ → Option ℕ
unfolding strlen_from
strlen fuel m str = strlen_from m str fuel 0

unfoldable pub strcpy : ℕ → Bytes → ℕ → ℕ → Option Bytes
strcpy zero m dest src = none
strcpy (suc n) m dest src =
    let rest = strcpy n (update m dest (m src)) (dest + 1) (src + 1) in
    if m src == 0 then some (update m dest (m src)) else rest

unfoldable pub strcmp : ℕ → Bytes → ℕ → ℕ → Option ℤ
strcmp zero m s1 s2 = none
strcmp (suc n) m s1 s2 =
    let rest = strcmp n m (s1 + 1) (s2 + 1) in
    if not (m s1 == 0) && (m s1 == m s2) then rest else some (difference (m s1) (m s2))

-- The loop of `sprintf`, which copies the format: what was written, and the memory.
unfoldable pub sprintf_from : ℕ → Bytes → ℕ → ℕ → ℕ → Option (ℕ × Bytes)
sprintf_from zero m dst src written = none
sprintf_from (suc n) m dst src written =
    let rest = sprintf_from n (update m dst (m src)) (dst + 1) (src + 1) (written + 1) in
    if not (m src == 0) then rest else some (written, update m dst 0)

unfoldable pub sprintf : ℕ → Bytes → ℕ → ℕ → Option (ℕ × Bytes)
unfolding sprintf_from
sprintf fuel m str format = sprintf_from fuel m str format 0

-- The second loop of `strncpy`, with `n - i` rounds left.
unfoldable pub pad : Bytes → ℕ → ℕ → ℕ → Bytes
pad m dest zero i = m
pad m dest (suc n) i = pad (update m (dest + i) 0) dest n (i + 1)

unfoldable pub strncpy_from : Bytes → ℕ → ℕ → ℕ → ℕ → Bytes
unfolding pad
strncpy_from m dest src zero i = m
strncpy_from m dest src (suc n) i =
    let rest = strncpy_from (update m (dest + i) (m (src + i))) dest src n (i + 1) in
    if not (m (src + i) == 0) then rest else pad m dest (suc n) i

unfoldable pub strncpy : Bytes → ℕ → ℕ → ℕ → Bytes
unfolding strncpy_from
strncpy m dest src n = strncpy_from m dest src n 0
