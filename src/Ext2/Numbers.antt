-- ===== src/Ext2/Numbers.antt =====
-- ext2.c: rounding up, and where an inode number belongs.
use luma_osjang.Common.{ℕ, ◌+◌, ◌-◌, ◌*◌, ◌/◌, ◌%◌, ◌^◌, ◌≤◌, ◌<◌, ◌≡◌, ◌==◌, if◌then◌else◌, arith}

abbrev pub inodes_per_group : ℕ
inodes_per_group = 32

unfoldable pub ceil_div : ℕ → ℕ → ℕ
ceil_div a b = if b == 0 then 0 else if a % b == 0 then a / b else a / b + 1

-- `inode - 1` wraps at 0.
unfoldable pub inode_to_bgd : ℕ → ℕ
inode_to_bgd inode = (inode + 2 ^ 32 - 1) % 2 ^ 32 / inodes_per_group

unfoldable pub inode_to_local : ℕ → ℕ
inode_to_local inode = (inode + 2 ^ 32 - 1) % 2 ^ 32 % inodes_per_group

-- For a divisor above 0, the quotient rounded up is the least number of `b`s that cover `a`.
pub ceil_div_lem : (a b : ℕ) → 0 < b → (a ≤ ceil_div a b * b) × (ceil_div a b * b < a + b)
unfolding ceil_div
ceil_div_lem a b h = grind arith

-- An inode number of 32 bits, from 1 on, is its group times 32, plus its place in the group, plus
-- 1, and the place is below 32.
pub inode_to_local_lem :
    (inode : ℕ)
    → 1 ≤ inode
    → inode < 2 ^ 32
    → (inode_to_bgd inode * 32 + inode_to_local inode + 1 ≡ inode) × (inode_to_local inode < 32)
unfolding inode_to_bgd inode_to_local
inode_to_local_lem inode a b = omega arith

pub first_group :
    (inode : ℕ)
    → 1 ≤ inode
    → inode ≤ 32
    → (inode_to_bgd inode ≡ 0) × (inode_to_local inode ≡ inode - 1)
unfolding inode_to_bgd inode_to_local
first_group inode a b = omega arith
