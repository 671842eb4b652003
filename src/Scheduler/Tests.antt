-- ===== src/Scheduler/Tests.antt =====
-- scheduler.c on a list with the slots 3 and 7 active.
use luma_osjang.Common.{ℕ, ◌≤◌, ◌<◌, ◌≡◌, refl, true, ◌||◌, some, ◌==◌, if◌then◌else◌, arith}
use luma_osjang.Common.Int.{pos}
use luma_osjang.Process.{Kernel, running}
use luma_osjang.Process.Boot.{empty_slot, boot}
use luma_osjang.Scheduler.Fairness.{run_switches, switch_fair}

abbrev two : Kernel
two = record boot {
  process_list = λ i.
      if (i == 3) || (i == 7) then record empty_slot { active = true; pid = i } else empty_slot;
  active_process_count = pos 2;
  cur_idx = some 3;
  total_pid = 7;
}

two-current : (c : ℕ) → two.cur_idx ≡ some c → c < 16
two-current c e = ground arith

boot-current : (c : ℕ) → boot.cur_idx ≡ some c → c < 16
boot-current c e = absurd (ground arith)

switch_fair_example :
    (n : ℕ) × (1 ≤ n)
    × (n ≤ 16)
    × (s' : Kernel) × (run_switches n two ≡ some s')
    × (s'.cur_idx ≡ some 3)
    × ((s'.process_list 3).cur_state ≡ running)
switch_fair_example = switch_fair two 3 two-current (omega arith) refl
