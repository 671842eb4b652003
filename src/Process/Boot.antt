-- ===== src/Process/Boot.antt =====
-- process.c: the state that the static initialisers give.
use luma_osjang.Common.{refl, false, none, [], arith}
use luma_osjang.Common.Int.{pos}
use luma_osjang.Process.{Kernel, ProcessControlBlock, ready}
use luma_osjang.Process.Table.{active_slots, IsConsistent}
use luma_osjang.Paging.Boot.{boot_paging}

-- An element of `_process_list`, which is zeroed.
abbrev pub empty_slot : ProcessControlBlock
empty_slot = record {
  pid = 0;
  cur_state = ready;
  active = false;
  name = λ _. 0;
  context = record {
    cpu = record {
      edi = 0;
      esi = 0;
      ebp = 0;
      esp = 0;
      ebx = 0;
      edx = 0;
      ecx = 0;
      eax = 0;
      gs = 0;
      fs = 0;
      es = 0;
      ds = 0;
    };
    eip = 0;
    eflags = 0;
    page_directory_virtual_addr = 0;
  };
  virtual_addr_used = λ _. 0;
  page_frame_used_count = 0;
}

-- `_process_list` and `process_manager_state` as they are initialised.
abbrev pub boot : Kernel
boot = record {
  process_list = λ _. empty_slot;
  active_process_count = pos 0;
  cur_idx = none;
  total_pid = 0;
  paging = boot_paging;
  events = [];
}

pub boot-IsConsistent : IsConsistent boot
unfolding active_slots
boot-IsConsistent = record {
  counted = refl;
  named = λ i hi e. absurd (ground arith);
  issued = λ i hi. omega arith;
  distinct = λ i j hi hj e ne. absurd (ne refl);
  current = λ c e. absurd (ground arith);
}
