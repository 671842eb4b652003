-- ===== src/Scheduler.antt =====
-- scheduler.c: saving a context and the switch to the next process. The timer's registers are
-- set up elsewhere.
pub mod RoundRobin
pub mod Fairness
mod Tests
use luma_osjang.Common.{
  ℕ, zero, suc, ◌+◌, ◌%◌, Bool, true, false, not, Option, none, some, List, ◌∷◌, if◌then◌else◌,
  update,
}
use luma_osjang.Process.{
  Kernel, ProcessControlBlock, Context, Search, found, endless, is_active, process_count_max, ready,
  running, switch_to, stray_write,
}
use luma_osjang.Paging.{paging_use_page_directory}

-- `while (!_process_list[idx].metadata.active) idx = (idx + 1) % PROCESS_COUNT_MAX;`, with rounds
-- left. After 16 rounds every index has been tried, so the loop has no end.
unfoldable pub search_active : (ℕ → Bool) → ℕ → ℕ → Search
search_active active zero idx = endless
search_active active (suc n) idx =
    let rest = search_active active n ((idx + 1) % process_count_max) in
    if active idx then found idx else rest

-- Where the search starts: at 0 for `cur_idx` = -1.
unfoldable pub start_index : Option ℕ → ℕ
start_index none = 0
start_index (some c) = (c + 1) % process_count_max

-- `_process_list[cur_idx].metadata.cur_state = READY`
unfoldable pub preempt : Kernel → Kernel
preempt s = elim (s.cur_idx) [
  | none ↦ record s { events = stray_write ready ∷ s.events }
  | some c ↦ record s {
    process_list = update s.process_list c (record (s.process_list c) { cur_state = ready });
  }
]

-- The rest of the switch, to the process at `idx`.
unfoldable pub dispatch : Kernel → ℕ → Kernel
dispatch s idx =
    let ctx = (s.process_list idx).context in
    record s {
      paging = paging_use_page_directory s.paging ctx.page_directory_virtual_addr;
      cur_idx = some idx;
      process_list =
          update s.process_list idx (record (s.process_list idx) { cur_state = running });
      events = switch_to ctx ∷ s.events;
    }

-- `none` where no process is active, so that the loop has no end.
unfoldable pub scheduler_switch_to_next_process : Kernel → Option Kernel
unfolding preempt dispatch start_index
scheduler_switch_to_next_process s =
    elim (search_active (is_active s) process_count_max (start_index s.cur_idx)) [
      | found idx ↦ some (dispatch (preempt s) idx)
      | _ ↦ none
    ]

-- The context's directory is not saved.
unfoldable pub scheduler_save_context_to_current_running_pcb : Kernel → Context → Option Kernel
scheduler_save_context_to_current_running_pcb s ctx = elim (s.cur_idx) [
  | none ↦ none
  | some c ↦
      let pcb = s.process_list c in
      some (record s {
        process_list = update s.process_list c (record pcb {
          context = record (pcb.context) { cpu = ctx.cpu; eflags = ctx.eflags; eip = ctx.eip };
        });
      })
]
