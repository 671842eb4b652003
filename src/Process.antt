-- ===== src/Process.antt =====
-- process.c: the process list, creating and destroying processes.
pub mod Slots
pub mod Table
pub mod Create
pub mod Destroy
pub mod Boot
mod Tests
use luma_osjang.Common.{
  ℕ, zero, suc, ◌+◌, ◌-◌, ◌*◌, ◌/◌, ◌%◌, ◌^◌, Bool, true, false, not, ◌&&◌, ◌||◌, Option, none,
  some, List, [], ◌∷◌, ◌++◌, ltb, leb, ◌==◌, if◌then◌else◌, update, bit_or,
}
use luma_osjang.Common.Int.{ℤ, increment, decrement, equals, at_least}
use luma_osjang.Paging.{
  Paging, paging_allocate_check, paging_allocate_user_page_frame, paging_free_user_page_frame,
  paging_get_current_page_directory_addr, paging_use_page_directory, page_frame_size,
  kernel_virtual_address_base,
}
use luma_osjang.Ext2.Numbers.{ceil_div}
use luma_osjang.Paging.Directories.{paging_create_new_page_directory, paging_free_page_directory}

abbrev pub process_count_max : ℕ
process_count_max = 16

abbrev pub process_page_frame_count_max : ℕ
process_page_frame_count_max = 8

-- `enum PROCESS_STATE`
pub data ProcessStatus : Type 0 where
  ready running blocked : ProcessStatus

-- `struct CPURegister`, group by group
pub record CpuRegister : Type 0 where
  pub edi : ℕ
  pub esi : ℕ
  pub ebp : ℕ
  pub esp : ℕ
  pub ebx : ℕ
  pub edx : ℕ
  pub ecx : ℕ
  pub eax : ℕ
  pub gs : ℕ
  pub fs : ℕ
  pub es : ℕ
  pub ds : ℕ

pub record Context : Type 0 where
  pub cpu : CpuRegister
  pub eip : ℕ
  pub eflags : ℕ
  pub page_directory_virtual_addr : ℕ

pub record ProcessControlBlock : Type 0 where
  pub pid : ℕ
  pub cur_state : ProcessStatus
  pub active : Bool
  pub name : ℕ → ℕ
  pub context : Context
  pub virtual_addr_used : ℕ → ℕ
  pub page_frame_used_count : ℕ

-- The fields of `struct EXT2DriverRequest` that the process manager reads.
pub record LoadRequest : Type 0 where
  pub buf : ℕ
  pub name : ℕ → ℕ
  pub parent_inode : ℕ
  pub buffer_size : ℕ

-- What the process manager does outside its own state, the latest first: a call of `read`, with the
-- directory loaded while it runs; the word that powers QEMU off; the jump into a context; and a
-- write of a state through the index -1, which lies in front of `_process_list`.
pub data Event : Type 0 where
  read_file : LoadRequest → ℕ → Event
  power_off : Event
  switch_to : Context → Event
  stray_write : ProcessStatus → Event

-- `_process_list`, `process_manager_state` and the page manager. `cur_idx` is -1 (none) until the
-- scheduler has run. `total_pid` is an int, whose overflow C leaves undefined: it is taken not to.
pub record Kernel : Type 0 where
  pub process_list : ℕ → ProcessControlBlock
  pub active_process_count : ℤ
  pub cur_idx : Option ℕ
  pub total_pid : ℕ
  pub paging : Paging
  pub events : List Event

-- What a search of the process list can end in: an index, a read in front of the list, or no end.
pub data Search : Type 0 where
  found : ℕ → Search
  out_of_range : Search
  endless : Search

-- `idx--; if (idx == -1) idx = PROCESS_COUNT_MAX - 1;`
unfoldable pub previous_index : ℕ → ℕ
previous_index zero = process_count_max - 1
previous_index (suc i) = i

-- `while (_process_list[idx].metadata.active == true) …`, with rounds left. After 16 rounds every
-- index has been tried, so the loop has no end.
unfoldable pub search_inactive : (ℕ → Bool) → ℕ → ℕ → Search
search_inactive active zero idx = endless
search_inactive active (suc n) idx =
    let rest = search_inactive active n (previous_index idx) in
    if active idx then rest else found idx

abbrev pub is_active : Kernel → ℕ → Bool
is_active s i = (s.process_list i).active

unfoldable pub process_list_get_inactive_index : Kernel → Search
unfolding previous_index
process_list_get_inactive_index s =
    if equals s.active_process_count 0 then found 0 else elim (s.cur_idx) [
      | none ↦ out_of_range
      | some c ↦ search_inactive (is_active s) process_count_max (previous_index c)
    ]

-- `getActivePCB`: the copies that it writes to `ptr`, of which `*count` is the number.
unfoldable pub collect_active : (ℕ → ProcessControlBlock) → ℕ → ℕ → List ProcessControlBlock
collect_active list zero i = []
collect_active list (suc n) i =
    let rest = collect_active list n (i + 1) in if (list i).active then list i ∷ rest else rest

unfoldable pub get_active_pcb : Kernel → List ProcessControlBlock
unfolding collect_active
get_active_pcb s = collect_active s.process_list process_count_max 0

unfoldable pub process_generate_new_pid : Kernel → ℕ × Kernel
process_generate_new_pid s = (s.total_pid + 1, record s { total_pid = s.total_pid + 1 })

-- `paging_free_user_page_frame` for each page of a process, with `n` rounds left at `i`; each
-- address is then forgotten.
unfoldable pub free_pages : ℕ → ℕ → ℕ → (ℕ → ℕ) × Paging → (ℕ → ℕ) × Paging
free_pages page_dir zero i m = m
free_pages page_dir (suc n) i (addrs, p) =
    free_pages page_dir n (i + 1)
      (update addrs i 0, (paging_free_user_page_frame p page_dir (addrs i)).1)

-- `paging_allocate_user_page_frame` for each page of a new process; its answer is not looked at.
unfoldable pub map_pages : LoadRequest → ℕ → ℕ → ℕ → (ℕ → ℕ) × Paging → (ℕ → ℕ) × Paging
map_pages request page_dir zero i m = m
map_pages request page_dir (suc n) i (addrs, p) =
    let addr = (request.buf + i * page_frame_size) % 2 ^ 32 in
    map_pages request page_dir n (i + 1)
      (update addrs i addr, (paging_allocate_user_page_frame p page_dir addr).1)

-- `ceil_div(request.buffer_size + PAGE_FRAME_SIZE, PAGE_FRAME_SIZE)`, whose sum wraps.
abbrev pub page_frame_count_needed : LoadRequest → ℕ
page_frame_count_needed request =
    ceil_div ((request.buffer_size + page_frame_size) % 2 ^ 32) page_frame_size

abbrev pub gdt_user_data_segment_selector : ℕ
gdt_user_data_segment_selector = 0x20

-- CPU_EFLAGS_BASE_FLAG | CPU_EFLAGS_FLAG_INTERRUPT_ENABLE
abbrev pub user_eflags : ℕ
user_eflags = 0x202

-- The registers that a new process starts with; the others keep what the slot held.
abbrev pub start_cpu : CpuRegister → CpuRegister
start_cpu c = record c {
  ds = gdt_user_data_segment_selector;
  es = gdt_user_data_segment_selector;
  fs = gdt_user_data_segment_selector;
  gs = gdt_user_data_segment_selector;
  esp = 0x400000;
}

-- The codes of `process_create_user_process`.
abbrev pub process_create_success : ℕ
process_create_success = 0

abbrev pub process_create_fail_max_process_exceeded : ℕ
process_create_fail_max_process_exceeded = 1

abbrev pub process_create_fail_invalid_entrypoint : ℕ
process_create_fail_invalid_entrypoint = 2

abbrev pub process_create_fail_not_enough_memory : ℕ
process_create_fail_not_enough_memory = 3

-- The first slot with that pid, with `n` rounds left; whether it is active is not looked at.
unfoldable pub find_pid : (ℕ → ProcessControlBlock) → ℕ → ℕ → ℕ → Option ℕ
find_pid list pid zero i = none
find_pid list pid (suc n) i =
    let rest = find_pid list pid n (i + 1) in if (list i).pid == pid then some i else rest

-- `list_base` is the address of `page_directory_list`.
module _ (list_base : ℕ) where
  unfoldable pub release_memory : Kernel → ℕ → Kernel
  release_memory s i =
      let pcb = s.process_list i in
      let page_dir = pcb.context.page_directory_virtual_addr in
      let (addrs, p) =
        free_pages page_dir pcb.page_frame_used_count 0 (pcb.virtual_addr_used, s.paging) in
      let cur_run = paging_get_current_page_directory_addr p in
      let q =
        (paging_free_page_directory list_base (paging_use_page_directory p page_dir) page_dir).1 in
      record s {
        process_list =
            update s.process_list i
              (record pcb { virtual_addr_used = addrs; page_frame_used_count = 0 });
        paging = if cur_run == page_dir then q else paging_use_page_directory q cur_run;
      }

  -- The new process goes to slot `p_index`.
  unfoldable pub create_at : Kernel → LoadRequest → ℕ → Kernel
  create_at s request p_index =
      let old = s.process_list p_index in
      let cur_active = paging_get_current_page_directory_addr s.paging in
      let (page_dir, p) = paging_create_new_page_directory list_base s.paging in
      let needed = page_frame_count_needed request in
      let (addrs, q) =
        map_pages request page_dir needed 0
          (old.virtual_addr_used, paging_use_page_directory p page_dir) in
      let (pid, t) = process_generate_new_pid s in
      record t {
        process_list = update s.process_list p_index (record {
          pid = pid;
          cur_state = ready;
          active = true;
          name = λ i. if ltb i 8 then request.name i else old.name i;
          context = record {
            cpu = start_cpu old.context.cpu;
            eip = request.buf;
            eflags = bit_or old.context.eflags user_eflags;
            page_directory_virtual_addr = page_dir;
          };
          virtual_addr_used = addrs;
          page_frame_used_count = needed;
        });
        active_process_count = increment s.active_process_count;
        paging = paging_use_page_directory q cur_active;
        events = read_file request page_dir ∷ s.events;
      }

  -- `none` where the search for a slot gives no index.
  unfoldable pub process_create_user_process : Kernel → LoadRequest → Option (ℕ × Kernel)
  process_create_user_process s request =
      if at_least s.active_process_count process_count_max
      then some (process_create_fail_max_process_exceeded, s)
      else if leb kernel_virtual_address_base request.buf
      then some (process_create_fail_invalid_entrypoint, s)
      else if not (paging_allocate_check s.paging (page_frame_count_needed request))
          || ltb process_page_frame_count_max (page_frame_count_needed request)
      then some (process_create_fail_not_enough_memory, s)
      else elim (process_list_get_inactive_index s) [
        | found p_index ↦ some (process_create_success, create_at s request p_index)
        | out_of_range ↦ none
        | endless ↦ none
      ]

  -- `release_memory` always returns true. The word that powers QEMU off is sent before the last
  -- process is marked.
  unfoldable pub process_destroy : Kernel → ℕ → Bool × Kernel
  process_destroy s pid = elim (find_pid s.process_list pid process_count_max 0) [
    | none ↦ (false, s)
    | some i ↦
        let r = release_memory s i in
        (
          true,
          record r {
            events = if equals r.active_process_count 1 then power_off ∷ r.events else r.events;
            process_list = update r.process_list i (record (r.process_list i) { active = false });
            active_process_count = decrement r.active_process_count;
          },
        )
  ]

unfoldable pub process_get_current_running_pcb_pointer : Kernel → Option ℕ
process_get_current_running_pcb_pointer s = s.cur_idx
