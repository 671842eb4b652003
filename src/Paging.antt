-- ===== src/Paging.antt =====
-- paging.c: the frame allocator and the page directories. A page directory is found by its
-- virtual address; `list_base` is the address that the linker gives to `page_directory_list`.
-- The instructions `invlpg` and `mov cr3` are kept as a log and as the register's value.
pub mod Directories
pub mod Frames
pub mod Owners
pub mod Invariant
pub mod Release
pub mod Lifecycle
pub mod Calls
pub mod Boot
mod Tests
use luma_osjang.Common.{
  ℕ, zero, suc, ◌+◌, ◌-◌, ◌*◌, ◌/◌, ◌%◌, ◌^◌, Bool, true, false, not, ◌&&◌, ◌||◌, List, [], ◌∷◌,
  ltb, leb, ◌==◌, if◌then◌else◌, update, bit_or,
}

-- PAGE_FRAME_SIZE, PAGE_FRAME_MAX_COUNT, PAGING_DIRECTORY_TABLE_MAX_COUNT, PAGE_ENTRY_COUNT, and
-- the first index of the kernel's half.
abbrev pub page_frame_size : ℕ
page_frame_size = 4194304

abbrev pub page_frame_max_count : ℕ
page_frame_max_count = 32

abbrev pub paging_directory_table_max_count : ℕ
paging_directory_table_max_count = 32

abbrev pub page_entry_count : ℕ
page_entry_count = 1024

abbrev pub kernel_page_index : ℕ
kernel_page_index = 768

abbrev pub kernel_virtual_address_base : ℕ
kernel_virtual_address_base = 0xc0000000

-- `struct PageDirectoryEntryFlag`
pub record PageDirectoryEntryFlag : Type 0 where
  pub present_bit : Bool
  pub write_bit : Bool
  pub user_bit : Bool
  pub write_through_bit : Bool
  pub cache_disable_bit : Bool
  pub accessed_bit : Bool
  pub dirty_bit : Bool
  pub use_pagesize_4_mb : Bool

-- `struct PageDirectoryEntry`; `higher_address` has 8 bits, `lower_address` 10.
pub record PageDirectoryEntry : Type 0 where
  pub flag : PageDirectoryEntryFlag
  pub global_page : ℕ
  pub reserved_1 : ℕ
  pub pat : ℕ
  pub higher_address : ℕ
  pub reserved_2 : ℕ
  pub lower_address : ℕ

-- `struct PageDirectory`, by the entry's index.
abbrev pub PageDirectory : Type 0
PageDirectory = ℕ → PageDirectoryEntry

-- `struct PageManagerState`, the directories by address, `page_directory_used`, the flushed
-- addresses (the latest first) and the control registers.
pub record Paging : Type 0 where
  pub page_frame_map : ℕ → Bool
  pub free_page_frame_count : ℕ
  pub directory : ℕ → PageDirectory
  pub page_directory_used : ℕ → Bool
  pub flushed : List ℕ
  pub cr0 : ℕ
  pub cr3 : ℕ
  pub cr4 : ℕ

abbrev pub zero_flag : PageDirectoryEntryFlag
zero_flag = record {
  present_bit = false;
  write_bit = false;
  user_bit = false;
  write_through_bit = false;
  cache_disable_bit = false;
  accessed_bit = false;
  dirty_bit = false;
  use_pagesize_4_mb = false;
}

-- `(struct PageDirectoryEntry){0}`
abbrev pub zero_entry : PageDirectoryEntry
zero_entry = record {
  flag = zero_flag;
  global_page = 0;
  reserved_1 = 0;
  pat = 0;
  higher_address = 0;
  reserved_2 = 0;
  lower_address = 0;
}

abbrev pub kernel_flag : PageDirectoryEntryFlag
kernel_flag = record zero_flag { present_bit = true; write_bit = true; use_pagesize_4_mb = true }

abbrev pub user_flag : PageDirectoryEntryFlag
user_flag = record kernel_flag { user_bit = true }

-- `_paging_kernel_page_directory`
unfoldable pub paging_kernel_page_directory : PageDirectory
paging_kernel_page_directory i =
    if (i == 0) || (i == 0x300) then record zero_entry { flag = kernel_flag } else zero_entry

-- `((uint32_t)virtual_addr >> 22) & 0x3FF`
abbrev pub page_index : ℕ → ℕ
page_index virtual_addr = (virtual_addr / 2 ^ 22) % 2 ^ 10

-- The frame number that `lower_address | (higher_address << 10)` puts together.
abbrev pub frame_index : PageDirectoryEntry → ℕ
frame_index e = bit_or e.lower_address (e.higher_address * 2 ^ 10)

-- `page_dir->table[i] = e`
abbrev pub write_entry : Paging → ℕ → ℕ → PageDirectoryEntry → Paging
write_entry s page_dir i e = record s {
  directory = update s.directory page_dir (update (s.directory page_dir) i e);
}

unfoldable pub flush_single_tlb : Paging → ℕ → Paging
flush_single_tlb s virtual_addr = record s { flushed = virtual_addr ∷ s.flushed }

unfoldable pub update_page_directory_entry : Paging → ℕ → ℕ → ℕ → PageDirectoryEntryFlag → Paging
unfolding flush_single_tlb
update_page_directory_entry s page_dir physical_addr virtual_addr flag =
    flush_single_tlb
      (write_entry s page_dir (page_index virtual_addr) (record {
        flag = flag;
        global_page = 0;
        reserved_1 = 0;
        pat = 0;
        higher_address = 0;
        reserved_2 = 0;
        lower_address = (physical_addr / 2 ^ 22) % 2 ^ 10;
      }))
      virtual_addr

-- `amount + PAGE_FRAME_SIZE - 1` wraps in 32 bits.
unfoldable pub paging_allocate_check : Paging → ℕ → Bool
paging_allocate_check s amount =
    leb ((amount + page_frame_size - 1) % 2 ^ 32 / page_frame_size) s.free_page_frame_count

-- `for (i = 1; i < PAGE_FRAME_MAX_COUNT; i++) if (!map[i]) break;` with `n` rounds left.
unfoldable pub find_frame : (ℕ → Bool) → ℕ → ℕ → ℕ
find_frame used zero i = i
find_frame used (suc n) i = let rest = find_frame used n (i + 1) in if used i then rest else i

-- The entry that an allocation writes.
abbrev pub user_entry : ℕ → PageDirectoryEntry
user_entry frame = record {
  flag = user_flag;
  global_page = 0;
  reserved_1 = 0;
  pat = 0;
  higher_address = frame / 2 ^ 10 % 2 ^ 10 % 2 ^ 8;
  reserved_2 = 0;
  lower_address = frame % 2 ^ 10;
}

-- What an allocation does once the frame is chosen.
abbrev pub take_frame : Paging → ℕ → ℕ → ℕ → Paging
take_frame s page_dir virtual_addr frame = record s {
  page_frame_map = update s.page_frame_map frame true;
  free_page_frame_count = s.free_page_frame_count - 1;
  directory =
      update s.directory page_dir
        (update (s.directory page_dir) (page_index virtual_addr) (user_entry frame));
  flushed = virtual_addr ∷ s.flushed;
}

-- The counter is not 0 after the check, so `free_page_frame_count--` does not wrap.
unfoldable pub paging_allocate_user_page_frame : Paging → ℕ → ℕ → Bool × Paging
paging_allocate_user_page_frame s page_dir virtual_addr =
    if not (paging_allocate_check s 1)
    then (false, s)
    else if leb kernel_page_index (page_index virtual_addr)
    then (false, s)
    else if (s.directory page_dir (page_index virtual_addr)).flag.present_bit
    then (false, s)
    else (let frame = find_frame s.page_frame_map 31 1 in
        if leb page_frame_max_count frame
        then (false, s)
        else (true, take_frame s page_dir virtual_addr frame))

-- The entry that a release leaves: three flag bits and the address are cleared.
abbrev pub cleared_entry : PageDirectoryEntry → PageDirectoryEntry
cleared_entry e = record e {
  flag = record (e.flag) { present_bit = false; write_bit = false; user_bit = false };
  higher_address = 0;
  lower_address = 0;
}

unfoldable pub paging_free_user_page_frame : Paging → ℕ → ℕ → Bool × Paging
paging_free_user_page_frame s page_dir virtual_addr =
    let i = page_index virtual_addr in
    let e = s.directory page_dir i in
    let frame = frame_index e in
    if page_dir == 0
    then (false, s)
    else if leb kernel_page_index i
    then (false, s)
    else if not e.flag.present_bit
    then (false, s)
    else if leb page_frame_max_count frame || (frame == 0)
    then (false, s)
    else (
      true,
      record s {
        page_frame_map = update s.page_frame_map frame false;
        free_page_frame_count = (s.free_page_frame_count + 1) % 2 ^ 32;
        directory = update s.directory page_dir (update (s.directory page_dir) i (cleared_entry e));
        flushed = virtual_addr ∷ s.flushed;
      },
    )

-- `static uint32_t get_physical_address`
unfoldable pub get_physical_address : ℕ → ℕ
get_physical_address virtual_addr =
    if leb kernel_virtual_address_base virtual_addr
    then virtual_addr - kernel_virtual_address_base
    else virtual_addr

-- Reading CR3 and writing it back; that every address is flushed is not in the log.
unfoldable pub flush_tlb_all : Paging → Paging
flush_tlb_all s = record s { cr3 = s.cr3 }

unfoldable pub paging_activate : Paging → ℕ → Paging
unfolding get_physical_address flush_tlb_all
paging_activate s page_dir =
    if page_dir == 0
    then s
    else if not (get_physical_address page_dir % 2 ^ 12 == 0)
    then s
    else flush_tlb_all (record s {
      cr3 = get_physical_address page_dir;
      cr4 = bit_or s.cr4 0x10;
      cr0 = bit_or s.cr0 0x80000000;
    })

unfoldable pub paging_get_free_frame_count : Paging → ℕ
paging_get_free_frame_count s = s.free_page_frame_count

unfoldable pub paging_is_page_allocated : Paging → ℕ → ℕ → Bool
paging_is_page_allocated s page_dir virtual_addr =
    if (page_dir == 0) || (virtual_addr == 0)
    then false
    else (s.directory page_dir (page_index virtual_addr)).flag.present_bit

unfoldable pub paging_map_user_page : Paging → ℕ → ℕ → ℕ → Bool × Paging
unfolding update_page_directory_entry
paging_map_user_page s page_dir virtual_addr physical_addr =
    if page_dir == 0
    then (false, s)
    else if leb kernel_page_index (page_index virtual_addr)
    then (false, s)
    else if not (physical_addr % 2 ^ 22 == 0)
    then (false, s)
    else (true, update_page_directory_entry s page_dir physical_addr virtual_addr user_flag)

unfoldable pub paging_get_current_page_directory_addr : Paging → ℕ
paging_get_current_page_directory_addr s = (s.cr3 + kernel_virtual_address_base) % 2 ^ 32

unfoldable pub paging_use_page_directory : Paging → ℕ → Paging
paging_use_page_directory s page_dir = record s {
  cr3 =
      if ltb kernel_virtual_address_base page_dir
      then page_dir - kernel_virtual_address_base
      else page_dir;
}
