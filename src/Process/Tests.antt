-- ===== src/Process/Tests.antt =====
-- process.c at the state that the boot leaves, with one process created and destroyed.
use luma_osjang.Common.{
  ℕ, ◌≤◌, ◌<◌, ◌≡◌, refl, ◌≢◌, ◌⊎◌, inr, true, false, some, ◌==◌, if◌then◌else◌, arith,
}
use luma_osjang.Paging.{paging_allocate_check}
use luma_osjang.Process.{
  Kernel, LoadRequest, is_active, page_frame_count_needed, create_at, process_create_user_process,
  process_destroy,
}
use luma_osjang.Process.Boot.{empty_slot, boot, boot-IsConsistent}
use luma_osjang.Process.Table.{active_slots, IsConsistent}
use luma_osjang.Process.Create.{IsStarted, create_at-IsConsistent, create_user_process_lem}
use luma_osjang.Process.Destroy.{destroy_lem}

abbrev list_base : ℕ
list_base = 0xc0200000

abbrev shell : LoadRequest
shell = record { buf = 0; name = λ _. b's'; parent_inode = 2; buffer_size = 0x400000 }

-- The shell in slot 0, and a slot 0 whose process has ended.
abbrev started : Kernel
started = create_at list_base boot shell 0

started-IsConsistent : IsConsistent started
started-IsConsistent =
    create_at-IsConsistent list_base boot shell 0 boot-IsConsistent (omega arith) refl

abbrev ended : Kernel
ended = record boot {
  process_list = λ i. if i == 0 then record empty_slot { pid = 1 } else empty_slot;
  total_pid = 1;
}

ended-IsConsistent : IsConsistent ended
unfolding active_slots
ended-IsConsistent = record {
  counted = refl;
  named = λ i hi e. absurd (ground arith);
  issued = λ i hi. ground arith;
  distinct = λ i j hi hj e ne. ground arith;
  current = λ c e. absurd (ground arith);
}

no_slot_taken : active_slots 16 (is_active boot) < 16
unfolding active_slots
no_slot_taken = omega arith

create_user_process_lem_example :
    let r = process_create_user_process list_base boot shell in
    let needed = page_frame_count_needed shell in
    ((16 ≤ active_slots 16 (is_active boot)) × (r ≡ some (1, boot)))
    ⊎ ((active_slots 16 (is_active boot) < 16) × (0xc0000000 ≤ shell.buf) × (r ≡ some (2, boot)))
    ⊎ ((active_slots 16 (is_active boot) < 16)
        × (shell.buf < 0xc0000000)
        × ((paging_allocate_check boot.paging needed ≡ false) ⊎ (8 < needed))
        × (r ≡ some (3, boot)))
    ⊎ ((active_slots 16 (is_active boot) < 16)
        × (shell.buf < 0xc0000000)
        × (paging_allocate_check boot.paging needed ≡ true)
        × (needed ≤ 8)
        × ((i : ℕ) × (i < 16)
            × (is_active boot i ≡ false)
            × (s' : Kernel) × (r ≡ some (0, s'))
            × IsStarted list_base boot shell i s'
            × IsConsistent s'))
create_user_process_lem_example =
    create_user_process_lem list_base boot shell boot-IsConsistent (inr refl)

destroy_lem_example :
    let (done, s') = process_destroy list_base started 1 in
    (((i : ℕ) → i < 16 → (started.process_list i).pid ≢ 1) × (done ≡ false) × (s' ≡ started))
    ⊎ ((i : ℕ) × (i < 16)
        × ((started.process_list i).pid ≡ 1)
        × (done ≡ true)
        × (is_active s' i ≡ false)
        × ((j : ℕ) → i ≢ j → is_active s' j ≡ is_active started j)
        × (is_active started i ≡ true → IsConsistent s'))
destroy_lem_example = destroy_lem list_base started 1 started-IsConsistent (λ e. omega (arith, e))
