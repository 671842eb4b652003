-- ===== src/Process/Create.antt =====
-- process.c: what creating a process does, on every branch.
use luma_osjang.Common.{
  ℕ, ◌+◌, ◌≤◌, ◌<◌, ◌≡◌, refl, sym, ◌∙◌, ◌≢◌, ◌⊎◌, inl, inr, true, false, not, ◌||◌, some, ltb, leb,
  ◌==◌, if◌then◌else◌, update, arith, Bool-cases,
}
use luma_osjang.Common.Int.{pos, increment, equals, at_least}
use luma_osjang.Process.{
  Kernel, LoadRequest, found, previous_index, is_active, process_list_get_inactive_index,
  process_create_user_process, create_at, page_frame_count_needed, ready,
}
use luma_osjang.Process.{process_generate_new_pid}
use luma_osjang.Paging.{paging_allocate_check}
use luma_osjang.Process.Slots.{search_total, previous-lt}
use luma_osjang.Process.Table.{
  active_slots, active_slots-update, active_slots-ext, active_slots_pos, active_slots_room,
  IsConsistent,
}

-- A slot for the new process: in a consistent state, while the list has room, and the scheduler
-- has run or there is no process yet, the search ends at an inactive index.
pub inactive_index_total :
    (s : Kernel)
    → IsConsistent s
    → active_slots 16 (is_active s) < 16
    → (((c : ℕ) × (s.cur_idx ≡ some c)) ⊎ (s.active_process_count ≡ pos 0))
    → (k : ℕ) × (process_list_get_inactive_index s ≡ found k) × (k < 16) × (is_active s k ≡ false)
unfolding process_list_get_inactive_index
inactive_index_total s v room start = elim (Bool-cases (equals s.active_process_count 0)) [
  | inl e ↦
      let z : active_slots 16 (is_active s) ≡ 0 = ground (arith, v.counted) in
      (0, ground arith, omega arith, none_active s z)
  | inr e ↦ elim start [
    | inl (c, h) ↦
        let (j, hj, q) = active_slots_room 16 (is_active s) room in
        let (k, f, hk, a) =
          search_total (is_active s) (previous_index c) j (previous-lt c (v.current c h)) hj q in
        (k, rw (e, h, process_list_get_inactive_index) f, hk, a)
    | inr z ↦ absurd (ground arith)
  ]
]
  where
    none_active : (s : Kernel) → active_slots 16 (is_active s) ≡ 0 → is_active s 0 ≡ false
    none_active s z = elim (Bool-cases (is_active s 0)) [
      | inl a ↦ absurd (omega (arith, active_slots_pos 16 (is_active s) 0 (omega arith) a))
      | inr a ↦ a
    ]

module _ (list_base : ℕ) where
  pub pid-create_at :
      (s : Kernel) (r : LoadRequest) (i j : ℕ)
      → ((create_at list_base s r i).process_list j).pid
        ≡ (if i == j then s.total_pid + 1 else (s.process_list j).pid)
  unfolding create_at process_generate_new_pid
  pid-create_at s r i j = ground arith

  pub active-create_at :
      (s : Kernel) (r : LoadRequest) (i j : ℕ)
      → is_active (create_at list_base s r i) j ≡ update (is_active s) i true j
  unfolding create_at process_generate_new_pid
  active-create_at s r i j = ground arith

  state-create_at :
      (s : Kernel) (r : LoadRequest) (i : ℕ)
      → ((create_at list_base s r i).active_process_count ≡ increment s.active_process_count)
        × ((create_at list_base s r i).total_pid ≡ s.total_pid + 1)
        × ((create_at list_base s r i).cur_idx ≡ s.cur_idx)
  unfolding create_at process_generate_new_pid
  state-create_at s r i = (refl, refl, refl)

  pub create_at-IsConsistent :
      (s : Kernel) (r : LoadRequest) (i : ℕ)
      → IsConsistent s
      → i < 16
      → is_active s i ≡ false
      → IsConsistent (create_at list_base s r i)
  unfolding increment
  create_at-IsConsistent s r i v hi a =
      let st = state-create_at s r i in
      record {
        counted = ground (
          arith,
          st,
          v.counted,
          active_slots-ext 16 (is_active (create_at list_base s r i)) (update (is_active s) i true)
              (active-create_at s r i),
          active_slots-update 16 (is_active s) i true hi,
        );
        named = λ j hj act.
            ground (arith, pid-create_at s r i j, active-create_at s r i j, v.named j hj);
        issued = λ j hj. ground (arith, st, pid-create_at s r i j, v.issued j hj);
        distinct = λ j k hj hk e ne. ground (
          arith,
          pid-create_at s r i j,
          pid-create_at s r i k,
          v.issued j hj,
          v.issued k hk,
          v.distinct j k hj hk,
        );
        current = λ c e. v.current c (sym st.2 ∙ e);
      }

  -- The slot of a new process: a pid never given before, ready to run at the entry point, with its
  -- pages counted.
  pub record IsStarted (s : Kernel) (r : LoadRequest) (i : ℕ) (s' : Kernel) : Type 0 where
    pub pid : (s'.process_list i).pid ≡ s.total_pid + 1
    pub active : (s'.process_list i).active ≡ true
    pub state : (s'.process_list i).cur_state ≡ ready
    pub entry_point : (s'.process_list i).context.eip ≡ r.buf
    pub pages : (s'.process_list i).page_frame_used_count ≡ page_frame_count_needed r
    pub others : (j : ℕ) → i ≢ j → s'.process_list j ≡ s.process_list j

  create_at-IsStarted :
      (s : Kernel) (r : LoadRequest) (i : ℕ) → IsStarted s r i (create_at list_base s r i)
  unfolding create_at process_generate_new_pid
  create_at-IsStarted s r i = record {
    pid = ground arith;
    active = ground arith;
    state = ground arith;
    entry_point = ground arith;
    pages = ground arith;
    others = λ j ne. ground arith;
  }

  count_test :
      (s : Kernel)
      → IsConsistent s
      → at_least s.active_process_count 16 ≡ leb 16 (active_slots 16 (is_active s))
  count_test s v = rw (v.counted) refl

  -- Every outcome of `process_create_user_process` in a consistent state, once the scheduler has
  -- run or while there is no process: 16 processes are active (1), the entry point is the kernel's
  -- (2), the memory check fails or more than 8 frames are needed (3), in which cases nothing
  -- changes; or the process is started in an inactive slot (0), with a new pid, ready, at its
  -- entry point, no other slot changes, and the state stays consistent.
  pub create_user_process_lem :
      (s : Kernel) (request : LoadRequest)
      → IsConsistent s
      → (((c : ℕ) × (s.cur_idx ≡ some c)) ⊎ (s.active_process_count ≡ pos 0))
      → let r = process_create_user_process list_base s request in
        let needed = page_frame_count_needed request in
        ((16 ≤ active_slots 16 (is_active s)) × (r ≡ some (1, s)))
        ⊎ ((active_slots 16 (is_active s) < 16) × (0xc0000000 ≤ request.buf) × (r ≡ some (2, s)))
        ⊎ ((active_slots 16 (is_active s) < 16)
            × (request.buf < 0xc0000000)
            × ((paging_allocate_check s.paging needed ≡ false) ⊎ (8 < needed))
            × (r ≡ some (3, s)))
        ⊎ ((active_slots 16 (is_active s) < 16)
            × (request.buf < 0xc0000000)
            × (paging_allocate_check s.paging needed ≡ true)
            × (needed ≤ 8)
            × ((i : ℕ) × (i < 16)
                × (is_active s i ≡ false)
                × (s' : Kernel) × (r ≡ some (0, s'))
                × IsStarted s request i s'
                × IsConsistent s'))
  unfolding process_create_user_process
  create_user_process_lem s request v start =
      elim (Bool-cases (leb 16 (active_slots 16 (is_active s)))) [
        | inl a ↦ inl (ground arith, rw (count_test s v, a))
        | inr a ↦ elim (Bool-cases (leb 0xc0000000 request.buf)) [
          | inl b ↦ inr (inl (ground arith, ground arith, rw (count_test s v, a, b)))
          | inr b ↦
              elim (Bool-cases (
                not (paging_allocate_check s.paging (page_frame_count_needed request))
                || ltb 8 (page_frame_count_needed request))) [
                  | inl c ↦ inr (
                      inr (
                        inl
                          (ground arith, ground arith, ground arith, rw (count_test s v, a, b, c))))
                  | inr c ↦
                      let (i, f, hi, act) = inactive_index_total s v (ground arith) start in
                      inr (
                        inr (
                          inr (
                            ground arith,
                            ground arith,
                            ground arith,
                            ground arith,
                            (
                              i,
                              hi,
                              act,
                              create_at list_base s request i,
                              rw (count_test s v, a, b, c, f, process_create_user_process),
                              create_at-IsStarted s request i,
                              create_at-IsConsistent s request i v hi act,
                            ),
                          )))
                ]
        ]
      ]
