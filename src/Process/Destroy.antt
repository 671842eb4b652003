-- ===== src/Process/Destroy.antt =====
-- process.c: what destroying a process does, on every branch.
use luma_osjang.Common.{
  ℕ, zero, suc, ◌+◌, ◌≤◌, ◌<◌, ◌≡◌, refl, sym, ◌∙◌, ◌≢◌, ◌⊎◌, inl, inr, true, false, none, some,
  ◌∷◌, ◌==◌, if◌then◌else◌, update, arith, Bool-cases, Option-cases,
}
use luma_osjang.Common.Int.{pos, decrement, equals}
use luma_osjang.Process.{
  Kernel, ProcessControlBlock, is_active, process_destroy, release_memory, find_pid,
}
use luma_osjang.Process.{power_off}
use luma_osjang.Process.Table.{
  active_slots, active_slots-update, active_slots-ext, active_slots_pos, IsConsistent,
}

find_pid_found :
    (list : ℕ → ProcessControlBlock) (pid n i : ℕ) {k : ℕ}
    → find_pid list pid n i ≡ some k
    → (i ≤ k) × (k < i + n) × ((list k).pid ≡ pid)
unfolding find_pid
find_pid_found list pid zero i e = absurd (cc)
find_pid_found list pid (suc n) i {k} e = ground (arith, find_pid_found list pid n (i + 1) {k = k})

find_pid-none :
    (list : ℕ → ProcessControlBlock) (pid n i : ℕ)
    → find_pid list pid n i ≡ none
    → (j : ℕ) → i ≤ j
    → j < i + n
    → (list j).pid ≢ pid
unfolding find_pid
find_pid-none list pid zero i e j a b = absurd (omega arith)
find_pid-none list pid (suc n) i e j a b = elim (Bool-cases (i == j)) [
  | inl q ↦ ground arith
  | inr q ↦
      let rest : find_pid list pid n (i + 1) ≡ none = ground arith in
      find_pid-none list pid n (i + 1) rest j (ground arith) (omega arith)
]

module _ (list_base : ℕ) where
  release-list :
      (s : Kernel) (i j : ℕ)
      → let s' = release_memory list_base s i in
        ((s'.process_list j).pid ≡ (s.process_list j).pid)
        × ((s'.process_list j).active ≡ (s.process_list j).active)
        × ((s'.process_list i).page_frame_used_count ≡ 0)
        × (s'.active_process_count ≡ s.active_process_count)
        × (s'.total_pid ≡ s.total_pid)
        × (s'.cur_idx ≡ s.cur_idx)
        × (s'.events ≡ s.events)
  unfolding release_memory
  release-list s i j = ground arith

  -- What `process_destroy` leaves once the slot is found.
  destroyed : Kernel → ℕ → Kernel
  destroyed s i =
      let r = release_memory list_base s i in
      record r {
        events = if equals r.active_process_count 1 then power_off ∷ r.events else r.events;
        process_list = update r.process_list i (record (r.process_list i) { active = false });
        active_process_count = decrement r.active_process_count;
      }

  destroy_some :
      (s : Kernel) (pid i : ℕ)
      → find_pid s.process_list pid 16 0 ≡ some i
      → process_destroy list_base s pid ≡ (true, destroyed s i)
  unfolding process_destroy destroyed
  destroy_some s pid i e = rw (e, process_destroy)

  destroy_none :
      (s : Kernel) (pid : ℕ)
      → find_pid s.process_list pid 16 0 ≡ none
      → process_destroy list_base s pid ≡ (false, s)
  unfolding process_destroy
  destroy_none s pid e = rw (e, process_destroy)

  destroyed-list :
      (s : Kernel) (i j : ℕ)
      → (((destroyed s i).process_list j).pid ≡ (s.process_list j).pid)
        × (is_active (destroyed s i) j ≡ update (is_active s) i false j)
        × ((destroyed s i).active_process_count ≡ decrement s.active_process_count)
        × ((destroyed s i).total_pid ≡ s.total_pid)
        × ((destroyed s i).cur_idx ≡ s.cur_idx)
  unfolding destroyed
  destroyed-list s i j = ground (arith, release-list s i j)

  active-destroyed :
      (s : Kernel) (i : ℕ)
      → i < 16
      → active_slots 16 (is_active (destroyed s i)) + (if is_active s i then 1 else 0)
        ≡ active_slots 16 (is_active s)
  active-destroyed s i hi = ground (
    arith,
    active_slots-ext 16 (is_active (destroyed s i)) (update (is_active s) i false)
        (λ j. (destroyed-list s i j).1),
    active_slots-update 16 (is_active s) i false hi,
  )

  destroyed-IsConsistent :
      (s : Kernel) (i : ℕ)
      → IsConsistent s
      → i < 16
      → is_active s i ≡ true
      → IsConsistent (destroyed s i)
  unfolding decrement
  destroyed-IsConsistent s i v hi act = record {
    counted = ground (
      arith,
      v.counted,
      destroyed-list s i i,
      active-destroyed s i hi,
      active_slots_pos 16 (is_active s) i hi act,
    );
    named = λ j hj a. ground (arith, destroyed-list s i j, v.named j hj);
    issued = λ j hj. ground (arith, destroyed-list s i j, v.issued j hj);
    distinct = λ j k hj hk e ne.
        ground (arith, destroyed-list s i j, destroyed-list s i k, v.distinct j k hj hk);
    current = λ c e. v.current c (sym (destroyed-list s i i).4 ∙ e);
  }

  -- In a consistent state, for a pid other than 0: a pid that no slot has is refused and nothing
  -- changes; otherwise a slot with that pid is made inactive, no other slot's activity changes,
  -- and the state stays consistent if the process was active.
  pub destroy_lem :
      (s : Kernel) (pid : ℕ)
      → IsConsistent s
      → pid ≢ 0
      → let (done, s') = process_destroy list_base s pid in
        (((i : ℕ) → i < 16 → (s.process_list i).pid ≢ pid) × (done ≡ false) × (s' ≡ s))
        ⊎ ((i : ℕ) × (i < 16)
            × ((s.process_list i).pid ≡ pid)
            × (done ≡ true)
            × (is_active s' i ≡ false)
            × ((j : ℕ) → i ≢ j → is_active s' j ≡ is_active s j)
            × (is_active s i ≡ true → IsConsistent s'))
  destroy_lem s pid v ne = elim (Option-cases (find_pid s.process_list pid 16 0)) [
    | inl e ↦ rw (destroy_none s pid e) (
        inl (
          λ i hi. find_pid-none s.process_list pid 16 0 e i (omega arith) (omega arith),
          refl,
          refl,
        ))
    | inr (i, e) ↦
        let f = find_pid_found s.process_list pid 16 0 e in
        rw (destroy_some s pid i e) (
          inr (
            i,
            f.1,
            f.2,
            refl,
            ground (arith, destroyed-list s i i),
            λ j d. ground (arith, destroyed-list s i j),
            destroyed-IsConsistent s i v f.1,
          ))
  ]

  -- In a consistent state, the pid of a process that has already ended is accepted again: the same
  -- processes are active, but the counter is no longer their number.
  pub destroy_twice :
      (s : Kernel) (i : ℕ)
      → IsConsistent s
      → i < 16
      → is_active s i ≡ false
      → (s.process_list i).pid ≢ 0
      → let (done, s') = process_destroy list_base s (s.process_list i).pid in
        (done ≡ true)
        × (active_slots 16 (is_active s') ≡ active_slots 16 (is_active s))
        × (s'.active_process_count ≢ pos (active_slots 16 (is_active s')))
  unfolding decrement
  destroy_twice s i v hi dead ne =
      elim (Option-cases (find_pid s.process_list (s.process_list i).pid 16 0)) [
        | inl e ↦ absurd (
            find_pid-none s.process_list (s.process_list i).pid 16 0 e i (omega arith) (omega arith)
              refl)
        | inr (k, e) ↦
            let f = find_pid_found s.process_list (s.process_list i).pid 16 0 e in
            let q : k ≡ i = v.distinct k i f.1 hi f.2 (rw (f.2) ne) in
            rw (destroy_some s (s.process_list i).pid k e) (
              refl,
              ground (arith, active-destroyed s k f.1),
              ground (arith, active-destroyed s k f.1, destroyed-list s k k, v.counted),
            )
      ]
