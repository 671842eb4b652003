-- ===== src/Scheduler/RoundRobin.antt =====
-- scheduler.c: the choice of the next process and what one switch leaves.
use luma_osjang.Common.{
  ℕ, zero, suc, ◌+◌, ◌-◌, ◌%◌, ◌<◌, ◌≡◌, refl, ◌∙◌, ◌≢◌, ◌⊎◌, inl, inr, Bool, true, false, Option,
  none, some, List, ◌∷◌, arith, Bool-cases,
}
use luma_osjang.Process.{
  Kernel, Search, found, out_of_range, endless, is_active, ready, running, switch_to, Event,
}
use luma_osjang.Paging.{paging_use_page_directory}
use luma_osjang.Scheduler.{
  search_active, start_index, preempt, dispatch, scheduler_switch_to_next_process,
}

-- The index `d` steps above `idx`, round the list.
abbrev pub ahead : ℕ → ℕ → ℕ
ahead idx d = (idx + d) % 16

-- `k` is the first active index from `idx` on.
abbrev pub FirstActive : (ℕ → Bool) → ℕ → ℕ → Type 0
FirstActive active idx k =
    (active k ≡ true)
    × ((d : ℕ) × (d < 16) × (k ≡ ahead idx d) × ((e : ℕ) → e < d → active (ahead idx e) ≡ false))

search_endless :
    (active : ℕ → Bool) (n idx d : ℕ)
    → idx < 16
    → search_active active n idx ≡ endless
    → d < n
    → active (ahead idx d) ≡ false
unfolding search_active
search_endless active zero idx d hi e h = absurd (omega arith)
search_endless active (suc n) idx zero hi e h =
    let b : ahead idx 0 ≡ idx = omega arith in rw b (ground arith)
search_endless active (suc n) idx (suc d) hi e h =
    let b : ahead ((idx + 1) % 16) d ≡ ahead idx (suc d) = omega arith in
    rw (← b) (search_endless active n ((idx + 1) % 16) d (omega arith) (ground arith) (omega arith))

search_found :
    (active : ℕ → Bool) (n idx k : ℕ)
    → idx < 16
    → search_active active n idx ≡ found k
    → (active k ≡ true)
      × ((d : ℕ) × (d < n) × (k ≡ ahead idx d) × ((e : ℕ) → e < d → active (ahead idx e) ≡ false))
unfolding search_active
search_found active zero idx k hi e = absurd (cc)
search_found active (suc n) idx k hi e = elim (Bool-cases (active idx)) [
  | inl a ↦
      let q : idx ≡ k = ground arith in
      (rw (← q) a, (0, omega arith, omega (arith, q), λ e h. absurd (omega arith)))
  | inr a ↦
      let (b, (d, hd, q, before)) =
        search_found active n ((idx + 1) % 16) k (omega arith) (ground arith) in
      (b, (suc d, omega arith, q ∙ shift d, λ e h. earlier a d before e h))
]
  where
    shift : (d : ℕ) → ahead ((idx + 1) % 16) d ≡ ahead idx (suc d)
    shift d = omega arith

    earlier :
        active idx ≡ false
        → (d : ℕ) → ((e : ℕ) → e < d → active (ahead ((idx + 1) % 16) e) ≡ false)
        → (e : ℕ) → e < suc d
        → active (ahead idx e) ≡ false
    earlier a d before zero h = let b : ahead idx 0 ≡ idx = omega arith in rw b a
    earlier a d before (suc e) h = rw (← shift e) (before e (omega arith))

search_in_range : (active : ℕ → Bool) (n idx : ℕ) → search_active active n idx ≢ out_of_range
unfolding search_active
search_in_range active zero idx e = cc
search_in_range active (suc n) idx e = ground (arith, search_in_range active n ((idx + 1) % 16))

Search-cases : (r : Search) → ((k : ℕ) × (r ≡ found k)) ⊎ ((r ≡ out_of_range) ⊎ (r ≡ endless))
Search-cases (found k) = inl (k, refl)
Search-cases out_of_range = inr (inl refl)
Search-cases endless = inr (inr refl)

-- With an active process the search ends within 16 rounds, at the first active index.
search_total :
    (active : ℕ → Bool) (idx j : ℕ)
    → idx < 16
    → j < 16
    → active j ≡ true
    → (k : ℕ) × (search_active active 16 idx ≡ found k) × FirstActive active idx k
search_total active idx j hi hj a = elim (Search-cases (search_active active 16 idx)) [
  | inl (k, e) ↦ (k, e, search_found active 16 idx k hi e)
  | inr (inl e) ↦ absurd (search_in_range active 16 idx e)
  | inr (inr e) ↦
      let b : ahead idx ((j + 16 - idx) % 16) ≡ j = omega arith in
      let t = search_endless active 16 idx ((j + 16 - idx) % 16) hi e (omega arith) in
      let u : active j ≡ false = rw b at t in absurd (cc)
]

-- What the switch leaves: the process at `k` runs, with its directory loaded and its context entered
-- last; the one before it is ready, and nothing else of the process list changes.
pub record IsSwitched (s : Kernel) (k : ℕ) (s' : Kernel) : Type 0 where
  pub current : s'.cur_idx ≡ some k
  pub state : (s'.process_list k).cur_state ≡ running
  pub loaded :
      s'.paging
      ≡ paging_use_page_directory s.paging (s.process_list k).context.page_directory_virtual_addr
  pub entered : (rest : List Event) × (s'.events ≡ switch_to ((s.process_list k).context) ∷ rest)
  pub preempted : (c : ℕ) → s.cur_idx ≡ some c → c ≢ k → (s'.process_list c).cur_state ≡ ready
  pub others : (i : ℕ) → i ≢ k → s.cur_idx ≢ some i → s'.process_list i ≡ s.process_list i
  pub same_active : (i : ℕ) → is_active s' i ≡ is_active s i

dispatch-IsSwitched : (s : Kernel) (k : ℕ) → IsSwitched s k (dispatch (preempt s) k)
unfolding dispatch preempt
dispatch-IsSwitched s k = record {
  current = refl;
  state = ground arith;
  loaded = ground arith;
  entered = ((preempt s).events, ground arith);
  preempted = λ c e ne. ground arith;
  others = λ i ne d. ground arith;
  same_active = λ i. ground arith;
}

pub start-lt : (o : Option ℕ) → ((c : ℕ) → o ≡ some c → c < 16) → start_index o < 16
unfolding start_index
start-lt none h = omega arith
start-lt (some c) h = omega (arith, h c refl)

-- With the current index in the list and some process active, the switch returns and goes to the
-- first active process behind the current one, round the list: that process runs, in its directory
-- and its context, the one before is ready, and no other slot changes.
pub switch_lem :
    (s : Kernel) (j : ℕ)
    → ((c : ℕ) → s.cur_idx ≡ some c → c < 16)
    → j < 16
    → is_active s j ≡ true
    → (k : ℕ) × (s' : Kernel) × (scheduler_switch_to_next_process s ≡ some s')
      × FirstActive (is_active s) (start_index s.cur_idx) k
      × IsSwitched s k s'
unfolding scheduler_switch_to_next_process
switch_lem s j hc hj a =
    let (k, e, f) =
      search_total (is_active s) (start_index s.cur_idx) j (start-lt s.cur_idx hc) hj a in
    (
      k,
      dispatch (preempt s) k,
      rw (e, scheduler_switch_to_next_process),
      f,
      dispatch-IsSwitched s k,
    )

-- With the current index in the list and no active process the search has no end.
pub switch_idle :
    (s : Kernel)
    → ((c : ℕ) → s.cur_idx ≡ some c → c < 16)
    → ((i : ℕ) → i < 16 → is_active s i ≡ false)
    → scheduler_switch_to_next_process s ≡ none
unfolding scheduler_switch_to_next_process
switch_idle s hc h =
    let st = start_index s.cur_idx in
    elim (Search-cases (search_active (is_active s) 16 st)) [
      | inl (k, e) ↦
          let (a, (d, hd, q, b)) = search_found (is_active s) 16 st k (start-lt s.cur_idx hc) e in
          let u : is_active s k ≡ false = h k (omega (arith, q)) in absurd (cc)
      | inr (inl e) ↦ rw (e, scheduler_switch_to_next_process)
      | inr (inr e) ↦ rw (e, scheduler_switch_to_next_process)
    ]
