-- ===== src/Scheduler/Fairness.antt =====
-- scheduler.c: runs of switches.
use luma_osjang.Common.{
  ℕ, zero, suc, ◌+◌, ◌-◌, ◌%◌, ◌≤◌, ◌<◌, ◌≡◌, ◌∙◌, ◌⊎◌, inl, inr, Bool, true, false, Option, none,
  some, ◌==◌, arith, Bool-cases, ==_iff, dec_lt,
}
use luma_osjang.Process.{Kernel, is_active, running}
use luma_osjang.Scheduler.{start_index, scheduler_switch_to_next_process}
use luma_osjang.Scheduler.RoundRobin.{ahead, FirstActive, switch_lem, start-lt}

-- `n` switches in a row.
unfoldable pub run_switches : ℕ → Kernel → Option Kernel
run_switches zero s = some s
run_switches (suc n) s = elim (scheduler_switch_to_next_process s) [
  | none ↦ none
  | some s' ↦ run_switches n s'
]

-- Steps from the search's start to `j`.
abbrev pub distance : ℕ → ℕ → ℕ
distance idx j = (j + 16 - idx) % 16

-- The first active index is `j` itself, or comes before it and leaves less than the way to go.
nearer :
    (active : ℕ → Bool) (idx j k : ℕ)
    → idx < 16
    → j < 16
    → active j ≡ true
    → FirstActive active idx k
    → (k ≡ j) ⊎ (distance ((k + 1) % 16) j < distance idx j)
nearer active idx j k hi hj a (b, (d, hd, q, before)) = elim (dec_lt (distance idx j) d) [
  | yes p ↦
      let r : ahead idx (distance idx j) ≡ j = omega arith in
      let u : active j ≡ false = rw r at (before (distance idx j) p) in absurd (cc)
  | no p ↦ elim (Bool-cases (d == distance idx j)) [
    | inl e ↦ let e' : d ≡ distance idx j = (==_iff _ _).0 e in inl (omega arith)
    | inr e ↦ let e' : d < distance idx j = ground arith in inr (omega arith)
  ]
]

runs_within :
    (m : ℕ) (s : Kernel) (j : ℕ)
    → ((c : ℕ) → s.cur_idx ≡ some c → c < 16)
    → j < 16
    → is_active s j ≡ true
    → distance (start_index s.cur_idx) j < m
    → (n : ℕ) × (1 ≤ n)
      × (n ≤ m)
      × (s' : Kernel) × (run_switches n s ≡ some s')
      × (s'.cur_idx ≡ some j)
      × ((s'.process_list j).cur_state ≡ running)
unfolding run_switches start_index
runs_within zero s j hc hj a h = absurd (omega arith)
runs_within (suc m) s j hc hj a h =
    let (k, s', e, f, w) = switch_lem s j hc hj a in
    elim (nearer (is_active s) (start_index s.cur_idx) j k (start-lt s.cur_idx hc) hj a f) [
      | inl q ↦ (
        1,
        omega arith,
        omega arith,
        s',
        rw (e, run_switches),
        rw (← q) w.current,
        rw (← q) w.state,
      )
      | inr less ↦
          let cur : s'.cur_idx ≡ some k = w.current in
          let k_lt : (c : ℕ) → s'.cur_idx ≡ some c → c < 16 = λ c p. ground (arith, f) in
          let (n, one, le, s'', r, x, y) =
            runs_within m s' j k_lt hj (w.same_active j ∙ a) (rw cur (omega arith)) in
          (suc n, omega arith, omega arith, s'', rw (e, run_switches) r, x, y)
    ]

-- With the current index in the list, an active process is the running one after one to 16
-- switches, all of which return.
pub switch_fair :
    (s : Kernel) (j : ℕ)
    → ((c : ℕ) → s.cur_idx ≡ some c → c < 16)
    → j < 16
    → is_active s j ≡ true
    → (n : ℕ) × (1 ≤ n)
      × (n ≤ 16)
      × (s' : Kernel) × (run_switches n s ≡ some s')
      × (s'.cur_idx ≡ some j)
      × ((s'.process_list j).cur_state ≡ running)
switch_fair s j hc hj a = runs_within 16 s j hc hj a (omega arith)
