-- ===== src/Process/Table.antt =====
-- process.c: the process list against the count of active processes and the pids.
use luma_osjang.Common.{
  ℕ, zero, suc, ◌+◌, ◌≤◌, ◌<◌, ◌≡◌, refl, ◌≢◌, inl, inr, Bool, true, false, some, ◌==◌,
  if◌then◌else◌, update, arith, Bool-cases,
}
use luma_osjang.Common.Int.{pos}
use luma_osjang.Process.{Kernel, is_active}

-- How many of the first `n` slots are active.
unfoldable pub active_slots : ℕ → (ℕ → Bool) → ℕ
active_slots zero active = 0
active_slots (suc n) active = active_slots n active + (if active n then 1 else 0)

active_slots-update_outside :
    (n : ℕ) (active : ℕ → Bool) (i : ℕ) (b : Bool)
    → n ≤ i
    → active_slots n (update active i b) ≡ active_slots n active
unfolding active_slots
active_slots-update_outside zero active i b h = refl
active_slots-update_outside (suc n) active i b h =
    ground (arith, active_slots-update_outside n active i b)

pub active_slots-update :
    (n : ℕ) (active : ℕ → Bool) (i : ℕ) (b : Bool)
    → i < n
    → active_slots n (update active i b) + (if active i then 1 else 0)
      ≡ active_slots n active + (if b then 1 else 0)
unfolding active_slots
active_slots-update zero active i b h = absurd (omega arith)
active_slots-update (suc n) active i b h = elim (Bool-cases (i == n)) [
  | inl e ↦ ground (arith, active_slots-update_outside n active i b)
  | inr e ↦ ground (arith, active_slots-update n active i b)
]

pub active_slots-ext :
    (n : ℕ) (f g : ℕ → Bool) → ((i : ℕ) → f i ≡ g i) → active_slots n f ≡ active_slots n g
unfolding active_slots
active_slots-ext zero f g h = refl
active_slots-ext (suc n) f g h = ground (arith, h n, active_slots-ext n f g h)

pub active_slots_pos :
    (n : ℕ) (active : ℕ → Bool) (i : ℕ) → i < n → active i ≡ true → 0 < active_slots n active
unfolding active_slots
active_slots_pos zero active i h e = absurd (omega arith)
active_slots_pos (suc n) active i h e = elim (Bool-cases (i == n)) [
  | inl q ↦ ground arith
  | inr q ↦ ground (arith, active_slots_pos n active i)
]

-- Fewer active slots than slots: one is inactive.
pub active_slots_room :
    (n : ℕ) (active : ℕ → Bool) → active_slots n active < n → (i : ℕ) × (i < n) × (active i ≡ false)
unfolding active_slots
active_slots_room zero active h = absurd (omega arith)
active_slots_room (suc n) active h = elim (Bool-cases (active n)) [
  | inl e ↦ let (i, a, b) = active_slots_room n active (ground arith) in (i, omega arith, b)
  | inr e ↦ (n, omega arith, e)
]

-- The counter is the number of active slots, pids other than 0 are given once and not above the
-- last one, an active process has a pid, and the current index lies in the list.
pub record IsConsistent (s : Kernel) : Type 0 where
  pub counted : s.active_process_count ≡ pos (active_slots 16 (is_active s))
  pub named : (i : ℕ) → i < 16 → is_active s i ≡ true → (s.process_list i).pid ≢ 0
  pub issued : (i : ℕ) → i < 16 → (s.process_list i).pid ≤ s.total_pid
  pub distinct :
      (i j : ℕ)
      → i < 16
      → j < 16
      → (s.process_list i).pid ≡ (s.process_list j).pid
      → (s.process_list i).pid ≢ 0
      → i ≡ j
  pub current : (c : ℕ) → s.cur_idx ≡ some c → c < 16
