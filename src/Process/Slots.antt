-- ===== src/Process/Slots.antt =====
-- process.c: the search for a free slot.
use luma_osjang.Common.{
  ℕ, zero, suc, ◌+◌, ◌-◌, ◌%◌, ◌≤◌, ◌<◌, ◌≡◌, refl, ap, ◌∙◌, ◌≢◌, ◌⊎◌, inl, inr, Bool, true, false,
  arith,
}
use luma_osjang.Process.{Search, found, out_of_range, endless, previous_index, search_inactive}

-- The index `d` steps below `idx`, round the list.
abbrev pub back : ℕ → ℕ → ℕ
back idx d = (idx + 16 - d) % 16

pub previous-lt : (idx : ℕ) → idx < 16 → previous_index idx < 16
unfolding previous_index
previous-lt zero h = omega arith
previous-lt (suc i) h = omega arith

back-previous : (idx d : ℕ) → idx < 16 → d < 16 → back (previous_index idx) d ≡ back idx (d + 1)
unfolding previous_index
back-previous zero d h k = omega arith
back-previous (suc i) d h k = omega arith

-- What the search returns: the first inactive slot at or below the start.
pub search_found :
    (active : ℕ → Bool) (n idx : ℕ) {k : ℕ}
    → idx < 16
    → search_inactive active n idx ≡ found k
    → (k < 16) × (active k ≡ false)
unfolding search_inactive
search_found active zero idx hi e = absurd (cc)
search_found active (suc n) idx {k} hi e =
    ground (arith, search_found active n (previous_index idx) {k = k}, previous-lt idx hi)

search_endless :
    (active : ℕ → Bool) (n idx : ℕ)
    → idx < 16
    → n ≤ 16
    → search_inactive active n idx ≡ endless
    → (d : ℕ) → d < n
    → active (back idx d) ≡ true
unfolding search_inactive
search_endless active zero idx hi hn e d hd = absurd (omega arith)
search_endless active (suc n) idx hi hn e zero hd =
    let b : back idx 0 ≡ idx = omega arith in rw b (ground arith)
search_endless active (suc n) idx hi hn e (suc d) hd =
    let b : back (previous_index idx) d ≡ back idx (suc d) =
      back-previous idx d hi (omega arith) ∙ ap (back idx) (omega arith) in
    rw (← b) (
      search_endless active n (previous_index idx) (previous-lt idx hi) (omega arith) (ground arith)
        d (omega arith))

search_in_range : (active : ℕ → Bool) (n idx : ℕ) → search_inactive active n idx ≢ out_of_range
unfolding search_inactive
search_in_range active zero idx e = cc
search_in_range active (suc n) idx e = ground (arith, search_in_range active n (previous_index idx))

Search-cases : (r : Search) → ((k : ℕ) × (r ≡ found k)) ⊎ ((r ≡ out_of_range) ⊎ (r ≡ endless))
Search-cases (found k) = inl (k, refl)
Search-cases out_of_range = inr (inl refl)
Search-cases endless = inr (inr refl)

-- With an inactive slot the search ends within its 16 rounds, at an inactive slot.
pub search_total :
    (active : ℕ → Bool) (idx j : ℕ)
    → idx < 16
    → j < 16
    → active j ≡ false
    → (k : ℕ) × (search_inactive active 16 idx ≡ found k) × (k < 16) × (active k ≡ false)
search_total active idx j hi hj e = elim (Search-cases (search_inactive active 16 idx)) [
  | inl (k, q) ↦ let f = search_found active 16 idx hi q in (k, q, f.0, f.1)
  | inr (inl q) ↦ absurd (search_in_range active 16 idx q)
  | inr (inr q) ↦
      let b : back idx ((idx + 16 - j) % 16) ≡ j = omega arith in
      let t = search_endless active 16 idx hi (omega arith) q ((idx + 16 - j) % 16) (omega arith) in
      let u : active j ≡ true = rw b at t in absurd (cc)
]
