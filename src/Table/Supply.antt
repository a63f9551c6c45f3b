-- ===== src/Table/Supply.antt =====
-- When a record is to be had from the pool: one stripe's list after the other is tried.
use memory_trace_tool.Base.{
  ℕ, zero, suc, ◌+◌, ◌-◌, ◌/◌, ◌%◌, ◌≤◌, ◌<◌, ◌≡◌, ◌≢◌, ◌↔◌, ◌⊎◌, ◌∙◌, ap, refl, sym, Bool, false,
  none, some, List, [], ◌∷◌, ◌==◌, get_or, bit_and, bit_and_step, bit_and-le, arith, inl, inr,
  Option-cases, Bool-cases, List-cases, sum_by, length,
}
use memory_trace_tool.State.{Entry, Pool, State, null, stripe_of, stripe_of-lt, lock_stripes}
use memory_trace_tool.Table.Nodes.{nodes, free_nodes}
use memory_trace_tool.Table.Accounts.{IsConsistent}
use memory_trace_tool.Table.{Env, pop_free, scan_free, take_free, entry_new, fresh_entry}

abbrev free_list : Pool → ℕ → List ℕ
free_list pool i = get_or pool.free_lists i []

-- A mask of ones is a remainder.
bit_and-63 : (a : ℕ) → bit_and a 63 ≡ a % 64
bit_and-63 a = omega (
  arith,
  bit_and_step a 63,
  bit_and_step (a / 2) 31,
  bit_and_step (a / 2 / 2) 15,
  bit_and_step (a / 2 / 2 / 2) 7,
  bit_and_step (a / 2 / 2 / 2 / 2) 3,
  bit_and_step (a / 2 / 2 / 2 / 2 / 2) 1,
  bit_and-zero (a / 2 / 2 / 2 / 2 / 2 / 2),
)
  where
    bit_and-zero : (a : ℕ) → bit_and a 0 ≡ 0
    bit_and-zero a = omega (arith, bit_and-le a 0)

pop_free-none : (pool : Pool) (i : ℕ) → pop_free pool i ≡ none → free_list pool i ≡ []
unfolding pop_free
pop_free-none pool i missing = elim (List-cases (free_list pool i)) [
  | inl empty ↦ empty
  | inr (a, r, full) ↦ absurd (ground (arith, full))
]

-- A list from the `k`th of those past the first on that is neither empty nor locked is found, or
-- one before it.
scan_free-some :
    (busy : ℕ → Bool) (pool : Pool) (idx left k j : ℕ)
    → k ≤ j
    → j < k + left
    → busy ((idx + j) % 64) ≡ false
    → free_list pool ((idx + j) % 64) ≢ []
    → (t : ℕ × Pool) × (scan_free busy pool idx left k ≡ some t)
unfolding scan_free
scan_free-some busy pool idx zero k j h₁ h₂ open_lock full = absurd (omega arith)
scan_free-some busy pool idx (suc left) k j h₁ h₂ open_lock full =
    let i = bit_and (idx + k) (lock_stripes - 1) in
    let at_k : k ≡ j → i ≡ (idx + j) % 64 =
      λ e. bit_and-63 (idx + k) ∙ ap (λ n. (idx + n) % 64) e in
    let later : k ≢ j → (t : ℕ × Pool) × (scan_free busy pool idx left (k + 1) ≡ some t) = λ h.
      scan_free-some busy pool idx left (k + 1) j (omega (arith, h)) (omega arith) open_lock full in
    elim (Bool-cases (busy i)) [
      | inl locked ↦
          let (t, e) = later (λ here. cc (ap busy (at_k here))) in (t, rw (locked, scan_free) e)
      | inr unlocked ↦ elim (Option-cases (pop_free pool i)) [
        | inl empty ↦
            let nothing = pop_free-none pool i empty in
            let (t, e) = later (λ here. full (ap (free_list pool) (sym (at_k here)) ∙ nothing)) in
            (t, rw (unlocked, empty, scan_free) e)
        | inr (t, found) ↦ (t, rw (unlocked, found, scan_free) refl)
      ]
    ]

-- The stripe from which a free list is to be had: the first one, or any whose lock is free.
abbrev pub Supplies : (ℕ → Bool) → Pool → ℕ → ℕ → Type 0
Supplies busy pool idx i = (i < 64) × (free_list pool i ≢ []) × ((i ≡ idx) ⊎ (busy i ≡ false))

take_free-some :
    (busy : ℕ → Bool) (pool : Pool) (idx i : ℕ)
    → idx < 64
    → Supplies busy pool idx i
    → (t : ℕ × Pool) × (take_free busy pool idx ≡ some t)
unfolding take_free
take_free-some busy pool idx i lt (small, full, free) = elim (Option-cases (pop_free pool idx)) [
  | inr (t, found) ↦ (t, rw (found, take_free) refl)
  | inl empty ↦
      let other : i ≢ idx = λ e. full (ap (free_list pool) e ∙ pop_free-none pool idx empty) in
      let j = (i + 64 - idx) % 64 in
      let around : (idx + j) % 64 ≡ i = omega arith in
      let unlocked : busy i ≡ false = elim free [ inl e ↦ absurd (other e) | inr b ↦ b ] in
      let (t, e) =
        scan_free-some busy pool idx 63 1 j (omega (arith, other)) (omega arith)
          (ap busy around ∙ unlocked) (λ h. full (ap (free_list pool) (sym around) ∙ h)) in
      (t, rw (empty, take_free) e)
]

pop_free_full :
    (pool : Pool) (i : ℕ) {t : ℕ × Pool} → pop_free pool i ≡ some t → free_list pool i ≢ []
unfolding pop_free
pop_free_full pool i found = λ empty. ground (arith, empty)

scan_free_sound :
    (busy : ℕ → Bool) (pool : Pool) (idx left k : ℕ) {t : ℕ × Pool}
    → scan_free busy pool idx left k ≡ some t
    → (i : ℕ) × Supplies busy pool idx i
unfolding scan_free
scan_free_sound busy pool idx zero k e = cc
scan_free_sound busy pool idx (suc left) k {t = t} e =
    let i = bit_and (idx + k) (lock_stripes - 1) in
    let lt : i < 64 = omega (arith, bit_and-le (idx + k) 63) in
    let later = scan_free_sound busy pool idx left (k + 1) {t = t} in
    elim (Bool-cases (busy i)) [
      | inl locked ↦ later (rw (locked, scan_free) at e)
      | inr unlocked ↦ elim (Option-cases (pop_free pool i)) [
        | inl empty ↦ later (rw (unlocked, empty, scan_free) at e)
        | inr (taken, found) ↦ (i, (lt, pop_free_full pool i found, inr unlocked))
      ]
    ]

take_free_sound :
    (busy : ℕ → Bool) (pool : Pool) (idx : ℕ) {t : ℕ × Pool}
    → idx < 64
    → take_free busy pool idx ≡ some t
    → (i : ℕ) × Supplies busy pool idx i
unfolding take_free
take_free_sound busy pool idx lt e = elim (Option-cases (pop_free pool idx)) [
  | inr (t, found) ↦ (idx, (lt, pop_free_full pool idx found, inl refl))
  | inl empty ↦ scan_free_sound busy pool idx 63 1 (rw (empty, take_free) at e)
]

-- Some list is full where the lists together hold something.
full_list :
    (lists : List (List ℕ))
    → 0 < sum_by length lists
    → (i : ℕ) × (i < length lists) × (get_or lists i [] ≢ [])
full_list [] h = absurd (omega arith)
full_list ([] ∷ lists) h =
    let (i, lt, full) = full_list lists (omega arith) in (suc i, omega arith, full)
full_list ((a ∷ r) ∷ lists) h = (0, omega arith, cc)

some_free : (lists : List (List ℕ)) (i : ℕ) → get_or lists i [] ≢ [] → 0 < sum_by length lists
some_free [] i full = absurd (full refl)
some_free ([] ∷ lists) zero full = absurd (full refl)
some_free ((a ∷ r) ∷ lists) zero full = omega arith
some_free (l ∷ lists) (suc i) full = omega (arith, some_free lists i full)

-- Where the pool's list of a stripe is taken from, there is a record.
entry_new-some :
    (env : Env) (s : State) (ptr size : ℕ)
    → s.pool.base ≢ null
    → (i : ℕ) → Supplies env.busy s.pool (stripe_of ptr s.bucket_count s.hash_seed) i
    → (e : Entry) × ((entry_new env s ptr size).0 ≡ some e)
unfolding entry_new
entry_new-some env s ptr size pooled i supplied =
    let idx = stripe_of ptr s.bucket_count s.hash_seed in
    let lt = stripe_of-lt ptr s.bucket_count s.hash_seed in
    let base_set : (s.pool.base == null) ≡ false = ground arith in
    let ((a, pool'), taken) = take_free-some env.busy s.pool idx i lt supplied in
    (fresh_entry env a ptr size, rw (base_set, taken) refl)

entry_new_sound :
    (env : Env) (s : State) (ptr size : ℕ)
    → s.pool.base ≢ null
    → (e : Entry) → (entry_new env s ptr size).0 ≡ some e
    → (i : ℕ) × Supplies env.busy s.pool (stripe_of ptr s.bucket_count s.hash_seed) i
unfolding entry_new
entry_new_sound env s ptr size pooled e made =
    let idx = stripe_of ptr s.bucket_count s.hash_seed in
    let lt = stripe_of-lt ptr s.bucket_count s.hash_seed in
    let base_set : (s.pool.base == null) ≡ false = ground arith in
    elim (Option-cases (take_free env.busy s.pool idx)) [
      | inl nothing ↦ absurd (cc (rw (base_set, nothing) at made))
      | inr (t, taken) ↦ take_free_sound env.busy s.pool idx lt taken
    ]

-- In pool mode, from a state in order and while no stripe's lock is busy, mtt_entry_new gives a
-- record just where fewer records are in the table than the pool has room for, whichever free
-- list they came from.
pub entry_new_iff :
    (env : Env) (s : State) (ptr size : ℕ)
    → IsConsistent 0 s
    → s.pool.base ≢ null
    → ((i : ℕ) → env.busy i ≡ false)
    → ((e : Entry) × ((entry_new env s ptr size).0 ≡ some e)) ↔ (nodes s < s.pool.capacity)
unfolding free_nodes
entry_new_iff env s ptr size c pooled quiet =
    let books = c.pool pooled in
    (
      λ (e, made).
          let (i, supplied) = entry_new_sound env s ptr size pooled e made in
          omega (arith, some_free s.pool.free_lists i supplied.1, books.rest),
      λ room.
          let (i, lt, full) = full_list s.pool.free_lists (omega (arith, books.rest)) in
          entry_new-some env s ptr size pooled i
            (omega (arith, books.stripes), full, inr (quiet i)),
    )
