-- ===== src/Threads/Slots.antt =====
-- The slot array: a thread's context is its own, and a live thread keeps it.
use memory_trace_tool.Base.{
  ℕ, suc, ◌+◌, ◌≤◌, ◌<◌, ◌≡◌, refl, ◌≢◌, subst, Bool, true, false, none, some, List, [], ◌∷◌, ◌==◌,
  length, get_or, set, ==_iff, sum_by, sum_by-set, get_or-set, arith, ◌⊎◌, inl, inr, Option-cases,
  Bool-cases,
}
use memory_trace_tool.Threads.{Thread, fresh_thread, first_slot, reclaimable, thread_get}

abbrev weight : Bool → ℕ
weight true = 1
weight false = 0

-- How many slots a thread owns.
unfoldable pub slots_of : List Thread → ℕ → ℕ
slots_of slots tid = sum_by (λ t. weight (t.tid == tid)) slots

abbrev free_slot : Thread
free_slot = record {
  tid = 0;
  hook_depth = 0;
  depth_inited = 0;
  in_hook = 0;
  tool_internal = 0;
  raw_resolving = 0;
  in_capture = 0;
}

-- the slot's owner, 0 outside the array
abbrev pub owner : List Thread → ℕ → ℕ
owner slots i = (get_or slots i free_slot).tid

first_slot-some :
    (test : ℕ → Bool) (slots : List Thread) (i j : ℕ)
    → first_slot test slots i ≡ some j
    → (k : ℕ) × (j ≡ i + k) × (k < length slots) × (test (owner slots k) ≡ true)
unfolding first_slot
first_slot-some test [] i j h = cc
first_slot-some test (t ∷ ts) i j h = elim (Bool-cases (test t.tid)) [
  | inl e ↦ (0, ground arith, omega arith, e)
  | inr e ↦
      let (k, eq, lt, passed) = first_slot-some test ts (i + 1) j (rw (e, first_slot) at h) in
      (suc k, omega arith, omega arith, passed)
]

first_slot-none :
    (tid : ℕ) (slots : List Thread) (i : ℕ)
    → first_slot (λ o. o == tid) slots i ≡ none
    → slots_of slots tid ≡ 0
unfolding first_slot slots_of
first_slot-none tid [] i h = refl
first_slot-none tid (t ∷ ts) i h = ground (arith, first_slot-none tid ts (i + 1))

found_slot :
    (test : ℕ → Bool) (slots : List Thread) (j : ℕ)
    → first_slot test slots 0 ≡ some j
    → (j < length slots) × (test (owner slots j) ≡ true)
found_slot test slots j h =
    let (k, eq, lt, passed) = first_slot-some test slots 0 j h in
    let same : j ≡ k = omega arith in rw same (lt, passed)

-- No thread owns two slots.
abbrev pub OneEach : List Thread → Type 0
OneEach slots = (q : ℕ) → q ≢ 0 → slots_of slots q ≤ 1

-- The caller owns slot `i` of the new array, where no thread owns two slots, and every other
-- thread that has not exited owns what it owned before.
pub record Claims (exited : ℕ → Bool) (slots : List Thread) (tid i : ℕ) (slots' : List Thread)
    : Type 0 where
  pub inside : i < length slots
  pub owned : owner slots' i ≡ tid
  pub one_each : OneEach slots'
  pub others_keep :
      (q : ℕ) → q ≢ 0 → q ≢ tid → exited q ≡ false → slots_of slots' q ≡ slots_of slots q

module _ (exited : ℕ → Bool) (slots : List Thread) (tid : ℕ) (one : OneEach slots) where
  taken-Claims :
      (k : ℕ)
      → k < length slots
      → slots_of slots tid ≡ 0
      → (owner slots k ≡ 0) ⊎ (exited (owner slots k) ≡ true)
      → Claims exited slots tid k (set slots k (fresh_thread tid))
  unfolding slots_of
  taken-Claims k lt absent why = record {
    inside = omega arith;
    owned = ground (arith, get_or-set slots k k (fresh_thread tid) free_slot lt);
    one_each = λ q h. ground (arith, one q h, swapped q, absent);
    others_keep = λ q h ne live. ground (arith, swapped q);
  }
    where
      swapped :
          (q : ℕ)
          → slots_of (set slots k (fresh_thread tid)) q + weight (owner slots k == q)
            ≡ slots_of slots q + weight (tid == q)
      swapped q = sum_by-set (λ t. weight (t.tid == q)) slots k (fresh_thread tid) free_slot lt

  claim_moved :
      (i j : ℕ) (slots' : List Thread)
      → (thread_get exited slots tid).0 ≡ some i
      → thread_get exited slots tid ≡ (some j, slots')
      → Claims exited slots tid j slots'
      → Claims exited slots tid i (thread_get exited slots tid).1
  claim_moved i j slots' h e c =
      let same : j ≡ i = cc in rw e (subst (λ n. Claims exited slots tid n slots') same c)

  -- If no thread owns two slots, a thread that gets a slot owns it, again no thread owns two, and
  -- every other thread that has not exited keeps what it had.
  pub thread_get-Claims :
      (i : ℕ)
      → (thread_get exited slots tid).0 ≡ some i
      → Claims exited slots tid i (thread_get exited slots tid).1
  unfolding thread_get
  thread_get-Claims i h = elim (Option-cases (first_slot (λ o. o == tid) slots 0)) [
    | inr (j, mine) ↦
        let (lt, passed) = found_slot (λ o. o == tid) slots j mine in
        claim_moved i j slots h (ground arith) (record {
          inside = lt;
          owned = (==_iff _ _).0 passed;
          one_each = one;
          others_keep = λ q h ne live. refl;
        })
    | inl absent ↦
        let none_yet = first_slot-none tid slots 0 absent in
        elim (Option-cases (first_slot (λ o. o == 0) slots 0)) [
          | inr (j, free) ↦
              let (lt, passed) = found_slot (λ o. o == 0) slots j free in
              claim_moved i j (set slots j (fresh_thread tid)) h (ground arith)
                (taken-Claims j lt none_yet (inl ((==_iff _ _).0 passed)))
          | inl full ↦ elim (Option-cases (first_slot (reclaimable exited tid) slots 0)) [
            | inr (j, dead) ↦
                let (lt, passed) = found_slot (reclaimable exited tid) slots j dead in
                claim_moved i j (set slots j (fresh_thread tid)) h (ground arith)
                  (taken-Claims j lt none_yet (inr (ground arith)))
            | inl nothing ↦ absurd (none_left absent full nothing)
          ]
        ]
  ]
    where
      none_left :
          first_slot (λ o. o == tid) slots 0 ≡ none
          → first_slot (λ o. o == 0) slots 0 ≡ none
          → first_slot (reclaimable exited tid) slots 0 ≡ none
          → ⊥
      none_left a b c = ground arith
