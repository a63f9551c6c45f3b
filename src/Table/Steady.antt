-- ===== src/Table/Steady.antt =====
-- What the table's operations never touch: the shape of the table, the place of the pool, what is
-- set and whether the tool is disabled.
use memory_trace_tool.Base.{
  ℕ, zero, suc, ◌+◌, ◌-◌, ◌≡◌, ◌∙◌, refl, Bool, not, Option, none, some, [], if◌then◌else◌, ◌==◌,
  get_or, bit_and, arith, inl, inr, Option-cases, Bool-cases, List-cases, if_elim,
}
use memory_trace_tool.State.{Entry, Pool, State, RawCall, null, stripe_of, lock_stripes}
use memory_trace_tool.Table.{
  Env, log_raw, pop_free, scan_free, take_free, entry_new, new_from_libc, fresh_entry, entry_bytes,
  entry_add, give_back, is_over_capacity,
}

-- The pool lies where it lay.
pub record SamePlace (p q : Pool) : Type 0 where
  pub base : q.base ≡ p.base
  pub raw_size : q.raw_size ≡ p.raw_size

pub record Steady (s s' : State) : Type 0 where
  pub bucket_count : s'.bucket_count ≡ s.bucket_count
  pub hash_seed : s'.hash_seed ≡ s.hash_seed
  pub place : SamePlace s.pool s'.pool
  pub free_set : s'.raw.free_set ≡ s.raw.free_set
  pub initialized : s'.initialized ≡ s.initialized
  pub disabled : s'.disabled ≡ s.disabled

pop_free-SamePlace :
    (pool : Pool) (i : ℕ) {a : ℕ} {pool' : Pool}
    → pop_free pool i ≡ some (a, pool')
    → SamePlace pool pool'
unfolding pop_free
pop_free-SamePlace pool i found = elim (List-cases (get_or pool.free_lists i [])) [
  | inl empty ↦ absurd (ground (arith, empty))
  | inr (b, r, full) ↦ ground (arith, full)
]

scan_free-SamePlace :
    (busy : ℕ → Bool) (pool : Pool) (idx left k : ℕ) {a : ℕ} {pool' : Pool}
    → scan_free busy pool idx left k ≡ some (a, pool')
    → SamePlace pool pool'
unfolding scan_free
scan_free-SamePlace busy pool idx zero k e = absurd (cc)
scan_free-SamePlace busy pool idx (suc left) k e =
    let i = bit_and (idx + k) (lock_stripes - 1) in
    let later = scan_free-SamePlace busy pool idx left (k + 1) in
    elim (Bool-cases (busy i)) [
      | inl locked ↦ later (rw (locked, scan_free) at e)
      | inr unlocked ↦ elim (Option-cases (pop_free pool i)) [
        | inl empty ↦ later (rw (unlocked, empty, scan_free) at e)
        | inr (t, full) ↦ pop_free-SamePlace pool i (full ∙ (rw (unlocked, full, scan_free) at e))
      ]
    ]

take_free-SamePlace :
    (busy : ℕ → Bool) (pool : Pool) (idx : ℕ) {a : ℕ} {pool' : Pool}
    → take_free busy pool idx ≡ some (a, pool')
    → SamePlace pool pool'
unfolding take_free
take_free-SamePlace busy pool idx e = elim (Option-cases (pop_free pool idx)) [
  | inl empty ↦ scan_free-SamePlace busy pool idx (lock_stripes - 1) 1 (rw (empty, take_free) at e)
  | inr (t, full) ↦ pop_free-SamePlace pool idx (full ∙ (rw (full, take_free) at e))
]

pub Steady-refl : (s : State) → Steady s s
Steady-refl s = ground arith

pub Steady-trans : {s t u : State} → Steady s t → Steady t u → Steady s u
Steady-trans a b = ground arith

-- A new record leaves the table, and is for the pointer asked for.
pub record NewFor (s : State) (ptr : ℕ) (r : Option Entry × State) : Type 0 where
  pub steady : Steady s r.1
  pub buckets : r.1.buckets ≡ s.buckets
  pub made : (e : Entry) → r.0 ≡ some e → e.ptr ≡ ptr

new_from_libc-NewFor :
    (env : Env) (s : State) (ptr size : ℕ) → NewFor s ptr (new_from_libc env s ptr size)
unfolding new_from_libc
new_from_libc-NewFor env s ptr size =
    let s' = log_raw (RawCall.raw_malloc entry_bytes) s in
    let made = some (fresh_entry env env.entry_block ptr size) in
    let tried : Option Entry × State = if env.entry_block == null then (none, s') else (made, s') in
    if_elim (NewFor s ptr) (not s.raw.malloc_set) (none, s) tried
      (λ _. (record { steady = Steady-refl s; buckets = refl; made = λ e h. cc }))
      λ _.
        if_elim (NewFor s ptr) (env.entry_block == null) (none, s') (made, s')
          (λ _. (record { steady = ground arith; buckets = refl; made = λ e h. cc }))
          (λ _. (record { steady = ground arith; buckets = refl; made = λ e h. ground arith }))

pub entry_new-NewFor :
    (env : Env) (s : State) (ptr size : ℕ) → NewFor s ptr (entry_new env s ptr size)
unfolding entry_new
entry_new-NewFor env s ptr size = elim (Bool-cases (s.pool.base == null)) [
  | inl fallback ↦ rw fallback (new_from_libc-NewFor env s ptr size)
  | inr pooled ↦
      elim (Option-cases (take_free env.busy s.pool (stripe_of ptr s.bucket_count s.hash_seed))) [
        | inl empty ↦
            rw (pooled, empty) (record { steady = Steady-refl s; buckets = refl; made = λ e h. cc })
        | inr ((a, pool'), taken) ↦
            let place = take_free-SamePlace env.busy s.pool _ taken in
            rw (pooled, taken)
              (record {
                steady = ground (arith, place);
                buckets = refl;
                made = λ e h. ground arith;
              })
      ]
]

pub entry_add-Steady : (s : State) (e : Entry) → Steady s (entry_add s e)
unfolding entry_add
entry_add-Steady s e = ground arith

pub give_back-Steady : (s : State) (a : ℕ) → Steady s (give_back s a)
unfolding give_back
give_back-Steady s a = ground arith

pub is_over_capacity-Steady : (s : State) → Steady s (is_over_capacity s).1
unfolding is_over_capacity
is_over_capacity-Steady s = ground arith

pub is_over_capacity-buckets : (s : State) → (is_over_capacity s).1.buckets ≡ s.buckets
unfolding is_over_capacity
is_over_capacity-buckets s = ground arith
