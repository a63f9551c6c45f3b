-- ===== src/Table/Accounts.antt =====
-- The invariant of `mtt_state_t`: the counters agree with the table, and the entry pool's books
-- with both. `held` counts records that a caller has taken and not yet put into the table.
use memory_trace_tool.Base.{
  ℕ, ◌+◌, ◌%◌, ◌≤◌, ◌<◌, ◌≡◌, ◌≢◌, ◌∙◌, sym, refl, Bool, not, Option, none, some, if◌then◌else◌,
  ◌==◌, word, arith, inl, inr, Option-cases, Bool-cases, if_elim, ==_iff,
}
use memory_trace_tool.State.{
  Entry, Counters, Pool, Sampler, State, RawCall, null, max_entries, stripe_of, stripe_of-lt,
}
use memory_trace_tool.Table.{
  Env, log_raw, entry_discard, entry_new, give_back, take_free, new_from_libc, fresh_entry,
  entry_bytes,
}
use memory_trace_tool.Table.Records.{IsTable, IsTable-give_back}
use memory_trace_tool.Table.Nodes.{
  live_bytes, nodes, PoolHolds, empties, buckets-give_back, give_back-PoolHolds,
  take_free-PoolHolds,
}

-- In pool mode the records in use are those in the table and those held.
abbrev pub PoolBooks : ℕ → Pool → Type 0
PoolBooks n pool = pool.base ≢ null → PoolHolds n pool

pub record IsConsistent (held : ℕ) (s : State) : Type 0 where
  pub table : IsTable s
  pub bytes : s.counters.current_bytes ≡ live_bytes s
  pub entries : s.counters.entry_count ≡ nodes s
  pub fits : live_bytes s < word
  pub sized : empties s ≡ 0
  pub bounded : nodes s ≤ max_entries
  pub balance : s.counters.alloc_count ≡ (s.counters.free_count + nodes s) % word
  pub pool : PoolBooks (nodes s + held) s.pool

-- A record that goes back leaves everything but the pool and the log of libc's calls.
give_back-keeps :
    (s : State) (a : ℕ)
    → ((give_back s a).counters ≡ s.counters) × ((give_back s a).pool.base ≡ s.pool.base)
unfolding give_back
give_back-keeps s a = ground arith

-- A call whose result is a value beside the state leaves the state in order.
pub record Leaves (r : ℕ × State) : Type 0 where
  pub consistent : IsConsistent 0 r.1

-- A record that goes back leaves the caller's hands.
pub give_back-IsConsistent :
    {held : ℕ} {s : State} (a : ℕ) → IsConsistent (held + 1) s → IsConsistent held (give_back s a)
give_back-IsConsistent {held} {s} a c =
    let (same_counters, same_base) = give_back-keeps s a in
    let same = buckets-give_back s a in
    record {
      table = IsTable-give_back s a c.table;
      bytes = rw (same, same_counters) c.bytes;
      entries = rw (same, same_counters) c.entries;
      fits = rw same c.fits;
      sized = rw same c.sized;
      bounded = rw same c.bounded;
      balance = rw (same, same_counters) c.balance;
      pool = λ h.
          let pooled = rw same_base at h in
          rw same (give_back-PoolHolds s a pooled (rw (sym regroup) at (c.pool pooled)));
    }
  where
    regroup : nodes s + held + 1 ≡ nodes s + (held + 1)
    regroup = omega arith

-- Counters that agree on what the table holds may be swapped in.
pub recount-IsConsistent :
    {held : ℕ} {s : State} (k : Counters)
    → IsConsistent held s
    → k.current_bytes ≡ s.counters.current_bytes
    → k.entry_count ≡ s.counters.entry_count
    → k.alloc_count ≡ s.counters.alloc_count
    → k.free_count ≡ s.counters.free_count
    → IsConsistent held (record s { counters = k })
recount-IsConsistent k c h₁ h₂ h₃ h₄ = record {
  table = c.table;
  bytes = h₁ ∙ c.bytes;
  entries = h₂ ∙ c.entries;
  fits = c.fits;
  sized = c.sized;
  bounded = c.bounded;
  balance = rw (h₃, h₄) c.balance;
  pool = c.pool;
}

-- Another pool may be swapped in with its books, and so may another log of libc's calls.
repool-IsConsistent :
    {held n : ℕ} {s : State} (pool : Pool)
    → IsConsistent held s
    → PoolBooks (nodes s + n) pool
    → IsConsistent n (record s { pool = pool })
repool-IsConsistent pool c books = record {
  table = c.table;
  bytes = c.bytes;
  entries = c.entries;
  fits = c.fits;
  sized = c.sized;
  bounded = c.bounded;
  balance = c.balance;
  pool = books;
}

pub log_raw-IsConsistent :
    {held : ℕ} {s : State} (call : RawCall)
    → IsConsistent held s
    → IsConsistent held (log_raw call s)
log_raw-IsConsistent call c = record {
  table = c.table;
  bytes = c.bytes;
  entries = c.entries;
  fits = c.fits;
  sized = c.sized;
  bounded = c.bounded;
  balance = c.balance;
  pool = c.pool;
}

pub resample-IsConsistent :
    {held : ℕ} {s : State} (sampler : Sampler)
    → IsConsistent held s
    → IsConsistent held (record s { sampler = sampler })
resample-IsConsistent sampler c = record {
  table = c.table;
  bytes = c.bytes;
  entries = c.entries;
  fits = c.fits;
  sized = c.sized;
  bounded = c.bounded;
  balance = c.balance;
  pool = c.pool;
}

-- What `mtt_entry_new` may leave: the table and the counters as they were, and, where it made a
-- record of the size asked for, one more in the caller's hands.
abbrev pub Made : ℕ → State → ℕ → Option Entry × State → Type 0
Made held s size (none, s') =
    IsConsistent held s' × (s'.counters ≡ s.counters) × (s'.buckets ≡ s.buckets)
Made held s size (some e, s') =
    IsConsistent (held + 1) s'
    × (s'.counters ≡ s.counters)
    × (s'.buckets ≡ s.buckets)
    × (e.size ≡ size)

new_from_libc-Made :
    {held : ℕ} (env : Env) (s : State) (ptr size : ℕ)
    → IsConsistent held s
    → s.pool.base ≡ null
    → Made held s size (new_from_libc env s ptr size)
unfolding new_from_libc
new_from_libc-Made {held} env s ptr size c none_pooled =
    let s' = log_raw (RawCall.raw_malloc entry_bytes) s in
    let made = some (fresh_entry env env.entry_block ptr size) in
    let tried : Option Entry × State = if env.entry_block == null then (none, s') else (made, s') in
    if_elim (Made held s size) (not s.raw.malloc_set) (none, s) tried (λ _. (c, refl, refl))
      λ _.
        if_elim (Made held s size) (env.entry_block == null) (none, s') (made, s')
          (λ _. (asked, refl, refl))
          λ _. (repool-IsConsistent s.pool asked (λ h. absurd (h none_pooled)), refl, refl, refl)
  where
    asked : IsConsistent held (log_raw (RawCall.raw_malloc entry_bytes) s)
    asked = log_raw-IsConsistent (RawCall.raw_malloc entry_bytes) c

taken_books :
    {held : ℕ} (busy : ℕ → Bool) (s : State) (ptr a : ℕ) (pool' : Pool)
    → IsConsistent held s
    → s.pool.base ≢ null
    → take_free busy s.pool (stripe_of ptr s.bucket_count s.hash_seed) ≡ some (a, pool')
    → PoolBooks (nodes s + (held + 1)) pool'
taken_books {held} busy s ptr a pool' c pooled taken =
    let lt = stripe_of-lt ptr s.bucket_count s.hash_seed in
    let (holds, _, _) = take_free-PoolHolds busy s.pool _ lt (c.pool pooled) taken in
    λ _. rw regroup at holds
  where
    regroup : nodes s + held + 1 ≡ nodes s + (held + 1)
    regroup = omega arith

pub entry_new-Made :
    {held : ℕ} (env : Env) (s : State) (ptr size : ℕ)
    → IsConsistent held s
    → Made held s size (entry_new env s ptr size)
unfolding entry_new
entry_new-Made {held} env s ptr size c = elim (Bool-cases (s.pool.base == null)) [
  | inl fallback ↦
      rw fallback (new_from_libc-Made env s ptr size c ((==_iff s.pool.base null).0 fallback))
  | inr pooled ↦
      let idx = stripe_of ptr s.bucket_count s.hash_seed in
      let base_set : s.pool.base ≢ null = ground arith in
      elim (Option-cases (take_free env.busy s.pool idx)) [
        | inl empty ↦ rw (pooled, empty) (c, refl, refl)
        | inr ((a, pool'), taken) ↦
            let books = taken_books env.busy s ptr a pool' c base_set taken in
            rw (pooled, taken) (repool-IsConsistent pool' c books, refl, refl, refl)
      ]
]

-- A record that is discarded leaves the caller's hands.
pub entry_discard-IsConsistent :
    {held : ℕ} {s : State} (e : Entry)
    → IsConsistent (held + 1) s
    → IsConsistent held (entry_discard s e)
unfolding entry_discard
entry_discard-IsConsistent e c = give_back-IsConsistent e.addr c
