-- ===== src/Books/Push.antt =====
-- What making a record does to the records of every pointer.
use memory_trace_tool.Base.{
  ℕ, ◌<◌, ◌≡◌, ◌≢◌, ◌⊎◌, ◌∙◌, refl, true, false, Option, some, if◌then◌else◌, ◌∷◌, ◌==◌, arith, inl,
  inr, Option-cases, leb, add64,
}
use memory_trace_tool.State.{stripe_of, Entry, State, null, max_entries}
use memory_trace_tool.Table.{fresh_entry, take_free, Env, entry_new}
use memory_trace_tool.Table.Records.{IsTable, records, records-entry_add}
use memory_trace_tool.Table.Nodes.{nodes}
use memory_trace_tool.Table.Accounts.{IsConsistent}
use memory_trace_tool.Table.Supply.{entry_new_iff}
use memory_trace_tool.Books.{record_block, insert, count_alloc, with_counters}

-- A record is to be had: in pool mode while no stripe's lock is busy and the pool has room, or in
-- fallback mode where libc gives a block for it.
abbrev pub HasSupply : Env → State → Type 0
HasSupply env s =
    ((s.pool.base ≡ null) × (s.raw.malloc_set ≡ true) × (env.entry_block ≢ null))
    ⊎ ((s.pool.base ≢ null) × ((i : ℕ) → env.busy i ≡ false) × (nodes s < s.pool.capacity))

-- A new record's content, and what taking it from the supply leaves.
record IsMade (env : Env) (s : State) (p n : ℕ) (r : Option Entry × State) : Type 0 where
  pub entry : Entry
  pub made : r.0 ≡ some entry
  pub ptr : entry.ptr ≡ p
  pub size : entry.size ≡ n
  pub stack : entry.stack ≡ env.captured
  pub buckets : r.1.buckets ≡ s.buckets
  pub bucket_count : r.1.bucket_count ≡ s.bucket_count
  pub hash_seed : r.1.hash_seed ≡ s.hash_seed
  pub entry_count : r.1.counters.entry_count ≡ s.counters.entry_count

entry_new-IsMade :
    (env : Env) (s : State) (ptr size : ℕ)
    → IsConsistent 0 s
    → HasSupply env s
    → IsMade env s ptr size (entry_new env s ptr size)
unfolding entry_new
entry_new-IsMade env s ptr size c (inl (fallback, set, given)) =
    let no_pool : (s.pool.base == null) ≡ true = ground arith in
    let some_block : (env.entry_block == null) ≡ false = ground arith in
    rw (no_pool, set, some_block)
      (record {
        entry = fresh_entry env env.entry_block ptr size;
        made = refl;
        ptr = refl;
        size = refl;
        stack = refl;
        buckets = refl;
        bucket_count = refl;
        hash_seed = refl;
        entry_count = refl;
      })
entry_new-IsMade env s ptr size c (inr (pooled, quiet, room)) =
    let base_set : (s.pool.base == null) ≡ false = ground arith in
    let (e, made) = (entry_new_iff env s ptr size c pooled quiet).1 room in
    elim (Option-cases (take_free env.busy s.pool (stripe_of ptr s.bucket_count s.hash_seed))) [
      | inl nothing ↦ absurd (cc (rw (base_set, nothing, entry_new) at made))
      | inr ((a, pool'), taken) ↦
          rw (base_set, taken)
            (record {
              entry = fresh_entry env a ptr size;
              made = refl;
              ptr = refl;
              size = refl;
              stack = refl;
              buckets = refl;
              bucket_count = refl;
              hash_seed = refl;
              entry_count = refl;
            })
    ]

-- From `s` to `s'` one record has come on top of those of the pointer `p`: for `n` bytes, with the
-- captured stack. Every other pointer's records are the same.
pub record IsPushed (env : Env) (s : State) (p n : ℕ) (s' : State) : Type 0 where
  pub entry : Entry
  pub ptr : entry.ptr ≡ p
  pub size : entry.size ≡ n
  pub stack : entry.stack ≡ env.captured
  pub kept : (q : ℕ) → records s' q ≡ (if p == q then entry ∷ records s q else records s q)

insert-records :
    (s : State) (e : Entry) (q : ℕ)
    → IsTable s
    → s.counters.entry_count < max_entries
    → records (insert false s e) q ≡ (
        if e.ptr == q
        then (record e { alloc_num = add64 s.counters.alloc_seq 1 }) ∷ records s q
        else records s q)
unfolding insert records
insert-records s e q table room =
    let numbered = record e { alloc_num = add64 s.counters.alloc_seq 1 } in
    let counted = with_counters (count_alloc false e.size) s in
    let under : leb max_entries s.counters.entry_count ≡ false = ground arith in
    rw under (records-entry_add counted numbered q table)

pub record_block-IsPushed :
    (env : Env) (s : State) (p size : ℕ)
    → IsConsistent 0 s
    → HasSupply env s
    → s.counters.entry_count < max_entries
    → IsPushed env s p size (record_block false env s p size)
unfolding record_block records
record_block-IsPushed env s p size c supply room =
    let r = entry_new env s p size in
    let m = entry_new-IsMade env s p size c supply in
    let table : IsTable r.1 = rw (m.buckets, m.bucket_count) c.table in
    record {
      entry = record m.entry { alloc_num = add64 r.1.counters.alloc_seq 1 };
      ptr = m.ptr;
      size = m.size;
      stack = m.stack;
      kept = λ q.
          let same : records r.1 q ≡ records s q =
            rw (m.buckets, m.bucket_count, m.hash_seed) refl in
          rw (m.made, record_block)
            (insert-records r.1 m.entry q table (rw m.entry_count room) ∙ (rw (m.ptr, same) refl));
    }

-- The calls to libc and the sampler are not part of the table.
pub IsPushed-over :
    (env : Env) (s s₀ : State) (p n : ℕ) (s' : State)
    → ((q : ℕ) → records s₀ q ≡ records s q)
    → IsPushed env s₀ p n s'
    → IsPushed env s p n s'
IsPushed-over env s s₀ p n s' same pushed = record {
  entry = pushed.entry;
  ptr = pushed.ptr;
  size = pushed.size;
  stack = pushed.stack;
  kept = λ q. pushed.kept q ∙ (rw (same q) refl);
}
