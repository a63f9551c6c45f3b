-- ===== src/Startup/Fork.antt =====
-- src/tracker.c: `mtt_fork_child`, which empties the tables and the slots in a new process.
use memory_trace_tool.Base.{
  ℕ, false, not, ◌&&◌, List, [], ◌∷◌, if◌then◌else◌, ◌==◌, map, get_or, zero, suc, none, ◌≡◌, refl,
  ◌∙◌, ◌⊎◌, inl, arith,
}
use memory_trace_tool.State.{Chain, Counters, Pool, State, null}
use memory_trace_tool.Table.Accounts.{IsConsistent}
use memory_trace_tool.Threads.{Thread, fresh_thread}
use memory_trace_tool.Startup.{spread, no_lists}
use memory_trace_tool.Table.{entry_find}
use memory_trace_tool.Api.{get_leak_count}
use memory_trace_tool.Startup.Fresh.{
  Emptied-map, length-map_empty, Emptied-IsConsistent, spread-PoolHolds,
}

-- the counters; three of them, which the start resets, are left
pub forked_counters : Counters → Counters
forked_counters c = record c {
  alloc_seq = 0;
  alloc_count = 0;
  free_count = 0;
  current_bytes = 0;
  peak_bytes = 0;
  total_bytes = 0;
  leak_bytes_total = 0;
  entry_count = 0;
  skipped_overcap = 0;
  peak_updated = false;
}

-- the free lists, made again over the pool that is there
pub forked_pool : Pool → Pool
forked_pool pool = record pool {
  free_lists = if pool.base == null then no_lists else spread pool.base pool.capacity no_lists;
  used = 0;
}

-- `mtt_fork_child` on the state
unfoldable pub fork_child : State → State
unfolding forked_counters forked_pool
fork_child s = record s {
  buckets = map (λ (chain : Chain). []) s.buckets;
  pool = forked_pool s.pool;
  counters = forked_counters s.counters;
  sampler = record s.sampler { sample_bytes_accum = 0; skipped_sampled = 0 };
  initialized = false;
}

-- the slots of the threads that the new process does not have
pub clear_others : ℕ → List Thread → List Thread
clear_others tid [] = []
clear_others tid (t ∷ ts) =
    (if not (t.tid == 0) && not (t.tid == tid) then record t { tid = 0 } else t)
    ∷ clear_others tid ts

-- the depth in the caller's slot
pub clear_own : ℕ → List Thread → List Thread
clear_own tid [] = []
clear_own tid (t ∷ ts) =
    if t.tid == tid then record t { hook_depth = 0; in_hook = 0 } ∷ ts else t ∷ clear_own tid ts

-- `mtt_fork_child` on the slots
unfoldable pub fork_child_slots : ℕ → List Thread → List Thread
unfolding clear_others clear_own
fork_child_slots tid slots = clear_own tid (clear_others tid slots)

-- The child of a fork of a state in order has a state in order.
pub fork_child-IsConsistent : (s : State) → IsConsistent 0 s → IsConsistent 0 (fork_child s)
unfolding fork_child forked_counters forked_pool
fork_child-IsConsistent s c =
    Emptied-IsConsistent (fork_child s) (Emptied-map s.buckets)
      (record {
        allocated = length-map_empty s.buckets ∙ c.table.allocated;
        some_bucket = c.table.some_bucket;
        fits = c.table.fits;
      })
      refl refl refl refl
      (λ there.
        spread-PoolHolds (forked_pool s.pool) s.pool.capacity (ground arith) refl refl
          (c.pool there).small)

-- A state without a record for the pointer, without a leak or a byte, and with no pool entry in
-- use.
abbrev pub Forgets : State → ℕ → Type 0
Forgets s p =
    (entry_find s p ≡ none)
    × (get_leak_count s ≡ 0)
    × (s.counters.current_bytes ≡ 0)
    × (s.pool.used ≡ 0)

-- The owner of slot `i`, 0 where there is none.
abbrev pub owner_at : List Thread → ℕ → ℕ
owner_at slots i = (get_or slots i (fresh_thread 0)).tid

clear_others-alone :
    (tid : ℕ) (slots : List Thread) (i : ℕ)
    → (owner_at (clear_others tid slots) i ≡ 0) ⊎ (owner_at (clear_others tid slots) i ≡ tid)
unfolding clear_others
clear_others-alone tid [] i = inl refl
clear_others-alone tid (t ∷ ts) zero = ground arith
clear_others-alone tid (t ∷ ts) (suc i) = clear_others-alone tid ts i

clear_own-owner :
    (tid : ℕ) (slots : List Thread) (i : ℕ) → owner_at (clear_own tid slots) i ≡ owner_at slots i
unfolding clear_own
clear_own-owner tid [] i = refl
clear_own-owner tid (t ∷ ts) zero = ground arith
clear_own-owner tid (t ∷ ts) (suc i) = ground (arith, clear_own-owner tid ts i)

-- In the child of a fork every slot is free or owned by the caller.
pub fork_child_slots-alone :
    (tid : ℕ) (slots : List Thread) (i : ℕ)
    → (owner_at (fork_child_slots tid slots) i ≡ 0)
      ⊎ (owner_at (fork_child_slots tid slots) i ≡ tid)
unfolding fork_child_slots
fork_child_slots-alone tid slots i =
    rw (clear_own-owner tid (clear_others tid slots) i) (clear_others-alone tid slots i)
