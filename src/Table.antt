-- ===== src/Table.antt =====
-- src/tracker.c: the hash table of allocation records and the entry pool, `mtt_entry_find` to
-- `mtt_entry_new`. Each runs under the lock of its stripe and is one step here.
pub mod Records
pub mod Nodes
pub mod Accounts
pub mod Changes
pub mod Supply
pub mod Steady
pub mod Undo
use memory_trace_tool.Base.{
  ℕ, zero, suc, ◌+◌, ◌-◌, ◌%◌, ◌≤◌, ◌<◌, Bool, true, false, not, ◌&&◌, ◌||◌, Option, none, some,
  List, [], ◌∷◌, if◌then◌else◌, ◌==◌, ltb, leb, length, get_or, set, add64, sub64, bit_and,
}
use memory_trace_tool.State.{
  Entry, Chain, Pool, Counters, Raw, RawCall, State, null, max_entries, lock_stripes, bucket_of,
  stripe_of,
}

-- What one call of the tool is told from outside: the clock, the captured stack, the stripes
-- whose `pthread_mutex_trylock` fails, and the blocks that libc returns for a record, for the
-- user, and on `raw_realloc`.
pub record Env : Type 0 where
  pub now : ℕ
  pub captured : List ℕ
  pub busy : ℕ → Bool
  pub entry_block : ℕ
  pub user_block : ℕ
  pub moved_block : ℕ

-- a call through a `raw_*` pointer
abbrev pub log_raw : RawCall → State → State
log_raw c s = record s { raw = record s.raw { calls = c ∷ s.raw.calls } }

pub find_in : ℕ → Chain → Option Entry
find_in p [] = none
find_in p (e ∷ c) = if e.ptr == p then some e else find_in p c

-- the unlinking of the first record for `p`
pub remove_in : ℕ → Chain → Chain
remove_in p [] = []
remove_in p (e ∷ c) = if e.ptr == p then c else e ∷ remove_in p c

abbrev pub index_of : State → ℕ → ℕ
index_of s ptr = bucket_of ptr s.bucket_count s.hash_seed

abbrev pub chain_of : State → ℕ → Chain
chain_of s ptr = get_or s.buckets (index_of s ptr) []

abbrev pub no_buckets : State → Bool
no_buckets s = length s.buckets == 0

-- `mtt_entry_find`
unfoldable pub entry_find : State → ℕ → Option Entry
unfolding find_in
entry_find s ptr = if ptr == null || no_buckets s then none else find_in ptr (chain_of s ptr)

-- A record goes back to its stripe's free list, or to libc in fallback mode.
pub give_back : State → ℕ → State
give_back s addr =
    if s.pool.base == null
    then (if s.raw.free_set then log_raw (RawCall.raw_free addr) s else s)
    else (let idx = stripe_of addr s.bucket_count s.hash_seed in
        record s {
          pool = record s.pool {
            free_lists = set s.pool.free_lists idx (addr ∷ get_or s.pool.free_lists idx []);
            used = sub64 s.pool.used 1;
          };
        })

-- `*pp = dead->next` and the count
pub unlink : State → ℕ → State
unfolding remove_in
unlink s ptr = record s {
  buckets = set s.buckets (index_of s ptr) (remove_in ptr (chain_of s ptr));
  counters = record s.counters { entry_count = sub64 s.counters.entry_count 1 };
}

-- `mtt_entry_remove`
unfoldable pub entry_remove : State → ℕ → State
unfolding find_in give_back unlink
entry_remove s ptr =
    if ptr == null || no_buckets s then s else elim (find_in ptr (chain_of s ptr)) [
      | none ↦ s
      | some dead ↦ give_back (unlink s ptr) dead.addr
    ]

-- `mtt_pool_contains`
unfoldable pub pool_contains : State → ℕ → Bool
pool_contains s ptr =
    not (ptr == null)
    && s.initialized
    && not (s.pool.base == null)
    && leb s.pool.base ptr
    && ltb ptr (add64 s.pool.base s.pool.raw_size)

-- `mtt_entry_add`
unfoldable pub entry_add : State → Entry → State
entry_add s e = if no_buckets s then s else record s {
  buckets = set s.buckets (index_of s e.ptr) (e ∷ chain_of s e.ptr);
  counters = record s.counters { entry_count = add64 s.counters.entry_count 1 };
}

-- `mtt_entry_discard`; the entry is never NULL here
unfoldable pub entry_discard : State → Entry → State
unfolding give_back
entry_discard s e = give_back s e.addr

-- the head of one free list, taken under its lock
pub pop_free : Pool → ℕ → Option (ℕ × Pool)
pop_free pool idx = elim (get_or pool.free_lists idx []) [
  | [] ↦ none
  | a ∷ rest ↦
      some (a, record pool { free_lists = set pool.free_lists idx rest; used = add64 pool.used 1 })
]

-- the other stripes in order from `idx + k`, `left` of them, passing over those that are locked
pub scan_free : (ℕ → Bool) → Pool → ℕ → ℕ → ℕ → Option (ℕ × Pool)
unfolding pop_free
scan_free busy pool idx zero k = none
scan_free busy pool idx (suc left) k =
    let try_idx = bit_and (idx + k) (lock_stripes - 1) in
    let rest = scan_free busy pool idx left (k + 1) in
    if busy try_idx
    then rest
    else elim (pop_free pool try_idx) [ some taken ↦ some taken | none ↦ rest ]

pub take_free : (ℕ → Bool) → Pool → ℕ → Option (ℕ × Pool)
unfolding pop_free scan_free
take_free busy pool idx = elim (pop_free pool idx) [
  | some taken ↦ some taken
  | none ↦ scan_free busy pool idx (lock_stripes - 1) 1
]

abbrev pub fresh_entry : Env → ℕ → ℕ → ℕ → Entry
fresh_entry env addr ptr size = record {
  addr = addr;
  ptr = ptr;
  size = size;
  timestamp = env.now;
  alloc_num = 0;
  stack = env.captured;
}

-- sizeof(mtt_entry_t) on a 64-bit target
abbrev pub entry_bytes : ℕ
entry_bytes = 560

-- the fallback: one `raw_malloc` for the record
pub new_from_libc : Env → State → ℕ → ℕ → Option Entry × State
new_from_libc env s ptr size =
    if not s.raw.malloc_set
    then (none, s)
    else (let asked = log_raw (RawCall.raw_malloc entry_bytes) s in
        if env.entry_block == null
        then (none, asked)
        else (some (fresh_entry env env.entry_block ptr size), asked))

-- `mtt_entry_new`
unfoldable pub entry_new : Env → State → ℕ → ℕ → Option Entry × State
unfolding take_free new_from_libc
entry_new env s ptr size =
    if s.pool.base == null
    then new_from_libc env s ptr size
    else elim (take_free env.busy s.pool (stripe_of ptr s.bucket_count s.hash_seed)) [
      | none ↦ (none, s)
      | some (a, pool) ↦ (some (fresh_entry env a ptr size), record s { pool = pool })
    ]

-- `mtt_is_over_capacity`
unfoldable pub is_over_capacity : State → Bool × State
is_over_capacity s =
    if leb max_entries s.counters.entry_count
    then (
      true,
      record s {
        counters = record s.counters { skipped_overcap = add64 s.counters.skipped_overcap 1 };
      },
    )
    else (false, s)
