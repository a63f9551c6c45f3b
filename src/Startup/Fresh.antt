-- ===== src/Startup/Fresh.antt =====
-- What `mtt_ensure_init` and `mtt_fork_child` leave: empty tables, and a pool spread evenly.
use memory_trace_tool.Base.{
  ℕ, zero, suc, ◌+◌, ◌-◌, ◌*◌, ◌/◌, ◌%◌, ◌≤◌, ◌<◌, ◌≡◌, ◌≢◌, refl, ap, ◌∙◌, true, false, ◌&&◌, ◌||◌,
  Option, none, some, List, [], ◌∷◌, ◌==◌, leb, get_or, set, replicate, length, map, word, mul64, ℤ,
  sum_by, sum_by-set, length-set, length-replicate, get_or-set, arith, nonneg_or, if_elim,
}
use memory_trace_tool.State.{Entry, Chain, Pool, Raw, State, null, lock_stripes}
use memory_trace_tool.Table.{entry_bytes, entry_find, index_of, no_buckets}
use memory_trace_tool.Table.Records.{IsTable}
use memory_trace_tool.Table.Nodes.{bytes_of, count_of, empties_of, free_nodes, PoolHolds}
use memory_trace_tool.Table.Accounts.{IsConsistent}
use memory_trace_tool.Startup.{
  Environment, Boot, spread, no_lists, make_pool, reset_counters, pool_entries_max,
  pool_entries_min, pool_entries_default, pool_block, read_settings, new_buckets, started,
  ensure_init, buckets_default,
}

spread-length : (base n : ℕ) → length (spread base n no_lists) ≡ lock_stripes
unfolding spread
spread-length base zero = refl
spread-length base (suc i) =
    let before = spread base i no_lists in
    let idx = i % lock_stripes in
    length-set before idx ((base + i * entry_bytes) ∷ get_or before idx []) ∙ spread-length base i

spread-nodes : (base n : ℕ) → sum_by length (spread base n no_lists) ≡ n
unfolding spread
spread-nodes base zero = refl
spread-nodes base (suc i) =
    let before = spread base i no_lists in
    let idx = i % lock_stripes in
    let front : List ℕ = (base + i * entry_bytes) ∷ get_or before idx [] in
    omega (arith, spread-nodes base i, spread-length base i, sum_by-set length before idx front [])

get_or-no_lists : (k : ℕ) → get_or no_lists k [] ≡ []
get_or-no_lists k = none_there 64 k
  where
    none_there : (n k : ℕ) → get_or {A = List ℕ} (replicate n []) k [] ≡ []
    none_there zero k = refl
    none_there (suc n) zero = refl
    none_there (suc n) (suc k) = none_there n k

-- Of n entries spread over the 64 free lists, list k gets one for each number below n that leaves
-- k modulo 64.
pub spread-even :
    (base n k : ℕ)
    → k < lock_stripes
    → length (get_or (spread base n no_lists) k []) ≡ (n + 63 - k) / 64
unfolding spread
spread-even base zero k lt = ground (arith, get_or-no_lists k)
spread-even base (suc i) k lt =
    let before = spread base i no_lists in
    let idx = i % lock_stripes in
    let front : List ℕ = (base + i * entry_bytes) ∷ get_or before idx [] in
    ground (arith, spread-even base i k lt, spread-length base i, get_or-set before idx k front [])

-- Tables of empty buckets.
pub data Emptied : List Chain → Type 0 where
  none_left : Emptied []
  one_more : {buckets : List Chain} → Emptied buckets → Emptied ([] ∷ buckets)

pub Emptied-replicate : (n : ℕ) → Emptied (replicate n [])
Emptied-replicate zero = Emptied.none_left
Emptied-replicate (suc n) = Emptied.one_more (Emptied-replicate n)

pub Emptied-map : (buckets : List Chain) → Emptied (map (λ (chain : Chain). []) buckets)
Emptied-map [] = Emptied.none_left
Emptied-map (c ∷ buckets) = Emptied.one_more (Emptied-map buckets)

pub length-map_empty :
    (buckets : List Chain)
    → length {A = Chain} (map (λ (chain : Chain). []) buckets) ≡ length buckets
length-map_empty [] = refl
length-map_empty (c ∷ buckets) = ap suc (length-map_empty buckets)

Emptied-counts :
    (buckets : List Chain)
    → Emptied buckets
    → (bytes_of buckets ≡ 0) × (count_of buckets ≡ 0) × (empties_of buckets ≡ 0)
unfolding bytes_of count_of empties_of
Emptied-counts [] e = (refl, refl, refl)
Emptied-counts (chain ∷ buckets) (Emptied.one_more e) = omega (arith, Emptied-counts buckets e)

Emptied-bucket : (buckets : List Chain) (i : ℕ) → Emptied buckets → get_or buckets i [] ≡ []
Emptied-bucket [] i e = refl
Emptied-bucket (c ∷ buckets) zero (Emptied.one_more e) = refl
Emptied-bucket (c ∷ buckets) (suc i) (Emptied.one_more e) = Emptied-bucket buckets i e

pub entry_find-Emptied : (s : State) (p : ℕ) → Emptied s.buckets → entry_find s p ≡ none
unfolding entry_find
entry_find-Emptied s p e = rw (Emptied-bucket s.buckets (index_of s p) e) (
    if_elim (λ (o : Option Entry). o ≡ none) (p == null || no_buckets s) none none (λ _. refl)
      (λ _. refl))

-- With no record in the table, the counters at 0 and the whole pool free, the state is in order.
pub Emptied-IsConsistent :
    (s : State)
    → Emptied s.buckets
    → IsTable s
    → s.counters.current_bytes ≡ 0
    → s.counters.entry_count ≡ 0
    → s.counters.alloc_count ≡ 0
    → s.counters.free_count ≡ 0
    → (s.pool.base ≢ null → PoolHolds 0 s.pool)
    → IsConsistent 0 s
Emptied-IsConsistent s e table h₁ h₂ h₃ h₄ books =
    let (b, n, z) = Emptied-counts s.buckets e in
    record {
      table = table;
      bytes = omega (arith, b);
      entries = omega (arith, n);
      fits = omega (arith, b);
      sized = z;
      bounded = omega (arith, n);
      balance = omega (arith, n);
      pool = λ h. rw n (books h);
    }

pub spread-PoolHolds :
    (pool : Pool) (n : ℕ)
    → pool.free_lists ≡ spread pool.base n no_lists
    → pool.capacity ≡ n
    → pool.used ≡ 0
    → n < word
    → PoolHolds 0 pool
unfolding free_nodes
spread-PoolHolds pool n lists capacity used small = record {
  stripes = rw lists (spread-length pool.base n);
  counted = used;
  rest = rw lists (omega (arith, spread-nodes pool.base n));
  small = omega arith;
}

want_pool_entries-le :
    (env : Environment) → (read_settings env).want_pool_entries ≤ pool_entries_max
unfolding read_settings nonneg_or
want_pool_entries-le env = bounded env.pool_entries
  where
    bounded :
        (value : Option ℤ)
        → nonneg_or
            (λ n. leb pool_entries_min n && leb n pool_entries_max)
            pool_entries_default
            value
          ≤ pool_entries_max
    bounded none = omega arith
    bounded (some (ℤ.pos n)) = ground arith
    bounded (some (ℤ.negsuc n)) = omega arith

make_pool-PoolHolds :
    (b : Boot) (raw : Raw) (n : ℕ)
    → n < word
    → (make_pool b raw n).base ≢ null
    → PoolHolds 0 (make_pool b raw n)
unfolding make_pool
make_pool-PoolHolds b raw n small =
    let base = pool_block b raw in
    let by_base : Pool → Type 0 = λ p. p.base ≢ null → PoolHolds 0 p in
    if_elim by_base (base == null)
      (record { base = null; free_lists = no_lists; capacity = 0; raw_size = 0; used = 0 })
      (record {
        base = base;
        free_lists = spread base n no_lists;
        capacity = n;
        raw_size = mul64 n entry_bytes;
        used = 0;
      })
      (λ _ h. absurd (h refl)) (λ _ h. spread-PoolHolds _ n refl refl refl small)

pub make_pool-used : (b : Boot) (raw : Raw) (n : ℕ) → (make_pool b raw n).used ≡ 0
unfolding make_pool
make_pool-used b raw n =
    if_elim (λ (pool : Pool). pool.used ≡ 0) (pool_block b raw == null) _ _ (λ _. refl) (λ _. refl)

-- A start that is the first and gets its bucket array from raw_calloc makes a state in order,
-- whatever the settings are.
pub ensure_init-IsConsistent :
    (env : Environment) (b : Boot) (s : State)
    → s.initialized ≡ false
    → b.raw_calloc_set ≡ true
    → b.buckets_by_calloc ≡ true
    → IsConsistent 0 (ensure_init env b s)
unfolding ensure_init started reset_counters
ensure_init-IsConsistent env b s fresh set given =
    let n = (read_settings env).want_pool_entries in
    let zeroed : new_buckets b s ≡ replicate buckets_default [] = ground arith in
    rw (fresh, zeroed)
      (Emptied-IsConsistent _ (Emptied-replicate buckets_default)
        (record {
          allocated = length-replicate {A = Chain} buckets_default [];
          some_bucket = omega arith;
          fits = omega arith;
        })
        refl refl refl refl
        (make_pool-PoolHolds b s.raw n (omega (arith, want_pool_entries-le env))))
