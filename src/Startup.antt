-- ===== src/Startup.antt =====
-- src/tracker.c: `mtt_ensure_init`, which reads the settings and makes the tables.
pub mod Fork
pub mod Fresh
use memory_trace_tool.Base.{
  ℕ, zero, suc, ◌+◌, ◌*◌, ◌/◌, ◌%◌, ◌^◌, Bool, true, false, not, ◌&&◌, ◌||◌, Option, none, some,
  List, [], ◌∷◌, if◌then◌else◌, ◌==◌, leb, ltb, get_or, set, replicate, word, mul64, bit_xor, min,
  max, ℤ, length, map, nonneg_or,
}
use memory_trace_tool.State.{
  Chain, Pool, Counters, Sampler, Raw, RawCall, State, null, lock_stripes, fibonacci,
}
use memory_trace_tool.Table.{log_raw, no_buckets, entry_bytes}

-- MTT_BUCKETS, MTT_POOL_ENTRIES_MIN, MTT_POOL_ENTRIES_MAX
abbrev pub buckets_default : ℕ
buckets_default = 4096

abbrev pub pool_entries_min : ℕ
pool_entries_min = 1024

abbrev pub pool_entries_max : ℕ
pool_entries_max = 131072

-- MTT_SAMPLE_MAX_PERIOD, MTT_SAMPLE_RATE_MAX, MTT_SAMPLE_RATE_DEFAULT, MTT_LEAK_THRESHOLD_DEFAULT
abbrev pub sample_max_period : ℕ
sample_max_period = 1024

abbrev pub sample_rate_max : ℕ
sample_rate_max = 30

abbrev pub sample_rate_default : ℕ
sample_rate_default = 0

abbrev pub leak_threshold_default : ℕ
leak_threshold_default = 300

-- The environment variables, as `getenv` and `atoi` tell them; nothing where one is not set.
pub record Environment : Type 0 where
  pub disable_is_1 : Bool
  pub sample : Option ℤ
  pub sample_rate : Option ℤ
  pub pool_entries : Option ℤ
  pub leak_threshold : Option ℤ
  pub skip_startup : Option ℤ

-- The `want_*` variables.
pub record Settings : Type 0 where
  pub want_disabled : Bool
  pub want_sample : ℕ
  pub want_srate : ℕ
  pub want_leak_threshold : ℕ
  pub want_skip_startup : ℕ
  pub want_pool_entries : ℕ

-- a period that MTT_SAMPLE sets
pub sample_set : Option ℤ → Bool
sample_set none = false
sample_set (some (ℤ.pos n)) = leb n sample_max_period
sample_set (some (ℤ.negsuc n)) = false

-- The default is MTT_POOL_TARGET_BYTES / sizeof(mtt_entry_t), clamped.
abbrev pub pool_entries_default : ℕ
pool_entries_default = min (max (20 * 1024 * 1024 / entry_bytes) pool_entries_min) pool_entries_max

-- Phase 1. MTT_SAMPLE turns the sampling by bytes off, unless MTT_SAMPLE_RATE turns it on again.
unfoldable pub read_settings : Environment → Settings
unfolding sample_set
read_settings env = record {
  want_disabled = env.disable_is_1;
  want_sample = nonneg_or (λ n. leb n sample_max_period) 0 env.sample;
  want_srate =
      (let srate = if sample_set env.sample then 0 else sample_rate_default in
        nonneg_or (λ n. leb n sample_rate_max) srate env.sample_rate);
  want_leak_threshold = nonneg_or (λ _. true) leak_threshold_default env.leak_threshold;
  want_skip_startup = nonneg_or (λ _. true) 0 env.skip_startup;
  want_pool_entries =
      nonneg_or (λ n. leb pool_entries_min n && leb n pool_entries_max) pool_entries_default
        env.pool_entries;
}

-- What the start is told from outside: the clock and the process, the results of libc and of the
-- bootstrap buffer, and whether the executable's own path is on the blacklist.
pub record Boot : Type 0 where
  pub now : ℕ
  pub pid : ℕ
  pub raw_calloc_set : Bool
  pub buckets_by_calloc : Bool
  pub buckets_by_bootstrap : Bool
  pub pool_by_malloc : ℕ
  pub pool_by_calloc : ℕ
  pub exe_blacklisted : Bool

-- the loop that spreads the pool's first `n` entries over the free lists
pub spread : ℕ → ℕ → List (List ℕ) → List (List ℕ)
spread base zero lists = lists
spread base (suc i) lists =
    let before = spread base i lists in
    let idx = i % lock_stripes in set before idx ((base + i * entry_bytes) ∷ get_or before idx [])

abbrev pub no_lists : List (List ℕ)
no_lists = replicate lock_stripes []

-- the block for the pool, NULL if neither allocator gives one
abbrev pub pool_block : Boot → Raw → ℕ
pool_block b raw =
    let first = if raw.malloc_set then b.pool_by_malloc else null in
    if first == null && b.raw_calloc_set then b.pool_by_calloc else first

pub make_pool : Boot → Raw → ℕ → Pool
unfolding spread
make_pool b raw entries =
    let base = pool_block b raw in
    if base == null
    then (record { base = null; free_lists = no_lists; capacity = 0; raw_size = 0; used = 0 })
    else (record {
      base = base;
      free_lists = spread base entries no_lists;
      capacity = entries;
      raw_size = mul64 entries entry_bytes;
      used = 0;
    })

-- The counters at the start; `leak_bytes_total` is not touched.
pub reset_counters : Counters → Counters
reset_counters c = record c {
  alloc_seq = 0;
  alloc_count = 0;
  free_count = 0;
  current_bytes = 0;
  peak_bytes = 0;
  total_bytes = 0;
  entry_count = 0;
  skipped_overcap = 0;
  peak_updated = false;
  temp_alloc_count = 0;
  expired_alloc_count = 0;
  free_expired_count = 0;
}

abbrev pub new_sampler : Settings → Sampler
new_sampler w = record {
  sample_period = w.want_sample;
  sample_counter = 0;
  sample_rate = w.want_srate;
  sample_bytes_accum = 0;
  skipped_sampled = 0;
}

-- the call for the pool, where `raw_malloc` is set; `raw_calloc` is not in the log
abbrev pub ask_pool : Settings → State → State
ask_pool w s =
    if s.raw.malloc_set
    then log_raw (RawCall.raw_malloc (mul64 w.want_pool_entries entry_bytes)) s
    else s

-- The bucket array: zeroed, or the one that is there where `raw_calloc` is not set, or none.
pub new_buckets : Boot → State → List Chain
new_buckets b s =
    let zeroed : List Chain = replicate buckets_default [] in
    if b.raw_calloc_set && b.buckets_by_calloc
    then zeroed
    else if not b.raw_calloc_set && not (no_buckets s)
    then s.buckets
    else if b.buckets_by_bootstrap
    then zeroed
    else []

-- the state that phase 2 makes
pub started : Settings → Boot → List Chain → State → State
unfolding make_pool reset_counters
started w b buckets s =
    let asked = ask_pool w s in
    record asked {
      buckets = buckets;
      bucket_count = buckets_default;
      hash_seed = bit_xor (bit_xor b.now (b.pid * 2 ^ 16 % word)) fibonacci;
      pool = make_pool b s.raw w.want_pool_entries;
      counters = reset_counters s.counters;
      sampler = new_sampler w;
      initialized = true;
      disabled = w.want_disabled || b.exe_blacklisted;
      leak_threshold_sec = w.want_leak_threshold;
      startup_until = if ltb 0 w.want_skip_startup then b.now + w.want_skip_startup else 0;
    }

-- no table: tracking stays off for good
abbrev pub unstarted : State → State
unstarted s = record s {
  buckets = [];
  bucket_count = buckets_default;
  disabled = true;
  initialized = true;
}

-- `mtt_ensure_init`
unfoldable pub ensure_init : Environment → Boot → State → State
unfolding started read_settings new_buckets
ensure_init env b s =
    let buckets = new_buckets b s in
    if s.initialized
    then s
    else if length buckets == 0
    then unstarted s
    else started (read_settings env) b buckets s
