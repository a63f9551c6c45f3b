-- ===== src/State.antt =====
-- src/mtt_internal.h: the records `mtt_entry_t` and `mtt_state_t`, and the hash of a pointer.
-- A pointer is a number and NULL is 0. The state's fields are grouped by what they serve.
mod Hash
unfoldable pub use Hash.*
use memory_trace_tool.Base.{ℕ, ◌^◌, ◌+◌, ◌≡◌, Bool, List, length}

abbrev pub null : ℕ
null = 0

-- MTT_MAX_ENTRIES, MTT_LOCK_STRIPES, MTT_STACK_DEPTH
abbrev pub max_entries : ℕ
max_entries = 131072

abbrev pub lock_stripes : ℕ
lock_stripes = 64

abbrev pub stack_depth : ℕ
stack_depth = 64

-- `mtt_entry_t`. `addr` is where the record itself lies; `stack` holds the first
-- `stack_frames` words of the array, the rest of which is zero.
pub record Entry : Type 0 where
  pub addr : ℕ
  pub ptr : ℕ
  pub size : ℕ
  pub timestamp : ℕ
  pub alloc_num : ℕ
  pub stack : List ℕ

-- A bucket's list, following `next`.
abbrev pub Chain : Type 0
Chain = List Entry

-- The entry pool: `base` is NULL in fallback mode, a free list is the addresses along `next`.
pub record Pool : Type 0 where
  pub base : ℕ
  pub free_lists : List (List ℕ)
  pub capacity : ℕ
  pub raw_size : ℕ
  pub used : ℕ

-- The atomic counters, each a 64-bit word. `peak_updated` is the flag that wakes the reporter.
pub record Counters : Type 0 where
  pub alloc_seq : ℕ
  pub alloc_count : ℕ
  pub free_count : ℕ
  pub current_bytes : ℕ
  pub peak_bytes : ℕ
  pub total_bytes : ℕ
  pub leak_bytes_total : ℕ
  pub entry_count : ℕ
  pub skipped_overcap : ℕ
  pub peak_updated : Bool
  pub temp_alloc_count : ℕ
  pub expired_alloc_count : ℕ
  pub free_expired_count : ℕ

-- The sampling fields.
pub record Sampler : Type 0 where
  pub sample_period : ℕ
  pub sample_counter : ℕ
  pub sample_rate : ℕ
  pub sample_bytes_accum : ℕ
  pub skipped_sampled : ℕ

-- A call of libc's allocator. The log is the trace by which theorems speak of what is released.
pub data RawCall : Type 0 where
  raw_malloc : ℕ → RawCall
  raw_free : ℕ → RawCall
  raw_realloc : ℕ → ℕ → RawCall
  raw_memalign : ℕ → ℕ → RawCall

-- The `raw_*` function pointers: which are set (`memalign_set` is that of `raw_posix_memalign`),
-- and the calls made through them, newest first.
pub record Raw : Type 0 where
  pub malloc_set : Bool
  pub free_set : Bool
  pub realloc_set : Bool
  pub memalign_set : Bool
  pub calls : List RawCall

-- `mtt_state_t`; `buckets` is empty where the code's pointer is NULL.
pub record State : Type 0 where
  pub buckets : List Chain
  pub bucket_count : ℕ
  pub hash_seed : ℕ
  pub pool : Pool
  pub counters : Counters
  pub sampler : Sampler
  pub raw : Raw
  pub initialized : Bool
  pub disabled : Bool
  pub leak_threshold_sec : ℕ
  pub startup_until : ℕ
