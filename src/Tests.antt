-- ===== src/Tests.antt =====
-- States, records and callers that the tests and the examples share.
mod Tables
mod Starts
mod Threading
mod Lookups
mod Pages
mod Addresses
mod Supplies
mod Resolving
use memory_trace_tool.Base.{ℕ, Bool, true, false, List, [], ◌∷◌, Option, none, some, ℤ}
use memory_trace_tool.State.{Entry, Chain, Pool, Counters, Sampler, Raw, State}
use memory_trace_tool.Table.{Env}
use memory_trace_tool.Threads.{Thread}
use memory_trace_tool.Blacklist.{FastBlacklist, AddrRange}
use memory_trace_tool.Hooks.{Caller}
use memory_trace_tool.Startup.{Environment, Boot}

abbrev pub no_counts : Counters
no_counts = record {
  alloc_seq = 0;
  alloc_count = 0;
  free_count = 0;
  current_bytes = 0;
  peak_bytes = 0;
  total_bytes = 0;
  leak_bytes_total = 0;
  entry_count = 0;
  skipped_overcap = 0;
  peak_updated = false;
  temp_alloc_count = 0;
  expired_alloc_count = 0;
  free_expired_count = 0;
}

abbrev pub record_at : ℕ → ℕ → Entry
record_at ptr size = record {
  addr = 9000;
  ptr = ptr;
  size = size;
  timestamp = 7;
  alloc_num = 1;
  stack = [];
}

-- Four buckets in fallback mode, whose chains a test gives; the seed is 0.
abbrev pub small : List Chain → Counters → State
small buckets counters = record {
  buckets = buckets;
  bucket_count = 4;
  hash_seed = 0;
  pool = record { base = 0; free_lists = []; capacity = 0; raw_size = 0; used = 0 };
  counters = counters;
  sampler = record {
    sample_period = 0;
    sample_counter = 0;
    sample_rate = 0;
    sample_bytes_accum = 0;
    skipped_sampled = 0;
  };
  raw = record {
    malloc_set = true;
    free_set = true;
    realloc_set = true;
    memalign_set = true;
    calls = [];
  };
  initialized = true;
  disabled = false;
  leak_threshold_sec = 300;
  startup_until = 0;
}

abbrev pub vacant : State
vacant = small ([] ∷ [] ∷ [] ∷ [] ∷ []) no_counts

-- One record, for 24 bytes at 8, which lie in bucket 1.
abbrev pub one_record : State
one_record =
    small ([] ∷ (record_at 8 24 ∷ []) ∷ [] ∷ [] ∷ [])
      (record no_counts { alloc_count = 1; current_bytes = 24; entry_count = 1 })

abbrev pub env : Env
env = record {
  now = 1000;
  captured = 4096 ∷ 8192 ∷ [];
  busy = λ _. false;
  entry_block = 9000;
  user_block = 4000;
  moved_block = 5000;
}

-- one library on the blacklist, and a caller outside it
abbrev pub outsider : Caller
outsider = record {
  blacklist = record { enabled = true; ranges = record { start = 100; end = 200 } ∷ [] };
  lr = 5;
  own_lr = 6;
}

abbrev pub insider : Caller
insider = record outsider { lr = 150 }

-- Nothing set but the size of the pool.
abbrev pub settings : Environment
settings = record {
  disable_is_1 = false;
  sample = none;
  sample_rate = none;
  pool_entries = some (ℤ.pos 1024);
  leak_threshold = some (ℤ.negsuc 0);
  skip_startup = none;
}

abbrev pub boot : Boot
boot = record {
  now = 50;
  pid = 1;
  raw_calloc_set = true;
  buckets_by_calloc = true;
  buckets_by_bootstrap = true;
  pool_by_malloc = 100000;
  pool_by_calloc = 0;
  exe_blacklisted = false;
}

-- the state before the first call
abbrev pub unborn : State
unborn = record (small [] no_counts) { initialized = false; bucket_count = 0 }
