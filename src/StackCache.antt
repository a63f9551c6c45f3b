-- ===== src/StackCache.antt =====
-- src/stack_cache.c: the cache of stacks, and the cache of symbols by address. The hash of a stack
-- is in a child.
mod Hash
pub mod Symbols
pub mod Stacks
pub mod Spots
pub mod Frames
unfoldable pub use Hash.*
use memory_trace_tool.Base.{
  ℕ, zero, suc, ◌+◌, ◌-◌, ◌*◌, ◌/◌, ◌%◌, ◌^◌, Bool, true, false, not, ◌&&◌, ◌||◌, Option, none,
  some, List, [], ◌∷◌, if◌then◌else◌, ◌==◌, ltb, leb, length, get_or, set, take, drop, map, add64,
  sub64, mul64, word, bit_and, bit_or, bit_xor,
}
use memory_trace_tool.State.{null, fibonacci}
use memory_trace_tool.Ranges.{fix_thumb_addr}

-- `mtt_stack_entry_t` without what the symbols need
pub record StackEntry : Type 0 where
  pub hash : ℕ
  pub frames : List ℕ
  pub is_resolved : Bool

-- MTT_STACK_CACHE_SIZE
abbrev pub stack_cache_size : ℕ
stack_cache_size = 4096

-- `mtt_stack_cache_t`, a chain of entries for each bucket
pub record StackCache : Type 0 where
  pub entries : List (List StackEntry)
  pub count : ℕ

-- the comparison of the frames, one by one
pub same_frames : List ℕ → List ℕ → Bool
same_frames [] [] = true
same_frames [] (g ∷ gs) = false
same_frames (f ∷ fs) [] = false
same_frames (f ∷ fs) (g ∷ gs) = (f == fix_thumb_addr g) && same_frames fs gs

pub find_stack : ℕ → List ℕ → List StackEntry → Option StackEntry
unfolding same_frames
find_stack hash frames [] = none
find_stack hash frames (e ∷ chain) =
    if e.hash == hash && same_frames e.frames frames then some e else find_stack hash frames chain

pub new_stack : ℕ → List ℕ → StackEntry
new_stack hash frames = record {
  hash = hash;
  frames = map fix_thumb_addr frames;
  is_resolved = false;
}

-- the search and the insertion, for frames of the hash `hash`
pub lookup_hashed : ℕ → Bool → List ℕ → StackCache → Option StackEntry × StackCache
unfolding find_stack new_stack
lookup_hashed hash given frames cache =
    let bucket = bit_and hash (stack_cache_size - 1) in
    let chain = get_or cache.entries bucket [] in
    elim (find_stack hash frames chain) [
      | some e ↦ (some e, cache)
      | none ↦ if leb stack_cache_size cache.count || not given then (none, cache) else (
        some (new_stack hash frames),
        record cache {
          entries = set cache.entries bucket (new_stack hash frames ∷ chain);
          count = add64 cache.count 1;
        },
      )
    ]

-- `mtt_stack_cache_lookup`; `given` says whether `raw_malloc` has room for an entry
unfoldable pub stack_cache_lookup : Bool → List ℕ → StackCache → Option StackEntry × StackCache
unfolding lookup_hashed stack_hash_compute
stack_cache_lookup given frames cache =
    if length frames == 0
    then (none, cache)
    else lookup_hashed (stack_hash_compute frames) given frames cache

-- `addr_cache_entry_t`; a symbol is a list of bytes without the final NUL
pub record AddrEntry : Type 0 where
  pub addr : ℕ
  pub symbol : List ℕ

abbrev pub no_addr : AddrEntry
no_addr = record { addr = 0; symbol = [] }

-- ADDR_CACHE_BUCKETS, MTT_SYMBOL_MAX
abbrev pub addr_cache_buckets : ℕ
addr_cache_buckets = 512

abbrev pub symbol_max : ℕ
symbol_max = 256

abbrev pub addr_bucket : ℕ → ℕ
addr_bucket addr = bit_and (mul64 (addr / 8) fibonacci) (addr_cache_buckets - 1)

-- the search for `addr` in `left` slots from the `i`th probe on
pub probe_own : ℕ → List AddrEntry → ℕ → ℕ → ℕ → Option ℕ
probe_own addr entries bucket i zero = none
probe_own addr entries bucket i (suc left) =
    let idx = bit_and (bucket + i) (addr_cache_buckets - 1) in
    let rest = probe_own addr entries bucket (i + 1) left in
    if (get_or entries idx no_addr).addr == addr then some idx else rest

-- the search for a slot that is free or holds `addr`
pub probe_place : ℕ → List AddrEntry → ℕ → ℕ → ℕ → Option ℕ
probe_place addr entries bucket i zero = none
probe_place addr entries bucket i (suc left) =
    let idx = bit_and (bucket + i) (addr_cache_buckets - 1) in
    let rest = probe_place addr entries bucket (i + 1) left in
    let held = (get_or entries idx no_addr).addr in
    if held == null || held == addr then some idx else rest

-- `addr_cache_lookup`, with `out_size` bytes of room for the copy and its NUL
unfoldable pub addr_cache_lookup : ℕ → ℕ → List AddrEntry → Option (List ℕ)
unfolding probe_own
addr_cache_lookup addr out_size entries =
    if addr == null || out_size == 0
    then none
    else elim (probe_own addr entries (addr_bucket addr) 0 4) [
      | none ↦ none
      | some idx ↦ some (take (out_size - 1) (get_or entries idx no_addr).symbol)
    ]

-- `addr_cache_insert`
unfoldable pub addr_cache_insert : ℕ → List ℕ → List AddrEntry → List AddrEntry
unfolding probe_place
addr_cache_insert addr symbol entries =
    let kept : AddrEntry = record { addr = addr; symbol = take (symbol_max - 1) symbol } in
    if addr == null then entries else elim (probe_place addr entries (addr_bucket addr) 0 4) [
      | some idx ↦ set entries idx kept
      | none ↦ set entries (addr_bucket addr) kept
    ]
