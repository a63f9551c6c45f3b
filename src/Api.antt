-- ===== src/Api.antt =====
-- src/tracker.c: `mtt_malloc`, `mtt_free`, `mtt_calloc`, `mtt_realloc` and the statistics.
-- They start where `mtt_resolve_raw_allocators` and `mtt_ensure_init` have returned.
-- A result is the pointer, NULL or not, and the new state; what libc returns is in `Env`.
pub mod Keeps
pub mod Resize
pub mod Effect
use memory_trace_tool.Base.{
  ℕ, ◌+◌, ◌-◌, ◌*◌, ◌/◌, Bool, true, false, not, ◌||◌, ◌&&◌, Option, none, some, if◌then◌else◌,
  ◌==◌, ltb, leb, add64, sub64, mul64, word,
}
use memory_trace_tool.State.{Entry, State, RawCall, null, max_entries}
use memory_trace_tool.Table.{
  Env, log_raw, entry_find, entry_remove, entry_add, entry_discard, entry_new, is_over_capacity,
}
use memory_trace_tool.Sampling.{should_track, is_startup_phase}
use memory_trace_tool.Books.{count_free, forget, insert, record_block, with_counters}

-- `raw_malloc(size)` and its result
abbrev pub user_malloc : Env → State → ℕ → ℕ × State
user_malloc env s size = (env.user_block, log_raw (RawCall.raw_malloc size) s)

-- `!mtt_should_track(s, size) || mtt_is_over_capacity(s)`: the second runs only if the first
-- says to record. The Boolean says whether to go on.
pub admit : State → ℕ → Bool × State
admit s size =
    let (tracked, sampler) = should_track s.sampler size in
    let s' = record s { sampler = sampler } in
    if tracked then (let (over, s'') = is_over_capacity s' in (not over, s'')) else (false, s')

-- the record for a block, if the sampler and the capacity admit it
pub record_admitted : Env → Bool × State → ℕ → ℕ → State
record_admitted env (go, s) ptr size = if go then record_block true env s ptr size else s

-- `mtt_malloc` where the tool is tracking
pub malloc_tracked : Env → State → ℕ → ℕ × State
unfolding admit record_admitted
malloc_tracked env s size =
    let (ptr, s') = user_malloc env s size in
    if ptr == null then (null, s') else (ptr, record_admitted env (admit s' size) ptr size)

-- the calls of `mtt_malloc` that are passed on as they are
abbrev pub passes : Env → State → ℕ → Bool
passes env s size = size == 0 || s.disabled || is_startup_phase env.now s

-- `mtt_malloc`
unfoldable pub malloc : Env → State → ℕ → ℕ × State
unfolding malloc_tracked
malloc env s size =
    if not s.raw.malloc_set
    then (null, s)
    else if passes env s size
    then user_malloc env s size
    else malloc_tracked env s size

-- `mtt_free`
unfoldable pub free : State → ℕ → State
free s ptr =
    if ptr == null || not s.raw.free_set
    then s
    else if s.disabled
    then log_raw (RawCall.raw_free ptr) s
    else log_raw (RawCall.raw_free ptr) (forget (λ e. count_free e.size) s ptr)

-- `mtt_calloc`; the zeroing of the block is outside the model
unfoldable pub calloc : Env → State → ℕ → ℕ → ℕ × State
unfolding malloc
calloc env s count size =
    if ltb 0 count && ltb ((word - 1) / count) size
    then (null, s)
    else malloc env s (mul64 count size)

-- `mtt_realloc` where tracking is off
pub realloc_untracked : Env → State → ℕ → ℕ → ℕ × State
realloc_untracked env s ptr size =
    if s.raw.realloc_set
    then (env.moved_block, log_raw (RawCall.raw_realloc ptr size) s)
    else (let (new_ptr, s') = user_malloc env s size in
        if new_ptr == null then (null, s') else (new_ptr, log_raw (RawCall.raw_free ptr) s'))

-- `mtt_realloc` through `raw_realloc`
pub realloc_tracked : Env → State → ℕ → ℕ → ℕ × State
realloc_tracked env s ptr size =
    let old = entry_find s ptr in
    let s' = log_raw (RawCall.raw_realloc ptr size) s in
    if env.moved_block == null then (null, s') else elim old [
      | none ↦ (env.moved_block, s')
      | some _ ↦
          let removed = forget (λ e. count_free e.size) s' ptr in
          let (over, s'') = is_over_capacity removed in
          (env.moved_block, (if over then s'' else record_block true env s'' env.moved_block size))
    ]

-- `mtt_realloc` without `raw_realloc`: a new block and record first, then the old record goes.
-- The copy of the bytes is outside the model.
pub realloc_by_copy : Env → State → ℕ → ℕ → ℕ × State
realloc_by_copy env s ptr size =
    let (new_ptr, s₁) = user_malloc env s size in
    if new_ptr == null
    then (null, s₁)
    else (let (made, s₂) = entry_new env s₁ new_ptr size in
        elim made [
          | none ↦ (null, log_raw (RawCall.raw_free new_ptr) s₂)
          | some e ↦
              let s₃ = insert true (forget (λ old. count_free old.size) s₂ ptr) e in
              (new_ptr, log_raw (RawCall.raw_free ptr) s₃)
        ])

-- `mtt_realloc`
unfoldable pub realloc : Env → State → ℕ → ℕ → ℕ × State
unfolding malloc free realloc_untracked realloc_tracked realloc_by_copy
realloc env s ptr size =
    if ptr == null
    then malloc env s size
    else if size == 0
    then (null, free s ptr)
    else if not s.raw.malloc_set
    then (null, s)
    else if s.disabled
    then realloc_untracked env s ptr size
    else if s.raw.realloc_set
    then realloc_tracked env s ptr size
    else realloc_by_copy env s ptr size

-- `mtt_get_leak_count`
unfoldable pub get_leak_count : State → ℕ
get_leak_count s =
    let a = s.counters.alloc_count in
    let f = s.counters.free_count in if ltb f a then sub64 a f else 0
