-- ===== src/Hooks.antt =====
-- src/hooks.c: the functions that LD_PRELOAD puts in libc's place.
-- They start where `mtt_resolve_raw_allocators` and `mtt_ensure_init` would return at once, so
-- that the state is there. `ctx` is what `mtt_thread_get_cached` gives, nothing if no slot is free.
pub mod Keeps
pub mod Resize
pub mod Effect
pub mod Pair
pub mod Again
use memory_trace_tool.Base.{
  ℕ, ◌+◌, ◌-◌, ◌*◌, ◌/◌, Bool, true, false, not, ◌||◌, ◌&&◌, Option, none, some, if◌then◌else◌,
  ◌==◌, ltb, leb, mul64, word,
}
use memory_trace_tool.State.{Entry, Counters, State, RawCall, null}
use memory_trace_tool.Table.{Env, log_raw, entry_find, entry_new, pool_contains, is_over_capacity}
use memory_trace_tool.Sampling.{should_track, is_startup_phase}
use memory_trace_tool.Threads.{Thread, hook_enter, is_recursive, hook_begin, hook_end}
use memory_trace_tool.Blacklist.{FastBlacklist, is_lr_in_blacklist}
use memory_trace_tool.Books.{
  count_free, count_moved, count_lifetime, forget, insert, record_block, with_counters,
}
use memory_trace_tool.Api.{user_malloc}

-- The blacklist and two return addresses: the one that the hook called from outside sees, and
-- the one that a hook sees when another hook of the tool calls it.
pub record Caller : Type 0 where
  pub blacklist : FastBlacklist
  pub lr : ℕ
  pub own_lr : ℕ

-- MTT_LR_IN_BLACKLIST
abbrev pub lr_in_blacklist : Caller → Bool
lr_in_blacklist c = is_lr_in_blacklist c.blacklist c.lr

-- the caller's view of a call made from inside a hook
abbrev pub from_hook : Caller → Caller
from_hook c = record c { lr = c.own_lr }

-- `(raw_malloc != NULL) ? raw_malloc(size) : NULL`
abbrev pub pass_malloc : Env → State → ℕ → ℕ × State
pass_malloc env s size = if s.raw.malloc_set then user_malloc env s size else (null, s)

-- `if (raw_free != NULL) raw_free(ptr)`
abbrev pub pass_free : State → ℕ → State
pass_free s ptr = if s.raw.free_set then log_raw (RawCall.raw_free ptr) s else s

-- `mtt_should_track` and `mtt_is_over_capacity`: the hook runs both before it looks at either.
pub admit : State → ℕ → Bool × State
admit s size =
    let (tracked, sampler) = should_track s.sampler size in
    let (over, s') = is_over_capacity (record s { sampler = sampler }) in (tracked && not over, s')

-- the record for a block, if the sampler and the capacity admit it
pub record_admitted : Env → Bool × State → ℕ → ℕ → State
record_admitted env (go, s) ptr size = if go then record_block false env s ptr size else s

-- the hook of `malloc` where the tool is tracking
pub malloc_tracked : Env → State → ℕ → ℕ × State
unfolding admit record_admitted
malloc_tracked env s size =
    let (ptr, s') = user_malloc env s size in
    if ptr == null then (null, s') else (ptr, record_admitted env (admit s' size) ptr size)

-- the calls of `malloc` that are passed on as they are
abbrev pub passes : Env → State → ℕ → Bool
passes env s size = size == 0 || is_startup_phase env.now s || s.disabled

-- calls from a blacklisted library, and from the tool's own threads
abbrev pub is_exempt : Caller → Thread → Bool
is_exempt c t = lr_in_blacklist c || not (t.tool_internal == 0)

-- the hook of `malloc` between `mtt_hook_inc_depth` and `mtt_hook_dec_depth`
pub malloc_body : Env → Caller → Thread → State → ℕ → ℕ × State
unfolding malloc_tracked
malloc_body env c t s size =
    if is_exempt c t
    then pass_malloc env s size
    else if not s.raw.malloc_set
    then (null, s)
    else if passes env s size
    then user_malloc env s size
    else malloc_tracked env s size

-- What a hook leaves: its result, the caller's slot, and the state.
abbrev pub Outcome : Type 0
Outcome = ℕ × Option Thread × State

-- a hook's body between the changes to the slot
pub bracket : Thread → ℕ × State → Outcome
bracket t (ptr, s) = (ptr, some (hook_end t.in_hook (hook_begin t)), s)

-- `malloc`
unfoldable pub malloc : Env → Caller → Option Thread → State → ℕ → Outcome
unfolding malloc_body bracket
malloc env c none s size = let (p, s') = pass_malloc env s size in (p, none, s')
malloc env c (some t₀) s size =
    let t = hook_enter t₀ in
    if is_recursive t
    then (let (p, s') = pass_malloc env s size in (p, some t, s'))
    else bracket t (malloc_body env c t s size)

-- how the hook of `free` counts a record out
abbrev pub count_freed : ℕ → ℕ → Entry → Counters → Counters
count_freed now threshold e k = count_lifetime now threshold e.timestamp (count_free e.size k)

-- the hook of `free` inside the slot's changes
pub free_body : Env → Caller → Thread → State → ℕ → State
free_body env c t s ptr =
    if is_exempt c t
    then pass_free s ptr
    else if not s.raw.free_set
    then s
    else if s.disabled
    then log_raw (RawCall.raw_free ptr) s
    else log_raw (RawCall.raw_free ptr) (forget (count_freed env.now s.leak_threshold_sec) s ptr)

-- `free` past the test for the tool's own pool
pub free_by : Env → Caller → Option Thread → State → ℕ → Option Thread × State
unfolding free_body
free_by env c none s ptr = (none, pass_free s ptr)
free_by env c (some t₀) s ptr =
    let t = hook_enter t₀ in
    if is_recursive t
    then (some t, pass_free s ptr)
    else (some (hook_end t.in_hook (hook_begin t)), free_body env c t s ptr)

-- `free`
unfoldable pub free : Env → Caller → Option Thread → State → ℕ → Option Thread × State
unfolding free_by
free env c ctx s ptr =
    if ptr == null || pool_contains s ptr then (ctx, s) else free_by env c ctx s ptr

-- `count > 0 && size > SIZE_MAX / count`
abbrev pub product_overflows : ℕ → ℕ → Bool
product_overflows count size = ltb 0 count && ltb ((word - 1) / count) size

-- `calloc` where it does not track
pub calloc_through : Env → State → ℕ → ℕ → ℕ × State
calloc_through env s count size =
    if not s.raw.malloc_set || product_overflows count size
    then (null, s)
    else user_malloc env s (mul64 count size)

-- `calloc`; the zeroing of the block is outside the model
unfoldable pub calloc : Env → Caller → Option Thread → State → ℕ → ℕ → Outcome
unfolding malloc calloc_through
calloc env c none s count size = let (p, s') = calloc_through env s count size in (p, none, s')
calloc env c (some t₀) s count size =
    let t = hook_enter t₀ in
    if is_recursive t || not (t.tool_internal == 0)
    then (let (p, s') = calloc_through env s count size in (p, some t, s'))
    else if product_overflows count size
    then (null, some t, s)
    else if lr_in_blacklist c
    then (let (p, s') = pass_malloc env s (mul64 count size) in (p, some t, s'))
    else malloc env (from_hook c) (some t) s (mul64 count size)

-- `realloc` where it does not track
pub realloc_through : Env → State → ℕ → ℕ → ℕ × State
realloc_through env s ptr size =
    if s.raw.realloc_set
    then (env.moved_block, log_raw (RawCall.raw_realloc ptr size) s)
    else (let (new_ptr, s') = pass_malloc env s size in
        if new_ptr == null then (null, s') else (new_ptr, pass_free s' ptr))

-- `realloc` through `raw_realloc`: the old record, if there is one, gives way to a new one.
pub realloc_tracked : Env → State → ℕ → ℕ → ℕ × State
realloc_tracked env s ptr size =
    let s' = log_raw (RawCall.raw_realloc ptr size) s in
    if env.moved_block == null then (null, s') else elim (entry_find s ptr) [
      | none ↦ (env.moved_block, s')
      | some _ ↦
          let (over, s'') = is_over_capacity (forget (λ e. count_moved e.size) s' ptr) in
          (env.moved_block, (if over then s'' else record_block false env s'' env.moved_block size))
    ]

-- `realloc` without `raw_realloc`; the copy of the bytes is outside the model
pub realloc_by_copy : Env → State → ℕ → ℕ → ℕ × State
realloc_by_copy env s ptr size =
    let (new_ptr, s₁) = user_malloc env s size in
    if new_ptr == null
    then (null, s₁)
    else (let (made, s₂) = entry_new env s₁ new_ptr size in
        elim made [
          | none ↦ (null, log_raw (RawCall.raw_free new_ptr) s₂)
          | some e ↦
              let s₃ = insert false (forget (λ old. count_free old.size) s₂ ptr) e in
              (new_ptr, log_raw (RawCall.raw_free ptr) s₃)
        ])

-- the hook of `realloc` inside the slot's changes
pub realloc_body : Env → Caller → Thread → State → ℕ → ℕ → ℕ × State
unfolding realloc_through realloc_tracked realloc_by_copy
realloc_body env c t s ptr size =
    if is_exempt c t
    then realloc_through env s ptr size
    else if not s.raw.malloc_set
    then (null, s)
    else if s.disabled
    then realloc_through env s ptr size
    else if s.raw.realloc_set
    then realloc_tracked env s ptr size
    else realloc_by_copy env s ptr size

-- `realloc` of a block that is there, to a size that is not 0
pub realloc_block : Env → Caller → Option Thread → State → ℕ → ℕ → Outcome
unfolding realloc_body realloc_through bracket
realloc_block env c none s ptr size = let (p, s') = realloc_through env s ptr size in (p, none, s')
realloc_block env c (some t₀) s ptr size =
    let t = hook_enter t₀ in
    if is_recursive t
    then (let (p, s') = realloc_through env s ptr size in (p, some t, s'))
    else bracket t (realloc_body env c t s ptr size)

-- `realloc`
unfoldable pub realloc : Env → Caller → Option Thread → State → ℕ → ℕ → Outcome
unfolding malloc free realloc_block
realloc env c ctx s ptr size =
    if ptr == null
    then malloc env (from_hook c) ctx s size
    else if size == 0
    then (let (ctx', s') = free env (from_hook c) ctx s ptr in (null, ctx', s'))
    else realloc_block env c ctx s ptr size

-- `reallocarray`; the error number is outside the model
unfoldable pub reallocarray : Env → Caller → Option Thread → State → ℕ → ℕ → ℕ → Outcome
unfolding realloc
reallocarray env c ctx s ptr nmemb size =
    if product_overflows nmemb size
    then (null, ctx, s)
    else if lr_in_blacklist c && s.raw.realloc_set
    then (env.moved_block, ctx, log_raw (RawCall.raw_realloc ptr (mul64 nmemb size)) s)
    else realloc env (from_hook c) ctx s ptr (mul64 nmemb size)
