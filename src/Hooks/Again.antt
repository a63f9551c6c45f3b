-- ===== src/Hooks/Again.antt =====
-- src/hooks.c: a block that a blacklisted library frees, and that libc hands out again.
use memory_trace_tool.Base.{
  ℕ, ◌<◌, ◌≡◌, ◌≢◌, ◌∙◌, ap, refl, Bool, true, false, not, some, if◌then◌else◌, ◌==◌, arith, leb,
}
use memory_trace_tool.State.{State, RawCall, null, max_entries}
use memory_trace_tool.Table.{Env, log_raw, pool_contains, is_over_capacity}
use memory_trace_tool.Table.Records.{records}
use memory_trace_tool.Table.Accounts.{IsConsistent, log_raw-IsConsistent, resample-IsConsistent}
use memory_trace_tool.Sampling.{should_track, is_startup_phase}
use memory_trace_tool.Threads.{Thread, hook_enter, is_recursive}
use memory_trace_tool.Api.{user_malloc}
use memory_trace_tool.Hooks.{
  Caller, lr_in_blacklist, admit, record_admitted, malloc_tracked, passes, is_exempt, malloc_body,
  bracket, malloc, free, pass_malloc,
}
use memory_trace_tool.Hooks.Effect.{free-blacklisted}
use memory_trace_tool.Books.Push.{HasSupply, IsPushed, record_block-IsPushed, IsPushed-over}

malloc_tracked-IsPushed :
    (env : Env) (s : State) (size : ℕ)
    → IsConsistent 0 s
    → env.user_block ≢ null
    → (should_track s.sampler size).0 ≡ true
    → s.counters.entry_count < max_entries
    → HasSupply env s
    → IsPushed env s env.user_block size (malloc_tracked env s size).1
unfolding malloc_tracked admit record_admitted is_over_capacity
malloc_tracked-IsPushed env s size c some_block sampled room supply =
    let asked = log_raw (RawCall.raw_malloc size) s in
    let s₀ = record asked { sampler = (should_track s.sampler size).1 } in
    let there : (env.user_block == null) ≡ false = ground arith in
    let under : leb max_entries s.counters.entry_count ≡ false = ground arith in
    rw (there, under, sampled)
      (IsPushed-over env s s₀ env.user_block size _ (λ q. unfold records in refl)
        (record_block-IsPushed env s₀ env.user_block size
          (resample-IsConsistent (should_track s.sampler size).1 (log_raw-IsConsistent _ c)) supply
          room))

malloc_body-tracked :
    (env : Env) (c : Caller) (slot : Thread) (s : State) (size : ℕ)
    → is_exempt c slot ≡ false
    → s.raw.malloc_set ≡ true
    → passes env s size ≡ false
    → malloc_body env c slot s size ≡ malloc_tracked env s size
unfolding malloc_body
malloc_body-tracked env c slot s size known set tracking =
    let passed : Bool → ℕ × State =
      λ b. if b then user_malloc env s size else malloc_tracked env s size in
    ap
      (λ b.
        if b
        then pass_malloc env s size
        else if not s.raw.malloc_set
        then (null, s)
        else passed (passes env s size))
      known
    ∙ ap (λ b. if not b then (null, s) else passed (passes env s size)) set
    ∙ ap passed tracking

-- From a state in order, for a caller that is not exempt, whose thread is in no hook, and for a
-- size that is tracked and sampled, while a record is to be had and there are fewer than
-- MTT_MAX_ENTRIES of them: the hook of malloc puts one record for the block on top of those that
-- the block has, and leaves the records of every other pointer.
pub malloc-IsPushed :
    (env : Env) (c : Caller) (t : Thread) (s : State) (size : ℕ)
    → IsConsistent 0 s
    → is_recursive (hook_enter t) ≡ false
    → is_exempt c (hook_enter t) ≡ false
    → s.raw.malloc_set ≡ true
    → passes env s size ≡ false
    → env.user_block ≢ null
    → (should_track s.sampler size).0 ≡ true
    → s.counters.entry_count < max_entries
    → HasSupply env s
    → IsPushed env s env.user_block size (malloc env c (some t) s size).2
unfolding malloc bracket
malloc-IsPushed env c t s size consistent idle known set tracking some_block sampled room supply =
    rw (idle, malloc_body-tracked env c (hook_enter t) s size known set tracking)
      (malloc_tracked-IsPushed env s size consistent some_block sampled room supply)

-- From a state in order, where libc's malloc and free are known: a block outside the tool's pool
-- is freed from a blacklisted library, and libc gives the same block, which is not NULL, to the
-- hook of malloc for a caller that is not exempt, whose thread is in no hook, and whose size is
-- tracked and sampled, while there are fewer than MTT_MAX_ENTRIES records and a record is to be
-- had from the pool or from libc. Then the records that the block had before it was freed are all
-- still there, with one more on top of them, of the new size and the new stack, and every other
-- pointer has the records that it had.
pub malloc-free_blacklisted :
    (env later : Env) (c c' : Caller) (t t' : Thread) (s : State) (size : ℕ)
    → IsConsistent 0 s
    → lr_in_blacklist c ≡ true
    → s.raw.free_set ≡ true
    → later.user_block ≢ null
    → pool_contains s later.user_block ≡ false
    → is_recursive (hook_enter t') ≡ false
    → is_exempt c' (hook_enter t') ≡ false
    → s.raw.malloc_set ≡ true
    → passes later s size ≡ false
    → (should_track s.sampler size).0 ≡ true
    → s.counters.entry_count < max_entries
    → HasSupply later s
    → IsPushed later s later.user_block size
        (malloc later c' (some t') (free env c (some t) s later.user_block).1 size).2
unfolding is_startup_phase
malloc-free_blacklisted env later c c' t t' s size consistent listed free_set some_block outside
      idle known set tracking sampled room supply =
    let p = later.user_block in
    let s₁ = log_raw (RawCall.raw_free p) s in
    rw (free-blacklisted env c t s p listed some_block outside free_set) (
      IsPushed-over later s s₁ p size _ (λ q. unfold records in refl)
        (malloc-IsPushed later c' t' s₁ size (log_raw-IsConsistent _ consistent) idle known set
          tracking some_block sampled room supply))
