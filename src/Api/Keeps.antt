-- ===== src/Api/Keeps.antt =====
-- The functions of the public interface keep the invariant of the tracking state.
use memory_trace_tool.Base.{
  ℕ, ◌+◌, ◌<◌, ◌≢◌, Bool, true, not, ◌||◌, if◌then◌else◌, ◌==◌, word, mul64, arith, if_elim,
}
use memory_trace_tool.State.{State, RawCall, null}
use memory_trace_tool.Table.{Env, log_raw}
use memory_trace_tool.Table.Nodes.{live_bytes}
use memory_trace_tool.Table.Accounts.{
  IsConsistent, Leaves, log_raw-IsConsistent, resample-IsConsistent,
}
use memory_trace_tool.Sampling.{should_track}
use memory_trace_tool.Books.{forget, record_block, count_free}
use memory_trace_tool.Books.Keeps.{
  record_block-IsConsistent, forget-IsConsistent, count_free-CountsOut,
  is_over_capacity-IsConsistent,
}
use memory_trace_tool.Api.{
  user_malloc, admit, record_admitted, malloc_tracked, passes, malloc, free, calloc,
}

-- A state in order, with room in the byte counter for `size` more.
abbrev pub Ready : ℕ → State → Type 0
Ready size s = IsConsistent 0 s × (live_bytes s + size < word)

admit-Ready : (s : State) (size : ℕ) → Ready size s → Ready size (admit s size).1
unfolding admit
admit-Ready s size (c, fits) =
    let (tracked, sampler) = should_track s.sampler size in
    let c' = resample-IsConsistent sampler c in
    let (c'', same) = is_over_capacity-IsConsistent (record s { sampler = sampler }) c' in
    if_elim (λ (r : Bool × State). Ready size r.1) _ _ _ (λ _. (c'', rw same fits))
      (λ _. (c', fits))

admitted-IsConsistent :
    (env : Env) (r : Bool × State) (ptr size : ℕ)
    → Ready size r.1
    → size ≢ 0
    → IsConsistent 0 (record_admitted env r ptr size)
unfolding record_admitted
admitted-IsConsistent env (go, s) ptr size (c, fits) some_bytes =
    if_elim (IsConsistent 0) go (record_block true env s ptr size) s
      (λ _. record_block-IsConsistent true env s ptr size c fits some_bytes) (λ _. c)

malloc_tracked-Leaves :
    (env : Env) (s : State) (size : ℕ)
    → Ready size s
    → size ≢ 0
    → Leaves (malloc_tracked env s size)
unfolding malloc_tracked
malloc_tracked-Leaves env s size (c, fits) some_bytes =
    let s' = log_raw (RawCall.raw_malloc size) s in
    let c' = log_raw-IsConsistent (RawCall.raw_malloc size) c in
    let p = env.user_block in
    if_elim Leaves (p == null) (null, s') (p, record_admitted env (admit s' size) p size)
      (λ _. (record { consistent = c' }))
      (λ _. (record {
        consistent =
            admitted-IsConsistent env (admit s' size) p size (admit-Ready s' size (c', fits))
              some_bytes;
      }))

-- `mtt_malloc` keeps the invariant, where the byte counter has room for the size.
pub malloc-Leaves : (env : Env) (s : State) (size : ℕ) → Ready size s → Leaves (malloc env s size)
unfolding malloc
malloc-Leaves env s size (c, fits) =
    let passed = user_malloc env s size in
    let tracked = malloc_tracked env s size in
    if_elim Leaves (not s.raw.malloc_set) (null, s) (if passes env s size then passed else tracked)
      (λ _. (record { consistent = c }))
      λ _.
        if_elim Leaves (passes env s size) passed tracked
          (λ _. (record { consistent = log_raw-IsConsistent _ c }))
          (λ go. malloc_tracked-Leaves env s size (c, fits) (ground arith))

pub forget_freed-IsConsistent :
    (s : State) (ptr : ℕ)
    → IsConsistent 0 s
    → IsConsistent 0 (forget (λ e. count_free e.size) s ptr)
forget_freed-IsConsistent s ptr c = forget-IsConsistent _ s ptr count_free-CountsOut c

-- `mtt_free` keeps the invariant.
pub free-IsConsistent : (s : State) (ptr : ℕ) → IsConsistent 0 s → IsConsistent 0 (free s ptr)
unfolding free
free-IsConsistent s ptr c =
    let passed = log_raw (RawCall.raw_free ptr) s in
    let forgotten = forget (λ e. count_free e.size) s ptr in
    if_elim (IsConsistent 0) (ptr == null || not s.raw.free_set) s
      (if s.disabled then passed else log_raw (RawCall.raw_free ptr) forgotten) (λ _. c)
      λ _.
        if_elim (IsConsistent 0) s.disabled passed (log_raw (RawCall.raw_free ptr) forgotten)
          (λ _. log_raw-IsConsistent _ c)
          (λ _. log_raw-IsConsistent _ (forget_freed-IsConsistent s ptr c))

-- `mtt_calloc` keeps the invariant, where the byte counter has room for the product.
pub calloc-Leaves :
    (env : Env) (s : State) (count size : ℕ)
    → Ready (mul64 count size) s
    → Leaves (calloc env s count size)
unfolding calloc
calloc-Leaves env s count size (c, fits) =
    if_elim Leaves _ (null, s) (malloc env s (mul64 count size)) (λ _. (record { consistent = c }))
      (λ _. malloc-Leaves env s (mul64 count size) (c, fits))
