-- ===== src/Hooks/Keeps.antt =====
-- The hooks keep the invariant of the tracking state, whatever the caller and its slot are.
use memory_trace_tool.Base.{
  ℕ, ◌≢◌, Bool, false, not, ◌||◌, Option, none, some, if◌then◌else◌, ◌==◌, mul64, arith, if_elim,
}
use memory_trace_tool.State.{State, RawCall, null}
use memory_trace_tool.Table.{Env, log_raw, pool_contains}
use memory_trace_tool.Table.Accounts.{
  IsConsistent, Leaves, log_raw-IsConsistent, resample-IsConsistent,
}
use memory_trace_tool.Sampling.{should_track}
use memory_trace_tool.Threads.{Thread, hook_enter, is_recursive, hook_begin, hook_end}
use memory_trace_tool.Books.{forget, record_block}
use memory_trace_tool.Books.Keeps.{
  record_block-IsConsistent, forget-IsConsistent, count_lifetime-CountsOut,
  is_over_capacity-IsConsistent,
}
use memory_trace_tool.Api.{user_malloc}
use memory_trace_tool.Api.Keeps.{Ready}
use memory_trace_tool.Hooks.{
  Caller, from_hook, lr_in_blacklist, pass_malloc, pass_free, admit, record_admitted,
  malloc_tracked, passes, is_exempt, malloc_body, Outcome, bracket, malloc, count_freed, free_body,
  free_by, free, product_overflows, calloc_through, calloc,
}

-- A hook leaves the state in order.
pub record Keeps (r : Outcome) : Type 0 where
  pub consistent : IsConsistent 0 r.2

user_malloc-IsConsistent :
    (env : Env) (s : State) (size : ℕ)
    → IsConsistent 0 s
    → IsConsistent 0 (user_malloc env s size).1
user_malloc-IsConsistent env s size c = log_raw-IsConsistent _ c

pub pass_malloc-Leaves :
    (env : Env) (s : State) (size : ℕ) → IsConsistent 0 s → Leaves (pass_malloc env s size)
pass_malloc-Leaves env s size c =
    if_elim Leaves s.raw.malloc_set (user_malloc env s size) (null, s)
      (λ _. (record { consistent = user_malloc-IsConsistent env s size c }))
      (λ _. (record { consistent = c }))

pub pass_free-IsConsistent :
    (s : State) (ptr : ℕ) → IsConsistent 0 s → IsConsistent 0 (pass_free s ptr)
pass_free-IsConsistent s ptr c =
    if_elim (IsConsistent 0) s.raw.free_set (log_raw (RawCall.raw_free ptr) s) s
      (λ _. log_raw-IsConsistent _ c) (λ _. c)

admit-Ready : (s : State) (size : ℕ) → Ready size s → Ready size (admit s size).1
unfolding admit
admit-Ready s size (c, fits) =
    let (tracked, sampler) = should_track s.sampler size in
    let c' = resample-IsConsistent sampler c in
    let (c'', same) = is_over_capacity-IsConsistent (record s { sampler = sampler }) c' in
    (c'', rw same fits)

admitted-IsConsistent :
    (env : Env) (r : Bool × State) (ptr size : ℕ)
    → Ready size r.1
    → size ≢ 0
    → IsConsistent 0 (record_admitted env r ptr size)
unfolding record_admitted
admitted-IsConsistent env (go, s) ptr size (c, fits) some_bytes =
    if_elim (IsConsistent 0) go (record_block false env s ptr size) s
      (λ _. record_block-IsConsistent false env s ptr size c fits some_bytes) (λ _. c)

malloc_tracked-Leaves :
    (env : Env) (s : State) (size : ℕ)
    → Ready size s
    → size ≢ 0
    → Leaves (malloc_tracked env s size)
unfolding malloc_tracked
malloc_tracked-Leaves env s size (c, fits) some_bytes =
    let s' = log_raw (RawCall.raw_malloc size) s in
    let c' = log_raw-IsConsistent (RawCall.raw_malloc size) c in
    let p = env.user_block in
    if_elim Leaves (p == null) (null, s') (p, record_admitted env (admit s' size) p size)
      (λ _. (record { consistent = c' }))
      (λ _. (record {
        consistent =
            admitted-IsConsistent env (admit s' size) p size (admit-Ready s' size (c', fits))
              some_bytes;
      }))

malloc_body-Leaves :
    (env : Env) (c : Caller) (t : Thread) (s : State) (size : ℕ)
    → Ready size s
    → Leaves (malloc_body env c t s size)
unfolding malloc_body
malloc_body-Leaves env c t s size (ok, fits) =
    let passed = user_malloc env s size in
    let tracked = malloc_tracked env s size in
    let known = if passes env s size then passed else tracked in
    if_elim Leaves (is_exempt c t) (pass_malloc env s size)
      (if not s.raw.malloc_set then (null, s) else known) (λ _. pass_malloc-Leaves env s size ok)
      λ _.
        if_elim Leaves (not s.raw.malloc_set) (null, s) known (λ _. (record { consistent = ok }))
          λ _.
            if_elim Leaves (passes env s size) passed tracked
              (λ _. (record { consistent = user_malloc-IsConsistent env s size ok }))
              (λ go. malloc_tracked-Leaves env s size (ok, fits) (ground arith))

pub bracket-Keeps : (t : Thread) (r : ℕ × State) → Leaves r → Keeps (bracket t r)
unfolding bracket
bracket-Keeps t (p, s) l = record { consistent = l.consistent }

-- A call that is passed on, with the slot as it is.
pub beside-Keeps :
    (t : Option Thread) (r : ℕ × State) → Leaves r → Keeps (let (p, s) = r in (p, t, s))
beside-Keeps t (p, s) l = record { consistent = l.consistent }

-- The hook of `malloc` keeps the invariant, where the byte counter has room for the size.
pub malloc-Keeps :
    (env : Env) (c : Caller) (ctx : Option Thread) (s : State) (size : ℕ)
    → Ready size s
    → Keeps (malloc env c ctx s size)
unfolding malloc
malloc-Keeps env c none s size (ok, _) =
    beside-Keeps none (pass_malloc env s size) (pass_malloc-Leaves env s size ok)
malloc-Keeps env c (some t₀) s size (ok, fits) =
    let t = hook_enter t₀ in
    let passed = pass_malloc env s size in
    if_elim Keeps (is_recursive t) (let (p, s') = passed in (p, some t, s'))
      (bracket t (malloc_body env c t s size))
      (λ _. beside-Keeps (some t) passed (pass_malloc-Leaves env s size ok))
      (λ _. bracket-Keeps t _ (malloc_body-Leaves env c t s size (ok, fits)))

free_body-IsConsistent :
    (env : Env) (c : Caller) (t : Thread) (s : State) (ptr : ℕ)
    → IsConsistent 0 s
    → IsConsistent 0 (free_body env c t s ptr)
unfolding free_body
free_body-IsConsistent env c t s ptr ok =
    let passed = log_raw (RawCall.raw_free ptr) s in
    let forgotten = forget (count_freed env.now s.leak_threshold_sec) s ptr in
    let live = if s.disabled then passed else log_raw (RawCall.raw_free ptr) forgotten in
    if_elim (IsConsistent 0) (is_exempt c t) (pass_free s ptr)
      (if not s.raw.free_set then s else live) (λ _. pass_free-IsConsistent s ptr ok)
      λ _.
        if_elim (IsConsistent 0) (not s.raw.free_set) s live (λ _. ok)
          λ _.
            if_elim (IsConsistent 0) s.disabled passed (log_raw (RawCall.raw_free ptr) forgotten)
              (λ _. log_raw-IsConsistent _ ok)
              λ _. log_raw-IsConsistent _ (
                forget-IsConsistent _ s ptr (count_lifetime-CountsOut env.now s.leak_threshold_sec)
                  ok)

free_by-IsConsistent :
    (env : Env) (c : Caller) (ctx : Option Thread) (s : State) (ptr : ℕ)
    → IsConsistent 0 s
    → IsConsistent 0 (free_by env c ctx s ptr).1
unfolding free_by
free_by-IsConsistent env c none s ptr ok = pass_free-IsConsistent s ptr ok
free_by-IsConsistent env c (some t₀) s ptr ok =
    let t = hook_enter t₀ in
    if_elim (λ (r : Option Thread × State). IsConsistent 0 r.1) (is_recursive t)
      (some t, pass_free s ptr) (some (hook_end t.in_hook (hook_begin t)), free_body env c t s ptr)
      (λ _. pass_free-IsConsistent s ptr ok) (λ _. free_body-IsConsistent env c t s ptr ok)

-- The hook of `free` keeps the invariant.
pub free-IsConsistent :
    (env : Env) (c : Caller) (ctx : Option Thread) (s : State) (ptr : ℕ)
    → IsConsistent 0 s
    → IsConsistent 0 (free env c ctx s ptr).1
unfolding free
free-IsConsistent env c ctx s ptr ok =
    if_elim (λ (r : Option Thread × State). IsConsistent 0 r.1) (ptr == null || pool_contains s ptr)
      (ctx, s) (free_by env c ctx s ptr) (λ _. ok) (λ _. free_by-IsConsistent env c ctx s ptr ok)

calloc_through-Leaves :
    (env : Env) (s : State) (count size : ℕ)
    → IsConsistent 0 s
    → Leaves (calloc_through env s count size)
unfolding calloc_through
calloc_through-Leaves env s count size ok =
    if_elim Leaves _ (null, s) (user_malloc env s (mul64 count size))
      (λ _. (record { consistent = ok }))
      (λ _. (record { consistent = user_malloc-IsConsistent env s (mul64 count size) ok }))

-- The hook of `calloc` keeps the invariant, where the byte counter has room for the product.
pub calloc-Keeps :
    (env : Env) (c : Caller) (ctx : Option Thread) (s : State) (count size : ℕ)
    → Ready (mul64 count size) s
    → Keeps (calloc env c ctx s count size)
unfolding calloc
calloc-Keeps env c none s count size (ok, _) =
    beside-Keeps none _ (calloc_through-Leaves env s count size ok)
calloc-Keeps env c (some t₀) s count size (ok, fits) =
    let t = hook_enter t₀ in
    let through = calloc_through env s count size in
    let passed = pass_malloc env s (mul64 count size) in
    let beside : ℕ × State → Outcome = λ r. (let (p, s') = r in (p, some t, s')) in
    let hooked = malloc env (from_hook c) (some t) s (mul64 count size) in
    let product = if lr_in_blacklist c then beside passed else hooked in
    if_elim Keeps (is_recursive t || not (t.tool_internal == 0)) (beside through)
      (if product_overflows count size then (null, some t, s) else product)
      (λ _. beside-Keeps (some t) through (calloc_through-Leaves env s count size ok))
      λ _.
        if_elim Keeps (product_overflows count size) (null, some t, s) product
          (λ _. (record { consistent = ok }))
          λ _.
            if_elim Keeps (lr_in_blacklist c) (beside passed) hooked
              (λ _. beside-Keeps (some t) passed (pass_malloc-Leaves env s (mul64 count size) ok))
              (λ _. malloc-Keeps env (from_hook c) (some t) s (mul64 count size) (ok, fits))
