-- ===== src/Hooks/Resize.antt =====
-- The hook of `realloc`, and `reallocarray`, keep the invariant of the tracking state.
use memory_trace_tool.Base.{
  ℕ, ◌≢◌, false, not, ◌&&◌, Option, none, some, if◌then◌else◌, ◌==◌, mul64, arith, inl, inr,
  Option-cases, Bool-cases, if_elim,
}
use memory_trace_tool.State.{Entry, State, RawCall, null}
use memory_trace_tool.Table.{Env, log_raw, entry_find, entry_new}
use memory_trace_tool.Table.Accounts.{
  IsConsistent, Leaves, log_raw-IsConsistent, entry_new-Made, Made,
}
use memory_trace_tool.Threads.{Thread, hook_enter, is_recursive}
use memory_trace_tool.Books.{forget, insert, count_free, count_moved}
use memory_trace_tool.Books.Keeps.{forget-IsConsistent, count_free-CountsOut, count_moved-CountsOut}
use memory_trace_tool.Books.Moves.{forget-live_bytes, again-IsConsistent, exchange-IsConsistent}
use memory_trace_tool.Api.Keeps.{Ready}
use memory_trace_tool.Hooks.{
  Caller, from_hook, lr_in_blacklist, pass_malloc, pass_free, is_exempt, Outcome, bracket, malloc,
  free, product_overflows, realloc_through, realloc_tracked, realloc_by_copy, realloc_body,
  realloc_block, realloc, reallocarray,
}
use memory_trace_tool.Hooks.Keeps.{
  Keeps, pass_malloc-Leaves, pass_free-IsConsistent, bracket-Keeps, beside-Keeps, malloc-Keeps,
  free-IsConsistent,
}

realloc_through-Leaves :
    (env : Env) (s : State) (ptr size : ℕ)
    → IsConsistent 0 s
    → Leaves (realloc_through env s ptr size)
unfolding realloc_through
realloc_through-Leaves env s ptr size c =
    let by_raw : ℕ × State = (env.moved_block, log_raw (RawCall.raw_realloc ptr size) s) in
    if_elim Leaves s.raw.realloc_set by_raw _
      (λ _. (record { consistent = log_raw-IsConsistent _ c }))
      (λ _. copied (pass_malloc env s size) (pass_malloc-Leaves env s size c))
  where
    copied :
        (r : ℕ × State)
        → Leaves r
        → Leaves (
            let (new_ptr, s') = r in
            if new_ptr == null then (null, s') else (new_ptr, pass_free s' ptr))
    copied (new_ptr, s') l =
        if_elim Leaves (new_ptr == null) (null, s') (new_ptr, pass_free s' ptr)
          (λ _. (record { consistent = l.consistent }))
          (λ _. (record { consistent = pass_free-IsConsistent s' ptr l.consistent }))

realloc_tracked-Leaves :
    (env : Env) (s : State) (ptr size : ℕ)
    → Ready size s
    → size ≢ 0
    → Leaves (realloc_tracked env s ptr size)
unfolding realloc_tracked
realloc_tracked-Leaves env s ptr size (c, fits) some_bytes =
    let s' = log_raw (RawCall.raw_realloc ptr size) s in
    let c' = log_raw-IsConsistent (RawCall.raw_realloc ptr size) c in
    let removed = forget (λ e. count_moved e.size) s' ptr in
    let c'' = forget-IsConsistent (λ e. count_moved e.size) s' ptr count_moved-CountsOut c' in
    let le = forget-live_bytes _ s' ptr count_moved-CountsOut c' in
    let again =
      again-IsConsistent false env removed env.moved_block size c'' (omega (arith, le))
        some_bytes in
    elim (Bool-cases (env.moved_block == null)) [
      | inl failed ↦ rw failed (record { consistent = c' })
      | inr moved ↦ elim (Option-cases (entry_find s ptr)) [
        | inl missing ↦ rw (moved, missing) (record { consistent = c' })
        | inr (e, found) ↦ rw (moved, found) (record { consistent = again })
      ]
    ]

realloc_by_copy-Leaves :
    (env : Env) (s : State) (ptr size : ℕ)
    → Ready size s
    → size ≢ 0
    → Leaves (realloc_by_copy env s ptr size)
unfolding realloc_by_copy
realloc_by_copy-Leaves env s ptr size (c, fits) some_bytes =
    elim (Bool-cases (env.user_block == null)) [
      | inl failed ↦ rw failed (record { consistent = c' })
      | inr there ↦ rw there (
          finish (entry_new env s' env.user_block size)
            (entry_new-Made env s' env.user_block size c'))
    ]
  where
    s' : State
    s' = log_raw (RawCall.raw_malloc size) s

    c' : IsConsistent 0 (log_raw (RawCall.raw_malloc size) s)
    c' = log_raw-IsConsistent (RawCall.raw_malloc size) c

    finish :
        (r : Option Entry × State)
        → Made 0 (log_raw (RawCall.raw_malloc size) s) size r
        → Leaves (
            let (made, s₂) = r in
            elim made [
              | none ↦ (null, log_raw (RawCall.raw_free env.user_block) s₂)
              | some e ↦
                  let s₃ = insert false (forget (λ old. count_free old.size) s₂ ptr) e in
                  (env.user_block, log_raw (RawCall.raw_free ptr) s₃)
            ])
    finish (none, s₂) (m, _, _) = record { consistent = log_raw-IsConsistent _ m }
    finish (some e, s₂) (m, _, same, sized) = record {
      consistent = log_raw-IsConsistent _ (
          exchange-IsConsistent false _ s₂ e ptr count_free-CountsOut m (rw (same, sized) fits)
            (rw sized some_bytes));
    }

realloc_body-Leaves :
    (env : Env) (c : Caller) (t : Thread) (s : State) (ptr size : ℕ)
    → Ready size s
    → size ≢ 0
    → Leaves (realloc_body env c t s ptr size)
unfolding realloc_body
realloc_body-Leaves env c t s ptr size (ok, fits) some_bytes =
    let through = realloc_through env s ptr size in
    let by_raw = realloc_tracked env s ptr size in
    let by_copy = realloc_by_copy env s ptr size in
    let on = if s.raw.realloc_set then by_raw else by_copy in
    let able = if s.disabled then through else on in
    if_elim Leaves (is_exempt c t) through (if not s.raw.malloc_set then (null, s) else able)
      (λ _. realloc_through-Leaves env s ptr size ok)
      λ _.
        if_elim Leaves (not s.raw.malloc_set) (null, s) able (λ _. (record { consistent = ok }))
          λ _.
            if_elim Leaves s.disabled through on (λ _. realloc_through-Leaves env s ptr size ok)
              λ _.
                if_elim Leaves s.raw.realloc_set by_raw by_copy
                  (λ _. realloc_tracked-Leaves env s ptr size (ok, fits) some_bytes)
                  (λ _. realloc_by_copy-Leaves env s ptr size (ok, fits) some_bytes)

realloc_block-Keeps :
    (env : Env) (c : Caller) (ctx : Option Thread) (s : State) (ptr size : ℕ)
    → Ready size s
    → size ≢ 0
    → Keeps (realloc_block env c ctx s ptr size)
unfolding realloc_block
realloc_block-Keeps env c none s ptr size (ok, _) _ =
    beside-Keeps none _ (realloc_through-Leaves env s ptr size ok)
realloc_block-Keeps env c (some t₀) s ptr size ready some_bytes =
    let t = hook_enter t₀ in
    let through = realloc_through env s ptr size in
    if_elim Keeps (is_recursive t) (let (p, s') = through in (p, some t, s'))
      (bracket t (realloc_body env c t s ptr size))
      (λ _. beside-Keeps (some t) through (realloc_through-Leaves env s ptr size ready.0))
      (λ _. bracket-Keeps t _ (realloc_body-Leaves env c t s ptr size ready some_bytes))

-- The hook of `realloc` keeps the invariant, where the byte counter has room for the new size.
pub realloc-Keeps :
    (env : Env) (c : Caller) (ctx : Option Thread) (s : State) (ptr size : ℕ)
    → Ready size s
    → Keeps (realloc env c ctx s ptr size)
unfolding realloc
realloc-Keeps env c ctx s ptr size ready =
    let fresh = malloc env (from_hook c) ctx s size in
    let freed : Outcome = (let (ctx', s') = free env (from_hook c) ctx s ptr in (null, ctx', s')) in
    let block = realloc_block env c ctx s ptr size in
    if_elim Keeps (ptr == null) fresh (if size == 0 then freed else block)
      (λ _. malloc-Keeps env (from_hook c) ctx s size ready)
      λ _.
        if_elim Keeps (size == 0) freed block
          (λ _. (record { consistent = free-IsConsistent env (from_hook c) ctx s ptr ready.0 }))
          (λ some_bytes. realloc_block-Keeps env c ctx s ptr size ready (ground arith))

-- `reallocarray` keeps the invariant, where the byte counter has room for the product.
pub reallocarray-Keeps :
    (env : Env) (c : Caller) (ctx : Option Thread) (s : State) (ptr nmemb size : ℕ)
    → Ready (mul64 nmemb size) s
    → Keeps (reallocarray env c ctx s ptr nmemb size)
unfolding reallocarray
reallocarray-Keeps env c ctx s ptr nmemb size ready =
    let total = mul64 nmemb size in
    let by_raw : Outcome = (env.moved_block, ctx, log_raw (RawCall.raw_realloc ptr total) s) in
    let hooked = realloc env (from_hook c) ctx s ptr total in
    if_elim Keeps (product_overflows nmemb size) (null, ctx, s)
      (if lr_in_blacklist c && s.raw.realloc_set then by_raw else hooked)
      (λ _. (record { consistent = ready.0 }))
      λ _.
        if_elim Keeps (lr_in_blacklist c && s.raw.realloc_set) by_raw hooked
          (λ _. (record { consistent = log_raw-IsConsistent _ ready.0 }))
          (λ _. realloc-Keeps env (from_hook c) ctx s ptr total ready)
