-- ===== src/Api/Resize.antt =====
-- `mtt_realloc` keeps the invariant of the tracking state, through libc's `realloc` or by a copy.
use memory_trace_tool.Base.{
  ℕ, ◌≢◌, true, not, Option, none, some, if◌then◌else◌, ◌==◌, arith, inl, inr, Option-cases,
  Bool-cases, if_elim,
}
use memory_trace_tool.State.{Entry, State, RawCall, null}
use memory_trace_tool.Table.{Env, log_raw, entry_find, entry_new}
use memory_trace_tool.Table.Accounts.{
  IsConsistent, Leaves, log_raw-IsConsistent, entry_new-Made, Made,
}
use memory_trace_tool.Books.{forget, insert, count_free}
use memory_trace_tool.Books.Keeps.{count_free-CountsOut}
use memory_trace_tool.Books.Moves.{forget-live_bytes, again-IsConsistent, exchange-IsConsistent}
use memory_trace_tool.Api.{
  malloc, free, realloc_untracked, realloc_tracked, realloc_by_copy, realloc,
}
use memory_trace_tool.Api.Keeps.{Ready, forget_freed-IsConsistent, free-IsConsistent, malloc-Leaves}

realloc_untracked-Leaves :
    (env : Env) (s : State) (ptr size : ℕ)
    → IsConsistent 0 s
    → Leaves (realloc_untracked env s ptr size)
unfolding realloc_untracked
realloc_untracked-Leaves env s ptr size c =
    let s' = log_raw (RawCall.raw_malloc size) s in
    let c' = log_raw-IsConsistent (RawCall.raw_malloc size) c in
    let by_copy : ℕ × State =
      if env.user_block == null
      then (null, s')
      else (env.user_block, log_raw (RawCall.raw_free ptr) s') in
    if_elim Leaves s.raw.realloc_set (env.moved_block, log_raw (RawCall.raw_realloc ptr size) s)
      by_copy (λ _. (record { consistent = log_raw-IsConsistent _ c }))
      λ _.
        if_elim Leaves (env.user_block == null) (null, s')
          (env.user_block, log_raw (RawCall.raw_free ptr) s') (λ _. (record { consistent = c' }))
          (λ _. (record { consistent = log_raw-IsConsistent _ c' }))

realloc_tracked-Leaves :
    (env : Env) (s : State) (ptr size : ℕ)
    → Ready size s
    → size ≢ 0
    → Leaves (realloc_tracked env s ptr size)
unfolding realloc_tracked
realloc_tracked-Leaves env s ptr size (c, fits) some_bytes =
    let s' = log_raw (RawCall.raw_realloc ptr size) s in
    let c' = log_raw-IsConsistent (RawCall.raw_realloc ptr size) c in
    let removed = forget (λ e. count_free e.size) s' ptr in
    let le = forget-live_bytes _ s' ptr count_free-CountsOut c' in
    let again =
      again-IsConsistent true env removed env.moved_block size (forget_freed-IsConsistent s' ptr c')
        (omega (arith, le)) some_bytes in
    elim (Bool-cases (env.moved_block == null)) [
      | inl failed ↦ rw failed (record { consistent = c' })
      | inr moved ↦ elim (Option-cases (entry_find s ptr)) [
        | inl missing ↦ rw (moved, missing) (record { consistent = c' })
        | inr (e, found) ↦ rw (moved, found) (record { consistent = again })
      ]
    ]

realloc_by_copy-Leaves :
    (env : Env) (s : State) (ptr size : ℕ)
    → Ready size s
    → size ≢ 0
    → Leaves (realloc_by_copy env s ptr size)
unfolding realloc_by_copy
realloc_by_copy-Leaves env s ptr size (c, fits) some_bytes =
    elim (Bool-cases (env.user_block == null)) [
      | inl failed ↦ rw failed (record { consistent = c' })
      | inr there ↦ rw there (
          finish (entry_new env s' env.user_block size)
            (entry_new-Made env s' env.user_block size c'))
    ]
  where
    s' : State
    s' = log_raw (RawCall.raw_malloc size) s

    c' : IsConsistent 0 (log_raw (RawCall.raw_malloc size) s)
    c' = log_raw-IsConsistent (RawCall.raw_malloc size) c

    finish :
        (r : Option Entry × State)
        → Made 0 (log_raw (RawCall.raw_malloc size) s) size r
        → Leaves (
            let (made, s₂) = r in
            elim made [
              | none ↦ (null, log_raw (RawCall.raw_free env.user_block) s₂)
              | some e ↦
                  let s₃ = insert true (forget (λ old. count_free old.size) s₂ ptr) e in
                  (env.user_block, log_raw (RawCall.raw_free ptr) s₃)
            ])
    finish (none, s₂) (m, _, _) = record { consistent = log_raw-IsConsistent _ m }
    finish (some e, s₂) (m, _, same, sized) = record {
      consistent = log_raw-IsConsistent _ (
          exchange-IsConsistent true _ s₂ e ptr count_free-CountsOut m (rw (same, sized) fits)
            (rw sized some_bytes));
    }

-- `mtt_realloc` keeps the invariant, where the byte counter has room for the new size.
pub realloc-Leaves :
    (env : Env) (s : State) (ptr size : ℕ) → Ready size s → Leaves (realloc env s ptr size)
unfolding realloc
realloc-Leaves env s ptr size (c, fits) =
    let fresh = malloc env s size in
    let freed : ℕ × State = (null, free s ptr) in
    let off = realloc_untracked env s ptr size in
    let by_raw = realloc_tracked env s ptr size in
    let by_copy = realloc_by_copy env s ptr size in
    let on = if s.raw.realloc_set then by_raw else by_copy in
    let able = if s.disabled then off else on in
    let set = if not s.raw.malloc_set then (null, s) else able in
    if_elim Leaves (ptr == null) fresh (if size == 0 then freed else set)
      (λ _. malloc-Leaves env s size (c, fits))
      λ _.
        if_elim Leaves (size == 0) freed set
          (λ _. (record { consistent = free-IsConsistent s ptr c }))
          λ some_bytes.
            let positive : size ≢ 0 = ground arith in
            if_elim Leaves (not s.raw.malloc_set) (null, s) able (λ _. (record { consistent = c }))
              λ _.
                if_elim Leaves s.disabled off on (λ _. realloc_untracked-Leaves env s ptr size c)
                  λ _.
                    if_elim Leaves s.raw.realloc_set by_raw by_copy
                      (λ _. realloc_tracked-Leaves env s ptr size (c, fits) positive)
                      (λ _. realloc_by_copy-Leaves env s ptr size (c, fits) positive)
