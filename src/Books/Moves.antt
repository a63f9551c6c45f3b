-- ===== src/Books/Moves.antt =====
-- The critical sections that `realloc` runs one after the other, in src/tracker.c and src/hooks.c:
-- the old record goes, and a record for the new block comes.
use memory_trace_tool.Base.{
  ℕ, ◌+◌, ◌≤◌, ◌<◌, ◌≢◌, Bool, if◌then◌else◌, word, arith, inl, inr, Option-cases, if_elim,
}
use memory_trace_tool.State.{Entry, Counters, State}
use memory_trace_tool.Table.{Env, entry_find, is_over_capacity}
use memory_trace_tool.Table.Nodes.{live_bytes}
use memory_trace_tool.Table.Accounts.{IsConsistent}
use memory_trace_tool.Table.Changes.{found-bounds, entry_remove-current_bytes}
use memory_trace_tool.Books.{with_counters, insert, record_block, forget}
use memory_trace_tool.Books.Keeps.{
  CountsOut, insert-IsConsistent, record_block-IsConsistent, forget-IsConsistent,
  is_over_capacity-IsConsistent,
}

forget-le :
    {held : ℕ} (count : Entry → Counters → Counters) (s : State) (ptr : ℕ)
    → CountsOut count
    → IsConsistent held s
    → (forget count s ptr).counters.current_bytes ≤ s.counters.current_bytes
unfolding forget
forget-le count s ptr counts c = elim (Option-cases (entry_find s ptr)) [
  | inl missing ↦ rw (missing, forget) (omega arith)
  | inr (e, found) ↦
      let (some_bytes, le) = found-bounds s ptr e c found in
      let out = counts e s.counters some_bytes le (omega (arith, c.bytes, c.fits)) in
      rw (found, forget, entry_remove-current_bytes (with_counters (count e) s) ptr)
        (omega (arith, out.bytes))
]

-- Forgetting a record makes no block larger.
pub forget-live_bytes :
    {held : ℕ} (count : Entry → Counters → Counters) (s : State) (ptr : ℕ)
    → CountsOut count
    → IsConsistent held s
    → live_bytes (forget count s ptr) ≤ live_bytes s
forget-live_bytes count s ptr counts c =
    let c' = forget-IsConsistent count s ptr counts c in
    omega (arith, forget-le count s ptr counts c, c.bytes, c'.bytes)

-- The capacity check and the new record after `raw_realloc` keep the invariant.
pub again-IsConsistent :
    (always : Bool) (env : Env) (s : State) (ptr size : ℕ)
    → IsConsistent 0 s
    → live_bytes s + size < word
    → size ≢ 0
    → IsConsistent 0 (
        if (is_over_capacity s).0
        then (is_over_capacity s).1
        else record_block always env (is_over_capacity s).1 ptr size)
again-IsConsistent always env s ptr size c fits some_bytes =
    let (c', same) = is_over_capacity-IsConsistent s c in
    if_elim (IsConsistent 0) _ _ (record_block always env _ ptr size) (λ _. c')
      λ _. record_block-IsConsistent always env _ ptr size c' (rw same fits) some_bytes

-- The exchange of the old record for one that is in hand keeps the invariant.
pub exchange-IsConsistent :
    (always : Bool) (count : Entry → Counters → Counters) (s : State) (e : Entry) (ptr : ℕ)
    → CountsOut count
    → IsConsistent 1 s
    → live_bytes s + e.size < word
    → e.size ≢ 0
    → IsConsistent 0 (insert always (forget count s ptr) e)
exchange-IsConsistent always count s e ptr counts c fits some_bytes =
    insert-IsConsistent always (forget count s ptr) e (forget-IsConsistent count s ptr counts c)
      (omega (arith, forget-live_bytes count s ptr counts c)) some_bytes
