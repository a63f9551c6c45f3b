-- ===== src/Books/Keeps.antt =====
-- The shared critical sections keep the invariant of the tracking state.
use memory_trace_tool.Base.{
  ℕ, ◌+◌, ◌≤◌, ◌<◌, ◌≡◌, ◌≢◌, refl, Bool, Option, none, some, leb, add64, word, arith, inl, inr,
  Option-cases, if_elim,
}
use memory_trace_tool.State.{Entry, Counters, State, max_entries}
use memory_trace_tool.Table.{Env, entry_find, entry_new, is_over_capacity}
use memory_trace_tool.Table.Nodes.{live_bytes}
use memory_trace_tool.Table.Accounts.{
  IsConsistent, recount-IsConsistent, entry_discard-IsConsistent, Made, entry_new-Made,
}
use memory_trace_tool.Table.Changes.{
  CountedIn, CountedOut, entry_add-IsConsistent, entry_remove-IsConsistent, found-bounds,
}
use memory_trace_tool.Books.{
  count_alloc, count_free, count_moved, count_lifetime, with_counters, skip_overcap, insert,
  record_block, forget,
}

count_alloc-CountedIn :
    (always : Bool) (e : Entry) (k : Counters) → CountedIn e k (count_alloc always e.size k)
unfolding count_alloc
count_alloc-CountedIn always e k = record {
  bytes = refl;
  entries = refl;
  allocs = refl;
  frees = refl;
}

skip_overcap-IsConsistent :
    {held : ℕ} {s : State} → IsConsistent held s → IsConsistent held (with_counters skip_overcap s)
skip_overcap-IsConsistent {s = s} c =
    recount-IsConsistent (skip_overcap s.counters) c refl refl refl refl

-- Putting a held record into the table, or giving it back at the limit, keeps the invariant.
pub insert-IsConsistent :
    {held : ℕ} (always : Bool) (s : State) (e : Entry)
    → IsConsistent (held + 1) s
    → live_bytes s + e.size < word
    → e.size ≢ 0
    → IsConsistent held (insert always s e)
unfolding insert
insert-IsConsistent {held} always s e c fits some_bytes =
    if_elim (IsConsistent held) (leb max_entries s.counters.entry_count) _ _
      (λ _. entry_discard-IsConsistent e (skip_overcap-IsConsistent c))
      (λ room.
        entry_add-IsConsistent s (record e { alloc_num = add64 s.counters.alloc_seq 1 })
          (count_alloc always e.size s.counters) c (count_alloc-CountedIn always _ s.counters) fits
          some_bytes (ground arith))

-- Recording a block keeps the invariant, whether or not a record is to be had.
pub record_block-IsConsistent :
    {held : ℕ} (always : Bool) (env : Env) (s : State) (ptr size : ℕ)
    → IsConsistent held s
    → live_bytes s + size < word
    → size ≢ 0
    → IsConsistent held (record_block always env s ptr size)
unfolding record_block
record_block-IsConsistent {held} always env s ptr size c fits some_bytes =
    finish (entry_new env s ptr size) (entry_new-Made env s ptr size c)
  where
    finish :
        (r : Option Entry × State)
        → Made held s size r
        → IsConsistent held (elim r.0 [ none ↦ r.1 | some e ↦ insert always r.1 e ])
    finish (none, s') m = m.0
    finish (some e, s') (c', _, same, sized) =
        insert-IsConsistent always s' e c' (rw (same, sized) fits) (rw sized some_bytes)

-- A way of counting a record out, good wherever the record is accounted for.
abbrev pub CountsOut : (Entry → Counters → Counters) → Type 0
CountsOut count =
    (e : Entry) (k : Counters)
    → e.size ≢ 0
    → e.size ≤ k.current_bytes
    → k.current_bytes < word
    → CountedOut e k (count e k)

pub forget-IsConsistent :
    {held : ℕ} (count : Entry → Counters → Counters) (s : State) (ptr : ℕ)
    → CountsOut count
    → IsConsistent held s
    → IsConsistent held (forget count s ptr)
unfolding forget
forget-IsConsistent {held} count s ptr counts c = elim (Option-cases (entry_find s ptr)) [
  | inl missing ↦ rw (missing, forget) c
  | inr (e, found) ↦
      let (some_bytes, le) = found-bounds s ptr e c found in
      rw (found, forget)
        (entry_remove-IsConsistent s ptr e (count e s.counters) c found
          (counts e s.counters some_bytes le (omega (arith, c.bytes, c.fits))))
]

pub count_free-CountsOut : CountsOut (λ e. count_free e.size)
unfolding count_free
count_free-CountsOut e k some_bytes le lt = ground arith

pub count_moved-CountsOut : CountsOut (λ e. count_moved e.size)
unfolding count_moved
count_moved-CountsOut e k some_bytes le lt = ground arith

pub count_lifetime-CountsOut :
    (now threshold : ℕ)
    → CountsOut (λ e k. count_lifetime now threshold e.timestamp (count_free e.size k))
unfolding count_lifetime count_free
count_lifetime-CountsOut now threshold e k some_bytes le lt = ground arith

-- The capacity check counts a skip at most, and leaves the table.
pub is_over_capacity-IsConsistent :
    {held : ℕ} (s : State)
    → IsConsistent held s
    → IsConsistent held (is_over_capacity s).1 × ((is_over_capacity s).1.buckets ≡ s.buckets)
unfolding is_over_capacity
is_over_capacity-IsConsistent {held} s c =
    if_elim (λ (r : Bool × State). IsConsistent held r.1 × (r.1.buckets ≡ s.buckets)) _ _ _
      (λ _. (skip_overcap-IsConsistent c, refl)) (λ _. (c, refl))
