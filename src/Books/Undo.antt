-- ===== src/Books/Undo.antt =====
-- A block that is recorded and then forgotten leaves the table as it was.
use memory_trace_tool.Base.{
  ℕ, ◌≡◌, ◌≢◌, ◌∙◌, refl, sym, Bool, Option, none, some, leb, add64, arith, if_elim,
}
use memory_trace_tool.State.{Entry, Counters, State, null, max_entries}
use memory_trace_tool.Table.{Env, entry_new, entry_add, entry_find, entry_discard, give_back}
use memory_trace_tool.Table.Records.{IsTable}
use memory_trace_tool.Table.Nodes.{buckets-give_back}
use memory_trace_tool.Table.Undo.{entry_find-entry_add, buckets-remove_added}
use memory_trace_tool.Table.Steady.{
  Steady, NewFor, entry_new-NewFor, entry_add-Steady, give_back-Steady, Steady-trans,
}
use memory_trace_tool.Books.{with_counters, skip_overcap, count_alloc, insert, record_block, forget}

forget_missing :
    (count : Entry → Counters → Counters) (s : State) (p : ℕ)
    → entry_find s p ≡ none
    → (forget count s p).buckets ≡ s.buckets
unfolding forget
forget_missing count s p missing = rw (missing, forget) refl

forget_added :
    (count : Entry → Counters → Counters) (s : State) (e : Entry)
    → IsTable s
    → e.ptr ≢ null
    → (forget count (entry_add s e) e.ptr).buckets ≡ s.buckets
unfolding forget
forget_added count s e t h =
    rw (entry_find-entry_add s e t h, forget)
      (buckets-remove_added s e (count e (entry_add s e).counters) t h)

-- Two states with the same table find the same.
pub entry_find_same :
    (s s' : State) (p : ℕ) → Steady s s' → s'.buckets ≡ s.buckets → entry_find s' p ≡ entry_find s p
unfolding entry_find
entry_find_same s s' p st same = rw (same, st.bucket_count, st.hash_seed) refl

forget-insert :
    (always : Bool) (count : Entry → Counters → Counters) (s : State) (e : Entry)
    → IsTable s
    → e.ptr ≢ null
    → entry_find s e.ptr ≡ none
    → (forget count (insert always s e) e.ptr).buckets ≡ s.buckets
unfolding insert entry_discard
forget-insert always count s e t h missing =
    let over = with_counters skip_overcap s in
    let counted = with_counters (count_alloc always e.size) s in
    let numbered = record e { alloc_num = add64 s.counters.alloc_seq 1 } in
    let given_back = give_back over e.addr in
    let same = buckets-give_back over e.addr in
    let steady = Steady-trans {s = s} {t = over} (ground arith) (give_back-Steady over e.addr) in
    if_elim (λ s'. (forget count s' e.ptr).buckets ≡ s.buckets)
      (leb max_entries s.counters.entry_count) given_back (entry_add counted numbered)
      (λ _.
        forget_missing count given_back e.ptr
          (entry_find_same s given_back e.ptr steady same ∙ missing)
        ∙ same)
      (λ _. forget_added count counted numbered t h)

-- A record for a block that had none, if one is to be had, and then forgotten
pub forget-record_block :
    (always : Bool) (count : Entry → Counters → Counters) (env : Env) (s : State) (p size : ℕ)
    → IsTable s
    → p ≢ null
    → entry_find s p ≡ none
    → (forget count (record_block always env s p size) p).buckets ≡ s.buckets
unfolding record_block
forget-record_block always count env s p size t h missing =
    finish (entry_new env s p size) (entry_new-NewFor env s p size)
  where
    finish :
        (r : Option Entry × State)
        → NewFor s p r
        → (forget count (elim r.0 [ none ↦ r.1 | some e ↦ insert always r.1 e ]) p).buckets
          ≡ s.buckets
    finish (none, s') new =
        forget_missing count s' p (entry_find_same s s' p new.steady new.buckets ∙ missing)
        ∙ new.buckets
    finish (some e, s') new =
        let for_p : e.ptr ≡ p = new.made e refl in
        let same = entry_find_same s s' p new.steady new.buckets in
        rw (sym for_p) (
          forget-insert always count s' e (rw (new.buckets, new.steady.bucket_count) t) (rw for_p h)
            (rw for_p (same ∙ missing))
          ∙ new.buckets)

insert-Steady : (always : Bool) (s : State) (e : Entry) → Steady s (insert always s e)
unfolding insert entry_discard
insert-Steady always s e =
    let over = with_counters skip_overcap s in
    let counted = with_counters (count_alloc always e.size) s in
    let numbered = record e { alloc_num = add64 s.counters.alloc_seq 1 } in
    if_elim (Steady s) (leb max_entries s.counters.entry_count) _ _
      (λ _. Steady-trans {s = s} {t = over} (ground arith) (give_back-Steady over e.addr))
      (λ _. Steady-trans {s = s} {t = counted} (ground arith) (entry_add-Steady counted numbered))

record_block-Steady :
    (always : Bool) (env : Env) (s : State) (p size : ℕ)
    → Steady s (record_block always env s p size)
unfolding record_block
record_block-Steady always env s p size =
    finish (entry_new env s p size) (entry_new-NewFor env s p size)
  where
    finish :
        (r : Option Entry × State)
        → NewFor s p r
        → Steady s (elim r.0 [ none ↦ r.1 | some e ↦ insert always r.1 e ])
    finish (none, s') new = new.steady
    finish (some e, s') new = Steady-trans new.steady (insert-Steady always s' e)

-- What a call has done from `s` to `s'` for the pointer `p` is undone by forgetting `p`.
pub record Undone (s : State) (p : ℕ) (s' : State) : Type 0 where
  pub steady : Steady s s'
  pub forgotten : (count : Entry → Counters → Counters) → (forget count s' p).buckets ≡ s.buckets

-- A call that leaves the table has nothing to undo.
pub Undone-idle :
    (s s' : State) (p : ℕ)
    → Steady s s'
    → s'.buckets ≡ s.buckets
    → entry_find s p ≡ none
    → Undone s p s'
Undone-idle s s' p steady same missing = record {
  steady = steady;
  forgotten =
      λ count. forget_missing count s' p (entry_find_same s s' p steady same ∙ missing) ∙ same;
}

-- A record that a call makes in such a state is undone.
pub Undone-record_block :
    (always : Bool) (env : Env) (s s' : State) (p size : ℕ)
    → IsTable s
    → p ≢ null
    → Steady s s'
    → s'.buckets ≡ s.buckets
    → entry_find s p ≡ none
    → Undone s p (record_block always env s' p size)
Undone-record_block always env s s' p size t h steady same missing = record {
  steady = Steady-trans steady (record_block-Steady always env s' p size);
  forgotten = λ count.
      forget-record_block always count env s' p size (rw (same, steady.bucket_count) t) h
        (entry_find_same s s' p steady same ∙ missing)
      ∙ same;
}
