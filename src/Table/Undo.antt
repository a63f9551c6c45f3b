-- ===== src/Table/Undo.antt =====
-- A record that is added and removed again leaves the table as it was.
use memory_trace_tool.Base.{
  ℕ, ◌≡◌, ◌≢◌, ◌∙◌, ap, false, ◌||◌, some, [], ◌∷◌, ◌==◌, length-set, get_or, set, get_or-set_self,
  set-set, set-get_or, arith,
}
use memory_trace_tool.State.{Entry, Counters, State, null}
use memory_trace_tool.Table.{
  entry_add, entry_find, entry_remove, unlink, find_in, remove_in, no_buckets, index_of, chain_of,
}
use memory_trace_tool.Table.Records.{
  IsTable, records, newest, index_of-lt, entry_find-newest, records-entry_add,
}
use memory_trace_tool.Table.Nodes.{buckets-give_back}

-- Unlinking a record that was just linked in front.
buckets-unlink_front :
    (s : State) (e : Entry)
    → IsTable s
    → (unlink
        (record s { buckets = set s.buckets (index_of s e.ptr) (e ∷ chain_of s e.ptr) })
        e.ptr).buckets
      ≡ s.buckets
unfolding unlink remove_in
buckets-unlink_front s e t =
    let i = index_of s e.ptr in
    let c = chain_of s e.ptr in
    let front = set s.buckets i (e ∷ c) in
    let seen : get_or front i [] ≡ e ∷ c =
      get_or-set_self s.buckets i (e ∷ c) [] (index_of-lt s e.ptr t) in
    let gone : remove_in e.ptr (e ∷ c) ≡ c = ground arith in
    ap (λ chain. set front i (remove_in e.ptr chain)) seen
    ∙ ap (set front i) gone
    ∙ set-set s.buckets i (e ∷ c) c
    ∙ set-get_or s.buckets i []

-- Taking out what `mtt_entry_find` finds is the unlinking.
buckets-entry_remove :
    (s : State) (p : ℕ) (e : Entry)
    → entry_find s p ≡ some e
    → (entry_remove s p).buckets ≡ (unlink s p).buckets
unfolding entry_find entry_remove
buckets-entry_remove s p e found =
    let there : (p == null || no_buckets s) ≡ false = ground arith in
    let in_chain : find_in p (chain_of s p) ≡ some e = ground arith in
    rw (there, in_chain) (buckets-give_back (unlink s p) e.addr)

Allocated-entry_add : (s : State) (e : Entry) → IsTable s → IsTable (entry_add s e)
unfolding entry_add
Allocated-entry_add s e t =
    ground (arith, length-set s.buckets (index_of s e.ptr) (e ∷ chain_of s e.ptr))

-- An added record is found.
pub entry_find-entry_add :
    (s : State) (e : Entry) → IsTable s → e.ptr ≢ null → entry_find (entry_add s e) e.ptr ≡ some e
entry_find-entry_add s e t h =
    let added = records-entry_add s e e.ptr t in
    let front : records (entry_add s e) e.ptr ≡ e ∷ records s e.ptr = ground (arith, added) in
    entry_find-newest (entry_add s e) e.ptr (Allocated-entry_add s e t) h ∙ ap newest front

buckets-unlink_added :
    (s : State) (e : Entry) (k : Counters)
    → IsTable s
    → (unlink (record (entry_add s e) { counters = k }) e.ptr).buckets ≡ s.buckets
unfolding entry_add unlink
buckets-unlink_added s e k t =
    let there : no_buckets s ≡ false = ground (arith, t.allocated, t.some_bucket) in
    rw there (buckets-unlink_front s e t)

-- And removed again, whatever has been counted meanwhile.
pub buckets-remove_added :
    (s : State) (e : Entry) (k : Counters)
    → IsTable s
    → e.ptr ≢ null
    → (entry_remove (record (entry_add s e) { counters = k }) e.ptr).buckets ≡ s.buckets
unfolding entry_find
buckets-remove_added s e k t h =
    buckets-entry_remove (record (entry_add s e) { counters = k }) e.ptr e
      (entry_find-entry_add s e t h)
    ∙ buckets-unlink_added s e k t
