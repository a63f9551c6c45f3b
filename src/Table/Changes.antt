-- ===== src/Table/Changes.antt =====
-- Adding and removing records, with the counters that go with them, keeps the invariant.
use memory_trace_tool.Base.{
  ℕ, ◌+◌, ◌≤◌, ◌<◌, ◌≡◌, ◌≢◌, false, ◌||◌, some, ◌==◌, add64, word, arith, length-set, set, List,
  ◌∷◌,
}
use memory_trace_tool.State.{Entry, Chain, Counters, State, null, max_entries}
use memory_trace_tool.Table.{
  find_in, remove_in, index_of, chain_of, no_buckets, entry_find, entry_remove, entry_add,
  give_back, unlink,
}
use memory_trace_tool.Table.Records.{Allocated}
use memory_trace_tool.Table.Nodes.{live_bytes, nodes, add-counts, remove-counts}
use memory_trace_tool.Table.Accounts.{IsConsistent, give_back-IsConsistent}

Allocated-set :
    {n : ℕ} (buckets : List Chain) (i : ℕ) (c : Chain)
    → Allocated buckets n
    → Allocated (set buckets i c) n
Allocated-set buckets i c a = ground (arith, length-set buckets i c)

-- The counters `k` have counted the record `e` in.
pub record CountedIn (e : Entry) (k₀ k : Counters) : Type 0 where
  pub bytes : k.current_bytes ≡ add64 k₀.current_bytes e.size
  pub entries : k.entry_count ≡ k₀.entry_count
  pub allocs : k.alloc_count ≡ add64 k₀.alloc_count 1
  pub frees : k.free_count ≡ k₀.free_count

-- The counters `k` have counted the record `e` out.
pub record CountedOut (e : Entry) (k₀ k : Counters) : Type 0 where
  pub bytes : k.current_bytes + e.size ≡ k₀.current_bytes
  pub entries : k.entry_count ≡ k₀.entry_count
  pub allocs : k.alloc_count ≡ k₀.alloc_count
  pub frees : k.free_count ≡ add64 k₀.free_count 1

pub entry_add-IsConsistent :
    {held : ℕ} (s : State) (e : Entry) (k : Counters)
    → IsConsistent (held + 1) s
    → CountedIn e s.counters k
    → live_bytes s + e.size < word
    → e.size ≢ 0
    → s.counters.entry_count < max_entries
    → IsConsistent held (entry_add (record s { counters = k }) e)
unfolding entry_add
entry_add-IsConsistent {held} s e k c i fits some_bytes room =
    let (b, n, z) = add-counts s e c.table in
    simp no_null (record {
      table = Allocated-set s.buckets (index_of s e.ptr) (e ∷ chain_of s e.ptr) c.table;
      bytes = omega (arith, b);
      entries = omega (arith, n, c.bounded, c.entries);
      fits = omega (arith, b);
      sized = ground (arith, z, c.sized);
      bounded = omega (arith, n, c.entries);
      balance = omega (arith, n, c.balance, i.allocs, i.frees);
      pool = λ h. rw n (rw regroup at (c.pool h));
    })
  where
    no_null : no_buckets s ≡ false
    no_null = ground (arith, c.table.allocated, c.table.some_bucket)

    regroup : nodes s + (held + 1) ≡ nodes s + 1 + held
    regroup = omega arith

pub unlink-IsConsistent :
    {held : ℕ} (s : State) (p : ℕ) (e : Entry) (k : Counters)
    → IsConsistent held s
    → find_in p (chain_of s p) ≡ some e
    → CountedOut e s.counters k
    → IsConsistent (held + 1) (unlink (record s { counters = k }) p)
unfolding unlink
unlink-IsConsistent {held} s p e k c found o =
    let (b, n, z) = remove-counts s p e c.table found in
    record {
      table = Allocated-set s.buckets (index_of s p) (remove_in p (chain_of s p)) c.table;
      bytes = omega (arith, b);
      entries = omega (arith, n, c.bounded);
      fits = omega (arith, b, c.fits);
      sized = omega (arith, z, c.sized);
      bounded = omega (arith, n, c.bounded);
      balance = omega (arith, n, c.balance, o.frees);
      pool = λ h. rw (regroup _ n) at (c.pool h);
    }
  where
    regroup : (m : ℕ) → m + 1 ≡ nodes s → nodes s + held ≡ m + (held + 1)
    regroup m e = omega arith

-- Removing the record that `mtt_entry_find` found, counted out, keeps the invariant.
pub entry_remove-IsConsistent :
    {held : ℕ} (s : State) (p : ℕ) (e : Entry) (k : Counters)
    → IsConsistent held s
    → entry_find s p ≡ some e
    → CountedOut e s.counters k
    → IsConsistent held (entry_remove (record s { counters = k }) p)
unfolding entry_find entry_remove
entry_remove-IsConsistent {held} s p e k c found o =
    let (there, in_chain) = found_where in
    simp (there, in_chain)
      (give_back-IsConsistent e.addr (unlink-IsConsistent s p e k c in_chain o))
  where
    found_where : ((p == null || no_buckets s) ≡ false) × (find_in p (chain_of s p) ≡ some e)
    found_where = ground arith

-- A record that is found has at least one byte, and no more than the table's sum.
pub found-bounds :
    {held : ℕ} (s : State) (p : ℕ) (e : Entry)
    → IsConsistent held s
    → entry_find s p ≡ some e
    → (e.size ≢ 0) × (e.size ≤ s.counters.current_bytes)
unfolding entry_find
found-bounds s p e c found =
    let in_chain : find_in p (chain_of s p) ≡ some e = ground arith in
    let (b, n, z) = remove-counts s p e c.table in_chain in
    (λ none_there. ground (arith, z, c.sized), omega (arith, b, c.bytes))

-- The removal of a record leaves the byte counter to its caller.
pub entry_remove-current_bytes :
    (s : State) (ptr : ℕ) → (entry_remove s ptr).counters.current_bytes ≡ s.counters.current_bytes
unfolding entry_remove give_back unlink
entry_remove-current_bytes s ptr = ground arith
