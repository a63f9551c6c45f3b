-- ===== src/Books.antt =====
-- src/tracker.c and src/hooks.c: the counter updates and critical sections that the allocation
-- functions share. The code writes each out where it is used; the lines differ only as noted.
pub mod Keeps
pub mod Moves
pub mod Effect
pub mod Undo
pub mod Push
use memory_trace_tool.Base.{
  ℕ, ◌+◌, ◌-◌, Bool, true, false, ◌||◌, ◌&&◌, Option, none, some, if◌then◌else◌, ◌==◌, ltb, leb,
  add64, sub64,
}
use memory_trace_tool.State.{Entry, Counters, State, null, max_entries}
use memory_trace_tool.Table.{
  Env, entry_find, entry_remove, entry_add, entry_discard, entry_new, is_over_capacity,
}
use memory_trace_tool.Sampling.{should_track}

-- The counts for a new record and the loop that raises the peak. `mtt_malloc` sets `peak_updated`
-- whatever the peak does (`always`), the hooks only when it rose.
unfoldable pub count_alloc : Bool → ℕ → Counters → Counters
count_alloc always size c =
    let cur = add64 c.current_bytes size in
    let risen = ltb c.peak_bytes cur in
    record c {
      alloc_seq = add64 c.alloc_seq 1;
      alloc_count = add64 c.alloc_count 1;
      current_bytes = cur;
      total_bytes = add64 c.total_bytes size;
      peak_bytes = if risen then cur else c.peak_bytes;
      peak_updated = always || risen || c.peak_updated;
    }

-- The counts for a record that goes, guarded against underflow.
unfoldable pub count_free : ℕ → Counters → Counters
count_free size c = record c {
  current_bytes = if leb size c.current_bytes then sub64 c.current_bytes size else 0;
  free_count = add64 c.free_count 1;
}

-- The same in the hook of `realloc`, which passes through `sub_size`.
unfoldable pub count_moved : ℕ → Counters → Counters
count_moved size c =
    let sub_size = if leb size c.current_bytes then size else 0 in
    record c {
      current_bytes = if ltb 0 sub_size then sub64 c.current_bytes sub_size else 0;
      free_count = add64 c.free_count 1;
    }

-- What the hook of `free` adds: records that lived a second at most, and records that were freed
-- past the leak threshold. The code's differences are signed; one below 0 counts here as 0, which
-- decides both tests alike.
unfoldable pub count_lifetime : ℕ → ℕ → ℕ → Counters → Counters
count_lifetime now threshold timestamp c =
    let age = now - timestamp in
    record c {
      temp_alloc_count = if leb age 1 then add64 c.temp_alloc_count 1 else c.temp_alloc_count;
      free_expired_count =
          if ltb 0 threshold && ltb threshold age
          then add64 c.free_expired_count 1
          else c.free_expired_count;
    }

abbrev pub with_counters : (Counters → Counters) → State → State
with_counters f s = record s { counters = f s.counters }

abbrev pub skip_overcap : Counters → Counters
skip_overcap c = record c { skipped_overcap = add64 c.skipped_overcap 1 }

-- The critical section that puts a new record into the table, with the second capacity check.
unfoldable pub insert : Bool → State → Entry → State
insert always s e =
    if leb max_entries s.counters.entry_count
    then entry_discard (with_counters skip_overcap s) e
    else (let counted = with_counters (count_alloc always e.size) s in
        entry_add counted (record e { alloc_num = add64 s.counters.alloc_seq 1 }))

-- A record for the block `ptr`, if one can be had.
unfoldable pub record_block : Bool → Env → State → ℕ → ℕ → State
unfolding insert
record_block always env s ptr size =
    let (made, s') = entry_new env s ptr size in
    elim made [ none ↦ s' | some e ↦ insert always s' e ]

-- The critical section that looks a pointer up, counts its record by `count`, and removes it.
unfoldable pub forget : (Entry → Counters → Counters) → State → ℕ → State
forget count s ptr = elim (entry_find s ptr) [
  | none ↦ s
  | some e ↦ entry_remove (with_counters (count e) s) ptr
]
