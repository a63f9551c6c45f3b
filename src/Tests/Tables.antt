-- ===== src/Tests/Tables.antt =====
-- Tests and examples of the hash table, the calls of the interface and the hooks, and a scan.
use memory_trace_tool.Base.{ℕ, ◌≡◌, refl, true, false, some, [], ◌∷◌, inl, arith}
use memory_trace_tool.State.{Entry, State, bucket_of}
use memory_trace_tool.Table.{
  Env, entry_find, entry_remove, entry_add, pool_contains, entry_new, is_over_capacity,
}
use memory_trace_tool.Table.Records.{
  IsTable, records, newest, older, records-entry_add, entry_find-newest, records-entry_remove,
}
use memory_trace_tool.Table.Nodes.{bytes_of, count_of, empties_of}
use memory_trace_tool.Table.Accounts.{IsConsistent}
use memory_trace_tool.Threads.{fresh_thread, hook_enter, is_recursive}
use memory_trace_tool.Blacklist.{is_lr_in_blacklist}
use memory_trace_tool.Sampling.{is_startup_phase, should_track}
use memory_trace_tool.Books.{record_block, insert, count_alloc}
use memory_trace_tool.Api
use memory_trace_tool.Api.Effect.{records-free}
use memory_trace_tool.Hooks
use memory_trace_tool.Hooks.Effect.{records-free_hook}
use memory_trace_tool.Hooks.Again.{malloc-free_blacklisted}
use memory_trace_tool.Books.Push.{IsPushed}
use memory_trace_tool.Leaks.{LeakTable, Scan, scan}
use memory_trace_tool.Leaks.Totals.{scan-leak_bytes}
use memory_trace_tool.Leaks.Groups.{IsGrouped, records_of, record_bytes, scan-IsGrouped}
use memory_trace_tool.Tests.{record_at, vacant, one_record, env, outsider, insider}

bucket_of_8 : bucket_of 8 4 0 ≡ 1
unfolding bucket_of
bucket_of_8 = refl

vacant-IsTable : IsTable vacant
vacant-IsTable = record { allocated = refl; some_bucket = omega arith; fits = omega arith }

one_record-IsTable : IsTable one_record
one_record-IsTable = record { allocated = refl; some_bucket = omega arith; fits = omega arith }

found_8 : entry_find one_record 8 ≡ some (record_at 8 24)
unfolding entry_find bucket_of
found_8 = refl

records-entry_add_example :
    records (entry_add one_record (record_at 8 40)) 8 ≡ record_at 8 40 ∷ records one_record 8
records-entry_add_example = records-entry_add one_record (record_at 8 40) 8 one_record-IsTable

entry_find-newest_example : entry_find one_record 8 ≡ newest (records one_record 8)
entry_find-newest_example = entry_find-newest one_record 8 one_record-IsTable (omega arith)

records-entry_remove_example : records (entry_remove one_record 8) 8 ≡ older (records one_record 8)
records-entry_remove_example = records-entry_remove one_record 8 8 one_record-IsTable (omega arith)

records-free_example : records (Api.free one_record 8) 8 ≡ older (records one_record 8)
records-free_example = records-free one_record 8 8 one_record-IsTable (omega arith) refl refl

outside_pool : pool_contains one_record 8 ≡ false
unfolding pool_contains
outside_pool = refl

idle : is_recursive (hook_enter (fresh_thread 5)) ≡ false
unfolding is_recursive hook_enter
idle = refl

known_caller : Hooks.is_exempt outsider (hook_enter (fresh_thread 5)) ≡ false
unfolding is_lr_in_blacklist hook_enter
known_caller = refl

listed_caller : Hooks.lr_in_blacklist insider ≡ true
unfolding is_lr_in_blacklist
listed_caller = refl

records-free_hook_example :
    records (Hooks.free env outsider (some (fresh_thread 5)) one_record 8).1 8
    ≡ older (records one_record 8)
records-free_hook_example =
    records-free_hook env outsider (fresh_thread 5) one_record 8 8 one_record-IsTable (omega arith)
      outside_pool idle known_caller refl refl

one_record-IsConsistent : IsConsistent 0 one_record
unfolding bytes_of count_of empties_of
one_record-IsConsistent = record {
  table = one_record-IsTable;
  bytes = refl;
  entries = refl;
  fits = omega arith;
  sized = refl;
  bounded = omega arith;
  balance = refl;
  pool = λ h. absurd (h refl);
}

-- libc's next block is the one that was freed.
abbrev later : Env
later = record env { user_block = 8 }

tracking : Hooks.passes later one_record 100 ≡ false
unfolding is_startup_phase
tracking = refl

sampled : (should_track one_record.sampler 100).0 ≡ true
unfolding should_track
sampled = refl

malloc-free_blacklisted_example :
    IsPushed later one_record 8 100
      (Hooks.malloc later outsider
        (some (fresh_thread 5))
        (Hooks.free env insider (some (fresh_thread 5)) one_record 8).1
        100).2
malloc-free_blacklisted_example =
    malloc-free_blacklisted env later insider outsider (fresh_thread 5) (fresh_thread 5) one_record
      100 one_record-IsConsistent listed_caller refl (omega arith) outside_pool idle known_caller
      refl tracking sampled (omega arith) (inl (refl, refl, omega arith))

-- The table then has two records for the one block.
two_records :
    (e : Entry) × (e.size ≡ 100)
    × (records
          (Hooks.malloc later outsider
            (some (fresh_thread 5))
            (Hooks.free env insider (some (fresh_thread 5)) one_record 8).1
            100).2
          8
        ≡ e ∷ record_at 8 24 ∷ [])
unfolding records bucket_of
two_records =
    let pushed =
      malloc-free_blacklisted env later insider outsider (fresh_thread 5) (fresh_thread 5)
        one_record 100 one_record-IsConsistent listed_caller refl (omega arith) outside_pool idle
        known_caller refl tracking sampled (omega arith) (inl (refl, refl, omega arith)) in
    (pushed.entry, pushed.size, pushed.kept 8)

abbrev scan_now : Scan
scan_now = record { now = 1000; threshold = 300; given = λ _. true }

scan-leak_bytes_example :
    (t : LeakTable) × (s' : State) × (scan (λ _. true) true scan_now one_record ≡ some (t, s'))
    × (s'.counters.leak_bytes_total ≡ 24)
unfolding count_of
scan-leak_bytes_example =
    scan-leak_bytes (λ _. true) true scan_now one_record (λ _. refl) (λ _. refl)
      one_record-IsConsistent (omega arith)

scan-IsGrouped_example :
    (t : LeakTable) × (s' : State) × (scan (λ _. true) true scan_now one_record ≡ some (t, s'))
    × ((key : ℕ) → IsGrouped key t (records_of key one_record) (record_bytes key one_record))
unfolding count_of
scan-IsGrouped_example =
    scan-IsGrouped (λ _. true) true scan_now one_record (λ _. refl) (λ _. refl)
      one_record-IsConsistent (omega arith)

-- The hook of `malloc` hands out libc's block and keeps a record of it.
malloc_recorded :
    (Hooks.malloc env outsider (some (fresh_thread 5)) vacant 100).2.counters.current_bytes ≡ 100
unfolding Hooks.malloc is_lr_in_blacklist hook_enter is_recursive is_startup_phase should_track
    is_over_capacity record_block entry_new insert count_alloc entry_add
malloc_recorded = refl
