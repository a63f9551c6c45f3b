-- ===== src/Tests/Lookups.antt =====
-- Tests and examples of the address ranges, the bootstrap allocator, the caches and the order of
-- a report.
use memory_trace_tool.Base.{
  ℕ, zero, suc, ◌+◌, ◌-◌, ◌<◌, ◌≤◌, ◌≡◌, ◌↔◌, refl, true, false, none, some, ◌==◌, if◌then◌else◌,
  List, [], ◌∷◌, get_or, replicate, length-replicate, word, arith,
}
use memory_trace_tool.Ranges.{ExecRange, addr_is_executable}
use memory_trace_tool.Ranges.Search.{Covers, IsSorted, range_at, addr_is_executable_iff}
use memory_trace_tool.Bootstrap.{Bootstrap, bootstrap_malloc, bootstrap_calloc, buf_size}
use memory_trace_tool.Bootstrap.Blocks.{
  serve, InOrder, AllFit, serve-InOrder, bootstrap_malloc-wraps, bootstrap_calloc-zeroes,
}
use memory_trace_tool.StackCache.{
  StackEntry, StackCache, no_addr, addr_cache_lookup, stack_hash_compute, stack_cache_lookup,
}
use memory_trace_tool.StackCache.Frames.{Symbolizer, answered, resolve_one_frame}
use memory_trace_tool.StackCache.Frames.Again.{resolve_one_frame-again}
use memory_trace_tool.StackCache.Spots.{places_of, spot_at}
use memory_trace_tool.Http.{contains, starts_with, hex_text, hex_digit}
use memory_trace_tool.Maps.{scan_number}
use memory_trace_tool.StackCache.Stacks.{IsFor, stack_cache_lookup-IsFor, stack_cache_lookup-again}

abbrev two_ranges : List ExecRange
two_ranges =
    record { lo = 100; hi = 200; libname = 97 ∷ [] }
    ∷ record { lo = 300; hi = 400; libname = 98 ∷ [] }
    ∷ []

two_ranges-IsSorted : IsSorted two_ranges
two_ranges-IsSorted = record { apart = apart; proper = proper }
  where
    apart : (i j : ℕ) → i < j → j < 2 → (range_at two_ranges i).hi ≤ (range_at two_ranges j).lo
    apart zero zero h k = absurd (omega arith)
    apart zero (suc zero) h k = omega arith
    apart zero (suc (suc j)) h k = absurd (omega arith)
    apart (suc i) zero h k = absurd (omega arith)
    apart (suc i) (suc j) h k = absurd (omega arith)

    proper : (i : ℕ) → i < 2 → (range_at two_ranges i).lo ≤ (range_at two_ranges i).hi
    proper zero h = omega arith
    proper (suc zero) h = omega arith
    proper (suc (suc i)) h = absurd (omega arith)

inside : addr_is_executable two_ranges 301 ≡ true
unfolding addr_is_executable
inside = refl

between : addr_is_executable two_ranges 250 ≡ false
unfolding addr_is_executable
between = refl

addr_is_executable_iff_example :
    (addr_is_executable two_ranges 301 ≡ true) ↔ ((i : ℕ) × Covers two_ranges 300 i)
addr_is_executable_iff_example =
    addr_is_executable_iff two_ranges 301 two_ranges-IsSorted (omega arith)

abbrev fresh_buffer : Bootstrap
fresh_buffer = record { bytes = replicate buf_size 255; offset = 0 }

serve-InOrder_example : InOrder 0 (serve (5 ∷ 16 ∷ []) fresh_buffer)
serve-InOrder_example =
    serve-InOrder (5 ∷ 16 ∷ []) fresh_buffer
      (AllFit.one_more (omega arith) (AllFit.one_more (omega arith) AllFit.none_asked)) refl
      (omega arith)

served : serve (5 ∷ 16 ∷ []) fresh_buffer ≡ (0, 5) ∷ (8, 16) ∷ []
unfolding bootstrap_malloc
served = refl

bootstrap_malloc-wraps_example : bootstrap_malloc (word - 1) fresh_buffer ≡ (some 0, fresh_buffer)
bootstrap_malloc-wraps_example =
    bootstrap_malloc-wraps (word - 1) fresh_buffer (omega arith) (omega arith) (omega arith)

given_first : (bootstrap_calloc 2 4 fresh_buffer).0 ≡ some 0
unfolding bootstrap_calloc
given_first = refl

bootstrap_calloc-zeroes_example : get_or (bootstrap_calloc 2 4 fresh_buffer).1.bytes (0 + 3) 1 ≡ 0
bootstrap_calloc-zeroes_example =
    bootstrap_calloc-zeroes 2 4 0 3 fresh_buffer (length-replicate {A = ℕ} buf_size 255) refl
      (omega arith) (omega arith) (omega arith) given_first

-- dladdr finds "f" of "/lib/a" at 4096, loaded at 4000, and nothing elsewhere.
abbrev symbolizer : Symbolizer
symbolizer = record {
  dladdr = λ addr.
      if addr == 4100
      then some (record {
        fname = some (47 ∷ 108 ∷ 47 ∷ 97 ∷ []);
        fbase = 4000;
        sname = some (102 ∷ []);
        saddr = 4097;
      })
      else none;
  symbols = λ addr. some (98 ∷ 40 ∷ 103 ∷ 43 ∷ 48 ∷ 120 ∷ 49 ∷ 102 ∷ 41 ∷ []);
  cxa_demangle = λ name. none;
  exe_header = [];
  exe_path = [];
}

-- "f+0x4 (a+0x64)"
symbol_found :
    (resolve_one_frame symbolizer 4100 256 (replicate 512 no_addr)).0
    ≡ some (102 ∷ 43 ∷ 48 ∷ 120 ∷ 52 ∷ 32 ∷ 40 ∷ 97 ∷ 43 ∷ 48 ∷ 120 ∷ 54 ∷ 52 ∷ 41 ∷ [])
unfolding resolve_one_frame answered addr_cache_lookup contains starts_with hex_text hex_digit
symbol_found = refl

-- "g+0x1f (??+0)", from "b(g+0x1f)"
symbol_without_dladdr :
    (resolve_one_frame symbolizer 8 256 (replicate 512 no_addr)).0
    ≡ some (103 ∷ 43 ∷ 48 ∷ 120 ∷ 49 ∷ 102 ∷ 32 ∷ 40 ∷ 63 ∷ 63 ∷ 43 ∷ 48 ∷ 41 ∷ [])
unfolding resolve_one_frame answered addr_cache_lookup contains starts_with hex_text hex_digit
    places_of spot_at scan_number
symbol_without_dladdr = refl

resolve_one_frame-again_example :
    resolve_one_frame symbolizer 4100 256
      (resolve_one_frame symbolizer 4100 256 (replicate 512 no_addr)).1
    ≡ resolve_one_frame symbolizer 4100 256 (replicate 512 no_addr)
resolve_one_frame-again_example =
    resolve_one_frame-again symbolizer symbolizer 4100 (replicate 512 no_addr)
      (length-replicate 512 no_addr) (omega arith)

abbrev no_stacks : StackCache
no_stacks = record { entries = replicate 4096 []; count = 0 }

abbrev stack : List ℕ
stack = 4096 ∷ 8193 ∷ []

abbrev stack_entry : StackEntry
stack_entry = record {
  hash = stack_hash_compute stack;
  frames = 4096 ∷ 8192 ∷ [];
  is_resolved = false;
}

kept : (stack_cache_lookup true stack no_stacks).0 ≡ some stack_entry
unfolding stack_cache_lookup
kept = refl

stack_cache_lookup-IsFor_example : IsFor (stack_hash_compute stack) stack stack_entry
stack_cache_lookup-IsFor_example = stack_cache_lookup-IsFor true stack no_stacks stack_entry kept

stack_cache_lookup-again_example :
    stack_cache_lookup false stack (stack_cache_lookup true stack no_stacks).1
    ≡ (some stack_entry, (stack_cache_lookup true stack no_stacks).1)
stack_cache_lookup-again_example =
    stack_cache_lookup-again true false stack no_stacks stack_entry
      (length-replicate {A = List StackEntry} 4096 []) kept
