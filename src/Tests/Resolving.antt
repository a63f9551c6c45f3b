-- ===== src/Tests/Resolving.antt =====
-- Tests and examples of the search for libc's allocator.
use memory_trace_tool.Base.{◌≡◌, refl, true, none, some, [], ◌∷◌, ◌==◌, if◌then◌else◌}
use memory_trace_tool.Threads.{fresh_thread}
use memory_trace_tool.Resolve.{Symbols, Linker, resolve_raw_allocators, found, bootstrap, own_name}
use memory_trace_tool.Http.{contains}
use memory_trace_tool.Resolve.First.{Settled, resolve_raw_allocators-Settled}
use memory_trace_tool.Resolve.Race.{
  World, Reachable, IsStuck, IsSafe, nothing_set, late-IsStuck, Reachable-IsSafe,
}

abbrev no_symbols : Symbols
no_symbols = record {
  malloc = none;
  free = none;
  calloc = none;
  realloc = none;
  posix_memalign = none;
}

-- RTLD_NEXT finds the tool's own malloc at 7 and libc's free at 20; the second library that is
-- tried opens and has a malloc, and there is no calloc anywhere.
abbrev linker : Linker
linker = record {
  next = record no_symbols { malloc = some 7; free = some 20; realloc = some 21 };
  dladdr = λ a. some (if a == 7 then some own_name else some (99 ∷ []));
  candidates = none ∷ some (record no_symbols { malloc = some 30; free = some 31 }) ∷ [];
}

malloc_of_libc :
    (resolve_raw_allocators linker (some (fresh_thread 5)) nothing_set).pointers.malloc ≡ found 30
unfolding resolve_raw_allocators contains
malloc_of_libc = refl

no_calloc :
    (resolve_raw_allocators linker (some (fresh_thread 5)) nothing_set).pointers.calloc ≡ bootstrap
unfolding resolve_raw_allocators contains
no_calloc = refl

resolve_raw_allocators-Settled_example :
    Settled linker (resolve_raw_allocators linker (some (fresh_thread 5)) nothing_set).pointers
    × ((resolve_raw_allocators linker (some (fresh_thread 5)) nothing_set).ready ≡ true)
resolve_raw_allocators-Settled_example =
    resolve_raw_allocators-Settled linker (fresh_thread 5) nothing_set refl refl refl refl

late-IsStuck_example : (w : World) × Reachable linker 2 w × IsStuck linker w
late-IsStuck_example = late-IsStuck linker 0

Reachable-IsSafe_example : IsSafe (late-IsStuck linker 0).0
Reachable-IsSafe_example = Reachable-IsSafe (late-IsStuck linker 0).1
