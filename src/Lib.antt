-- ===== src/Lib.antt =====
-- Memory Trace Tool: the tracking core of the LD_PRELOAD leak tracer, and what it promises.
--
-- The program sits between a process and libc's allocator. A hook (src/hooks.c) or a function of
-- the interface (src/tracker.c) hands a request on to libc and, if the sampler and the capacity
-- admit it, keeps a record of the block in a hash table; freeing a block removes its record.
-- Records come from a pool that is made at the start. A reporter thread (src/reporter.c) scans the
-- table, groups the records by call stack (src/stack_cache.c) and stores totals, which a time
-- series (src/time_series.c) samples once a second.
--
-- The model passes one state, `State`, through the code's functions. A critical section under a
-- lock is one function, and functions run one after the other in the order of the code: the hooks
-- of many threads are sequences of calls with a slot each. Only the search for libc's functions
-- is also a relation of steps that threads take in turns, each stretch of stores one step. Words
-- of 64 and 32 bits wrap around where the code's do. A pointer is a number and NULL is 0; pointers
-- have 8 bytes.
--
-- What the code reads from outside is in a record that each call takes: `Table.Env` (the clock,
-- the captured stack, locks that are busy, libc's results), `Startup.Boot` and
-- `Startup.Environment` (settings and first blocks), `Series.Meter`, `Leaks.Scan`,
-- `Capture.Machine` and `Capture.Unwinders`, `Resolve.Linker`, `StackCache.Frames.Symbolizer`; the
-- texts of files and variables are arguments. Calls of libc's allocator go to a log in the state.
--
--   State, State/Hash   src/mtt_internal.h: mtt_entry_t, mtt_state_t, mtt_bucket_of, mtt_stripe_of
--   Table               src/tracker.c: mtt_entry_find, mtt_entry_remove, mtt_entry_add,
--                       mtt_entry_discard, mtt_entry_new, mtt_pool_contains, mtt_is_over_capacity
--   Sampling            src/tracker.c: mtt_should_track, mtt_is_startup_phase
--   Threads             src/per_thread.h: mtt_thread_get; src/hooks.c: the depth of hook calls
--   Books               the counter updates that src/tracker.c and src/hooks.c write out alike
--   Api                 src/tracker.c: mtt_malloc, mtt_free, mtt_calloc, mtt_realloc
--   Blacklist           src/tracker.c: mtt_is_lr_in_blacklist; Blacklist/Fast:
--                       mtt_parse_blacklist_fast; Blacklist/Texts: mtt_is_blacklisted, and
--                       src/reporter.c: is_internal_frame
--   Hooks               src/hooks.c: malloc, free, calloc, realloc, reallocarray
--   Wrappers            src/hooks.c: aligned_alloc, posix_memalign, memalign, valloc, strdup,
--                       strndup, asprintf, vasprintf, fork
--   Startup             src/tracker.c: mtt_ensure_init; Startup/Fork: mtt_fork_child
--   Trace               every sequence of these calls, as a step relation
--   Series              src/time_series.c: the ring buffer
--   Ranges              src/addr_validate.c: the binary searches
--   Maps                src/addr_validate.c: parse_maps_locked
--   Resolve             src/tracker.c: mtt_resolve_raw_allocators; Resolve/Race: by many threads
--   Capture             src/tracker.c: mtt_capture_stack
--   Bootstrap           src/tracker.c: bootstrap_malloc, bootstrap_calloc, bootstrap_realloc
--   StackCache          src/stack_cache.c: the hash of a stack, the caches of stacks and symbols;
--                       StackCache/Frames: resolve_one_frame and mtt_stack_resolve
--   Leaks               src/reporter.c: scan_and_report_locked up to the counters it stores
--   Http                src/http_server.c: write_json_string and the frames of write_leak_json
--   Request             src/http_server.c: parse_request and its caller
--   Flame               src/flamegraph.c: the line that mtt_flamegraph_write makes of a site
--   Tests               tests by computation and examples
--
-- Loops are recursion on the list or the count that they run over. Seven run on fuel: the binary
-- search, which has as many steps as there are ranges and halves what is left; the visit of one
-- stripe's buckets, which has as many steps as there are buckets and takes every 64th; the
-- halving of the snapshot's size, which has 64 steps for a 64-bit number; the digits of a
-- number, 16 or 20 of them for a 64-bit number; the walk along frame pointers, whose bound of 64
-- is the code's; the wait for libc's fork, whose turns are an argument; and the table of ranges,
-- whose room of 256 is the code's.
--
-- Not modelled: the contents of user blocks; what the unwinders give (libunwind, vendored and
-- wrapped, and backtrace); what dladdr, backtrace_symbols and the demangler say; files, sockets,
-- threads and signals; interleavings inside a critical section and lost updates between two atomic
-- operations. `sscanf` is written out for the two formats that read /proc/self/maps. The writers
-- of reports are not modelled.
pub mod Base
pub mod State
pub mod Table
pub mod Sampling
pub mod Threads
pub mod Books
pub mod Api
pub mod Blacklist
pub mod Hooks
pub mod Wrappers
pub mod Series
pub mod Startup
pub mod Trace
pub mod Ranges
pub mod Capture
pub mod Maps
pub mod Resolve
pub mod Bootstrap
pub mod StackCache
pub mod Leaks
pub mod Http
pub mod Request
pub mod Flame
pub mod Tests
