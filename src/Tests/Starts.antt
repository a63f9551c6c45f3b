-- ===== src/Tests/Starts.antt =====
-- Tests and examples of the start, of a fork, and of sequences of calls.
use memory_trace_tool.Base.{◌+◌, ◌<◌, ◌≡◌, refl, [], ◌∷◌, word, arith, ◌⊎◌, nonneg_or}
use memory_trace_tool.State.{State}
use memory_trace_tool.Table.Nodes.{nodes}
use memory_trace_tool.Table.Accounts.{IsConsistent}
use memory_trace_tool.Threads.{fresh_thread}
use memory_trace_tool.Startup.{read_settings, ensure_init}
use memory_trace_tool.Startup.Fork.{fork_child_slots, owner_at, fork_child_slots-alone}
use memory_trace_tool.Api
use memory_trace_tool.Trace.{Step, Reachable, Reachable-IsConsistent, get_leak_count-nodes, HasRoom}
use memory_trace_tool.Tests.{env, settings, boot, unborn}

-- A negative threshold does not count.
default_threshold : (read_settings settings).want_leak_threshold ≡ 300
unfolding read_settings nonneg_or
default_threshold = refl

started_Reachable : Reachable (ensure_init settings boot unborn)
started_Reachable = Reachable.at_start unborn settings boot refl refl refl

nothing_yet : (ensure_init settings boot unborn).counters.current_bytes ≡ 0
unfolding ensure_init
nothing_yet = refl

room_for_100 : HasRoom 100 (ensure_init settings boot unborn)
room_for_100 = omega (arith, (Reachable-IsConsistent started_Reachable).bytes, nothing_yet)

abbrev after_malloc : State
after_malloc = (Api.malloc env (ensure_init settings boot unborn) 100).1

after_malloc-Reachable : Reachable after_malloc
after_malloc-Reachable = Reachable.after started_Reachable (Step.api_malloc env 100 room_for_100)

Reachable-IsConsistent_example : IsConsistent 0 after_malloc
Reachable-IsConsistent_example = Reachable-IsConsistent after_malloc-Reachable

no_frees : (ensure_init settings boot unborn).counters.free_count ≡ 0
unfolding ensure_init
no_frees = refl

few_blocks :
    (ensure_init settings boot unborn).counters.free_count
      + nodes (ensure_init settings boot unborn)
    < word
few_blocks = let c = Reachable-IsConsistent started_Reachable in omega (arith, c.bounded, no_frees)

get_leak_count-nodes_example :
    Api.get_leak_count (ensure_init settings boot unborn) ≡ nodes (ensure_init settings boot unborn)
get_leak_count-nodes_example = get_leak_count-nodes started_Reachable few_blocks

fork_child_slots-alone_example :
    (owner_at (fork_child_slots 5 (fresh_thread 4 ∷ fresh_thread 5 ∷ [])) 0 ≡ 0)
    ⊎ (owner_at (fork_child_slots 5 (fresh_thread 4 ∷ fresh_thread 5 ∷ [])) 0 ≡ 5)
fork_child_slots-alone_example = fork_child_slots-alone 5 (fresh_thread 4 ∷ fresh_thread 5 ∷ []) 0
