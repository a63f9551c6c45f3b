-- ===== src/Tests/Supplies.antt =====
-- Tests and examples of the pool's supply, of pairs of calls, and of the other hooks.
use memory_trace_tool.Base.{◌≡◌, ◌<◌, ◌↔◌, max, refl, false, none, some, [], ◌∷◌, arith}
use memory_trace_tool.State.{State, Entry, bucket_of}
use memory_trace_tool.Table.{entry_new, entry_find, pool_contains}
use memory_trace_tool.Table.Nodes.{nodes, live_bytes, bytes_of, count_of, empties_of}
use memory_trace_tool.Table.Accounts.{IsConsistent}
use memory_trace_tool.Table.Supply.{entry_new_iff}
use memory_trace_tool.Threads.{fresh_thread, hook_enter, is_recursive}
use memory_trace_tool.Blacklist.{is_lr_in_blacklist}
use memory_trace_tool.Startup.{ensure_init}
use memory_trace_tool.Startup.Fresh.{ensure_init-IsConsistent}
use memory_trace_tool.Hooks
use memory_trace_tool.Hooks.Pair.{SameBooks, free-malloc}
use memory_trace_tool.Wrappers.{posix_memalign, aligned_alloc, strndup}
use memory_trace_tool.Wrappers.Align.{Answers, posix_memalign_lem}
use memory_trace_tool.Tests.{vacant, env, outsider, insider, settings, boot, unborn}

vacant-IsConsistent : IsConsistent 0 vacant
unfolding bytes_of count_of empties_of
vacant-IsConsistent = record {
  table = record { allocated = refl; some_bucket = omega arith; fits = omega arith };
  bytes = refl;
  entries = refl;
  fits = omega arith;
  sized = refl;
  bounded = omega arith;
  balance = refl;
  pool = λ h. absurd (h refl);
}

pool_base : (ensure_init settings boot unborn).pool.base ≡ 100000
unfolding ensure_init
pool_base = refl

entry_new_iff_example :
    ((e : Entry) × ((entry_new env (ensure_init settings boot unborn) 8 24).0 ≡ some e))
    ↔ (nodes (ensure_init settings boot unborn) < (ensure_init settings boot unborn).pool.capacity)
entry_new_iff_example =
    entry_new_iff env (ensure_init settings boot unborn) 8 24
      (ensure_init-IsConsistent settings boot unborn refl refl refl)
      (λ e. absurd (omega (arith, e, pool_base))) (λ _. refl)

no_block : entry_find vacant 4000 ≡ none
unfolding entry_find bucket_of
no_block = refl

no_pool : pool_contains vacant 4000 ≡ false
unfolding pool_contains
no_pool = refl

idle : is_recursive (hook_enter (fresh_thread 5)) ≡ false
unfolding is_recursive hook_enter
idle = refl

known_caller : Hooks.is_exempt outsider (hook_enter (fresh_thread 5)) ≡ false
unfolding is_lr_in_blacklist hook_enter
known_caller = refl

nothing_live : live_bytes vacant ≡ 0
unfolding bytes_of
nothing_live = refl

free-malloc_example :
    SameBooks vacant
      (Hooks.free env outsider
        (some (fresh_thread 5))
        (Hooks.malloc env outsider none vacant 100).2
        4000).1
free-malloc_example =
    free-malloc env env outsider outsider none (fresh_thread 5) vacant 100
      (vacant-IsConsistent, omega (arith, nothing_live)) (omega arith) no_block no_pool refl refl
      idle known_caller

-- 4 is raised to 8, which libc then serves.
aligned_to_8 : (posix_memalign 4000 env vacant 4 100).0.code ≡ 0
unfolding posix_memalign aligned_alloc
aligned_to_8 = refl

posix_memalign_lem_example :
    Answers 4000 (max 4 8) (max 100 1) vacant (posix_memalign 4000 env vacant 4 100)
posix_memalign_lem_example = posix_memalign_lem 4000 env vacant 4 100 refl

-- two letters of three, and the NUL
two_letters : (strndup env insider none vacant (97 ∷ 98 ∷ 99 ∷ []) 2).bytes ≡ 97 ∷ 98 ∷ 0 ∷ []
unfolding strndup is_lr_in_blacklist
two_letters = refl
