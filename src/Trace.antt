-- ===== src/Trace.antt =====
-- src/tracker.c and src/hooks.c together: the states that a process can bring the tool to, by any
-- sequence of calls of the hooks and of the public interface.
use memory_trace_tool.Base.{
  ℕ, ◌+◌, ◌<◌, ◌≡◌, true, false, Option, some, Bool, List, length, min, add64, word, mul64, arith,
  Bool-cases, inl, inr, refl,
}
use memory_trace_tool.State.{State}
use memory_trace_tool.Table.{Env}
use memory_trace_tool.Table.Nodes.{live_bytes, nodes}
use memory_trace_tool.Table.Accounts.{IsConsistent}
use memory_trace_tool.Threads.{Thread}
use memory_trace_tool.Startup.{Environment, Boot, ensure_init}
use memory_trace_tool.Startup.Fresh.{ensure_init-IsConsistent}
use memory_trace_tool.Hooks.{Caller}
use memory_trace_tool.Api
use memory_trace_tool.Api.{get_leak_count}
use memory_trace_tool.Api.Keeps as Api_keeps
use memory_trace_tool.Api.Resize as Api_resize
use memory_trace_tool.Hooks
use memory_trace_tool.Hooks.Keeps as Hooks_keeps
use memory_trace_tool.Hooks.Resize as Hooks_resize
use memory_trace_tool.Wrappers
use memory_trace_tool.Wrappers.Fork.{fork-IsConsistent}
use memory_trace_tool.Wrappers.{Forked}
use memory_trace_tool.Wrappers.Keeps as Wrappers_keeps

-- The byte counter has room for `size` bytes more, as it has where the blocks share one address
-- space.
abbrev pub HasRoom : ℕ → State → Type 0
HasRoom size s = live_bytes s + size < word

-- One call. `Env`, the caller and its slot may be any each time, so that calls of many threads
-- may follow one another in any order.
pub data Step : State → State → Type 0 where
  api_malloc :
      {s : State} (env : Env) (size : ℕ) → HasRoom size s → Step s (Api.malloc env s size).1
  api_free : {s : State} (ptr : ℕ) → Step s (Api.free s ptr)
  api_calloc :
      {s : State} (env : Env) (count size : ℕ)
      → HasRoom (mul64 count size) s
      → Step s (Api.calloc env s count size).1
  api_realloc :
      {s : State} (env : Env) (ptr size : ℕ)
      → HasRoom size s
      → Step s (Api.realloc env s ptr size).1
  hook_malloc :
      {s : State} (env : Env) (c : Caller) (ctx : Option Thread) (size : ℕ)
      → HasRoom size s
      → Step s (Hooks.malloc env c ctx s size).2
  hook_free :
      {s : State} (env : Env) (c : Caller) (ctx : Option Thread) (ptr : ℕ)
      → Step s (Hooks.free env c ctx s ptr).1
  hook_calloc :
      {s : State} (env : Env) (c : Caller) (ctx : Option Thread) (count size : ℕ)
      → HasRoom (mul64 count size) s
      → Step s (Hooks.calloc env c ctx s count size).2
  hook_realloc :
      {s : State} (env : Env) (c : Caller) (ctx : Option Thread) (ptr size : ℕ)
      → HasRoom size s
      → Step s (Hooks.realloc env c ctx s ptr size).2
  hook_reallocarray :
      {s : State} (env : Env) (c : Caller) (ctx : Option Thread) (ptr nmemb size : ℕ)
      → HasRoom (mul64 nmemb size) s
      → Step s (Hooks.reallocarray env c ctx s ptr nmemb size).2
  hook_aligned_alloc :
      {s : State} (block : ℕ) (env : Env) (alignment size : ℕ)
      → Step s (Wrappers.aligned_alloc block env s alignment size).1
  hook_posix_memalign :
      {s : State} (block : ℕ) (env : Env) (alignment size : ℕ)
      → Step s (Wrappers.posix_memalign block env s alignment size).1
  hook_strdup :
      {s : State} (env : Env) (c : Caller) (ctx : Option Thread) (text : List ℕ)
      → HasRoom (add64 (length text) 1) s
      → Step s (Wrappers.strdup env c ctx s text).state
  hook_strndup :
      {s : State} (env : Env) (c : Caller) (ctx : Option Thread) (text : List ℕ) (n : ℕ)
      → HasRoom (add64 (min (length text) n) 1) s
      → Step s (Wrappers.strndup env c ctx s text n).state
  hook_vasprintf :
      {s : State} (env : Env) (c : Caller) (ctx : Option Thread) (strp_set : Bool) (len : ℕ)
      (written : Option ℕ)
      → HasRoom (add64 len 1) s
      → Step s (Wrappers.vasprintf env c ctx s strp_set (some len) written).state
  hook_fork :
      {s : State} (turns : ℕ) (found : Bool) (outcome : Forked) (r : Option ℕ × State)
      → Wrappers.fork turns found outcome s ≡ some r
      → Step s r.1
  restarted :
      {s : State} (env : Environment) (b : Boot)
      → b.raw_calloc_set ≡ true
      → b.buckets_by_calloc ≡ true
      → Step s (ensure_init env b s)

-- What the start, with a bucket array from `raw_calloc`, and any number of steps lead to.
pub data Reachable : State → Type 0 where
  at_start :
      (s : State) (env : Environment) (b : Boot)
      → s.initialized ≡ false
      → b.raw_calloc_set ≡ true
      → b.buckets_by_calloc ≡ true
      → Reachable (ensure_init env b s)
  after : {s s' : State} → Reachable s → Step s s' → Reachable s'

ensure_init_again :
    (env : Environment) (b : Boot) (s : State) → s.initialized ≡ true → ensure_init env b s ≡ s
unfolding ensure_init
ensure_init_again env b s done = rw done refl

-- One call keeps the invariant.
pub Step-IsConsistent : {s s' : State} → IsConsistent 0 s → Step s s' → IsConsistent 0 s'
Step-IsConsistent {s = s} c (Step.api_malloc env size fits) =
    (Api_keeps.malloc-Leaves env s size (c, fits)).consistent
Step-IsConsistent {s = s} c (Step.api_free ptr) = Api_keeps.free-IsConsistent s ptr c
Step-IsConsistent {s = s} c (Step.api_calloc env count size fits) =
    (Api_keeps.calloc-Leaves env s count size (c, fits)).consistent
Step-IsConsistent {s = s} c (Step.api_realloc env ptr size fits) =
    (Api_resize.realloc-Leaves env s ptr size (c, fits)).consistent
Step-IsConsistent {s = s} c (Step.hook_malloc env caller ctx size fits) =
    (Hooks_keeps.malloc-Keeps env caller ctx s size (c, fits)).consistent
Step-IsConsistent {s = s} c (Step.hook_free env caller ctx ptr) =
    Hooks_keeps.free-IsConsistent env caller ctx s ptr c
Step-IsConsistent {s = s} c (Step.hook_calloc env caller ctx count size fits) =
    (Hooks_keeps.calloc-Keeps env caller ctx s count size (c, fits)).consistent
Step-IsConsistent {s = s} c (Step.hook_realloc env caller ctx ptr size fits) =
    (Hooks_resize.realloc-Keeps env caller ctx s ptr size (c, fits)).consistent
Step-IsConsistent {s = s} c (Step.hook_reallocarray env caller ctx ptr nmemb size fits) =
    (Hooks_resize.reallocarray-Keeps env caller ctx s ptr nmemb size (c, fits)).consistent
Step-IsConsistent {s = s} c (Step.hook_aligned_alloc block env alignment size) =
    (Wrappers_keeps.aligned_alloc-Leaves block env s alignment size c).consistent
Step-IsConsistent {s = s} c (Step.hook_posix_memalign block env alignment size) =
    Wrappers_keeps.posix_memalign-IsConsistent block env s alignment size c
Step-IsConsistent {s = s} c (Step.hook_strdup env caller ctx text fits) =
    Wrappers_keeps.strdup-IsConsistent env caller ctx s text (c, fits)
Step-IsConsistent {s = s} c (Step.hook_strndup env caller ctx text n fits) =
    Wrappers_keeps.strndup-IsConsistent env caller ctx s text n (c, fits)
Step-IsConsistent {s = s} c (Step.hook_vasprintf env caller ctx strp_set len written fits) =
    Wrappers_keeps.vasprintf-IsConsistent env caller ctx s strp_set len written (c, fits)
Step-IsConsistent {s = s} c (Step.hook_fork turns found outcome r e) =
    fork-IsConsistent turns found outcome s r c e
Step-IsConsistent {s = s} c (Step.restarted env b set given) = elim (Bool-cases s.initialized) [
  | inl done ↦ rw (ensure_init_again env b s done) c
  | inr fresh ↦ ensure_init-IsConsistent env b s fresh set given
]

-- In every state that the start, with a bucket array from raw_calloc, and any sequence of calls
-- of the interface, of the hooks, of forks and of restarts lead to, where each allocation leaves
-- room in the byte counter: the byte counter is the sum of the records' sizes, the entry counter
-- is their number and at most the limit, the allocation counter is the free counter plus that
-- number on 64-bit words, and in pool mode the pool's books balance.
pub Reachable-IsConsistent : {s : State} → Reachable s → IsConsistent 0 s
Reachable-IsConsistent (Reachable.at_start s env b fresh set given) =
    ensure_init-IsConsistent env b s fresh set given
Reachable-IsConsistent (Reachable.after r step) = Step-IsConsistent (Reachable-IsConsistent r) step

-- In such a state the leak count is the number of records in the table, as long as the free
-- counter and that number add up to less than 2 ^ 64.
pub get_leak_count-nodes :
    {s : State} → Reachable s → s.counters.free_count + nodes s < word → get_leak_count s ≡ nodes s
unfolding get_leak_count
get_leak_count-nodes r fits = ground (arith, (Reachable-IsConsistent r).balance)
