-- ===== src/Wrappers.antt =====
-- src/hooks.c: the other functions that LD_PRELOAD puts in libc's place, from `aligned_alloc` on.
-- The aligned ones go past the tracking; those on strings call the hook of `malloc`.
pub mod Align
pub mod Fork
pub mod Keeps
use memory_trace_tool.Base.{
  ℕ, zero, suc, ◌&&◌, ◌+◌, ◌-◌, Bool, true, false, not, ◌||◌, Option, none, some, List, [], ◌∷◌,
  ◌++◌, if◌then◌else◌, ◌==◌, ltb, length, take, add64, min, bit_and,
}
use memory_trace_tool.State.{State, RawCall, null}
use memory_trace_tool.Table.{Env, log_raw}
use memory_trace_tool.Threads.{Thread}
use memory_trace_tool.Startup.Fork.{fork_child}
use memory_trace_tool.Api.{user_malloc}
use memory_trace_tool.Hooks.{Caller, Outcome, lr_in_blacklist, from_hook, pass_malloc}
use memory_trace_tool.Hooks as Hooks

-- `(alignment & (alignment - 1)) != 0`
abbrev pub is_odd_alignment : ℕ → Bool
is_odd_alignment alignment = not (bit_and alignment (alignment - 1) == 0)

-- at least sizeof(void*)
abbrev pub raised : ℕ → ℕ
raised alignment = if ltb alignment 8 then 8 else alignment

-- `size ? size : 1`
abbrev pub at_least_one : ℕ → ℕ
at_least_one size = if size == 0 then 1 else size

-- `aligned_alloc`. `block` is what libc's posix_memalign gives, NULL where it fails.
unfoldable pub aligned_alloc : ℕ → Env → State → ℕ → ℕ → ℕ × State
aligned_alloc block env s alignment size =
    if alignment == 0 || is_odd_alignment alignment
    then (null, s)
    else if s.raw.memalign_set
    then (block, log_raw (RawCall.raw_memalign (raised alignment) (at_least_one size)) s)
    else if not s.raw.malloc_set
    then (null, s)
    else user_malloc env s (at_least_one size)

-- EINVAL and ENOMEM
abbrev pub einval : ℕ
einval = 22

abbrev pub enomem : ℕ
enomem = 12

-- What `posix_memalign` returns, and what it stores at `memptr`, if anything.
pub record Aligned : Type 0 where
  pub code : ℕ
  pub stored : Option ℕ

abbrev pub aligned_result : ℕ × State → Aligned × State
aligned_result (p, s) = (
  (if p == null
      then record { code = enomem; stored = none }
      else record { code = 0; stored = some p }),
  s,
)

-- `posix_memalign`
unfoldable pub posix_memalign : ℕ → Env → State → ℕ → ℕ → Aligned × State
posix_memalign block env s alignment size =
    if is_odd_alignment (raised alignment)
    then (record { code = einval; stored = none }, s)
    else aligned_result (aligned_alloc block env s (raised alignment) size)

-- `memalign`
unfoldable pub memalign : ℕ → Env → State → ℕ → ℕ → ℕ × State
unfolding aligned_alloc
memalign block env s alignment size = aligned_alloc block env s alignment size

-- `valloc`; `page` is what getpagesize gives
unfoldable pub valloc : ℕ → ℕ → Env → State → ℕ → ℕ × State
unfolding aligned_alloc
valloc page block env s size = aligned_alloc block env s page size

-- `mem` bytes for a copy: past the tracking for a blacklisted caller, else by the hook of `malloc`
pub copy_block : Env → Caller → Option Thread → State → ℕ → Outcome
copy_block env c ctx s size =
    if lr_in_blacklist c
    then (let (p, s') = pass_malloc env s size in (p, ctx, s'))
    else Hooks.malloc env (from_hook c) ctx s size

-- A block for a copy, the bytes that are written to it, and the slot and the state.
pub record Copied : Type 0 where
  pub ptr : ℕ
  pub bytes : List ℕ
  pub slot : Option Thread
  pub state : State

pub copied : List ℕ → Outcome → Copied
copied bytes (p, slot, s) = record {
  ptr = p;
  bytes = if p == null then [] else bytes;
  slot = slot;
  state = s;
}

-- `strdup` of a string that is not NULL, given by its bytes without the NUL
unfoldable pub strdup : Env → Caller → Option Thread → State → List ℕ → Copied
unfolding copy_block copied
strdup env c ctx s text = copied (text ++ (0 ∷ [])) (copy_block env c ctx s (add64 (length text) 1))

-- `strndup`
unfoldable pub strndup : Env → Caller → Option Thread → State → List ℕ → ℕ → Copied
unfolding copy_block copied
strndup env c ctx s text n =
    let len = min (length text) n in
    copied (take len text ++ (0 ∷ [])) (copy_block env c ctx s (add64 len 1))

-- What `vasprintf` returns (nothing stands for -1), what it stores at `strp`, and the rest.
pub record Printed : Type 0 where
  pub result : Option ℕ
  pub stored : Option ℕ
  pub slot : Option Thread
  pub state : State

abbrev pub unprinted : Option Thread → State → Printed
unprinted slot s = record { result = none; stored = none; slot = slot; state = s }

-- `vasprintf` once it has a block; `written` is what the second vsnprintf returns.
pub print_into : Env → Caller → Option ℕ → Outcome → Printed
print_into env c written (p, slot, s) = if p == null then unprinted slot s else elim written [
  | some n ↦ record { result = some n; stored = some p; slot = slot; state = s }
  | none ↦ let (slot', s') = Hooks.free env (from_hook c) slot s p in unprinted slot' s'
]

-- `vasprintf`. `len` is what the first vsnprintf returns.
unfoldable pub vasprintf :
    Env → Caller → Option Thread → State → Bool → Option ℕ → Option ℕ → Printed
unfolding copy_block print_into
vasprintf env c ctx s strp_set none written = unprinted ctx s
vasprintf env c ctx s strp_set (some len) written =
    if not strp_set
    then unprinted ctx s
    else print_into env c written (copy_block env c ctx s (add64 len 1))

-- `asprintf`: what calls `vasprintf` is this function.
unfoldable pub asprintf :
    Env → Caller → Option Thread → State → Bool → Option ℕ → Option ℕ → Printed
unfolding vasprintf
asprintf env c ctx s strp_set len written = vasprintf env (from_hook c) ctx s strp_set len written

-- What libc's fork comes back with: in the child, in the parent with the child's id, or not at all.
pub data Forked : Type 0 where
  in_child : Forked
  in_parent : ℕ → Forked
  failed : Forked

-- the loop of `resolve_raw_fork`, once the pointer is looked up: whether so many turns are enough
-- to leave it
pub wait_for_fork : ℕ → Bool → Bool → Bool
wait_for_fork zero found resolved = false
wait_for_fork (suc turns) found resolved =
    let later = wait_for_fork turns found resolved in if not found && resolved then later else true

-- `fork`: what it returns (nothing stands for -1), and the state of the process that it returns
-- in; nothing at all if the loop takes more turns than given. `found` is whether dlsym finds libc's
-- fork. The locks that are taken before libc's fork are free again after each outcome.
unfoldable pub fork : ℕ → Bool → Forked → State → Option (Option ℕ × State)
unfolding wait_for_fork
fork turns found outcome s = elim (wait_for_fork turns found true) [
  | false ↦ none
  | true ↦ if not found then some (none, s) else elim outcome [
    | in_child ↦ some (some 0, fork_child s)
    | in_parent pid ↦ some (some pid, s)
    | failed ↦ some (none, s)
  ]
]
