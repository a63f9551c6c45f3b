-- ===== src/Threads.antt =====
-- src/per_thread.h: the slot array of thread contexts; src/hooks.c: the depth of hook calls.
pub mod Slots
pub mod Depth
use memory_trace_tool.Base.{
  ℕ, zero, suc, ◌+◌, ◌-◌, ◌%◌, ◌^◌, Bool, true, false, not, ◌&&◌, Option, none, some, List, [], ◌∷◌,
  if◌then◌else◌, ◌==◌, ltb, leb, set, get_or,
}

-- MTT_MAX_THREADS, MTT_HOOK_DEPTH_MAX, the sentinel 0x2A, and -1 as a 32-bit pattern
abbrev pub max_threads : ℕ
max_threads = 512

abbrev pub hook_depth_max : ℕ
hook_depth_max = 8

abbrev pub depth_sentinel : ℕ
depth_sentinel = 0x2A

abbrev pub minus_one : ℕ
minus_one = 2 ^ 32 - 1

-- `mtt_per_thread_t`. The `int` fields are 32-bit patterns; 0 in `tid` marks a free slot.
pub record Thread : Type 0 where
  pub tid : ℕ
  pub hook_depth : ℕ
  pub depth_inited : ℕ
  pub in_hook : ℕ
  pub tool_internal : ℕ
  pub raw_resolving : ℕ
  pub in_capture : ℕ

-- a slot taken by `tid`, every field set
abbrev pub fresh_thread : ℕ → Thread
fresh_thread tid = record {
  tid = tid;
  hook_depth = minus_one;
  depth_inited = minus_one;
  in_hook = 0;
  tool_internal = 0;
  raw_resolving = 0;
  in_capture = 0;
}

-- the first slot from `i` on that passes a test on its owner
pub first_slot : (ℕ → Bool) → List Thread → ℕ → Option ℕ
first_slot test [] i = none
first_slot test (t ∷ ts) i = if test t.tid then some i else first_slot test ts (i + 1)

-- `kill(owner, 0) != 0 && errno == ESRCH`, for an owner that is not the caller
abbrev pub reclaimable : (ℕ → Bool) → ℕ → ℕ → Bool
reclaimable exited tid owner = not (owner == 0) && not (owner == tid) && exited owner

-- `mtt_thread_get`: the caller's slot, else a free one, else one whose thread has exited. Each
-- compare-and-swap succeeds here, as it does when no other thread takes the slot in between.
unfoldable pub thread_get : (ℕ → Bool) → List Thread → ℕ → Option ℕ × List Thread
unfolding first_slot
thread_get exited slots tid = elim (first_slot (λ owner. owner == tid) slots 0) [
  | some i ↦ (some i, slots)
  | none ↦ elim (first_slot (λ owner. owner == 0) slots 0) [
    | some i ↦ (some i, set slots i (fresh_thread tid))
    | none ↦ elim (first_slot (reclaimable exited tid) slots 0) [
      | some i ↦ (some i, set slots i (fresh_thread tid))
      | none ↦ (none, slots)
    ]
  ]
]

-- `x > k` for an `int` given by its pattern
abbrev pub int_above : ℕ → ℕ → Bool
int_above k x = ltb k x && ltb x (2 ^ 31)

-- `mtt_hook_enter` on the caller's slot; the depth that it returns is `hook_depth` afterwards
unfoldable pub hook_enter : Thread → Thread
hook_enter t =
    if not (t.depth_inited == depth_sentinel)
    then record t { hook_depth = 0; depth_inited = depth_sentinel }
    else if int_above hook_depth_max t.hook_depth
    then record t { hook_depth = 0 }
    else t

-- `mtt_hook_enter() > 0`
unfoldable pub is_recursive : Thread → Bool
is_recursive t = int_above 0 t.hook_depth

-- `mtt_hook_inc_depth`
unfoldable pub hook_inc_depth : Thread → Thread
hook_inc_depth t =
    let t' =
      if t.depth_inited == depth_sentinel
      then t
      else record t { hook_depth = 0; depth_inited = depth_sentinel } in
    if int_above (hook_depth_max - 1) t'.hook_depth
    then t'
    else record t' { hook_depth = (t'.hook_depth + 1) % 2 ^ 32 }

-- `mtt_hook_dec_depth`
unfoldable pub hook_dec_depth : Thread → Thread
hook_dec_depth t =
    if int_above 0 t.hook_depth
    then record t { hook_depth = t.hook_depth - 1 }
    else record t { hook_depth = 0 }

-- The depth and `in_hook` around the body of a hook.
unfoldable pub hook_begin : Thread → Thread
unfolding hook_inc_depth
hook_begin t = record (hook_inc_depth t) { in_hook = 1 }

unfoldable pub hook_end : ℕ → Thread → Thread
unfolding hook_dec_depth
hook_end saved_hook t = record (hook_dec_depth t) { in_hook = saved_hook }
