-- ===== src/Threads/Depth.antt =====
-- The recursion guard of the hooks: the depth counter, its bound, and its balance.
use memory_trace_tool.Base.{ℕ, ◌≤◌, ◌≡◌, true, false, List, [], ◌∷◌, arith}
use memory_trace_tool.Threads.{
  Thread, hook_depth_max, depth_sentinel, fresh_thread, hook_enter, is_recursive, hook_inc_depth,
  hook_dec_depth, hook_begin, hook_end,
}

-- The depth has not been set up yet, or it is at most the bound.
abbrev pub IsSettled : Thread → Type 0
IsSettled t = (t.depth_inited ≡ depth_sentinel) → t.hook_depth ≤ hook_depth_max

-- The calls that touch a slot's depth.
pub data DepthCall : Type 0 where
  enter inc dec : DepthCall

unfoldable pub depth_call : Thread → DepthCall → Thread
unfolding hook_enter hook_inc_depth hook_dec_depth
depth_call t enter = hook_enter t
depth_call t inc = hook_inc_depth t
depth_call t dec = hook_dec_depth t

unfoldable pub depth_calls : Thread → List DepthCall → Thread
unfolding depth_call
depth_calls t [] = t
depth_calls t (c ∷ cs) = depth_calls (depth_call t c) cs

depth_call-IsSettled : (t : Thread) (c : DepthCall) → IsSettled t → IsSettled (depth_call t c)
unfolding depth_call
depth_call-IsSettled t enter h = ground arith
depth_call-IsSettled t inc h = ground arith
depth_call-IsSettled t dec h = ground arith

depth_calls-IsSettled :
    (t : Thread) (cs : List DepthCall) → IsSettled t → IsSettled (depth_calls t cs)
unfolding depth_calls
depth_calls-IsSettled t [] h = h
depth_calls-IsSettled t (c ∷ cs) h =
    depth_calls-IsSettled (depth_call t c) cs (depth_call-IsSettled t c h)

-- After any sequence of calls on a freshly taken slot, once the depth is set up, it is at most
-- its bound, and mtt_hook_enter leaves the slot as it is.
pub hook_enter-idle :
    (tid : ℕ) (cs : List DepthCall)
    → let t = depth_calls (fresh_thread tid) cs in
      t.depth_inited ≡ depth_sentinel → (t.hook_depth ≤ hook_depth_max) × (hook_enter t ≡ t)
unfolding hook_enter
hook_enter-idle tid cs set_up =
    let bound = depth_calls-IsSettled (fresh_thread tid) cs (λ e. absurd (omega arith)) set_up in
    ground (arith, bound)

-- In a slot whose depth, once set up, is within its bound: where a hook is entered and sees no
-- recursion, every hook nested in it does, a hook after its end does not, and in_hook, the owner
-- and the tool's mark are as before.
pub hook_begin-hook_end :
    (t : Thread)
    → IsSettled t
    → is_recursive (hook_enter t) ≡ false
    → let inside = hook_begin (hook_enter t) in
      let after = hook_end t.in_hook inside in
      (is_recursive (hook_enter inside) ≡ true)
      × (is_recursive (hook_enter after) ≡ false)
      × (after.in_hook ≡ t.in_hook)
      × (after.tid ≡ t.tid)
      × (after.tool_internal ≡ t.tool_internal)
unfolding hook_enter hook_begin hook_end is_recursive
hook_begin-hook_end t settled h = ground arith
