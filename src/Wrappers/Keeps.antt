-- ===== src/Wrappers/Keeps.antt =====
-- The wrappers keep the invariant of the tracking state.
use memory_trace_tool.Base.{
  ℕ, ◌||◌, Bool, not, Option, none, some, List, [], ◌∷◌, ◌++◌, take, if◌then◌else◌, ◌==◌, length,
  add64, min, if_elim,
}
use memory_trace_tool.State.{State, RawCall, null}
use memory_trace_tool.Table.{Env, log_raw}
use memory_trace_tool.Table.Accounts.{IsConsistent, Leaves, log_raw-IsConsistent}
use memory_trace_tool.Threads.{Thread}
use memory_trace_tool.Api.{user_malloc}
use memory_trace_tool.Api.Keeps.{Ready}
use memory_trace_tool.Hooks.{Caller, Outcome, lr_in_blacklist, from_hook, pass_malloc}
use memory_trace_tool.Hooks as Hooks
use memory_trace_tool.Hooks.Keeps.{
  Keeps, malloc-Keeps, pass_malloc-Leaves, beside-Keeps, free-IsConsistent,
}
use memory_trace_tool.Wrappers.{
  is_odd_alignment, raised, at_least_one, aligned_alloc, aligned_result, posix_memalign, copy_block,
  copied, strdup, strndup, Printed, unprinted, print_into, vasprintf,
}

-- The aligned functions only hand a request on.
pub aligned_alloc-Leaves :
    (block : ℕ) (env : Env) (s : State) (alignment size : ℕ)
    → IsConsistent 0 s
    → Leaves (aligned_alloc block env s alignment size)
unfolding aligned_alloc
aligned_alloc-Leaves block env s alignment size ok =
    let asked = log_raw (RawCall.raw_memalign (raised alignment) (at_least_one size)) s in
    let plain = user_malloc env s (at_least_one size) in
    let set : ℕ × State = if not s.raw.malloc_set then (null, s) else plain in
    let good : ℕ × State = if s.raw.memalign_set then (block, asked) else set in
    if_elim Leaves (alignment == 0 || is_odd_alignment alignment) (null, s) good
      (λ _. (record { consistent = ok }))
      λ _.
        if_elim Leaves s.raw.memalign_set (block, asked) set
          (λ _. (record { consistent = log_raw-IsConsistent _ ok }))
          λ _.
            if_elim Leaves (not s.raw.malloc_set) (null, s) plain
              (λ _. (record { consistent = ok }))
              (λ _. (record { consistent = log_raw-IsConsistent _ ok }))

pub posix_memalign-IsConsistent :
    (block : ℕ) (env : Env) (s : State) (alignment size : ℕ)
    → IsConsistent 0 s
    → IsConsistent 0 (posix_memalign block env s alignment size).1
unfolding posix_memalign
posix_memalign-IsConsistent block env s alignment size ok =
    if_elim (λ r. IsConsistent 0 r.1) (is_odd_alignment (raised alignment)) _
      (aligned_result (aligned_alloc block env s (raised alignment) size)) (λ _. ok)
      (λ _. (aligned_alloc-Leaves block env s (raised alignment) size ok).consistent)

copy_block-Keeps :
    (env : Env) (c : Caller) (ctx : Option Thread) (s : State) (size : ℕ)
    → Ready size s
    → Keeps (copy_block env c ctx s size)
unfolding copy_block
copy_block-Keeps env c ctx s size (ok, fits) =
    let through = pass_malloc env s size in
    if_elim Keeps (lr_in_blacklist c) (through.0, ctx, through.1)
      (Hooks.malloc env (from_hook c) ctx s size)
      (λ _. beside-Keeps ctx through (pass_malloc-Leaves env s size ok))
      (λ _. malloc-Keeps env (from_hook c) ctx s size (ok, fits))

copied-IsConsistent :
    (bytes : List ℕ) (r : Outcome) → Keeps r → IsConsistent 0 (copied bytes r).state
unfolding copied
copied-IsConsistent bytes (p, slot, s) k = k.consistent

pub strdup-IsConsistent :
    (env : Env) (c : Caller) (ctx : Option Thread) (s : State) (text : List ℕ)
    → Ready (add64 (length text) 1) s
    → IsConsistent 0 (strdup env c ctx s text).state
unfolding strdup
strdup-IsConsistent env c ctx s text ready =
    copied-IsConsistent (text ++ (0 ∷ [])) _
      (copy_block-Keeps env c ctx s (add64 (length text) 1) ready)

pub strndup-IsConsistent :
    (env : Env) (c : Caller) (ctx : Option Thread) (s : State) (text : List ℕ) (n : ℕ)
    → Ready (add64 (min (length text) n) 1) s
    → IsConsistent 0 (strndup env c ctx s text n).state
unfolding strndup
strndup-IsConsistent env c ctx s text n ready =
    copied-IsConsistent (take (min (length text) n) text ++ (0 ∷ [])) _
      (copy_block-Keeps env c ctx s (add64 (min (length text) n) 1) ready)

print_into-IsConsistent :
    (env : Env) (c : Caller) (written : Option ℕ) (r : Outcome)
    → Keeps r
    → IsConsistent 0 (print_into env c written r).state
unfolding print_into
print_into-IsConsistent env c none (p, slot, s) k =
    if_elim (λ (r : Printed). IsConsistent 0 r.state) (p == null) (unprinted slot s) _
      (λ _. k.consistent) (λ _. free-IsConsistent env (from_hook c) slot s p k.consistent)
print_into-IsConsistent env c (some n) (p, slot, s) k =
    if_elim (λ (r : Printed). IsConsistent 0 r.state) (p == null) (unprinted slot s) _
      (λ _. k.consistent) (λ _. k.consistent)

pub vasprintf-IsConsistent :
    (env : Env) (c : Caller) (ctx : Option Thread) (s : State) (strp_set : Bool) (len : ℕ)
    (written : Option ℕ)
    → Ready (add64 len 1) s
    → IsConsistent 0 (vasprintf env c ctx s strp_set (some len) written).state
unfolding vasprintf
vasprintf-IsConsistent env c ctx s strp_set len written ready =
    if_elim (λ (r : Printed). IsConsistent 0 r.state) (not strp_set) (unprinted ctx s) _
      (λ _. ready.0)
      (λ _.
        print_into-IsConsistent env c written _ (copy_block-Keeps env c ctx s (add64 len 1) ready))
