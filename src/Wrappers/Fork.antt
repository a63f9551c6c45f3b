-- ===== src/Wrappers/Fork.antt =====
-- src/hooks.c: `fork` comes back just where dlsym finds libc's fork.
use memory_trace_tool.Base.{ℕ, zero, suc, ◌≡◌, refl, subst, Bool, true, false, Option, none, some}
use memory_trace_tool.State.{State}
use memory_trace_tool.Startup.Fork.{fork_child, fork_child-IsConsistent}
use memory_trace_tool.Table.Accounts.{IsConsistent}
use memory_trace_tool.Wrappers.{Forked, in_child, in_parent, failed, wait_for_fork, fork}

wait_for_fork-missing : (turns : ℕ) → wait_for_fork turns false true ≡ false
unfolding wait_for_fork
wait_for_fork-missing zero = refl
wait_for_fork-missing (suc turns) = wait_for_fork-missing turns

abbrev result_of : Forked → State → Option ℕ × State
result_of in_child s = (some 0, fork_child s)
result_of (in_parent pid) s = (some pid, s)
result_of failed s = (none, s)

fork-found :
    (turns : ℕ) (outcome : Forked) (s : State)
    → fork (suc turns) true outcome s ≡ some (result_of outcome s)
unfolding fork wait_for_fork
fork-found turns in_child s = refl
fork-found turns (in_parent pid) s = refl
fork-found turns failed s = refl

fork-missing : (turns : ℕ) (outcome : Forked) (s : State) → fork turns false outcome s ≡ none
unfolding fork
fork-missing turns outcome s = rw (fork, wait_for_fork-missing turns) refl

fork-zero : (found : Bool) (outcome : Forked) (s : State) → fork 0 found outcome s ≡ none
unfolding fork wait_for_fork
fork-zero found outcome s = refl

result-IsConsistent :
    (outcome : Forked) (s : State) → IsConsistent 0 s → IsConsistent 0 (result_of outcome s).1
result-IsConsistent in_child s ok = fork_child-IsConsistent s ok
result-IsConsistent (in_parent pid) s ok = ok
result-IsConsistent failed s ok = ok

-- The state that a fork comes back with is in order.
pub fork-IsConsistent :
    (turns : ℕ) (found : Bool) (outcome : Forked) (s : State) (r : Option ℕ × State)
    → IsConsistent 0 s
    → fork turns found outcome s ≡ some r
    → IsConsistent 0 r.1
fork-IsConsistent turns false outcome s r ok e = cc (e, fork-missing turns outcome s)
fork-IsConsistent zero true outcome s r ok e = cc (e, fork-zero true outcome s)
fork-IsConsistent (suc turns) true outcome s r ok e =
    let same : result_of outcome s ≡ r = cc (e, fork-found turns outcome s) in
    subst (λ (r : Option ℕ × State). IsConsistent 0 r.1) same (result-IsConsistent outcome s ok)
