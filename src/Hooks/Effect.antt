-- ===== src/Hooks/Effect.antt =====
-- What the hook of `free` does to the records, by who calls it.
use memory_trace_tool.Base.{
  ℕ, ◌≡◌, ◌≢◌, true, false, Option, some, if◌then◌else◌, ◌==◌, ◌||◌, arith, ap, if_elim,
}
use memory_trace_tool.State.{State, RawCall, null}
use memory_trace_tool.Table.{Env, log_raw, pool_contains}
use memory_trace_tool.Table.Records.{IsTable, records, older}
use memory_trace_tool.Threads.{Thread, hook_enter, is_recursive, hook_begin, hook_end}
use memory_trace_tool.Books.{forget}
use memory_trace_tool.Books.Effect.{records-forget}
use memory_trace_tool.Hooks.{
  Caller, lr_in_blacklist, is_exempt, pass_free, free_body, free_by, free, count_freed,
}

-- A block outside the tool's pool that is freed from a blacklisted library, with libc's free
-- known, goes back to libc, and nothing else in the state changes, so that a record that the
-- block has stays.
pub free-blacklisted :
    (env : Env) (c : Caller) (t : Thread) (s : State) (p : ℕ)
    → lr_in_blacklist c ≡ true
    → p ≢ null
    → pool_contains s p ≡ false
    → s.raw.free_set ≡ true
    → (free env c (some t) s p).1 ≡ log_raw (RawCall.raw_free p) s
unfolding free free_by free_body
free-blacklisted env c t s p listed h outside set =
    let there : (p == null || pool_contains s p) ≡ false = ground (arith, outside) in
    let exempt : is_exempt c (hook_enter t) ≡ true = ground (arith, listed) in
    let passed : pass_free s p ≡ log_raw (RawCall.raw_free p) s =
      ap (λ b. if b then log_raw (RawCall.raw_free p) s else s) set in
    rw (there, exempt)
      (if_elim (λ (r : Option Thread × State). r.1 ≡ log_raw (RawCall.raw_free p) s)
        (is_recursive (hook_enter t)) (some (hook_enter t), pass_free s p)
        (some (hook_end (hook_enter t).in_hook (hook_begin (hook_enter t))), pass_free s p)
        (λ _. passed) (λ _. passed))

-- In an allocated table, while tracking is on and libc's free is known, for a caller that is not
-- exempt and whose thread is in no hook: the hook of free, for a pointer that is neither NULL nor
-- in the tool's pool, drops the newest record of the pointer, if there is one, and leaves the
-- records of every other pointer.
pub records-free_hook :
    (env : Env) (c : Caller) (t : Thread) (s : State) (p q : ℕ)
    → IsTable s
    → p ≢ null
    → pool_contains s p ≡ false
    → is_recursive (hook_enter t) ≡ false
    → is_exempt c (hook_enter t) ≡ false
    → s.raw.free_set ≡ true
    → s.disabled ≡ false
    → records (free env c (some t) s p).1 q ≡ (if p == q then older (records s q) else records s q)
unfolding free free_by free_body records
records-free_hook env c t s p q table h outside idle known set on =
    let there : (p == null || pool_contains s p) ≡ false = ground (arith, outside) in
    let count = count_freed env.now s.leak_threshold_sec in
    simp (there, idle, known, set, on)
      (logged (forget count s p) (records-forget count s p q table h))
  where
    logged :
        (s' : State)
        → records s' q ≡ (if p == q then older (records s q) else records s q)
        → records (log_raw (RawCall.raw_free p) s') q
          ≡ (if p == q then older (records s q) else records s q)
    logged s' e = e
