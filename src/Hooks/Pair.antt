-- ===== src/Hooks/Pair.antt =====
-- The hooks of `malloc` and `free` one after the other.
use memory_trace_tool.Base.{
  ℕ, ◌≡◌, ◌≢◌, ◌∙◌, ap, refl, sym, Bool, true, false, not, ◌||◌, Option, none, some, if◌then◌else◌,
  ◌==◌, arith, if_elim,
}
use memory_trace_tool.State.{State, RawCall, null}
use memory_trace_tool.Table.{Env, log_raw, entry_find, pool_contains}
use memory_trace_tool.Table.Records.{IsTable}
use memory_trace_tool.Table.Nodes.{bytes_of, count_of}
use memory_trace_tool.Table.Accounts.{IsConsistent}
use memory_trace_tool.Table.Steady.{
  Steady, Steady-refl, Steady-trans, is_over_capacity-Steady, is_over_capacity-buckets,
}
use memory_trace_tool.Sampling.{should_track}
use memory_trace_tool.Threads.{Thread, hook_enter, is_recursive}
use memory_trace_tool.Books.{forget, record_block}
use memory_trace_tool.Books.Undo.{Undone, Undone-idle, Undone-record_block}
use memory_trace_tool.Api.{user_malloc}
use memory_trace_tool.Api.Keeps.{Ready}
use memory_trace_tool.Hooks.{
  Caller, pass_malloc, admit, record_admitted, malloc_tracked, passes, is_exempt, malloc_body,
  Outcome, bracket, malloc, free_body, free_by, free, count_freed,
}
use memory_trace_tool.Hooks.Keeps.{malloc-Keeps, free-IsConsistent}

module _ (env : Env) (s : State) (t : IsTable s) (p : ℕ) (some_block : p ≢ null)
    (missing : entry_find s p ≡ none) where
  passed : (call : RawCall) → Undone s p (log_raw call s)
  passed call = Undone-idle s (log_raw call s) p (ground arith) refl missing

  pass_malloc-Undone : (size : ℕ) → Undone s p (pass_malloc env s size).1
  pass_malloc-Undone size =
      if_elim (λ (r : ℕ × State). Undone s p r.1) s.raw.malloc_set _ _
        (λ _. passed (RawCall.raw_malloc size))
        (λ _. Undone-idle s s p (Steady-refl s) refl missing)

  recorded :
      (r : Bool × State) (size : ℕ)
      → Steady s r.1
      → r.1.buckets ≡ s.buckets
      → Undone s p (record_admitted env r p size)
  unfolding record_admitted
  recorded (go, s') size steady same =
      if_elim (Undone s p) go (record_block false env s' p size) s'
        (λ _. Undone-record_block false env s s' p size t some_block steady same missing)
        (λ _. Undone-idle s s' p steady same missing)

  -- The checks before a record is made leave the table.
  admit-Undone :
      (s' : State) (size : ℕ)
      → Steady s s'
      → s'.buckets ≡ s.buckets
      → Undone s p (record_admitted env (admit s' size) p size)
  unfolding admit
  admit-Undone s' size steady same =
      let sampled = record s' { sampler = (should_track s'.sampler size).1 } in
      let over = is_over_capacity-Steady sampled in
      recorded (admit s' size) size
        (Steady-trans steady (Steady-trans {s = s'} {t = sampled} (ground arith) over))
        (is_over_capacity-buckets sampled ∙ same)

module _ (env : Env) (s : State) (t : IsTable s) (some_block : env.user_block ≢ null)
    (missing : entry_find s env.user_block ≡ none) where
  abbrev p : ℕ
  p = env.user_block

  malloc_tracked-Undone : (size : ℕ) → Undone s p (malloc_tracked env s size).1
  unfolding malloc_tracked
  malloc_tracked-Undone size =
      let s' = log_raw (RawCall.raw_malloc size) s in
      if_elim (λ (r : ℕ × State). Undone s p r.1) (p == null) (null, s')
        (p, record_admitted env (admit s' size) p size)
        (λ _. passed env s t p some_block missing (RawCall.raw_malloc size))
        (λ _. admit-Undone env s t p some_block missing s' size (ground arith) refl)

  malloc_body-Undone :
      (c : Caller) (slot : Thread) (size : ℕ) → Undone s p (malloc_body env c slot s size).1
  unfolding malloc_body
  malloc_body-Undone c slot size =
      let call = RawCall.raw_malloc size in
      let known = if passes env s size then user_malloc env s size else malloc_tracked env s size in
      let Q : ℕ × State → Type 0 = λ r. Undone s p r.1 in
      let direct = passed env s t p some_block missing call in
      if_elim Q (is_exempt c slot) (pass_malloc env s size)
        (if not s.raw.malloc_set then (null, s) else known)
        (λ _. pass_malloc-Undone env s t p some_block missing size)
        λ _.
          if_elim Q (not s.raw.malloc_set) (null, s) known
            (λ _. Undone-idle s s p (Steady-refl s) refl missing)
            λ _.
              if_elim Q (passes env s size) (user_malloc env s size) (malloc_tracked env s size)
                (λ _. direct) (λ _. malloc_tracked-Undone size)

  malloc-Undone :
      (c : Caller) (ctx : Option Thread) (size : ℕ) → Undone s p (malloc env c ctx s size).2
  unfolding malloc bracket
  malloc-Undone c none size = pass_malloc-Undone env s t p some_block missing size
  malloc-Undone c (some t₀) size =
      let slot = hook_enter t₀ in
      let through = pass_malloc env s size in
      if_elim (λ (r : Outcome). Undone s p r.2) (is_recursive slot)
        (through.0, some slot, through.1) (bracket slot (malloc_body env c slot s size))
        (λ _. pass_malloc-Undone env s t p some_block missing size)
        (λ _. malloc_body-Undone c slot size)

pool_contains_same : (s s' : State) (p : ℕ) → Steady s s' → pool_contains s' p ≡ pool_contains s p
unfolding pool_contains
pool_contains_same s s' p st = rw (st.initialized, st.place.base, st.place.raw_size) refl

-- The hook of `free` in the state that it sees.
free-forget :
    (env : Env) (c : Caller) (slot : Thread) (s : State) (p : ℕ)
    → p ≢ null
    → pool_contains s p ≡ false
    → is_recursive (hook_enter slot) ≡ false
    → is_exempt c (hook_enter slot) ≡ false
    → s.raw.free_set ≡ true
    → s.disabled ≡ false
    → (free env c (some slot) s p).1.buckets
      ≡ (forget (count_freed env.now s.leak_threshold_sec) s p).buckets
unfolding free free_by free_body
free-forget env c slot s p h outside idle known set on =
    let there : (p == null || pool_contains s p) ≡ false = ground (arith, outside) in
    simp (there, idle, known, set, on) refl

-- Table and counters of two states agree.
pub record SameBooks (s s' : State) : Type 0 where
  pub buckets : s'.buckets ≡ s.buckets
  pub current_bytes : s'.counters.current_bytes ≡ s.counters.current_bytes
  pub entry_count : s'.counters.entry_count ≡ s.counters.entry_count

SameBooks-of :
    (s s' : State) → IsConsistent 0 s → IsConsistent 0 s' → s'.buckets ≡ s.buckets → SameBooks s s'
SameBooks-of s s' c c' same = record {
  buckets = same;
  current_bytes = c'.bytes ∙ ap bytes_of same ∙ sym c.bytes;
  entry_count = c'.entries ∙ ap count_of same ∙ sym c.entries;
}

-- From a state in order that has room for the bytes, where tracking is on, libc's free is known
-- and libc gives a block that is not NULL, has no record and lies outside the pool: the hook of
-- malloc and then the hook of free for that block, the latter from a caller that is not exempt
-- and whose thread is in no hook, leave the buckets, the byte counter and the entry counter as
-- they were, whether the block was recorded or not.
pub free-malloc :
    (env later : Env) (c c' : Caller) (ctx : Option Thread) (slot : Thread) (s : State) (size : ℕ)
    → Ready size s
    → env.user_block ≢ null
    → entry_find s env.user_block ≡ none
    → pool_contains s env.user_block ≡ false
    → s.raw.free_set ≡ true
    → s.disabled ≡ false
    → is_recursive (hook_enter slot) ≡ false
    → is_exempt c' (hook_enter slot) ≡ false
    → SameBooks s (free later c' (some slot) (malloc env c ctx s size).2 env.user_block).1
free-malloc env later c c' ctx slot s size ready some_block missing outside set on idle known =
    let s₁ = (malloc env c ctx s size).2 in
    let kept = (malloc-Keeps env c ctx s size ready).consistent in
    let u = malloc-Undone env s ready.0.table some_block missing c ctx size in
    let freed =
      free-forget later c' slot s₁ env.user_block some_block
        (pool_contains_same s s₁ env.user_block u.steady ∙ outside) idle known
        (u.steady.free_set ∙ set) (u.steady.disabled ∙ on) in
    SameBooks-of s _ ready.0 (free-IsConsistent later c' (some slot) s₁ env.user_block kept)
      (freed ∙ u.forgotten (count_freed later.now s₁.leak_threshold_sec))
