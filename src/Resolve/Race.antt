-- ===== src/Resolve/Race.antt =====
-- src/tracker.c: `mtt_resolve_raw_allocators` run by several threads in turns. The stores of one
-- stretch of the code, the filling in or the search, are one step.
use memory_trace_tool.Base.{
  ℕ, zero, suc, ◌≡◌, ◌≢◌, ◌<◌, ◌⊎◌, inl, inr, refl, ap, sym, ◌∙◌, Bool-cases, true, false, List, [],
  ◌∷◌, some, length, get_or, set, replicate, arith,
}
use memory_trace_tool.Threads.{Thread, fresh_thread}
use memory_trace_tool.Resolve.{unset, bootstrap, Linker, Resolver, may_enter, fill_in, search_all}

-- Where a thread is: not in the function, past its tests, past the filling in, in the search.
pub data Place : Type 0 where
  outside : Place
  entered : Place
  filled : Place
  searching : Place

pub record World : Type 0 where
  pub resolver : Resolver
  pub threads : List Place

abbrev pub place_of : World → ℕ → Place
place_of w i = get_or w.threads i outside

-- Thread `i` goes on to a place, and leaves the resolver so.
abbrev pub move : World → ℕ → Place → Resolver → World
move w i place r = record { resolver = r; threads = set w.threads i place }

pub data Step (linker : Linker) : World → World → Type 0 where
  enter :
      {w : World} (i : ℕ) (t : Thread)
      → i < length w.threads
      → place_of w i ≡ outside
      → may_enter (some t) w.resolver ≡ true
      → Step linker w (move w i entered w.resolver)
  fill :
      {w : World} (i : ℕ)
      → place_of w i ≡ entered
      → Step linker w (move w i filled (fill_in w.resolver))
  win :
      {w : World} (i : ℕ)
      → place_of w i ≡ filled
      → w.resolver.resolved ≡ false
      → Step linker w (move w i searching (record w.resolver { resolved = true }))
  lose :
      {w : World} (i : ℕ)
      → place_of w i ≡ filled
      → w.resolver.resolved ≡ true
      → Step linker w (move w i outside w.resolver)
  finish :
      {w : World} (i : ℕ)
      → place_of w i ≡ searching
      → Step linker w (move w i outside (search_all linker w.resolver))

abbrev pub nothing_set : Resolver
nothing_set = record {
  pointers = record {
    malloc = unset;
    free = unset;
    calloc = unset;
    realloc = unset;
    posix_memalign = unset;
  };
  resolved = false;
  ready = false;
}

-- So many threads, none of which has called the function yet.
abbrev pub start : ℕ → World
start n = record { resolver = nothing_set; threads = replicate n outside }

pub data Reachable (linker : Linker) (n : ℕ) : World → Type 0 where
  at_start : Reachable linker n (start n)
  after : {w w' : World} → Reachable linker n w → Step linker w w' → Reachable linker n w'

-- The four pointers stay on the bootstrap allocator although the search is over, and there is no
-- further step.
pub record IsStuck (linker : Linker) (w : World) : Type 0 where
  pub ready : w.resolver.ready ≡ true
  pub malloc : w.resolver.pointers.malloc ≡ bootstrap
  pub free : w.resolver.pointers.free ≡ bootstrap
  pub calloc : w.resolver.pointers.calloc ≡ bootstrap
  pub realloc : w.resolver.pointers.realloc ≡ bootstrap
  pub final : (w' : World) → ¬ Step linker w w'

abbrev AllOutside : World → Type 0
AllOutside w = (i : ℕ) → place_of w i ≡ outside

no_way_in : (t : Thread) (r : Resolver) → r.ready ≡ true → may_enter (some t) r ≡ false
unfolding may_enter
no_way_in t r over = rw over refl

AllOutside-final :
    (linker : Linker) (w w' : World) → w.resolver.ready ≡ true → AllOutside w → ¬ Step linker w w'
AllOutside-final linker w w' over out (Step.enter i t below here way) =
    cc (way, no_way_in t w.resolver over)
AllOutside-final linker w w' over out (Step.fill i here) = cc (here, out i)
AllOutside-final linker w w' over out (Step.win i here first) = cc (here, out i)
AllOutside-final linker w w' over out (Step.lose i here later) = cc (here, out i)
AllOutside-final linker w w' over out (Step.finish i here) = cc (here, out i)

-- Two threads pass the tests before either fills in; the second one fills in after the search.
abbrev late : Linker → ℕ → World
late linker n = record {
  resolver = fill_in (search_all linker (record (fill_in nothing_set) { resolved = true }));
  threads = outside ∷ outside ∷ replicate n outside;
}

get_or-replicate : (n i : ℕ) → get_or (replicate n outside) i outside ≡ outside
get_or-replicate zero i = refl
get_or-replicate (suc n) zero = refl
get_or-replicate (suc n) (suc i) = get_or-replicate n i

late-Reachable : (linker : Linker) (n : ℕ) → Reachable linker (suc (suc n)) (late linker n)
unfolding may_enter search_all fill_in
late-Reachable linker n =
    let t = fresh_thread 1 in
    let w₁ = Reachable.after Reachable.at_start (Step.enter 0 t (omega arith) refl refl) in
    let w₂ = Reachable.after w₁ (Step.enter 1 t (omega arith) refl refl) in
    let w₃ = Reachable.after w₂ (Step.fill 0 refl) in
    let w₄ = Reachable.after w₃ (Step.win 0 refl refl) in
    let w₅ = Reachable.after w₄ (Step.finish 0 refl) in
    let w₆ = Reachable.after w₅ (Step.fill 1 refl) in Reachable.after w₆ (Step.lose 1 refl refl)

late-outside : (linker : Linker) (n : ℕ) → AllOutside (late linker n)
late-outside linker n zero = refl
late-outside linker n (suc zero) = refl
late-outside linker n (suc (suc i)) = get_or-replicate n i

-- Whatever the dynamic linker finds, two threads or more can interleave their first calls of
-- mtt_resolve_raw_allocators so that raw_malloc, raw_free, raw_calloc and raw_realloc are the
-- bootstrap functions although the pointers are marked as ready, and that no later call changes
-- this.
pub late-IsStuck :
    (linker : Linker) (n : ℕ) → (w : World) × Reachable linker (suc (suc n)) w × IsStuck linker w
unfolding fill_in search_all
late-IsStuck linker n = (
  late linker n,
  late-Reachable linker n,
  record {
    ready = refl;
    malloc = refl;
    free = refl;
    calloc = refl;
    realloc = refl;
    final = λ w'. AllOutside-final linker (late linker n) w' refl (late-outside linker n);
  },
)

-- A place after a move is the new one, or what it was.
get_or-set_searching :
    (xs : List Place) (i j : ℕ) (v : Place)
    → get_or (set xs i v) j outside ≡ searching
    → ((i ≡ j) × (v ≡ searching)) ⊎ ((i ≢ j) × (get_or xs j outside ≡ searching))
get_or-set_searching [] i j v h = cc
get_or-set_searching (x ∷ xs) zero zero v h = inl (refl, h)
get_or-set_searching (x ∷ xs) zero (suc j) v h = inr ((λ e. absurd (omega (arith, e))), h)
get_or-set_searching (x ∷ xs) (suc i) zero v h = inr ((λ e. absurd (omega (arith, e))), h)
get_or-set_searching (x ∷ xs) (suc i) (suc j) v h = elim (get_or-set_searching xs i j v h) [
  | inl (e, s) ↦ inl (ap suc e, s)
  | inr (ne, s) ↦ inr ((λ e. ne (omega (arith, e))), s)
]

-- At most one thread is in the search, and only before the search is over.
pub record IsSafe (w : World) : Type 0 where
  pub one : (i j : ℕ) → place_of w i ≡ searching → place_of w j ≡ searching → i ≡ j
  pub begun : (i : ℕ) → place_of w i ≡ searching → w.resolver.resolved ≡ true
  pub early : (i : ℕ) → place_of w i ≡ searching → w.resolver.ready ≡ false
  pub over : w.resolver.ready ≡ true → w.resolver.resolved ≡ true

-- A move to another place than the search.
away-IsSafe :
    (w : World) (i : ℕ) (place : Place) (r : Resolver)
    → place ≢ searching
    → r.resolved ≡ w.resolver.resolved
    → r.ready ≡ w.resolver.ready
    → IsSafe w
    → IsSafe (move w i place r)
away-IsSafe w i place r other same_resolved same_ready safe = record {
  one = λ j k hj hk. safe.one j k (before j hj) (before k hk);
  begun = λ j h. same_resolved ∙ safe.begun j (before j h);
  early = λ j h. same_ready ∙ safe.early j (before j h);
  over = λ h. same_resolved ∙ safe.over (sym same_ready ∙ h);
}
  where
    before : (j : ℕ) → place_of (move w i place r) j ≡ searching → place_of w j ≡ searching
    before j h = elim (get_or-set_searching w.threads i j place h) [
      | inl (_, s) ↦ absurd (other s)
      | inr (_, s) ↦ s
    ]

fill_in-same : (r : Resolver) → ((fill_in r).resolved ≡ r.resolved) × ((fill_in r).ready ≡ r.ready)
unfolding fill_in
fill_in-same r = (refl, refl)

search_all-same :
    (linker : Linker) (r : Resolver)
    → ((search_all linker r).resolved ≡ r.resolved) × ((search_all linker r).ready ≡ true)
unfolding search_all
search_all-same linker r = (refl, refl)

-- The thread that wins is the only one in the search.
win-IsSafe :
    (w : World) (i : ℕ)
    → w.resolver.resolved ≡ false
    → IsSafe w
    → IsSafe (move w i searching (record w.resolver { resolved = true }))
win-IsSafe w i first safe = record {
  one = λ j k hj hk. sym (only j hj) ∙ only k hk;
  begun = λ j h. refl;
  early = λ j h. not_over;
  over = λ h. refl;
}
  where
    only : (j : ℕ) → get_or (set w.threads i searching) j outside ≡ searching → i ≡ j
    only j h = elim (get_or-set_searching w.threads i j searching h) [
      | inl (e, _) ↦ e
      | inr (_, s) ↦ cc (safe.begun j s, first)
    ]

    not_over : w.resolver.ready ≡ false
    not_over = elim (Bool-cases w.resolver.ready) [
      | inl over ↦ cc (safe.over over, first)
      | inr early ↦ early
    ]

-- After the search no thread is in it.
finish-IsSafe :
    (linker : Linker) (w : World) (i : ℕ)
    → place_of w i ≡ searching
    → IsSafe w
    → IsSafe (move w i outside (search_all linker w.resolver))
finish-IsSafe linker w i here safe = record {
  one = λ j k hj hk. absurd (none_left j hj);
  begun = λ j h. absurd (none_left j h);
  early = λ j h. absurd (none_left j h);
  over = λ h. (search_all-same linker w.resolver).0 ∙ safe.begun i here;
}
  where
    none_left : (j : ℕ) → ¬ (get_or (set w.threads i outside) j outside ≡ searching)
    none_left j h = elim (get_or-set_searching w.threads i j outside h) [
      | inl (_, s) ↦ cc
      | inr (ne, s) ↦ ne (safe.one i j here s)
    ]

Step-IsSafe : (linker : Linker) {w w' : World} → IsSafe w → Step linker w w' → IsSafe w'
Step-IsSafe linker {w = w} safe (Step.enter i t below here way) =
    away-IsSafe w i entered w.resolver (λ e. cc) refl refl safe
Step-IsSafe linker {w = w} safe (Step.fill i here) =
    let (same_resolved, same_ready) = fill_in-same w.resolver in
    away-IsSafe w i filled (fill_in w.resolver) (λ e. cc) same_resolved same_ready safe
Step-IsSafe linker {w = w} safe (Step.win i here first) = win-IsSafe w i first safe
Step-IsSafe linker {w = w} safe (Step.lose i here later) =
    away-IsSafe w i outside w.resolver (λ e. cc) refl refl safe
Step-IsSafe linker {w = w} safe (Step.finish i here) = finish-IsSafe linker w i here safe

start-IsSafe : (n : ℕ) → IsSafe (start n)
start-IsSafe n =
    let nowhere : (i : ℕ) → ¬ (place_of (start n) i ≡ searching) =
      λ i h. cc (h, get_or-replicate n i) in
    record {
      one = λ i j hi hj. absurd (nowhere i hi);
      begun = λ i h. absurd (nowhere i h);
      early = λ i h. absurd (nowhere i h);
      over = λ h. cc;
    }

-- However the steps of mtt_resolve_raw_allocators in several threads interleave, at most one
-- thread is in the search for libc's functions, it has the compare-and-swap behind it, and none
-- is once the pointers are marked as ready.
pub Reachable-IsSafe : {linker : Linker} {n : ℕ} {w : World} → Reachable linker n w → IsSafe w
Reachable-IsSafe {n = n} Reachable.at_start = start-IsSafe n
Reachable-IsSafe {linker = linker} (Reachable.after reached step) =
    Step-IsSafe linker (Reachable-IsSafe reached) step
