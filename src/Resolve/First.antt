-- ===== src/Resolve/First.antt =====
-- src/tracker.c: which functions `mtt_resolve_raw_allocators` settles on.
use memory_trace_tool.Base.{
  ℕ, ◌≡◌, refl, sym, ◌∙◌, true, false, Option, none, some, List, [], ◌∷◌, if◌then◌else◌, ◌==◌,
  Bool-cases, if_elim, inl, inr, arith, map,
}
use memory_trace_tool.Threads.{Thread}
use memory_trace_tool.Resolve.{
  Target, unset, bootstrap, found, Symbols, Linker, Pointers, Resolver, is_bootstrap, may_enter,
  fill_in, is_foreign, safe_set, by_next, take_symbol, from_library, some_missing, by_candidates,
  search_all, resolve_raw_allocators,
}

-- The first address of a list of answers.
pub first_of : List (Option ℕ) → Target
first_of [] = bootstrap
first_of (none ∷ rest) = first_of rest
first_of (some a ∷ rest) = found a

-- An answer of RTLD_NEXT counts if the function lies outside the tool.
pub accepted : Linker → Option ℕ → Option ℕ
accepted linker none = none
accepted linker (some a) = if is_foreign (linker.dladdr a) then some a else none

abbrev pub answer : (Symbols → Option ℕ) → Option Symbols → Option ℕ
answer get none = none
answer get (some lib) = get lib

-- What is asked for one function: RTLD_NEXT, then each candidate in turn.
abbrev pub answers : Linker → (Symbols → Option ℕ) → List (Option ℕ)
answers linker get = accepted linker (get linker.next) ∷ map (answer get) linker.candidates

-- What a pointer becomes by further answers.
or_first : Target → List (Option ℕ) → Target
or_first unset rest = unset
or_first bootstrap rest = first_of rest
or_first (found a) rest = found a

or_first-nil : (t : Target) → or_first t [] ≡ t
unfolding or_first first_of
or_first-nil unset = refl
or_first-nil bootstrap = refl
or_first-nil (found a) = refl

or_first-none : (t : Target) (rest : List (Option ℕ)) → or_first t (none ∷ rest) ≡ or_first t rest
unfolding or_first first_of
or_first-none unset rest = refl
or_first-none bootstrap rest = refl
or_first-none (found a) rest = refl

or_first-take_symbol :
    (t : Target) (o : Option ℕ) (rest : List (Option ℕ))
    → or_first (take_symbol (is_bootstrap t) o t) rest ≡ or_first t (o ∷ rest)
unfolding or_first first_of
or_first-take_symbol unset none rest = refl
or_first-take_symbol unset (some a) rest = refl
or_first-take_symbol bootstrap none rest = refl
or_first-take_symbol bootstrap (some a) rest = refl
or_first-take_symbol (found b) none rest = refl
or_first-take_symbol (found b) (some a) rest = refl

or_first-settled :
    (t : Target) (rest : List (Option ℕ)) → is_bootstrap t ≡ false → or_first t rest ≡ t
unfolding or_first
or_first-settled unset rest h = refl
or_first-settled bootstrap rest h = cc
or_first-settled (found a) rest h = refl

-- Each of the four pointers is what `pick` says of it.
record Four (pick : Target → (Symbols → Option ℕ) → Target) (p q : Pointers) : Type 0 where
  malloc : q.malloc ≡ pick p.malloc (λ s. s.malloc)
  free : q.free ≡ pick p.free (λ s. s.free)
  calloc : q.calloc ≡ pick p.calloc (λ s. s.calloc)
  realloc : q.realloc ≡ pick p.realloc (λ s. s.realloc)

abbrev After : List (Option Symbols) → Pointers → Pointers → Type 0
After libs = Four (λ t get. or_first t (map (answer get) libs))

After-library :
    (lib : Symbols) (libs : List (Option Symbols)) (p q : Pointers)
    → After libs (from_library lib p) q
    → After (some lib ∷ libs) p q
unfolding from_library
After-library lib libs p q rest = record {
  malloc = rest.malloc ∙ or_first-take_symbol p.malloc lib.malloc _;
  free = rest.free ∙ or_first-take_symbol p.free lib.free _;
  calloc = rest.calloc ∙ or_first-take_symbol p.calloc lib.calloc _;
  realloc = rest.realloc ∙ or_first-take_symbol p.realloc lib.realloc _;
}

-- Where none of the four is missing, no further answer counts.
After-settled :
    (libs : List (Option Symbols)) (p : Pointers) → some_missing p ≡ false → After libs p p
unfolding some_missing
After-settled libs p h = record {
  malloc = sym (or_first-settled p.malloc _ (ground (arith, h)));
  free = sym (or_first-settled p.free _ (ground (arith, h)));
  calloc = sym (or_first-settled p.calloc _ (ground (arith, h)));
  realloc = sym (or_first-settled p.realloc _ (ground (arith, h)));
}

by_candidates-After :
    (libs : List (Option Symbols)) (p : Pointers) → After libs p (by_candidates libs p)
unfolding by_candidates
by_candidates-After [] p = record {
  malloc = sym (or_first-nil p.malloc);
  free = sym (or_first-nil p.free);
  calloc = sym (or_first-nil p.calloc);
  realloc = sym (or_first-nil p.realloc);
}
by_candidates-After (none ∷ libs) p =
    let rest = by_candidates-After libs p in
    record {
      malloc = rest.malloc ∙ sym (or_first-none p.malloc _);
      free = rest.free ∙ sym (or_first-none p.free _);
      calloc = rest.calloc ∙ sym (or_first-none p.calloc _);
      realloc = rest.realloc ∙ sym (or_first-none p.realloc _);
    }
by_candidates-After (some lib ∷ libs) p =
    let p' = from_library lib p in
    if_elim (After (some lib ∷ libs) p) (some_missing p') (by_candidates libs p') p'
      (λ _. After-library lib libs p _ (by_candidates-After libs p'))
      (λ complete. After-library lib libs p p' (After-settled libs p' complete))

first_of-safe_set :
    (linker : Linker) (o : Option ℕ) (rest : List (Option ℕ))
    → or_first (safe_set linker o bootstrap) rest ≡ first_of (accepted linker o ∷ rest)
unfolding or_first first_of safe_set accepted
first_of-safe_set linker none rest = refl
first_of-safe_set linker (some a) rest = elim (Bool-cases (is_foreign (linker.dladdr a))) [
  | inl foreign ↦ rw foreign refl
  | inr own ↦ rw own refl
]

-- Every one of the four pointers is libc's first answer.
pub record Settled (linker : Linker) (p : Pointers) : Type 0 where
  pub malloc : p.malloc ≡ first_of (answers linker (λ s. s.malloc))
  pub free : p.free ≡ first_of (answers linker (λ s. s.free))
  pub calloc : p.calloc ≡ first_of (answers linker (λ s. s.calloc))
  pub realloc : p.realloc ≡ first_of (answers linker (λ s. s.realloc))

Settled-After :
    (linker : Linker) (r : Resolver) (q : Pointers)
    → After linker.candidates (by_next linker (fill_in r).pointers) q
    → Settled linker q
unfolding by_next fill_in
Settled-After linker r q rest = record {
  malloc = rest.malloc ∙ first_of-safe_set linker linker.next.malloc _;
  free = rest.free ∙ first_of-safe_set linker linker.next.free _;
  calloc = rest.calloc ∙ first_of-safe_set linker linker.next.calloc _;
  realloc = rest.realloc ∙ first_of-safe_set linker linker.next.realloc _;
}

pub search_all-Settled :
    (linker : Linker) (r : Resolver)
    → Settled linker (search_all linker (record (fill_in r) { resolved = true })).pointers
unfolding search_all
search_all-Settled linker r =
    let p = by_next linker (fill_in r).pointers in
    if_elim (Settled linker) (some_missing p) (by_candidates linker.candidates p) p
      (λ _. Settled-After linker r _ (by_candidates-After linker.candidates p))
      (λ complete. Settled-After linker r p (After-settled linker.candidates p complete))

search_all-ready :
    (linker : Linker) (r : Resolver)
    → (search_all linker (record (fill_in r) { resolved = true })).ready ≡ true
unfolding search_all
search_all-ready linker r = refl

-- The first call of mtt_resolve_raw_allocators by a thread that is not in it, with no other
-- thread in between, settles each of raw_malloc, raw_free, raw_calloc and raw_realloc on the
-- first answer for its name, that of RTLD_NEXT if dladdr shows the function to lie outside the
-- tool, then those of the candidate libraries in their order, or on the bootstrap function if
-- there is none, and marks the pointers as ready.
pub resolve_raw_allocators-Settled :
    (linker : Linker) (t : Thread) (r : Resolver)
    → r.ready ≡ false
    → r.resolved ≡ false
    → r.pointers.malloc ≡ unset
    → t.raw_resolving ≡ 0
    → Settled linker (resolve_raw_allocators linker (some t) r).pointers
      × ((resolve_raw_allocators linker (some t) r).ready ≡ true)
unfolding resolve_raw_allocators may_enter
resolve_raw_allocators-Settled linker t r early first empty outside =
    let idle : (t.raw_resolving == 0) ≡ true = ground (arith, outside) in
    rw (early, empty, idle, first) (search_all-Settled linker r, search_all-ready linker r)
