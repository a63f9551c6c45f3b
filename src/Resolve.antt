-- ===== src/Resolve.antt =====
-- src/tracker.c: `mtt_resolve_raw_allocators`, which finds libc's allocator. The dynamic linker is
-- a record, `Linker`; the function's steps are apart, since threads may run them in turns.
pub mod First
pub mod Race
use memory_trace_tool.Base.{
  ℕ, Bool, true, false, not, ◌&&◌, ◌||◌, Option, none, some, List, [], ◌∷◌, if◌then◌else◌, ◌==◌,
}
use memory_trace_tool.Threads.{Thread}
use memory_trace_tool.Http.{contains}

-- "libmemorytracetool"
abbrev pub own_name : List ℕ
own_name =
    108 ∷ 105 ∷ 98 ∷ 109 ∷ 101 ∷ 109 ∷ 111 ∷ 114 ∷ 121 ∷ 116 ∷ 114 ∷ 97 ∷ 99 ∷ 101 ∷ 116 ∷ 111 ∷ 111
    ∷ 108 ∷ []

-- What a pointer such as `raw_malloc` holds: NULL, the tool's bootstrap function, or another one.
pub data Target : Type 0 where
  unset : Target
  bootstrap : Target
  found : ℕ → Target

-- the addresses that dlsym gives for one handle, where it gives any
pub record Symbols : Type 0 where
  pub malloc : Option ℕ
  pub free : Option ℕ
  pub calloc : Option ℕ
  pub realloc : Option ℕ
  pub posix_memalign : Option ℕ

-- What dlsym finds behind RTLD_NEXT; what dladdr gives for an address (nothing where it fails, a
-- file whose name may be NULL); and what dlsym finds in each of `libc_candidates` that dlopen
-- opens.
pub record Linker : Type 0 where
  pub next : Symbols
  pub dladdr : ℕ → Option (Option (List ℕ))
  pub candidates : List (Option Symbols)

-- `raw_malloc` and the others
pub record Pointers : Type 0 where
  pub malloc : Target
  pub free : Target
  pub calloc : Target
  pub realloc : Target
  pub posix_memalign : Target

-- The pointers, `g_raw_resolved` and `g_raw_ready`.
pub record Resolver : Type 0 where
  pub pointers : Pointers
  pub resolved : Bool
  pub ready : Bool

abbrev pub is_unset : Target → Bool
is_unset unset = true
is_unset bootstrap = false
is_unset (found a) = false

abbrev pub is_bootstrap : Target → Bool
is_bootstrap unset = false
is_bootstrap bootstrap = true
is_bootstrap (found a) = false

-- the tests before the bootstrap functions are filled in
pub may_enter : Option Thread → Resolver → Bool
may_enter none r = false
may_enter (some t) r = not r.ready && is_unset r.pointers.malloc && t.raw_resolving == 0

-- the bootstrap functions are filled in
pub fill_in : Resolver → Resolver
fill_in r = record r {
  pointers = record r.pointers {
    malloc = bootstrap;
    free = bootstrap;
    calloc = bootstrap;
    realloc = bootstrap;
  };
}

-- whether dladdr shows the function to lie outside the tool
pub is_foreign : Option (Option (List ℕ)) → Bool
is_foreign none = false
is_foreign (some none) = true
is_foreign (some (some name)) = not (contains own_name name)

-- RAW_SAFE_SET
pub safe_set : Linker → Option ℕ → Target → Target
unfolding is_foreign
safe_set linker none old = old
safe_set linker (some a) old = if is_foreign (linker.dladdr a) then found a else old

pub by_next : Linker → Pointers → Pointers
unfolding safe_set
by_next linker p = record {
  malloc = safe_set linker linker.next.malloc p.malloc;
  free = safe_set linker linker.next.free p.free;
  calloc = safe_set linker linker.next.calloc p.calloc;
  realloc = safe_set linker linker.next.realloc p.realloc;
  posix_memalign = safe_set linker linker.next.posix_memalign p.posix_memalign;
}

-- a function of a candidate, for a pointer that still needs one
abbrev pub take_symbol : Bool → Option ℕ → Target → Target
take_symbol wanted none old = old
take_symbol wanted (some a) old = if wanted then found a else old

pub from_library : Symbols → Pointers → Pointers
from_library lib p = record {
  malloc = take_symbol (is_bootstrap p.malloc) lib.malloc p.malloc;
  free = take_symbol (is_bootstrap p.free) lib.free p.free;
  calloc = take_symbol (is_bootstrap p.calloc) lib.calloc p.calloc;
  realloc = take_symbol (is_bootstrap p.realloc) lib.realloc p.realloc;
  posix_memalign = take_symbol (is_unset p.posix_memalign) lib.posix_memalign p.posix_memalign;
}

-- one of the four is still on the bootstrap allocator
pub some_missing : Pointers → Bool
some_missing p =
    is_bootstrap p.malloc || is_bootstrap p.free || is_bootstrap p.calloc || is_bootstrap p.realloc

-- the loop over the candidates
pub by_candidates : List (Option Symbols) → Pointers → Pointers
unfolding from_library some_missing
by_candidates [] p = p
by_candidates (none ∷ libs) p = by_candidates libs p
by_candidates (some lib ∷ libs) p =
    let p' = from_library lib p in
    let rest = by_candidates libs p' in if some_missing p' then rest else p'

-- the search of the thread that won the compare-and-swap, up to the publication
pub search_all : Linker → Resolver → Resolver
unfolding by_next by_candidates some_missing
search_all linker r =
    let p = by_next linker r.pointers in
    record r {
      pointers = if some_missing p then by_candidates linker.candidates p else p;
      ready = true;
    }

-- `mtt_resolve_raw_allocators`, with no other thread in between
unfoldable pub resolve_raw_allocators : Linker → Option Thread → Resolver → Resolver
unfolding may_enter fill_in search_all
resolve_raw_allocators linker ctx r =
    if not (may_enter ctx r)
    then r
    else if r.resolved
    then fill_in r
    else search_all linker (record (fill_in r) { resolved = true })
