-- ===== src/StackCache/Stacks.antt =====
-- The cache of stacks answers with the stack asked for, and remembers it.
use memory_trace_tool.Base.{
  ℕ, ◌-◌, ◌<◌, ◌≡◌, refl, ap, ap₂, sym, subst, ◌∙◌, Bool, true, false, ◌&&◌, none, some, List, [],
  ◌∷◌, if◌then◌else◌, ◌==◌, length, get_or, map, bit_and, bit_and-le, arith, get_or-set_self,
  Option-cases, Bool-cases, inl, inr, ==_iff, ==_refl,
}
use memory_trace_tool.Ranges.{fix_thumb_addr}
use memory_trace_tool.StackCache.{
  StackEntry, StackCache, stack_cache_size, same_frames, find_stack, new_stack, lookup_hashed,
  stack_hash_compute, stack_cache_lookup,
}

same_frames-equal : (fs gs : List ℕ) → same_frames fs gs ≡ true → fs ≡ map fix_thumb_addr gs
unfolding same_frames
same_frames-equal [] [] h = refl
same_frames-equal [] (g ∷ gs) h = cc
same_frames-equal (f ∷ fs) [] h = cc
same_frames-equal (f ∷ fs) (g ∷ gs) h = elim (Bool-cases (f == fix_thumb_addr g)) [
  | inl same ↦
      ap₂ (λ x xs. x ∷ xs) ((==_iff f (fix_thumb_addr g)).0 same)
        (same_frames-equal fs gs (rw (same, same_frames) at h))
  | inr differ ↦ absurd (ground (arith, h, differ))
]

same_frames_self : (gs : List ℕ) → same_frames (map fix_thumb_addr gs) gs ≡ true
unfolding same_frames
same_frames_self [] = refl
same_frames_self (g ∷ gs) = rw (==_refl (fix_thumb_addr g)) (same_frames_self gs)

-- The entry is for the frames asked for, which hash to `hash`.
abbrev pub IsFor : ℕ → List ℕ → StackEntry → Type 0
IsFor hash frames e = (e.hash ≡ hash) × (e.frames ≡ map fix_thumb_addr frames)

find_stack-IsFor :
    (hash : ℕ) (frames : List ℕ) (chain : List StackEntry) (e : StackEntry)
    → find_stack hash frames chain ≡ some e
    → IsFor hash frames e
unfolding find_stack
find_stack-IsFor hash frames [] e h = cc
find_stack-IsFor hash frames (x ∷ chain) e h =
    elim (Bool-cases (x.hash == hash && same_frames x.frames frames)) [
      | inl same ↦
          ground (arith, (rw (same, find_stack) at h), same, same_frames-equal x.frames frames)
      | inr differ ↦ find_stack-IsFor hash frames chain e (rw (differ, find_stack) at h)
    ]

find_stack-new :
    (hash : ℕ) (frames : List ℕ) (chain : List StackEntry)
    → find_stack hash frames (new_stack hash frames ∷ chain) ≡ some (new_stack hash frames)
unfolding find_stack new_stack
find_stack-new hash frames chain = rw (==_refl hash, same_frames_self frames) refl

lookup_hashed-IsFor :
    (hash : ℕ) (given : Bool) (frames : List ℕ) (cache : StackCache) (e : StackEntry)
    → (lookup_hashed hash given frames cache).0 ≡ some e
    → IsFor hash frames e
unfolding lookup_hashed new_stack
lookup_hashed-IsFor hash given frames cache e h =
    let bucket = bit_and hash (stack_cache_size - 1) in
    let chain = get_or cache.entries bucket [] in
    elim (Option-cases (find_stack hash frames chain)) [
      | inl missing ↦ ground (arith, missing, h)
      | inr (x, found) ↦ ground (arith, found, h, find_stack-IsFor hash frames chain x found)
    ]

lookup_hashed-again :
    (hash : ℕ) (given again : Bool) (frames : List ℕ) (cache : StackCache) (e : StackEntry)
    → length cache.entries ≡ stack_cache_size
    → (lookup_hashed hash given frames cache).0 ≡ some e
    → lookup_hashed hash again frames (lookup_hashed hash given frames cache).1
      ≡ (some e, (lookup_hashed hash given frames cache).1)
unfolding lookup_hashed
lookup_hashed-again hash given again frames cache e whole h =
    let bucket = bit_and hash (stack_cache_size - 1) in
    let chain = get_or cache.entries bucket [] in
    let longer = new_stack hash frames ∷ chain in
    let lt : bucket < length cache.entries =
      omega (arith, bit_and-le hash (stack_cache_size - 1)) in
    elim (Option-cases (find_stack hash frames chain)) [
      | inl missing ↦ ground (
        arith,
        missing,
        h,
        get_or-set_self cache.entries bucket longer [] lt,
        find_stack-new hash frames chain,
      )
      | inr (x, found) ↦ ground (arith, found, h)
    ]

lookup_nonempty :
    (given : Bool) (frames : List ℕ) (cache : StackCache)
    → (length frames == 0) ≡ false
    → stack_cache_lookup given frames cache
      ≡ lookup_hashed (stack_hash_compute frames) given frames cache
unfolding stack_cache_lookup
lookup_nonempty given frames cache h =
    ap
      (λ b.
        if b then (none, cache) else lookup_hashed (stack_hash_compute frames) given frames cache)
      h

lookup_empty :
    (given : Bool) (frames : List ℕ) (cache : StackCache)
    → (length frames == 0) ≡ true
    → (stack_cache_lookup given frames cache).0 ≡ none
unfolding stack_cache_lookup
lookup_empty given frames cache h =
    ap
      (λ b.
        (if b
          then (none, cache)
          else lookup_hashed (stack_hash_compute frames) given frames cache).0)
      h

-- What a lookup in the cache of stacks answers, if it answers, has the hash of the frames asked
-- for and those frames themselves, their lowest bits cleared.
pub stack_cache_lookup-IsFor :
    (given : Bool) (frames : List ℕ) (cache : StackCache) (e : StackEntry)
    → (stack_cache_lookup given frames cache).0 ≡ some e
    → IsFor (stack_hash_compute frames) frames e
stack_cache_lookup-IsFor given frames cache e h = elim (Bool-cases (length frames == 0)) [
  | inl empty ↦ absurd (ground (arith, h, lookup_empty given frames cache empty))
  | inr nonempty ↦
      lookup_hashed-IsFor (stack_hash_compute frames) given frames cache e
        (ap (λ r. r.0) (sym (lookup_nonempty given frames cache nonempty)) ∙ h)
]

-- In a cache of 4096 buckets, a lookup that answered is answered in the same way again, and
-- leaves the cache as it is then.
pub stack_cache_lookup-again :
    (given again : Bool) (frames : List ℕ) (cache : StackCache) (e : StackEntry)
    → length cache.entries ≡ stack_cache_size
    → (stack_cache_lookup given frames cache).0 ≡ some e
    → stack_cache_lookup again frames (stack_cache_lookup given frames cache).1
      ≡ (some e, (stack_cache_lookup given frames cache).1)
stack_cache_lookup-again given again frames cache e whole h =
    elim (Bool-cases (length frames == 0)) [
      | inl empty ↦ absurd (ground (arith, h, lookup_empty given frames cache empty))
      | inr nonempty ↦
          let first = lookup_nonempty given frames cache nonempty in
          let hashed = lookup_hashed (stack_hash_compute frames) given frames cache in
          lookup_nonempty again frames (stack_cache_lookup given frames cache).1 nonempty
          ∙ subst (λ r. lookup_hashed (stack_hash_compute frames) again frames r.1 ≡ (some e, r.1))
              (sym first)
              (lookup_hashed-again (stack_hash_compute frames) given again frames cache e whole
                (ap (λ r. r.0) (sym first) ∙ h))
    ]
