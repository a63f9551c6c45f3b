-- ===== src/StackCache/Frames/Again.antt =====
-- src/stack_cache.c: a frame that was resolved once is answered from the cache.
use memory_trace_tool.Base.{
  ℕ, zero, suc, ◌≡◌, ◌≢◌, refl, ap, ◌∙◌, Option, none, some, List, [], ◌∷◌, length, take,
  Option-cases, inl, inr, arith, ◌==◌, false, ◌||◌,
}
use memory_trace_tool.State.{null}
use memory_trace_tool.StackCache.{
  AddrEntry, symbol_max, addr_cache_buckets, addr_cache_lookup, addr_cache_insert,
}
use memory_trace_tool.StackCache.Symbols.{addr_cache_lookup-insert}
use memory_trace_tool.StackCache.Frames.{
  Symbolizer, symbol_of, symbol_text, answered, resolve_one_frame,
}

take-take : (n : ℕ) (xs : List ℕ) → take n (take n xs) ≡ take n xs
take-take zero xs = refl
take-take (suc n) [] = refl
take-take (suc n) (x ∷ xs) = ap (λ r. x ∷ r) (take-take n xs)

resolve_looked_up :
    (y : Symbolizer) (addr : ℕ) (cache : List AddrEntry) (held : Option (List ℕ))
    → addr ≢ null
    → addr_cache_lookup addr symbol_max cache ≡ held
    → resolve_one_frame y addr symbol_max cache ≡ answered y addr symbol_max cache held
unfolding resolve_one_frame
resolve_looked_up y addr cache held some_addr found =
    let there : (addr == null || symbol_max == 0) ≡ false = ground (arith, some_addr) in
    rw there (ap (answered y addr symbol_max cache) found)

answered_hit :
    (y : Symbolizer) (addr : ℕ) (cache : List AddrEntry) (text : List ℕ)
    → answered y addr symbol_max cache (some text) ≡ (some text, cache)
unfolding answered
answered_hit y addr cache text = refl

answered_miss :
    (y : Symbolizer) (addr : ℕ) (cache : List AddrEntry)
    → answered y addr symbol_max cache none ≡ (
      some (take 255 (symbol_text y (symbol_of y addr))),
      addr_cache_insert addr (take 255 (symbol_text y (symbol_of y addr))) cache,
    )
unfolding answered
answered_miss y addr cache = refl

-- With a cache of 512 slots, a frame whose address is not NULL and that was resolved once gets
-- the same text again from the cache, whatever the libraries would say of it then, and leaves the
-- cache as it is.
pub resolve_one_frame-again :
    (y z : Symbolizer) (addr : ℕ) (cache : List AddrEntry)
    → length cache ≡ addr_cache_buckets
    → addr ≢ null
    → resolve_one_frame z addr symbol_max (resolve_one_frame y addr symbol_max cache).1
      ≡ resolve_one_frame y addr symbol_max cache
resolve_one_frame-again y z addr cache whole some_addr =
    elim (Option-cases (addr_cache_lookup addr symbol_max cache)) [
      | inl miss ↦
          let text = take 255 (symbol_text y (symbol_of y addr)) in
          let first =
            resolve_looked_up y addr cache none some_addr miss ∙ answered_miss y addr cache in
          let found =
            addr_cache_lookup-insert addr symbol_max text cache whole some_addr (omega arith)
            ∙ ap some (take-take 255 text ∙ take-take 255 (symbol_text y (symbol_of y addr))) in
          let later = addr_cache_insert addr text cache in
          rw first (
            resolve_looked_up z addr later (some text) some_addr found
            ∙ answered_hit z addr later text)
      | inr (text, hit) ↦
          let first =
            resolve_looked_up y addr cache (some text) some_addr hit
            ∙ answered_hit y addr cache text in
          rw first (
            resolve_looked_up z addr cache (some text) some_addr hit
            ∙ answered_hit z addr cache text)
    ]
