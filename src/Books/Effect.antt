-- ===== src/Books/Effect.antt =====
-- What looking a record up and removing it does to the records kept for each pointer.
use memory_trace_tool.Base.{
  ℕ, ◌≡◌, ◌≢◌, ◌∙◌, refl, sym, none, List, [], ◌∷◌, if◌then◌else◌, ◌==◌, arith, inl, inr,
  Option-cases,
}
use memory_trace_tool.State.{Entry, Counters, State, null}
use memory_trace_tool.Table.{entry_find}
use memory_trace_tool.Table.Records.{
  IsTable, records, newest, older, entry_find-newest, records-entry_remove,
}
use memory_trace_tool.Books.{with_counters, forget}

older-none : (es : List Entry) → newest es ≡ none → older es ≡ es
older-none [] h = refl
older-none (e ∷ es) h = cc

-- Forgetting a pointer drops its newest record, if there is one, and leaves all others.
pub records-forget :
    (count : Entry → Counters → Counters) (s : State) (p q : ℕ)
    → IsTable s
    → p ≢ null
    → records (forget count s p) q ≡ (if p == q then older (records s q) else records s q)
unfolding forget records
records-forget count s p q t h = elim (Option-cases (entry_find s p)) [
  | inr (e, found) ↦ rw (found, forget) (records-entry_remove (with_counters (count e) s) p q t h)
  | inl missing ↦
      let nothing = older-none (records s p) (sym (entry_find-newest s p t h) ∙ missing) in
      rw (missing, forget) (ground (arith, nothing))
]
