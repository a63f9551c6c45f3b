-- ===== src/Api/Effect.antt =====
-- What `mtt_free` does to the records and to libc's calls.
use memory_trace_tool.Base.{ℕ, ◌≡◌, ◌≢◌, true, false, if◌then◌else◌, ◌==◌, not, ◌||◌, arith}
use memory_trace_tool.State.{State, RawCall, null}
use memory_trace_tool.Table.{log_raw}
use memory_trace_tool.Table.Records.{IsTable, records, older}
use memory_trace_tool.Books.{forget, count_free}
use memory_trace_tool.Books.Effect.{records-forget}
use memory_trace_tool.Api.{free}

-- In an allocated table, while tracking is on and libc's free is known, mtt_free of a pointer
-- that is not NULL drops the newest record of that pointer, if there is one, and leaves the
-- records of every other pointer.
pub records-free :
    (s : State) (p q : ℕ)
    → IsTable s
    → p ≢ null
    → s.raw.free_set ≡ true
    → s.disabled ≡ false
    → records (free s p) q ≡ (if p == q then older (records s q) else records s q)
unfolding free records
records-free s p q t h set on =
    let there : (p == null || not s.raw.free_set) ≡ false = ground arith in
    simp (there, on) (logged (forget (λ e. count_free e.size) s p) (records-forget _ s p q t h))
  where
    logged :
        (s' : State)
        → records s' q ≡ (if p == q then older (records s q) else records s q)
        → records (log_raw (RawCall.raw_free p) s') q
          ≡ (if p == q then older (records s q) else records s q)
    logged s' e = e
