-- ===== src/Sampling.antt =====
-- src/tracker.c: `mtt_should_track` and `mtt_is_startup_phase`, what decides whether an
-- allocation is recorded at all.
pub mod Budget
use memory_trace_tool.Base.{
  ℕ, ◌+◌, ◌-◌, ◌*◌, ◌%◌, ◌^◌, Bool, true, false, ◌&&◌, List, [], ◌∷◌, if◌then◌else◌, ◌==◌, ltb, leb,
  add64, sub64, word,
}
use memory_trace_tool.State.{Sampler, State}

-- MTT_BIG_ALLOC_THRESHOLD and MTT_SAMPLE_EXEMPT_THRESHOLD
abbrev pub big_alloc : ℕ
big_alloc = 1024 * 1024

abbrev pub sample_exempt : ℕ
sample_exempt = 1024

-- `(size_t)1 << rate`
abbrev pub sample_step : ℕ → ℕ
sample_step rate = 2 ^ rate % word

-- byte sampling
pub sample_bytes : Sampler → ℕ → Bool × Sampler
sample_bytes s size =
    let step = sample_step s.sample_rate in
    let added = add64 s.sample_bytes_accum size in
    if leb step added then (true, record s { sample_bytes_accum = sub64 added step }) else (
      false,
      record s { sample_bytes_accum = added; skipped_sampled = add64 s.skipped_sampled 1 },
    )

-- one allocation in `sample_period`
pub sample_count : Sampler → Bool × Sampler
sample_count s =
    if s.sample_period == 0
    then (true, s)
    else (let counted = record s { sample_counter = add64 s.sample_counter 1 } in
        if (s.sample_counter % s.sample_period) == 0
        then (true, counted)
        else (false, record counted { skipped_sampled = add64 s.skipped_sampled 1 }))

-- `mtt_should_track`, on the fields that it reads and writes
unfoldable pub should_track : Sampler → ℕ → Bool × Sampler
unfolding sample_bytes sample_count
should_track s size =
    if leb big_alloc size
    then (true, s)
    else if leb sample_exempt size
    then (true, s)
    else if ltb 0 s.sample_rate
    then sample_bytes s size
    else sample_count s

-- `mtt_is_startup_phase`, at the clock's time `now`
unfoldable pub is_startup_phase : ℕ → State → Bool
is_startup_phase now s = ltb 0 s.startup_until && ltb now s.startup_until

-- A run of allocations: how many are to be recorded, and the sampler that is left.
unfoldable pub run_sampler : Sampler → List ℕ → ℕ × Sampler
unfolding should_track
run_sampler s [] = (0, s)
run_sampler s (size ∷ sizes) =
    let (tracked, s') = should_track s size in
    let (n, s'') = run_sampler s' sizes in ((if tracked then n + 1 else n), s'')
