-- ===== src/Sampling/Budget.antt =====
-- What byte sampling promises: one record for each 2 ^ rate bytes of small allocations.
use memory_trace_tool.Base.{
  ℕ, ◌+◌, ◌*◌, ◌≤◌, ◌<◌, ◌≡◌, ◌∙◌, Bool, true, false, List, [], ◌∷◌, if◌then◌else◌, word, sum_by,
  arith,
}
use memory_trace_tool.State.{Sampler}
use memory_trace_tool.Sampling.{sample_exempt, sample_step, sample_bytes, should_track, run_sampler}

abbrev pub total : List ℕ → ℕ
total = sum_by (λ n. n)

-- every size is below the exemption threshold
abbrev pub Small : List ℕ → Type 0
Small [] = Unit {0}
Small (n ∷ ns) = (n < sample_exempt) × Small ns

-- An allocation of 1 KB or more is always recorded and leaves the sampler as it was.
pub should_track-large :
    (s : Sampler) (size : ℕ) → sample_exempt ≤ size → should_track s size ≡ (true, s)
unfolding should_track
should_track-large s size h = ground arith

should_track-small :
    (s : Sampler) (size : ℕ)
    → size < sample_exempt
    → 0 < s.sample_rate
    → should_track s size ≡ sample_bytes s size
unfolding should_track
should_track-small s size h r = ground arith

abbrev weight : Bool → ℕ
weight true = 1
weight false = 0

-- What one small allocation adds to the accumulator is kept or paid for by a record.
sample_bytes-balance :
    (s : Sampler) (size : ℕ)
    → s.sample_bytes_accum + size < word
    → let (tracked, s') = sample_bytes s size in
      (s'.sample_bytes_accum + weight tracked * sample_step s.sample_rate
        ≡ s.sample_bytes_accum + size)
      × (s'.sample_rate ≡ s.sample_rate)
unfolding sample_bytes
sample_bytes-balance s size h = ground arith

join_steps :
    (tracked : Bool) (a a' a'' size rest n step : ℕ)
    → a' + weight tracked * step ≡ a + size
    → a'' + n * step ≡ a' + rest
    → a'' + (if tracked then n + 1 else n) * step ≡ a + (size + rest)
join_steps true a a' a'' size rest n step p q = omega arith
join_steps false a a' a'' size rest n step p q = omega arith

-- Under byte sampling, over a run of allocations below 1 KB whose sum with the accumulator fits a
-- word: the bytes that came in and the accumulator before are the accumulator after and one step
-- for each record, and the rate stays.
pub run_sampler-balance :
    (s : Sampler) (sizes : List ℕ)
    → 0 < s.sample_rate
    → Small sizes
    → s.sample_bytes_accum + total sizes < word
    → let (n, s') = run_sampler s sizes in
      (s'.sample_bytes_accum + n * sample_step s.sample_rate ≡ s.sample_bytes_accum + total sizes)
      × (s'.sample_rate ≡ s.sample_rate)
unfolding run_sampler
run_sampler-balance s [] r small fits = omega arith
run_sampler-balance s (size ∷ sizes) r small fits =
    let (tracked, s') = sample_bytes s size in
    let here = sample_bytes-balance s size (omega arith) in
    let rest = run_sampler-balance s' sizes (omega arith) small.1 (grind arith) in
    rw (should_track-small s size small.0 r)
      (join_steps tracked _ _ _ _ _ _ _ here.0 (rw here.1 at rest.0), rest.1 ∙ here.1)

-- With steps of at least 1 KB the accumulator stays below one step, if it starts there.
sample_bytes-below :
    (s : Sampler) (size : ℕ)
    → s.sample_bytes_accum + size < word
    → size < sample_exempt
    → sample_exempt ≤ sample_step s.sample_rate
    → s.sample_bytes_accum < sample_step s.sample_rate
    → (sample_bytes s size).1.sample_bytes_accum < sample_step s.sample_rate
unfolding sample_bytes
sample_bytes-below s size h p q r = ground arith

run_sampler-below :
    (s : Sampler) (sizes : List ℕ)
    → 0 < s.sample_rate
    → Small sizes
    → s.sample_bytes_accum + total sizes < word
    → sample_exempt ≤ sample_step s.sample_rate
    → s.sample_bytes_accum < sample_step s.sample_rate
    → (run_sampler s sizes).1.sample_bytes_accum < sample_step s.sample_rate
unfolding run_sampler
run_sampler-below s [] r small fits wide below = below
run_sampler-below s (size ∷ sizes) r small fits wide below =
    let (tracked, s') = sample_bytes s size in
    let here = sample_bytes-balance s size (omega arith) in
    let lt = sample_bytes-below s size (omega arith) small.0 wide below in
    rw (should_track-small s size small.0 r) (
      rw here.1 at (
        run_sampler-below s' sizes (omega arith) small.1 (grind arith) (rw here.1 wide)
          (rw here.1 lt)))

-- Under byte sampling with a step of at least 1 KB and an accumulator below one step, over a run
-- of allocations below 1 KB whose sum with the accumulator fits a word: the number of records is
-- the number of whole steps among the bytes that came in.
pub run_sampler-exact :
    (s : Sampler) (sizes : List ℕ)
    → 0 < s.sample_rate
    → Small sizes
    → s.sample_bytes_accum + total sizes < word
    → sample_exempt ≤ sample_step s.sample_rate
    → s.sample_bytes_accum < sample_step s.sample_rate
    → let (n, s') = run_sampler s sizes in
      (n * sample_step s.sample_rate ≤ s.sample_bytes_accum + total sizes)
      × (s.sample_bytes_accum + total sizes < (n + 1) * sample_step s.sample_rate)
run_sampler-exact s sizes r small fits wide below =
    let b = run_sampler-balance s sizes r small fits in
    omega (arith, run_sampler-below s sizes r small fits wide below)
