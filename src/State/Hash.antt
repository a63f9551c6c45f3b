-- ===== src/State/Hash.antt =====
-- src/mtt_internal.h: `mtt_bucket_of` and `mtt_stripe_of`.
use memory_trace_tool.Base.{
  ℕ, ◌+◌, ◌-◌, ◌/◌, ◌%◌, ◌^◌, ◌<◌, bit_and, bit_xor, mul64, bit_and-le, arith,
}

-- 2 ^ 64 / φ
abbrev pub fibonacci : ℕ
fibonacci = 11400714819323198485

-- `(unsigned)(h & (uint64_t)(bucket_count - 1))`, the difference taken in 32 bits
unfoldable pub bucket_of : ℕ → ℕ → ℕ → ℕ
bucket_of ptr bucket_count seed =
    let h = bit_xor (mul64 (ptr / 8) fibonacci) seed in
    bit_and h ((bucket_count + 2 ^ 32 - 1) % 2 ^ 32) % 2 ^ 32

unfoldable pub stripe_of : ℕ → ℕ → ℕ → ℕ
unfolding bucket_of
stripe_of ptr bucket_count seed = bit_and (bucket_of ptr bucket_count seed) 63

-- The index lies in the array, for every count that is no zero and fits 32 bits.
pub bucket_of-lt :
    (ptr bucket_count seed : ℕ)
    → 0 < bucket_count
    → bucket_count < 2 ^ 32
    → bucket_of ptr bucket_count seed < bucket_count
unfolding bucket_of
bucket_of-lt ptr n seed p q =
    omega (arith, bit_and-le (bit_xor (mul64 (ptr / 8) fibonacci) seed) ((n + 2 ^ 32 - 1) % 2 ^ 32))

-- The stripe lies in the array of locks and of free lists.
pub stripe_of-lt : (ptr bucket_count seed : ℕ) → stripe_of ptr bucket_count seed < 64
unfolding stripe_of
stripe_of-lt ptr n seed = omega (arith, bit_and-le (bucket_of ptr n seed) 63)
