-- ===== src/Wrappers/Align.antt =====
-- Which alignments posix_memalign takes, and what it asks libc for.
use memory_trace_tool.Base.{
  ℕ, zero, suc, ◌+◌, ◌-◌, ◌/◌, ◌%◌, ◌^◌, ◌≤◌, ◌<◌, ◌≡◌, ◌≢◌, ◌⊎◌, ◌↔◌, ◌∙◌, ap, ap₂, sym, refl,
  true, false, none, some, ◌==◌, bit_and, bit_and_step, bit_and-le, max, zero-bit_and, Bool-cases,
  inl, inr, arith,
}
use native.Mathlib.Nat.{two-pow-succ, one-le-pow}
use native.Mathlib.Decide.{dec_lt}
use memory_trace_tool.State.{State, RawCall, null}
use memory_trace_tool.Table.{Env, log_raw}
use memory_trace_tool.Wrappers.{
  is_odd_alignment, raised, at_least_one, Aligned, aligned_alloc, aligned_result, posix_memalign,
  einval, enomem,
}

abbrev pub IsPowerOfTwo : ℕ → Type 0
IsPowerOfTwo n = (k : ℕ) × (n ≡ 2 ^ k)

bit_and_self : (bound n : ℕ) → n < bound → bit_and n n ≡ n
bit_and_self zero n h = absurd (omega arith)
bit_and_self (suc bound) zero h = zero-bit_and 0
bit_and_self (suc bound) (suc n) h =
    omega (arith, bit_and_step (suc n) (suc n), bit_and_self bound (suc n / 2) (omega arith))

mask_double : (m : ℕ) → 0 < m → bit_and m (m - 1) ≡ 0 → bit_and (m + m) (m + m - 1) ≡ 0
mask_double m h mask =
    let half : (m + m) / 2 ≡ m = omega arith in
    let half_mask : (m + m - 1) / 2 ≡ m - 1 = omega arith in
    omega (arith, bit_and_step (m + m) (m + m - 1), ap₂ bit_and half half_mask, mask)

power_mask : (k : ℕ) → bit_and (2 ^ k) (2 ^ k - 1) ≡ 0
power_mask zero = omega (arith, bit_and-le 1 0)
power_mask (suc k) =
    rw two-pow-succ (mask_double (2 ^ k) (one-le-pow k 2 (omega arith)) (power_mask k))

mask-IsPowerOfTwo : (bound n : ℕ) → n < bound → n ≢ 0 → bit_and n (n - 1) ≡ 0 → IsPowerOfTwo n
mask-IsPowerOfTwo zero n h some_bit mask = absurd (omega arith)
mask-IsPowerOfTwo (suc bound) n h some_bit mask = elim (dec_lt (n % 2) 1) [
  | yes even ↦
      let half_mask : (n - 1) / 2 ≡ n / 2 - 1 = omega arith in
      let step : bit_and (n / 2) (n / 2 - 1) ≡ 0 =
        omega (arith, bit_and_step n (n - 1), ap (bit_and (n / 2)) half_mask, mask) in
      let (k, half) = mask-IsPowerOfTwo bound (n / 2) (omega arith) (omega arith) step in
      (suc k, rw two-pow-succ (omega arith))
  | no odd ↦
      let half_mask : (n - 1) / 2 ≡ n / 2 = omega arith in
      let same = bit_and_self (suc (n / 2)) (n / 2) (omega arith) in
      let one_left : n ≡ 1 =
        omega (arith, bit_and_step n (n - 1), ap (bit_and (n / 2)) half_mask, mask, same) in
      (0, one_left)
]

-- The test of the code
is_odd_alignment_iff : (n : ℕ) → n ≢ 0 → (is_odd_alignment n ≡ false) ↔ IsPowerOfTwo n
is_odd_alignment_iff n some_bit = (
  λ h. mask-IsPowerOfTwo (suc n) n (omega arith) some_bit (ground (arith, h)),
  λ (k, same). ground (arith, same, ap (λ m. bit_and m (m - 1)) same ∙ power_mask k),
)

abbrev refused : State → Aligned × State
refused s = (record { code = einval; stored = none }, s)

-- libc's answer to a request for an alignment and a size
abbrev no_memory : ℕ → ℕ → State → Aligned × State
no_memory alignment size s =
    (record { code = enomem; stored = none }, log_raw (RawCall.raw_memalign alignment size) s)

abbrev served : ℕ → ℕ → ℕ → State → Aligned × State
served block alignment size s =
    (record { code = 0; stored = some block }, log_raw (RawCall.raw_memalign alignment size) s)

-- The three outcomes, with the alignment and the size that libc is asked for.
abbrev pub Answers : ℕ → ℕ → ℕ → State → Aligned × State → Type 0
Answers block alignment size s r =
    (¬ IsPowerOfTwo alignment × (r ≡ refused s))
    ⊎ (IsPowerOfTwo alignment
        × (((block ≡ null) × (r ≡ no_memory alignment size s))
            ⊎ ((block ≢ null) × (r ≡ served block alignment size s))))

raised-max : (alignment : ℕ) → raised alignment ≡ max alignment 8
raised-max alignment = ground arith

at_least_one-max : (size : ℕ) → at_least_one size ≡ max size 1
at_least_one-max size = ground arith

aligned_alloc_set :
    (block : ℕ) (env : Env) (s : State) (alignment size : ℕ)
    → s.raw.memalign_set ≡ true
    → 8 ≤ alignment
    → is_odd_alignment alignment ≡ false
    → aligned_alloc block env s alignment size
      ≡ (block, log_raw (RawCall.raw_memalign alignment (at_least_one size)) s)
unfolding aligned_alloc
aligned_alloc_set block env s alignment size set big even =
    let positive : (alignment == 0) ≡ false = ground (arith, big) in
    let again : raised alignment ≡ alignment = ground (arith, big) in
    rw (positive, even, set, again) refl

-- libc's answer handed on
handed_on :
    (block alignment size : ℕ) (s : State)
    → ((block ≡ null)
        × (aligned_result (block, log_raw (RawCall.raw_memalign alignment size) s)
            ≡ no_memory alignment size s))
      ⊎ ((block ≢ null)
          × (aligned_result (block, log_raw (RawCall.raw_memalign alignment size) s)
              ≡ served block alignment size s))
handed_on block alignment size s = elim (Bool-cases (block == null)) [
  | inl nothing ↦ inl (ground (arith, nothing), rw nothing refl)
  | inr some_block ↦ inr (ground (arith, some_block), rw some_block refl)
]

Answers-raised :
    (block : ℕ) (env : Env) (s : State) (alignment size : ℕ)
    → s.raw.memalign_set ≡ true
    → Answers block
        (raised alignment)
        (at_least_one size)
        s
        (posix_memalign block env s alignment size)
unfolding posix_memalign
Answers-raised block env s alignment size set =
    let a = raised alignment in
    let big : 8 ≤ a = ground arith in
    let (to_power, from_power) = is_odd_alignment_iff a (omega (arith, big)) in
    elim (Bool-cases (is_odd_alignment a)) [
      | inl odd ↦ inl (λ power. cc (from_power power, odd), rw odd refl)
      | inr even ↦
          rw (even, aligned_alloc_set block env s a size set big even)
            (inr (to_power even, handed_on block a (at_least_one size) s))
    ]

-- Where libc's posix_memalign is known, with the alignment raised to at least 8: posix_memalign
-- returns EINVAL, stores nothing and leaves the state as it is if that is no power of two;
-- otherwise it asks libc for it and at least one byte, and returns ENOMEM and stores nothing if
-- libc gives NULL, and 0 and stores the block if libc gives one.
pub posix_memalign_lem :
    (block : ℕ) (env : Env) (s : State) (alignment size : ℕ)
    → s.raw.memalign_set ≡ true
    → Answers block (max alignment 8) (max size 1) s (posix_memalign block env s alignment size)
posix_memalign_lem block env s alignment size set =
    rw (sym (raised-max alignment), sym (at_least_one-max size))
      (Answers-raised block env s alignment size set)
