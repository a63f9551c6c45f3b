-- ===== src/Leaks/Visit.antt =====
-- The loops over the stripes visit every record of the table once.
use memory_trace_tool.Base.{
  ℕ, zero, suc, ◌+◌, ◌*◌, ◌≤◌, ◌≡◌, refl, ap, List, [], ◌∷◌, length, get_or, drop, take, sum_by,
  sum_by-append, arith,
}
use memory_trace_tool.State.{Entry, Chain, lock_stripes}
use memory_trace_tool.Table.Nodes.{bytes_of, count_of}
use memory_trace_tool.Leaks.{stripe_entries, all_entries}

-- A measure of what is left from bucket `i` on, and of `left` buckets from there.
abbrev measure_from : (Entry → ℕ) → List Chain → ℕ → ℕ
measure_from g buckets i = sum_by (sum_by g) (drop i buckets)

abbrev measure_at : (Entry → ℕ) → List Chain → ℕ → ℕ
measure_at g buckets i = sum_by g (get_or buckets i [])

abbrev window : (Entry → ℕ) → List Chain → ℕ → ℕ → ℕ
window g buckets zero i = 0
window g buckets (suc left) i = measure_at g buckets i + window g buckets left (i + 1)

abbrev stripes : (Entry → ℕ) → List Chain → ℕ → ℕ → ℕ → ℕ
stripes g buckets fuel zero i = 0
stripes g buckets fuel (suc left) i =
    sum_by g (stripe_entries buckets fuel i) + stripes g buckets fuel left (i + 1)

past_end :
    (g : Entry → ℕ) (buckets : List Chain) (i : ℕ)
    → length buckets ≤ i
    → (measure_from g buckets i ≡ 0) × (measure_at g buckets i ≡ 0)
past_end g [] zero h = (refl, refl)
past_end g [] (suc i) h = (refl, refl)
past_end g (c ∷ buckets) zero h = absurd (omega arith)
past_end g (c ∷ buckets) (suc i) h = past_end g buckets i (omega arith)

measure_from-step :
    (g : Entry → ℕ) (buckets : List Chain) (i : ℕ)
    → measure_from g buckets i ≡ measure_at g buckets i + measure_from g buckets (i + 1)
measure_from-step g [] i =
    omega (arith, past_end g [] i (omega arith), past_end g [] (i + 1) (omega arith))
measure_from-step g (c ∷ buckets) zero = refl
measure_from-step g (c ∷ buckets) (suc i) =
    let next : suc i + 1 ≡ suc (i + 1) = omega arith in rw next (measure_from-step g buckets i)

window-measure :
    (g : Entry → ℕ) (buckets : List Chain) (left i : ℕ)
    → window g buckets left i + measure_from g buckets (i + left) ≡ measure_from g buckets i
window-measure g buckets zero i = let same : i + 0 ≡ i = omega arith in rw same (omega arith)
window-measure g buckets (suc left) i =
    let next : i + suc left ≡ i + 1 + left = omega arith in
    rw next (omega (arith, window-measure g buckets left (i + 1), measure_from-step g buckets i))

stripe-past_end :
    (g : Entry → ℕ) (buckets : List Chain) (fuel i : ℕ)
    → length buckets ≤ i
    → sum_by g (stripe_entries buckets fuel i) ≡ 0
unfolding stripe_entries
stripe-past_end g buckets zero i h = refl
stripe-past_end g buckets (suc fuel) i h = ground arith

stripe-step :
    (g : Entry → ℕ) (buckets : List Chain) (fuel i : ℕ)
    → sum_by g (stripe_entries buckets (suc fuel) i)
      ≡ measure_at g buckets i + sum_by g (stripe_entries buckets fuel (i + lock_stripes))
unfolding stripe_entries
stripe-step g buckets fuel i = ground (
  arith,
  past_end g buckets i,
  stripe-past_end g buckets fuel (i + lock_stripes),
  sum_by-append g (get_or buckets i []) (stripe_entries buckets fuel (i + lock_stripes)),
)

stripes-step :
    (g : Entry → ℕ) (buckets : List Chain) (fuel left i : ℕ)
    → stripes g buckets (suc fuel) left i
      ≡ window g buckets left i + stripes g buckets fuel left (i + lock_stripes)
stripes-step g buckets fuel zero i = omega arith
stripes-step g buckets fuel (suc left) i =
    let next : i + 1 + lock_stripes ≡ i + lock_stripes + 1 = omega arith in
    omega
      (arith, stripe-step g buckets fuel i, (rw next at (stripes-step g buckets fuel left (i + 1))))

stripes-none : (g : Entry → ℕ) (buckets : List Chain) (left i : ℕ) → stripes g buckets 0 left i ≡ 0
unfolding stripe_entries
stripes-none g buckets zero i = refl
stripes-none g buckets (suc left) i = omega (arith, stripes-none g buckets left (i + 1))

-- The stripes together cover the rest of the table.
stripes-cover :
    (g : Entry → ℕ) (buckets : List Chain) (fuel i : ℕ)
    → length buckets ≤ i + lock_stripes * fuel
    → stripes g buckets fuel lock_stripes i ≡ measure_from g buckets i
stripes-cover g buckets zero i h =
    omega (arith, stripes-none g buckets lock_stripes i, past_end g buckets i (omega arith))
stripes-cover g buckets (suc fuel) i h = omega (
  arith,
  stripes-step g buckets fuel lock_stripes i,
  stripes-cover g buckets fuel (i + lock_stripes) (omega arith),
  window-measure g buckets lock_stripes i,
)

all_entries-stripes :
    (g : Entry → ℕ) (buckets : List Chain) (left i : ℕ)
    → sum_by g (all_entries buckets left i) ≡ stripes g buckets (length buckets) left i
unfolding all_entries
all_entries-stripes g buckets zero i = refl
all_entries-stripes g buckets (suc left) i = omega (
  arith,
  sum_by-append g (stripe_entries buckets (length buckets) i) (all_entries buckets left (i + 1)),
  all_entries-stripes g buckets left (i + 1),
)

-- Any measure of the records visited is that of the records in the table.
pub all_entries-measure :
    (g : Entry → ℕ) (buckets : List Chain)
    → sum_by g (all_entries buckets lock_stripes 0) ≡ sum_by (sum_by g) buckets
all_entries-measure g buckets = omega (
  arith,
  all_entries-stripes g buckets lock_stripes 0,
  stripes-cover g buckets (length buckets) 0 (omega arith),
)

length-ones : (es : List Entry) → sum_by (λ e. 1) es ≡ length es
length-ones [] = refl
length-ones (e ∷ es) = omega (arith, length-ones es)

lengths-ones : (buckets : List Chain) → sum_by (sum_by (λ e. 1)) buckets ≡ count_of buckets
unfolding count_of
lengths-ones [] = refl
lengths-ones (c ∷ buckets) = omega (arith, length-ones c, lengths-ones buckets)

pub length-all_entries :
    (buckets : List Chain) → length (all_entries buckets lock_stripes 0) ≡ count_of buckets
length-all_entries buckets = omega (
  arith,
  length-ones (all_entries buckets lock_stripes 0),
  all_entries-measure (λ e. 1) buckets,
  lengths-ones buckets,
)

pub bytes-all_entries :
    (buckets : List Chain)
    → sum_by (λ e. e.size) (all_entries buckets lock_stripes 0) ≡ bytes_of buckets
unfolding bytes_of
bytes-all_entries buckets = all_entries-measure (λ e. e.size) buckets

pub take-all {ℓ} : {A : Type ℓ} (n : ℕ) (xs : List A) → length xs ≤ n → take n xs ≡ xs
take-all zero [] h = refl
take-all zero (x ∷ xs) h = absurd (omega arith)
take-all (suc n) [] h = refl
take-all (suc n) (x ∷ xs) h = ap (λ r. x ∷ r) (take-all n xs (omega arith))
