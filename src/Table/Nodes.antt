-- ===== src/Table/Nodes.antt =====
-- How the table's operations change the number of records, their bytes, and the free lists.
use memory_trace_tool.Base.{
  ℕ, zero, suc, ◌+◌, ◌-◌, ◌<◌, ◌≡◌, ◌≢◌, Bool, some, List, [], ◌∷◌, length, get_or, set,
  if◌then◌else◌, ◌==◌, sum_by, sum_by-set, length-set, word, arith, bit_and, bit_and-le, ◌∙◌, inl,
  inr, Option-cases, Bool-cases, List-cases,
}
use memory_trace_tool.State.{Entry, Chain, Pool, State, null, stripe_of, stripe_of-lt, lock_stripes}
use memory_trace_tool.Table.{
  find_in, remove_in, index_of, chain_of, give_back, pop_free, scan_free, take_free,
}
use memory_trace_tool.Table.Records.{IsTable, index_of-lt}

abbrev pub chain_bytes : Chain → ℕ
chain_bytes = sum_by (λ e. e.size)

-- 1 for a record of no bytes, which the tool never makes.
abbrev pub emptiness : Entry → ℕ
emptiness e = if e.size == 0 then 1 else 0

abbrev pub chain_empties : Chain → ℕ
chain_empties = sum_by emptiness

-- The bytes of all the records in the table, their number, and the number of those of no bytes.
unfoldable pub bytes_of : List Chain → ℕ
bytes_of = sum_by chain_bytes

unfoldable pub count_of : List Chain → ℕ
count_of = sum_by length

unfoldable pub empties_of : List Chain → ℕ
empties_of = sum_by chain_empties

abbrev pub empties : State → ℕ
empties s = empties_of s.buckets

abbrev pub live_bytes : State → ℕ
live_bytes s = bytes_of s.buckets

abbrev pub nodes : State → ℕ
nodes s = count_of s.buckets

unfoldable pub free_nodes : Pool → ℕ
free_nodes pool = sum_by length pool.free_lists

remove_in-sum_by :
    (f : Entry → ℕ) (p : ℕ) (c : Chain) (e : Entry)
    → find_in p c ≡ some e
    → sum_by f (remove_in p c) + f e ≡ sum_by f c
unfolding find_in remove_in
remove_in-sum_by f p [] e h = cc
remove_in-sum_by f p (x ∷ c) e h = ground (arith, remove_in-sum_by f p c e)

remove_in-length :
    (p : ℕ) (c : Chain) (e : Entry) → find_in p c ≡ some e → length (remove_in p c) + 1 ≡ length c
unfolding find_in remove_in
remove_in-length p [] e h = cc
remove_in-length p (x ∷ c) e h = ground (arith, remove_in-length p c e)

-- One record more, or one less, in one bucket.
pub add-counts :
    (s : State) (e : Entry)
    → IsTable s
    → let bs = set s.buckets (index_of s e.ptr) (e ∷ chain_of s e.ptr) in
      (bytes_of bs ≡ live_bytes s + e.size)
      × (count_of bs ≡ nodes s + 1)
      × (empties_of bs ≡ empties s + emptiness e)
unfolding bytes_of count_of empties_of
add-counts s e t =
    let i = index_of s e.ptr in
    let c = e ∷ chain_of s e.ptr in
    let lt = index_of-lt s e.ptr t in
    omega (
      arith,
      sum_by-set chain_bytes s.buckets i c [] lt,
      sum_by-set length s.buckets i c [] lt,
      sum_by-set chain_empties s.buckets i c [] lt,
    )

pub remove-counts :
    (s : State) (p : ℕ) (e : Entry)
    → IsTable s
    → find_in p (chain_of s p) ≡ some e
    → let bs = set s.buckets (index_of s p) (remove_in p (chain_of s p)) in
      (bytes_of bs + e.size ≡ live_bytes s)
      × (count_of bs + 1 ≡ nodes s)
      × (empties_of bs + emptiness e ≡ empties s)
unfolding bytes_of count_of empties_of
remove-counts s p e t h =
    let i = index_of s p in
    let c = remove_in p (chain_of s p) in
    let lt = index_of-lt s p t in
    omega (
      arith,
      remove_in-sum_by (λ x. x.size) p (chain_of s p) e h,
      remove_in-sum_by emptiness p (chain_of s p) e h,
      remove_in-length p (chain_of s p) e h,
      sum_by-set chain_bytes s.buckets i c [] lt,
      sum_by-set length s.buckets i c [] lt,
      sum_by-set chain_empties s.buckets i c [] lt,
    )

-- A record that goes back leaves the buckets as they are.
pub buckets-give_back : (s : State) (a : ℕ) → (give_back s a).buckets ≡ s.buckets
unfolding give_back
buckets-give_back s a = ground arith

-- The pool's books: `in_use` records are out of the free lists, which hold all the others.
pub record PoolHolds (in_use : ℕ) (pool : Pool) : Type 0 where
  pub stripes : length pool.free_lists ≡ 64
  pub counted : pool.used ≡ in_use
  pub rest : free_nodes pool + in_use ≡ pool.capacity
  pub small : pool.capacity < word

pub pop_free-PoolHolds :
    {n : ℕ} (pool : Pool) (idx : ℕ) {a : ℕ} {pool' : Pool}
    → idx < 64
    → PoolHolds n pool
    → pop_free pool idx ≡ some (a, pool')
    → PoolHolds (n + 1) pool' × (pool'.base ≡ pool.base) × (pool'.capacity ≡ pool.capacity)
unfolding pop_free free_nodes
pop_free-PoolHolds {n} pool idx lt h e = elim (List-cases (get_or pool.free_lists idx [])) [
  | inl empty ↦ ground (arith, empty)
  | inr (b, r, full) ↦ ground (
    arith,
    full,
    h.stripes,
    h.counted,
    h.rest,
    h.small,
    length-set pool.free_lists idx r,
    sum_by-set length pool.free_lists idx r [],
  )
]

pub give_back-PoolHolds :
    {n : ℕ} (s : State) (a : ℕ)
    → s.pool.base ≢ null
    → PoolHolds (n + 1) s.pool
    → PoolHolds n (give_back s a).pool
unfolding give_back free_nodes
give_back-PoolHolds {n} s a h p =
    let idx = stripe_of a s.bucket_count s.hash_seed in
    let front : List ℕ = a ∷ get_or s.pool.free_lists idx [] in
    ground (
      arith,
      p.stripes,
      p.counted,
      p.rest,
      p.small,
      stripe_of-lt a s.bucket_count s.hash_seed,
      length-set s.pool.free_lists idx front,
      sum_by-set length s.pool.free_lists idx front [],
    )

pub scan_free-PoolHolds :
    {n : ℕ} (busy : ℕ → Bool) (pool : Pool) (idx left k : ℕ) {a : ℕ} {pool' : Pool}
    → PoolHolds n pool
    → scan_free busy pool idx left k ≡ some (a, pool')
    → PoolHolds (n + 1) pool' × (pool'.base ≡ pool.base) × (pool'.capacity ≡ pool.capacity)
unfolding scan_free
scan_free-PoolHolds busy pool idx zero k h e = cc
scan_free-PoolHolds {n} busy pool idx (suc left) k h e =
    let i = bit_and (idx + k) (lock_stripes - 1) in
    let lt : i < 64 = omega (arith, bit_and-le (idx + k) 63) in
    let later = scan_free-PoolHolds {n = n} busy pool idx left (k + 1) h in
    elim (Bool-cases (busy i)) [
      | inl locked ↦ later (rw (locked, scan_free) at e)
      | inr open_lock ↦ elim (Option-cases (pop_free pool i)) [
        | inl empty ↦ later (rw (open_lock, empty, scan_free) at e)
        | inr (t, full) ↦
            pop_free-PoolHolds pool i lt h (full ∙ (rw (open_lock, full, scan_free) at e))
      ]
    ]

pub take_free-PoolHolds :
    {n : ℕ} (busy : ℕ → Bool) (pool : Pool) (idx : ℕ) {a : ℕ} {pool' : Pool}
    → idx < 64
    → PoolHolds n pool
    → take_free busy pool idx ≡ some (a, pool')
    → PoolHolds (n + 1) pool' × (pool'.base ≡ pool.base) × (pool'.capacity ≡ pool.capacity)
unfolding take_free
take_free-PoolHolds {n} busy pool idx lt h e = elim (Option-cases (pop_free pool idx)) [
  | inl empty ↦
      scan_free-PoolHolds busy pool idx (lock_stripes - 1) 1 h (rw (empty, take_free) at e)
  | inr (t, full) ↦ pop_free-PoolHolds pool idx lt h (full ∙ (rw (full, take_free) at e))
]
