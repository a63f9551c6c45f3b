-- ===== src/Table/Records.antt =====
-- What the hash table promises: for each pointer, the stack of the records kept for it.
-- `mtt_entry_add` pushes, `mtt_entry_find` reads the top, and `mtt_entry_remove` pops.
use memory_trace_tool.Base.{
  ℕ, ◌^◌, ◌<◌, ◌≡◌, refl, ◌≢◌, Option, none, some, List, [], ◌∷◌, if◌then◌else◌, ◌==◌, length,
  get_or-set, arith, inl, inr, Option-cases,
}
use memory_trace_tool.State.{Entry, Chain, State, null, bucket_of-lt}
use memory_trace_tool.Table.{
  find_in, remove_in, index_of, chain_of, entry_find, entry_remove, entry_add, give_back, unlink,
}

-- The bucket array has been allocated, with as many buckets as the state says.
pub record Allocated (buckets : List Chain) (bucket_count : ℕ) : Type 0 where
  pub allocated : length buckets ≡ bucket_count
  pub some_bucket : 0 < bucket_count
  pub fits : bucket_count < 2 ^ 32

abbrev pub IsTable : State → Type 0
IsTable s = Allocated s.buckets s.bucket_count

pub with_ptr : ℕ → Chain → List Entry
with_ptr p [] = []
with_ptr p (e ∷ c) = if e.ptr == p then e ∷ with_ptr p c else with_ptr p c

-- The records kept for a pointer, the newest first.
unfoldable pub records : State → ℕ → List Entry
unfolding with_ptr
records s p = with_ptr p (chain_of s p)

abbrev pub newest : List Entry → Option Entry
newest [] = none
newest (e ∷ es) = some e

abbrev pub older : List Entry → List Entry
older [] = []
older (e ∷ es) = es

pub find_in-newest : (p : ℕ) (c : Chain) → find_in p c ≡ newest (with_ptr p c)
unfolding find_in with_ptr
find_in-newest p [] = refl
find_in-newest p (e ∷ c) = ground (arith, find_in-newest p c)

with_ptr-remove_in :
    (p q : ℕ) (c : Chain)
    → with_ptr q (remove_in p c) ≡ (if p == q then older (with_ptr q c) else with_ptr q c)
unfolding remove_in with_ptr
with_ptr-remove_in p q [] = ground arith
with_ptr-remove_in p q (e ∷ c) = ground (arith, with_ptr-remove_in p q c)

pub index_of-lt : (s : State) (p : ℕ) → IsTable s → index_of s p < length s.buckets
index_of-lt s p t =
    omega (arith, t.allocated, bucket_of-lt p s.bucket_count s.hash_seed t.some_bucket t.fits)

pub records-give_back : (s : State) (a q : ℕ) → records (give_back s a) q ≡ records s q
unfolding give_back records
records-give_back s a q = ground arith

pub IsTable-give_back : (s : State) (a : ℕ) → IsTable s → IsTable (give_back s a)
unfolding give_back
IsTable-give_back s a t = ground arith

-- In an allocated table, adding a record puts it on top of the records of its pointer, and leaves
-- every other pointer's records.
pub records-entry_add :
    (s : State) (e : Entry) (q : ℕ)
    → IsTable s
    → records (entry_add s e) q ≡ (if e.ptr == q then e ∷ records s q else records s q)
unfolding entry_add records with_ptr
records-entry_add s e q t = ground (
  arith,
  index_of-lt s e.ptr t,
  get_or-set s.buckets (index_of s e.ptr) (index_of s q) (e ∷ chain_of s e.ptr) [],
)

-- In an allocated table, a lookup gives the newest record of a pointer that is not NULL, or
-- nothing if none is kept.
pub entry_find-newest :
    (s : State) (q : ℕ) → IsTable s → q ≢ null → entry_find s q ≡ newest (records s q)
unfolding entry_find records
entry_find-newest s q t h = ground (arith, t.allocated, find_in-newest q (chain_of s q))

records-unlink :
    (s : State) (p q : ℕ)
    → IsTable s
    → records (unlink s p) q ≡ (if p == q then older (records s q) else records s q)
unfolding unlink records
records-unlink s p q t = ground (
  arith,
  index_of-lt s p t,
  with_ptr-remove_in p q (chain_of s p),
  get_or-set s.buckets (index_of s p) (index_of s q) (remove_in p (chain_of s p)) [],
)

-- In an allocated table, removing a pointer that is not NULL drops its newest record, if there is
-- one, and leaves its older records and those of every other pointer.
pub records-entry_remove :
    (s : State) (p q : ℕ)
    → IsTable s
    → p ≢ null
    → records (entry_remove s p) q ≡ (if p == q then older (records s q) else records s q)
unfolding entry_remove
records-entry_remove s p q t h = elim (Option-cases (find_in p (chain_of s p))) [
  | inr (e, found) ↦
      ground
        (arith, t.allocated, found, records-give_back (unlink s p) e.addr q, records-unlink s p q t)
  | inl missing ↦
      unfold records in ground (arith, t.allocated, missing, find_in-newest p (chain_of s p))
]
