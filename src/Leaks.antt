-- ===== src/Leaks.antt =====
-- src/reporter.c: `scan_and_report_locked`, from the snapshot of the table to the counters that a
-- scan stores. What it prints is outside the model.
pub mod Visit
pub mod Totals
pub mod Chains
pub mod Groups
pub mod Order
use memory_trace_tool.Base.{
  ℕ, zero, suc, ◌+◌, ◌-◌, ◌*◌, ◌/◌, Bool, true, false, not, ◌&&◌, Option, none, some, List, [], ◌∷◌,
  ◌++◌, map, if◌then◌else◌, ◌==◌, ltb, leb, length, get_or, set, take, replicate, sum_by, add64,
  sub64, mul64, bit_and,
}
use memory_trace_tool.State.{Entry, Chain, Counters, State, lock_stripes}
use memory_trace_tool.StackCache.{stack_hash_compute}

-- the loop over the buckets of one stripe, from `b` on
pub stripe_entries : List Chain → ℕ → ℕ → List Entry
stripe_entries buckets zero b = []
stripe_entries buckets (suc fuel) b =
    let rest = stripe_entries buckets fuel (b + lock_stripes) in
    if ltb b (length buckets) then get_or buckets b [] ++ rest else []

-- the loop over `left` stripes from `lock_idx` on
pub all_entries : List Chain → ℕ → ℕ → List Entry
unfolding stripe_entries
all_entries buckets zero lock_idx = []
all_entries buckets (suc left) lock_idx =
    stripe_entries buckets (length buckets) lock_idx ++ all_entries buckets left (lock_idx + 1)

-- The room for the snapshot: as many records as are in the table, or half, and so on down to
-- 1024. `given n` says whether `raw_malloc` has room for `n`.
pub find_room : (ℕ → Bool) → ℕ → ℕ → Option ℕ
find_room given zero n = none
find_room given (suc fuel) n =
    let rest = find_room given fuel (n / 2) in
    if given n then some n else if leb 1024 (n / 2) then rest else none

-- the snapshot; halving a 64-bit word more than 64 times leaves nothing
pub snapshot : (ℕ → Bool) → State → Option (List Entry)
unfolding all_entries find_room
snapshot given s =
    if s.counters.entry_count == 0
    then some []
    else elim (find_room given 64 s.counters.entry_count) [
      | none ↦ none
      | some room ↦ some (take room (all_entries s.buckets lock_stripes 0))
    ]

-- the key of a site: the hash of the stack, or one of the size where there is no stack
pub site_key : Entry → ℕ
site_key e =
    if length e.stack == 0 then mul64 e.size 0x9E3779B97F4A7C15 else stack_hash_compute e.stack

-- `mtt_leak_site_t`
pub record LeakSite : Type 0 where
  pub stack_hash : ℕ
  pub first_seen : ℕ
  pub last_seen : ℕ
  pub count : ℕ
  pub per_leak_size : ℕ
  pub total_size : ℕ
  pub diff_size : ℕ
  pub is_expired : Bool

-- MTT_LEAK_DEDUP_SIZE
abbrev pub leak_dedup_size : ℕ
leak_dedup_size = 2048

-- `mtt_leak_table_t`
pub record LeakTable : Type 0 where
  pub entries : List (List LeakSite)
  pub count : ℕ

-- What a scan knows: the clock, the threshold, and whether there is room for the nth site.
pub record Scan : Type 0 where
  pub now : ℕ
  pub threshold : ℕ
  pub given : ℕ → Bool

-- A block that has lived past the threshold. The code's difference is signed; one below 0 counts
-- here as 0, which decides the test alike.
abbrev pub outlived : Scan → Entry → Bool
outlived c e = ltb 0 c.threshold && ltb c.threshold (c.now - e.timestamp)

-- `(sn->timestamp > 0) ? sn->timestamp : now`
abbrev pub seen_at : Scan → Entry → ℕ
seen_at c e = if ltb 0 e.timestamp then e.timestamp else c.now

pub new_site : Scan → Entry → LeakSite
new_site c e = record {
  stack_hash = site_key e;
  first_seen = seen_at c e;
  last_seen = e.timestamp;
  count = 1;
  per_leak_size = e.size;
  total_size = e.size;
  diff_size = 0;
  is_expired = outlived c e;
}

-- a block more for a site
pub count_in : Scan → Entry → LeakSite → LeakSite
count_in c e site = record site {
  first_seen = if site.first_seen == 0 then seen_at c e else site.first_seen;
  count = add64 site.count 1;
  total_size = add64 site.total_size e.size;
  last_seen = if ltb site.last_seen e.timestamp then e.timestamp else site.last_seen;
  is_expired = if site.is_expired then true else outlived c e;
}

pub has_site : ℕ → List LeakSite → Bool
has_site key [] = false
has_site key (site ∷ chain) = if site.stack_hash == key then true else has_site key chain

-- the chain with the first site of the key updated
pub update_site : Scan → Entry → ℕ → List LeakSite → List LeakSite
unfolding count_in
update_site c e key [] = []
update_site c e key (site ∷ chain) =
    if site.stack_hash == key then count_in c e site ∷ chain else site ∷ update_site c e key chain

abbrev pub site_bucket : ℕ → ℕ
site_bucket key = bit_and key (leak_dedup_size - 1)

-- one round of the deduplication
pub add_to_table : Scan → LeakTable → Entry → LeakTable
unfolding has_site update_site new_site site_key
add_to_table c t e =
    let key = site_key e in
    let chain = get_or t.entries (site_bucket key) [] in
    if has_site key chain
    then record t { entries = set t.entries (site_bucket key) (update_site c e key chain) }
    else if ltb t.count leak_dedup_size && c.given t.count
    then record {
      entries = set t.entries (site_bucket key) (new_site c e ∷ chain);
      count = add64 t.count 1;
    }
    else t

pub add_all : Scan → LeakTable → List Entry → LeakTable
unfolding add_to_table
add_all c t [] = t
add_all c t (e ∷ es) = add_all c (add_to_table c t e) es

abbrev pub empty_table : LeakTable
empty_table = record { entries = replicate leak_dedup_size []; count = 0 }

-- the sum over the table, on 64-bit words
pub sum_sites : List LeakSite → ℕ → ℕ
sum_sites [] total = total
sum_sites (site ∷ chain) total = sum_sites chain (add64 total site.total_size)

pub leak_total : List (List LeakSite) → ℕ → ℕ
unfolding sum_sites
leak_total [] total = total
leak_total (chain ∷ entries) total = leak_total entries (sum_sites chain total)

abbrev pub expired_sites : List LeakSite → ℕ
expired_sites = sum_by (λ site. if site.is_expired then 1 else 0)

-- Both counters stored; `sorted` says whether there is room for the array of sites, without which
-- no site counts as expired.
pub stored : Bool → LeakTable → State → State
unfolding leak_total
stored sorted t s = record s {
  counters = record s.counters {
    leak_bytes_total = leak_total t.entries 0;
    expired_alloc_count = if sorted then sum_by expired_sites t.entries else 0;
  };
}

-- A scan: the table of sites and the state. Without room for the snapshot it stores nothing.
unfoldable pub scan : (ℕ → Bool) → Bool → Scan → State → Option (LeakTable × State)
unfolding snapshot add_all stored
scan room sorted c s = elim (snapshot room s) [
  | none ↦ none
  | some snaps ↦ let t = add_all c empty_table snaps in some (t, stored sorted t s)
]

-- the size of a site at the last scan, 0 if it was not there
pub previous_total : ℕ → List (ℕ × ℕ) → ℕ
previous_total hash [] = 0
previous_total hash ((h, size) ∷ prev) = if h == hash then size else previous_total hash prev

-- the growth of a site since the last scan
unfoldable pub with_diff : List (ℕ × ℕ) → LeakSite → LeakSite
unfolding previous_total
with_diff prev site =
    let before = previous_total site.stack_hash prev in
    record site {
      diff_size = if ltb before site.total_size then sub64 site.total_size before else 0;
    }

-- what a comparison for `qsort` says of its first argument
pub data Sign : Type 0 where
  negative : Sign
  zero_sign : Sign
  positive : Sign

-- `cmp_leak_by_count`
unfoldable pub cmp_leak_by_count : LeakSite → LeakSite → Sign
cmp_leak_by_count a b =
    if ltb a.count b.count
    then Sign.positive
    else if ltb b.count a.count
    then Sign.negative
    else if ltb a.total_size b.total_size
    then Sign.positive
    else if ltb b.total_size a.total_size
    then Sign.negative
    else Sign.zero_sign
