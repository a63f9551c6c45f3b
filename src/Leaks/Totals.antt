-- ===== src/Leaks/Totals.antt =====
-- What a scan stores, against the table of records that it reads.
use memory_trace_tool.Base.{
  ℕ, zero, suc, ◌+◌, ◌-◌, ◌≤◌, ◌<◌, ◌≡◌, ◌∙◌, refl, ap, Bool, true, ◌&&◌, some, List, [], ◌∷◌,
  replicate, ◌==◌, ltb, length, get_or, sum_by, sum_by-set, get_or-le-sum_by, length-set,
  length-replicate, add64, word, bit_and-le, arith, inl, inr, Bool-cases,
}
use memory_trace_tool.State.{Entry, State, lock_stripes}
use memory_trace_tool.Table.Nodes.{nodes}
use memory_trace_tool.Table.Accounts.{IsConsistent}
use memory_trace_tool.Leaks.{
  LeakSite, LeakTable, Scan, leak_dedup_size, site_bucket, has_site, update_site, count_in,
  new_site, site_key, add_to_table, add_all, empty_table, sum_sites, leak_total, snapshot,
  find_room, all_entries, stored, scan,
}
use memory_trace_tool.Leaks.Visit.{length-all_entries, bytes-all_entries, take-all}

abbrev pub chain_total : List LeakSite → ℕ
chain_total = sum_by (λ site. site.total_size)

abbrev pub table_total : List (List LeakSite) → ℕ
table_total = sum_by chain_total

abbrev sizes : List Entry → ℕ
sizes = sum_by (λ e. e.size)

update_site-total :
    (c : Scan) (e : Entry) (key : ℕ) (chain : List LeakSite)
    → has_site key chain ≡ true
    → chain_total chain + e.size < word
    → chain_total (update_site c e key chain) ≡ chain_total chain + e.size
unfolding has_site update_site count_in
update_site-total c e key [] h fits = cc
update_site-total c e key (site ∷ chain) h fits = ground (arith, update_site-total c e key chain)

-- One round puts the block's bytes into the table, as long as there is room for a new site.
pub record Added (t : LeakTable) (e : Entry) (t' : LeakTable) : Type 0 where
  pub total : table_total t'.entries ≡ table_total t.entries + e.size
  pub size : length t'.entries ≡ leak_dedup_size
  pub sites : t'.count ≤ t.count + 1

pub add_to_table-Added :
    (c : Scan) (t : LeakTable) (e : Entry)
    → ((n : ℕ) → c.given n ≡ true)
    → length t.entries ≡ leak_dedup_size
    → t.count < leak_dedup_size
    → table_total t.entries + e.size < word
    → Added t e (add_to_table c t e)
unfolding add_to_table new_site
add_to_table-Added c t e given size room fits =
    let key = site_key e in
    let b = site_bucket key in
    let chain = get_or t.entries b [] in
    let lt : b < length t.entries = omega (arith, bit_and-le key (leak_dedup_size - 1)) in
    let le = get_or-le-sum_by chain_total t.entries b [] lt in
    let longer = new_site c e ∷ chain in
    let updated = update_site c e key chain in
    let there : (ltb t.count leak_dedup_size && c.given t.count) ≡ true =
      ground (arith, given t.count) in
    elim (Bool-cases (has_site key chain)) [
      | inl known ↦ rw known (record {
        total = omega (
          arith,
          sum_by-set chain_total t.entries b updated [] lt,
          update_site-total c e key chain known (omega arith),
        );
        size = length-set t.entries b updated ∙ size;
        sites = omega arith;
      })
      | inr unknown ↦
          rw (unknown, there)
            (record {
              total = omega (arith, sum_by-set chain_total t.entries b longer [] lt);
              size = length-set t.entries b longer ∙ size;
              sites = omega arith;
            })
    ]

add_all-total :
    (c : Scan) (t : LeakTable) (es : List Entry)
    → ((n : ℕ) → c.given n ≡ true)
    → length t.entries ≡ leak_dedup_size
    → t.count + length es ≤ leak_dedup_size
    → table_total t.entries + sizes es < word
    → table_total (add_all c t es).entries ≡ table_total t.entries + sizes es
unfolding add_all
add_all-total c t [] given size room fits = omega arith
add_all-total c t (e ∷ es) given size room fits =
    let a = add_to_table-Added c t e given size (omega arith) (omega arith) in
    omega (
      arith,
      a.total,
      add_all-total c (add_to_table c t e) es given a.size (omega (arith, a.sites))
          (omega (arith, a.total)),
    )

sum_sites-total :
    (chain : List LeakSite) (total : ℕ)
    → total + chain_total chain < word
    → sum_sites chain total ≡ total + chain_total chain
unfolding sum_sites
sum_sites-total [] total fits = omega arith
sum_sites-total (site ∷ chain) total fits =
    omega (arith, sum_sites-total chain (add64 total site.total_size))

leak_total-total :
    (entries : List (List LeakSite)) (total : ℕ)
    → total + table_total entries < word
    → leak_total entries total ≡ total + table_total entries
unfolding leak_total
leak_total-total [] total fits = omega arith
leak_total-total (chain ∷ entries) total fits =
    omega (arith, sum_sites-total chain total, leak_total-total entries (sum_sites chain total))

pub table_total-replicate : (n : ℕ) → table_total (replicate n []) ≡ 0
table_total-replicate zero = refl
table_total-replicate (suc n) = omega (arith, table_total-replicate n)

none_left : (es : List Entry) → length es ≡ 0 → [] ≡ es
none_left [] h = refl
none_left (e ∷ es) h = absurd (omega arith)

pub snapshot-all :
    (room : ℕ → Bool) (s : State)
    → ((n : ℕ) → room n ≡ true)
    → IsConsistent 0 s
    → snapshot room s ≡ some (all_entries s.buckets lock_stripes 0)
unfolding snapshot find_room
snapshot-all room s given c =
    let all = all_entries s.buckets lock_stripes 0 in
    let n = length-all_entries s.buckets in
    elim (Bool-cases (s.counters.entry_count == 0)) [
      | inl empty ↦ rw empty (ap some (none_left all (ground (arith, n, c.entries))))
      | inr some_records ↦
          rw
            (
              some_records,
              given s.counters.entry_count,
              take-all s.counters.entry_count all (omega (arith, n, c.entries)),
            )
            refl
    ]

-- From a state in order with at most 2048 records, a scan that gets all the memory it asks for
-- succeeds, and stores as leaked bytes exactly the bytes that are in use.
pub scan-leak_bytes :
    (room : ℕ → Bool) (sorted : Bool) (c : Scan) (s : State)
    → ((n : ℕ) → room n ≡ true)
    → ((n : ℕ) → c.given n ≡ true)
    → IsConsistent 0 s
    → nodes s ≤ leak_dedup_size
    → (t : LeakTable) × (s' : State) × (scan room sorted c s ≡ some (t, s'))
      × (s'.counters.leak_bytes_total ≡ s.counters.current_bytes)
unfolding scan stored
scan-leak_bytes room sorted c s room_given given ok few =
    let all = all_entries s.buckets lock_stripes 0 in
    let t = add_all c empty_table all in
    let bytes = bytes-all_entries s.buckets in
    let none_yet = table_total-replicate leak_dedup_size in
    let total =
      add_all-total c empty_table all given
        (length-replicate {A = List LeakSite} leak_dedup_size [])
        (omega (arith, length-all_entries s.buckets)) (omega (arith, bytes, none_yet, ok.fits)) in
    rw (snapshot-all room s room_given ok, scan)
      (
        t,
        stored sorted t s,
        refl,
        omega (arith, total, bytes, none_yet, ok.fits, ok.bytes, leak_total-total t.entries 0),
      )
