-- ===== src/Leaks/Groups.antt =====
-- src/reporter.c: the sites that a scan makes, against the records with the same stack.
use memory_trace_tool.Base.{
  ℕ, zero, suc, ◌+◌, ◌-◌, ◌≤◌, ◌<◌, ◌≡◌, ◌≢◌, ◌∙◌, refl, ap, sym, subst, Bool, true, false, ◌&&◌,
  some, List, [], ◌∷◌, replicate, ◌==◌, ltb, length, get_or, set, sum_by, get_or-set_self,
  get_or-set_ne, min, length-replicate, word, bit_and-le, arith, inl, inr, Bool-cases, ==_iff,
}
use memory_trace_tool.State.{Entry, State, lock_stripes}
use memory_trace_tool.Table.Nodes.{nodes}
use memory_trace_tool.Table.Accounts.{IsConsistent}
use memory_trace_tool.Leaks.{
  LeakSite, LeakTable, Scan, leak_dedup_size, site_bucket, has_site, update_site, new_site,
  site_key, add_to_table, add_all, empty_table, all_entries, stored, scan,
}
use memory_trace_tool.Leaks.Chains.{
  one_of, size_of, site_of, count_of_site, bytes_of_site, Extended, updated-Extended, new-Extended,
  one_of-le, no_counts,
}
use memory_trace_tool.Leaks.Visit.{length-all_entries, bytes-all_entries, all_entries-measure}
use memory_trace_tool.Leaks.Totals.{
  snapshot-all, add_to_table-Added, table_total, table_total-replicate,
}

-- The table has one site for the key if there are records, in the key's bucket, and its count and
-- bytes are theirs.
pub record IsGrouped (key : ℕ) (t : LeakTable) (records bytes : ℕ) : Type 0 where
  pub one : sum_by (site_of key) (get_or t.entries (site_bucket key) []) ≡ min 1 records
  pub count : sum_by (count_of_site key) (get_or t.entries (site_bucket key) []) ≡ records
  pub total : sum_by (bytes_of_site key) (get_or t.entries (site_bucket key) []) ≡ bytes
  pub elsewhere : (b : ℕ) → b ≢ site_bucket key → sum_by (site_of key) (get_or t.entries b []) ≡ 0

abbrev chain_at : LeakTable → ℕ → List LeakSite
chain_at t b = get_or t.entries b []

-- The table `t'` is `t` with the chain of one bucket replaced.
record Replaced (t t' : LeakTable) (b : ℕ) (chain' : List LeakSite) : Type 0 where
  here : chain_at t' b ≡ chain'
  there : (x : ℕ) → b ≢ x → chain_at t' x ≡ chain_at t x

set-Replaced :
    (t t' : LeakTable) (b : ℕ) (chain' : List LeakSite)
    → b < length t.entries
    → t'.entries ≡ set t.entries b chain'
    → Replaced t t' b chain'
set-Replaced t t' b chain' lt same = record {
  here = ap (λ es. get_or es b []) same ∙ get_or-set_self t.entries b chain' [] lt;
  there = λ x ne. ap (λ es. get_or es x []) same ∙ get_or-set_ne t.entries chain' [] ne;
}

-- The record's bucket is the key's.
together-IsGrouped :
    (key : ℕ) (e : Entry) (t t' : LeakTable) (chain' : List LeakSite) (n bytes : ℕ)
    → Replaced t t' (site_bucket key) chain'
    → Extended key e (chain_at t (site_bucket key)) chain'
    → IsGrouped key t n bytes
    → IsGrouped key t' (n + one_of key e) (bytes + size_of key e)
together-IsGrouped key e t t' chain' n bytes r ext g =
    let few = one_of-le key e in
    record {
      one = ap (sum_by (site_of key)) r.here ∙ omega (arith, ext.one, g.one, few);
      count = ap (sum_by (count_of_site key)) r.here ∙ omega (arith, ext.count, g.count);
      total = ap (sum_by (bytes_of_site key)) r.here ∙ omega (arith, ext.total, g.total);
      elsewhere =
          λ b ne. ap (sum_by (site_of key)) (r.there b (λ e. ne (sym e))) ∙ g.elsewhere b ne;
    }

-- The record's bucket is another one, so that its key is another one, too.
apart-IsGrouped :
    (key : ℕ) (e : Entry) (t t' : LeakTable) (chain' : List LeakSite) (n bytes : ℕ)
    → site_bucket (site_key e) ≢ site_bucket key
    → Replaced t t' (site_bucket (site_key e)) chain'
    → Extended key e (chain_at t (site_bucket (site_key e))) chain'
    → IsGrouped key t n bytes
    → IsGrouped key t' (n + one_of key e) (bytes + size_of key e)
apart-IsGrouped key e t t' chain' n bytes apart r ext g =
    let other : (site_key e == key) ≡ false = not_same key e apart in
    let none_of : one_of key e ≡ 0 = rw other refl in
    let no_size : size_of key e ≡ 0 = rw other refl in
    let kept = r.there (site_bucket key) apart in
    record {
      one = ap (sum_by (site_of key)) kept ∙ omega (arith, g.one, none_of);
      count = ap (sum_by (count_of_site key)) kept ∙ omega (arith, g.count, none_of);
      total = ap (sum_by (bytes_of_site key)) kept ∙ omega (arith, g.total, no_size);
      elsewhere = λ b ne. elim (Bool-cases (site_bucket (site_key e) == b)) [
        | inl same ↦
            let b_same : site_bucket (site_key e) ≡ b = (==_iff _ b).0 same in
            ap (λ x. sum_by (site_of key) (chain_at t' x)) (sym b_same)
            ∙ ap (sum_by (site_of key)) r.here
            ∙ omega (arith, ext.one, none_of, g.elsewhere (site_bucket (site_key e)) apart)
        | inr differs ↦
            ap (sum_by (site_of key)) (r.there b (λ same. cc (differs, (==_iff _ b).1 same)))
            ∙ g.elsewhere b ne
      ];
    }
  where
    not_same :
        (key : ℕ) (e : Entry)
        → site_bucket (site_key e) ≢ site_bucket key
        → (site_key e == key) ≡ false
    not_same key e apart = elim (Bool-cases (site_key e == key)) [
      | inl same ↦ absurd (apart (ap site_bucket ((==_iff (site_key e) key).0 same)))
      | inr differs ↦ differs
    ]

set-IsGrouped :
    (key : ℕ) (e : Entry) (t t' : LeakTable) (chain' : List LeakSite) (n bytes : ℕ)
    → Replaced t t' (site_bucket (site_key e)) chain'
    → Extended key e (chain_at t (site_bucket (site_key e))) chain'
    → IsGrouped key t n bytes
    → IsGrouped key t' (n + one_of key e) (bytes + size_of key e)
set-IsGrouped key e t t' chain' n bytes r ext g =
    elim (Bool-cases (site_bucket (site_key e) == site_bucket key)) [
      | inl together ↦
          let same = (==_iff (site_bucket (site_key e)) (site_bucket key)).0 together in
          together-IsGrouped key e t t' chain' n bytes (subst (λ b. Replaced t t' b chain') same r)
            (subst (λ b. Extended key e (chain_at t b) chain') same ext) g
      | inr apart ↦
          apart-IsGrouped key e t t' chain' n bytes
            (λ same. cc (apart, (==_iff (site_bucket (site_key e)) (site_bucket key)).1 same)) r ext
            g
    ]

-- What another record's bucket holds for the key is at most what the table does.
at_most :
    (key : ℕ) (t : LeakTable) (b n bytes : ℕ)
    → IsGrouped key t n bytes
    → (sum_by (count_of_site key) (chain_at t b) ≤ n)
      × (sum_by (bytes_of_site key) (chain_at t b) ≤ bytes)
at_most key t b n bytes g = elim (Bool-cases (b == site_bucket key)) [
  | inl same ↦
      let e = (==_iff b (site_bucket key)).0 same in
      (
        omega (arith, g.count, ap (λ x. sum_by (count_of_site key) (chain_at t x)) e),
        omega (arith, g.total, ap (λ x. sum_by (bytes_of_site key) (chain_at t x)) e),
      )
  | inr differs ↦
      let ne : b ≢ site_bucket key = λ e. cc (differs, (==_iff b (site_bucket key)).1 e) in
      let (none_of, no_bytes) = no_counts key (chain_at t b) (g.elsewhere b ne) in
      (omega (arith, none_of), omega (arith, no_bytes))
]

-- One round of the deduplication, while there is room.
add_to_table-IsGrouped :
    (key : ℕ) (c : Scan) (t : LeakTable) (e : Entry) (n bytes : ℕ)
    → ((k : ℕ) → c.given k ≡ true)
    → length t.entries ≡ leak_dedup_size
    → t.count < leak_dedup_size
    → n + 1 < word
    → bytes + e.size < word
    → IsGrouped key t n bytes
    → IsGrouped key (add_to_table c t e) (n + one_of key e) (bytes + size_of key e)
unfolding add_to_table
add_to_table-IsGrouped key c t e n bytes given size room fits fits' g =
    let b = site_bucket (site_key e) in
    let chain = chain_at t b in
    let lt : b < length t.entries =
      omega (arith, size, bit_and-le (site_key e) (leak_dedup_size - 1)) in
    let (low, low') = at_most key t b n bytes g in
    let there : (ltb t.count leak_dedup_size && c.given t.count) ≡ true =
      ground (arith, room, given t.count) in
    elim (Bool-cases (has_site (site_key e) chain)) [
      | inl known ↦
          let updated = update_site c e (site_key e) chain in
          rw known (
            set-IsGrouped key e t _ updated n bytes (set-Replaced t _ b updated lt refl)
              (updated-Extended key c e chain known (omega (arith, fits, low))
                (omega (arith, fits', low')))
              g)
      | inr unknown ↦
          let longer = new_site c e ∷ chain in
          rw (unknown, there)
            (set-IsGrouped key e t _ longer n bytes (set-Replaced t _ b longer lt refl)
              (new-Extended key c e chain unknown) g)
    ]

recounted :
    (key : ℕ) (t : LeakTable) {n n' bytes bytes' : ℕ}
    → IsGrouped key t n bytes
    → n ≡ n'
    → bytes ≡ bytes'
    → IsGrouped key t n' bytes'
recounted key t {n' = n'} {bytes = bytes} g same same' =
    subst (λ b. IsGrouped key t n' b) same' (subst (λ m. IsGrouped key t m bytes) same g)

add_all-IsGrouped :
    (key : ℕ) (c : Scan) (t : LeakTable) (es : List Entry) (n bytes : ℕ)
    → ((k : ℕ) → c.given k ≡ true)
    → length t.entries ≡ leak_dedup_size
    → t.count + length es ≤ leak_dedup_size
    → table_total t.entries + sum_by (λ e. e.size) es < word
    → n + length es < word
    → bytes + sum_by (λ e. e.size) es < word
    → IsGrouped key t n bytes
    → IsGrouped key (add_all c t es) (n + sum_by (one_of key) es) (bytes + sum_by (size_of key) es)
unfolding add_all
add_all-IsGrouped key c t [] n bytes given size room whole fits fits' g =
    recounted key t g (omega arith) (omega arith)
add_all-IsGrouped key c t (e ∷ es) n bytes given size room whole fits fits' g =
    let a = add_to_table-Added c t e given size (omega (arith, room)) (omega (arith, whole)) in
    let first =
      add_to_table-IsGrouped key c t e n bytes given size (omega (arith, room))
        (omega (arith, fits)) (omega (arith, fits')) g in
    let few = one_of-le key e in
    let small : size_of key e ≤ e.size = ground arith in
    let later =
      add_all-IsGrouped key c (add_to_table c t e) es (n + one_of key e) (bytes + size_of key e)
        given a.size (omega (arith, a.sites, room)) (omega (arith, a.total, whole))
        (omega (arith, fits, few)) (omega (arith, fits', small)) first in
    recounted key _ later (omega arith) (omega arith)

get_or-replicate : (n b : ℕ) → get_or {A = List LeakSite} (replicate n []) b [] ≡ []
get_or-replicate zero b = refl
get_or-replicate (suc n) zero = refl
get_or-replicate (suc n) (suc b) = get_or-replicate n b

empty_table-IsGrouped : (key : ℕ) → IsGrouped key empty_table 0 0
empty_table-IsGrouped key = record {
  one = ap (sum_by (site_of key)) (get_or-replicate leak_dedup_size (site_bucket key));
  count = ap (sum_by (count_of_site key)) (get_or-replicate leak_dedup_size (site_bucket key));
  total = ap (sum_by (bytes_of_site key)) (get_or-replicate leak_dedup_size (site_bucket key));
  elsewhere = λ b ne. ap (sum_by (site_of key)) (get_or-replicate leak_dedup_size b);
}

-- The records of a state with the key, and their bytes.
abbrev pub records_of : ℕ → State → ℕ
records_of key s = sum_by (sum_by (one_of key)) s.buckets

abbrev pub record_bytes : ℕ → State → ℕ
record_bytes key s = sum_by (sum_by (size_of key)) s.buckets

-- From a state in order with at most 2048 records, a scan that gets all the memory it asks for
-- groups them exactly: for every key of a stack the table has one site if some record has that
-- key and none otherwise, in the key's bucket only, whose count and bytes are the number of those
-- records and their bytes.
pub scan-IsGrouped :
    (room : ℕ → Bool) (sorted : Bool) (c : Scan) (s : State)
    → ((n : ℕ) → room n ≡ true)
    → ((n : ℕ) → c.given n ≡ true)
    → IsConsistent 0 s
    → nodes s ≤ leak_dedup_size
    → (t : LeakTable) × (s' : State) × (scan room sorted c s ≡ some (t, s'))
      × ((key : ℕ) → IsGrouped key t (records_of key s) (record_bytes key s))
unfolding scan
scan-IsGrouped room sorted c s room_given given ok few =
    let all = all_entries s.buckets lock_stripes 0 in
    let t = add_all c empty_table all in
    let number = length-all_entries s.buckets in
    let bytes = bytes-all_entries s.buckets in
    let none_yet = table_total-replicate leak_dedup_size in
    rw (snapshot-all room s room_given ok, scan)
      (
        t,
        stored sorted t s,
        refl,
        λ key.
            recounted key t
              (add_all-IsGrouped key c empty_table all 0 0 given
                (length-replicate {A = List LeakSite} leak_dedup_size [])
                (omega (arith, number, few)) (omega (arith, bytes, none_yet, ok.fits))
                (omega (arith, number, few)) (omega (arith, bytes, ok.fits))
                (empty_table-IsGrouped key))
              (omega (arith, all_entries-measure (one_of key) s.buckets))
              (omega (arith, all_entries-measure (size_of key) s.buckets)),
      )
