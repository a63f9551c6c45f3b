-- ===== src/Leaks/Chains.antt =====
-- src/reporter.c: what one record more makes of a chain of sites.
use memory_trace_tool.Base.{
  ℕ, ◌+◌, ◌≤◌, ◌<◌, ◌≡◌, refl, true, false, List, [], ◌∷◌, if◌then◌else◌, ◌==◌, sum_by, max, word,
  arith,
}
use memory_trace_tool.State.{Entry}
use memory_trace_tool.Leaks.{LeakSite, Scan, has_site, update_site, count_in, new_site, site_key}

-- What a record counts for a key: one, and its bytes.
abbrev pub one_of : ℕ → Entry → ℕ
one_of key e = if site_key e == key then 1 else 0

abbrev pub size_of : ℕ → Entry → ℕ
size_of key e = if site_key e == key then e.size else 0

-- What a site counts for a key: one, its count, and its bytes.
abbrev pub site_of : ℕ → LeakSite → ℕ
site_of key site = if site.stack_hash == key then 1 else 0

abbrev pub count_of_site : ℕ → LeakSite → ℕ
count_of_site key site = if site.stack_hash == key then site.count else 0

abbrev pub bytes_of_site : ℕ → LeakSite → ℕ
bytes_of_site key site = if site.stack_hash == key then site.total_size else 0

-- A chain after one record more.
pub record Extended (key : ℕ) (e : Entry) (chain chain' : List LeakSite) : Type 0 where
  pub one : sum_by (site_of key) chain' ≡ max (sum_by (site_of key) chain) (one_of key e)
  pub count : sum_by (count_of_site key) chain' ≡ sum_by (count_of_site key) chain + one_of key e
  pub total : sum_by (bytes_of_site key) chain' ≡ sum_by (bytes_of_site key) chain + size_of key e

update_site_sites :
    (key : ℕ) (c : Scan) (e : Entry) (own : ℕ) (chain : List LeakSite)
    → sum_by (site_of key) (update_site c e own chain) ≡ sum_by (site_of key) chain
unfolding update_site count_in
update_site_sites key c e own [] = refl
update_site_sites key c e own (site ∷ chain) = ground (arith, update_site_sites key c e own chain)

update_site_count :
    (key : ℕ) (c : Scan) (e : Entry) (own : ℕ) (chain : List LeakSite)
    → has_site own chain ≡ true
    → sum_by (count_of_site key) chain + 1 < word
    → sum_by (count_of_site key) (update_site c e own chain)
      ≡ sum_by (count_of_site key) chain + (if own == key then 1 else 0)
unfolding update_site count_in has_site
update_site_count key c e own [] h fits = cc
update_site_count key c e own (site ∷ chain) h fits =
    ground (arith, update_site_count key c e own chain)

update_site_bytes :
    (key : ℕ) (c : Scan) (e : Entry) (own : ℕ) (chain : List LeakSite)
    → has_site own chain ≡ true
    → sum_by (bytes_of_site key) chain + e.size < word
    → sum_by (bytes_of_site key) (update_site c e own chain)
      ≡ sum_by (bytes_of_site key) chain + (if own == key then e.size else 0)
unfolding update_site count_in has_site
update_site_bytes key c e own [] h fits = cc
update_site_bytes key c e own (site ∷ chain) h fits =
    ground (arith, update_site_bytes key c e own chain)

has_site_some :
    (key : ℕ) (chain : List LeakSite) → has_site key chain ≡ true → 1 ≤ sum_by (site_of key) chain
unfolding has_site
has_site_some key [] h = cc
has_site_some key (site ∷ chain) h = ground (arith, has_site_some key chain)

has_site_none :
    (key : ℕ) (chain : List LeakSite) → has_site key chain ≡ false → sum_by (site_of key) chain ≡ 0
unfolding has_site
has_site_none key [] h = refl
has_site_none key (site ∷ chain) h = ground (arith, has_site_none key chain)

pub updated-Extended :
    (key : ℕ) (c : Scan) (e : Entry) (chain : List LeakSite)
    → has_site (site_key e) chain ≡ true
    → sum_by (count_of_site key) chain + 1 < word
    → sum_by (bytes_of_site key) chain + e.size < word
    → Extended key e chain (update_site c e (site_key e) chain)
updated-Extended key c e chain known fits fits' = record {
  one =
      ground (
        arith,
        update_site_sites key c e (site_key e) chain,
        has_site_some (site_key e) chain known,
      );
  count = update_site_count key c e (site_key e) chain known fits;
  total = update_site_bytes key c e (site_key e) chain known fits';
}

pub new-Extended :
    (key : ℕ) (c : Scan) (e : Entry) (chain : List LeakSite)
    → has_site (site_key e) chain ≡ false
    → Extended key e chain (new_site c e ∷ chain)
unfolding new_site
new-Extended key c e chain unknown = record {
  one = ground (arith, has_site_none (site_key e) chain unknown);
  count = ground arith;
  total = ground arith;
}

pub one_of-le : (key : ℕ) (e : Entry) → one_of key e ≤ 1
one_of-le key e = ground arith

pub no_counts :
    (key : ℕ) (chain : List LeakSite)
    → sum_by (site_of key) chain ≡ 0
    → (sum_by (count_of_site key) chain ≡ 0) × (sum_by (bytes_of_site key) chain ≡ 0)
no_counts key [] h = (refl, refl)
no_counts key (site ∷ chain) h = ground (arith, no_counts key chain)
