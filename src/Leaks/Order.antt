-- ===== src/Leaks/Order.antt =====
-- The order in which a report lists the sites.
use memory_trace_tool.Base.{◌<◌, ◌≡◌, ◌↔◌, ◌⊎◌, arith}
use memory_trace_tool.Leaks.{LeakSite, Sign, cmp_leak_by_count}

-- Listed first: the site with more blocks, or with more bytes where the blocks are as many.
abbrev pub Before : LeakSite → LeakSite → Type 0
Before a b = (b.count < a.count) ⊎ ((a.count ≡ b.count) × (b.total_size < a.total_size))

-- The comparison of two sites is negative just where the first has more blocks, or as many and
-- more bytes, and positive just where the second has.
pub cmp_leak_by_count_iff :
    (a b : LeakSite)
    → ((cmp_leak_by_count a b ≡ Sign.negative) ↔ Before a b)
      × ((cmp_leak_by_count a b ≡ Sign.positive) ↔ Before b a)
unfolding cmp_leak_by_count
cmp_leak_by_count_iff a b = ground arith
