-- ===== src/Blacklist.antt =====
-- src/tracker.c: the blacklist of libraries by address range, `mtt_is_lr_in_blacklist`.
pub mod Texts
pub mod Fast
use memory_trace_tool.Base.{
  ℕ, Bool, true, false, not, ◌&&◌, ◌||◌, List, [], ◌∷◌, if◌then◌else◌, ◌==◌, ltb, leb,
}
use memory_trace_tool.State.{null}

-- `mtt_addr_range_t`
pub record AddrRange : Type 0 where
  pub start : ℕ
  pub end : ℕ

-- `g_blacklist_fast_enabled` and `g_blacklist_ranges` up to `g_blacklist_range_count`
pub record FastBlacklist : Type 0 where
  pub enabled : Bool
  pub ranges : List AddrRange

any_range : ℕ → List AddrRange → Bool
any_range lr [] = false
any_range lr (r ∷ rs) = if leb r.start lr && ltb lr r.end then true else any_range lr rs

-- `mtt_is_lr_in_blacklist`
unfoldable pub is_lr_in_blacklist : FastBlacklist → ℕ → Bool
unfolding any_range
is_lr_in_blacklist b lr = if not b.enabled || lr == null then false else any_range lr b.ranges
