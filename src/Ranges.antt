-- ===== src/Ranges.antt =====
-- src/addr_validate.c: the sorted table of executable address ranges and its binary search.
pub mod Search
use memory_trace_tool.Base.{
  ℕ, zero, suc, ◌+◌, ◌-◌, ◌/◌, ◌%◌, Bool, true, false, Option, none, some, List, if◌then◌else◌,
  ◌==◌, ltb, leb, length, get_or,
}
use memory_trace_tool.State.{null}

-- `exec_range_t`; a name is a list of bytes without the final NUL.
pub record ExecRange : Type 0 where
  pub lo : ℕ
  pub hi : ℕ
  pub libname : List ℕ

abbrev pub no_range : ExecRange
no_range = record { lo = 0; hi = 0; libname = List.[] }

-- MTT_FIX_THUMB_ADDR, which clears the lowest bit on every platform.
abbrev pub fix_thumb_addr : ℕ → ℕ
fix_thumb_addr addr = addr - addr % 2

-- The loop `while (lo <= hi)`. The code's `hi`, which may reach -1, is `top - 1`.
pub search : ℕ → List ExecRange → ℕ → ℕ → ℕ → Option ℕ
search zero ranges a lo top = none
search (suc fuel) ranges a lo top =
    let mid = lo + (top - 1 - lo) / 2 in
    let r = get_or ranges mid no_range in
    elim (ltb lo top) [
      | false ↦ none
      | true ↦ elim (ltb a r.lo) [
        | true ↦ search fuel ranges a lo mid
        | false ↦ elim (leb r.hi a) [ true ↦ search fuel ranges a (mid + 1) top | false ↦ some mid ]
      ]
    ]

-- the search over the whole table; each step leaves fewer ranges, so that as many steps as there
-- are ranges are enough
abbrev pub find_range : List ExecRange → ℕ → Option ℕ
find_range ranges a = search (length ranges) ranges a 0 (length ranges)

-- `mtt_addr_is_executable`, once the table is there
unfoldable pub addr_is_executable : List ExecRange → ℕ → Bool
unfolding search
addr_is_executable ranges addr =
    if addr == null
    then false
    else elim (find_range ranges (fix_thumb_addr addr)) [ none ↦ false | some i ↦ true ]

-- `mtt_addr_libname`, once the table is there; nothing is NULL
unfoldable pub addr_libname : List ExecRange → ℕ → Option (List ℕ)
unfolding search
addr_libname ranges addr =
    if addr == null then none else elim (find_range ranges (fix_thumb_addr addr)) [
      | none ↦ none
      | some i ↦ some (get_or ranges i no_range).libname
    ]
