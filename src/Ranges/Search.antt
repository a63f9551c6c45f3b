-- ===== src/Ranges/Search.antt =====
-- The binary search finds exactly the range that an address lies in.
use memory_trace_tool.Base.{
  ℕ, zero, suc, ◌+◌, ◌-◌, ◌/◌, ◌≤◌, ◌<◌, ◌≡◌, ◌≢◌, ◌↔◌, true, false, some, List, ◌==◌, length,
  get_or, arith, Option-cases, inl, inr, refl,
}
use memory_trace_tool.State.{null}
use memory_trace_tool.Ranges.{
  ExecRange, no_range, fix_thumb_addr, search, find_range, addr_is_executable, addr_libname,
}

abbrev pub range_at : List ExecRange → ℕ → ExecRange
range_at ranges i = get_or ranges i no_range

-- The address `a` lies in range `i`.
abbrev pub Covers : List ExecRange → ℕ → ℕ → Type 0
Covers ranges a i =
    (i < length ranges) × ((range_at ranges i).lo ≤ a) × (a < (range_at ranges i).hi)

-- /proc/self/maps lists the ranges upwards, none overlapping another.
pub record IsSorted (ranges : List ExecRange) : Type 0 where
  pub apart :
      (i j : ℕ) → i < j → j < length ranges → (range_at ranges i).hi ≤ (range_at ranges j).lo
  pub proper : (i : ℕ) → i < length ranges → (range_at ranges i).lo ≤ (range_at ranges i).hi

search_sound :
    (fuel : ℕ) (ranges : List ExecRange) (a lo top i : ℕ)
    → top ≤ length ranges
    → search fuel ranges a lo top ≡ some i
    → Covers ranges a i
unfolding search
search_sound zero ranges a lo top i h e = cc
search_sound (suc fuel) ranges a lo top i h e =
    let mid = lo + (top - 1 - lo) / 2 in
    let lower = search_sound fuel ranges a lo mid i in
    let upper = search_sound fuel ranges a (mid + 1) top i in ground (arith, lower, upper)

search_complete :
    (fuel : ℕ) (ranges : List ExecRange) (a lo top i : ℕ)
    → IsSorted ranges
    → Covers ranges a i
    → top ≤ length ranges
    → lo ≤ i
    → i < top
    → top ≤ lo + fuel
    → search fuel ranges a lo top ≡ some i
unfolding search
search_complete zero ranges a lo top i sorted c h h₁ h₂ enough = absurd (omega arith)
search_complete (suc fuel) ranges a lo top i sorted c h h₁ h₂ enough =
    let mid = lo + (top - 1 - lo) / 2 in
    let lower = search_complete fuel ranges a lo mid i sorted c in
    let upper = search_complete fuel ranges a (mid + 1) top i sorted c in
    ground (
      arith,
      lower,
      upper,
      c,
      sorted.apart i mid,
      sorted.apart mid i,
      sorted.proper mid,
      sorted.proper i,
    )

-- In a table of ranges that are sorted and apart, the binary search says yes of an address that
-- is not NULL just where some range covers it, its lowest bit cleared.
pub addr_is_executable_iff :
    (ranges : List ExecRange) (addr : ℕ)
    → IsSorted ranges
    → addr ≢ null
    → (addr_is_executable ranges addr ≡ true) ↔ ((i : ℕ) × Covers ranges (fix_thumb_addr addr) i)
unfolding addr_is_executable
addr_is_executable_iff ranges addr sorted some_addr =
    let a = fix_thumb_addr addr in
    let there : (addr == null) ≡ false = ground arith in
    let n = length ranges in
    elim (Option-cases (find_range ranges a)) [
      | inl missing ↦
          rw (there, missing)
            (
              (λ h. absurd (ground (arith, h))),
              λ (i, c). absurd (
                  ground (
                    arith,
                    missing,
                    search_complete n ranges a 0 n i sorted c (omega arith) (omega arith) c.0
                        (omega arith),
                  )),
            )
      | inr (i, found) ↦
          rw (there, found)
            ((λ _. (i, search_sound n ranges a 0 n i (omega arith) found)), λ _. refl)
    ]

-- In such a table, the name found for an address that is not NULL is the name of the range that
-- covers it.
pub addr_libname-covered :
    (ranges : List ExecRange) (addr i : ℕ)
    → IsSorted ranges
    → addr ≢ null
    → Covers ranges (fix_thumb_addr addr) i
    → addr_libname ranges addr ≡ some (range_at ranges i).libname
unfolding addr_libname
addr_libname-covered ranges addr i sorted some_addr c =
    let a = fix_thumb_addr addr in
    let n = length ranges in
    let there : (addr == null) ≡ false = ground arith in
    rw
      (
        there,
        search_complete n ranges a 0 n i sorted c (omega arith) (omega arith) c.0 (omega arith),
      )
      refl
