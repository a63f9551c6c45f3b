-- ===== src/Maps/Table.antt =====
-- src/addr_validate.c: an address is executable by the table that the parser leaves just where it
-- is by the text of /proc/self/maps.
use memory_trace_tool.Base.{
  ℕ, zero, suc, ◌≤◌, ◌<◌, ◌≡◌, ◌≢◌, ◌⊎◌, ◌↔◌, inl, inr, refl, subst, true, some, List, [], ◌∷◌,
  length, arith, Bool-cases,
}
use memory_trace_tool.State.{null}
use memory_trace_tool.Ranges.{ExecRange, fix_thumb_addr, addr_is_executable}
use memory_trace_tool.Ranges.Search.{IsSorted, Covers, range_at, addr_is_executable_iff}
use memory_trace_tool.Maps.{
  MapsLine, to_range, has_byte, max_exec_ranges, maps_buf_size, parse_maps,
}
use memory_trace_tool.Maps.Lines.{Spells, exec_ranges, parse_maps-Spells}

-- The mappings rise from `floor` on, none overlapping another, as the kernel lists them.
abbrev pub Rising : ℕ → List MapsLine → Type 0
Rising floor [] = Unit {0}
Rising floor (f ∷ fs) = (floor ≤ f.lo) × (f.lo ≤ f.hi) × Rising f.hi fs

-- An executable mapping of the list covers the address.
pub data HasCode (addr : ℕ) : List MapsLine → Type 0 where
  here :
      {f : MapsLine} {fs : List MapsLine}
      → has_byte 120 f.perm ≡ true
      → f.lo ≤ addr
      → addr < f.hi
      → HasCode addr (f ∷ fs)
  there : {f : MapsLine} {fs : List MapsLine} → HasCode addr fs → HasCode addr (f ∷ fs)

abbrev RangesRise : ℕ → List ExecRange → Type 0
RangesRise floor [] = Unit {0}
RangesRise floor (r ∷ rs) = (floor ≤ r.lo) × (r.lo ≤ r.hi) × RangesRise r.hi rs

from_below :
    (low floor : ℕ) (rs : List ExecRange) → low ≤ floor → RangesRise floor rs → RangesRise low rs
from_below low floor [] h rise = rise
from_below low floor (r ∷ rs) h rise = (omega (arith, rise.0), rise.1, rise.2)

exec_ranges-RangesRise :
    (floor : ℕ) (fs : List MapsLine) → Rising floor fs → RangesRise floor (exec_ranges fs)
unfolding exec_ranges
exec_ranges-RangesRise floor [] rise = rise
exec_ranges-RangesRise floor (f ∷ fs) (low, proper, rise) =
    let rest = exec_ranges-RangesRise f.hi fs rise in
    elim (Bool-cases (has_byte 120 f.perm)) [
      | inl code ↦ rw code (low, proper, rest)
      | inr data_only ↦ rw data_only (from_below floor f.hi (exec_ranges fs) (omega arith) rest)
    ]

RangesRise-at :
    (floor : ℕ) (rs : List ExecRange) (i : ℕ)
    → RangesRise floor rs
    → i < length rs
    → (floor ≤ (range_at rs i).lo) × ((range_at rs i).lo ≤ (range_at rs i).hi)
RangesRise-at floor [] i rise h = absurd (omega arith)
RangesRise-at floor (r ∷ rs) zero rise h = (rise.0, rise.1)
RangesRise-at floor (r ∷ rs) (suc i) rise h =
    let (above, proper) = RangesRise-at r.hi rs i rise.2 (omega arith) in
    (omega (arith, above, rise.0, rise.1), proper)

RangesRise-apart :
    (floor : ℕ) (rs : List ExecRange) (i j : ℕ)
    → RangesRise floor rs
    → i < j
    → j < length rs
    → (range_at rs i).hi ≤ (range_at rs j).lo
RangesRise-apart floor [] i j rise h h₁ = absurd (omega arith)
RangesRise-apart floor (r ∷ rs) i zero rise h h₁ = absurd (omega arith)
RangesRise-apart floor (r ∷ rs) zero (suc j) rise h h₁ =
    (RangesRise-at r.hi rs j rise.2 (omega arith)).0
RangesRise-apart floor (r ∷ rs) (suc i) (suc j) rise h h₁ =
    RangesRise-apart r.hi rs i j rise.2 (omega arith) (omega arith)

-- The table of rising mappings is one that the binary search is made for.
pub exec_ranges-IsSorted :
    (floor : ℕ) (fs : List MapsLine) → Rising floor fs → IsSorted (exec_ranges fs)
exec_ranges-IsSorted floor fs rise =
    let ranges = exec_ranges-RangesRise floor fs rise in
    record {
      apart = λ i j. RangesRise-apart floor (exec_ranges fs) i j ranges;
      proper = λ i h. (RangesRise-at floor (exec_ranges fs) i ranges h).1;
    }

HasCode-Covers :
    {addr : ℕ} {fs : List MapsLine} → HasCode addr fs → (i : ℕ) × Covers (exec_ranges fs) addr i
unfolding exec_ranges
HasCode-Covers (here code low high) = rw code (0, (ground arith, low, high))
HasCode-Covers (there {f = f} has) =
    let (i, (below, low, high)) = HasCode-Covers has in
    elim (Bool-cases (has_byte 120 f.perm)) [
      | inl code ↦ rw code (suc i, (ground (arith, below), low, high))
      | inr data_only ↦ rw data_only (i, (below, low, high))
    ]

Covers-cons :
    (addr : ℕ) (r : ExecRange) (rs : List ExecRange) (i : ℕ)
    → Covers (r ∷ rs) addr i
    → ((r.lo ≤ addr) × (addr < r.hi)) ⊎ ((j : ℕ) × Covers rs addr j)
Covers-cons addr r rs zero (_, low, high) = inl (low, high)
Covers-cons addr r rs (suc i) (below, low, high) = inr (i, (omega (arith, below), low, high))

Covers-HasCode :
    (addr : ℕ) (fs : List MapsLine) (i : ℕ) → Covers (exec_ranges fs) addr i → HasCode addr fs
unfolding exec_ranges
Covers-HasCode addr [] i (below, _, _) = absurd (omega arith)
Covers-HasCode addr (f ∷ fs) i covered = elim (Bool-cases (has_byte 120 f.perm)) [
  | inl code ↦
      let same : exec_ranges (f ∷ fs) ≡ to_range f ∷ exec_ranges fs = rw code refl in
      let split =
        Covers-cons addr (to_range f) (exec_ranges fs) i
          (subst (λ rs. Covers rs addr i) same covered) in
      elim split [
        | inl (low, high) ↦ here code low high
        | inr (j, later) ↦ there (Covers-HasCode addr fs j later)
      ]
  | inr data_only ↦
      let same : exec_ranges (f ∷ fs) ≡ exec_ranges fs = rw data_only refl in
      there (Covers-HasCode addr fs i (subst (λ rs. Covers rs addr i) same covered))
]

-- For a text of /proc/self/maps that fits the buffer, whose lines spell mappings that rise
-- without overlap and of which at most 256 are executable: by the table that the parser leaves,
-- an address that is not NULL is executable just where an executable mapping covers it, its
-- lowest bit cleared.
pub parse_maps-executable_iff :
    {fs : List MapsLine} {text : List ℕ} (ranges : List ExecRange) (addr : ℕ)
    → Spells fs text
    → Rising 0 fs
    → length text < maps_buf_size
    → length (exec_ranges fs) ≤ max_exec_ranges
    → addr ≢ null
    → (addr_is_executable (parse_maps (some text) ranges) addr ≡ true)
      ↔ HasCode (fix_thumb_addr addr) fs
parse_maps-executable_iff {fs = fs} {text = text} ranges addr spells rise short few some_addr =
    let found =
      addr_is_executable_iff (exec_ranges fs) addr (exec_ranges-IsSorted 0 fs rise) some_addr in
    rw (parse_maps-Spells ranges spells short few) (
      (λ yes. let (i, covered) = found.0 yes in Covers-HasCode (fix_thumb_addr addr) fs i covered),
      λ has. found.1 (HasCode-Covers has),
    )
