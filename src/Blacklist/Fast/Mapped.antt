-- ===== src/Blacklist/Fast/Mapped.antt =====
-- src/tracker.c: a return address counts as blacklisted just where /proc/self/maps has a mapping
-- there whose path names a library of the list.
use memory_trace_tool.Base.{
  ℕ, ◌+◌, ◌-◌, ◌≤◌, ◌<◌, ◌≡◌, ◌≢◌, ◌⊎◌, ◌↔◌, inl, inr, refl, ap, sym, ◌∙◌, true, false, ◌&&◌, ◌||◌,
  Option, some, List, [], ◌∷◌, ◌++◌, if◌then◌else◌, ◌==◌, leb, ltb, length, take, length-append,
  append-nil, arith, Bool-cases,
}
use mathlib.Core.List.{append_assoc}
use memory_trace_tool.State.{null}
use memory_trace_tool.Blacklist.{AddrRange, FastBlacklist, any_range, is_lr_in_blacklist}
use memory_trace_tool.Blacklist.Texts.{tokens_of, has_token}
use memory_trace_tool.Blacklist.Fast.{
  blacklist_ranges_max, line_room, read_lines, match_lines, conclude, parse_with,
  parse_blacklist_fast,
}
use memory_trace_tool.Blacklist.Fast.Lines.{is_named, range_of, match_line-IsLine}
use memory_trace_tool.Request.Lines.{Lacks}
use memory_trace_tool.Maps.{MapsLine}
use memory_trace_tool.Maps.Lines.{Layout, line_of, IsLine}

-- The text is one line for each mapping, each short enough for the code's buffer.
pub data ShortLines : List MapsLine → List ℕ → Type 0 where
  nothing : ShortLines [] []
  line :
      {f : MapsLine} {fs : List MapsLine} {text : List ℕ} (l : Layout)
      → IsLine f l
      → length (line_of l f) < line_room
      → ShortLines fs text
      → ShortLines (f ∷ fs) (line_of l f ++ (10 ∷ text))

-- A mapping whose path names a library of the list covers the address.
pub data HasNamed (tokens : List (List ℕ)) (lr : ℕ) : List MapsLine → Type 0 where
  here :
      {f : MapsLine} {fs : List MapsLine}
      → is_named tokens f.path ≡ true
      → f.lo ≤ lr
      → lr < f.hi
      → HasNamed tokens lr (f ∷ fs)
  there : {f : MapsLine} {fs : List MapsLine} → HasNamed tokens lr fs → HasNamed tokens lr (f ∷ fs)

-- the ranges of the mappings whose paths name a library of the list
unfoldable pub named_ranges : List (List ℕ) → List MapsLine → List AddrRange
named_ranges tokens [] = []
named_ranges tokens (f ∷ fs) =
    let rest = named_ranges tokens fs in if is_named tokens f.path then range_of f ∷ rest else rest

read_lines-line :
    (left : ℕ) (text rest : List ℕ)
    → Lacks 10 text
    → length text < left
    → read_lines left (text ++ (10 ∷ rest)) ≡ (text ++ (10 ∷ [])) ∷ read_lines line_room rest
unfolding read_lines
read_lines-line left [] rest lacks short = refl
read_lines-line left (c ∷ cs) rest lacks short =
    let goes_on : (c == 10 || leb left 1) ≡ false = ground (arith, lacks.0, short) in
    rw (goes_on, read_lines-line (left - 1) cs rest lacks.1 (omega arith)) refl

named_ranges-named :
    (tokens : List (List ℕ)) (f : MapsLine) (fs : List MapsLine)
    → is_named tokens f.path ≡ true
    → named_ranges tokens (f ∷ fs) ≡ range_of f ∷ named_ranges tokens fs
unfolding named_ranges
named_ranges-named tokens f fs named = rw named refl

named_ranges-other :
    (tokens : List (List ℕ)) (f : MapsLine) (fs : List MapsLine)
    → is_named tokens f.path ≡ false
    → named_ranges tokens (f ∷ fs) ≡ named_ranges tokens fs
unfolding named_ranges
named_ranges-other tokens f fs other = rw other refl

leb-false : (m n : ℕ) → n < m → leb m n ≡ false
leb-false m n h = ground arith

match_lines-ShortLines :
    (tokens : List (List ℕ)) {fs : List MapsLine} {text : List ℕ} (ranges : List AddrRange)
    → ShortLines fs text
    → length ranges + length (named_ranges tokens fs) ≤ blacklist_ranges_max
    → match_lines tokens (read_lines line_room text) ranges ≡ ranges ++ named_ranges tokens fs
unfolding match_lines named_ranges read_lines
match_lines-ShortLines tokens ranges nothing fits = sym (append-nil ranges)
match_lines-ShortLines tokens ranges (line {f = f} {fs = fs} {text = text} l is short lines) fits =
    let first = read_lines-line line_room (line_of l f) text is.one_line short in
    let matched = match_line-IsLine tokens f l is in
    elim (Bool-cases (is_named tokens f.path)) [
      | inl named ↦
          let same = named_ranges-named tokens f fs named in
          let less = ap length same in
          let longer = length-append ranges (range_of f ∷ []) in
          let room = leb-false blacklist_ranges_max (length ranges) (omega (arith, fits, less)) in
          rw (same, first, match_lines, matched, named, room)
            (match_lines-ShortLines tokens (ranges ++ (range_of f ∷ [])) lines
                (omega (arith, fits, less, longer))
              ∙ append_assoc ranges (range_of f ∷ []) (named_ranges tokens fs))
      | inr other ↦
          let same = named_ranges-other tokens f fs other in
          let less = ap length same in
          rw (same, first, match_lines, matched, other)
            (match_lines-ShortLines tokens ranges lines (omega (arith, fits, less)))
    ]

any_range_sound :
    (lr : ℕ) (r : AddrRange) (rs : List AddrRange)
    → any_range lr (r ∷ rs) ≡ true
    → ((r.start ≤ lr) × (lr < r.end)) ⊎ (any_range lr rs ≡ true)
unfolding any_range
any_range_sound lr r rs h = elim (Bool-cases (leb r.start lr && ltb lr r.end)) [
  | inl inside ↦ inl (ground (arith, inside), ground (arith, inside))
  | inr outside ↦ inr (ground (arith, outside, h))
]

any_range-here :
    (lr : ℕ) (r : AddrRange) (rs : List AddrRange)
    → r.start ≤ lr
    → lr < r.end
    → any_range lr (r ∷ rs) ≡ true
unfolding any_range
any_range-here lr r rs low high =
    let inside : (leb r.start lr && ltb lr r.end) ≡ true = ground (arith, low, high) in
    rw inside refl

any_range-there :
    (lr : ℕ) (r : AddrRange) (rs : List AddrRange)
    → any_range lr rs ≡ true
    → any_range lr (r ∷ rs) ≡ true
unfolding any_range
any_range-there lr r rs later = elim (Bool-cases (leb r.start lr && ltb lr r.end)) [
  | inl inside ↦ rw inside refl
  | inr outside ↦ rw outside later
]

named_ranges_sound :
    (tokens : List (List ℕ)) (lr : ℕ) (fs : List MapsLine)
    → any_range lr (named_ranges tokens fs) ≡ true
    → HasNamed tokens lr fs
unfolding any_range named_ranges
named_ranges_sound tokens lr [] h = cc
named_ranges_sound tokens lr (f ∷ fs) h = elim (Bool-cases (is_named tokens f.path)) [
  | inl named ↦
      let same = named_ranges-named tokens f fs named in
      let split =
        any_range_sound lr (range_of f) (named_ranges tokens fs)
          (sym (ap (any_range lr) same) ∙ h) in
      elim split [
        | inl (low, high) ↦ here named low high
        | inr later ↦ there (named_ranges_sound tokens lr fs later)
      ]
  | inr other ↦
      let same = named_ranges-other tokens f fs other in
      there (named_ranges_sound tokens lr fs (sym (ap (any_range lr) same) ∙ h))
]

named_ranges_complete :
    (tokens : List (List ℕ)) (lr : ℕ) {fs : List MapsLine}
    → HasNamed tokens lr fs
    → any_range lr (named_ranges tokens fs) ≡ true
named_ranges_complete tokens lr (here {f = f} {fs = fs} named low high) =
    ap (any_range lr) (named_ranges-named tokens f fs named)
    ∙ any_range-here lr (range_of f) (named_ranges tokens fs) low high
named_ranges_complete tokens lr (there {f = f} {fs = fs} later) =
    let rest = named_ranges_complete tokens lr later in
    elim (Bool-cases (is_named tokens f.path)) [
      | inl named ↦
          ap (any_range lr) (named_ranges-named tokens f fs named)
          ∙ any_range-there lr (range_of f) (named_ranges tokens fs) rest
      | inr other ↦ ap (any_range lr) (named_ranges-other tokens f fs other) ∙ rest
    ]

conclude-lookup :
    (tokens : List (List ℕ)) (exe : Option (List ℕ)) (rs : List AddrRange) (lr : ℕ)
    → lr ≢ null
    → is_lr_in_blacklist (conclude tokens exe false rs).blacklist lr ≡ any_range lr rs
unfolding is_lr_in_blacklist conclude any_range
conclude-lookup tokens exe [] lr some_addr = refl
conclude-lookup tokens exe (r ∷ rs) lr some_addr =
    let there : (lr == null) ≡ false = ground (arith, some_addr) in rw there refl

not_named : (path : List ℕ) → is_named [] path ≡ false
unfolding has_token
not_named [] = refl
not_named (c ∷ cs) = refl

nothing_named : (lr : ℕ) {fs : List MapsLine} → ¬ HasNamed [] lr fs
nothing_named lr (here {f = f} named low high) = cc (named, not_named f.path)
nothing_named lr (there later) = nothing_named lr later

-- the library names of MTT_LIB_BLACKLIST_FAST
abbrev pub libraries : List ℕ → List (List ℕ)
libraries env = take 16 (tokens_of (take 511 env))

abbrev pub no_ranges : FastBlacklist
no_ranges = record { enabled = false; ranges = [] }

no_ranges-lookup : (lr : ℕ) → is_lr_in_blacklist no_ranges lr ≡ false
unfolding is_lr_in_blacklist
no_ranges-lookup lr = refl

parse_with-lookup :
    (tokens : List (List ℕ)) {fs : List MapsLine} {text : List ℕ} (exe : Option (List ℕ)) (lr : ℕ)
    → ShortLines fs text
    → length (named_ranges tokens fs) ≤ blacklist_ranges_max
    → lr ≢ null
    → (is_lr_in_blacklist (parse_with tokens (some text) exe no_ranges).blacklist lr ≡ true)
      ↔ HasNamed tokens lr fs
unfolding parse_with
parse_with-lookup [] exe lr lines few some_addr =
    ((λ yes. cc (yes, no_ranges-lookup lr)), λ has. absurd (nothing_named lr has))
parse_with-lookup (token ∷ tokens) {fs = fs} exe lr lines few some_addr =
    rw
      (
        match_lines-ShortLines (token ∷ tokens) [] lines (omega (arith, few)),
        conclude-lookup (token ∷ tokens) exe (named_ranges (token ∷ tokens) fs) lr some_addr,
      )
      (named_ranges_sound (token ∷ tokens) lr fs, named_ranges_complete (token ∷ tokens) lr)

-- For a text of /proc/self/maps whose lines spell mappings and are short enough for the buffer,
-- of which at most 64 have a path that names a library of the list: after
-- mtt_parse_blacklist_fast on an empty table, a return address that is not NULL counts as
-- blacklisted just where a mapping covers it whose path has, in its first 255 bytes, one of the
-- first 16 names of MTT_LIB_BLACKLIST_FAST, as far as its first 511 bytes go.
pub parse_blacklist_fast_iff :
    (env : List ℕ) {fs : List MapsLine} {text : List ℕ} (exe : Option (List ℕ)) (lr : ℕ)
    → ShortLines fs text
    → length (named_ranges (libraries env) fs) ≤ blacklist_ranges_max
    → lr ≢ null
    → (is_lr_in_blacklist (parse_blacklist_fast (some env) (some text) exe no_ranges).blacklist lr
        ≡ true)
      ↔ HasNamed (libraries env) lr fs
unfolding parse_blacklist_fast
parse_blacklist_fast_iff env exe lr lines few some_addr =
    parse_with-lookup (libraries env) exe lr lines few some_addr
