-- ===== src/Blacklist/Fast.antt =====
-- src/tracker.c: `mtt_parse_blacklist_fast`, from the texts of MTT_LIB_BLACKLIST_FAST and of
-- /proc/self/maps to the table of ranges.
pub mod Lines
pub mod Mapped
use memory_trace_tool.Base.{
  ℕ, zero, suc, ◌+◌, ◌-◌, Bool, true, false, not, ◌&&◌, ◌||◌, Option, none, some, List, [], ◌∷◌,
  ◌++◌, if◌then◌else◌, ◌==◌, ltb, leb, length, take,
}
use memory_trace_tool.Blacklist.{AddrRange, FastBlacklist}
use memory_trace_tool.Blacklist.Texts.{tokens_of, has_token}
use memory_trace_tool.Maps.{
  ◌>>=◌, begin_with, skip_blanks, scan_number, scan_byte, scan_word, some_word,
}
use memory_trace_tool.Request.{c_string}

-- MTT_BLACKLIST_RANGES_MAX
abbrev pub blacklist_ranges_max : ℕ
blacklist_ranges_max = 64

-- the most that `fgets` reads into `line`
abbrev pub line_room : ℕ
line_room = 511

-- what `fgets` reads in turn, a newline kept at its end; there is room for `left` bytes more
pub read_lines : ℕ → List ℕ → List (List ℕ)
read_lines left [] = []
read_lines left (c ∷ cs) =
    let ends = c == 10 || leb left 1 in
    let later = read_lines (if ends then line_room else left - 1) cs in
    if ends then (c ∷ []) ∷ later else begin_with c later

-- `%*s`
pub scan_text : List ℕ → Option (List ℕ × List ℕ)
unfolding skip_blanks scan_word
scan_text text = some_word (scan_word (length text) (skip_blanks text))

-- up to `room` bytes before a newline
pub scan_line_end : ℕ → List ℕ → List ℕ × List ℕ
scan_line_end zero text = ([], text)
scan_line_end (suc room) [] = ([], [])
scan_line_end (suc room) (c ∷ cs) =
    let (w, rest) = scan_line_end room cs in if c == 10 then ([], c ∷ cs) else (c ∷ w, rest)

-- ` %255[^\n]`
pub scan_path : List ℕ → Option (List ℕ × List ℕ)
unfolding skip_blanks scan_line_end
scan_path text = some_word (scan_line_end 255 (skip_blanks text))

-- `sscanf(line, "%lx-%lx %*s %*s %*s %*s %255[^\n]", …)` where it gives all three
pub scan_mapping : List ℕ → Option (AddrRange × List ℕ)
unfolding scan_number scan_byte scan_text scan_path
scan_mapping line = do
  (start, r₁) ← scan_number 16 line
  r₂ ← scan_byte 45 r₁
  (end, r₃) ← scan_number 16 r₂
  (_, r₄) ← scan_text r₃
  (_, r₅) ← scan_text r₄
  (_, r₆) ← scan_text r₅
  (_, r₇) ← scan_text r₆
  (path, _) ← scan_path r₇
  some (record { start = start; end = end }, path)

-- the range that a line adds, if any
pub match_line : List (List ℕ) → List ℕ → Option AddrRange
unfolding scan_mapping has_token c_string
match_line tokens line = elim (scan_mapping (c_string line)) [
  | none ↦ none
  | some (range, path) ↦ if has_token tokens path then some range else none
]

-- the loop over the lines; a match beyond the room ends it
pub match_lines : List (List ℕ) → List (List ℕ) → List AddrRange → List AddrRange
unfolding match_line
match_lines tokens [] ranges = ranges
match_lines tokens (line ∷ lines) ranges = elim (match_line tokens line) [
  | none ↦ match_lines tokens lines ranges
  | some range ↦ elim (leb blacklist_ranges_max (length ranges)) [
    | true ↦ ranges
    | false ↦ match_lines tokens lines (ranges ++ (range ∷ []))
  ]
]

-- What the function leaves, and whether it turns tracking off.
pub record Parsed : Type 0 where
  pub blacklist : FastBlacklist
  pub disables : Bool

abbrev untouched : FastBlacklist → Parsed
untouched b = record { blacklist = b; disables = false }

-- the tables after the loop; `exe` is what readlink gives of /proc/self/exe, if anything
pub conclude : List (List ℕ) → Option (List ℕ) → Bool → List AddrRange → Parsed
unfolding has_token
conclude tokens exe enabled [] = untouched (record { enabled = enabled; ranges = [] })
conclude tokens exe enabled (r ∷ rs) = record {
  blacklist = record { enabled = true; ranges = r ∷ rs };
  disables = elim exe [ none ↦ false | some path ↦ has_token tokens path ];
}

pub parse_with : List (List ℕ) → Option (List ℕ) → Option (List ℕ) → FastBlacklist → Parsed
unfolding read_lines match_lines conclude
parse_with [] maps exe b = untouched b
parse_with (token ∷ tokens) none exe b = untouched b
parse_with (token ∷ tokens) (some text) exe b =
    conclude (token ∷ tokens) exe b.enabled
      (match_lines (token ∷ tokens) (read_lines line_room text) b.ranges)

-- `mtt_parse_blacklist_fast`; nothing stands for a variable that is not set, and for a file that
-- does not open
unfoldable pub parse_blacklist_fast :
    Option (List ℕ) → Option (List ℕ) → Option (List ℕ) → FastBlacklist → Parsed
unfolding tokens_of parse_with
parse_blacklist_fast none maps exe b = untouched b
parse_blacklist_fast (some env) maps exe b =
    parse_with (take 16 (tokens_of (take 511 env))) maps exe b
