-- ===== src/Maps.antt =====
-- src/addr_validate.c: `parse_maps_locked`, from the text of /proc/self/maps to the table of
-- ranges. `sscanf` is written out for the one format that the code uses, and so are `strchr` and
-- `strrchr`; a string ends at its first NUL.
pub mod Fields
pub mod Lines
pub mod Table
use memory_trace_tool.Base.{
  ℕ, zero, suc, ◌+◌, ◌-◌, ◌*◌, Bool, true, false, not, ◌&&◌, ◌||◌, Option, none, some, List, [],
  ◌∷◌, ◌++◌, if◌then◌else◌, ◌==◌, ltb, leb, length, take, word, min,
}
use memory_trace_tool.Ranges.{ExecRange}
use memory_trace_tool.Request.{c_string}

-- MTT_MAX_EXEC_RANGES, MTT_MAPS_BUF_SIZE and MTT_LIBNAME_MAX
abbrev pub max_exec_ranges : ℕ
max_exec_ranges = 256

abbrev pub maps_buf_size : ℕ
maps_buf_size = 16384

abbrev pub libname_max : ℕ
libname_max = 64

-- a scanner: the value read and the rest of the text
abbrev pub Scanner : Type 0 → Type 0
Scanner A = List ℕ → Option (A × List ℕ)

-- `isspace`
abbrev pub is_blank : ℕ → Bool
is_blank c = c == 32 || leb 9 c && leb c 13

-- a blank in the format
unfoldable pub skip_blanks : List ℕ → List ℕ
skip_blanks [] = []
skip_blanks (c ∷ cs) = let rest = skip_blanks cs in if is_blank c then rest else c ∷ cs

-- the value of a digit to a base of at most 16
unfoldable pub digit_value : ℕ → ℕ → Option ℕ
digit_value base c =
    let v =
      if leb 48 c && leb c 57
      then c - 48
      else if leb 97 c && leb c 102
      then c - 87
      else if leb 65 c && leb c 70
      then c - 55
      else base in
    if ltb v base then some v else none

-- the digits from here on, after the number `acc`
pub scan_digits : ℕ → ℕ → List ℕ → ℕ × List ℕ
unfolding digit_value
scan_digits base acc [] = (acc, [])
scan_digits base acc (c ∷ cs) = elim (digit_value base c) [
  | none ↦ (acc, c ∷ cs)
  | some d ↦ scan_digits base (acc * base + d) cs
]

-- a number at its first digit
pub scan_unsigned : ℕ → Scanner ℕ
unfolding digit_value scan_digits
scan_unsigned base [] = none
scan_unsigned base (c ∷ cs) = elim (digit_value base c) [
  | none ↦ none
  | some d ↦ some (scan_digits base d cs)
]

-- "0x" before a hexadecimal number
pub skip_prefix : ℕ → List ℕ → List ℕ
skip_prefix base [] = []
skip_prefix base (a ∷ []) = a ∷ []
skip_prefix base (a ∷ b ∷ cs) =
    if base == 16 && a == 48 && (b == 120 || b == 88) then cs else a ∷ b ∷ cs

-- `strtoul` gives the greatest number where the number is too great, even after a minus
abbrev pub clamped : Option (ℕ × List ℕ) → Option (ℕ × List ℕ)
clamped none = none
clamped (some (n, rest)) = some (min n (word - 1), rest)

abbrev negated : Option (ℕ × List ℕ) → Option (ℕ × List ℕ)
negated none = none
negated (some (n, rest)) =
    some ((if n == 0 then 0 else if ltb n word then word - n else word - 1), rest)

-- a sign
pub scan_signed : ℕ → Scanner ℕ
unfolding scan_unsigned skip_prefix
scan_signed base [] = none
scan_signed base (c ∷ cs) =
    if c == 45
    then negated (scan_unsigned base (skip_prefix base cs))
    else if c == 43
    then clamped (scan_unsigned base (skip_prefix base cs))
    else clamped (scan_unsigned base (skip_prefix base (c ∷ cs)))

-- `%lx`, `%*x` and `%*u`
unfoldable pub scan_number : ℕ → Scanner ℕ
unfolding skip_blanks scan_signed
scan_number base text = scan_signed base (skip_blanks text)

-- one given byte of the format
unfoldable pub scan_byte : ℕ → List ℕ → Option (List ℕ)
scan_byte b [] = none
scan_byte b (c ∷ cs) = if c == b then some cs else none

-- up to `room` bytes that are no blanks
unfoldable pub scan_word : ℕ → List ℕ → List ℕ × List ℕ
scan_word zero text = ([], text)
scan_word (suc room) [] = ([], [])
scan_word (suc room) (c ∷ cs) =
    let (w, rest) = scan_word room cs in if is_blank c then ([], c ∷ cs) else (c ∷ w, rest)

-- a word must not be empty
abbrev pub some_word : List ℕ × List ℕ → Option (List ℕ × List ℕ)
some_word ([], rest) = none
some_word (c ∷ cs, rest) = some (c ∷ cs, rest)

-- `%7s`
pub scan_perm : Scanner (List ℕ)
unfolding skip_blanks scan_word
scan_perm text = some_word (scan_word 7 (skip_blanks text))

-- What the format reads of a line, with the text at `%n`.
pub record MapsLine : Type 0 where
  pub lo : ℕ
  pub hi : ℕ
  pub perm : List ℕ
  pub path : List ℕ

infixl 5 ◌>>=◌
abbrev pub ◌>>=◌ {ℓ κ} : {A : Type ℓ} {B : Type κ} → Option A → (A → Option B) → Option B
none >>= f = none
some a >>= f = f a

-- `sscanf(line, "%lx-%lx %7s %*x %*x:%*x %*u %n", …)`, where it comes to `%n`
pub scan_line : List ℕ → Option MapsLine
unfolding scan_number scan_byte scan_perm skip_blanks
scan_line line = do
  (lo, r₁) ← scan_number 16 line
  r₂ ← scan_byte 45 r₁
  (hi, r₃) ← scan_number 16 r₂
  (perm, r₄) ← scan_perm r₃
  (_, r₅) ← scan_number 16 r₄
  (_, r₆) ← scan_number 16 r₅
  r₇ ← scan_byte 58 r₆
  (_, r₈) ← scan_number 16 r₇
  (_, r₉) ← scan_number 10 r₈
  some (record { lo = lo; hi = hi; perm = perm; path = skip_blanks r₉ })

-- `strchr(text, byte) != NULL`
abbrev pub has_byte : ℕ → List ℕ → Bool
has_byte byte [] = false
has_byte byte (c ∷ cs) = c == byte || has_byte byte cs

-- `strrchr(text, byte) + 1`, or nothing for NULL
abbrev pub after_last : ℕ → List ℕ → Option (List ℕ)
after_last byte [] = none
after_last byte (c ∷ cs) = elim (after_last byte cs) [
  | none ↦ if c == byte then some cs else none
  | some rest ↦ some rest
]

-- the loop over blanks and tabs
abbrev pub skip_spaces : List ℕ → List ℕ
skip_spaces [] = []
skip_spaces (c ∷ cs) = let rest = skip_spaces cs in if c == 32 || c == 9 then rest else c ∷ cs

abbrev pub short_name : List ℕ → List ℕ
short_name path =
    take (libname_max - 1) (elim (after_last 47 path) [ none ↦ path | some base ↦ base ])

abbrev pub to_range : MapsLine → ExecRange
to_range f = record { lo = f.lo; hi = f.hi; libname = short_name (skip_spaces f.path) }

-- the body of the loop on one line: the range that it adds, if any
pub parse_line : List ℕ → Option ExecRange
unfolding scan_line c_string
parse_line line = elim (scan_line (c_string line)) [
  | none ↦ none
  | some f ↦ if has_byte 120 f.perm then some (to_range f) else none
]

abbrev pub begin_with : ℕ → List (List ℕ) → List (List ℕ)
begin_with c [] = (c ∷ []) ∷ []
begin_with c (line ∷ others) = (c ∷ line) ∷ others

-- the lines that `memchr` finds
pub split_lines : List ℕ → List (List ℕ)
split_lines [] = []
split_lines (c ∷ cs) =
    let others = split_lines cs in if c == 10 then [] ∷ others else begin_with c others

-- the loop, with room for so many ranges
pub parse_lines : ℕ → List (List ℕ) → List ExecRange
unfolding parse_line
parse_lines zero lines = []
parse_lines (suc room) [] = []
parse_lines (suc room) (line ∷ lines) = elim (parse_line line) [
  | none ↦ parse_lines (suc room) lines
  | some r ↦ r ∷ parse_lines room lines
]

-- `parse_maps_locked`: nothing is a file that does not open, which leaves the table as it is; the
-- text is what the reads give
unfoldable pub parse_maps : Option (List ℕ) → List ExecRange → List ExecRange
unfolding split_lines parse_lines
parse_maps none ranges = ranges
parse_maps (some text) ranges =
    parse_lines max_exec_ranges (split_lines (take (maps_buf_size - 1) text))
