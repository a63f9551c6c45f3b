-- ===== src/Maps/Lines.antt =====
-- src/addr_validate.c: the table that a text of /proc/self/maps gives.
use memory_trace_tool.Base.{
  ℕ, zero, suc, ◌-◌, ◌≤◌, ◌<◌, ◌≡◌, ◌≢◌, ◌⊎◌, inl, inr, refl, ap, ◌∙◌, false, none, some, List, [],
  ◌∷◌, ◌++◌, if◌then◌else◌, ◌==◌, length, replicate, arith, Bool-cases,
}
use memory_trace_tool.Ranges.{ExecRange}
use memory_trace_tool.Request.{c_string}
use memory_trace_tool.Request.Lines.{Lacks, take-all}
use memory_trace_tool.Maps.{
  MapsLine, is_blank, skip_blanks, scan_number, scan_perm, scan_line, has_byte, skip_spaces,
  to_range, ◌>>=◌, parse_line, split_lines, parse_lines, max_exec_ranges, maps_buf_size, parse_maps,
}
use memory_trace_tool.Maps.Fields.{
  IsNumeral, NoBlank, scan_number-IsNumeral, scan_number-space, scan_perm-NoBlank,
}

-- No blank stands first.
abbrev pub NotIndented : List ℕ → Type 0
NotIndented [] = Unit {0}
NotIndented (c ∷ cs) = is_blank c ≡ false

-- The digits of the numbers of a line, and how many blanks stand before the path.
pub record Layout : Type 0 where
  pub lo : List ℕ
  pub hi : List ℕ
  pub offset : List ℕ
  pub major : List ℕ
  pub minor : List ℕ
  pub inode : List ℕ
  pub padding : ℕ

unfoldable pub after_inode : Layout → List ℕ → List ℕ
after_inode l path = 32 ∷ (replicate l.padding 32 ++ path)

-- "lo-hi perm offset major:minor inode path"
unfoldable pub line_of : Layout → MapsLine → List ℕ
unfolding after_inode
line_of l f =
    l.lo
    ++ (45
        ∷ (l.hi
            ++ (32
                ∷ (f.perm
                    ++ (32
                        ∷ (l.offset
                            ++ (32
                                ∷ (l.major
                                    ++ (58
                                        ∷ (l.minor
                                            ++ (32 ∷ (l.inode ++ after_inode l f.path))))))))))))

-- The line is as the kernel writes it: the numbers below 2^64, the permissions of one to seven
-- bytes, and a path, which may be empty.
pub record IsLine (f : MapsLine) (l : Layout) : Type 0 where
  pub lo : IsNumeral 16 l.lo f.lo
  pub hi : IsNumeral 16 l.hi f.hi
  pub offset : (n : ℕ) × IsNumeral 16 l.offset n
  pub major : (n : ℕ) × IsNumeral 16 l.major n
  pub minor : (n : ℕ) × IsNumeral 16 l.minor n
  pub inode : (n : ℕ) × IsNumeral 10 l.inode n
  pub perm : NoBlank f.perm
  pub some_perm : f.perm ≢ []
  pub short_perm : length f.perm ≤ 7
  pub path : NotIndented f.path
  pub one_line : Lacks 10 (line_of l f)
  pub no_nul : Lacks 0 (line_of l f)

-- The text is one line for each of these, a newline behind each.
pub data Spells : List MapsLine → List ℕ → Type 0 where
  nothing : Spells [] []
  line :
      {f : MapsLine} {fs : List MapsLine} {text : List ℕ} (l : Layout)
      → IsLine f l
      → Spells fs text
      → Spells (f ∷ fs) (line_of l f ++ (10 ∷ text))

pub skip_blanks-path :
    (n : ℕ) (path : List ℕ) → NotIndented path → skip_blanks (replicate n 32 ++ path) ≡ path
unfolding skip_blanks
skip_blanks-path zero [] start = refl
skip_blanks-path zero (c ∷ cs) start = rw start refl
skip_blanks-path (suc n) path start = skip_blanks-path n path start

skip_spaces-path : (path : List ℕ) → NotIndented path → skip_spaces path ≡ path
skip_spaces-path [] start = refl
skip_spaces-path (c ∷ cs) start = ground (arith, start)

scan_perm-IsLine :
    (perm rest : List ℕ)
    → NoBlank perm
    → perm ≢ []
    → length perm ≤ 7
    → scan_perm (32 ∷ (perm ++ (32 ∷ rest))) ≡ some (perm, 32 ∷ rest)
scan_perm-IsLine [] rest clean some_perm short = absurd (some_perm refl)
scan_perm-IsLine (c ∷ cs) rest clean some_perm short =
    scan_perm-NoBlank c cs rest clean (omega arith)

-- A number behind a blank.
pub scan_next :
    {base n : ℕ} {digits : List ℕ} (c : ℕ) (rest : List ℕ)
    → base ≤ 16
    → (c ≡ 45) ⊎ (c ≡ 58) ⊎ (c ≡ 32)
    → IsNumeral base digits n
    → scan_number base (32 ∷ (digits ++ (c ∷ rest))) ≡ some (n, c ∷ rest)
scan_next {base = base} {digits = digits} c rest small stop numeral =
    scan_number-space base (digits ++ (c ∷ rest)) ∙ scan_number-IsNumeral c rest small stop numeral

scan_line-IsLine : (f : MapsLine) (l : Layout) → IsLine f l → scan_line (line_of l f) ≡ some f
unfolding scan_line line_of after_inode
scan_line-IsLine f l is =
    let r₉ = replicate l.padding 32 ++ f.path in
    let r₈ = l.inode ++ (32 ∷ r₉) in
    let r₆ = l.minor ++ (32 ∷ r₈) in
    let r₅ = l.major ++ (58 ∷ r₆) in
    let r₄ = l.offset ++ (32 ∷ r₅) in
    let r₃ = f.perm ++ (32 ∷ r₄) in
    let r₂ = l.hi ++ (32 ∷ r₃) in
    rw
      (
        scan_number-IsNumeral 45 r₂ (omega arith) (inl refl) is.lo,
        ◌>>=◌,
        scan_number-IsNumeral 32 r₃ (omega arith) (inr (inr refl)) is.hi,
        ◌>>=◌,
        scan_perm-IsLine f.perm r₄ is.perm is.some_perm is.short_perm,
        ◌>>=◌,
        scan_next 32 r₅ (omega arith) (inr (inr refl)) is.offset.1,
        ◌>>=◌,
        scan_next 58 r₆ (omega arith) (inr (inl refl)) is.major.1,
        ◌>>=◌,
        scan_number-IsNumeral 32 r₈ (omega arith) (inr (inr refl)) is.minor.1,
        ◌>>=◌,
        scan_next 32 r₉ (omega arith) (inr (inr refl)) is.inode.1,
        ◌>>=◌,
        skip_blanks-path (suc l.padding) f.path is.path,
      )
      refl

-- The ranges of the executable mappings.
unfoldable pub exec_ranges : List MapsLine → List ExecRange
exec_ranges [] = []
exec_ranges (f ∷ fs) =
    let rest = exec_ranges fs in if has_byte 120 f.perm then to_range f ∷ rest else rest

pub c_string-Lacks : (text : List ℕ) → Lacks 0 text → c_string text ≡ text
unfolding c_string
c_string-Lacks [] lacks = refl
c_string-Lacks (c ∷ cs) lacks = ground (arith, c_string-Lacks cs lacks.1)

split_lines-line :
    (line text : List ℕ)
    → Lacks 10 line
    → split_lines (line ++ (10 ∷ text)) ≡ line ∷ split_lines text
unfolding split_lines
split_lines-line [] text lacks = refl
split_lines-line (c ∷ cs) text lacks =
    let other : (c == 10) ≡ false = ground (arith, lacks.0) in
    rw (other, split_lines-line cs text lacks.1) refl

parse_line-IsLine :
    (f : MapsLine) (l : Layout)
    → IsLine f l
    → parse_line (line_of l f) ≡ (if has_byte 120 f.perm then some (to_range f) else none)
unfolding parse_line
parse_line-IsLine f l is =
    let read = ap scan_line (c_string-Lacks (line_of l f) is.no_nul) ∙ scan_line-IsLine f l is in
    rw (parse_line, read) refl

no_elements : (ranges : List ExecRange) → length ranges ≤ 0 → [] ≡ ranges
no_elements [] fits = refl
no_elements (r ∷ rs) fits = absurd (omega arith)

pub parse_lines-Spells :
    (room : ℕ) {fs : List MapsLine} {text : List ℕ}
    → Spells fs text
    → length (exec_ranges fs) ≤ room
    → parse_lines room (split_lines text) ≡ exec_ranges fs
unfolding parse_lines exec_ranges split_lines
parse_lines-Spells zero spells fits = no_elements _ fits
parse_lines-Spells (suc room) nothing fits = refl
parse_lines-Spells (suc room) (line {f = f} {fs = fs} {text = text} l is spells) fits =
    let first = split_lines-line (line_of l f) text is.one_line in
    let read = parse_line-IsLine f l is in
    elim (Bool-cases (has_byte 120 f.perm)) [
      | inl code ↦
          rw (first, parse_lines, read, exec_ranges, code)
            (ap (λ rs. to_range f ∷ rs)
              (parse_lines-Spells room spells (ground (arith, code, fits))))
      | inr data_only ↦
          rw (first, parse_lines, read, exec_ranges, data_only)
            (parse_lines-Spells (suc room) spells (ground (arith, data_only, fits)))
    ]

-- where the text fits the buffer and the ranges the table
pub parse_maps-Spells :
    {fs : List MapsLine} {text : List ℕ} (ranges : List ExecRange)
    → Spells fs text
    → length text < maps_buf_size
    → length (exec_ranges fs) ≤ max_exec_ranges
    → parse_maps (some text) ranges ≡ exec_ranges fs
unfolding parse_maps
parse_maps-Spells {text = text} ranges spells short few =
    ap (λ t. parse_lines max_exec_ranges (split_lines t))
      (take-all (maps_buf_size - 1) text (omega arith))
    ∙ parse_lines-Spells max_exec_ranges spells few
