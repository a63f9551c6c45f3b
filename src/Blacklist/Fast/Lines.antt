-- ===== src/Blacklist/Fast/Lines.antt =====
-- src/tracker.c: what `mtt_parse_blacklist_fast` reads of a line of /proc/self/maps.
use memory_trace_tool.Base.{
  ℕ, zero, suc, ◌≤◌, ◌≡◌, ◌≢◌, inl, inr, refl, ap, sym, ◌∙◌, Bool, false, Option, none, some, List,
  [], ◌∷◌, ◌++◌, if◌then◌else◌, ◌==◌, length, take, replicate, length-append, arith,
}
use mathlib.Core.List.{append_assoc}
use memory_trace_tool.Blacklist.{AddrRange}
use memory_trace_tool.Blacklist.Texts.{has_token}
use memory_trace_tool.Blacklist.Fast.{scan_text, scan_line_end, scan_path, scan_mapping, match_line}
use memory_trace_tool.Request.{c_string}
use memory_trace_tool.Request.Lines.{Lacks, c_string-append}
use memory_trace_tool.Maps.{MapsLine, ◌>>=◌, is_blank, skip_blanks, scan_word, some_word}
use memory_trace_tool.Maps.Fields.{
  Spelling, done, digit, NoBlank, digit_value-IsDigit, skip_blanks-other, skip_blanks-space,
  scan_word-NoBlank, scan_number-IsNumeral,
}
use memory_trace_tool.Maps.Lines.{
  NotIndented, Layout, after_inode, line_of, IsLine, skip_blanks-path,
}

digits_NoBlank :
    {base acc n : ℕ} {digits : List ℕ} → base ≤ 16 → Spelling base acc digits n → NoBlank digits
digits_NoBlank small done = tt
digits_NoBlank {base = base} small (digit {d = v} {c = c} e s) =
    let c_digit = digit_value-IsDigit base c v small e in
    (ground (arith, c_digit), digits_NoBlank small s)

NoBlank-append : (a b : List ℕ) → NoBlank a → NoBlank b → NoBlank (a ++ b)
NoBlank-append [] b ha hb = hb
NoBlank-append (c ∷ cs) b (h, ha) hb = (h, NoBlank-append cs b ha hb)

-- A word behind a blank.
scan_text-NoBlank :
    (text rest : List ℕ)
    → NoBlank text
    → text ≢ []
    → scan_text (32 ∷ (text ++ (32 ∷ rest))) ≡ some (text, 32 ∷ rest)
unfolding scan_text
scan_text-NoBlank [] rest clean some_text = absurd (some_text refl)
scan_text-NoBlank (c ∷ cs) rest clean some_text =
    let room = length (32 ∷ ((c ∷ cs) ++ (32 ∷ rest))) in
    let start =
      skip_blanks-space (c ∷ (cs ++ (32 ∷ rest)))
      ∙ skip_blanks-other c (cs ++ (32 ∷ rest)) clean.0 in
    let enough : length (c ∷ cs) ≤ room = omega (arith, length-append cs (32 ∷ rest)) in
    ap (λ t. some_word (scan_word room t)) start
    ∙ ap some_word (scan_word-NoBlank room (c ∷ cs) rest clean enough)

-- The line with a newline behind it is a line whose path has one.
line_of-append :
    (l : Layout) (f : MapsLine) (t : List ℕ)
    → line_of l f ++ t ≡ line_of l (record f { path = f.path ++ t })
unfolding line_of after_inode
line_of-append l f t = simp append_assoc refl

scan_line_end-Lacks :
    (room : ℕ) (path : List ℕ)
    → Lacks 10 path
    → (scan_line_end room (path ++ (10 ∷ []))).0 ≡ take room path
unfolding scan_line_end
scan_line_end-Lacks zero path lacks = refl
scan_line_end-Lacks (suc room) [] lacks = refl
scan_line_end-Lacks (suc room) (c ∷ cs) lacks =
    let other : (c == 10) ≡ false = ground (arith, lacks.0) in
    rw other (ap (λ r. c ∷ r) (scan_line_end-Lacks room cs lacks.1))

some_word-cons :
    (p : List ℕ × List ℕ) (c : ℕ) (cs : List ℕ) → p.0 ≡ c ∷ cs → some_word p ≡ some (c ∷ cs, p.1)
some_word-cons ([], rest) c cs e = cc
some_word-cons (d ∷ ds, rest) c cs e = ap (λ w. some (w, rest)) e

-- A path of one byte or more is read up to the newline, or cut.
scan_path-some :
    (n c : ℕ) (cs : List ℕ)
    → is_blank c ≡ false
    → Lacks 10 (c ∷ cs)
    → (rest : List ℕ) × (scan_path (replicate n 32 ++ ((c ∷ cs) ++ (10 ∷ [])))
        ≡ some (take 255 (c ∷ cs), rest))
unfolding scan_path
scan_path-some n c cs start lacks =
    let read = scan_line_end 255 ((c ∷ cs) ++ (10 ∷ [])) in
    (
      read.1,
      ap (λ t. some_word (scan_line_end 255 t)) (skip_blanks-path n ((c ∷ cs) ++ (10 ∷ [])) start)
          ∙ some_word-cons read c (take 254 cs) (scan_line_end-Lacks 255 (c ∷ cs) lacks),
    )

skip_all : (n : ℕ) → skip_blanks (replicate n 32 ++ (10 ∷ [])) ≡ []
unfolding skip_blanks
skip_all zero = refl
skip_all (suc n) = skip_all n

-- Without a path there is nothing to read.
scan_path-none : (n : ℕ) → scan_path (replicate n 32 ++ (10 ∷ [])) ≡ none
unfolding scan_path scan_line_end
scan_path-none n = ap (λ t. some_word (scan_line_end 255 t)) (skip_all n)

scan_dev :
    (major minor rest : List ℕ)
    → NoBlank major
    → NoBlank minor
    → major ≢ []
    → scan_text (32 ∷ (major ++ (58 ∷ (minor ++ (32 ∷ rest)))))
      ≡ some (major ++ (58 ∷ minor), 32 ∷ rest)
scan_dev major minor rest clean clean' some_major =
    ap (λ t. scan_text (32 ∷ t)) (sym (append_assoc major (58 ∷ minor) (32 ∷ rest)))
    ∙ scan_text-NoBlank (major ++ (58 ∷ minor)) rest
        (NoBlank-append major (58 ∷ minor) clean (refl, clean')) (not_empty major some_major)
  where
    not_empty : (a : List ℕ) → a ≢ [] → (a ++ (58 ∷ minor)) ≢ []
    not_empty [] some_a e = absurd (some_a refl)
    not_empty (c ∷ cs) some_a e = cc

abbrev pub range_of : MapsLine → AddrRange
range_of f = record { start = f.lo; end = f.hi }

-- What the line gives, once the path is read.
scan_mapping-line :
    (f g : MapsLine) (l : Layout)
    → IsLine f l
    → scan_mapping (line_of l (record f { path = g.path }))
      ≡ (scan_path (32 ∷ (replicate l.padding 32 ++ g.path)) >>= (λ (p, _). some (range_of f, p)))
unfolding scan_mapping line_of after_inode
scan_mapping-line f g l is =
    let r₇ = replicate l.padding 32 ++ g.path in
    let r₆ = l.inode ++ (32 ∷ r₇) in
    let r₅ = l.major ++ (58 ∷ (l.minor ++ (32 ∷ r₆))) in
    let r₄ = l.offset ++ (32 ∷ r₅) in
    let r₃ = f.perm ++ (32 ∷ r₄) in
    let r₂ = l.hi ++ (32 ∷ r₃) in
    rw
      (
        scan_number-IsNumeral 45 r₂ (omega arith) (inl refl) is.lo,
        ◌>>=◌,
        scan_number-IsNumeral 32 r₃ (omega arith) (inr (inr refl)) is.hi,
        ◌>>=◌,
        scan_text-NoBlank f.perm r₄ is.perm is.some_perm,
        ◌>>=◌,
        scan_text-NoBlank l.offset r₅ (digits_NoBlank (omega arith) is.offset.1.spelling)
            is.offset.1.some_digit,
        ◌>>=◌,
        scan_dev l.major l.minor r₆ (digits_NoBlank (omega arith) is.major.1.spelling)
            (digits_NoBlank (omega arith) is.minor.1.spelling) is.major.1.some_digit,
        ◌>>=◌,
        scan_text-NoBlank l.inode r₇ (digits_NoBlank (omega arith) is.inode.1.spelling)
            is.inode.1.some_digit,
      )
      refl

Lacks-behind : (b : ℕ) (a : List ℕ) (c : ℕ) (ys : List ℕ) → Lacks b (a ++ (c ∷ ys)) → Lacks b ys
Lacks-behind b [] c ys lacks = lacks.1
Lacks-behind b (x ∷ a) c ys lacks = Lacks-behind b a c ys lacks.1

Lacks-right : (b : ℕ) (n : ℕ) (ys : List ℕ) → Lacks b (replicate n 32 ++ ys) → Lacks b ys
Lacks-right b zero ys lacks = lacks
Lacks-right b (suc n) ys lacks = Lacks-right b n ys lacks.1

-- The path has no byte that the line lacks.
path-Lacks : (b : ℕ) (l : Layout) (f : MapsLine) → Lacks b (line_of l f) → Lacks b f.path
unfolding line_of after_inode
path-Lacks b l f lacks =
    let at_hi = Lacks-behind b l.lo 45 _ lacks in
    let at_perm = Lacks-behind b l.hi 32 _ at_hi in
    let at_offset = Lacks-behind b f.perm 32 _ at_perm in
    let at_major = Lacks-behind b l.offset 32 _ at_offset in
    let at_minor = Lacks-behind b l.major 58 _ at_major in
    let at_inode = Lacks-behind b l.minor 32 _ at_minor in
    Lacks-right b l.padding f.path (Lacks-behind b l.inode 32 _ at_inode)

-- The path names a library of the list, by its first 255 bytes.
abbrev pub is_named : List (List ℕ) → List ℕ → Bool
is_named tokens [] = false
is_named tokens (c ∷ cs) = has_token tokens (take 255 (c ∷ cs))

abbrev if_named : List (List ℕ) → AddrRange → Option (AddrRange × List ℕ) → Option AddrRange
if_named tokens r none = none
if_named tokens r (some (range, path)) = if has_token tokens path then some range else none

scan_mapping-path :
    (tokens : List (List ℕ)) (f : MapsLine) (l : Layout) (path : List ℕ)
    → IsLine f l
    → NotIndented path
    → Lacks 10 path
    → if_named tokens
        (range_of f)
        (scan_mapping (line_of l (record f { path = path ++ (10 ∷ []) })))
      ≡ (if is_named tokens path then some (range_of f) else none)
scan_mapping-path tokens f l [] is start lacks = ap (if_named tokens (range_of f)) (
    scan_mapping-line f (record f { path = 10 ∷ [] }) l is
    ∙ ap (λ o. o >>= (λ (p, _). some (range_of f, p))) (scan_path-none (suc l.padding)))
scan_mapping-path tokens f l (c ∷ cs) is start lacks =
    let (rest, read) = scan_path-some (suc l.padding) c cs start lacks in
    ap (if_named tokens (range_of f)) (
      scan_mapping-line f (record f { path = (c ∷ cs) ++ (10 ∷ []) }) l is
      ∙ ap (λ o. o >>= (λ (p, _). some (range_of f, p))) read)

newline_alone : c_string (10 ∷ []) ≡ 10 ∷ []
unfolding c_string
newline_alone = refl

-- A line adds the range of its mapping if the path names a library of the list.
pub match_line-IsLine :
    (tokens : List (List ℕ)) (f : MapsLine) (l : Layout)
    → IsLine f l
    → match_line tokens (line_of l f ++ (10 ∷ []))
      ≡ (if is_named tokens f.path then some (range_of f) else none)
unfolding match_line
match_line-IsLine tokens f l is =
    let whole =
      c_string-append (line_of l f) (10 ∷ []) is.no_nul
      ∙ ap (λ t. line_of l f ++ t) newline_alone
      ∙ line_of-append l f (10 ∷ []) in
    ap (λ t. if_named tokens (range_of f) (scan_mapping t)) whole
    ∙ scan_mapping-path tokens f l f.path is is.path (path-Lacks 10 l f is.one_line)
