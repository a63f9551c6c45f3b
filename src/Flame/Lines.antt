-- ===== src/Flame/Lines.antt =====
-- src/flamegraph.c: a line is read back as flamegraph.pl does, at the last space and at semicolons.
use memory_trace_tool.Base.{
  ℕ, zero, suc, ◌+◌, ◌-◌, ◌*◌, ◌/◌, ◌%◌, ◌<◌, ◌≡◌, ◌≢◌, refl, ap, ap₂, sym, subst, ◌∙◌, true, false,
  Option, none, some, List, [], ◌∷◌, ◌++◌, if◌then◌else◌, ◌==◌, ltb, take, word, Bool-cases,
  if_elim, ltb→lt, inl, inr, arith,
}
use mathlib.Core.List.{reverse, reverse-append}
use memory_trace_tool.Http.{is_skipped, any_shown, text_of}
use memory_trace_tool.Request.Lines.{Lacks}
use memory_trace_tool.Flame.{
  fold_frame, fold_frames, write_names, decimal, fold_line, fold_site, stack_depth,
}

-- The text before the last space, and what stands after it.
pub split_last : List ℕ → Option (List ℕ × List ℕ)
split_last [] = none
split_last (c ∷ cs) = elim (split_last cs) [
  | none ↦ if c == 32 then some ([], cs) else none
  | some (text, rest) ↦ some (c ∷ text, rest)
]

-- The first word, and the others that semicolons set apart.
pub split_words : List ℕ → List ℕ × List (List ℕ)
split_words [] = ([], [])
split_words (c ∷ cs) =
    let (text, others) = split_words cs in
    if c == 59 then ([], text ∷ others) else (c ∷ text, others)

-- A number up to the end of the line.
pub read_count : ℕ → List ℕ → Option ℕ
read_count acc [] = none
read_count acc (c ∷ cs) =
    let rest = read_count (acc * 10 + (c - 48)) cs in if c == 10 then some acc else rest

abbrev pub read_fields : Option (List ℕ × List ℕ) → Option (List (List ℕ) × Option ℕ)
read_fields none = none
read_fields (some (text, rest)) =
    some ((split_words text).0 ∷ (split_words text).1, read_count 0 rest)

-- The names of a line from the left, and its number.
pub read_line : List ℕ → Option (List (List ℕ) × Option ℕ)
unfolding split_last split_words read_count
read_line line = read_fields (split_last line)

split_last-Lacks : (text : List ℕ) → Lacks 32 text → split_last text ≡ none
unfolding split_last
split_last-Lacks [] lacks = refl
split_last-Lacks (c ∷ cs) lacks = ground (arith, split_last-Lacks cs lacks.1)

split_last-append :
    (text rest : List ℕ) → Lacks 32 rest → split_last (text ++ (32 ∷ rest)) ≡ some (text, rest)
unfolding split_last
split_last-append [] rest lacks = ground (arith, split_last-Lacks rest lacks)
split_last-append (c ∷ cs) rest lacks = ground (arith, split_last-append cs rest lacks)

split_words-Lacks : (text : List ℕ) → Lacks 59 text → split_words text ≡ (text, [])
unfolding split_words
split_words-Lacks [] lacks = refl
split_words-Lacks (c ∷ cs) lacks = ground (arith, split_words-Lacks cs lacks.1)

split_words-append :
    (text name : List ℕ)
    → Lacks 59 name
    → split_words (text ++ (59 ∷ name))
      ≡ ((split_words text).0, (split_words text).1 ++ (name ∷ []))
unfolding split_words
split_words-append [] name lacks = ground (arith, split_words-Lacks name lacks)
split_words-append (c ∷ cs) name lacks = ground (arith, split_words-append cs name lacks)

-- Every name is without a semicolon.
abbrev pub AllLack : List (List ℕ) → Type 0
AllLack [] = Unit {0}
AllLack (name ∷ names) = Lacks 59 name × AllLack names

abbrev words : List ℕ → List (List ℕ)
words text = (split_words text).0 ∷ (split_words text).1

words-write_names :
    (name : List ℕ) (names : List (List ℕ))
    → AllLack (name ∷ names)
    → words (write_names name names) ≡ reverse (name ∷ names)
unfolding write_names
words-write_names name [] lacks = ap (λ p. p.0 ∷ p.1) (split_words-Lacks name lacks.0)
words-write_names name (next ∷ names) lacks =
    ap (λ p. p.0 ∷ p.1) (split_words-append (write_names next names) name lacks.0)
    ∙ ap (λ w. w ++ (name ∷ [])) (words-write_names next names lacks.1)
    ∙ sym (reverse-append (name ∷ []) (next ∷ names))

-- Ten to the number of digits.
abbrev limit : ℕ → ℕ
limit zero = 10
limit (suc fuel) = 10 * limit fuel

read_count-digit :
    (acc d : ℕ) (rest : List ℕ)
    → d < 10
    → read_count acc ((48 + d) ∷ rest) ≡ read_count (acc * 10 + d) rest
unfolding read_count
read_count-digit acc d rest h =
    let digit : (48 + d == 10) ≡ false = ground arith in
    let value : acc * 10 + (48 + d - 48) ≡ acc * 10 + d = omega arith in
    rw digit (ap (λ k. read_count k rest) value)

read_count-decimal :
    (fuel n : ℕ) (rest : List ℕ)
    → n < limit fuel
    → read_count 0 (decimal fuel n rest) ≡ read_count n rest
unfolding decimal
read_count-decimal zero n rest h =
    let value : 0 * 10 + n % 10 ≡ n = omega arith in
    read_count-digit 0 (n % 10) rest (omega arith) ∙ ap (λ k. read_count k rest) value
read_count-decimal (suc fuel) n rest h =
    if_elim (λ text. read_count 0 text ≡ read_count n rest) (ltb n 10) _ _
      (λ low.
        let small = ltb→lt n 10 low in
        let value : 0 * 10 + n % 10 ≡ n = omega arith in
        read_count-digit 0 (n % 10) rest (omega arith) ∙ ap (λ k. read_count k rest) value)
      (λ high.
        let value : n / 10 * 10 + n % 10 ≡ n = omega arith in
        read_count-decimal fuel (n / 10) ((48 + n % 10) ∷ rest) (omega arith)
        ∙ read_count-digit (n / 10) (n % 10) rest (omega arith)
        ∙ ap (λ k. read_count k rest) value)

decimal-Lacks : (fuel n : ℕ) (rest : List ℕ) → Lacks 32 rest → Lacks 32 (decimal fuel n rest)
unfolding decimal
decimal-Lacks zero n rest lacks = (omega arith, lacks)
decimal-Lacks (suc fuel) n rest lacks =
    if_elim (Lacks 32) (ltb n 10) _ _ (λ low. (omega arith, lacks))
      (λ high. decimal-Lacks fuel (n / 10) _ (omega arith, lacks))

Lacks-take : (b n : ℕ) (text : List ℕ) → Lacks b text → Lacks b (take n text)
Lacks-take b zero text lacks = tt
Lacks-take b (suc n) [] lacks = tt
Lacks-take b (suc n) (c ∷ cs) lacks = (lacks.0, Lacks-take b n cs lacks.1)

-- No symbol has a semicolon.
abbrev pub AllPlain : List (Option (List ℕ)) → Type 0
AllPlain [] = Unit {0}
AllPlain (frame ∷ frames) = Lacks 59 (text_of frame) × AllPlain frames

Lacks-fold_frame : (text : List ℕ) → Lacks 59 text → Lacks 59 (fold_frame text)
unfolding fold_frame
Lacks-fold_frame text lacks = Lacks-take 59 _ text lacks

fold_frames-AllLack :
    (room : ℕ) (syms : List (Option (List ℕ))) → AllPlain syms → AllLack (fold_frames room syms)
unfolding fold_frames
fold_frames-AllLack room [] plain = tt
fold_frames-AllLack room (frame ∷ frames) plain =
    if_elim AllLack (room == 0) _ _ (λ full. tt)
      (λ free.
        if_elim AllLack (is_skipped frame) _ _ (λ skipped. fold_frames-AllLack room frames plain.1)
          (λ kept. (
            Lacks-fold_frame (text_of frame) plain.0,
            fold_frames-AllLack (room - 1) frames plain.1,
          )))

fold_frames-shown :
    (room : ℕ) (syms : List (Option (List ℕ)))
    → any_shown syms ≡ true
    → (name : List ℕ) × (names : List (List ℕ)) × (fold_frames (suc room) syms ≡ name ∷ names)
unfolding fold_frames any_shown
fold_frames-shown room [] some_shown = cc
fold_frames-shown room (frame ∷ frames) some_shown =
    let free : (suc room == 0) ≡ false = ground arith in
    elim (Bool-cases (is_skipped frame)) [
      | inl skipped ↦
          let (name, names, same) = fold_frames-shown room frames (ground arith) in
          (name, names, rw (free, skipped) same)
      | inr kept ↦
          (fold_frame (text_of frame), fold_frames (suc room - 1) frames, rw (free, kept) refl)
    ]

-- A site with blocks, with a resolved stack of which some frame is resolved and not of the tool,
-- with symbols without semicolons, and with a number of bytes that fits a word: it gets a line,
-- and that line, read at the last space and at the semicolons, is the names of the frames from
-- the outermost in, and that number of bytes.
pub read_line-fold_site :
    (count total_size : ℕ) (syms : List (Option (List ℕ)))
    → count ≢ 0
    → total_size < word
    → AllPlain syms
    → any_shown syms ≡ true
    → (line : List ℕ) × (fold_site true count total_size syms ≡ some line)
      × (read_line line ≡ some (reverse (fold_frames stack_depth syms), some total_size))
unfolding fold_site fold_line read_line
read_line-fold_site count total_size syms some_blocks fits plain some_shown =
    let (name, names, same) = fold_frames-shown 63 syms some_shown in
    let lacks = subst AllLack same (fold_frames-AllLack 64 syms plain) in
    let number = decimal 19 total_size (10 ∷ []) in
    let counted : (count == 0) ≡ false = ground arith in
    let spaces = decimal-Lacks 19 total_size (10 ∷ []) (omega arith) in
    let value = read_count-decimal 19 total_size (10 ∷ []) (omega arith) in
    (
      write_names name names ++ (32 ∷ number),
      rw counted (ap (fold_line total_size) same),
      ap read_fields (split_last-append (write_names name names) number spaces)
          ∙ ap₂ (λ w c. some (w, c)) (words-write_names name names lacks ∙ ap reverse (sym same))
              value,
    )
