-- ===== src/Flame.antt =====
-- src/flamegraph.c: `mtt_flamegraph_write`, the line that it writes for a site.
pub mod Lines
use memory_trace_tool.Base.{
  ℕ, zero, suc, ◌+◌, ◌-◌, ◌/◌, ◌%◌, Bool, true, false, not, ◌||◌, Option, none, some, List, [], ◌∷◌,
  ◌++◌, if◌then◌else◌, ◌==◌, ltb, leb, length, get_or, take,
}
use memory_trace_tool.Http.{is_skipped, text_of}

-- `strchr(sym, '(') - sym`, if there is one
pub paren_at : List ℕ → Option ℕ
paren_at [] = none
paren_at (c ∷ cs) = elim (c == 40) [
  | true ↦ some 0
  | false ↦ elim (paren_at cs) [ none ↦ none | some i ↦ some (suc i) ]
]

-- `while (len > 0 && sym[len - 1] == ' ') len--`
pub trimmed : List ℕ → ℕ → ℕ
trimmed sym zero = zero
trimmed sym (suc len) =
    let shorter = trimmed sym len in if get_or sym len 0 == 32 then shorter else suc len

-- The length of what is kept: up to the library in parentheses.
pub name_length : List ℕ → ℕ
unfolding paren_at trimmed
name_length sym = elim (paren_at sym) [
  | none ↦ length sym
  | some i ↦ if ltb 0 i then trimmed sym i else length sym
]

-- MTT_SYMBOL_MAX and MTT_STACK_DEPTH
abbrev pub symbol_max : ℕ
symbol_max = 256

abbrev pub stack_depth : ℕ
stack_depth = 64

pub fold_frame : List ℕ → List ℕ
unfolding name_length
fold_frame sym =
    let len = name_length sym in take (if leb symbol_max len then symbol_max - 1 else len) sym

-- the loop over the frames, with room for so many
pub fold_frames : ℕ → List (Option (List ℕ)) → List (List ℕ)
unfolding is_skipped fold_frame
fold_frames room [] = []
fold_frames room (frame ∷ frames) =
    let passed = fold_frames room frames in
    let kept = fold_frame (text_of frame) ∷ fold_frames (room - 1) frames in
    if room == 0 then [] else if is_skipped frame then passed else kept

-- the names from the last to the first, with semicolons between them
pub write_names : List ℕ → List (List ℕ) → List ℕ
write_names name [] = name
write_names name (next ∷ names) = write_names next names ++ (59 ∷ name)

-- `%zu`, in front of `rest`; `fuel` is one less than the digits there is room for
pub decimal : ℕ → ℕ → List ℕ → List ℕ
decimal zero n rest = (48 + n % 10) ∷ rest
decimal (suc fuel) n rest =
    let more = decimal fuel (n / 10) ((48 + n % 10) ∷ rest) in
    if ltb n 10 then (48 + n % 10) ∷ rest else more

-- The line of names, if there are any, with a number. A 64-bit number has at most 20 digits.
pub fold_line : ℕ → List (List ℕ) → Option (List ℕ)
unfolding write_names decimal
fold_line total_size [] = none
fold_line total_size (name ∷ names) =
    some (write_names name names ++ (32 ∷ decimal 19 total_size (10 ∷ [])))

-- The line of a site with `count` blocks and `total_size` bytes, if it gets one.
unfoldable pub fold_site : Bool → ℕ → ℕ → List (Option (List ℕ)) → Option (List ℕ)
unfolding fold_frames fold_line
fold_site is_resolved count total_size syms =
    if count == 0 || not is_resolved
    then none
    else fold_line total_size (fold_frames stack_depth syms)
