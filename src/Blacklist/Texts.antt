-- ===== src/Blacklist/Texts.antt =====
-- src/tracker.c: the blacklist of libraries by name, `mtt_is_blacklisted`, and how
-- `mtt_ensure_init` sets it; src/reporter.c: `is_internal_frame`. A string is given by its bytes
-- up to the final NUL.
use memory_trace_tool.Base.{
  ℕ, Bool, true, false, ◌||◌, Option, none, some, List, [], ◌∷◌, map, if◌then◌else◌, ◌==◌, take,
}
use memory_trace_tool.Http.{starts_with, contains, lib_text, mtt_text, capture_text, backtrace_text}
use memory_trace_tool.Maps.{skip_spaces}

-- the text up to the first comma, and the others
pub split_commas : List ℕ → List ℕ × List (List ℕ)
split_commas [] = ([], [])
split_commas (c ∷ cs) =
    let (first, others) = split_commas cs in
    if c == 44 then ([], first ∷ others) else (c ∷ first, others)

abbrev pub drop_empty : List (List ℕ) → List (List ℕ)
drop_empty [] = []
drop_empty ([] ∷ texts) = drop_empty texts
drop_empty ((c ∷ cs) ∷ texts) = (c ∷ cs) ∷ drop_empty texts

-- the tokens that `strtok` finds between commas, without blanks before them; what is empty then,
-- as what `strtok` skips, does not count
unfoldable pub tokens_of : List ℕ → List (List ℕ)
unfolding split_commas
tokens_of text =
    let (first, others) = split_commas text in drop_empty (map skip_spaces (first ∷ others))

-- one of the tokens occurs in the text
unfoldable pub has_token : List (List ℕ) → List ℕ → Bool
unfolding contains
has_token [] text = false
has_token (token ∷ tokens) text = contains token text || has_token tokens text

-- `lib_blacklist` and `lib_blacklist_ready`, from the value of MTT_LIB_BLACKLIST
abbrev pub read_lib_blacklist : Option (List ℕ) → Option (List ℕ)
read_lib_blacklist none = none
read_lib_blacklist (some []) = none
read_lib_blacklist (some (c ∷ cs)) = some (take 511 (c ∷ cs))

-- `mtt_is_blacklisted`; the list is nothing while it is not ready
unfoldable pub is_blacklisted : Option (List ℕ) → Option (List ℕ) → Bool
unfolding tokens_of has_token
is_blacklisted list none = false
is_blacklisted none (some symbol) = false
is_blacklisted (some list) (some symbol) = has_token (tokens_of (take 511 list)) symbol

-- "__libc_start"
abbrev pub libc_start_text : List ℕ
libc_start_text = 95 ∷ 95 ∷ 108 ∷ 105 ∷ 98 ∷ 99 ∷ 95 ∷ 115 ∷ 116 ∷ 97 ∷ 114 ∷ 116 ∷ []

-- `is_internal_frame`
unfoldable pub is_internal_frame : Option (List ℕ) → Option (List ℕ) → Bool
unfolding starts_with contains is_blacklisted
is_internal_frame list none = true
is_internal_frame list (some []) = true
is_internal_frame list (some (c ∷ cs)) =
    let symbol = c ∷ cs in
    if contains lib_text symbol
    then true
    else if starts_with mtt_text symbol
    then true
    else if contains capture_text symbol
    then true
    else if contains backtrace_text symbol
    then true
    else if contains libc_start_text symbol
    then false
    else is_blacklisted list (some symbol)
