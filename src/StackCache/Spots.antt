-- ===== src/StackCache/Spots.antt =====
-- src/stack_cache.c: how `resolve_one_frame` reads the text that backtrace_symbols gives.
use memory_trace_tool.Base.{
  ℕ, zero, suc, ◌+◌, ◌-◌, Bool, ◌&&◌, ◌||◌, Option, none, some, List, [], ◌∷◌, if◌then◌else◌, ◌==◌,
  ltb, take, drop,
}
use memory_trace_tool.Http.{starts_with}
use memory_trace_tool.Maps.{scan_number}

-- the place of a byte from the place `i` on
pub index_of : ℕ → ℕ → List ℕ → Option ℕ
index_of byte i [] = none
index_of byte i (c ∷ cs) =
    let later = index_of byte (i + 1) cs in if c == byte then some i else later

-- "binary(function+offset) [address]": the places of the parenthesis, and of the plus sign and the
-- closing parenthesis behind it
pub record Places : Type 0 where
  pub paren : Option ℕ
  pub plus : Option ℕ
  pub rparen : Option ℕ

unfoldable pub places_of : List ℕ → Places
unfolding index_of
places_of text = elim (index_of 40 0 text) [
  | none ↦ record { paren = none; plus = none; rparen = none }
  | some p ↦ record {
    paren = some p;
    plus = index_of 43 p (drop p text);
    rparen = index_of 41 p (drop p text);
  }
]

-- the text from one place up to another
abbrev pub between : ℕ → ℕ → List ℕ → List ℕ
between start end text = take (end - start) (drop start text)

-- without blanks and tabs at the end
pub trim_end : List ℕ → List ℕ
trim_end [] = []
trim_end (c ∷ cs) = elim (trim_end cs) [
  | [] ↦ if c == 32 || c == 9 then [] else c ∷ []
  | d ∷ ds ↦ c ∷ d ∷ ds
]

-- where the binary's name starts; `bracketed` is for the branch that skips "[address] "
pub binary_start : Bool → List ℕ → ℕ
unfolding starts_with index_of
binary_start bracketed text =
    let start = if starts_with (46 ∷ 47 ∷ []) text then 2 else 0 in
    if bracketed && starts_with (91 ∷ []) (drop start text)
    then elim (index_of 32 start (drop start text)) [ none ↦ start | some space ↦ space + 1 ]
    else start

-- the name of the binary, where the text has one
unfoldable pub binary_name : Bool → List ℕ → Option ℕ → Option (List ℕ)
unfolding trim_end binary_start
binary_name bracketed text none = none
binary_name bracketed text (some zero) = none
binary_name bracketed text (some (suc p)) =
    elim (trim_end (between (binary_start bracketed text) (suc p) text)) [
      | [] ↦ none
      | c ∷ cs ↦ some (take 255 (c ∷ cs))
    ]

-- `strtoul(text, NULL, 16)`
pub hex_value : List ℕ → ℕ
unfolding scan_number
hex_value text = elim (scan_number 16 text) [ none ↦ 0 | some (n, _) ↦ n ]

-- what stands for a function in the text: a name with an offset, a name alone, or neither
pub data Spot : Type 0 where
  named_at : List ℕ → ℕ → Spot
  named : List ℕ → Spot
  neither : Spot

abbrev spot_alone : List ℕ → ℕ → Option ℕ → Spot
spot_alone text p none = Spot.neither
spot_alone text p (some r) =
    if ltb (p + 1) r then Spot.named (between (p + 1) r text) else Spot.neither

unfoldable pub spot_at : List ℕ → Option ℕ → Option ℕ → Option ℕ → Spot
unfolding hex_value
spot_at text none plus rparen = Spot.neither
spot_at text (some p) none rparen = spot_alone text p rparen
spot_at text (some p) (some q) none = Spot.neither
spot_at text (some p) (some q) (some r) =
    if ltb q r
    then Spot.named_at (between (p + 1) q text) (hex_value (drop (q + 1) text))
    else spot_alone text p (some r)

abbrev pub spot_of : List ℕ → Places → Spot
spot_of text places = spot_at text places.paren places.plus places.rparen
