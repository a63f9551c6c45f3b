-- ===== src/Http.antt =====
-- src/http_server.c: JSON strings, and the frames of a leak. What is written to a file is the list
-- of its bytes, and a C string is its bytes without the NUL at its end.
pub mod Json
pub mod Frames
pub mod Search
use memory_trace_tool.Base.{
  ℕ, zero, suc, ◌+◌, ◌-◌, ◌/◌, ◌%◌, Bool, true, false, ◌||◌, Option, none, some, List, [], ◌∷◌,
  ◌++◌, ◌&&◌, map, if◌then◌else◌, ◌==◌, ltb, leb, length, take, drop, ℤ,
}

-- A digit of `%x`.
unfoldable pub hex_digit : ℕ → ℕ
hex_digit d = if ltb d 10 then 48 + d else 87 + d

-- `%04x`, for a number of at most four digits
pub hex4 : ℕ → List ℕ
hex4 c =
    hex_digit (c / 4096 % 16)
    ∷ hex_digit (c / 256 % 16)
    ∷ hex_digit (c / 16 % 16)
    ∷ hex_digit (c % 16)
    ∷ []

-- One byte: a quote and a backslash get a backslash before them, a control character is written
-- `\u00XX`.
pub escape : ℕ → List ℕ
unfolding hex4
escape c =
    if c == 34 || c == 92 then 92 ∷ c ∷ [] else if ltb c 0x20 then 92 ∷ 117 ∷ hex4 c else c ∷ []

pub escape_all : List ℕ → List ℕ
unfolding escape
escape_all [] = []
escape_all (c ∷ cs) = escape c ++ escape_all cs

-- the string in quotes
unfoldable pub quoted : List ℕ → List ℕ
unfolding escape_all
quoted str = 34 ∷ escape_all str ++ (34 ∷ [])

-- `write_json_string`: nothing for a bad descriptor or NULL
pub write_json_string : ℤ → Option (List ℕ) → List ℕ
unfolding quoted
write_json_string (ℤ.negsuc n) str = []
write_json_string (ℤ.pos fd) none = []
write_json_string (ℤ.pos fd) (some str) = quoted str

-- a prefix, as `strncmp(s, p, strlen(p)) == 0`
unfoldable pub starts_with : List ℕ → List ℕ → Bool
starts_with [] s = true
starts_with (p ∷ ps) [] = false
starts_with (p ∷ ps) (c ∷ cs) = if p == c then starts_with ps cs else false

-- `strstr(s, p) != NULL`
unfoldable pub contains : List ℕ → List ℕ → Bool
unfolding starts_with
contains p [] = starts_with p []
contains p (c ∷ cs) = if starts_with p (c ∷ cs) then true else contains p cs

-- "libmemorytracetool", "mtt_", "capture_stack" and "backtrace"
abbrev pub lib_text : List ℕ
lib_text =
    108 ∷ 105 ∷ 98 ∷ 109 ∷ 101 ∷ 109 ∷ 111 ∷ 114 ∷ 121 ∷ 116 ∷ 114 ∷ 97 ∷ 99 ∷ 101 ∷ 116 ∷ 111 ∷ 111
    ∷ 108 ∷ []

abbrev pub mtt_text : List ℕ
mtt_text = 109 ∷ 116 ∷ 116 ∷ 95 ∷ []

abbrev pub capture_text : List ℕ
capture_text = 99 ∷ 97 ∷ 112 ∷ 116 ∷ 117 ∷ 114 ∷ 101 ∷ 95 ∷ 115 ∷ 116 ∷ 97 ∷ 99 ∷ 107 ∷ []

abbrev pub backtrace_text : List ℕ
backtrace_text = 98 ∷ 97 ∷ 99 ∷ 107 ∷ 116 ∷ 114 ∷ 97 ∷ 99 ∷ 101 ∷ []

-- The frames that the loop passes over: unresolved ones, and those of the tool.
unfoldable pub is_skipped : Option (List ℕ) → Bool
is_skipped none = true
is_skipped (some []) = true
is_skipped (some (c ∷ cs)) =
    contains lib_text (c ∷ cs)
    || starts_with mtt_text (c ∷ cs)
    || contains capture_text (c ∷ cs)
    || contains backtrace_text (c ∷ cs)

abbrev pub text_of : Option (List ℕ) → List ℕ
text_of none = []
text_of (some s) = s

-- the loop over the resolved frames; `wrote` is `wrote_frame`
pub write_frames : Bool → List (Option (List ℕ)) → List ℕ
unfolding is_skipped quoted
write_frames wrote [] = []
write_frames wrote (frame ∷ frames) =
    let passed = write_frames wrote frames in
    let comma : List ℕ = if wrote then 44 ∷ [] else [] in
    let written = comma ++ (quoted (text_of frame) ++ write_frames true frames) in
    if is_skipped frame then passed else written

-- A frame of a stack: its address, and its symbol where it has been resolved.
pub record Frame : Type 0 where
  pub addr : ℕ
  pub resolved : Option (List ℕ)

-- what `wrote_frame` is after such a loop
unfoldable pub any_shown : List (Option (List ℕ)) → Bool
unfolding is_skipped
any_shown [] = false
any_shown (frame ∷ frames) = if is_skipped frame then any_shown frames else true

-- `%lx`, in front of `rest`; `fuel` is one less than the digits there is room for
unfoldable pub hex_text : ℕ → ℕ → List ℕ → List ℕ
unfolding hex_digit
hex_text zero n rest = hex_digit (n % 16) ∷ rest
hex_text (suc fuel) n rest =
    let more = hex_text fuel (n / 16) (hex_digit (n % 16) ∷ rest) in
    if ltb n 16 then hex_digit (n % 16) ∷ rest else more

-- "[INT] "
abbrev pub int_text : List ℕ
int_text = 91 ∷ 73 ∷ 78 ∷ 84 ∷ 93 ∷ 32 ∷ []

-- the symbol, or "0x%lx" of the address where there is none
pub raw_symbol : ℕ → Option (List ℕ) → List ℕ
unfolding escape_all
raw_symbol addr none = 48 ∷ 120 ∷ hex_text 15 addr []
raw_symbol addr (some []) = 48 ∷ 120 ∷ hex_text 15 addr []
raw_symbol addr (some (c ∷ cs)) = escape_all (c ∷ cs)

-- the loop of the last resort, over every frame
pub write_raw : Bool → List Frame → List ℕ
unfolding raw_symbol
write_raw wrote [] = []
write_raw wrote (frame ∷ frames) =
    (if wrote then 44 ∷ [] else [])
    ++ (34 ∷ int_text ++ (raw_symbol frame.addr frame.resolved ++ (34 ∷ write_raw true frames)))

abbrev pub symbols : List Frame → List (Option (List ℕ))
symbols frames = map (λ frame. frame.resolved) frames

-- The frames of `write_leak_json`, for a stack that is resolved or not after the attempt to: each
-- loop runs where those before it wrote nothing, and the later two pass over the first frame.
unfoldable pub leak_frames : Bool → List Frame → List ℕ
unfolding write_frames any_shown write_raw
leak_frames is_resolved frames =
    let inner = drop 1 frames in
    if is_resolved && any_shown (symbols frames)
    then write_frames false (symbols frames)
    else if any_shown (symbols inner)
    then write_frames false (symbols inner)
    else write_raw false inner
