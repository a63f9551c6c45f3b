-- ===== src/Tests/Pages.antt =====
-- Tests and examples of the JSON text, of the requests and of the lines of the flame graph.
use memory_trace_tool.Base.{
  ℕ, Option, ◌≡◌, ◌↔◌, refl, true, none, some, List, [], ◌∷◌, ◌++◌, ℤ, take, arith,
}
use mathlib.Core.List.{reverse}
use memory_trace_tool.Flame.{fold_site, fold_frames, stack_depth}
use memory_trace_tool.Flame.Lines.{read_line, read_line-fold_site}
use memory_trace_tool.Http.{
  contains, is_skipped, any_shown, Frame, hex_digit, quoted, write_json_string, leak_frames,
}
use memory_trace_tool.Http.Search.{IsOfTool, is_skipped_iff}
use memory_trace_tool.Http.Json.{read_string, read_string-write_json_string}
use memory_trace_tool.Http.Frames.{Elements, frame_names, leak_frames-Elements}
use memory_trace_tool.Request.{Handler, parse_request, respond, data_path}
use memory_trace_tool.Request.Lines.{Lacks, get_line, parse_request_iff}
use memory_trace_tool.Request.Routes.{Asks, data_bytes, leaks_bytes, respond_iff}

-- a quote, a line feed and a letter
abbrev odd_name : List ℕ
odd_name = 34 ∷ 10 ∷ 97 ∷ []

quoted-odd_name : quoted odd_name ≡ 34 ∷ 92 ∷ 34 ∷ 92 ∷ 117 ∷ 48 ∷ 48 ∷ 48 ∷ 97 ∷ 97 ∷ 34 ∷ []
unfolding quoted hex_digit
quoted-odd_name = refl

read_string-write_json_string_example :
    read_string (write_json_string (ℤ.pos 5) (some odd_name) ++ (44 ∷ []))
    ≡ some (odd_name, 44 ∷ [])
read_string-write_json_string_example = read_string-write_json_string 5 odd_name (44 ∷ [])

-- the capture itself, a function of the program, and a frame without a symbol
abbrev three_frames : List Frame
three_frames =
    record { addr = 0x1000; resolved = some (109 ∷ 116 ∷ 116 ∷ 95 ∷ 120 ∷ []) }
    ∷ record { addr = 0x2000; resolved = some (102 ∷ []) }
    ∷ record { addr = 0x3abc; resolved = none }
    ∷ []

three_frames-shown : leak_frames true three_frames ≡ 34 ∷ 102 ∷ 34 ∷ []
unfolding leak_frames contains
three_frames-shown = refl

leak_frames-Elements_example :
    Elements (frame_names true three_frames) (leak_frames true three_frames)
leak_frames-Elements_example = leak_frames-Elements true three_frames

-- "HTTP"
abbrev version : List ℕ
version = 72 ∷ 84 ∷ 84 ∷ 80 ∷ []

data_request : respond (get_line data_path version) ≡ some Handler.api_data
unfolding respond
data_request = refl

parse_request_iff_example :
    (parse_request (get_line data_path version) 5 ≡ some (take 4 data_path)) ↔ (
      (path : List ℕ) × (tail : List ℕ) × (get_line data_path version ≡ get_line path tail)
      × Lacks 32 path
      × (take 4 data_path ≡ take 4 path))
parse_request_iff_example =
    parse_request_iff (get_line data_path version) (take 4 data_path) 5 (omega arith)

respond_iff_example :
    (respond (data_bytes ++ version) ≡ some Handler.api_data)
    ↔ Asks Handler.api_data (data_bytes ++ version)
respond_iff_example = respond_iff (data_bytes ++ version) Handler.api_data

leaks_request : respond (leaks_bytes ++ version) ≡ some Handler.api_leaks
leaks_request = (respond_iff (leaks_bytes ++ version) Handler.api_leaks).1 (version, refl)

-- "f (x)" and "g", with a frame of the tool before them
abbrev two_symbols : List (Option (List ℕ))
two_symbols =
    some (109 ∷ 116 ∷ 116 ∷ 95 ∷ []) ∷ some (102 ∷ 32 ∷ 40 ∷ 120 ∷ 41 ∷ []) ∷ some (103 ∷ []) ∷ []

-- "g;f 120"
two_symbols-folded :
    fold_site true 2 120 two_symbols ≡ some (103 ∷ 59 ∷ 102 ∷ 32 ∷ 49 ∷ 50 ∷ 48 ∷ 10 ∷ [])
unfolding fold_site contains
two_symbols-folded = refl

two_symbols-shown : any_shown two_symbols ≡ true
unfolding any_shown contains
two_symbols-shown = refl

read_line-fold_site_example :
    (line : List ℕ) × (fold_site true 2 120 two_symbols ≡ some line)
    × (read_line line ≡ some (reverse (fold_frames stack_depth two_symbols), some 120))
read_line-fold_site_example =
    read_line-fold_site 2 120 two_symbols (omega arith) (omega arith) (omega arith)
      two_symbols-shown

is_skipped_iff_example : (is_skipped (some (109 ∷ [])) ≡ true) ↔ IsOfTool (109 ∷ [])
is_skipped_iff_example = is_skipped_iff (109 ∷ [])
