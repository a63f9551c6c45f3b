-- ===== src/Request.antt =====
-- src/http_server.c: how a request is read and routed. Sockets and what the handlers answer are
-- outside the model; a request is the bytes that `recv` gave.
pub mod Lines
pub mod Routes
use memory_trace_tool.Base.{
  ℕ, zero, suc, ◌+◌, ◌-◌, ◌/◌, ◌%◌, Bool, true, false, ◌||◌, ◌&&◌, Option, none, some, List, [],
  ◌∷◌, ◌++◌, map, if◌then◌else◌, ◌==◌, ltb, leb, length, take, drop,
}
use memory_trace_tool.Http.{starts_with}

-- `strchr(s, ' ')`: what stands before the first space, if there is one
pub before_space : List ℕ → Option (List ℕ)
before_space [] = none
before_space (c ∷ cs) = elim (c == 32) [
  | true ↦ some []
  | false ↦ elim (before_space cs) [ none ↦ none | some word ↦ some (c ∷ word) ]
]

-- "GET "
abbrev pub get_text : List ℕ
get_text = 71 ∷ 69 ∷ 84 ∷ 32 ∷ []

-- `parse_request`: the path, cut to the room for it
pub parse_request : List ℕ → ℕ → Option (List ℕ)
unfolding starts_with before_space
parse_request req maxlen =
    if maxlen == 0
    then none
    else if starts_with get_text req
    then elim (before_space (drop 4 req)) [
      | none ↦ none
      | some path ↦ some (take (if leb maxlen (length path) then maxlen - 1 else length path) path)
    ]
    else none

-- the bytes up to the first NUL
unfoldable pub c_string : List ℕ → List ℕ
c_string [] = []
c_string (c ∷ cs) = if c == 0 then [] else c ∷ c_string cs

-- the string up to the first "\r\n"
pub first_line : List ℕ → List ℕ
unfolding starts_with
first_line [] = []
first_line (c ∷ cs) = if starts_with (13 ∷ 10 ∷ []) (c ∷ cs) then [] else c ∷ first_line cs

-- The handler that a request comes to.
pub data Handler : Type 0 where
  root : Handler
  api_data : Handler
  api_leaks : Handler
  not_found : Handler

-- `strcmp(a, b) == 0`
pub same_text : List ℕ → List ℕ → Bool
same_text [] [] = true
same_text [] (b ∷ bs) = false
same_text (a ∷ as') [] = false
same_text (a ∷ as') (b ∷ bs) = if a == b then same_text as' bs else false

-- "/", "/api/data" and "/api/leaks"
abbrev pub root_path : List ℕ
root_path = 47 ∷ []

abbrev pub data_path : List ℕ
data_path = 47 ∷ 97 ∷ 112 ∷ 105 ∷ 47 ∷ 100 ∷ 97 ∷ 116 ∷ 97 ∷ []

abbrev pub leaks_path : List ℕ
leaks_path = 47 ∷ 97 ∷ 112 ∷ 105 ∷ 47 ∷ 108 ∷ 101 ∷ 97 ∷ 107 ∷ 115 ∷ []

pub route : List ℕ → Handler
unfolding same_text
route path =
    if same_text path root_path
    then root
    else if same_text path data_path
    then api_data
    else if same_text path leaks_path
    then api_leaks
    else not_found

-- MTT_HTTP_MAX_PATH
abbrev pub max_path : ℕ
max_path = 256

-- The handler for what `parse_request` gave.
pub answer : Option (List ℕ) → Handler
unfolding route
answer none = not_found
answer (some path) = route path

-- What the loop does with the bytes that `recv` gave: nothing if there are none.
unfoldable pub respond : List ℕ → Option Handler
unfolding parse_request first_line c_string answer
respond [] = none
respond (c ∷ cs) = some (answer (parse_request (first_line (c_string (c ∷ cs))) max_path))
