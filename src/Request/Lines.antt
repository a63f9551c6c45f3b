-- ===== src/Request/Lines.antt =====
-- src/http_server.c: which requests have a path, and that the room for the path decides nothing.
use memory_trace_tool.Base.{
  ℕ, zero, suc, ◌-◌, ◌≤◌, ◌<◌, ◌≡◌, ◌≢◌, ◌↔◌, refl, ap, ap₂, sym, ◌∙◌, true, false, some, List, [],
  ◌∷◌, ◌++◌, if◌then◌else◌, ◌==◌, leb, length, take, drop, Bool-cases, Option-cases, inl, inr,
  arith,
}
use memory_trace_tool.Http.{starts_with}
use memory_trace_tool.Http.Search.{starts_with-append, starts_with_sound}
use memory_trace_tool.Request.{
  get_text, before_space, parse_request, c_string, first_line, same_text, route, answer, respond,
  root_path, data_path, leaks_path, max_path,
}

-- A text without the byte `b`.
abbrev pub Lacks : ℕ → List ℕ → Type 0
Lacks b [] = Unit {0}
Lacks b (c ∷ cs) = (c ≢ b) × Lacks b cs

-- The request line of a path.
abbrev pub get_line : List ℕ → List ℕ → List ℕ
get_line path tail = get_text ++ (path ++ (32 ∷ tail))

before_space-line :
    (path tail : List ℕ) → Lacks 32 path → before_space (path ++ (32 ∷ tail)) ≡ some path
unfolding before_space
before_space-line [] tail lacks = refl
before_space-line (c ∷ cs) tail lacks = ground (arith, before_space-line cs tail lacks.1)

before_space_sound :
    (text path : List ℕ)
    → before_space text ≡ some path
    → (tail : List ℕ) × (text ≡ path ++ (32 ∷ tail)) × Lacks 32 path
unfolding before_space
before_space_sound [] path found = cc
before_space_sound (c ∷ cs) [] found =
    let space : c ≡ 32 = ground arith in (cs, ap (λ b. b ∷ cs) space, tt)
before_space_sound (c ∷ cs) (p ∷ ps) found =
    let later : before_space cs ≡ some ps = ground arith in
    let same : c ≡ p = ground arith in
    let other : p ≢ 32 = ground arith in
    let (tail, text, lacks) = before_space_sound cs ps later in
    (tail, ap₂ (λ b r. b ∷ r) same text, (other, lacks))

pub take-all : (n : ℕ) (xs : List ℕ) → length xs ≤ n → take n xs ≡ xs
take-all zero [] h = refl
take-all (suc n) [] h = refl
take-all zero (x ∷ xs) h = absurd (omega arith)
take-all (suc n) (x ∷ xs) h = ap (λ r. x ∷ r) (take-all n xs (omega arith))

-- The room cuts the path to what a `take` of one byte less leaves.
take-cut :
    (n : ℕ) (path : List ℕ)
    → 0 < n
    → take (if leb n (length path) then n - 1 else length path) path ≡ take (n - 1) path
take-cut n path positive = elim (Bool-cases (leb n (length path))) [
  | inl long ↦ rw long refl
  | inr short ↦
      let fits : length path < n = ground arith in
      rw short
        (take-all (length path) path (omega arith) ∙ sym (take-all (n - 1) path (omega arith)))
]

same_text-take :
    (text path : List ℕ) (n : ℕ)
    → length text < n
    → same_text (take n path) text ≡ same_text path text
unfolding same_text
same_text-take text path zero h = absurd (omega arith)
same_text-take [] [] (suc n) h = refl
same_text-take (t ∷ ts) [] (suc n) h = refl
same_text-take [] (c ∷ cs) (suc n) h = refl
same_text-take (t ∷ ts) (c ∷ cs) (suc n) h = ground (arith, same_text-take ts cs n (omega arith))

pub route-take : (n : ℕ) (path : List ℕ) → 10 < n → route (take n path) ≡ route path
unfolding route
route-take n path h = rw (
  same_text-take root_path path n (omega arith),
  same_text-take data_path path n (omega arith),
  same_text-take leaks_path path n (omega arith),
)

pub c_string-append :
    (text tail : List ℕ) → Lacks 0 text → c_string (text ++ tail) ≡ text ++ c_string tail
unfolding c_string
c_string-append [] tail lacks = refl
c_string-append (c ∷ cs) tail lacks = ground (arith, c_string-append cs tail lacks.1)

first_line-append :
    (text tail : List ℕ) → Lacks 13 text → first_line (text ++ tail) ≡ text ++ first_line tail
unfolding first_line starts_with
first_line-append [] tail lacks = refl
first_line-append (c ∷ cs) tail lacks = ground (arith, first_line-append cs tail lacks.1)

parse_request-line :
    (path tail : List ℕ) (maxlen : ℕ)
    → Lacks 32 path
    → 0 < maxlen
    → parse_request (get_line path tail) maxlen ≡ some (take (maxlen - 1) path)
unfolding parse_request
parse_request-line path tail maxlen lacks room =
    let positive : (maxlen == 0) ≡ false = ground arith in
    rw
      (
        positive,
        starts_with-append get_text (path ++ (32 ∷ tail)),
        before_space-line path tail lacks,
      )
      (ap some (take-cut maxlen path room))

parse_request_sound :
    (req given : List ℕ) (maxlen : ℕ)
    → 0 < maxlen
    → parse_request req maxlen ≡ some given
    → (path : List ℕ) × (starts_with get_text req ≡ true)
      × (before_space (drop 4 req) ≡ some path)
      × (given ≡ take (maxlen - 1) path)
unfolding parse_request
parse_request_sound req given maxlen room found =
    let positive : (maxlen == 0) ≡ false = ground arith in
    elim (Bool-cases (starts_with get_text req)) [
      | inr other ↦ absurd (ground arith)
      | inl get ↦ elim (Option-cases (before_space (drop 4 req))) [
        | inl endless ↦ absurd (ground arith)
        | inr (path, word) ↦ (path, get, word, (ground arith) ∙ take-cut maxlen path room)
      ]
    ]

-- With room for at least one byte, parse_request gives a path just where the request is GET and a
-- space, then a word without a space, a space and any rest, and the path is then the word, cut to
-- one byte less than the room.
pub parse_request_iff :
    (req given : List ℕ) (maxlen : ℕ)
    → 0 < maxlen
    → (parse_request req maxlen ≡ some given) ↔ (
        (path : List ℕ) × (tail : List ℕ) × (req ≡ get_line path tail)
        × Lacks 32 path
        × (given ≡ take (maxlen - 1) path))
parse_request_iff req given maxlen room = (
  λ found.
      let (path, get, word, cut) = parse_request_sound req given maxlen room found in
      let (tail, text, lacks) = before_space_sound (drop 4 req) path word in
      let line = starts_with_sound get_text req get ∙ ap (λ r. get_text ++ r) text in
      (path, tail, line, lacks, cut),
  λ (path, tail, line, lacks, cut).
      ap (λ r. parse_request r maxlen) line
      ∙ parse_request-line path tail maxlen lacks room
      ∙ ap some (sym cut),
)

-- The line that is read of a request for a path.
first_line-c_string :
    (path tail : List ℕ)
    → Lacks 0 path
    → Lacks 13 path
    → first_line (c_string (get_line path tail)) ≡ get_line path (first_line (c_string tail))
first_line-c_string path tail nuls returns =
    ap first_line (
      c_string-append (get_text ++ path) (32 ∷ tail)
        (omega arith, (omega arith, (omega arith, (omega arith, nuls)))))
    ∙ first_line-append (get_text ++ path) (c_string (32 ∷ tail))
        (omega arith, (omega arith, (omega arith, (omega arith, returns))))
    ∙ ap (λ r. get_text ++ (path ++ r)) rest
  where
    rest : first_line (c_string (32 ∷ tail)) ≡ 32 ∷ first_line (c_string tail)
    rest = unfold c_string first_line starts_with in refl

-- A GET request for a path without a space, a NUL or a carriage return comes to the handler of
-- that path, however long the path is and whatever follows it.
pub respond-route :
    (path tail : List ℕ)
    → Lacks 32 path
    → Lacks 0 path
    → Lacks 13 path
    → respond (get_line path tail) ≡ some (route path)
unfolding respond answer
respond-route path tail spaces nuls returns =
    let line = first_line-c_string path tail nuls returns in
    let parsed =
      parse_request-line path (first_line (c_string tail)) max_path spaces (omega arith) in
    ap (λ r. some (answer (parse_request r max_path))) line
    ∙ ap (λ o. some (answer o)) parsed
    ∙ ap some (route-take 255 path (omega arith))
