-- ===== src/Request/Routes.antt =====
-- src/http_server.c: which requests come to which handler, told from their bytes alone.
use mathlib.Core.List.{append_assoc}
use memory_trace_tool.Base.{
  ℕ, ◌≡◌, ◌≢◌, ◌↔◌, refl, ap, ap₂, subst, sym, ◌∙◌, true, some, List, [], ◌∷◌, ◌++◌, if◌then◌else◌,
  ◌==◌, if_elim, Option-cases, inl, inr, arith,
}
use memory_trace_tool.Http.{starts_with}
use memory_trace_tool.Request.{
  Handler, parse_request, c_string, first_line, same_text, route, answer, respond, root_path,
  data_path, leaks_path, max_path,
}
use memory_trace_tool.Request.Lines.{get_line, parse_request_iff, respond-route, route-take}

-- "GET / ", "GET /api/data " and "GET /api/leaks "
abbrev pub root_bytes : List ℕ
root_bytes = 71 ∷ 69 ∷ 84 ∷ 32 ∷ 47 ∷ 32 ∷ []

abbrev pub data_bytes : List ℕ
data_bytes = 71 ∷ 69 ∷ 84 ∷ 32 ∷ 47 ∷ 97 ∷ 112 ∷ 105 ∷ 47 ∷ 100 ∷ 97 ∷ 116 ∷ 97 ∷ 32 ∷ []

abbrev pub leaks_bytes : List ℕ
leaks_bytes = 71 ∷ 69 ∷ 84 ∷ 32 ∷ 47 ∷ 97 ∷ 112 ∷ 105 ∷ 47 ∷ 108 ∷ 101 ∷ 97 ∷ 107 ∷ 115 ∷ 32 ∷ []

abbrev pub Begins : List ℕ → List ℕ → Type 0
Begins prefix req = (tail : List ℕ) × (req ≡ prefix ++ tail)

-- The bytes of a request that a handler is for; those of no request but at least one are for the
-- handler of what is not found.
abbrev pub Asks : Handler → List ℕ → Type 0
Asks Handler.root req = Begins root_bytes req
Asks Handler.api_data req = Begins data_bytes req
Asks Handler.api_leaks req = Begins leaks_bytes req
Asks Handler.not_found req =
    (req ≢ []) × (¬ Begins root_bytes req) × (¬ Begins data_bytes req) × (¬ Begins leaks_bytes req)

same_text_sound : (a b : List ℕ) → same_text a b ≡ true → a ≡ b
unfolding same_text
same_text_sound [] [] h = refl
same_text_sound [] (b ∷ bs) h = absurd (ground arith)
same_text_sound (a ∷ as') [] h = absurd (ground arith)
same_text_sound (a ∷ as') (b ∷ bs) h =
    let same : a ≡ b = ground arith in
    let rest : same_text as' bs ≡ true = ground arith in
    ap₂ (λ c r. c ∷ r) same (same_text_sound as' bs rest)

-- What is cut off a request behind its first line.
c_string-prefix : (text : List ℕ) → Begins (c_string text) text
unfolding c_string
c_string-prefix [] = ([], refl)
c_string-prefix (c ∷ cs) =
    let (cut, e) = c_string-prefix cs in
    if_elim (λ r. Begins r (c ∷ cs)) (c == 0) [] (c ∷ c_string cs) (λ _. (c ∷ cs, refl))
      (λ _. (cut, ap (λ r. c ∷ r) e))

first_line-prefix : (text : List ℕ) → Begins (first_line text) text
unfolding first_line
first_line-prefix [] = ([], refl)
first_line-prefix (c ∷ cs) =
    let (cut, e) = first_line-prefix cs in
    if_elim (λ r. Begins r (c ∷ cs)) (starts_with (13 ∷ 10 ∷ []) (c ∷ cs)) [] (c ∷ first_line cs)
      (λ _. (c ∷ cs, refl)) (λ _. (cut, ap (λ r. c ∷ r) e))

line-Begins : (req : List ℕ) → Begins (first_line (c_string req)) req
line-Begins req =
    let (cut, e) = c_string-prefix req in
    let (more, e') = first_line-prefix (c_string req) in
    (more ++ cut, e ∙ ap (λ r. r ++ cut) e' ∙ append_assoc (first_line (c_string req)) more cut)

-- What the handler of a path says of the path.
abbrev Serves : Handler → List ℕ → Type 0
Serves Handler.root path = path ≡ root_path
Serves Handler.api_data path = path ≡ data_path
Serves Handler.api_leaks path = path ≡ leaks_path
Serves Handler.not_found path = Unit {0}

route-Serves : (path : List ℕ) → Serves (route path) path
unfolding route
route-Serves path =
    let after_data = if same_text path leaks_path then Handler.api_leaks else Handler.not_found in
    let after_root = if same_text path data_path then Handler.api_data else after_data in
    let Q : Handler → Type 0 = λ h. Serves h path in
    if_elim Q (same_text path root_path) Handler.root after_root
      (λ h. same_text_sound path root_path h)
      λ _.
        if_elim Q (same_text path data_path) Handler.api_data after_data
          (λ h. same_text_sound path data_path h)
          λ _.
            if_elim Q (same_text path leaks_path) Handler.api_leaks Handler.not_found
              (λ h. same_text_sound path leaks_path h) (λ _. tt)

Serves-Asks :
    (h : Handler) (path tail req : List ℕ)
    → h ≢ Handler.not_found
    → Serves h path
    → Begins (get_line path tail) req
    → Asks h req
Serves-Asks Handler.root path tail req other served (rest, e) =
    (tail ++ rest, e ∙ ap (λ p. get_line p tail ++ rest) served)
Serves-Asks Handler.api_data path tail req other served (rest, e) =
    (tail ++ rest, e ∙ ap (λ p. get_line p tail ++ rest) served)
Serves-Asks Handler.api_leaks path tail req other served (rest, e) =
    (tail ++ rest, e ∙ ap (λ p. get_line p tail ++ rest) served)
Serves-Asks Handler.not_found path tail req other served b = absurd (other refl)

root-respond : (req : List ℕ) → Begins root_bytes req → respond req ≡ some Handler.root
root-respond req (tail, e) =
    ap respond e
    ∙ respond-route root_path tail (omega arith) (omega arith) (omega arith)
    ∙ unfold route same_text in refl

data-respond : (req : List ℕ) → Begins data_bytes req → respond req ≡ some Handler.api_data
data-respond req (tail, e) =
    ap respond e
    ∙ respond-route data_path tail (omega arith) (omega arith) (omega arith)
    ∙ unfold route same_text in refl

leaks-respond : (req : List ℕ) → Begins leaks_bytes req → respond req ≡ some Handler.api_leaks
leaks-respond req (tail, e) =
    ap respond e
    ∙ respond-route leaks_path tail (omega arith) (omega arith) (omega arith)
    ∙ unfold route same_text in refl

-- The handler of a request that has a path is the one whose path it is.
answer-Asks :
    (h : Handler) (req line : List ℕ)
    → h ≢ Handler.not_found
    → Begins line req
    → answer (parse_request line max_path) ≡ h
    → Asks h req
unfolding answer
answer-Asks h req line other (cut, text) answered =
    elim (Option-cases (parse_request line max_path)) [
      | inl nothing ↦ absurd (other (sym answered ∙ ap answer nothing))
      | inr (given, found) ↦
          let (path, tail, spelled, lacks, taken) =
            (parse_request_iff line given max_path (omega arith)).0 found in
          let routed : route path ≡ h =
            sym (route-take 255 path (omega arith))
            ∙ ap route (sym taken)
            ∙ sym (ap answer found)
            ∙ answered in
          let served = subst (λ h'. Serves h' path) routed (route-Serves path) in
          Serves-Asks h path tail req other served (cut, text ∙ ap (λ l. l ++ cut) spelled)
    ]

respond-Asks :
    (h : Handler) (req : List ℕ) → h ≢ Handler.not_found → respond req ≡ some h → Asks h req
unfolding respond
respond-Asks h [] other responded = absurd (cc)
respond-Asks h (c ∷ cs) other responded =
    answer-Asks h (c ∷ cs) (first_line (c_string (c ∷ cs))) other (line-Begins (c ∷ cs)) cc

-- Bytes that no path of the dashboard is asked for with
missed :
    (req : List ℕ) (h : Handler)
    → Asks Handler.not_found req
    → respond req ≡ some h
    → respond req ≡ some Handler.not_found
missed req Handler.root asks responded =
    absurd (asks.1 (respond-Asks Handler.root req (λ e. cc) responded))
missed req Handler.api_data asks responded =
    absurd (asks.2 (respond-Asks Handler.api_data req (λ e. cc) responded))
missed req Handler.api_leaks asks responded =
    absurd (asks.3 (respond-Asks Handler.api_leaks req (λ e. cc) responded))
missed req Handler.not_found asks responded = responded

missed-respond : (req : List ℕ) → Asks Handler.not_found req → respond req ≡ some Handler.not_found
missed-respond [] asks = absurd (asks.0 refl)
missed-respond (c ∷ cs) asks =
    missed (c ∷ cs) (answer (parse_request (first_line (c_string (c ∷ cs))) max_path)) asks
      (unfold respond in refl)

-- Whatever bytes recv gave: they come to the handler of the page just where they begin with GET /
-- and a space, to that of the data just where they begin with GET /api/data and a space, to that
-- of the leaks just where they begin with GET /api/leaks and a space, and to that of what is not
-- found just where there is at least one byte and they begin with none of these.
pub respond_iff : (req : List ℕ) (h : Handler) → (respond req ≡ some h) ↔ Asks h req
respond_iff req Handler.root = (respond-Asks Handler.root req (λ e. cc), root-respond req)
respond_iff req Handler.api_data = (respond-Asks Handler.api_data req (λ e. cc), data-respond req)
respond_iff req Handler.api_leaks =
    (respond-Asks Handler.api_leaks req (λ e. cc), leaks-respond req)
respond_iff req Handler.not_found = (
  λ responded. (
    λ empty. unfold respond in cc,
    λ b. cc (root-respond req b),
    λ b. cc (data-respond req b),
    λ b. cc (leaks-respond req b),
  ),
  missed-respond req,
)
