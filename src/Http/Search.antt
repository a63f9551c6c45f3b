-- ===== src/Http/Search.antt =====
-- src/http_server.c: the tests of a symbol that hide a frame.
use memory_trace_tool.Base.{
  ℕ, ◌≡◌, ◌↔◌, ◌⊎◌, refl, ap, ap₂, ◌∙◌, Bool, true, false, ◌||◌, some, List, [], ◌∷◌, ◌++◌, length,
  drop, Bool-cases, inl, inr, arith,
}
use memory_trace_tool.Http.{
  starts_with, contains, is_skipped, lib_text, mtt_text, capture_text, backtrace_text,
}

pub starts_with-append : (p rest : List ℕ) → starts_with p (p ++ rest) ≡ true
unfolding starts_with
starts_with-append [] rest = refl
starts_with-append (c ∷ cs) rest = ground (arith, starts_with-append cs rest)

pub starts_with_sound :
    (p text : List ℕ) → starts_with p text ≡ true → text ≡ p ++ drop (length p) text
unfolding starts_with
starts_with_sound [] text h = refl
starts_with_sound (c ∷ cs) [] h = cc
starts_with_sound (c ∷ cs) (d ∷ ds) h =
    let same : d ≡ c = ground arith in
    let later : starts_with cs ds ≡ true = ground arith in
    ap₂ (λ b r. b ∷ r) same (starts_with_sound cs ds later)

-- The text begins with `p`, or has it somewhere.
abbrev pub Begins : List ℕ → List ℕ → Type 0
Begins p text = (rest : List ℕ) × (text ≡ p ++ rest)

abbrev pub Occurs : List ℕ → List ℕ → Type 0
Occurs p text = (before : List ℕ) × (after : List ℕ) × (text ≡ before ++ (p ++ after))

contains_sound : (p text : List ℕ) → contains p text ≡ true → Occurs p text
unfolding contains
contains_sound p [] h = ([], drop (length p) [], starts_with_sound p [] h)
contains_sound p (c ∷ cs) h = elim (Bool-cases (starts_with p (c ∷ cs))) [
  | inl here ↦ ([], drop (length p) (c ∷ cs), starts_with_sound p (c ∷ cs) here)
  | inr later ↦
      let found : contains p cs ≡ true = ground arith in
      let (before, after, same) = contains_sound p cs found in
      (c ∷ before, after, ap (λ r. c ∷ r) same)
]

contains-here : (p text : List ℕ) → starts_with p text ≡ true → contains p text ≡ true
unfolding contains
contains-here p [] h = h
contains-here p (c ∷ cs) h = rw h refl

contains-append : (before p after : List ℕ) → contains p (before ++ (p ++ after)) ≡ true
contains-append [] p after = contains-here p (p ++ after) (starts_with-append p after)
contains-append (c ∷ cs) p after =
    contains-later c (cs ++ (p ++ after)) (contains-append cs p after)
  where
    contains-later : (c : ℕ) (text : List ℕ) → contains p text ≡ true → contains p (c ∷ text) ≡ true
    contains-later c text h = unfold contains in ground (arith, h)

-- What a symbol of the tool looks like.
abbrev pub IsOfTool : List ℕ → Type 0
IsOfTool name =
    (name ≡ [])
    ⊎ (Occurs lib_text name
        ⊎ (Begins mtt_text name ⊎ (Occurs capture_text name ⊎ Occurs backtrace_text name)))

one_of_four :
    (a b c d : Bool)
    → (a || b || c || d) ≡ true
    → (a ≡ true) ⊎ ((b ≡ true) ⊎ ((c ≡ true) ⊎ (d ≡ true)))
one_of_four true b c d h = inl refl
one_of_four false true c d h = inr (inl refl)
one_of_four false false true d h = inr (inr (inl refl))
one_of_four false false false true h = inr (inr (inr refl))
one_of_four false false false false h = cc

is_skipped_sound : (name : List ℕ) → is_skipped (some name) ≡ true → IsOfTool name
unfolding is_skipped
is_skipped_sound [] h = inl refl
is_skipped_sound (c ∷ cs) h =
    elim (one_of_four (contains lib_text (c ∷ cs)) (starts_with mtt_text (c ∷ cs))
      (contains capture_text (c ∷ cs)) (contains backtrace_text (c ∷ cs)) h) [
        | inl lib ↦ inr (inl (contains_sound lib_text (c ∷ cs) lib))
        | inr (inl mtt) ↦ inr (inr (inl (drop 4 (c ∷ cs), starts_with_sound mtt_text (c ∷ cs) mtt)))
        | inr (inr (inl capture)) ↦
            inr (inr (inr (inl (contains_sound capture_text (c ∷ cs) capture))))
        | inr (inr (inr trace)) ↦
            inr (inr (inr (inr (contains_sound backtrace_text (c ∷ cs) trace))))
      ]

contains-Occurs : (p name : List ℕ) → Occurs p name → contains p name ≡ true
contains-Occurs p name (before, after, same) = ap (contains p) same ∙ contains-append before p after

is_skipped-IsOfTool : (name : List ℕ) → IsOfTool name → is_skipped (some name) ≡ true
unfolding is_skipped
is_skipped-IsOfTool [] tool = refl
is_skipped-IsOfTool (c ∷ cs) (inl none_left) = absurd (cc)
is_skipped-IsOfTool (c ∷ cs) (inr (inl lib)) =
    let found = contains-Occurs lib_text (c ∷ cs) lib in ground arith
is_skipped-IsOfTool (c ∷ cs) (inr (inr (inl (rest, same)))) =
    let found = ap (starts_with mtt_text) same ∙ starts_with-append mtt_text rest in ground arith
is_skipped-IsOfTool (c ∷ cs) (inr (inr (inr (inl capture)))) =
    let found = contains-Occurs capture_text (c ∷ cs) capture in ground arith
is_skipped-IsOfTool (c ∷ cs) (inr (inr (inr (inr trace)))) =
    let found = contains-Occurs backtrace_text (c ∷ cs) trace in ground arith

-- A resolved frame is passed over just where its symbol is empty, or begins with mtt_, or has
-- libmemorytracetool, capture_stack or backtrace somewhere in it.
pub is_skipped_iff : (name : List ℕ) → (is_skipped (some name) ≡ true) ↔ IsOfTool name
is_skipped_iff name = (is_skipped_sound name, is_skipped-IsOfTool name)
