-- ===== src/Http/Frames.antt =====
-- src/http_server.c: the frames that `write_leak_json` writes are the elements of a JSON array.
use memory_trace_tool.Base.{
  ℕ, zero, suc, ◌/◌, ◌%◌, ◌<◌, ◌≡◌, refl, ap, ap₂, sym, ◌∙◌, none, drop, ◌++◌, arith, ltb, Bool,
  true, false, Option, some, List, [], ◌∷◌, if◌then◌else◌, Bool-cases, if_elim, inl, inr,
}
use mathlib.Core.List.{append_assoc}
use memory_trace_tool.Http.{
  is_skipped, text_of, write_frames, hex_digit, escape, escape_all, hex_text, int_text, raw_symbol,
  write_raw, symbols, any_shown, leak_frames, Frame, quoted,
}
use memory_trace_tool.Http.Json.{read_string, read_string-quoted}

-- The text between the brackets of a JSON array of strings, with the strings. After the first
-- string come the others, each with a comma before it.
pub data Others : List (List ℕ) → List ℕ → Type 0 where
  done : Others [] []
  another :
      {str : List ℕ} {strs : List (List ℕ)} {text rest : List ℕ}
      → read_string text ≡ some (str, rest)
      → Others strs rest
      → Others (str ∷ strs) (44 ∷ text)

pub data Elements : List (List ℕ) → List ℕ → Type 0 where
  empty : Elements [] []
  first :
      {str : List ℕ} {strs : List (List ℕ)} {text rest : List ℕ}
      → read_string text ≡ some (str, rest)
      → Others strs rest
      → Elements (str ∷ strs) text

-- The names of the frames that are shown, in their order.
pub shown : List (Option (List ℕ)) → List (List ℕ)
unfolding is_skipped
shown [] = []
shown (frame ∷ frames) = if is_skipped frame then shown frames else text_of frame ∷ shown frames

write_frames-Others :
    (frames : List (Option (List ℕ))) → Others (shown frames) (write_frames true frames)
unfolding shown write_frames
write_frames-Others [] = done
write_frames-Others (frame ∷ frames) = elim (Bool-cases (is_skipped frame)) [
  | inl skipped ↦ rw skipped (write_frames-Others frames)
  | inr kept ↦ rw kept (
      another (read_string-quoted (text_of frame) (write_frames true frames))
        (write_frames-Others frames))
]

-- What the loop over the resolved frames writes is the text of a JSON array's elements: one string
-- for each frame that is resolved and not of the tool, its own bytes, in the order of the frames.
pub write_frames-Elements :
    (frames : List (Option (List ℕ))) → Elements (shown frames) (write_frames false frames)
unfolding shown write_frames
write_frames-Elements [] = empty
write_frames-Elements (frame ∷ frames) = elim (Bool-cases (is_skipped frame)) [
  | inl skipped ↦ rw skipped (write_frames-Elements frames)
  | inr kept ↦ rw kept (
      first (read_string-quoted (text_of frame) (write_frames true frames))
        (write_frames-Others frames))
]

-- A digit is written as it is.
escape-hex_digit : (d : ℕ) → d < 16 → escape (hex_digit d) ≡ hex_digit d ∷ []
unfolding escape hex_digit
escape-hex_digit d h = ground arith

escape_all-digit :
    (d : ℕ) (rest : List ℕ)
    → d < 16
    → escape_all rest ≡ rest
    → escape_all (hex_digit d ∷ rest) ≡ hex_digit d ∷ rest
unfolding escape_all
escape_all-digit d rest h plain = ap₂ (λ xs ys. xs ++ ys) (escape-hex_digit d h) plain

escape_all-hex_text :
    (fuel n : ℕ) (rest : List ℕ)
    → escape_all rest ≡ rest
    → escape_all (hex_text fuel n rest) ≡ hex_text fuel n rest
unfolding hex_text
escape_all-hex_text zero n rest plain = escape_all-digit (n % 16) rest (omega arith) plain
escape_all-hex_text (suc fuel) n rest plain =
    let here = escape_all-digit (n % 16) rest (omega arith) plain in
    if_elim (λ text. escape_all text ≡ text) (ltb n 16) _ _ (λ low. here)
      (λ high. escape_all-hex_text fuel (n / 16) (hex_digit (n % 16) ∷ rest) here)

-- The name that a frame has in the loop of the last resort.
pub raw_name : ℕ → Option (List ℕ) → List ℕ
raw_name addr none = int_text ++ (48 ∷ 120 ∷ hex_text 15 addr [])
raw_name addr (some []) = int_text ++ (48 ∷ 120 ∷ hex_text 15 addr [])
raw_name addr (some (c ∷ cs)) = int_text ++ (c ∷ cs)

raw_symbol-escape_all :
    (addr : ℕ) (resolved : Option (List ℕ))
    → int_text ++ raw_symbol addr resolved ≡ escape_all (raw_name addr resolved)
unfolding raw_symbol raw_name escape_all escape
raw_symbol-escape_all addr none =
    ap (λ text. int_text ++ (48 ∷ 120 ∷ text)) (sym (escape_all-hex_text 15 addr [] refl))
raw_symbol-escape_all addr (some []) =
    ap (λ text. int_text ++ (48 ∷ 120 ∷ text)) (sym (escape_all-hex_text 15 addr [] refl))
raw_symbol-escape_all addr (some (c ∷ cs)) = refl

read_string-raw :
    (addr : ℕ) (resolved : Option (List ℕ)) (rest : List ℕ)
    → read_string (34 ∷ int_text ++ (raw_symbol addr resolved ++ (34 ∷ rest)))
      ≡ some (raw_name addr resolved, rest)
unfolding quoted
read_string-raw addr resolved rest =
    let name = raw_name addr resolved in
    ap (λ text. read_string (34 ∷ text ++ (34 ∷ rest))) (raw_symbol-escape_all addr resolved)
    ∙ ap (λ text. read_string (34 ∷ text)) (sym (append_assoc (escape_all name) (34 ∷ []) rest))
    ∙ read_string-quoted name rest

-- The names of the frames in the loop of the last resort.
pub raw_names : List Frame → List (List ℕ)
unfolding raw_name
raw_names [] = []
raw_names (frame ∷ frames) = raw_name frame.addr frame.resolved ∷ raw_names frames

write_raw-Others : (frames : List Frame) → Others (raw_names frames) (write_raw true frames)
unfolding raw_names write_raw
write_raw-Others [] = done
write_raw-Others (frame ∷ frames) =
    another (read_string-raw frame.addr frame.resolved (write_raw true frames))
      (write_raw-Others frames)

write_raw-Elements : (frames : List Frame) → Elements (raw_names frames) (write_raw false frames)
unfolding raw_names write_raw
write_raw-Elements [] = empty
write_raw-Elements (frame ∷ frames) =
    first (read_string-raw frame.addr frame.resolved (write_raw true frames))
      (write_raw-Others frames)

-- Or the longer list, if the shorter has none.
abbrev pub or_else : List (List ℕ) → List (List ℕ) → List (List ℕ)
or_else [] others = others
or_else (name ∷ names) others = name ∷ names

-- The names in the answer: of the frames that are shown, or else, after the first frame, of all.
pub frame_names : Bool → List Frame → List (List ℕ)
unfolding shown raw_names
frame_names is_resolved frames =
    let inner = drop 1 frames in
    or_else (if is_resolved then shown (symbols frames) else [])
      (or_else (shown (symbols inner)) (raw_names inner))

any_shown-cases :
    (syms : List (Option (List ℕ))) (others : List (List ℕ))
    → or_else (shown syms) others ≡ (if any_shown syms then shown syms else others)
unfolding shown any_shown
any_shown-cases [] others = refl
any_shown-cases (frame ∷ frames) others = ground (arith, any_shown-cases frames others)

-- One loop, and what stands for it where it writes nothing.
loop-Elements :
    (syms : List (Option (List ℕ))) (others : List (List ℕ)) (text : List ℕ)
    → Elements others text
    → Elements
        (or_else (shown syms) others)
        (if any_shown syms then write_frames false syms else text)
loop-Elements syms others text rest = elim (Bool-cases (any_shown syms)) [
  | inl some_shown ↦ rw (any_shown-cases syms others, some_shown) (write_frames-Elements syms)
  | inr none_shown ↦ rw (any_shown-cases syms others, none_shown) rest
]

-- What the three loops of write_leak_json write of a stack is the text of a JSON array's
-- elements. They are the symbols of the frames that are resolved and not of the tool, in the
-- order of the frames, if the stack is resolved; where there is none, those after the first
-- frame; and where there is none again, every frame after the first, marked as internal, by its
-- symbol or its address.
pub leak_frames-Elements :
    (is_resolved : Bool) (frames : List Frame)
    → Elements (frame_names is_resolved frames) (leak_frames is_resolved frames)
unfolding frame_names leak_frames
leak_frames-Elements true frames =
    let inner = drop 1 frames in
    loop-Elements (symbols frames) _ _
      (loop-Elements (symbols inner) _ _ (write_raw-Elements inner))
leak_frames-Elements false frames =
    let inner = drop 1 frames in loop-Elements (symbols inner) _ _ (write_raw-Elements inner)
