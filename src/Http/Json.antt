-- ===== src/Http/Json.antt =====
-- src/http_server.c: the strings that `write_json_string` writes are JSON strings, by a reader that
-- follows the JSON grammar (RFC 8259, section 7).
use memory_trace_tool.Base.{
  ℕ, zero, suc, ◌+◌, ◌-◌, ◌*◌, ◌/◌, ◌%◌, ◌<◌, ◌≡◌, refl, ap, ◌∙◌, true, false, ◌&&◌, ◌||◌, Option,
  none, some, List, [], ◌∷◌, ◌++◌, if◌then◌else◌, ◌==◌, ltb, leb, ℤ, Bool-cases, ltb→lt, inl, inr,
  arith,
}
use mathlib.Core.List.{append_assoc}
use memory_trace_tool.Http.{hex_digit, hex4, escape, escape_all, quoted, write_json_string}

-- Where the reader stands: in the string, after a backslash, or in the digits of `\uXXXX` with so
-- many to come after the next one.
pub data Mode : Type 0 where
  plain : Mode
  escaped : Mode
  hex : ℕ → ℕ → Mode

pub hex_value : ℕ → Option ℕ
hex_value c =
    if leb 48 c && leb c 57
    then some (c - 48)
    else if leb 97 c && leb c 102
    then some (c - 87)
    else if leb 65 c && leb c 70
    then some (c - 55)
    else none

-- The byte of an escape with one letter.
pub unescape : ℕ → Option ℕ
unescape c =
    if c == 34 || c == 92 || c == 47
    then some c
    else if c == 98
    then some 8
    else if c == 102
    then some 12
    else if c == 110
    then some 10
    else if c == 114
    then some 13
    else if c == 116
    then some 9
    else none

abbrev pub push : ℕ → Option (List ℕ × List ℕ) → Option (List ℕ × List ℕ)
push c none = none
push c (some (cs, rest)) = some (c ∷ cs, rest)

-- The bytes of the string, and what stands after its closing quote. An unescaped control character
-- is refused; of the `\uXXXX`, those beyond ASCII, which stand for several bytes, are not read.
pub read_body : Mode → List ℕ → Option (List ℕ × List ℕ)
unfolding hex_value unescape
read_body mode [] = none
read_body plain (c ∷ r) = elim (c == 34) [
  | true ↦ some ([], r)
  | false ↦ elim (c == 92) [
    | true ↦ read_body escaped r
    | false ↦ elim (ltb c 0x20) [ true ↦ none | false ↦ push c (read_body plain r) ]
  ]
]
read_body escaped (c ∷ r) = elim (c == 117) [
  | true ↦ read_body (hex 3 0) r
  | false ↦ elim (unescape c) [ none ↦ none | some d ↦ push d (read_body plain r) ]
]
read_body (hex zero value) (c ∷ r) = elim (hex_value c) [
  | none ↦ none
  | some d ↦ elim (ltb (value * 16 + d) 128) [
    | true ↦ push (value * 16 + d) (read_body plain r)
    | false ↦ none
  ]
]
read_body (hex (suc left) value) (c ∷ r) = elim (hex_value c) [
  | none ↦ none
  | some d ↦ read_body (hex left (value * 16 + d)) r
]

pub read_string : List ℕ → Option (List ℕ × List ℕ)
unfolding read_body
read_string [] = none
read_string (c ∷ r) = if c == 34 then read_body plain r else none

hex_value-hex_digit : (d : ℕ) → d < 16 → hex_value (hex_digit d) ≡ some d
unfolding hex_value hex_digit
hex_value-hex_digit d h = ground arith

-- One digit of four, and the last of them.
read_body-hex :
    (d left value : ℕ) (r : List ℕ)
    → d < 16
    → read_body (hex (suc left) value) (hex_digit d ∷ r) ≡ read_body (hex left (value * 16 + d)) r
unfolding read_body
read_body-hex d left value r h = ground (arith, hex_value-hex_digit d)

read_body-hex_last :
    (d value : ℕ) (r : List ℕ)
    → d < 16
    → value * 16 + d < 128
    → read_body (hex 0 value) (hex_digit d ∷ r) ≡ push (value * 16 + d) (read_body plain r)
unfolding read_body
read_body-hex_last d value r h small = ground (arith, hex_value-hex_digit d)

read_body-u : (r : List ℕ) → read_body plain (92 ∷ 117 ∷ r) ≡ read_body (hex 3 0) r
unfolding read_body
read_body-u r = refl

-- A control character is read from its four digits.
read_body-control :
    (c : ℕ) (r : List ℕ)
    → c < 0x20
    → read_body plain (92 ∷ 117 ∷ hex4 c ++ r) ≡ push c (read_body plain r)
unfolding hex4
read_body-control c r h =
    let a = c / 4096 % 16 in
    let b = c / 256 % 16 in
    let d = c / 16 % 16 in
    let e = c % 16 in
    let v = (0 * 16 + a) * 16 + b in
    let value : (v * 16 + d) * 16 + e ≡ c = omega arith in
    let digits = hex_digit a ∷ hex_digit b ∷ hex_digit d ∷ hex_digit e ∷ r in
    read_body-u digits
    ∙ read_body-hex a 2 0 _ (omega arith)
    ∙ read_body-hex b 1 (0 * 16 + a) _ (omega arith)
    ∙ read_body-hex d 0 v _ (omega arith)
    ∙ read_body-hex_last e (v * 16 + d) r (omega arith) (omega arith)
    ∙ ap (λ k. push k (read_body plain r)) value

read_body-special :
    (c : ℕ) (r : List ℕ)
    → (c == 34 || c == 92) ≡ true
    → read_body plain (92 ∷ c ∷ r) ≡ push c (read_body plain r)
unfolding read_body unescape
read_body-special c r h = ground arith

read_body-plain :
    (c : ℕ) (r : List ℕ)
    → (c == 34 || c == 92) ≡ false
    → ltb c 0x20 ≡ false
    → read_body plain (c ∷ r) ≡ push c (read_body plain r)
unfolding read_body
read_body-plain c r special control = ground arith

-- What is escaped is read as the byte that it was.
read_body-escape :
    (c : ℕ) (r : List ℕ) → read_body plain (escape c ++ r) ≡ push c (read_body plain r)
unfolding escape
read_body-escape c r = elim (Bool-cases (c == 34 || c == 92)) [
  | inl special ↦ rw special (read_body-special c r special)
  | inr other ↦ elim (Bool-cases (ltb c 0x20)) [
    | inl control ↦ rw (other, control) (read_body-control c r (ltb→lt _ _ control))
    | inr high ↦ rw (other, high) (read_body-plain c r other high)
  ]
]

read_body-escape_all :
    (cs rest : List ℕ) → read_body plain (escape_all cs ++ (34 ∷ rest)) ≡ some (cs, rest)
unfolding escape_all read_body
read_body-escape_all [] rest = refl
read_body-escape_all (c ∷ cs) rest =
    ap (read_body plain) (append_assoc (escape c) (escape_all cs) (34 ∷ rest))
    ∙ read_body-escape c (escape_all cs ++ (34 ∷ rest))
    ∙ ap (push c) (read_body-escape_all cs rest)

pub read_string-quoted : (str rest : List ℕ) → read_string (quoted str ++ rest) ≡ some (str, rest)
unfolding read_string quoted
read_string-quoted str rest =
    ap (read_body plain) (append_assoc (escape_all str) (34 ∷ []) rest)
    ∙ read_body-escape_all str rest

-- Whatever bytes a string has, what write_json_string writes of it to a good descriptor reads as
-- a JSON string of just those bytes, whatever follows it.
pub read_string-write_json_string :
    (fd : ℕ) (str rest : List ℕ)
    → read_string (write_json_string (ℤ.pos fd) (some str) ++ rest) ≡ some (str, rest)
unfolding write_json_string
read_string-write_json_string fd str rest = read_string-quoted str rest
