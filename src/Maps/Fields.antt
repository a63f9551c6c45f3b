-- ===== src/Maps/Fields.antt =====
-- src/addr_validate.c: what the scanner reads of the fields of a line.
use memory_trace_tool.Base.{
  ℕ, zero, suc, ◌+◌, ◌-◌, ◌*◌, ◌≤◌, ◌<◌, ◌≡◌, ◌≢◌, ◌⊎◌, refl, ap, subst, ◌∙◌, false, none, some,
  List, [], ◌∷◌, ◌++◌, ◌==◌, length, word, min, arith,
}
use memory_trace_tool.Maps.{
  is_blank, skip_blanks, digit_value, scan_digits, scan_unsigned, skip_prefix, scan_signed,
  scan_number, scan_byte, scan_word, scan_perm, some_word,
}

-- The digits, after the number `acc`, spell the number `n`.
pub data Spelling (base : ℕ) : ℕ → List ℕ → ℕ → Type 0 where
  done : {acc : ℕ} → Spelling base acc [] acc
  digit :
      {acc d c n : ℕ} {cs : List ℕ}
      → digit_value base c ≡ some d
      → Spelling base (acc * base + d) cs n
      → Spelling base acc (c ∷ cs) n

-- A number as the kernel writes it: one digit or more, below 2^64.
pub record IsNumeral (base : ℕ) (digits : List ℕ) (n : ℕ) : Type 0 where
  pub spelling : Spelling base 0 digits n
  pub some_digit : digits ≢ []
  pub fits : n < word

-- what the kernel writes behind a number: a minus sign, a colon or a blank
abbrev pub IsStop : ℕ → Type 0
IsStop c = (c ≡ 45) ⊎ (c ≡ 58) ⊎ (c ≡ 32)

abbrev pub IsDigit : ℕ → Type 0
IsDigit c = ((48 ≤ c) × (c ≤ 57)) ⊎ ((97 ≤ c) × (c ≤ 102)) ⊎ ((65 ≤ c) × (c ≤ 70))

pub digit_value-IsDigit : (base c d : ℕ) → base ≤ 16 → digit_value base c ≡ some d → IsDigit c
unfolding digit_value
digit_value-IsDigit base c d small e = ground arith

digit_value-stop : (base c : ℕ) → IsStop c → digit_value base c ≡ none
unfolding digit_value
digit_value-stop base c stop = ground arith

scan_digits-Spelling :
    {base acc n : ℕ} {digits : List ℕ} (c : ℕ) (rest : List ℕ)
    → IsStop c
    → Spelling base acc digits n
    → scan_digits base acc (digits ++ (c ∷ rest)) ≡ (n, c ∷ rest)
unfolding scan_digits
scan_digits-Spelling {base = base} c rest stop done =
    rw (scan_digits, digit_value-stop base c stop) refl
scan_digits-Spelling c rest stop (digit e s) =
    rw (scan_digits, e) (scan_digits-Spelling c rest stop s)

-- Behind a digit there is no "x".
skip_prefix-digit :
    {base acc n : ℕ} {digits : List ℕ} (d c : ℕ) (rest : List ℕ)
    → base ≤ 16
    → IsStop c
    → Spelling base acc digits n
    → skip_prefix base (d ∷ (digits ++ (c ∷ rest))) ≡ d ∷ (digits ++ (c ∷ rest))
unfolding skip_prefix
skip_prefix-digit d c rest small stop done = ground arith
skip_prefix-digit {base = base} d c rest small stop (digit {d = v} {c = b} e s) =
    let b_digit = digit_value-IsDigit base b v small e in ground (arith, b_digit)

pub skip_blanks-other :
    (c : ℕ) (rest : List ℕ) → is_blank c ≡ false → skip_blanks (c ∷ rest) ≡ c ∷ rest
unfolding skip_blanks
skip_blanks-other c rest other = rw other refl

pub skip_blanks-space : (rest : List ℕ) → skip_blanks (32 ∷ rest) ≡ skip_blanks rest
unfolding skip_blanks
skip_blanks-space rest = refl

-- A number is read up to the byte behind it.
pub scan_number-IsNumeral :
    {base n : ℕ} {digits : List ℕ} (c : ℕ) (rest : List ℕ)
    → base ≤ 16
    → IsStop c
    → IsNumeral base digits n
    → scan_number base (digits ++ (c ∷ rest)) ≡ some (n, c ∷ rest)
unfolding scan_number scan_signed scan_unsigned
scan_number-IsNumeral {base = base} {digits = []} c rest small stop numeral =
    absurd (numeral.some_digit refl)
scan_number-IsNumeral {base = base} {n = n} {digits = a ∷ ds} c rest small stop numeral =
    elim numeral.spelling [
      | digit {d = v} e s ↦
          let a_digit = digit_value-IsDigit base a v small e in
          let other : is_blank a ≡ false = ground (arith, a_digit) in
          let no_minus : (a == 45) ≡ false = ground (arith, a_digit) in
          let no_plus : (a == 43) ≡ false = ground (arith, a_digit) in
          let first : 0 * base + v ≡ v = omega arith in
          let s_from : Spelling base v ds n = subst (λ acc. Spelling base acc ds n) first s in
          let least : min n (word - 1) ≡ n = omega (arith, numeral.fits) in
          rw
            (
              skip_blanks-other a (ds ++ (c ∷ rest)) other,
              no_minus,
              no_plus,
              skip_prefix-digit a c rest small stop s,
              scan_unsigned,
              e,
              scan_digits-Spelling c rest stop s_from,
              least,
            )
            refl
    ]

-- A blank before a number is skipped.
pub scan_number-space :
    (base : ℕ) (rest : List ℕ) → scan_number base (32 ∷ rest) ≡ scan_number base rest
unfolding scan_number
scan_number-space base rest = ap (scan_signed base) (skip_blanks-space rest)

pub scan_byte_self : (b : ℕ) (rest : List ℕ) → scan_byte b (b ∷ rest) ≡ some rest
unfolding scan_byte
scan_byte_self b rest = ground arith

-- No byte is a blank.
abbrev pub NoBlank : List ℕ → Type 0
NoBlank [] = Unit {0}
NoBlank (c ∷ cs) = (is_blank c ≡ false) × NoBlank cs

pub scan_word-NoBlank :
    (room : ℕ) (text rest : List ℕ)
    → NoBlank text
    → length text ≤ room
    → scan_word room (text ++ (32 ∷ rest)) ≡ (text, 32 ∷ rest)
unfolding scan_word
scan_word-NoBlank zero [] rest clean fits = refl
scan_word-NoBlank (suc room) [] rest clean fits = refl
scan_word-NoBlank zero (c ∷ cs) rest clean fits = absurd (omega arith)
scan_word-NoBlank (suc room) (c ∷ cs) rest clean fits =
    rw (clean.0, scan_word-NoBlank room cs rest clean.1 (omega arith)) refl

-- The permissions are read up to the blank behind them.
pub scan_perm-NoBlank :
    (c : ℕ) (cs rest : List ℕ)
    → NoBlank (c ∷ cs)
    → length cs ≤ 6
    → scan_perm (32 ∷ ((c ∷ cs) ++ (32 ∷ rest))) ≡ some (c ∷ cs, 32 ∷ rest)
unfolding scan_perm
scan_perm-NoBlank c cs rest clean fits =
    let text = (c ∷ cs) ++ (32 ∷ rest) in
    let read =
      ap (scan_word 7) (skip_blanks-space text ∙ skip_blanks-other c (cs ++ (32 ∷ rest)) clean.0) in
    ap some_word (read ∙ scan_word-NoBlank 7 (c ∷ cs) rest clean (omega arith))
