-- ===== src/Base/Words.antt =====
-- `size_t` and `uint64_t` arithmetic, and bounds on the bit operations.
use Prim.Native.Nat.{
  ℕ, zero, suc, ◌+◌, ◌-◌, ◌*◌, ◌/◌, ◌%◌, ◌^◌, ◌≤◌, ◌<◌, min, bit_and, digits, bit_and-bitwise,
}
use mathlib.Core.Path.{◌≡◌, refl, ap, sym, ◌∙◌}
use native.Mathlib.Omega.{arith}

abbrev pub word : ℕ
word = 2 ^ 64

-- `a + b`, `a - b` and `a * b` on 64-bit unsigned words.
abbrev pub add64 : ℕ → ℕ → ℕ
add64 a b = (a + b) % word

abbrev pub sub64 : ℕ → ℕ → ℕ
sub64 a b = (a + word - b) % word

abbrev pub mul64 : ℕ → ℕ → ℕ
mul64 a b = (a * b) % word

-- The digits that the native operation stands for, the lowest `fuel` of them.
abbrev meet : ℕ → ℕ → ℕ → ℕ
meet fuel a b = digits (λ left. zero) min fuel a b

-- One digit more than there is adds nothing, and so do any number of them.
meet_spare : (fuel a b : ℕ) → a ≤ fuel → meet (suc fuel) a b ≡ meet fuel a b
meet_spare zero zero b enough = refl
meet_spare (suc left) zero b enough = refl
meet_spare zero (suc a) b enough = absurd (omega arith)
meet_spare (suc left) (suc a) b enough =
    let below : suc a / 2 ≤ left = omega arith in
    omega (arith, meet_spare left (suc a / 2) (b / 2) below)

meet_spares : (spare fuel a b : ℕ) → a ≤ fuel → meet (fuel + spare) a b ≡ meet fuel a b
meet_spares zero fuel a b enough =
    let same : fuel + zero ≡ fuel = omega arith in ap (λ k. meet k a b) same
meet_spares (suc spare) fuel a b enough =
    let same : fuel + suc spare ≡ suc (fuel + spare) = omega arith in
    ap (λ k. meet k a b) same
    ∙ meet_spare (fuel + spare) a b (omega arith)
    ∙ meet_spares spare fuel a b enough

pub zero-bit_and : (b : ℕ) → bit_and 0 b ≡ 0
zero-bit_and b = bit_and-bitwise zero b

-- The lowest digit apart, with the rest.
pub bit_and_step : (a b : ℕ) → bit_and a b ≡ min (a % 2) (b % 2) + bit_and (a / 2) (b / 2) * 2
bit_and_step zero b = let halved = zero-bit_and (b / 2) in omega (arith, halved, zero-bit_and b)
bit_and_step (suc a) b =
    let half = suc a / 2 in
    let split : half + (a - half) ≡ a = omega arith in
    let rest =
      ap (λ k. meet k half (b / 2)) (sym split)
      ∙ meet_spares (a - half) half half (b / 2) (omega arith) in
    omega (arith, rest, bit_and-bitwise half (b / 2), bit_and-bitwise (suc a) b)

-- A mask bounds what it leaves.
pub bit_and-le : (a b : ℕ) → bit_and a b ≤ b
bit_and-le a b = below (suc a) a b (omega arith)
  where
    below : (bound a b : ℕ) → a < bound → bit_and a b ≤ b
    below bound zero b lt = omega (arith, zero-bit_and b)
    below zero (suc a) b lt = absurd (omega arith)
    below (suc bound) (suc a) b lt =
        let halves = below bound (suc a / 2) (b / 2) (omega arith) in
        omega (arith, halves, bit_and_step (suc a) b)
