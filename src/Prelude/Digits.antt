-- ===== src/Prelude/Digits.antt =====
-- The native bit operations, one binary digit at a time. They count down from their first argument;
-- a larger count gives the same digits.
use Prim.Native.Nat.{
  ℕ, zero, suc, ◌+◌, ◌-◌, ◌*◌, ◌/◌, ◌%◌, ◌≤◌, min, max, bit_and, bit_or, bit_xor, digits,
  bit_and-bitwise, bit_or-bitwise, bit_xor-bitwise,
}
pub use Prim.Native.Nat.{differ}
use mathlib.Core.Path.{◌≡◌, refl, ap, ◌∙◌}
use native.Mathlib.Omega.{arith}

module _ (past : ℕ → ℕ) (on_digits : ℕ → ℕ → ℕ) where
  one_more :
      (count a b : ℕ)
      → a ≤ count
      → digits past on_digits (suc count) a b ≡ digits past on_digits count a b
  one_more zero zero b le = refl
  one_more (suc count) zero b le = refl
  one_more zero (suc a) b le = absurd (omega arith)
  one_more (suc count) (suc a) b le =
      ap (λ (rest : ℕ). rest * 2 + on_digits (suc a % 2) (b % 2))
        (one_more count (suc a / 2) (b / 2) (omega arith))

  many_more : (extra a b : ℕ) → digits past on_digits (extra + a) a b ≡ digits past on_digits a a b
  many_more zero a b = ap (λ (count : ℕ). digits past on_digits count a b) (omega arith)
  many_more (suc extra) a b =
      let next : suc extra + a ≡ suc (extra + a) = omega arith in
      ap (λ (count : ℕ). digits past on_digits count a b) next
      ∙ one_more (extra + a) a b (omega arith)
      ∙ many_more extra a b

  -- The count that a number's own half would start with is enough for the rest.
  halved :
      (a b : ℕ)
      → digits past on_digits a (suc a / 2) b ≡ digits past on_digits (suc a / 2) (suc a / 2) b
  halved a b =
      let split : a ≡ a - suc a / 2 + suc a / 2 = omega arith in
      ap (λ (count : ℕ). digits past on_digits count (suc a / 2) b) split
      ∙ many_more (a - suc a / 2) (suc a / 2) b

differ_zero : (d : ℕ) → differ 0 d ≡ d
differ_zero d = refl

pub xor_digit : (a b : ℕ) → bit_xor a b ≡ bit_xor (a / 2) (b / 2) * 2 + differ (a % 2) (b % 2)
xor_digit (suc a) b = omega (
  arith,
  bit_xor-bitwise (suc a) b,
  bit_xor-bitwise (suc a / 2) (b / 2),
  halved (λ y. y) differ a (b / 2),
)
xor_digit zero b =
    omega (arith, bit_xor-bitwise 0 b, bit_xor-bitwise 0 (b / 2), differ_zero (b % 2))

pub or_digit : (a b : ℕ) → bit_or a b ≡ bit_or (a / 2) (b / 2) * 2 + max (a % 2) (b % 2)
or_digit (suc a) b = omega (
  arith,
  bit_or-bitwise (suc a) b,
  bit_or-bitwise (suc a / 2) (b / 2),
  halved (λ y. y) max a (b / 2),
)
or_digit zero b = omega (arith, bit_or-bitwise 0 b, bit_or-bitwise 0 (b / 2))

pub and_digit : (a b : ℕ) → bit_and a b ≡ bit_and (a / 2) (b / 2) * 2 + min (a % 2) (b % 2)
and_digit (suc a) b = omega (
  arith,
  bit_and-bitwise (suc a) b,
  bit_and-bitwise (suc a / 2) (b / 2),
  halved (λ y. 0) min a (b / 2),
)
and_digit zero b = omega (arith, bit_and-bitwise 0 b, bit_and-bitwise 0 (b / 2))

and_at_most : (bound a b : ℕ) → a ≤ bound → bit_and a b ≤ b
and_at_most zero zero b le = omega (arith, bit_and-bitwise 0 b)
and_at_most zero (suc a) b le = absurd (omega arith)
and_at_most (suc bound) a b le =
    omega (arith, and_digit a b, and_at_most bound (a / 2) (b / 2) (omega arith))

pub bit_and-zero : (a : ℕ) → bit_and a 0 ≡ 0
bit_and-zero a = omega (arith, and_at_most a a 0 (omega arith))
