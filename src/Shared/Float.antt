-- ===== src/Shared/Float.antt =====
-- Go's float64 as an interface: the operations that the program uses, and the behaviour of IEEE 754
-- arithmetic that it relies on, for finite numbers: NaN and the infinities are left out.
use Prim.Native.Nat.{ℕ, ◌-◌, ◌+◌, ◌*◌, ◌/◌, ◌≤◌, ◌^◌}
use mathlib.Core.Path.{◌≡◌, ap}
use mathlib.Core.Bool.{Bool, true, false}
use native.Mathlib.Omega.{arith}
use mathlib.Core.Logic.{inl, inr}
use linux_application_develo.Shared.Tests.{Bool-cases, leb, leb→le, le→leb}
use linux_application_develo.Shared.Int.{ℤ, pos, negsuc, pos_part, ◌≤ℤ◌}

pub record Float64 : Type 1 where
  pub F : Type 0
  -- float64(i)
  pub of_int : ℤ → F
  -- A decimal constant, n / d.
  pub decimal : ℕ → ℕ → F
  pub add : F → F → F
  pub mul : F → F → F
  pub div : F → F → F
  -- x <= y
  pub le : F → F → Bool
  -- int(x): x without its fraction if that fits an int; else it depends on the machine.
  pub trunc : F → ℤ

-- The integer part of x fits an int: -2^63 <= x and x < 2^63.
abbrev pub Fits : (f : Float64) → f.F → Type 0
Fits f x =
    (f.le (f.of_int (negsuc (2 ^ 63 - 1))) x ≡ true) × (f.le (f.of_int (pos (2 ^ 63))) x ≡ false)

-- Comparison is a total preorder; conversion, addition, division by a positive number, multiplication
-- by a number that is not negative keep it, and so does truncation of what fits an int; integers of
-- at most 53 bits are exact; a decimal constant is not negative.
pub record IsIeee (f : Float64) : Type 0 where
  pub le_trans : (a b c : f.F) → f.le a b ≡ true → f.le b c ≡ true → f.le a c ≡ true
  pub le_total : (a b : f.F) → f.le a b ≡ false → f.le b a ≡ true
  pub of_int_mono : (i j : ℤ) → i ≤ℤ j → f.le (f.of_int i) (f.of_int j) ≡ true
  pub add_mono :
      (a b c d : f.F) → f.le a b ≡ true → f.le c d ≡ true → f.le (f.add a c) (f.add b d) ≡ true
  pub decimal_pos : (n d : ℕ) → 1 ≤ d → f.le (f.of_int (pos 0)) (f.decimal n d) ≡ true
  pub div_mono :
      (a b c : f.F)
      → f.le a b ≡ true
      → f.le c (f.of_int (pos 0)) ≡ false
      → f.le (f.div a c) (f.div b c) ≡ true
  pub mul_mono :
      (a b c : f.F)
      → f.le a b ≡ true
      → f.le (f.of_int (pos 0)) c ≡ true
      → f.le (f.mul a c) (f.mul b c) ≡ true
  pub mul_zero :
      (c : f.F) → f.le (f.of_int (pos 0)) c ≡ true → f.trunc (f.mul (f.of_int (pos 0)) c) ≡ pos 0
  pub mul_one : (n : ℕ) → n ≤ 2 ^ 53 → f.trunc (f.mul (f.of_int (pos 1)) (f.of_int (pos n))) ≡ pos n
  pub mul_zero_low :
      (c : f.F)
      → f.le (f.of_int (pos 0)) c ≡ true
      → f.le (f.of_int (pos 0)) (f.mul (f.of_int (pos 0)) c) ≡ true
  pub mul_one_high :
      (n : ℕ)
      → n ≤ 2 ^ 53
      → f.le (f.of_int (pos (2 ^ 63))) (f.mul (f.of_int (pos 1)) (f.of_int (pos n))) ≡ false
  pub trunc_mono : (a b : f.F) → f.le a b ≡ true → Fits f a → Fits f b → f.trunc a ≤ℤ f.trunc b

module _ (f : Float64) (ieee : IsIeee f) where
  -- What lies from 0 to a number that fits.
  pub int_range :
      (a b : f.F)
      → f.le (f.of_int (pos 0)) a ≡ true
      → f.le a b ≡ true
      → f.le (f.of_int (pos (2 ^ 63))) b ≡ false
      → Fits f a
  int_range a b low le high =
      let huge = f.of_int (pos (2 ^ 63)) in
      (
        ieee.le_trans (f.of_int (negsuc (2 ^ 63 - 1))) (f.of_int (pos 0)) a
            (ieee.of_int_mono (negsuc (2 ^ 63 - 1)) (pos 0) (omega arith)) low,
        elim (Bool-cases (f.le huge a)) [
          | inl above ↦ absurd (ground (arith, high, ieee.le_trans huge a b above le))
          | inr below ↦ below
        ],
      )

-- Fixed-point numbers with three decimals meet the interface's laws; negative ones are cut to zero.
abbrev pub fixed : Float64
fixed = record {
  F = ℕ;
  of_int = λ i. pos_part i * 1000;
  decimal = λ n d. n * 1000 / d;
  add = λ a b. a + b;
  mul = λ a b. a * b / 1000;
  div = λ a b. a * 1000 / b;
  le = leb;
  trunc = λ a. pos (a / 1000);
}

fixed_div_mono : (a b c : ℕ) → a ≤ b → a * 1000 / c ≤ b * 1000 / c
fixed_div_mono a b c h = grind arith

fixed_mul_mono : (a b c : ℕ) → a ≤ b → a * c / 1000 ≤ b * c / 1000
fixed_mul_mono a b c h = grind arith

pub fixed-IsIeee : IsIeee fixed
fixed-IsIeee = record {
  le_trans = λ a b c p q. ground arith;
  le_total = λ a b p. ground arith;
  of_int_mono = λ i j p. ground arith;
  add_mono = λ a b c d p q. ground arith;
  decimal_pos = λ n d h. ground arith;
  div_mono = λ a b c p q. le→leb _ _ (fixed_div_mono a b c (leb→le a b p));
  mul_mono = λ a b c p q. le→leb _ _ (fixed_mul_mono a b c (leb→le a b p));
  mul_zero = λ c p. ap pos (omega arith);
  mul_one = λ n p. ap pos (omega arith);
  mul_zero_low = λ c p. ground arith;
  mul_one_high = λ n p. ground arith;
  trunc_mono = λ a b p q r. ground arith;
}
