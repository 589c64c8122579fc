-- ===== src/Grading/Letters.antt =====
-- Letter grades and passing, in calculateLetterGrade and Calculate of grading/calculator.go.
use Prim.Native.String.{String}
use linux_application_develo.Shared.{◌≤◌, ◌≡◌, ◌≢◌, ◌↔◌, true, false, inl, inr, arith, Bool-cases}
use linux_application_develo.Shared.Int.{pos}
use linux_application_develo.Shared.Float.{Float64, IsIeee}
use linux_application_develo.Shared.Letter.{Letter, rank, ladder_mono, ladder-f, ladder-ne-f}
use linux_application_develo.Grading.{Calculator, int, calculate_letter_grade, calculate}

module _ (f : Float64) (ieee : IsIeee f) where
  -- A percentage that is no lower has a letter that is no worse.
  pub calculate_letter_grade_mono :
      (p q : f.F)
      → f.le p q ≡ true
      → rank (calculate_letter_grade f p) ≤ rank (calculate_letter_grade f q)
  unfolding calculate_letter_grade
  calculate_letter_grade_mono p q h =
      ladder_mono (λ n. f.le (int f n) p) (λ n. f.le (int f n) q)
        (λ n t. ieee.le_trans (int f n) p q t h)

  below_sixty : (p : f.F) → f.le (int f 60) p ≡ false → calculate_letter_grade f p ≡ Letter.f
  unfolding calculate_letter_grade
  below_sixty p h =
      ladder-f (λ n. f.le (int f n) p)
        (λ m n l t.
          ieee.le_trans (int f m) (int f n) p (ieee.of_int_mono (pos m) (pos n) (omega arith)) t)
        h

  from_sixty : (p : f.F) → f.le (int f 60) p ≡ true → calculate_letter_grade f p ≢ Letter.f
  unfolding calculate_letter_grade
  from_sixty p h e = ground (arith, ladder-ne-f (λ n. f.le (int f n) p) h)

  -- By IEEE arithmetic, a grade passes exactly when the must-pass criteria are met and its letter is
  -- not F.
  pub calculate-passed :
      (now : String) (c : Calculator f)
      → ((calculate f now c).passed ≡ true) ↔ (
          ((calculate f now c).must_pass_met ≡ true)
          × ((calculate f now c).letter_grade ≢ Letter.f))
  unfolding calculate
  calculate-passed now c =
      let percentage = (calculate f now c).percentage in
      elim (Bool-cases (f.le (int f 60) percentage)) [
        | inl enough ↦ (
          λ e. (ground (arith, enough), from_sixty percentage enough),
          λ e. ground (arith, enough, e.0),
        )
        | inr short ↦ (
          λ e. absurd (ground (arith, short, e)),
          λ e. absurd (e.1 (below_sixty percentage short)),
        )
      ]
