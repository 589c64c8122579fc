-- ===== src/Grading/Scores.antt =====
-- The bounds of a grade's scores, in Go's ints.
use Prim.Native.String.{String}
use mathlib.Core.Path.{subst}
use linux_application_develo.Shared.{true, false, ◌^◌, ◌∙◌, ◌≡◌, List, [], ◌∷◌, All, arith}
use linux_application_develo.Shared.Int.{ℤ, pos, ◌≤ℤ◌, ◌+ℤ◌, int_laws, max_int, wrap_int_fits}
use linux_application_develo.Shared.Float.{Float64, IsIeee, Fits, int_range}
use linux_application_develo.Shared.Dict.{Dict}
use linux_application_develo.Grading.{
  Calculator, CategoryResult, Criterion, Totals, int, weighted, result_for, add_category,
  add_categories, no_totals, calculate,
}

module _ (f : Float64) where
  -- Each result in range of its criterion, whose weight and points are not negative and whose weighted
  -- points are less than 2^63.
  pub record InRange (results : Dict (CategoryResult f)) (crit : Criterion f) : Type 0 where
    pub weight_ok : f.le (int f 0) crit.weight ≡ true
    pub points_ok : pos 0 ≤ℤ crit.max_points
    pub score_low : pos 0 ≤ℤ (result_for f results crit).score
    pub score_high : (result_for f results crit).score ≤ℤ crit.max_points
    pub fits : f.le (f.of_int (pos (2 ^ 63))) (f.mul (f.of_int crit.max_points) crit.weight) ≡ false

  -- The weighted points of the criteria, added without wrap-around.
  unfoldable pub sum_of_maxima : List (Criterion f) → ℤ
  sum_of_maxima [] = pos 0
  sum_of_maxima (crit ∷ rest) =
      f.trunc (f.mul (f.of_int crit.max_points) crit.weight) +ℤ sum_of_maxima rest

  module _ (ieee : IsIeee f) where
    abbrev zero_f : f.F
    zero_f = f.of_int (pos 0)

    -- Weighted points of 0 to those of a criterion fit an int.
    weighted-Fits :
        (crit : Criterion f) (i : ℤ)
        → f.le zero_f crit.weight ≡ true
        → pos 0 ≤ℤ i
        → i ≤ℤ crit.max_points
        → f.le (f.of_int (pos (2 ^ 63))) (f.mul (f.of_int crit.max_points) crit.weight) ≡ false
        → Fits f (f.mul (f.of_int i) crit.weight)
    weighted-Fits crit i w low high fits =
        int_range f ieee (f.mul (f.of_int i) crit.weight)
          (f.mul (f.of_int crit.max_points) crit.weight)
          (ieee.le_trans zero_f (f.mul zero_f crit.weight) (f.mul (f.of_int i) crit.weight)
            (ieee.mul_zero_low crit.weight w)
            (ieee.mul_mono zero_f (f.of_int i) crit.weight (ieee.of_int_mono (pos 0) i low) w))
          (ieee.mul_mono (f.of_int i) (f.of_int crit.max_points) crit.weight
            (ieee.of_int_mono i crit.max_points high) w)
          fits

    module _ (results : Dict (CategoryResult f)) (crit : Criterion f)
        (this : InRange results crit) where
      low-Fits : Fits f (f.mul zero_f crit.weight)
      low-Fits = weighted-Fits crit (pos 0) this.weight_ok (omega arith) this.points_ok this.fits

      score-Fits : Fits f (f.mul (f.of_int (result_for f results crit).score) crit.weight)
      score-Fits = weighted-Fits crit _ this.weight_ok this.score_low this.score_high this.fits

      max-Fits : Fits f (f.mul (f.of_int crit.max_points) crit.weight)
      max-Fits =
          weighted-Fits crit crit.max_points this.weight_ok this.points_ok (omega arith) this.fits

      weighted_nonneg : pos 0 ≤ℤ weighted f (result_for f results crit).score crit
      weighted_nonneg =
          let score = (result_for f results crit).score in
          subst (λ z. z ≤ℤ weighted f score crit) (ieee.mul_zero crit.weight this.weight_ok)
            (ieee.trunc_mono _ _
              (ieee.mul_mono zero_f (f.of_int score) crit.weight
                (ieee.of_int_mono (pos 0) score this.score_low) this.weight_ok)
              low-Fits score-Fits)

      weighted_le :
          weighted f (result_for f results crit).score crit ≤ℤ weighted f crit.max_points crit
      weighted_le =
          ieee.trunc_mono _ _
            (ieee.mul_mono _ _ crit.weight (ieee.of_int_mono _ _ this.score_high) this.weight_ok)
            score-Fits max-Fits

    sum_of_maxima_nonneg :
        (results : Dict (CategoryResult f)) (criteria : List (Criterion f))
        → All (InRange results) criteria
        → pos 0 ≤ℤ sum_of_maxima criteria
    unfolding sum_of_maxima
    sum_of_maxima_nonneg results [] all = omega arith
    sum_of_maxima_nonneg results (crit ∷ rest) (this, all) = omega (
      int_laws,
      weighted_nonneg results crit this,
      weighted_le results crit this,
      sum_of_maxima_nonneg results rest all,
    )

    -- The totals so far, with room for the criteria that are left.
    record Within (t : Totals f) (criteria : List (Criterion f)) : Type 0 where
      low : pos 0 ≤ℤ t.total_score
      high : t.total_score ≤ℤ t.total_max
      room : t.total_max +ℤ sum_of_maxima criteria ≤ℤ max_int

    -- The sums of one round are not wrapped.
    add_category-sums :
        (results : Dict (CategoryResult f)) (t : Totals f) (crit : Criterion f)
        (rest : List (Criterion f))
        → InRange results crit
        → All (InRange results) rest
        → Within t (crit ∷ rest)
        → ((add_category f results t crit).total_score
            ≡ t.total_score +ℤ weighted f (result_for f results crit).score crit)
          × ((add_category f results t crit).total_max
              ≡ t.total_max +ℤ weighted f crit.max_points crit)
    unfolding add_category sum_of_maxima
    add_category-sums results t crit rest this all w =
        let low = weighted_nonneg results crit this in
        let high = weighted_le results crit this in
        let later = sum_of_maxima_nonneg results rest all in
        let score = weighted f (result_for f results crit).score crit in
        let max = weighted f crit.max_points crit in
        (
          wrap_int_fits (t.total_score +ℤ score)
              (omega (int_laws, low, high, later, w.low, w.high, w.room))
              (omega (int_laws, low, high, later, w.low, w.high, w.room)),
          wrap_int_fits (t.total_max +ℤ max)
              (omega (int_laws, low, high, later, w.low, w.high, w.room))
              (omega (int_laws, low, high, later, w.low, w.high, w.room)),
        )

    add_category-Within :
        (results : Dict (CategoryResult f)) (t : Totals f) (crit : Criterion f)
        (rest : List (Criterion f))
        → InRange results crit
        → All (InRange results) rest
        → Within t (crit ∷ rest)
        → Within (add_category f results t crit) rest
    unfolding sum_of_maxima
    add_category-Within results t crit rest this all w =
        let (score, max) = add_category-sums results t crit rest this all w in
        let low = weighted_nonneg results crit this in
        let high = weighted_le results crit this in
        record {
          low = rw score (omega (int_laws, low, w.low));
          high = rw (score, max) (omega (int_laws, high, w.high));
          room = rw max (omega (int_laws, w.room));
        }

    add_categories-Within :
        (results : Dict (CategoryResult f)) (t : Totals f) (criteria : List (Criterion f))
        → All (InRange results) criteria
        → Within t criteria
        → Within (add_categories f results t criteria) []
          × ((add_categories f results t criteria).total_max
              ≡ t.total_max +ℤ sum_of_maxima criteria)
    unfolding add_categories sum_of_maxima
    add_categories-Within results t [] all w = (w, omega int_laws)
    add_categories-Within results t (crit ∷ rest) (this, all) w =
        let (within, total) =
          add_categories-Within results (add_category f results t crit) rest all
            (add_category-Within results t crit rest this all w) in
        let (_, max) = add_category-sums results t crit rest this all w in
        (within, total ∙ rw max (omega int_laws))

    -- If every criterion has a weight and points that are not negative and weighted points below 2^63,
    -- its result a score from 0 to its points, and the weighted points, cut to integers, add up to no
    -- more than the greatest int, then by IEEE arithmetic the grade's maximum is that sum, and its total
    -- score lies between 0 and the maximum.
    pub calculate_bounds :
        (now : String) (c : Calculator f)
        → All (InRange c.results) c.criteria
        → sum_of_maxima c.criteria ≤ℤ max_int
        → (pos 0 ≤ℤ (calculate f now c).total_score)
          × ((calculate f now c).total_score ≤ℤ (calculate f now c).max_score)
          × ((calculate f now c).max_score ≡ sum_of_maxima c.criteria)
    unfolding calculate
    calculate_bounds now c all fits =
        let (within, total) =
          add_categories-Within c.results (no_totals f) c.criteria all
            (record { low = omega arith; high = omega arith; room = omega (int_laws, fits) }) in
        (within.low, within.high, total ∙ omega int_laws)
