-- ===== src/Grading/Examples.antt =====
-- A student's grade by fixed-point arithmetic, and the calculator's theorems at it.
use Prim.Native.String.{String}
use text.Mathlib.TextEquality.{eq_iff}
use linux_application_develo.Shared.{◌≡◌, ◌≢◌, refl, true, [], ◌∷◌, arith}
use linux_application_develo.Shared.Int.{pos, ◌+ℤ◌, ◌≤ℤ◌, wrap_int, max_int}
use linux_application_develo.Shared.Float.{fixed, fixed-IsIeee}
use linux_application_develo.Shared.Dict
use linux_application_develo.Shared.Letter.{Letter, ladder}
use linux_application_develo.Grading.{
  Submission, Calculator, Criterion, new_calculator, find_criterion, percentage_of, make_result,
  add_result, not_evaluated, result_for, add_category, add_categories, calculate_letter_grade,
  calculate,
}
use linux_application_develo.Grading.MustPass.{IsBreakdown, calculate-IsBreakdown}
use linux_application_develo.Grading.Scores.{InRange, sum_of_maxima, calculate_bounds}

abbrev student : Submission
student = record {
  student_id = "s1";
  student_name = "Ada";
  timestamp = "t0";
  repository = "repo";
  commit_hash = "c0";
}

abbrev marked : Calculator fixed
marked =
    add_result fixed
      (add_result fixed (new_calculator fixed student) "compilation" (pos 10) (pos 10) [])
      "functionality" (pos 39) (pos 40) []

-- 1 of 1 and 15 of 16 points: the weights scale the points, and the scores are cut to integers.
marked_grade :
    let g = calculate fixed "now" marked in
    (g.total_score ≡ pos 16)
    × (g.max_score ≡ pos 30)
    × (g.must_pass_met ≡ true)
    × (g.letter_grade ≡ Letter.f)
unfolding calculate add_categories add_category wrap_int result_for not_evaluated percentage_of
    calculate_letter_grade ladder ◌+ℤ◌ Dict.get Dict.put new_calculator add_result find_criterion
    make_result
marked_grade = (refl, refl, refl, refl)

abbrev compilation : Criterion fixed
compilation = record {
  name = "compilation";
  weight = 100;
  max_points = pos 10;
  must_pass = true;
  description = "";
}

-- A calculator with one criterion and a result for it.
abbrev compiled : Calculator fixed
compiled = record {
  submission = student;
  criteria = compilation ∷ [];
  results =
      (
        "compilation",
        record {
          criterion = compilation;
          score = pos 10;
          max_points = pos 10;
          percentage = 100000;
          feedback = [];
          pass = true;
        },
      )
      ∷ [];
}

compilation_ne_style : ◌≢◌ {A = String} "compilation" "style"
compilation_ne_style = ground (arith, eq_iff "compilation" "style")

calculate-IsBreakdown_example :
    IsBreakdown fixed compiled.results compiled.criteria (calculate fixed "now" compiled)
calculate-IsBreakdown_example = calculate-IsBreakdown fixed "now" compiled

compiled-InRange : InRange fixed compiled.results compilation
unfolding result_for Dict.get
compiled-InRange = record {
  weight_ok = refl;
  points_ok = omega arith;
  score_low = omega arith;
  score_high = omega arith;
  fits = refl;
}

compiled_room : sum_of_maxima fixed compiled.criteria ≤ℤ max_int
unfolding sum_of_maxima ◌+ℤ◌
compiled_room = omega arith

calculate_bounds_example :
    (pos 0 ≤ℤ (calculate fixed "now" compiled).total_score)
    × ((calculate fixed "now" compiled).total_score ≤ℤ (calculate fixed "now" compiled).max_score)
    × ((calculate fixed "now" compiled).max_score ≡ sum_of_maxima fixed compiled.criteria)
calculate_bounds_example =
    calculate_bounds fixed fixed-IsIeee "now" compiled (compiled-InRange, tt) compiled_room
