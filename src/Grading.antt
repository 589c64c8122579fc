-- ===== src/Grading.antt =====
-- The calculator of test-harness/pkg/grading/calculator.go, over any float64 arithmetic.
-- `details`, which the package stores and never reads, is left out; times are the clock's text.
pub mod Additions
pub mod Letters
pub mod MustPass
pub mod Scores
mod Examples
use Prim.Native.String.{String}
use text.Mathlib.Text.{◌==◌ as str_eq}
use linux_application_develo.Shared.{
  ℕ, Bool, true, false, not, ◌&&◌, Option, none, some, List, [], ◌∷◌, ◌++◌, map, if◌then◌else◌,
}
use linux_application_develo.Shared.Int.{ℤ, pos, ltb_ℤ, ◌+ℤ◌, wrap_int}
use linux_application_develo.Shared.Float.{Float64}
use linux_application_develo.Shared.Letter.{Letter, ladder}
use linux_application_develo.Shared.Dict
use linux_application_develo.Shared.Dict.{Dict}

-- Submission
pub record Submission : Type 0 where
  pub student_id : String
  pub student_name : String
  pub timestamp : String
  pub repository : String
  pub commit_hash : String

module _ (f : Float64) where
  -- Criterion
  pub record Criterion : Type 0 where
    pub name : String
    pub weight : f.F
    pub max_points : ℤ
    pub must_pass : Bool
    pub description : String

  -- CategoryResult
  pub record CategoryResult : Type 0 where
    pub criterion : Criterion
    pub score : ℤ
    pub max_points : ℤ
    pub percentage : f.F
    pub feedback : List String
    pub pass : Bool

  -- The lines of `DetailedNotes`, with what their text shows.
  pub data Note : Type 0 where
    category_note : Bool → String → ℤ → ℤ → f.F → Note
    feedback_note : String → Note

  -- The lines of `Feedback`.
  pub data Feedback : Type 0 where
    must_pass_failed : String → Feedback

  -- Grade
  pub record Grade : Type 0 where
    pub submission : Submission
    pub total_score : ℤ
    pub max_score : ℤ
    pub percentage : f.F
    pub letter_grade : Letter
    pub passed : Bool
    pub categories : List CategoryResult
    pub must_pass_met : Bool
    pub feedback : List Feedback
    pub detailed_notes : List Note
    pub timestamp : String

  -- Calculator
  pub record Calculator : Type 0 where
    pub submission : Submission
    pub criteria : List Criterion
    pub results : Dict CategoryResult

  abbrev pub int : ℕ → f.F
  int n = f.of_int (pos n)

  abbrev pub zero_criterion : Criterion
  zero_criterion = record {
    name = "";
    weight = int 0;
    max_points = pos 0;
    must_pass = false;
    description = "";
  }

  -- DefaultCriteria
  abbrev pub default_criteria : List Criterion
  default_criteria =
      record {
        name = "compilation";
        weight = f.decimal 10 100;
        max_points = pos 10;
        must_pass = true;
        description = "All services compile without errors";
      }
      ∷ record {
        name = "functionality";
        weight = f.decimal 40 100;
        max_points = pos 40;
        must_pass = false;
        description = "Core functionality tests pass";
      }
      ∷ record {
        name = "performance";
        weight = f.decimal 30 100;
        max_points = pos 30;
        must_pass = false;
        description = "Performance benchmarks meet targets";
      }
      ∷ record {
        name = "reliability";
        weight = f.decimal 20 100;
        max_points = pos 20;
        must_pass = false;
        description = "Chaos tests and reliability metrics";
      }
      ∷ []

  -- NewCalculator
  unfoldable pub new_calculator : Submission → Calculator
  new_calculator s = record { submission = s; criteria = default_criteria; results = [] }

  -- SetCriteria
  unfoldable pub set_criteria : Calculator → List Criterion → Calculator
  set_criteria c criteria = record c { criteria = criteria }

  -- The search of AddResult: the first criterion of that name, or the zero value.
  unfoldable pub find_criterion : List Criterion → String → Criterion
  find_criterion [] category = zero_criterion
  find_criterion (crit ∷ rest) category =
      if str_eq crit.name category then crit else find_criterion rest category

  -- `float64(score) / float64(maxPoints) * 100`, or 0 where there are no points.
  unfoldable pub percentage_of : ℤ → ℤ → f.F
  percentage_of score max_points =
      if ltb_ℤ (pos 0) max_points
      then f.mul (f.div (f.of_int score) (f.of_int max_points)) (int 100)
      else int 0

  unfoldable pub make_result : Criterion → ℤ → ℤ → List String → CategoryResult
  make_result criterion score max_points feedback =
      let percentage = percentage_of score max_points in
      record {
        criterion = criterion;
        score = score;
        max_points = max_points;
        percentage = percentage;
        feedback = feedback;
        pass = f.le (int (if criterion.must_pass then 100 else 60)) percentage;
      }

  -- AddResult
  unfoldable pub add_result : Calculator → String → ℤ → ℤ → List String → Calculator
  add_result c category score max_points feedback =
      let criterion = find_criterion c.criteria category in
      record c {
        results = Dict.put c.results category (make_result criterion score max_points feedback);
      }

  -- A category that was not evaluated gets 0.
  unfoldable pub not_evaluated : Criterion → CategoryResult
  not_evaluated criterion = record {
    criterion = criterion;
    score = pos 0;
    max_points = criterion.max_points;
    percentage = int 0;
    feedback = "Category not evaluated" ∷ [];
    pass = false;
  }

  abbrev pub or_else : Option CategoryResult → CategoryResult → CategoryResult
  or_else none r = r
  or_else (some r) _ = r

  -- The result that Calculate takes for a criterion.
  unfoldable pub result_for : Dict CategoryResult → Criterion → CategoryResult
  result_for results criterion = or_else (Dict.get results criterion.name) (not_evaluated criterion)

  -- What the loop of Calculate accumulates.
  pub record Totals : Type 0 where
    pub categories : List CategoryResult
    pub total_score : ℤ
    pub total_max : ℤ
    pub must_pass_met : Bool
    pub feedback : List Feedback

  -- `int(float64(points) * weight)`, which depends on the machine if it does not fit an int
  abbrev pub weighted : ℤ → Criterion → ℤ
  weighted points criterion = f.trunc (f.mul (f.of_int points) criterion.weight)

  -- The body of the loop, whose sums wrap.
  unfoldable pub add_category : Dict CategoryResult → Totals → Criterion → Totals
  add_category results t criterion =
      let result = result_for results criterion in
      let failed = criterion.must_pass && not result.pass in
      record {
        categories = t.categories ++ result ∷ [];
        total_score = wrap_int (t.total_score +ℤ weighted result.score criterion);
        total_max = wrap_int (t.total_max +ℤ weighted criterion.max_points criterion);
        must_pass_met = if failed then false else t.must_pass_met;
        feedback =
            if failed then t.feedback ++ must_pass_failed criterion.name ∷ [] else t.feedback;
      }

  unfoldable pub add_categories : Dict CategoryResult → Totals → List Criterion → Totals
  add_categories results t [] = t
  add_categories results t (criterion ∷ rest) =
      add_categories results (add_category results t criterion) rest

  abbrev pub no_totals : Totals
  no_totals = record {
    categories = [];
    total_score = pos 0;
    total_max = pos 0;
    must_pass_met = true;
    feedback = [];
  }

  -- calculateLetterGrade
  unfoldable pub calculate_letter_grade : f.F → Letter
  calculate_letter_grade percentage = ladder (λ n. f.le (int n) percentage)

  -- The loop that writes the notes, with that over a category's feedback.
  unfoldable pub feedback_notes : List String → List Note
  feedback_notes [] = []
  feedback_notes (fb ∷ rest) = feedback_note fb ∷ feedback_notes rest

  unfoldable pub notes_of : List CategoryResult → List Note
  notes_of [] = []
  notes_of (cat ∷ rest) =
      (category_note cat.pass cat.criterion.name cat.score cat.max_points cat.percentage
        ∷ feedback_notes cat.feedback)
      ++ notes_of rest

  -- Calculate; it has no error path.
  unfoldable pub calculate : String → Calculator → Grade
  calculate now c =
      let t = add_categories c.results no_totals c.criteria in
      let percentage = percentage_of t.total_score t.total_max in
      record {
        submission = c.submission;
        total_score = t.total_score;
        max_score = t.total_max;
        percentage = percentage;
        letter_grade = calculate_letter_grade percentage;
        passed = t.must_pass_met && f.le (int 60) percentage;
        categories = t.categories;
        must_pass_met = t.must_pass_met;
        feedback = t.feedback;
        detailed_notes = notes_of t.categories;
        timestamp = now;
      }
