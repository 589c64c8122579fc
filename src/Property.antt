-- ===== src/Property.antt =====
-- The property-based tests of test-harness/pkg/property/testing.go: runs, shrinking and reports. One
-- type of values stands for Go's interface{}; durations are left out. A property and a generator's
-- Shrink are functions: that they return is assumed, and only Generate may panic.
pub mod Generators
pub mod Shrinking
pub mod Runs
pub mod Ranges
pub mod Summaries
mod Examples
use Prim.Native.String.{String}
use linux_application_develo.Shared.{
  ℕ, zero, suc, ◌+◌, ◌<◌, ◌≤◌, Bool, true, false, Option, none, some, List, [], ◌∷◌, ◌++◌, length,
  ◌==◌, if◌then◌else◌,
}
use linux_application_develo.Shared.Int.{ℤ, pos, negsuc, pos_part}

-- math/rand: `rand.New(rand.NewSource(seed))`, and `Intn`, which panics for n <= 0 and is asked here
-- for n >= 1 only.
pub record Rand : Type 1 where
  pub R : Type 0
  pub new : ℤ → R
  pub intn : ℕ → R → ℕ × R

-- Intn returns a number below its argument.
pub record IsRand (rand : Rand) : Type 0 where
  pub intn_lt : (n : ℕ) (r : rand.R) → 1 ≤ n → (rand.intn n r).0 < n

-- Config
pub record Config : Type 0 where
  pub iterations : ℤ
  pub max_shrink : ℤ
  pub seed : ℤ

-- `if x == 0 { x = d }`
abbrev pub or_default : ℤ → ℤ → ℤ
or_default (pos n) d = if n == 0 then d else pos n
or_default (negsuc n) d = negsuc n

module _ (rand : Rand) (A : Type 0) where
  -- Generator; `none` is a panic of Generate.
  pub record Generator : Type 0 where
    pub generate : rand.R → Option (A × rand.R)
    pub shrink : A → List A

  -- Test
  pub record Test : Type 0 where
    pub name : String
    pub property : A → Bool
    pub generator : Generator
    pub shrinks : ℤ
    pub max_shrinks : ℤ

  -- The text of `Error`.
  pub data RunError : Type 0 where
    no_error : RunError
    context_cancelled : RunError
    property_failed : A → RunError

  -- Result
  pub record PropertyResult : Type 0 where
    pub passed : Bool
    pub name : String
    pub runs : ℤ
    pub shrinks : ℕ
    pub failed_value : Option A
    pub error : RunError

  -- Runner
  pub record Runner : Type 0 where
    pub tests : List Test

  -- SummaryReport
  pub record SummaryReport : Type 0 where
    pub total_tests : ℕ
    pub passed : ℕ
    pub failed : ℕ
    pub results : List PropertyResult

-- The first candidate that fails the property; none of no candidates.
unfoldable pub find_smaller : {A : Type 0} → (A → Bool) → List A → Option A
find_smaller property [] = none
find_smaller property (candidate ∷ rest) =
    let later = find_smaller property rest in if property candidate then later else some candidate

module _ {rand : Rand} {A : Type 0} where
  -- New, and ForAll
  unfoldable pub new : String → (A → Bool) → Generator rand A → Test rand A
  new name property generator = record {
    name = name;
    property = property;
    generator = generator;
    shrinks = pos 0;
    max_shrinks = pos 100;
  }

  -- The loop of shrink, for the shrinks that are left.
  unfoldable pub shrink_loop : Test rand A → ℕ → A → ℕ → A × ℕ
  shrink_loop t zero current shrinks = (current, shrinks)
  shrink_loop t (suc left) current shrinks =
      elim (find_smaller t.property (t.generator.shrink current)) [
        | none ↦ (current, shrinks)
        | some candidate ↦ shrink_loop t left candidate (suc shrinks)
      ]

  -- shrink
  unfoldable pub shrink : Test rand A → A → ℤ → A × ℕ
  shrink t value max_shrinks = shrink_loop t (pos_part max_shrinks) value 0

  abbrev pub cancelled_result : Test rand A → ℕ → PropertyResult rand A
  cancelled_result t i = record {
    passed = false;
    name = t.name;
    runs = pos i;
    shrinks = 0;
    failed_value = none;
    error = context_cancelled;
  }

  abbrev pub failed_result : Test rand A → ℕ → A × ℕ → PropertyResult rand A
  failed_result t i (value, shrinks) = record {
    passed = false;
    name = t.name;
    runs = pos (suc i);
    shrinks = shrinks;
    failed_value = some value;
    error = property_failed value;
  }

  abbrev pub passed_result : Test rand A → ℤ → PropertyResult rand A
  passed_result t iterations = record {
    passed = true;
    name = t.name;
    runs = iterations;
    shrinks = 0;
    failed_value = none;
    error = no_error;
  }

  -- The loop of Run from iteration i; `done i` says whether the context is done at its poll.
  unfoldable pub run_loop :
      Test rand A → (ℕ → Bool) → ℤ → ℤ → ℕ → ℕ → rand.R → Option (PropertyResult rand A)
  run_loop t done iterations max_shrink zero i rng = some (passed_result t iterations)
  run_loop t done iterations max_shrink (suc left) i rng = elim (done i) [
    | true ↦ some (cancelled_result t i)
    | false ↦ elim (t.generator.generate rng) [
      | none ↦ none
      | some (value, rng') ↦ elim (t.property value) [
        | true ↦ run_loop t done iterations max_shrink left (suc i) rng'
        | false ↦ some (failed_result t i (shrink t value max_shrink))
      ]
    ]
  ]

  -- Run; `clock` is the time in nanoseconds, the seed where none is set.
  unfoldable pub run : Test rand A → (ℕ → Bool) → ℤ → Config → Option (PropertyResult rand A)
  run t done clock config =
      let iterations = or_default config.iterations (pos 100) in
      run_loop t done iterations (or_default config.max_shrink t.max_shrinks) (pos_part iterations)
        0 (rand.new (or_default config.seed clock))

  -- Runner.Run; the polls and the clock are those of each test.
  unfoldable pub run_tests :
      List (Test rand A)
      → (ℕ → ℕ → Bool)
      → (ℕ → ℤ)
      → Config
      → ℕ
      → Option (List (PropertyResult rand A))
  run_tests [] done clock config k = some []
  run_tests (t ∷ rest) done clock config k = elim (run t (done k) (clock k) config) [
    | none ↦ none
    | some result ↦ elim (run_tests rest done clock config (suc k)) [
      | none ↦ none
      | some results ↦ some (result ∷ results)
    ]
  ]

  -- Add
  unfoldable pub add : Runner rand A → Test rand A → Runner rand A
  add r t = record { tests = r.tests ++ t ∷ [] }

  -- The loop of GenerateReport.
  unfoldable pub count_results :
      SummaryReport rand A → List (PropertyResult rand A) → SummaryReport rand A
  count_results report [] = report
  count_results report (result ∷ rest) =
      count_results
        (if result.passed
          then record report { passed = report.passed + 1 }
          else record report { failed = report.failed + 1 })
        rest

  -- GenerateReport
  unfoldable pub generate_report : List (PropertyResult rand A) → SummaryReport rand A
  generate_report results =
      count_results
        (record { total_tests = length results; passed = 0; failed = 0; results = results }) results

  -- AllPassed
  unfoldable pub all_passed : SummaryReport rand A → Bool
  all_passed s = s.failed == 0
