-- ===== src/Fuzz.antt =====
-- The fuzzer of test-harness/pkg/fuzz/fuzzer.go: its runs and reports over the generators of
-- Fuzz/Inputs. Durations are left out, but for the limit of a run.
pub mod Inputs
pub mod Sizes
pub mod Runs
pub mod Reports
mod Examples
use linux_application_develo.Shared.{
  ℕ, zero, suc, ◌+◌, Bool, true, false, ◌&&◌, Option, none, some, List, [], ◌∷◌, ◌++◌, length,
  get_or, ◌==◌, if◌then◌else◌,
}
use linux_application_develo.Shared.Float.{Float64}
use linux_application_develo.Shared.Int.{ℤ, pos, negsuc, pos_part, ltb_ℤ}
use linux_application_develo.Property.{or_default}
use linux_application_develo.Fuzz.Inputs.{
  ByteRand, Strategy, random, boundary, bit_flip, byte_flip, arithmetic, dictionary, other, Drawn,
  bind, intn, Input, generate_input,
}

-- Config
pub record FuzzConfig : Type 0 where
  pub iterations : ℤ
  pub duration : ℤ
  pub max_input_size : ℤ
  pub strategies : List Strategy
  pub seed : ℤ

-- How a call of the target ends.
pub data Call (E : Type 0) : Type 0 where
  returns : Option E → Call E
  panics : Call E

-- What a run finds before an iteration: whether the context is done, and the time since the start.
pub record Poll : Type 0 where
  pub is_done : Bool
  pub elapsed : ℤ

abbrev pub default_strategies : List Strategy
default_strategies = random ∷ boundary ∷ bit_flip ∷ byte_flip ∷ []

module _ (rand : ByteRand) (E : Type 0) where
  -- Fuzzer
  pub record Fuzzer : Type 0 where
    pub seed : ℤ
    pub rng : rand.R
    pub strategies : List Strategy

  -- NewFuzzer, at a time
  unfoldable pub new_fuzzer : ℤ → FuzzConfig → Fuzzer
  new_fuzzer now config =
      let seed = or_default config.seed now in
      record {
        seed = seed;
        rng = rand.new seed;
        strategies =
            if length config.strategies == 0 then default_strategies else config.strategies;
      }

  -- The error of a result: what the target returns, or its panic.
  pub data FuzzError : Type 0 where
    failed : E → FuzzError
    panicked : FuzzError

  -- Result
  pub record FuzzResult : Type 0 where
    pub input : Input rand
    pub crashed : Bool
    pub error : Option FuzzError

  abbrev pub wrap : Option E → Option FuzzError
  wrap none = none
  wrap (some e) = some (failed e)

  -- runTarget
  unfoldable pub run_target : (List ℕ → Call E) → Input rand → FuzzResult
  run_target target input = elim (target input.bytes) [
    | returns error ↦ record { input = input; crashed = false; error = wrap error }
    | panics ↦ record { input = input; crashed = true; error = some panicked }
  ]

  -- The input of one iteration of Run.
  unfoldable pub next_input : Fuzzer → ℤ → rand.R → Drawn rand (Input rand)
  next_input fuzzer max_size r = bind rand (intn rand (length fuzzer.strategies) r) (λ i r1.
      generate_input rand fuzzer.seed (get_or fuzzer.strategies i random) (pos 1) max_size r1)

  -- The limit of the duration is passed.
  abbrev pub is_over : FuzzConfig → Poll → Bool
  is_over config poll = ltb_ℤ (pos 0) config.duration && ltb_ℤ config.duration poll.elapsed

  -- What Run returns: the results, and whether it stopped for its context; none is a panic.
  abbrev pub Ran : Type 0
  Ran = Option (List FuzzResult × Bool)

  abbrev pub push : FuzzResult → Ran → Ran
  push result none = none
  push result (some (results, stopped)) = some (result ∷ results, stopped)

  -- A crash ends the run.
  abbrev pub after_result : FuzzResult → Bool → Ran → Ran
  after_result result true later = some (result ∷ [], false)
  after_result result false later = push result later

  -- An iteration from its input on.
  abbrev pub after_input : (List ℕ → Call E) → (rand.R → Ran) → Drawn rand (Input rand) → Ran
  after_input target later none = none
  after_input target later (some (input, r1)) =
      after_result (run_target target input) (run_target target input).crashed (later r1)

  -- The loop of Run, from the k-th iteration on.
  unfoldable pub run_loop :
      Fuzzer → FuzzConfig → ℤ → (ℕ → Poll) → (List ℕ → Call E) → ℕ → ℕ → rand.R → Ran
  run_loop fuzzer config max_size polls target zero k r = some ([], false)
  run_loop fuzzer config max_size polls target (suc n) k r = elim (polls k).is_done [
    | true ↦ some ([], true)
    | false ↦ elim (is_over config (polls k)) [
      | true ↦ some ([], false)
      | false ↦
          after_input target (λ r1. run_loop fuzzer config max_size polls target n (suc k) r1)
            (next_input fuzzer max_size r)
    ]
  ]

  -- Run
  unfoldable pub run : Fuzzer → FuzzConfig → (ℕ → Poll) → (List ℕ → Call E) → Ran
  run fuzzer config polls target =
      run_loop fuzzer config (or_default config.max_input_size (pos 1024)) polls target
        (pos_part (or_default config.iterations (pos 1000))) 0 fuzzer.rng

  -- Report; `strategies` is the count of each strategy.
  pub record FuzzReport : Type 0 where
    pub total_runs : ℕ
    pub crashes : ℕ
    pub errors : ℕ
    pub successes : ℕ
    pub strategies : Strategy → ℕ
    pub crashed_inputs : List (Input rand)

  -- The number of a strategy.
  abbrev pub code : Strategy → ℕ
  code random = 0
  code boundary = 1
  code bit_flip = 2
  code byte_flip = 3
  code arithmetic = 4
  code dictionary = 5
  code (other k) = 6 + k

  abbrev pub no_runs : FuzzReport
  no_runs = record {
    total_runs = 0;
    crashes = 0;
    errors = 0;
    successes = 0;
    strategies = λ s. 0;
    crashed_inputs = [];
  }

  -- `report.Strategies[s]++`
  abbrev pub bump : Strategy → (Strategy → ℕ) → Strategy → ℕ
  bump s counts t = if code s == code t then suc (counts t) else counts t

  abbrev pub is_error : Option FuzzError → Bool
  is_error none = false
  is_error (some e) = true

  -- The body of the loop of GenerateReport.
  unfoldable pub note_result : FuzzReport → FuzzResult → FuzzReport
  note_result report result =
      let counted = record report { strategies = bump result.input.strategy report.strategies } in
      if result.crashed
      then record counted {
        crashes = suc report.crashes;
        crashed_inputs = report.crashed_inputs ++ result.input ∷ [];
      }
      else if is_error result.error
      then record counted { errors = suc report.errors }
      else record counted { successes = suc report.successes }

  unfoldable pub note_results : FuzzReport → List FuzzResult → FuzzReport
  note_results report [] = report
  note_results report (result ∷ rest) = note_results (note_result report result) rest

  -- GenerateReport
  unfoldable pub generate_report : List FuzzResult → FuzzReport
  generate_report results = note_results (record no_runs { total_runs = length results }) results

  -- IsSuccessful
  unfoldable pub is_successful : FuzzReport → Bool
  is_successful report = report.crashes == 0

  -- GetCrashRate
  unfoldable pub get_crash_rate : (f : Float64) → FuzzReport → f.F
  get_crash_rate f report =
      if report.total_runs == 0
      then f.of_int (pos 0)
      else f.mul (f.div (f.of_int (pos report.crashes)) (f.of_int (pos report.total_runs)))
          (f.of_int (pos 100))
