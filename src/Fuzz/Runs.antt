-- ===== src/Fuzz/Runs.antt =====
-- How a fuzz run ends.
use linux_application_develo.Shared.{
  ℕ, zero, suc, ◌≤◌, ◌≡◌, ◌⊎◌, refl, Bool, true, false, Option, some, List, [], ◌∷◌, length, get_or,
  All, arith, inl, inr, Bool-cases,
}
use linux_application_develo.Shared.Int.{ℤ, pos, pos_part}
use linux_application_develo.Property.{or_default}
use linux_application_develo.Fuzz.Inputs.{ByteRand, IsByteRand, random, Drawn, Input}
use linux_application_develo.Fuzz.Sizes.{Gives, given, IsSized, generate_input-IsSized, drawn}
use linux_application_develo.Fuzz.{
  FuzzConfig, Call, returns, panics, Poll, Fuzzer, new_fuzzer, FuzzResult, run_target, next_input,
  is_over, Ran, push, after_result, after_input, run_loop, run, generate_report, is_successful,
}
use linux_application_develo.Fuzz.Reports.{generate_report-IsReport}

module _ (rand : ByteRand) (E : Type 0) (law : IsByteRand rand) where
  -- A run of at most n iterations, from the k-th on: each result is the target's on an input of 1 to
  -- `high` bytes; no result but the last is a crash; and a run stops early only for a crash, for a
  -- context that is done, or for the time.
  pub data IsRun (config : FuzzConfig) (high : ℕ) (polls : ℕ → Poll) (target : List ℕ → Call E)
      : ℕ → ℕ → List (FuzzResult rand E) → Bool → Type 0 where
    exhausted : {k : ℕ} → IsRun config high polls target 0 k [] false
    cancelled :
        {n k : ℕ} → (polls k).is_done ≡ true → IsRun config high polls target (suc n) k [] true
    timed_out :
        {n k : ℕ}
        → is_over rand E config (polls k) ≡ true
        → IsRun config high polls target (suc n) k [] false
    crashes :
        {n k : ℕ} {input : Input rand}
        → IsSized rand law 1 high input
        → target input.bytes ≡ panics
        → IsRun config high polls target (suc n) k (run_target rand E target input ∷ []) false
    continues :
        {n k : ℕ} {input : Input rand} {error : Option E} {rest : List (FuzzResult rand E)}
        {stopped : Bool}
        → IsSized rand law 1 high input
        → target input.bytes ≡ returns error
        → IsRun config high polls target n (suc k) rest stopped
        → IsRun config high polls target (suc n) k (run_target rand E target input ∷ rest) stopped

  -- The run returns, with the property.
  pub data Returns (P : List (FuzzResult rand E) → Bool → Type 0) : Ran rand E → Type 0 where
    ran :
        {results : List (FuzzResult rand E)} {stopped : Bool}
        → P results stopped
        → Returns P (some (results, stopped))

  next_input-IsSized :
      (fuzzer : Fuzzer rand E) (high : ℕ) (r : rand.R)
      → 1 ≤ length fuzzer.strategies
      → 1 ≤ high
      → Gives rand (IsSized rand law 1 high) (next_input rand E fuzzer (pos high) r)
  unfolding next_input
  next_input-IsSized fuzzer high r some_strategies h =
      drawn rand law (IsSized rand law 1 high) (length fuzzer.strategies) r _ some_strategies
        (λ i r1 _.
          generate_input-IsSized rand law fuzzer.seed (get_or fuzzer.strategies i random) 1 high r1
            (omega arith) h)

  crashed_lem :
      (target : List ℕ → Call E) (input : Input rand)
      → target input.bytes ≡ panics
      → (run_target rand E target input).crashed ≡ true
  unfolding run_target
  crashed_lem target input e = rw (e, run_target) refl

  returned_lem :
      (target : List ℕ → Call E) (input : Input rand) (error : Option E)
      → target input.bytes ≡ returns error
      → (run_target rand E target input).crashed ≡ false
  unfolding run_target
  returned_lem target input error e = rw (e, run_target) refl

  Call-cases : (c : Call E) → (c ≡ panics) ⊎ ((error : Option E) × (c ≡ returns error))
  Call-cases panics = inl refl
  Call-cases (returns error) = inr (error, refl)

  push-Returns :
      (P Q : List (FuzzResult rand E) → Bool → Type 0) (result : FuzzResult rand E) (r : Ran rand E)
      → Returns P r
      → ((results : List (FuzzResult rand E)) (stopped : Bool)
          → P results stopped
          → Q (result ∷ results) stopped)
      → Returns Q (push rand E result r)
  push-Returns P Q result _ (ran {results} {stopped} p) h = ran (h results stopped p)

  after_result-IsRun :
      (config : FuzzConfig) (high : ℕ) (polls : ℕ → Poll) (target : List ℕ → Call E) (n k : ℕ)
      (input : Input rand) (later : Ran rand E)
      → IsSized rand law 1 high input
      → Returns (IsRun config high polls target n (suc k)) later
      → Returns (IsRun config high polls target (suc n) k) (
          after_result rand E
            (run_target rand E target input)
            (run_target rand E target input).crashed
            later)
  after_result-IsRun config high polls target n k input later sized h =
      elim (Call-cases (target input.bytes)) [
        | inl e ↦ simp (crashed_lem target input e) (ran (crashes sized e))
        | inr (error, e) ↦ simp (returned_lem target input error e) (
            push-Returns (IsRun config high polls target n (suc k))
              (IsRun config high polls target (suc n) k) (run_target rand E target input) later h
              (λ results stopped p. continues sized e p))
      ]

  after_input-IsRun :
      (config : FuzzConfig) (high : ℕ) (polls : ℕ → Poll) (target : List ℕ → Call E) (n k : ℕ)
      (m : Drawn rand (Input rand)) (later : rand.R → Ran rand E)
      → Gives rand (IsSized rand law 1 high) m
      → ((r : rand.R) → Returns (IsRun config high polls target n (suc k)) (later r))
      → Returns (IsRun config high polls target (suc n) k) (after_input rand E target later m)
  after_input-IsRun config high polls target n k _ later (given {a} {r} sized) h =
      after_result-IsRun config high polls target n k a (later r) sized (h r)

  run_loop-IsRun :
      (fuzzer : Fuzzer rand E) (config : FuzzConfig) (high : ℕ) (polls : ℕ → Poll)
      (target : List ℕ → Call E) (n k : ℕ) (r : rand.R)
      → 1 ≤ length fuzzer.strategies
      → 1 ≤ high
      → Returns
          (IsRun config high polls target n k)
          (run_loop rand E fuzzer config (pos high) polls target n k r)
  unfolding run_loop
  run_loop-IsRun fuzzer config high polls target zero k r some_strategies h = ran exhausted
  run_loop-IsRun fuzzer config high polls target (suc n) k r some_strategies h =
      elim (Bool-cases (polls k).is_done) [
        | inl e ↦ simp (e, run_loop) (ran (cancelled e))
        | inr e ↦ elim (Bool-cases (is_over rand E config (polls k))) [
          | inl over ↦ simp (e, over, run_loop) (ran (timed_out over))
          | inr over ↦
              simp (e, over, run_loop)
                (after_input-IsRun config high polls target n k
                  (next_input rand E fuzzer (pos high) r) _
                  (next_input-IsSized fuzzer high r some_strategies h)
                  (λ r1.
                    run_loop-IsRun fuzzer config high polls target n (suc k) r1 some_strategies h))
        ]
      ]

  has_strategies :
      (now : ℤ) (config : FuzzConfig) → 1 ≤ length (new_fuzzer rand E now config).strategies
  unfolding new_fuzzer
  has_strategies now config = ground arith

  -- The number of iterations.
  abbrev pub iterations_of : FuzzConfig → ℕ
  iterations_of config = pos_part (or_default config.iterations (pos 1000))

  -- With a lawful source of numbers, a new fuzzer whose greatest size is at least 1 runs without a
  -- panic of its own, and its results are those of a run of the configured iterations.
  pub run-IsRun :
      (now : ℤ) (config : FuzzConfig) (high : ℕ) (polls : ℕ → Poll) (target : List ℕ → Call E)
      → or_default config.max_input_size (pos 1024) ≡ pos high
      → 1 ≤ high
      → Returns
          (IsRun config high polls target (iterations_of config) 0)
          (run rand E (new_fuzzer rand E now config) config polls target)
  unfolding run
  run-IsRun now config high polls target e h = rw e (
      run_loop-IsRun (new_fuzzer rand E now config) config high polls target (iterations_of config)
        0 (new_fuzzer rand E now config).rng (has_strategies now config) h)

  IsRun-length :
      (config : FuzzConfig) (high : ℕ) (polls : ℕ → Poll) (target : List ℕ → Call E) (n k : ℕ)
      (results : List (FuzzResult rand E)) (stopped : Bool)
      → IsRun config high polls target n k results stopped
      → length results ≤ n
  IsRun-length config high polls target _ _ _ _ exhausted = omega arith
  IsRun-length config high polls target _ _ _ _ (cancelled e) = omega arith
  IsRun-length config high polls target _ _ _ _ (timed_out e) = omega arith
  IsRun-length config high polls target _ _ _ _ (crashes sized e) = omega arith
  IsRun-length config high polls target _ _ _ _ (continues sized e rest) =
      omega (arith, IsRun-length config high polls target _ _ _ _ rest)

  -- The target never panics.
  abbrev pub IsSafe : (List ℕ → Call E) → Type 0
  IsSafe target = (bytes : List ℕ) → (error : Option E) × (target bytes ≡ returns error)

  IsRun-safe :
      (config : FuzzConfig) (high : ℕ) (polls : ℕ → Poll) (target : List ℕ → Call E) (n k : ℕ)
      (results : List (FuzzResult rand E)) (stopped : Bool)
      → IsSafe target
      → IsRun config high polls target n k results stopped
      → All (λ (r : FuzzResult rand E). r.crashed ≡ false) results
  IsRun-safe config high polls target _ _ _ _ safe exhausted = tt
  IsRun-safe config high polls target _ _ _ _ safe (cancelled e) = tt
  IsRun-safe config high polls target _ _ _ _ safe (timed_out e) = tt
  IsRun-safe config high polls target _ _ _ _ safe (crashes {n} {k} {input} sized e) =
      absurd (ground (arith, e, (safe input.bytes).1))
  IsRun-safe config high polls target _ _ _ _ safe
        (continues {n} {k} {input} {error} sized e rest) =
      (returned_lem target input error e, IsRun-safe config high polls target _ _ _ _ safe rest)

  -- The report of a run is a success, of as many runs at most.
  abbrev pub IsGood : ℕ → List (FuzzResult rand E) → Bool → Type 0
  IsGood n results stopped =
      (is_successful rand E (generate_report rand E results) ≡ true) × (length results ≤ n)

  Returns-map :
      (P Q : List (FuzzResult rand E) → Bool → Type 0) (r : Ran rand E)
      → Returns P r
      → ((results : List (FuzzResult rand E)) (stopped : Bool)
          → P results stopped
          → Q results stopped)
      → Returns Q r
  Returns-map P Q _ (ran {results} {stopped} p) h = ran (h results stopped p)

  -- With a lawful source of numbers, a new fuzzer whose greatest size is at least 1 runs a target that
  -- never panics for the configured iterations at most, and the report of its results is a success.
  pub run-is_successful :
      (now : ℤ) (config : FuzzConfig) (high : ℕ) (polls : ℕ → Poll) (target : List ℕ → Call E)
      → or_default config.max_input_size (pos 1024) ≡ pos high
      → 1 ≤ high
      → IsSafe target
      → Returns
          (IsGood (iterations_of config))
          (run rand E (new_fuzzer rand E now config) config polls target)
  run-is_successful now config high polls target e h safe =
      Returns-map (IsRun config high polls target (iterations_of config) 0)
        (IsGood (iterations_of config)) _ (run-IsRun now config high polls target e h)
        (λ results stopped p. (
          (generate_report-IsReport rand E results).success.1
              (IsRun-safe config high polls target _ _ results stopped safe p),
          IsRun-length config high polls target _ _ results stopped p,
        ))
