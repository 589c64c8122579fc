-- ===== src/Fuzz/Examples.antt =====
-- A source of zeros, a target that panics on a first byte, and the theorems at them.
use linux_application_develo.Shared.{
  ℕ, zero, suc, ◌≡◌, refl, Bool, true, false, Option, none, some, List, [], ◌∷◌, length, All, ◌==◌,
  if◌then◌else◌, arith, ap,
}
use linux_application_develo.Shared.Int.{pos}
use linux_application_develo.Fuzz.Inputs.{
  ByteRand, IsByteRand, IsByte, bit_flip, random, generate_input,
}
use linux_application_develo.Fuzz.{
  FuzzConfig, Call, returns, Poll, FuzzResult, new_fuzzer, run, generate_report, note_results,
  note_result, wrap,
}
use linux_application_develo.Fuzz.Sizes.{Gives, IsSized, generate_input-IsSized}
use linux_application_develo.Fuzz.Runs.{IsRun, Returns, run-IsRun, IsGood, run-is_successful}

abbrev zeros : ℕ → List ℕ
zeros zero = []
zeros (suc n) = 0 ∷ zeros n

length-zeros : (n : ℕ) → length (zeros n) ≡ n
length-zeros zero = refl
length-zeros (suc n) = ap suc (length-zeros n)

zeros-All : (n : ℕ) → All IsByte (zeros n)
zeros-All zero = tt
zeros-All (suc n) = (omega arith, zeros-All n)

abbrev source : ByteRand
source = record { R = ℕ; new = λ seed. 0; intn = λ n r. (0, suc r); read = λ n r. (zeros n, suc r) }

lawful : IsByteRand source
lawful = record {
  intn_lt = λ n r h. omega (arith, h);
  read_length = λ n r. length-zeros n;
  read_bytes = λ n r. zeros-All n;
}

abbrev config : FuzzConfig
config = record {
  iterations = pos 3;
  duration = pos 0;
  max_input_size = pos 8;
  strategies = random ∷ [];
  seed = pos 1;
}

abbrev polls : ℕ → Poll
polls k = record { is_done = k == 2; elapsed = pos k }

-- Fails on a first byte 1.
abbrev target : List ℕ → Call ℕ
target [] = returns none
target (b ∷ rest) = returns (if b == 1 then some 7 else none)

generate_input-IsSized_example :
    Gives source
      (IsSized source lawful 1 8)
      (generate_input source (pos 1) bit_flip (pos 1) (pos 8) 0)
generate_input-IsSized_example =
    generate_input-IsSized source lawful (pos 1) bit_flip 1 8 0 (omega arith) (omega arith)

run-IsRun_example :
    Returns source ℕ lawful
      (IsRun source ℕ lawful config 8 polls target 3 0)
      (run source ℕ (new_fuzzer source ℕ (pos 9) config) config polls target)
run-IsRun_example = run-IsRun source ℕ lawful (pos 9) config 8 polls target refl (omega arith)

run-is_successful_example :
    Returns source ℕ lawful
      (IsGood source ℕ lawful 3)
      (run source ℕ (new_fuzzer source ℕ (pos 9) config) config polls target)
run-is_successful_example =
    run-is_successful source ℕ lawful (pos 9) config 8 polls target refl (omega arith) safe
  where
    safe : (bytes : List ℕ) → (error : Option ℕ) × (target bytes ≡ returns error)
    safe [] = (none, refl)
    safe (b ∷ rest) = (_, refl)

abbrev result : Bool → Option ℕ → FuzzResult source ℕ
result crashed error = record {
  input = record { bytes = 0 ∷ []; strategy = random; seed = pos 1 };
  crashed = crashed;
  error = wrap source ℕ error;
}

abbrev results : List (FuzzResult source ℕ)
results = result false none ∷ result false (some 7) ∷ result true none ∷ []

counts : (generate_report source ℕ results).crashes ≡ 1
unfolding generate_report note_results note_result
counts = refl
