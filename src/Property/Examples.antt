-- ===== src/Property/Examples.antt =====
-- A property test of small integers over a counter for the random numbers, and the theorems at it.
use Prim.Native.Nat.{min}
use linux_application_develo.Shared.{
  ℕ, suc, ◌-◌, ◌≡◌, refl, true, false, some, List, [], ◌∷◌, arith,
}
use linux_application_develo.Shared.Int.{ℤ, pos, negsuc, pos_part, ltb_ℤ, ◌≤ℤ◌, ◌+ℤ◌, ◌-ℤ◌}
use linux_application_develo.Property.{
  Rand, IsRand, Generator, Test, Config, PropertyResult, property_failed, find_smaller, shrink_loop,
  shrink, run_loop, run,
}
use linux_application_develo.Property.Generators.{IntGenerator, intn, int_generate, int_shrink}
use linux_application_develo.Property.Shrinking.{IsShrunk, shrink-IsShrunk}
use linux_application_develo.Property.Runs.{IsVerdict, run-IsVerdict}

-- Numbers that count up to the bound.
abbrev counter : Rand
counter = record { R = ℕ; new = λ seed. pos_part seed; intn = λ n r. (min r (n - 1), suc r) }

counter-IsRand : IsRand counter
counter-IsRand = record { intn_lt = λ n r h. omega (arith, h) }

abbrev small : IntGenerator
small = record { min = negsuc 1; max = pos 10 }

abbrev small_generator : Generator counter ℤ
small_generator = record { generate = int_generate counter small; shrink = int_shrink small }

-- Integers are below 4.
abbrev below_four : Test counter ℤ
below_four = record {
  name = "below four";
  property = λ v. ltb_ℤ v (pos 4);
  generator = small_generator;
  shrinks = pos 0;
  max_shrinks = pos 100;
}

abbrev config : Config
config = record { iterations = pos 20; max_shrink = pos 0; seed = pos 8 }

abbrev failure : PropertyResult counter ℤ
failure = record {
  passed = false;
  name = "below four";
  runs = pos 1;
  shrinks = 2;
  failed_value = some (pos 4);
  error = property_failed (pos 4);
}

-- The first value, 6, is shrunk to 5 and to 4.
run_below_four : run below_four (λ _. false) (pos 1) config ≡ some failure
unfolding run run_loop shrink shrink_loop find_smaller int_generate intn int_shrink ◌+ℤ◌ ◌-ℤ◌
run_below_four = refl

-- A least value above 0 is not kept by halving: 11 of at least 10 shrinks to 5.
halved_below_min : int_shrink (record { min = pos 10; max = pos 20 }) (pos 11) ≡ pos 5 ∷ pos 10 ∷ []
unfolding int_shrink ◌-ℤ◌
halved_below_min = refl

six_fails : ltb_ℤ (pos 6) (pos 4) ≡ false
six_fails = refl

shrink-IsShrunk_example :
    IsShrunk below_four 100
      (pos 6)
      (shrink below_four (pos 6) (pos 100)).0
      (shrink below_four (pos 6) (pos 100)).1
shrink-IsShrunk_example = shrink-IsShrunk below_four (pos 6) (pos 100) six_fails

run-IsVerdict_example : IsVerdict below_four (λ _. false) (pos 20) (pos 100) 0 20 8 failure
run-IsVerdict_example = run-IsVerdict below_four (λ _. false) (pos 1) config failure run_below_four

abbrev results : List (PropertyResult counter ℤ)
results = failure ∷ record failure { passed = true } ∷ []

small_range : pos 0 -ℤ negsuc 1 ≤ℤ pos 10
unfolding ◌-ℤ◌
small_range = omega arith
