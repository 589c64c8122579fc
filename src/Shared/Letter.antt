-- ===== src/Shared/Letter.antt =====
-- The letter grades of the harness. Three packages turn a score into one by the same thresholds:
-- the grading calculator, the CI client and the linter.
use Prim.Native.Nat.{ℕ, ◌≤◌}
use Prim.Native.String.{String}
use mathlib.Core.Path.{◌≡◌}
use mathlib.Core.Bool.{Bool, true, false}
use native.Mathlib.Omega.{arith}
use linux_application_develo.Shared.Tests.{if◌then◌else◌}

pub data Letter : Type 0 where
  a a_minus b_plus b b_minus c_plus c c_minus d f : Letter

-- The text that the packages return.
unfoldable pub letter_text : Letter → String
letter_text a = "A"
letter_text a_minus = "A-"
letter_text b_plus = "B+"
letter_text b = "B"
letter_text b_minus = "B-"
letter_text c_plus = "C+"
letter_text c = "C"
letter_text c_minus = "C-"
letter_text d = "D"
letter_text f = "F"

-- The order of the letters, from the worst.
abbrev pub rank : Letter → ℕ
rank a = 9
rank a_minus = 8
rank b_plus = 7
rank b = 6
rank b_minus = 5
rank c_plus = 4
rank c = 3
rank c_minus = 2
rank d = 1
rank f = 0

-- The `switch` over the thresholds, given the test `x >= n`.
unfoldable pub ladder : (ℕ → Bool) → Letter
ladder at_least =
    if at_least 93
    then a
    else if at_least 90
    then a_minus
    else if at_least 87
    then b_plus
    else if at_least 83
    then b
    else if at_least 80
    then b_minus
    else if at_least 77
    then c_plus
    else if at_least 73
    then c
    else if at_least 70
    then c_minus
    else if at_least 60
    then d
    else f

-- A score that passes more tests has no worse a letter.
pub ladder_mono :
    (p q : ℕ → Bool) → ((n : ℕ) → p n ≡ true → q n ≡ true) → rank (ladder p) ≤ rank (ladder q)
unfolding ladder
ladder_mono p q h = ground (arith, h 93, h 90, h 87, h 83, h 80, h 77, h 73, h 70, h 60)

-- Below the lowest threshold, and only there, the letter is F.
pub ladder-f :
    (p : ℕ → Bool) → ((m n : ℕ) → m ≤ n → p n ≡ true → p m ≡ true) → p 60 ≡ false → ladder p ≡ f
unfolding ladder
ladder-f p h e = ground (
  arith,
  h 60 93 (omega arith),
  h 60 90 (omega arith),
  h 60 87 (omega arith),
  h 60 83 (omega arith),
  h 60 80 (omega arith),
  h 60 77 (omega arith),
  h 60 73 (omega arith),
  h 60 70 (omega arith),
)

pub ladder-ne-f : (p : ℕ → Bool) → p 60 ≡ true → 1 ≤ rank (ladder p)
unfolding ladder
ladder-ne-f p e = ground arith
