-- ===== src/Shared/Text/Decimal.antt =====
-- Integers in decimal: fmt's %d verb, printing and scanning.
use Prim.Native.Nat.{ℕ, zero, suc, ◌+◌, ◌-◌, ◌*◌, ◌/◌, ◌%◌, ◌^◌, ◌<◌}
use mathlib.Core.Path.{◌≡◌, refl, ap, ◌∙◌}
use mathlib.Core.Logic.{inl, inr}
use mathlib.Core.Bool.{Bool, true, false, ◌&&◌, ◌||◌}
use mathlib.Core.List.{[], ◌∷◌, ◌++◌, append_assoc}
use native.Mathlib.Omega.{arith}
use linux_application_develo.Shared.Tests.{lt→ltb, Bool-cases, ltb, leb, ◌==◌, if◌then◌else◌}
use linux_application_develo.Shared.Int.{ℤ, pos, negsuc}
use linux_application_develo.Shared.Lists.{All, All-append}
use linux_application_develo.Shared.Text.{Text}

-- Printing. `suc n` rounds are enough for `n`.
unfoldable pub digits_loop : ℕ → ℕ → Text
digits_loop zero n = []
digits_loop (suc fuel) n =
    let high = digits_loop fuel (n / 10) in (if ltb n 10 then [] else high) ++ (48 + n % 10) ∷ []

unfoldable pub decimal : ℕ → Text
decimal n = digits_loop (suc n) n

unfoldable pub print_int : ℤ → Text
print_int (pos n) = decimal n
print_int (negsuc n) = b'-' ∷ decimal (suc n)

abbrev pub is_digit : ℕ → Bool
is_digit c = leb 48 c && leb c 57

unfoldable pub scan_digits : ℕ → Text → ℕ
scan_digits acc [] = acc
scan_digits acc (c ∷ t) = elim (is_digit c) [
  | true ↦ scan_digits (acc * 10 + (c - 48)) t
  | false ↦ acc
]

abbrev pub starts_digit : Text → Bool
starts_digit [] = false
starts_digit (c ∷ _) = is_digit c

-- A magnitude that does not fit an int64 is an error.
abbrev pub signed : Bool → ℕ → ℤ
signed false n = if ltb n (2 ^ 63) then pos n else pos 0
signed true zero = pos 0
signed true (suc n) = if ltb n (2 ^ 63) then negsuc n else pos 0

unfoldable pub scan_magnitude : Bool → Text → ℤ
scan_magnitude negative t = if starts_digit t then signed negative (scan_digits 0 t) else pos 0

-- The ASCII spaces that Sscanf skips before %d: a blank, tab, vertical tab, form feed and carriage
-- return. A line feed is an error.
abbrev pub is_blank : ℕ → Bool
is_blank c = (c == 32) || ((c == 9) || (leb 11 c && leb c 13))

unfoldable pub skip_blank : Text → Text
skip_blank [] = []
skip_blank (c ∷ t) = elim (is_blank c) [ true ↦ skip_blank t | false ↦ c ∷ t ]

unfoldable pub scan_sign : Text → ℤ
scan_sign [] = pos 0
scan_sign (c ∷ t) =
    if c == b'-'
    then scan_magnitude true t
    else if c == b'+'
    then scan_magnitude false t
    else scan_magnitude false (c ∷ t)

-- fmt.Sscanf(t, "%d", &n) into a variable that is 0 before, and stays so on an error.
unfoldable pub scan_int : Text → ℤ
scan_int t = scan_sign (skip_blank t)

-- The text goes on with something else than a digit.
abbrev pub EndsNumber : Text → Type 0
EndsNumber t = starts_digit t ≡ false

scan_one :
    (acc d : ℕ) (rest : Text)
    → d < 10
    → scan_digits acc ((48 + d) ∷ rest) ≡ scan_digits (acc * 10 + d) rest
unfolding scan_digits
scan_one acc d rest h = ground arith

scan_digits-digits_loop :
    (fuel n : ℕ) (rest : Text)
    → n < fuel
    → scan_digits 0 (digits_loop fuel n ++ rest) ≡ scan_digits n rest
unfolding digits_loop
scan_digits-digits_loop zero n rest h = absurd (omega arith)
scan_digits-digits_loop (suc fuel) n rest h = elim (Bool-cases (ltb n 10)) [
  | inl low ↦
      rw low (scan_one 0 (n % 10) rest (omega arith) ∙ ap (λ m. scan_digits m rest) (ground arith))
  | inr high ↦
      rw (high, append_assoc (digits_loop fuel (n / 10)) ((48 + n % 10) ∷ []) rest)
        (scan_digits-digits_loop fuel (n / 10) ((48 + n % 10) ∷ rest) (ground arith)
          ∙ scan_one (n / 10) (n % 10) rest (omega arith)
          ∙ ap (λ m. scan_digits m rest) (omega arith))
]

scan_digits_end : (n : ℕ) (rest : Text) → EndsNumber rest → scan_digits n rest ≡ n
unfolding scan_digits
scan_digits_end n [] h = refl
scan_digits_end n (c ∷ rest) h = ground arith

-- The first character of a printed number.
digits_loop-starts :
    (fuel n : ℕ) (rest : Text) → starts_digit (digits_loop (suc fuel) n ++ rest) ≡ true
unfolding digits_loop
digits_loop-starts zero n rest = elim (Bool-cases (ltb n 10)) [
  | inl low ↦ rw low (ground arith)
  | inr high ↦ rw high (ground arith)
]
digits_loop-starts (suc fuel) n rest = elim (Bool-cases (ltb n 10)) [
  | inl low ↦ rw low (ground arith)
  | inr high ↦
      rw (high, append_assoc (digits_loop (suc fuel) (n / 10)) ((48 + n % 10) ∷ []) rest)
        (digits_loop-starts fuel (n / 10) ((48 + n % 10) ∷ rest))
]

scan_int-starts : (t : Text) → starts_digit t ≡ true → scan_int t ≡ signed false (scan_digits 0 t)
unfolding scan_int skip_blank scan_sign scan_magnitude
scan_int-starts [] h = cc
scan_int-starts (c ∷ t) h = ground arith

-- Scanning what %d printed of a number that fits an int64, in front of anything that does not go on
-- with a digit, gives the number back.
pub scan_int-decimal :
    (n : ℕ) (rest : Text) → n < 2 ^ 63 → EndsNumber rest → scan_int (decimal n ++ rest) ≡ pos n
unfolding decimal
scan_int-decimal n rest h e =
    scan_int-starts (digits_loop (suc n) n ++ rest) (digits_loop-starts n n rest)
    ∙ ap (signed false)
        (scan_digits-digits_loop (suc n) n rest (omega arith) ∙ scan_digits_end n rest e)
    ∙ rw (lt→ltb n (2 ^ 63) h)

digits_loop_digits : (fuel n : ℕ) → All (λ c. is_digit c ≡ true) (digits_loop fuel n)
unfolding digits_loop
digits_loop_digits zero n = tt
digits_loop_digits (suc fuel) n = elim (Bool-cases (ltb n 10)) [
  | inl low ↦ rw low (ground arith, tt)
  | inr high ↦ rw high (All-append _ _ _ (digits_loop_digits fuel (n / 10)) (ground arith, tt))
]

-- A printed number is digits only.
pub decimal_digits : (n : ℕ) → All (λ c. is_digit c ≡ true) (decimal n)
unfolding decimal
decimal_digits n = digits_loop_digits (suc n) n
