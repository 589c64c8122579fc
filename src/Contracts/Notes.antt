-- ===== src/Contracts/Notes.antt =====
-- What noting the outcome of a check does to a result.
use Prim.Native.String.{String}
use text.Mathlib.Text.{◌==◌ as str_eq}
use linux_application_develo.Shared.{
  ℕ, ◌+◌, ◌≤◌, ◌≡◌, ◌≢◌, ◌↔◌, refl, true, ◌&&◌, Option, none, some, List, [], ◌∷◌, ◌++◌, arith, inl,
  inr, Bool-cases,
}
use linux_application_develo.Shared.Float.{Float64}
use linux_application_develo.Contracts.Types.{Contract}
use linux_application_develo.Contracts.Conditions.{is_ok}
use linux_application_develo.Contracts.{
  ContractError, ValidationResult, note_check, note_advice, check_name,
}

pub append_one : (xs : List ContractError) (e : ContractError) → xs ++ e ∷ [] ≢ []
append_one [] e h = absurd (ground (arith, h))
append_one (x ∷ xs) e h = absurd (ground (arith, h))

-- A result passes exactly if it lists no error.
abbrev pub IsHonest : ValidationResult → Type 0
IsHonest r = (r.passed ≡ true) ↔ (r.errors ≡ [])

pub note_check-IsHonest :
    (o : Option ContractError) (r : ValidationResult) → IsHonest r → IsHonest (note_check o r)
unfolding note_check
note_check-IsHonest none r h = h
note_check-IsHonest (some e) r h =
    (λ p. absurd (ground (arith, p)), λ p. absurd (append_one r.errors e p))

pub note_advice-IsHonest :
    (o : Option ContractError) (r : ValidationResult) → IsHonest r → IsHonest (note_advice o r)
unfolding note_advice
note_advice-IsHonest none r h = h
note_advice-IsHonest (some e) r h = h

pub note_check-passed :
    (o : Option ContractError) (r : ValidationResult)
    → (note_check o r).passed ≡ (r.passed && is_ok o)
unfolding note_check
note_check-passed none r = ground arith
note_check-passed (some e) r = ground arith

pub note_advice-passed :
    (o : Option ContractError) (r : ValidationResult) → (note_advice o r).passed ≡ r.passed
unfolding note_advice
note_advice-passed none r = refl
note_advice-passed (some e) r = refl

-- One more check in all, and at most one more passed.
abbrev pub bit : Option ContractError → ℕ
bit none = 1
bit (some e) = 0

pub note_check-counts :
    (o : Option ContractError) (r : ValidationResult)
    → ((note_check o r).checks_total ≡ r.checks_total + 1)
      × ((note_check o r).checks_passed ≡ r.checks_passed + bit o)
      × ((note_check o r).warnings ≡ r.warnings)
unfolding note_check
note_check-counts none r = (omega arith, omega arith, refl)
note_check-counts (some e) r = (omega arith, omega arith, refl)

pub note_advice-counts :
    (o : Option ContractError) (r : ValidationResult)
    → ((note_advice o r).checks_total ≡ r.checks_total + 1)
      × ((note_advice o r).checks_passed ≡ r.checks_passed + bit o)
unfolding note_advice
note_advice-counts none r = (omega arith, omega arith)
note_advice-counts (some e) r = (omega arith, omega arith)

pub bit_le : (o : Option ContractError) → bit o ≤ 1
bit_le none = omega arith
bit_le (some e) = omega arith

pub advice_warnings :
    (o : Option ContractError) (r : ValidationResult)
    → r.warnings ≡ []
    → ((note_advice o r).warnings ≡ []) ↔ (is_ok o ≡ true)
unfolding note_advice
advice_warnings none r h = (λ _. refl, λ _. h)
advice_warnings (some e) r h =
    (λ p. absurd (append_one r.warnings e p), λ p. absurd (ground (arith, p)))

module _ (f : Float64) (V : Type 0) where
  pub check_name-Honest :
      (name : String) (c : Contract f V) (r : ValidationResult)
      → IsHonest r
      → IsHonest (check_name f V name c r)
  unfolding check_name
  check_name-Honest name c r h = elim (Bool-cases (str_eq c.service name)) [
    | inl e ↦ rw e h
    | inr e ↦ rw e (λ p. absurd (ground (arith, p)), λ p. absurd (append_one r.errors _ p))
  ]

  pub check_name-fields :
      (name : String) (c : Contract f V) (r : ValidationResult)
      → ((check_name f V name c r).passed ≡ (r.passed && str_eq c.service name))
        × ((check_name f V name c r).checks_total ≡ r.checks_total)
        × ((check_name f V name c r).checks_passed ≡ r.checks_passed)
        × ((check_name f V name c r).warnings ≡ r.warnings)
  unfolding check_name
  check_name-fields name c r = elim (Bool-cases (str_eq c.service name)) [
    | inl e ↦ rw e (ground arith, refl, refl, refl)
    | inr e ↦ rw e (ground arith, refl, refl, refl)
  ]
