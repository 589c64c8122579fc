-- ===== src/Protocol/Reports.antt =====
-- ComplianceReport of test-harness/pkg/protocol/validator.go. The map of counts is an association
-- list; errors keep the message number and the error that their text shows.
pub mod Laws
use linux_application_develo.Shared.{
  ℕ, zero, suc, ◌+◌, Bool, true, false, Option, none, some, List, [], ◌∷◌, ◌++◌, length, ◌==◌,
  if◌then◌else◌,
}
use linux_application_develo.Protocol.{Header}
use linux_application_develo.Protocol.Streams.{StreamError, ValidationResult}

pub record Report : Type 0 where
  pub compliant : Bool
  pub total_messages : ℕ
  pub valid_messages : ℕ
  pub invalid_messages : ℕ
  pub errors : List (ℕ × Option StreamError)
  pub message_types : List (ℕ × ℕ)

-- `m[k]++` on a map[uint8]int.
unfoldable pub increment : ℕ → List (ℕ × ℕ) → List (ℕ × ℕ)
increment k [] = (k, 1) ∷ []
increment k ((j, n) ∷ m) = if j == k then (j, n + 1) ∷ m else (j, n) ∷ increment k m

-- `m[k]`, zero for a missing key.
unfoldable pub count_of : ℕ → List (ℕ × ℕ) → ℕ
count_of k [] = 0
count_of k ((j, n) ∷ m) = if j == k then n else count_of k m

abbrev pub count_header : Option Header → List (ℕ × ℕ) → List (ℕ × ℕ)
count_header none m = m
count_header (some h) m = increment h.type m

-- The body of the loop.
unfoldable pub tally : Report → ValidationResult → Report
tally r x =
    if x.valid
    then record r {
      valid_messages = r.valid_messages + 1;
      message_types = count_header x.header r.message_types;
    }
    else record r {
      invalid_messages = r.invalid_messages + 1;
      errors = r.errors ++ (x.message, x.error) ∷ [];
    }

unfoldable pub tally_all : Report → List ValidationResult → Report
tally_all r [] = r
tally_all r (x ∷ xs) = tally_all (tally r x) xs

abbrev pub blank : ℕ → Report
blank total = record {
  compliant = false;
  total_messages = total;
  valid_messages = 0;
  invalid_messages = 0;
  errors = [];
  message_types = [];
}

-- ComplianceReport
unfoldable pub compliance_report : List ValidationResult → Report
compliance_report results =
    let r = tally_all (blank (length results)) results in
    record r { compliant = r.invalid_messages == 0 }
