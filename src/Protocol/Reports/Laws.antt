-- ===== src/Protocol/Reports/Laws.antt =====
-- What a compliance report counts.
use mathlib.Core.List.{append_assoc, append-nil}
use linux_application_develo.Shared.{
  sym, inl, inr, Bool-cases, Option-cases, ℕ, ◌+◌, ◌≡◌, ◌↔◌, refl, ◌∙◌, Bool, true, false, ◌&&◌,
  Option, none, some, List, [], ◌∷◌, ◌++◌, length, ◌==◌, if◌then◌else◌, arith,
}
use linux_application_develo.Protocol.{Header}
use linux_application_develo.Protocol.Streams.{StreamError, ValidationResult}
use linux_application_develo.Protocol.Reports.{
  Report, increment, count_of, tally, tally_all, blank, compliance_report,
}

abbrev pub count_if : (ValidationResult → Bool) → List ValidationResult → ℕ
count_if p [] = 0
count_if p (x ∷ xs) = (if p x then 1 else 0) + count_if p xs

abbrev pub has_type : ℕ → Option Header → Bool
has_type k none = false
has_type k (some h) = h.type == k

-- The result is a valid message of type `k`.
abbrev pub is_valid_of_type : ℕ → ValidationResult → Bool
is_valid_of_type k x = x.valid && has_type k x.header

-- The message numbers and errors of the invalid results.
abbrev pub errors_of : List ValidationResult → List (ℕ × Option StreamError)
errors_of [] = []
errors_of (x ∷ xs) = if x.valid then errors_of xs else (x.message, x.error) ∷ errors_of xs

count_of-increment :
    (k j : ℕ) (m : List (ℕ × ℕ))
    → count_of k (increment j m) ≡ (if j == k then 1 else 0) + count_of k m
unfolding count_of increment
count_of-increment k j [] = ground arith
count_of-increment k j ((i, n) ∷ m) = ground (arith, count_of-increment k j m)

count_of-nil : (k : ℕ) → count_of k [] ≡ 0
unfolding count_of
count_of-nil k = refl

-- What the loop has done after some results.
record Tallied (before after : Report) (results : List ValidationResult) : Type 0 where
  total : after.total_messages ≡ before.total_messages
  valid : after.valid_messages ≡ before.valid_messages + count_if (λ x. x.valid) results
  both :
      after.valid_messages + after.invalid_messages
      ≡ before.valid_messages + before.invalid_messages + length results
  errors : after.errors ≡ before.errors ++ errors_of results
  types :
      (k : ℕ)
      → count_of k after.message_types
        ≡ count_of k before.message_types + count_if (is_valid_of_type k) results

types_of-tally :
    (r : Report) (x : ValidationResult) (k : ℕ)
    → count_of k (tally r x).message_types
      ≡ count_of k r.message_types + (if is_valid_of_type k x then 1 else 0)
unfolding tally
types_of-tally r x k = elim (Option-cases x.header) [
  | inl missing ↦ rw missing (ground arith)
  | inr (h, found) ↦ rw found (ground (arith, count_of-increment k h.type r.message_types))
]

errors_of-tally :
    (r : Report) (x : ValidationResult) (xs : List ValidationResult)
    → (tally r x).errors ++ errors_of xs ≡ r.errors ++ errors_of (x ∷ xs)
unfolding tally
errors_of-tally r x xs = elim (Bool-cases x.valid) [
  | inl good ↦ simp good
  | inr bad ↦ simp (bad, append_assoc)
]

tally_all-Tallied :
    (r : Report) (results : List ValidationResult) → Tallied r (tally_all r results) results
unfolding tally_all
tally_all-Tallied r [] = record {
  total = refl;
  valid = omega arith;
  both = omega arith;
  errors = sym (append-nil r.errors);
  types = λ k. omega arith;
}
tally_all-Tallied r (x ∷ xs) =
    let ih = tally_all-Tallied (tally r x) xs in
    record {
      total = ih.total ∙ (unfold tally in ground arith);
      valid = ih.valid ∙ (unfold tally in ground arith);
      both = ih.both ∙ (unfold tally in ground arith);
      errors = ih.errors ∙ errors_of-tally r x xs;
      types = λ k. omega (arith, ih.types k, types_of-tally r x k);
    }

-- What ComplianceReport promises, each number stated by the results themselves.
pub record IsSummary (r : Report) (results : List ValidationResult) : Type 0 where
  pub total : r.total_messages ≡ length results
  pub valid : r.valid_messages ≡ count_if (λ x. x.valid) results
  pub both : r.valid_messages + r.invalid_messages ≡ r.total_messages
  pub errors : r.errors ≡ errors_of results
  pub types : (k : ℕ) → count_of k r.message_types ≡ count_if (is_valid_of_type k) results
  pub compliant : (r.compliant ≡ true) ↔ (r.valid_messages ≡ r.total_messages)

-- ComplianceReport counts all results, the valid ones, and the valid ones of each type; valid and
-- invalid ones make up the total; its errors are those of the invalid results, in order, with their
-- message numbers; and it says compliant exactly when every message is valid.
pub compliance_report-IsSummary :
    (results : List ValidationResult) → IsSummary (compliance_report results) results
unfolding compliance_report
compliance_report-IsSummary results =
    let t = tally_all-Tallied (blank (length results)) results in
    record {
      total = t.total;
      valid = omega (arith, t.valid);
      both = omega (arith, t.both, t.total);
      errors = t.errors;
      types = λ k. omega (arith, t.types k, count_of-nil k);
      compliant = ground (arith, t.both, t.total);
    }
