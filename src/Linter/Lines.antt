-- ===== src/Linter/Lines.antt =====
-- Reading a line that follows cppcheck's template, {file}:{line}:{column}:{severity}:{message}.
use linux_application_develo.Shared.{ℕ, ◌<◌, ◌≡◌, ◌^◌, refl, true, some, [], ◌∷◌, ◌++◌, All, arith}
use mathlib.Core.List.{append-nil}
use linux_application_develo.Shared.Int.{pos}
use linux_application_develo.Shared.Text.{Text, Lacks, lit, split_n, split_n-part}
use linux_application_develo.Shared.Text.Decimal.{
  decimal, decimal_digits, is_digit, scan_int, scan_int-decimal,
}
use linux_application_develo.Linter.{parse_cppcheck_line}

-- What the template prints.
unfoldable pub cppcheck_line : Text → ℕ → ℕ → Text → Text → Text
cppcheck_line file line column severity message =
    file ++ b':' ∷ (decimal line ++ b':' ∷ (decimal column ++ b':' ∷ (severity ++ b':' ∷ message)))

digits-Lacks : (t : Text) → All (λ c. is_digit c ≡ true) t → Lacks b':' t
digits-Lacks [] h = tt
digits-Lacks (c ∷ t) h = (ground (arith, h.0), digits-Lacks t h.1)

scan_decimal : (n : ℕ) → n < 2 ^ 63 → scan_int (decimal n) ≡ pos n
scan_decimal n h = rw (append-nil) at (scan_int-decimal n [] h refl)

-- A line that cppcheck prints by the linter's template is read back: if neither the file's name nor
-- the severity has a colon and the numbers fit an int, the issue has the line, the column, the
-- severity and the whole message, colons included.
pub parse_cppcheck_line-cppcheck_line :
    (file severity message : Text) (line column : ℕ)
    → Lacks b':' file
    → Lacks b':' severity
    → line < 2 ^ 63
    → column < 2 ^ 63
    → parse_cppcheck_line (cppcheck_line file line column severity message)
      ≡ some (record {
        line = pos line;
        column = pos column;
        severity = severity;
        message = message;
        checker = lit "cppcheck";
      })
unfolding parse_cppcheck_line cppcheck_line split_n
parse_cppcheck_line-cppcheck_line file severity message line column hf hs hl hc = rw (
  split_n-part b':' 3 file _ hf,
  split_n-part b':' 2 (decimal line) _ (digits-Lacks _ (decimal_digits line)),
  split_n-part b':' 1 (decimal column) _ (digits-Lacks _ (decimal_digits column)),
  split_n-part b':' 0 severity message hs,
  scan_decimal line hl,
  scan_decimal column hc,
)
