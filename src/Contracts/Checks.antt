-- ===== src/Contracts/Checks.antt =====
-- What ValidateService decides, and what it counts.
use Prim.Native.String.{String}
use text.Mathlib.Text.{◌==◌ as str_eq}
use text.Mathlib.TextEquality.{eq_iff}
use linux_application_develo.Shared.{
  ◌⊎◌, ℕ, ◌+◌, ◌≡◌, ◌↔◌, refl, sym, ap, ◌∙◌, Bool, true, ◌&&◌, Option, none, some, [], arith, inl,
  inr,
}
use linux_application_develo.Shared.Float.{Float64}
use linux_application_develo.Contracts.Types.{Contract}
use linux_application_develo.Contracts.Conditions.{
  is_ok, HasBinary, HasSignals, HasInterface, HasTarget, binary_iff, signals_iff, interface_iff,
  performance_iff,
}
use linux_application_develo.Contracts.Notes.{
  note_check-IsHonest, note_advice-IsHonest, note_check-passed, note_advice-passed,
  note_check-counts, note_advice-counts, bit, bit_le, advice_warnings, check_name-Honest,
  check_name-fields,
}
use linux_application_develo.Contracts.{
  ContractHost, ContractError, ValidationResult, check_binary, note_check, note_advice, new_result,
  check_name, check_signals, check_interfaces, check_performance, run_checks,
}

-- A check that counts 1 if a condition holds, and 0 if it does not.
abbrev pub Counts : Type 0 → ℕ → Type 0
Counts P n = ((n ≡ 1) × P) ⊎ ((n ≡ 0) × ¬ P)

module _ (f : Float64) (V : Type 0) where
  -- What a contract must have, for a service on a machine.
  pub record IsFulfilled (host : ContractHost f V) (name : String) (c : Contract f V) : Type 0 where
    pub service : c.service ≡ name
    pub binary : HasBinary host.exists name
    pub signals : HasSignals f V c
    pub interface : HasInterface f V c

  -- How many of the four checks pass: those whose condition holds.
  pub record IsTally (host : ContractHost f V) (name : String) (c : Contract f V) (passed : ℕ)
      : Type 0 where
    pub binary : ℕ
    pub binary_counts : Counts (HasBinary host.exists name) binary
    pub signals : ℕ
    pub signals_counts : Counts (HasSignals f V c) signals
    pub interface : ℕ
    pub interface_counts : Counts (HasInterface f V c) interface
    pub target : ℕ
    pub target_counts : Counts (HasTarget f V c) target
    pub sum : passed ≡ binary + signals + interface + target

  -- The result for a loaded contract.
  pub record IsValidation (host : ContractHost f V) (name : String) (c : Contract f V)
      (r : ValidationResult) : Type 0 where
    pub total : r.checks_total ≡ 4
    pub tally : IsTally host name c r.checks_passed
    pub parts : r.checks_passed + r.checks_failed ≡ 4
    pub errors : (r.passed ≡ true) ↔ (r.errors ≡ [])
    pub fulfilled : (r.passed ≡ true) ↔ IsFulfilled host name c
    pub warnings : (r.warnings ≡ []) ↔ HasTarget f V c

bit-Counts : {P : Type 0} (o : Option ContractError) → ((is_ok o ≡ true) ↔ P) → Counts P (bit o)
bit-Counts none h = inl (refl, h.0 refl)
bit-Counts (some e) h = inr (refl, λ p. ground (arith, h.1 p))

module _ (f : Float64) (V : Type 0) where
  -- The verdict of the checks that count.
  abbrev verdict : ContractHost f V → String → Contract f V → Bool
  verdict host name c =
      ((str_eq c.service name && is_ok (check_binary host.exists name))
        && is_ok (check_signals f V c))
      && is_ok (check_interfaces f V c)

  verdict_iff :
      (host : ContractHost f V) (name : String) (c : Contract f V)
      → (verdict host name c ≡ true) ↔ IsFulfilled f V host name c
  verdict_iff host name c = (
    λ h. record {
      service = ground (arith, h, eq_iff c.service name);
      binary = (binary_iff f V host name).0 (ground (arith, h));
      signals = (signals_iff f V c).0 (ground (arith, h));
      interface = (interface_iff f V c).0 (ground (arith, h));
    },
    λ h. ground (
      arith,
      (eq_iff c.service name).1 h.service,
      (binary_iff f V host name).1 h.binary,
      (signals_iff f V c).1 h.signals,
      (interface_iff f V c).1 h.interface,
    ),
  )

  -- The result before the performance check.
  abbrev counted : ContractHost f V → String → Contract f V → ValidationResult → ValidationResult
  counted host name c r = note_check (check_interfaces f V c) (
      note_check (check_signals f V c)
        (note_check (check_binary host.exists name) (check_name f V name c r)))

  counted-passed :
      (host : ContractHost f V) (name : String) (c : Contract f V) (path : String)
      → (counted host name c (new_result name path)).passed ≡ verdict host name c
  counted-passed host name c path =
      let r0 = check_name f V name c (new_result name path) in
      let r1 = note_check (check_binary host.exists name) r0 in
      let r2 = note_check (check_signals f V c) r1 in
      note_check-passed (check_interfaces f V c) r2
      ∙ ap (λ b. b && is_ok (check_interfaces f V c))
          (note_check-passed (check_signals f V c) r1
            ∙ ap (λ b. b && is_ok (check_signals f V c))
                (note_check-passed (check_binary host.exists name) r0
                  ∙ ap (λ b. b && is_ok (check_binary host.exists name))
                      (check_name-fields f V name c (new_result name path)).0))

  counted-counts :
      (host : ContractHost f V) (name : String) (c : Contract f V) (path : String)
      → let r = counted host name c (new_result name path) in
        (r.checks_total ≡ 3)
        × (r.checks_passed
            ≡ bit (check_binary host.exists name)
              + bit (check_signals f V c)
              + bit (check_interfaces f V c))
        × (r.warnings ≡ [])
  counted-counts host name c path =
      let r0 = check_name f V name c (new_result name path) in
      let r1 = note_check (check_binary host.exists name) r0 in
      let r2 = note_check (check_signals f V c) r1 in
      let k0 = check_name-fields f V name c (new_result name path) in
      let k1 = note_check-counts (check_binary host.exists name) r0 in
      let k2 = note_check-counts (check_signals f V c) r1 in
      let k3 = note_check-counts (check_interfaces f V c) r2 in
      (
        omega (arith, k0.1, k1.0, k2.0, k3.0),
        omega (arith, k0.2, k1.1, k2.1, k3.1),
        k3.2 ∙ k2.2 ∙ k1.2 ∙ k0.3,
      )

  -- For a contract that is loaded, ValidateService makes four checks. ChecksPassed is how many of
  -- four conditions hold: a binary exists at one of six places, SIGTERM and SIGHUP have a behaviour,
  -- one of six interfaces is there, the throughput target is not 0; and ChecksFailed is the rest of
  -- the four. The result passes exactly if it lists no error, and exactly if the contract has the
  -- service's name and the first three conditions hold. There is no warning exactly if the fourth
  -- holds.
  pub run_checks-IsValidation :
      (host : ContractHost f V) (name path : String) (c : Contract f V)
      → IsValidation f V host name c (run_checks f V host name c (new_result name path))
  unfolding run_checks
  run_checks-IsValidation host name path c =
      let before = counted host name c (new_result name path) in
      let o = check_performance f V c in
      let counts = counted-counts host name c path in
      let last = note_advice-counts o before in
      let passed : (note_advice o before).passed ≡ verdict host name c =
        note_advice-passed o before ∙ counted-passed host name c path in
      let verdicts = verdict_iff host name c in
      let warned = advice_warnings o before counts.2 in
      let target = performance_iff f V c in
      record {
        total = omega (arith, counts.0, last.0);
        tally = record {
          binary = bit (check_binary host.exists name);
          binary_counts = bit-Counts _ (binary_iff f V host name);
          signals = bit (check_signals f V c);
          signals_counts = bit-Counts _ (signals_iff f V c);
          interface = bit (check_interfaces f V c);
          interface_counts = bit-Counts _ (interface_iff f V c);
          target = bit o;
          target_counts = bit-Counts _ (performance_iff f V c);
          sum = omega (arith, counts.1, last.1);
        };
        parts = omega (
          arith,
          counts.0,
          counts.1,
          last.0,
          last.1,
          bit_le o,
          bit_le (check_binary host.exists name),
          bit_le (check_signals f V c),
          bit_le (check_interfaces f V c),
        );
        errors = note_advice-IsHonest o before (
            note_check-IsHonest _ _ (
              note_check-IsHonest _ _
                (note_check-IsHonest _ _ (check_name-Honest f V name c _ (λ _. refl, λ _. refl)))));
        fulfilled = (λ h. verdicts.0 (sym passed ∙ h), λ h. passed ∙ verdicts.1 h);
        warnings = (λ h. target.0 (warned.0 h), λ h. warned.1 (target.1 h));
      }
