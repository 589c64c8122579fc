-- ===== src/Contracts.antt =====
-- The contract validator of test-harness/pkg/contracts/validator.go: its four checks and their tally.
-- Files and YAML are the host's; log lines are left out.
pub mod Types
pub mod Conditions
pub mod Notes
pub mod Checks
pub mod Binaries
mod Examples
use Prim.Native.String.{String, ◌++◌ as ◌<>◌}
use text.Mathlib.Text.{◌==◌ as str_eq}
use linux_application_develo.Shared.{
  ℕ, suc, ◌-◌, Bool, true, false, not, ◌&&◌, ◌||◌, Option, none, some, List, [], ◌∷◌, ◌++◌,
  if◌then◌else◌, Result, ok, err, ◌>>=◌,
}
use linux_application_develo.Shared.Float.{Float64}
use linux_application_develo.Shared.Dict
use linux_application_develo.Shared.Dict.{Dict}
use linux_application_develo.Shared.Int.{pos}
use linux_application_develo.Contracts.Types.{Contract, MetricConfig}

module _ (f : Float64) (V : Type 0) where
  -- What the validator asks of the machine: os.ReadFile, yaml.Unmarshal and os.Stat. The two first
  -- return a value or an error.
  pub record ContractHost : Type 0 where
    pub read_file : String → Result String String
    pub unmarshal : String → Result String (Contract f V)
    pub exists : String → Bool

-- The errors of the validator.
pub data ContractError : Type 0 where
  failed_to_read : String → ContractError
  failed_to_parse : String → ContractError
  name_mismatch : String → String → ContractError
  binary_not_found : String → ContractError
  sigterm_not_defined : ContractError
  sighup_not_defined : ContractError
  no_interfaces : ContractError
  throughput_not_defined : ContractError

-- ValidationResult
pub record ValidationResult : Type 0 where
  pub service_name : String
  pub contract_file : String
  pub passed : Bool
  pub errors : List ContractError
  pub warnings : List ContractError
  pub checks_passed : ℕ
  pub checks_failed : ℕ
  pub checks_total : ℕ

abbrev pub binary_paths : String → List String
binary_paths name =
    ("../../services/" <> name <> "/" <> name)
    ∷ ("../services/" <> name <> "/" <> name)
    ∷ ("./services/" <> name <> "/" <> name)
    ∷ ("./services/" <> name <> "/ws-" <> name)
    ∷ ("./" <> name)
    ∷ ("/usr/local/bin/" <> name)
    ∷ []

-- The loop of checkBinary.
unfoldable pub any_exists : (String → Bool) → List String → Bool
any_exists exists [] = false
any_exists exists (path ∷ rest) =
    let later = any_exists exists rest in if exists path then true else later

-- checkBinary
unfoldable pub check_binary : (String → Bool) → String → Option ContractError
check_binary exists name =
    if any_exists exists (binary_paths name) then none else some (binary_not_found name)

-- A check that fails is an error.
unfoldable pub note_check : Option ContractError → ValidationResult → ValidationResult
note_check none r = record r {
  checks_passed = suc r.checks_passed;
  checks_total = suc r.checks_total;
}
note_check (some e) r = record r {
  passed = false;
  errors = r.errors ++ e ∷ [];
  checks_total = suc r.checks_total;
}

-- A check that fails is a warning.
unfoldable pub note_advice : Option ContractError → ValidationResult → ValidationResult
note_advice none r = record r {
  checks_passed = suc r.checks_passed;
  checks_total = suc r.checks_total;
}
note_advice (some e) r = record r {
  warnings = r.warnings ++ e ∷ [];
  checks_total = suc r.checks_total;
}

abbrev pub new_result : String → String → ValidationResult
new_result name path = record {
  service_name = name;
  contract_file = path;
  passed = true;
  errors = [];
  warnings = [];
  checks_passed = 0;
  checks_failed = 0;
  checks_total = 0;
}

module _ (f : Float64) (V : Type 0) where
  -- LoadContract
  unfoldable pub load_contract : ContractHost f V → String → Result ContractError (Contract f V)
  load_contract host path = elim (host.read_file path) [
    | err e ↦ err (failed_to_read e)
    | ok text ↦ elim (host.unmarshal text) [
      | err e ↦ err (failed_to_parse e)
      | ok contract ↦ ok contract
    ]
  ]

  -- The comparison of the names.
  unfoldable pub check_name : String → Contract f V → ValidationResult → ValidationResult
  check_name name c r =
      if str_eq c.service name
      then r
      else record r { passed = false; errors = r.errors ++ name_mismatch name c.service ∷ [] }

  -- checkSignals
  unfoldable pub check_signals : Contract f V → Option ContractError
  check_signals c =
      if str_eq c.interfaces.signals.sigterm.behavior ""
      then some sigterm_not_defined
      else if str_eq c.interfaces.signals.sighup.behavior ""
      then some sighup_not_defined
      else none

  unfoldable pub has_interface : Contract f V → Bool
  has_interface c =
      not (str_eq c.interfaces.posix_mq.queue_name "")
      || (not (str_eq c.interfaces.network.tcp.bind_address "")
          || (not (str_eq c.interfaces.network.tcp.protocol "")
              || (c.interfaces.network.udp.broadcast.enabled
                  || (not (str_eq c.interfaces.filesystem.watch_directory.path "")
                      || not (str_eq c.interfaces.database.driver "")))))

  -- checkInterfaces
  unfoldable pub check_interfaces : Contract f V → Option ContractError
  check_interfaces c = if has_interface c then none else some no_interfaces

  -- x == 0
  abbrev pub is_zero : f.F → Bool
  is_zero x = f.le x (f.of_int (pos 0)) && f.le (f.of_int (pos 0)) x

  -- checkPerformance
  unfoldable pub check_performance : Contract f V → Option ContractError
  check_performance c =
      if is_zero c.performance.throughput_mbps.target then some throughput_not_defined else none

  -- ValidateService, for a contract that is loaded
  unfoldable pub run_checks :
      ContractHost f V → String → Contract f V → ValidationResult → ValidationResult
  run_checks host name c r =
      let checked = note_advice (check_performance c) (
        note_check (check_interfaces c) (
          note_check (check_signals c)
            (note_check (check_binary host.exists name) (check_name name c r)))) in
      record checked { checks_failed = checked.checks_total - checked.checks_passed }

  -- ValidateService, with the error that it returns
  unfoldable pub validate_service :
      ContractHost f V → String → String → ValidationResult × Option ContractError
  validate_service host name path = elim (load_contract host path) [
    | err e ↦ (record (new_result name path) { passed = false; errors = e ∷ [] }, some e)
    | ok c ↦ (run_checks host name c (new_result name path), none)
  ]

-- The table of GetContractPath.
abbrev pub contract_map : Dict String
contract_map =
    ("ingestion", "ingestion_contract.yaml")
    ∷ ("aggregation", "aggregation_contract.yaml")
    ∷ ("query", "query_contract.yaml")
    ∷ ("discovery", "discovery_contract.yaml")
    ∷ ("cli", "cli_contract.yaml")
    ∷ []

-- GetContractPath, up to filepath.Join
unfoldable pub get_contract_path : (String → String → String) → String → String
get_contract_path join name = elim (Dict.get contract_map name) [
  | some filename ↦ join "contracts" filename
  | none ↦ join "contracts" (name <> "_contract.yaml")
]
