-- ===== src/Contracts/Examples.antt =====
-- A contract that is met but for its throughput target, and the theorems at it.
use Prim.Native.String.{String}
use text.Mathlib.Text.{◌==◌ as str_eq}
use linux_application_develo.Shared.{
  ◌≡◌, ◌≢◌, refl, true, false, none, some, [], ◌∷◌, ok, err, if◌then◌else◌,
}
use linux_application_develo.Shared.Float.{fixed}
use linux_application_develo.Shared.Int.{pos}
use linux_application_develo.Shared.Dict
use linux_application_develo.Services
use linux_application_develo.Services.{find_binary}
use linux_application_develo.Contracts.Types.{
  SignalHandler, MetricConfig, DirectoryConfig, Contract,
}
use linux_application_develo.Contracts.{
  ContractHost, failed_to_read, validate_service, load_contract, run_checks, new_result,
  check_binary, any_exists, check_name, note_check, note_advice, check_signals, check_interfaces,
  has_interface, check_performance, throughput_not_defined, get_contract_path,
}
use linux_application_develo.Contracts.Checks.{IsValidation, run_checks-IsValidation}
use linux_application_develo.Contracts.Binaries.{check_binary-find_binary}

abbrev handler : SignalHandler
handler = record {
  behavior = "exit";
  timeout_seconds = pos 5;
  expected_exit_code = pos 0;
  expected_log_message = "";
  expected_action = "";
}

abbrev directory : DirectoryConfig
directory = record { path = ""; events = [] }

abbrev metric : MetricConfig fixed
metric = record { target = 0; minimum = 0; maximum = 0 }

abbrev contract : Contract fixed String
contract = record {
  service = "api";
  version = "1";
  description = "";
  interfaces = record {
    signals = record { sigterm = handler; sighup = handler; sigusr1 = handler; sigusr2 = handler };
    posix_mq = record { queue_name = ""; message_format = [] };
    filesystem = record {
      watch_directory = directory;
      processed_directory = directory;
      error_directory = directory;
    };
    database = record {
      driver = "sqlite";
      tables_written = [];
      tables_read = [];
      wal_mode = "";
      isolation = "";
      read_only = false;
    };
    network = record {
      tcp = record { bind_address = ""; port = pos 0; protocol = "" };
      udp = record {
        broadcast = record { enabled = false; port = pos 0; interval_seconds = pos 0 };
      };
    };
  };
  performance = record {
    throughput_mbps = metric;
    latency_first_record_seconds = metric;
    memory_max_mb = metric;
    query_latency_ms = metric;
    concurrent_connections = metric;
  };
  requirements = [];
}

abbrev host : ContractHost fixed String
host = record {
  read_file = λ path.
      if str_eq path "contracts/api_contract.yaml" then ok "service: api" else err "no such file";
  unmarshal = λ text. ok contract;
  exists = λ path. str_eq path "./api";
}

abbrev machine : Services.Host
machine = record {
  exists = λ path. str_eq path "./services/api/ws-api";
  spawn = λ binary args. ok 3;
  terminate = λ pid. true;
  kill = λ pid. true;
  signal = λ pid sig. none;
  find_process = λ pid. true;
  is_alive = λ pid. true;
}

validates : validate_service fixed String host "api" "contracts/api_contract.yaml" ≡ (
  record {
    service_name = "api";
    contract_file = "contracts/api_contract.yaml";
    passed = true;
    errors = [];
    warnings = throughput_not_defined ∷ [];
    checks_passed = 3;
    checks_failed = 1;
    checks_total = 4;
  },
  none,
)
unfolding validate_service load_contract run_checks note_check note_advice check_name check_binary
    any_exists check_signals check_interfaces has_interface check_performance
validates = refl

unread : (validate_service fixed String host "cli" "x").1 ≡ some (failed_to_read "no such file")
unfolding validate_service load_contract
unread = refl

path_of : get_contract_path (λ dir file. file) "new" ≡ "new_contract.yaml"
unfolding get_contract_path Dict.get
path_of = refl

run_checks-IsValidation_example :
    IsValidation fixed String host "api" contract
      (run_checks fixed String host "api" contract (new_result "api" "contracts/api_contract.yaml"))
run_checks-IsValidation_example =
    run_checks-IsValidation fixed String host "api" "contracts/api_contract.yaml" contract

has_binary : check_binary machine.exists "api" ≡ none
unfolding check_binary any_exists
has_binary = refl

check_binary-find_binary_example : find_binary machine "api" ≢ none
check_binary-find_binary_example = check_binary-find_binary machine "api" has_binary
