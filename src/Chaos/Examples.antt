-- ===== src/Chaos/Examples.antt =====
-- Chaos on a manager with two of the harness's services, and the theorems at it.
use Prim.Native.String.{String}
use text.Mathlib.TextEquality.{eq_iff}
use linux_application_develo.Shared.{
  ℕ, ◌≡◌, ◌≢◌, refl, Bool, true, false, none, some, [], ◌∷◌, ok, arith,
}
use linux_application_develo.Shared.Int.{pos}
use linux_application_develo.Shared.Dict
use linux_application_develo.Services.{Host, ServiceConfig, Manager, stop, new_service, get_service}
use linux_application_develo.Chaos.{
  ServiceManager, IsLawful, ChaosError, new_engineer, run_action, perform, action_restart, wait,
  unknown_action,
}
use linux_application_develo.Chaos.Actions.{IsRecorded, run_action-IsRecorded}
use linux_application_develo.Chaos.Adapter.{adapter, is_some, adapter-IsLawful}
use linux_application_develo.Chaos.Command.{
  run_chaos, chaos_failed, kill, IsMissing, run_chaos_action,
}

abbrev host : Host
host = record {
  exists = λ path. false;
  spawn = λ binary args. ok 3;
  terminate = λ pid. true;
  kill = λ pid. true;
  signal = λ pid sig. none;
  find_process = λ pid. true;
  is_alive = λ pid. true;
}

abbrev config : ServiceConfig
config = record { binary = "x"; config = ""; daemon = false; ports = [] }

abbrev two : Manager
two = record {
  services =
      ("ingestion", new_service "ingestion" "x" config 3)
      ∷ ("s3_api", new_service "s3_api" "x" config 4)
      ∷ [];
}

abbrev never : ℕ → Bool
never _ = false

restart_succeeds :
    (run_action (adapter host) (new_engineer (adapter host)) never "s3_api" "restart" (pos 5) two).0
    ≡ none
unfolding run_action perform action_restart stop wait Dict.get
restart_succeeds = refl

unknown :
    (run_action
      (adapter host)
      (new_engineer (adapter host))
      never
      "s3_api"
      "partition"
      (pos 5)
      two).0
    ≡ some (unknown_action "partition")
unfolding run_action perform
unknown = refl

run_action-IsRecorded_example :
    IsRecorded
      (adapter host)
      (new_engineer (adapter host))
      "s3_api"
      "restart"
      (pos 5)
      (run_action (adapter host) (new_engineer (adapter host)) never "s3_api" "restart" (pos 5) two)
run_action-IsRecorded_example =
    run_action-IsRecorded (adapter host) (new_engineer (adapter host)) never "s3_api" "restart"
      (pos 5) two

-- A manager whose state is a name and whether it has that service, which it always stops.
abbrev one : ServiceManager
one = record {
  State = Bool;
  Error = String;
  stop = λ name s. (none, false);
  send_signal = λ name sig s. (none, s);
  health_check = λ name s. (ok true, s);
  has_service = λ name s. s;
}

one_lawful : IsLawful one
one_lawful = record {
  stop_removes = λ name s h. refl;
  stop_adds_none = λ name other s h. refl;
  signal_adds_none = λ name other sig s h. h;
  health_adds_none = λ name other s h. h;
}

abbrev absent : is_some (get_service two "s4_cluster") ≡ false
unfolding get_service Dict.get
absent = refl

adapter-IsLawful_example : IsLawful (adapter host)
adapter-IsLawful_example = adapter-IsLawful host

abbrev target : String
target = "s3_api"

named : target ≢ ""
named h = absurd (ground (arith, h, eq_iff "s3_api" ""))

run_chaos_action_example :
    (e : ChaosError (adapter host)) × (run_chaos host never []
        (record { scenario = ""; duration = pos 5; target = "s3_api"; action = "kill" })
      ≡ chaos_failed e)
    × IsMissing host "s3_api" e
run_chaos_action_example = run_chaos_action host never [] (pos 5) "s3_api" "kill" named kill
