-- ===== src/Chaos/Command.antt =====
-- The chaos command, runChaos of test-harness/pkg/cmd/chaos.go, which gives the engineer a new
-- service manager. Log lines and the printed results are left out.
use Prim.Native.String.{String}
use text.Mathlib.Text.{◌==◌ as str_eq}
use text.Mathlib.TextEquality.{eq_iff}
use linux_application_develo.Shared.{
  ℕ, ◌≡◌, ◌≢◌, Bool, ◌&&◌, Option, none, some, List, arith, if◌then◌else◌,
}
use linux_application_develo.Shared.Int.{ℤ}
use linux_application_develo.Shared.Dict
use linux_application_develo.Services.{Host, not_running, new_manager, stop, send_signal}
use linux_application_develo.Chaos.{
  ChaosError, Engineer, new_engineer, failed_to_kill, failed_to_stop, failed_to_signal, run_action,
  run_scenario, perform, action_kill, action_stop, action_restart, action_signal,
}
use linux_application_develo.Chaos.Adapter.{adapter}

-- chaosFlags
pub record ChaosFlags : Type 0 where
  pub scenario : String
  pub duration : ℤ
  pub target : String
  pub action : String

-- What the command returns: nil after a usage error; nil, with the engineer that has the results; or
-- the engineer's error.
pub data Outcome (host : Host) : Type 0 where
  usage : Outcome host
  completed : Engineer (adapter host) → Outcome host
  chaos_failed : ChaosError (adapter host) → Outcome host

abbrev outcome_of :
    (host : Host) → Option (ChaosError (adapter host)) → Engineer (adapter host) → Outcome host
outcome_of host none e = completed e
outcome_of host (some error) e = chaos_failed error

-- runChaos
unfoldable pub run_chaos : (host : Host) → (ℕ → Bool) → List Bool → ChaosFlags → Outcome host
run_chaos host done polls flags =
    let sm = adapter host in
    let ran =
      run_action sm (new_engineer sm) done flags.target flags.action flags.duration new_manager in
    if str_eq flags.scenario "" && str_eq flags.action ""
    then usage
    else if str_eq flags.scenario ""
    then (if str_eq flags.target "" then usage else outcome_of host ran.0 ran.1)
    else outcome_of host (run_scenario sm done polls flags.scenario new_manager).0 (new_engineer sm)

-- The actions that need a service.
pub data NeedsService : String → Type 0 where
  kill : NeedsService "kill"
  stops : NeedsService "stop"
  restart : NeedsService "restart"
  signal : NeedsService "signal"

-- An action's error that its target is not running.
pub data IsMissing (host : Host) (target : String) : ChaosError (adapter host) → Type 0 where
  missing_kill : IsMissing host target (failed_to_kill target (not_running target))
  missing_stop : IsMissing host target (failed_to_stop target (not_running target))
  missing_signal : IsMissing host target (failed_to_signal target (not_running target))

-- On a target, the command fails for each of its actions that needs a service, whatever services run
-- on the machine: the target is not running.
pub run_chaos_action :
    (host : Host) (done : ℕ → Bool) (polls : List Bool) (duration : ℤ) (target action : String)
    → target ≢ ""
    → NeedsService action
    → (e : ChaosError (adapter host)) × (run_chaos host done polls
          (record { scenario = ""; duration = duration; target = target; action = action })
        ≡ chaos_failed e)
      × IsMissing host target e
unfolding run_chaos run_action perform action_kill action_stop action_restart action_signal
    new_manager stop send_signal Dict.get
run_chaos_action host done polls duration target _ h kill =
    (failed_to_kill target (not_running target), ground (arith, h, eq_iff target ""), missing_kill)
run_chaos_action host done polls duration target _ h stops =
    (failed_to_stop target (not_running target), ground (arith, h, eq_iff target ""), missing_stop)
run_chaos_action host done polls duration target _ h restart =
    (failed_to_stop target (not_running target), ground (arith, h, eq_iff target ""), missing_stop)
run_chaos_action host done polls duration target _ h signal = (
  failed_to_signal target (not_running target),
  ground (arith, h, eq_iff target ""),
  missing_signal,
)
