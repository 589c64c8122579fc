-- ===== src/Chaos.antt =====
-- The chaos engineer of test-harness/pkg/chaos/engineer.go over its ServiceManager interface. A run's
-- context is the answers at its waits; clocks, pauses and log lines are left out.
pub mod Actions
pub mod Scenarios
pub mod Adapter
pub mod Command
mod Examples
use Prim.Native.String.{String}
use text.Mathlib.Text.{◌==◌ as str_eq}
use linux_application_develo.Shared.{
  ℕ, ◌≡◌, Bool, true, false, Option, none, some, List, [], ◌∷◌, ◌++◌, if◌then◌else◌, Result, ok,
  err,
}
use linux_application_develo.Shared.Int.{ℤ}

-- ServiceManager, as a state that its calls pass on. Start, which no scenario and no action calls, is
-- left out.
pub record ServiceManager : Type 1 where
  pub State : Type 0
  pub Error : Type 0
  pub stop : String → State → Option Error × State
  pub send_signal : String → ℕ → State → Option Error × State
  pub health_check : String → State → Result Error Bool × State
  pub has_service : String → State → Bool

-- What the chaos tests rely on: a service that was stopped without an error is gone, and no call
-- brings a service that was not there.
pub record IsLawful (sm : ServiceManager) : Type 0 where
  pub stop_removes :
      (name : String) (s : sm.State)
      → (sm.stop name s).0 ≡ none
      → sm.has_service name (sm.stop name s).1 ≡ false
  pub stop_adds_none :
      (name other : String) (s : sm.State)
      → sm.has_service other s ≡ false
      → sm.has_service other (sm.stop name s).1 ≡ false
  pub signal_adds_none :
      (name other : String) (sig : ℕ) (s : sm.State)
      → sm.has_service other s ≡ false
      → sm.has_service other (sm.send_signal name sig s).1 ≡ false
  pub health_adds_none :
      (name other : String) (s : sm.State)
      → sm.has_service other s ≡ false
      → sm.has_service other (sm.health_check name s).1 ≡ false

-- `syscall.SIGTERM`
abbrev pub sigterm : ℕ
sigterm = 15

module _ (sm : ServiceManager) where
  -- The errors of scenarios and actions.
  pub data ChaosError : Type 0 where
    unknown_scenario unknown_action : String → ChaosError
    leader_not_healthy : Option sm.Error → ChaosError
    failed_to_kill failed_to_stop failed_to_signal : String → sm.Error → ChaosError
    context_done : ChaosError

  -- Result, without the times. No scenario is ever written to it.
  pub record ChaosResult : Type 0 where
    pub action : String
    pub target : String
    pub duration : ℤ
    pub success : Bool
    pub error : Option ChaosError

  -- Engineer
  pub record Engineer : Type 0 where
    pub results : List ChaosResult

  -- NewEngineer
  unfoldable pub new_engineer : Engineer
  new_engineer = record { results = [] }

  -- The `select` of the k-th wait; `done k` says that the context was done.
  unfoldable pub wait : (ℕ → Bool) → ℕ → Option ChaosError
  wait done k = if done k then some context_done else none

  -- One wait after another.
  abbrev pub and_then : Option ChaosError → Option ChaosError → Option ChaosError
  and_then none next = next
  and_then (some e) next = some e

  -- The rest of an action after a call of the manager: its error, or the waits.
  abbrev pub after_call :
      (sm.Error → ChaosError)
      → Option ChaosError
      → Option sm.Error × sm.State
      → Option ChaosError × sm.State
  after_call wrap waits (none, s) = (waits, s)
  after_call wrap waits (some e, s) = (some (wrap e), s)

  -- actionKill
  unfoldable pub action_kill : (ℕ → Bool) → String → sm.State → Option ChaosError × sm.State
  action_kill done target s = after_call (failed_to_kill target) (wait done 0) (sm.stop target s)

  -- actionStop
  unfoldable pub action_stop : (ℕ → Bool) → String → sm.State → Option ChaosError × sm.State
  action_stop done target s =
      after_call (failed_to_stop target) (wait done 0) (sm.send_signal target sigterm s)

  -- actionRestart
  unfoldable pub action_restart : (ℕ → Bool) → String → sm.State → Option ChaosError × sm.State
  action_restart done target s =
      after_call (failed_to_stop target) (and_then (wait done 0) (wait done 1)) (sm.stop target s)

  -- actionSignal
  unfoldable pub action_signal : (ℕ → Bool) → String → ℕ → sm.State → Option ChaosError × sm.State
  action_signal done target sig s =
      after_call (failed_to_signal target) (wait done 0) (sm.send_signal target sig s)

  -- actionDelay
  unfoldable pub action_delay : (ℕ → Bool) → sm.State → Option ChaosError × sm.State
  action_delay done s = (wait done 0, s)

  -- The `switch` of RunAction.
  unfoldable pub perform : (ℕ → Bool) → String → String → sm.State → Option ChaosError × sm.State
  perform done target action s =
      if str_eq action "kill"
      then action_kill done target s
      else if str_eq action "stop"
      then action_stop done target s
      else if str_eq action "restart"
      then action_restart done target s
      else if str_eq action "signal"
      then action_signal done target sigterm s
      else if str_eq action "delay"
      then action_delay done s
      else (some (unknown_action action), s)

  abbrev pub is_success : Option ChaosError → Bool
  is_success none = true
  is_success (some _) = false

  -- RunAction
  unfoldable pub run_action :
      Engineer
      → (ℕ → Bool)
      → String
      → String
      → ℤ
      → sm.State
      → Option ChaosError × Engineer × sm.State
  run_action e done target action duration s =
      let (error, s') = perform done target action s in
      let result : ChaosResult = record {
        action = action;
        target = target;
        duration = duration;
        success = is_success error;
        error = error;
      } in
      (error, record { results = e.results ++ result ∷ [] }, s')

  -- GetResults
  unfoldable pub get_results : Engineer → List ChaosResult
  get_results e = e.results

  -- runLeaderFailover, after the check of the leader's health
  unfoldable pub fail_leader :
      (ℕ → Bool) → Result sm.Error Bool × sm.State → Option ChaosError × sm.State
  fail_leader done (err e, s) = (some (leader_not_healthy (some e)), s)
  fail_leader done (ok false, s) = (some (leader_not_healthy none), s)
  fail_leader done (ok true, s) =
      after_call (failed_to_kill "ingestion") (wait done 0) (sm.stop "ingestion" s)

  -- runLeaderFailover
  unfoldable pub run_leader_failover : (ℕ → Bool) → sm.State → Option ChaosError × sm.State
  run_leader_failover done s = fail_leader done (sm.health_check "ingestion" s)

  abbrev pub killed_services : List String
  killed_services = "ingestion" ∷ "s2_processor" ∷ "s3_api" ∷ "s4_cluster" ∷ []

  -- The inner loop of runServiceKill: the first service that exists is stopped, and an error logged.
  unfoldable pub kill_first : List String → sm.State → sm.State
  kill_first [] s = s
  kill_first (svc ∷ rest) s =
      let later = kill_first rest s in if sm.has_service svc s then (sm.stop svc s).1 else later

  -- runServiceKill over the polls of the context that it makes before its time is over.
  unfoldable pub run_service_kill : List Bool → sm.State → Option ChaosError × sm.State
  run_service_kill [] s = (none, s)
  run_service_kill (done ∷ polls) s =
      let later = run_service_kill polls (kill_first killed_services s) in
      if done then (some context_done, s) else later

  abbrev pub cascade_services : List String
  cascade_services = "s4_cluster" ∷ "s3_api" ∷ "s2_processor" ∷ "ingestion" ∷ []

  -- The body of the loop of runCascadingFailure, which logs an error.
  unfoldable pub stop_one : String → sm.State → sm.State
  stop_one svc s = if sm.has_service svc s then (sm.stop svc s).1 else s

  unfoldable pub stop_each : List String → sm.State → sm.State
  stop_each [] s = s
  stop_each (svc ∷ rest) s = stop_each rest (stop_one svc s)

  -- runCascadingFailure
  unfoldable pub run_cascading_failure : (ℕ → Bool) → sm.State → Option ChaosError × sm.State
  run_cascading_failure done s = (wait done 0, stop_each cascade_services s)

  -- runResourcePressure, whose signals are only logged
  unfoldable pub run_resource_pressure : (ℕ → Bool) → sm.State → Option ChaosError × sm.State
  run_resource_pressure done s = (and_then (wait done 0) (wait done 1), s)

  -- RunScenario; `polls` are those of runServiceKill.
  unfoldable pub run_scenario :
      (ℕ → Bool) → List Bool → String → sm.State → Option ChaosError × sm.State
  run_scenario done polls name s =
      if str_eq name "leader_failover"
      then run_leader_failover done s
      else if str_eq name "service_kill"
      then run_service_kill polls s
      else if str_eq name "cascading_failure"
      then run_cascading_failure done s
      else if str_eq name "resource_pressure"
      then run_resource_pressure done s
      else (some (unknown_scenario name), s)
