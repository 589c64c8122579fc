-- ===== src/Services.antt =====
-- The service manager of test-harness/pkg/services/manager.go: the map of running services through
-- Start, Stop, StopAll and HealthCheck. Processes and files are the host's; log lines, start times and
-- pauses are left out.
pub mod Searches
pub mod Stops
pub mod Cycles
mod Examples
use Prim.Native.String.{String, ◌++◌ as ◌<>◌}
use text.Mathlib.Text.{◌==◌ as str_eq}
use linux_application_develo.Shared.{
  ℕ, Bool, true, false, not, ◌&&◌, Option, none, some, List, [], ◌∷◌, ◌++◌, if◌then◌else◌, Result,
  ok, err,
}
use linux_application_develo.Shared.Int.{ℤ}
use linux_application_develo.Shared.Dict
use linux_application_develo.Shared.Dict.{Dict}

-- What the manager asks of the machine: os.Stat; the start of a binary with arguments, which gives a
-- process id or an error; SIGTERM, SIGKILL and any other signal to a process, and whether each is
-- delivered; os.FindProcess; and signal 0, which tells a live process. An answer
-- depends on the arguments alone: a theorem about several calls is about a machine that answers alike
-- at each, whichever it is.
pub record Host : Type 0 where
  pub exists : String → Bool
  pub spawn : String → List String → Result String ℕ
  pub terminate : ℕ → Bool
  pub kill : ℕ → Bool
  pub signal : ℕ → ℕ → Option String
  pub find_process : ℕ → Bool
  pub is_alive : ℕ → Bool

-- HealthStatus
pub record HealthStatus : Type 0 where
  pub healthy : Bool
  pub message : String

-- Service
pub record Service : Type 0 where
  pub name : String
  pub binary : String
  pub config : String
  pub pid : ℕ
  pub health : HealthStatus
  pub ports : Dict ℤ

-- ServiceConfig
pub record ServiceConfig : Type 0 where
  pub binary : String
  pub config : String
  pub daemon : Bool
  pub ports : Dict ℤ

-- Manager
pub record Manager : Type 0 where
  pub services : Dict Service

-- NewManager
unfoldable pub new_manager : Manager
new_manager = record { services = [] }

-- The first path that exists.
unfoldable pub first_existing : Host → List String → Option String
first_existing host [] = none
first_existing host (path ∷ rest) =
    let later = first_existing host rest in if host.exists path then some path else later

abbrev pub search_paths : String → List String
search_paths name =
    ("../../services/" <> name <> "/" <> name)
    ∷ ("../services/" <> name <> "/" <> name)
    ∷ ("./services/" <> name <> "/" <> name)
    ∷ ("./services/" <> name <> "/bin/" <> name)
    ∷ ("./bin/" <> name)
    ∷ ("./" <> name)
    ∷ ("/usr/local/bin/" <> name)
    ∷ []

abbrev pub alt_paths : String → String → List String
alt_paths name alt_name =
    ("../services/" <> name <> "/" <> alt_name)
    ∷ ("./services/" <> name <> "/" <> alt_name)
    ∷ ("./services/" <> name <> "/bin/" <> alt_name)
    ∷ ("./bin/" <> alt_name)
    ∷ ("./" <> alt_name)
    ∷ ("/usr/local/bin/" <> alt_name)
    ∷ []

abbrev pub or_search : Option String → Option String → Option String
or_search none later = later
or_search (some path) _ = some path

-- findBinary; none is the empty path.
unfoldable pub find_binary : Host → String → Option String
find_binary host name = or_search (first_existing host (search_paths name)) (
    or_search (first_existing host (alt_paths name ("ws-" <> name)))
      (first_existing host (alt_paths name ("ws_" <> name))))

-- What Start returns: the service that it started, the one that runs already, with an error, or an
-- error.
pub data Started : Type 0 where
  started : Service → Started
  already_running : Service → Started
  binary_not_found : Started
  failed_to_start : String → Started

-- The arguments of the command.
unfoldable pub arguments : ServiceConfig → List String
arguments config =
    (if str_eq config.config "" then [] else "--config" ∷ config.config ∷ [])
    ++ (if config.daemon then "--daemon" ∷ [] else [])

unfoldable pub binary_of : Host → String → ServiceConfig → Option String
binary_of host name config =
    if str_eq config.binary "" then find_binary host name else some config.binary

unfoldable pub new_service : String → String → ServiceConfig → ℕ → Service
new_service name binary config pid = record {
  name = name;
  binary = binary;
  config = config.config;
  pid = pid;
  health = record { healthy = true; message = "started" };
  ports = config.ports;
}

-- The steps of Start from the command on.
unfoldable pub launch : Host → Manager → String → ServiceConfig → String → Started × Manager
launch host m name config binary = elim (host.spawn binary (arguments config)) [
  | err e ↦ (failed_to_start e, m)
  | ok pid ↦
      let service = new_service name binary config pid in
      (started service, record m { services = Dict.put m.services name service })
]

-- Start
unfoldable pub start : Host → Manager → String → ServiceConfig → Started × Manager
start host m name config = elim (Dict.get m.services name) [
  | some service ↦ (already_running service, m)
  | none ↦ elim (binary_of host name config) [
    | none ↦ (binary_not_found, m)
    | some binary ↦ launch host m name config binary
  ]
]

-- The errors of Stop, HealthCheck and SendSignal.
pub data ServiceError : Type 0 where
  not_running : String → ServiceError
  not_found : String → ServiceError
  failed_to_kill : String → ServiceError
  not_delivered : String → ServiceError

-- Neither SIGTERM nor SIGKILL reaches the process.
abbrev pub is_unkillable : Host → Service → Bool
is_unkillable host service = not (host.terminate service.pid) && not (host.kill service.pid)

-- Stop; it waits for the process, kills it after ten seconds, and forgets the service.
unfoldable pub stop : Host → Manager → String → Option ServiceError × Manager
stop host m name = elim (Dict.get m.services name) [
  | none ↦ (some (not_running name), m)
  | some service ↦
      if is_unkillable host service
      then (some (failed_to_kill name), m)
      else (none, record m { services = Dict.delete m.services name })
]

unfoldable pub names_of : Dict Service → List String
names_of [] = []
names_of ((name, _) ∷ rest) = name ∷ names_of rest

-- The loop of StopAll, which logs an error and goes on.
unfoldable pub stop_names : Host → Manager → List String → Manager
stop_names host m [] = m
stop_names host m (name ∷ rest) = stop_names host (stop host m name).1 rest

-- StopAll
unfoldable pub stop_all : Host → Manager → Manager
stop_all host m = stop_names host m (names_of m.services)

-- GetService
unfoldable pub get_service : Manager → String → Option Service
get_service m name = Dict.get m.services name

-- GetServiceNames
unfoldable pub get_service_names : Manager → List String
get_service_names m = names_of m.services

-- What HealthCheck finds of a process.
unfoldable pub health_of : Host → ℕ → HealthStatus
health_of host pid =
    if not (host.find_process pid)
    then record { healthy = false; message = "process not found" }
    else if not (host.is_alive pid)
    then record { healthy = false; message = "process not responding" }
    else record { healthy = true; message = "running" }

-- HealthCheck
unfoldable pub health_check : Host → Manager → String → Result ServiceError HealthStatus × Manager
health_check host m name = elim (Dict.get m.services name) [
  | none ↦ (err (not_found name), m)
  | some service ↦
      let health = health_of host service.pid in
      (
        ok health,
        record m { services = Dict.put m.services name (record service { health = health }) },
      )
]

abbrev pub delivered : Option String → Option ServiceError
delivered none = none
delivered (some e) = some (not_delivered e)

-- SendSignal
unfoldable pub send_signal : Host → Manager → String → ℕ → Option ServiceError
send_signal host m name sig = elim (Dict.get m.services name) [
  | none ↦ some (not_running name)
  | some service ↦ delivered (host.signal service.pid sig)
]
