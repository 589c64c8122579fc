-- ===== src/Services/Examples.antt =====
-- A manager on a machine with one binary, and the theorems at it.
use Prim.Native.String.{String}
use text.Mathlib.Text.{◌==◌ as str_eq}
use linux_application_develo.Shared.{◌≡◌, refl, true, false, none, some, [], ◌∷◌, ◌==◌, ok}
use linux_application_develo.Shared.Dict
use linux_application_develo.Services.{
  Host, Service, ServiceConfig, Manager, new_manager, first_existing, find_binary, arguments,
  binary_of, new_service, started, launch, start, stop, names_of, stop_names, stop_all, get_service,
  is_unkillable, get_service_names, health_of, health_check, send_signal, not_running,
}
use linux_application_develo.Services.Stops.{remaining, get_service-stop_all}
use linux_application_develo.Services.Cycles.{stop-start}

-- Only process 3 takes signals.
abbrev host : Host
host = record {
  exists = λ path. str_eq path "./bin/ws-api";
  spawn = λ binary args. ok 3;
  terminate = λ pid. pid == 3;
  kill = λ pid. pid == 3;
  signal = λ pid sig. none;
  find_process = λ pid. true;
  is_alive = λ pid. pid == 3;
}

abbrev config : ServiceConfig
config = record { binary = ""; config = "a.conf"; daemon = true; ports = [] }

abbrev api : Service
api = new_service "api" "./bin/ws-api" config 3

abbrev stuck : Service
stuck = new_service "stuck" "/bin/sleep" config 7

abbrev both : Manager
both = record { services = ("api", api) ∷ ("stuck", stuck) ∷ [] }

starts :
    start host new_manager "api" config ≡ (started api, record { services = ("api", api) ∷ [] })
unfolding start launch new_manager binary_of find_binary first_existing arguments new_service
    Dict.get Dict.put
starts = refl

stops_all : stop_all host both ≡ record { services = ("stuck", stuck) ∷ [] }
unfolding stop_all stop_names names_of stop new_service Dict.get Dict.delete
stops_all = refl

stuck_health :
    (health_check host both "stuck").0
    ≡ ok (record { healthy = false; message = "process not responding" })
unfolding health_check health_of new_service Dict.get
stuck_health = refl

missing_signal : send_signal host new_manager "api" 15 ≡ some (not_running "api")
unfolding send_signal new_manager Dict.get
missing_signal = refl

names : get_service_names both ≡ "api" ∷ "stuck" ∷ []
unfolding get_service_names names_of
names = refl

get_service-stop_all_example :
    get_service (stop_all host both) "stuck" ≡ remaining host (get_service both "stuck")
get_service-stop_all_example = get_service-stop_all host both "stuck"

abbrev started_api : (start host new_manager "api" config).0 ≡ started api
unfolding start launch new_manager binary_of find_binary first_existing arguments new_service
    Dict.get Dict.put
started_api = refl

abbrev killable : is_unkillable host api ≡ false
unfolding new_service
killable = refl

stop-start_example :
    ((stop host (start host new_manager "api" config).1 "api").0 ≡ none)
    × ((other : String)
        → get_service (stop host (start host new_manager "api" config).1 "api").1 other
          ≡ get_service new_manager other)
stop-start_example = stop-start host new_manager "api" config api started_api killable
