-- ===== src/Chaos/Adapter.antt =====
-- The service manager behind the chaos engineer's interface: chaosServiceManager of
-- test-harness/pkg/cmd/chaos.go.
use Prim.Native.String.{String}
use text.Mathlib.TextEquality.{eq_iff}
use linux_application_develo.Shared.{
  ◌≡◌, refl, ◌∙◌, Bool, true, false, Option, none, some, arith, inl, inr, Option-cases, Result, ok,
  err,
}
use linux_application_develo.Shared.Dict
use linux_application_develo.Shared.Dict.{get-put}
use linux_application_develo.Services.{
  Host, Manager, Service, ServiceError, HealthStatus, stop, health_of, health_check, send_signal,
  get_service,
}
use linux_application_develo.Services.Stops.{remaining, get_service-stop}
use linux_application_develo.Chaos.{ServiceManager, IsLawful}

abbrev pub is_healthy : Result ServiceError HealthStatus → Result ServiceError Bool
is_healthy (err e) = err e
is_healthy (ok status) = ok status.healthy

abbrev pub is_some : Option Service → Bool
is_some none = false
is_some (some _) = true

-- HealthCheck of the adapter
unfoldable pub check_health : Host → String → Manager → Result ServiceError Bool × Manager
check_health host name m = let (r, m') = health_check host m name in (is_healthy r, m')

-- chaosServiceManager
abbrev pub adapter : Host → ServiceManager
adapter host = record {
  State = Manager;
  Error = ServiceError;
  stop = λ name m. stop host m name;
  send_signal = λ name sig m. (send_signal host m name sig, m);
  health_check = check_health host;
  has_service = λ name m. is_some (get_service m name);
}

stop_succeeds :
    (host : Host) (m : Manager) (name : String)
    → (stop host m name).0 ≡ none
    → remaining host (get_service m name) ≡ none
unfolding stop get_service
stop_succeeds host m name h = elim (Option-cases (Dict.get m.services name)) [
  | inl e ↦ rw e refl
  | inr (service, e) ↦ ground (arith, e, h)
]

remaining_none :
    (host : Host) (o : Option Service) → is_some o ≡ false → is_some (remaining host o) ≡ false
remaining_none host none h = refl
remaining_none host (some service) h = absurd (ground (arith, h))

health_check_keeps :
    (host : Host) (m : Manager) (name other : String)
    → is_some (get_service (health_check host m name).1 other) ≡ is_some (get_service m other)
unfolding health_check get_service
health_check_keeps host m name other = elim (Option-cases (Dict.get m.services name)) [
  | inl e ↦ rw (e, health_check) refl
  | inr (service, e) ↦
      rw (e, health_check)
        (ground (
          arith,
          e,
          eq_iff name other,
          get-put m.services name other (record service { health = health_of host service.pid }),
        ))
]

stop_removes_lem :
    (host : Host) (name : String) (m : Manager)
    → (stop host m name).0 ≡ none
    → is_some (get_service (stop host m name).1 name) ≡ false
stop_removes_lem host name m h =
    ground (arith, get_service-stop host m name name, eq_iff name name, stop_succeeds host m name h)

stop_adds_none_lem :
    (host : Host) (name other : String) (m : Manager)
    → is_some (get_service m other) ≡ false
    → is_some (get_service (stop host m name).1 other) ≡ false
stop_adds_none_lem host name other m h =
    ground
      (arith, get_service-stop host m name other, h, remaining_none host (get_service m other) h)

-- The service manager has the laws that the chaos engineer relies on.
pub adapter-IsLawful : (host : Host) → IsLawful (adapter host)
unfolding check_health
adapter-IsLawful host = record {
  stop_removes = stop_removes_lem host;
  stop_adds_none = stop_adds_none_lem host;
  signal_adds_none = λ name other sig m h. h;
  health_adds_none = λ name other m h. health_check_keeps host m name other ∙ h;
}
