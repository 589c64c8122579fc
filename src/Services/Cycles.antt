-- ===== src/Services/Cycles.antt =====
-- What Start does, and a start followed by a stop.
use Prim.Native.String.{String}
use text.Mathlib.Text.{◌==◌ as str_eq}
use text.Mathlib.TextEquality.{eq_iff}
use linux_application_develo.Shared.{
  ℕ, ◌≡◌, refl, ap, ◌∙◌, false, none, some, arith, inl, inr, Option-cases, if◌then◌else◌, Result,
  ok, err,
}
use linux_application_develo.Shared.Dict
use linux_application_develo.Shared.Dict.{Dict, get-put, get-delete}
use linux_application_develo.Services.Stops.{get_service-stop}
use linux_application_develo.Services.{
  Host, Service, ServiceConfig, Manager, Started, started, already_running, binary_not_found,
  failed_to_start, arguments, binary_of, new_service, launch, start, stop, is_unkillable,
  get_service,
}

-- The ways in which Start ends, and what it leaves.
pub data IsStart (host : Host) (m : Manager) (name : String) (config : ServiceConfig)
    : Started × Manager → Type 0 where
  runs_already :
      {service : Service}
      → get_service m name ≡ some service
      → IsStart host m name config (already_running service, m)
  has_no_binary :
      get_service m name ≡ none
      → binary_of host name config ≡ none
      → IsStart host m name config (binary_not_found, m)
  is_refused :
      {binary e : String}
      → get_service m name ≡ none
      → binary_of host name config ≡ some binary
      → host.spawn binary (arguments config) ≡ err e
      → IsStart host m name config (failed_to_start e, m)
  is_started :
      {binary : String} {pid : ℕ} {after : Manager}
      → get_service m name ≡ none
      → binary_of host name config ≡ some binary
      → host.spawn binary (arguments config) ≡ ok pid
      → ((other : String)
          → get_service after other ≡ (
              if str_eq name other
              then some (new_service name binary config pid)
              else get_service m other))
      → IsStart host m name config (started (new_service name binary config pid), after)

launch-IsStart :
    (host : Host) (m : Manager) (name : String) (config : ServiceConfig) (binary : String)
    → get_service m name ≡ none
    → binary_of host name config ≡ some binary
    → (r : Result String ℕ) → host.spawn binary (arguments config) ≡ r
    → IsStart host m name config (launch host m name config binary)
unfolding launch get_service
launch-IsStart host m name config binary free found (err e) h =
    rw (h, launch) (is_refused free found h)
launch-IsStart host m name config binary free found (ok pid) h =
    rw (h, launch)
      (is_started free found h
        (λ other. get-put m.services name other (new_service name binary config pid)))

-- Start returns the service of that name with an error if there is one; else it fails, without a
-- change, if there is no binary or the process does not start; else it adds the service, which has
-- the process's id, under that name and leaves the others.
pub start-IsStart :
    (host : Host) (m : Manager) (name : String) (config : ServiceConfig)
    → IsStart host m name config (start host m name config)
unfolding start get_service
start-IsStart host m name config = elim (Option-cases (Dict.get m.services name)) [
  | inr (service, e) ↦ rw (e, start) (runs_already e)
  | inl e ↦ elim (Option-cases (binary_of host name config)) [
    | inl f ↦ rw (e, f, start) (has_no_binary e f)
    | inr (binary, f) ↦
        rw (e, f, start)
          (launch-IsStart host m name config binary e f (host.spawn binary (arguments config)) refl)
  ]
]

abbrev started_or : Service → Started → Service
started_or d (started service) = service
started_or d _ = d

started_adds :
    (host : Host) (m : Manager) (name : String) (config : ServiceConfig) (r : Started × Manager)
    → IsStart host m name config r
    → (service : Service) → r.0 ≡ started service
    → (get_service m name ≡ none)
      × ((other : String)
          → get_service r.1 other
            ≡ (if str_eq name other then some service else get_service m other))
started_adds host m name config _ (runs_already e) service h = absurd (ground (arith, h))
started_adds host m name config _ (has_no_binary e f) service h = absurd (ground (arith, h))
started_adds host m name config _ (is_refused e f g) service h = absurd (ground (arith, h))
started_adds host m name config _ (is_started {binary} {pid} free f g adds) service h = (
  free,
  λ other.
      adds other
      ∙ ap (λ s. if str_eq name other then some s else get_service m other)
          (ap (started_or (new_service name binary config pid)) h),
)

stops :
    (host : Host) (m : Manager) (name : String) (service : Service)
    → get_service m name ≡ some service
    → is_unkillable host service ≡ false
    → (stop host m name).0 ≡ none
unfolding stop get_service
stops host m name service e k = rw (e, stop) (ground (arith, k))

-- A service that Start started is stopped without an error if a signal reaches it, and then every
-- name has the service that it had before, if any.
pub stop-start :
    (host : Host) (m : Manager) (name : String) (config : ServiceConfig) (service : Service)
    → (start host m name config).0 ≡ started service
    → is_unkillable host service ≡ false
    → ((stop host (start host m name config).1 name).0 ≡ none)
      × ((other : String)
          → get_service (stop host (start host m name config).1 name).1 other ≡ get_service m other)
stop-start host m name config service h k =
    let r = start host m name config in
    let added = started_adds host m name config r (start-IsStart host m name config) service h in
    let found : get_service r.1 name ≡ some service =
      ground (arith, added.1 name, eq_iff name name) in
    (
      stops host r.1 name service found k,
      λ other.
          get_service-stop host r.1 name other
          ∙ ground (arith, added.0, added.1 other, eq_iff name other, found, k),
    )
