-- ===== src/Services/Stops.antt =====
-- Which services are left by Stop and by StopAll.
use Prim.Native.String.{String}
use text.Mathlib.Text.{◌==◌ as str_eq}
use text.Mathlib.TextEquality.{eq_iff}
use linux_application_develo.Shared.{
  ◌≡◌, refl, ◌∙◌, Bool, false, ◌||◌, Option, none, some, List, [], ◌∷◌, arith, inl, inr, Bool-cases,
  Option-cases, if◌then◌else◌,
}
use linux_application_develo.Shared.Dict
use linux_application_develo.Shared.Dict.{Dict, get-delete}
use linux_application_develo.Services.{
  Host, Service, Manager, is_unkillable, stop, names_of, stop_names, stop_all, get_service,
}

-- A service stays if no signal reaches it.
abbrev pub remaining : Host → Option Service → Option Service
remaining host none = none
remaining host (some service) = if is_unkillable host service then some service else none

abbrev is_among : String → List String → Bool
is_among name [] = false
is_among name (k ∷ rest) = str_eq k name || is_among name rest

remaining_twice :
    (host : Host) (o : Option Service) → remaining host (remaining host o) ≡ remaining host o
remaining_twice host none = refl
remaining_twice host (some service) = ground arith

-- After Stop, the service of that name is left only if no signal reaches it; the others stay.
pub get_service-stop :
    (host : Host) (m : Manager) (k name : String)
    → get_service (stop host m k).1 name
      ≡ (if str_eq k name then remaining host (get_service m name) else get_service m name)
unfolding stop get_service
get_service-stop host m k name = elim (Option-cases (Dict.get m.services k)) [
  | inl e ↦ rw (e, stop) (ground (arith, e, eq_iff k name))
  | inr (service, e) ↦ rw (e, stop) (ground (arith, e, eq_iff k name, get-delete m.services k name))
]

get_service-stop_names :
    (host : Host) (m : Manager) (names : List String) (name : String)
    → get_service (stop_names host m names) name
      ≡ (if is_among name names then remaining host (get_service m name) else get_service m name)
unfolding stop_names
get_service-stop_names host m [] name = refl
get_service-stop_names host m (k ∷ rest) name =
    get_service-stop_names host (stop host m k).1 rest name
    ∙ ground (arith, get_service-stop host m k name, remaining_twice host (get_service m name))

unlisted :
    (services : Dict Service) (name : String)
    → is_among name (names_of services) ≡ false
    → Dict.get services name ≡ none
unfolding names_of Dict.get
unlisted [] name h = refl
unlisted ((k, service) ∷ rest) name h = ground (arith, h, unlisted rest name)

-- After StopAll, exactly those services are left that no signal reaches.
pub get_service-stop_all :
    (host : Host) (m : Manager) (name : String)
    → get_service (stop_all host m) name ≡ remaining host (get_service m name)
unfolding stop_all
get_service-stop_all host m name = elim (Bool-cases (is_among name (names_of m.services))) [
  | inl e ↦ get_service-stop_names host m (names_of m.services) name ∙ rw e refl
  | inr e ↦
      get_service-stop_names host m (names_of m.services) name
      ∙ rw e (unfold get_service in rw (unlisted m.services name e) refl)
]
