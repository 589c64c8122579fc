-- ===== src/Chaos/Scenarios.antt =====
-- What the scenarios leave of the services.
use Prim.Native.String.{String}
use linux_application_develo.Shared.{
  ℕ, ◌≡◌, refl, Bool, true, false, Option, none, some, List, [], ◌∷◌, All, arith, inl, inr,
  Bool-cases, Result, ok, err,
}
use linux_application_develo.Chaos.{
  ServiceManager, IsLawful, ChaosError, failed_to_kill, wait, after_call, fail_leader,
  run_leader_failover, killed_services, kill_first, run_service_kill, cascade_services, stop_one,
  stop_each, run_cascading_failure, run_resource_pressure, run_scenario,
}

module _ (sm : ServiceManager) (lawful : IsLawful sm) where
  abbrev Lacks : String → sm.State → Type 0
  Lacks other s = sm.has_service other s ≡ false

  after_call_state :
      (wrap : sm.Error → ChaosError sm) (waits : Option (ChaosError sm))
      (r : Option sm.Error × sm.State)
      → (after_call sm wrap waits r).1 ≡ r.1
  after_call_state wrap waits (none, s) = refl
  after_call_state wrap waits (some e, s) = refl

  kill_first-Lacks :
      (other : String) (names : List String) (s : sm.State)
      → Lacks other s
      → Lacks other (kill_first sm names s)
  unfolding kill_first
  kill_first-Lacks other [] s h = h
  kill_first-Lacks other (svc ∷ rest) s h = elim (Bool-cases (sm.has_service svc s)) [
    | inl e ↦ rw e (lawful.stop_adds_none svc other s h)
    | inr e ↦ rw e (kill_first-Lacks other rest s h)
  ]

  run_service_kill-Lacks :
      (other : String) (polls : List Bool) (s : sm.State)
      → Lacks other s
      → Lacks other (run_service_kill sm polls s).1
  unfolding run_service_kill
  run_service_kill-Lacks other [] s h = h
  run_service_kill-Lacks other (true ∷ polls) s h = h
  run_service_kill-Lacks other (false ∷ polls) s h =
      run_service_kill-Lacks other polls (kill_first sm (killed_services sm) s)
        (kill_first-Lacks other (killed_services sm) s h)

  stop_one-Lacks :
      (other svc : String) (s : sm.State) → Lacks other s → Lacks other (stop_one sm svc s)
  unfolding stop_one
  stop_one-Lacks other svc s h = ground (arith, h, lawful.stop_adds_none svc other s h)

  stop_each-Lacks :
      (other : String) (names : List String) (s : sm.State)
      → Lacks other s
      → Lacks other (stop_each sm names s)
  unfolding stop_each
  stop_each-Lacks other [] s h = h
  stop_each-Lacks other (svc ∷ rest) s h =
      stop_each-Lacks other rest (stop_one sm svc s) (stop_one-Lacks other svc s h)

  fail_leader-Lacks :
      (other : String) (done : ℕ → Bool) (r : Result sm.Error Bool × sm.State)
      → Lacks other r.1
      → Lacks other (fail_leader sm done r).1
  unfolding fail_leader
  fail_leader-Lacks other done (err e, s) h = h
  fail_leader-Lacks other done (ok false, s) h = h
  fail_leader-Lacks other done (ok true, s) h =
      rw (after_call_state (failed_to_kill "ingestion") (wait sm done 0) (sm.stop "ingestion" s))
        (lawful.stop_adds_none "ingestion" other s h)

  -- With a lawful manager, no scenario brings back a service that is not there.
  pub run_scenario-Lacks :
      (done : ℕ → Bool) (polls : List Bool) (name other : String) (s : sm.State)
      → Lacks other s
      → Lacks other (run_scenario sm done polls name s).1
  unfolding run_scenario run_leader_failover run_cascading_failure run_resource_pressure
  run_scenario-Lacks done polls name other s h = ground (
    arith,
    fail_leader-Lacks other done (sm.health_check "ingestion" s)
        (lawful.health_adds_none "ingestion" other s h),
    run_service_kill-Lacks other polls s h,
    stop_each-Lacks other (cascade_services sm) s h,
  )

  -- Stop never fails.
  abbrev pub StopsAll : Type 0
  StopsAll = (name : String) (s : sm.State) → (sm.stop name s).0 ≡ none

  stop_one_all : StopsAll → (svc : String) (s : sm.State) → Lacks svc (stop_one sm svc s)
  unfolding stop_one
  stop_one_all stops svc s = ground (arith, lawful.stop_removes svc s (stops svc s))

  stop_each-All :
      StopsAll
      → (names : List String) (s : sm.State) → All (λ name. Lacks name (stop_each sm names s)) names
  unfolding stop_each
  stop_each-All stops [] s = tt
  stop_each-All stops (svc ∷ rest) s = (
    stop_each-Lacks svc rest (stop_one sm svc s) (stop_one_all stops svc s),
    stop_each-All stops rest (stop_one sm svc s),
  )

  -- With a lawful manager whose stops do not fail, the cascading failure leaves none of its four
  -- services.
  pub run_cascading_failure-Lacks :
      StopsAll
      → (done : ℕ → Bool) (s : sm.State)
      → All
          (λ name. sm.has_service name (run_cascading_failure sm done s).1 ≡ false)
          (cascade_services sm)
  unfolding run_cascading_failure
  run_cascading_failure-Lacks stops done s = stop_each-All stops (cascade_services sm) s
