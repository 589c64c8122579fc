-- ===== src/Chaos/Actions.antt =====
-- What RunAction records, and what its actions leave of the services.
use Prim.Native.String.{String}
use linux_application_develo.Shared.{
  ℕ, ◌≡◌, ◌↔◌, refl, ap, Bool, true, false, Option, none, some, [], ◌∷◌, ◌++◌, arith,
}
use linux_application_develo.Shared.Int.{ℤ}
use linux_application_develo.Chaos.{
  ServiceManager, IsLawful, ChaosError, ChaosResult, Engineer, failed_to_stop, wait, and_then,
  after_call, action_restart, perform, is_success, run_action,
}

module _ (sm : ServiceManager) where
  -- What RunAction leaves in the engineer.
  pub record IsRecorded (e : Engineer sm) (target action : String) (duration : ℤ)
      (r : Option (ChaosError sm) × Engineer sm × sm.State) : Type 0 where
    pub result : ChaosResult sm
    pub results : r.1.results ≡ e.results ++ result ∷ []
    pub names : (result.action ≡ action) × (result.target ≡ target) × (result.duration ≡ duration)
    pub success : (result.success ≡ true) ↔ (r.0 ≡ none)
    pub error : result.error ≡ r.0

  success_iff : (o : Option (ChaosError sm)) → (is_success sm o ≡ true) ↔ (o ≡ none)
  success_iff none = (λ _. refl, λ _. refl)
  success_iff (some e) = (λ h. absurd (ground (arith, h)), λ h. absurd (ground (arith, h)))

  -- RunAction records one result, with its action, target and duration, which is a success exactly if
  -- it returns no error, and has that error.
  pub run_action-IsRecorded :
      (e : Engineer sm) (done : ℕ → Bool) (target action : String) (duration : ℤ) (s : sm.State)
      → IsRecorded e target action duration (run_action sm e done target action duration s)
  unfolding run_action
  run_action-IsRecorded e done target action duration s =
      let (error, s') = perform sm done target action s in
      record {
        result = record {
          action = action;
          target = target;
          duration = duration;
          success = is_success sm error;
          error = error;
        };
        results = refl;
        names = (refl, refl, refl);
        success = success_iff error;
        error = refl;
      }

  module _ (lawful : IsLawful sm) where
    stopped :
        (wrap : sm.Error → ChaosError sm) (waits : Option (ChaosError sm)) (target : String)
        (s : sm.State)
        → (after_call sm wrap waits (sm.stop target s)).0 ≡ none
        → sm.has_service target (after_call sm wrap waits (sm.stop target s)).1 ≡ false
    stopped wrap waits target s h = go (sm.stop target s) refl h
      where
        go :
            (r : Option sm.Error × sm.State)
            → sm.stop target s ≡ r
            → (after_call sm wrap waits r).0 ≡ none
            → sm.has_service target (after_call sm wrap waits r).1 ≡ false
        go (none, s') e k =
            rw e at (lawful.stop_removes target s (ap (λ (p : Option sm.Error × sm.State). p.0) e))
        go (some x, s') e k = absurd (ground (arith, k))

    -- With a lawful manager, a restart that succeeds leaves its target stopped.
    pub run_action_restart :
        (e : Engineer sm) (done : ℕ → Bool) (target : String) (duration : ℤ) (s : sm.State)
        → (run_action sm e done target "restart" duration s).0 ≡ none
        → sm.has_service target (run_action sm e done target "restart" duration s).2 ≡ false
    unfolding run_action perform action_restart
    run_action_restart e done target duration s h =
        stopped (failed_to_stop target) (and_then sm (wait sm done 0) (wait sm done 1)) target s h
