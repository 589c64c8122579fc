-- ===== src/Contracts/Conditions.antt =====
-- What the four checks of ValidateService ask for, in terms of the contract and the machine.
use Prim.Native.String.{String, ◌++◌ as ◌<>◌}
use text.Mathlib.Text.{◌==◌ as str_eq}
use text.Mathlib.TextEquality.{eq_iff}
use linux_application_develo.Shared.{
  ◌⊎◌, not, ◌||◌, ◌≡◌, ◌≢◌, ◌↔◌, refl, Bool, true, false, ◌&&◌, Option, none, some, arith, inl, inr,
}
use linux_application_develo.Shared.Float.{Float64}
use linux_application_develo.Shared.Int.{pos}
use linux_application_develo.Contracts.Types.{Contract}
use linux_application_develo.Contracts.{
  ContractHost, ContractError, binary_paths, any_exists, check_binary, check_signals, has_interface,
  check_interfaces, check_performance,
}

abbrev pub is_ok : Option ContractError → Bool
is_ok none = true
is_ok (some e) = false

-- A file exists at one of the six places where a service's binary may stand.
abbrev pub HasBinary : (String → Bool) → String → Type 0
HasBinary exists name =
    (exists ("../../services/" <> name <> "/" <> name) ≡ true)
    ⊎ ((exists ("../services/" <> name <> "/" <> name) ≡ true)
        ⊎ ((exists ("./services/" <> name <> "/" <> name) ≡ true)
            ⊎ ((exists ("./services/" <> name <> "/ws-" <> name) ≡ true)
                ⊎ ((exists ("./" <> name) ≡ true) ⊎ (exists ("/usr/local/bin/" <> name) ≡ true)))))

or_iff :
    {P Q : Type 0} (a b : Bool) → ((a ≡ true) ↔ P) → ((b ≡ true) ↔ Q) → ((a || b) ≡ true) ↔ (P ⊎ Q)
or_iff true b h k = (λ _. inl (h.0 refl), λ _. refl)
or_iff false b h k =
    (λ e. inr (k.0 e), elim [ inl p ↦ absurd (ground (arith, h.1 p)) | inr q ↦ k.1 q ])

is_set : (s : String) → (not (str_eq s "") ≡ true) ↔ (s ≢ "")
is_set s = ground (arith, eq_iff s "")

any_exists_iff :
    (exists : String → Bool) (name : String)
    → (any_exists exists (binary_paths name) ≡ true) ↔ HasBinary exists name
unfolding any_exists
any_exists_iff exists name = ground arith

module _ (f : Float64) (V : Type 0) where
  -- SIGTERM and SIGHUP have a behaviour.
  abbrev pub HasSignals : Contract f V → Type 0
  HasSignals c =
      (c.interfaces.signals.sigterm.behavior ≢ "") × (c.interfaces.signals.sighup.behavior ≢ "")

  -- One of the six interfaces is there.
  abbrev pub HasInterface : Contract f V → Type 0
  HasInterface c =
      (c.interfaces.posix_mq.queue_name ≢ "")
      ⊎ ((c.interfaces.network.tcp.bind_address ≢ "")
          ⊎ ((c.interfaces.network.tcp.protocol ≢ "")
              ⊎ ((c.interfaces.network.udp.broadcast.enabled ≡ true)
                  ⊎ ((c.interfaces.filesystem.watch_directory.path ≢ "")
                      ⊎ (c.interfaces.database.driver ≢ "")))))

  -- The throughput target is not equal to 0.
  abbrev pub HasTarget : Contract f V → Type 0
  HasTarget c =
      (f.le c.performance.throughput_mbps.target (f.of_int (pos 0))
        && f.le (f.of_int (pos 0)) c.performance.throughput_mbps.target)
      ≡ false

  pub binary_iff :
      (host : ContractHost f V) (name : String)
      → (is_ok (check_binary host.exists name) ≡ true) ↔ HasBinary host.exists name
  unfolding check_binary
  binary_iff host name =
      let (to, from) = any_exists_iff host.exists name in
      (λ h. to (ground (arith, h)), λ h. ground (arith, from h))

  pub signals_iff : (c : Contract f V) → (is_ok (check_signals f V c) ≡ true) ↔ HasSignals c
  unfolding check_signals
  signals_iff c = ground (
    arith,
    eq_iff c.interfaces.signals.sigterm.behavior "",
    eq_iff c.interfaces.signals.sighup.behavior "",
  )

  has_interface_iff : (c : Contract f V) → (has_interface f V c ≡ true) ↔ HasInterface c
  unfolding has_interface
  has_interface_iff c = or_iff _ _ (is_set _) (
      or_iff _ _ (is_set _)
        (or_iff _ _ (is_set _) (or_iff _ _ (λ h. h, λ h. h) (or_iff _ _ (is_set _) (is_set _)))))

  pub interface_iff : (c : Contract f V) → (is_ok (check_interfaces f V c) ≡ true) ↔ HasInterface c
  unfolding check_interfaces
  interface_iff c =
      let (to, from) = has_interface_iff c in
      (λ h. to (ground (arith, h)), λ h. ground (arith, from h))

  pub performance_iff : (c : Contract f V) → (is_ok (check_performance f V c) ≡ true) ↔ HasTarget c
  unfolding check_performance
  performance_iff c = ground arith
