-- ===== src/Runtime/Embodiment.antt =====
-- sovereign-runtime/src/power.rs and embodiment.rs: what a power state allows, and the stub
-- embodiment that obeys the verdicts of the safety supervisor.
use sovereign_stack.Base.{
  ℕ, ◌≡◌, ◌↔◌, Bool, true, false, not, ◌&&◌, ◌||◌, Option, none, some, List, Text, eqb, find?, ltb,
  Result, ok, err, arith,
}
use sovereign_stack.Runtime.Safety.{
  Reason, SafetyVerdict, SafetyCommand, SafetySupervisor, clear, conditional, blocked, halt,
  is_clear, evaluate,
}
use sovereign_stack.Runtime.Safety.Verdicts.{Passes, evaluate-Passes}

pub data PowerSource : Type 0 where
  mains battery solar poe usb unknown : PowerSource

pub data PowerState : Type 0 where
  full_power normal conservation low_battery suspend hibernate : PowerState

unfoldable allows_gpu : PowerState → Bool
allows_gpu full_power = true
allows_gpu normal = true
allows_gpu _ = false

unfoldable allows_camera : PowerState → Bool
allows_camera suspend = false
allows_camera hibernate = false
allows_camera _ = true

unfoldable allows_sensors : PowerState → Bool
allows_sensors hibernate = false
allows_sensors _ = true

unfoldable allows_network : PowerState → Bool
allows_network hibernate = false
allows_network _ = true

-- `charge_rate_mw` and `temperature_c` are never read and left out.
pub record PowerSnapshot : Type 0 where
  pub state : PowerState
  pub source : PowerSource
  pub battery_pct : Option ℕ

abbrev is_low : PowerState → Bool
is_low low_battery = true
is_low _ = false

abbrev below_ten : Option ℕ → Bool
below_ten none = false
below_ten (some p) = ltb p 10

unfoldable pub is_critical : PowerSnapshot → Bool
is_critical snap = is_low snap.state || below_ten snap.battery_pct

unfoldable pub allows_capture : PowerSnapshot → Bool
unfolding allows_camera allows_sensors
allows_capture snap = allows_camera snap.state && allows_sensors snap.state

unfoldable pub allows_gaussian_splat : PowerSnapshot → Bool
unfolding allows_gpu is_critical
allows_gaussian_splat snap = allows_gpu snap.state && not (is_critical snap)

unfoldable pub allows_swarm_broadcast : PowerSnapshot → Bool
unfolding allows_network
allows_swarm_broadcast snap = allows_network snap.state

unfoldable pub allows_embodiment : PowerSnapshot → Bool
unfolding is_critical allows_sensors
allows_embodiment snap = not (is_critical snap) && allows_sensors snap.state

pub data SensorKind : Type 0 where
  camera lidar imu microphone gps temperature pressure midi gpio ultrasonic tactile : SensorKind

unfoldable pub SensorKind_discrete : Discrete SensorKind
SensorKind_discrete = hlevel

pub record SensorDescriptor : Type 0 where
  pub sensor_id : Text
  pub kind : SensorKind
  pub model : Text
  pub active : Bool

unfoldable pub sensor_by_kind : List SensorDescriptor → SensorKind → Option SensorDescriptor
sensor_by_kind sensors kind = find? (λ s. eqb SensorKind_discrete s.kind kind && s.active) sensors

pub data EmbodimentError : Type 0 where
  sensor_not_found : Text → EmbodimentError
  command_blocked : Reason → EmbodimentError
  actuator_error insufficient_power : Text → EmbodimentError

-- `StubEmbodiment::actuate`
unfoldable pub actuate : SafetyCommand → SafetyVerdict → Result EmbodimentError (Unit {0})
actuate cmd clear = ok tt
actuate cmd (conditional _) = ok tt
actuate cmd (blocked reason) = err (command_blocked reason)
actuate cmd (halt reason) = err (command_blocked reason)

splat :
    (s : PowerState) (c : Bool)
    → allows_gpu s && not c ≡ true
    → (allows_camera s && allows_sensors s ≡ true)
      × (allows_network s ≡ true)
      × (not c && allows_sensors s ≡ true)
unfolding allows_gpu allows_camera allows_sensors allows_network
splat full_power c e = ground arith
splat normal c e = ground arith
splat _ c e = cc

embodied :
    (s : PowerState) (c : Bool)
    → (not c && allows_sensors s ≡ true) ↔ ((c ≡ false) × (allows_network s ≡ true))
unfolding allows_sensors allows_network
embodied s c = (λ e. ground arith, λ v. ground arith)

-- Where the policy allows Gaussian splatting it allows capture, broadcast and embodiment as well;
-- and embodiment is never allowed in a critical state or in hibernation.
allows_embodiment_lem :
    (snap : PowerSnapshot)
    → (allows_gaussian_splat snap ≡ true
        → (allows_capture snap ≡ true)
          × (allows_swarm_broadcast snap ≡ true)
          × (allows_embodiment snap ≡ true))
      × ((allows_embodiment snap ≡ true)
          ↔ ((is_critical snap ≡ false) × (allows_swarm_broadcast snap ≡ true)))
unfolding allows_gaussian_splat allows_capture allows_swarm_broadcast allows_embodiment
allows_embodiment_lem snap =
    (λ e. splat snap.state (is_critical snap) e, embodied snap.state (is_critical snap))

-- The stub carries out a command with the supervisor's verdict on it exactly when no emergency stop
-- is active and the command meets its tier.
actuate-evaluate :
    (s : SafetySupervisor) (cmd : SafetyCommand)
    → (actuate cmd (evaluate s cmd) ≡ ok tt)
      ↔ ((s.emergency_stop_active ≡ false) × Passes s.tier cmd)
unfolding actuate is_clear
actuate-evaluate s cmd = (
  λ e. (evaluate-Passes s cmd).0.0 (obeys (evaluate s cmd) e),
  λ v. carries (evaluate s cmd) ((evaluate-Passes s cmd).0.1 v),
)
  where
    obeys : (v : SafetyVerdict) → actuate cmd v ≡ ok tt → is_clear v ≡ true
    obeys v e = ground arith

    carries : (v : SafetyVerdict) → is_clear v ≡ true → actuate cmd v ≡ ok tt
    carries v e = ground arith
