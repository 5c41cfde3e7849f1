-- ===== src/Runtime/Safety.antt =====
-- sovereign-runtime/src/safety.rs: the safety supervisor. A verdict keeps the reason as a value in
-- place of its message.
pub mod Verdicts
pub mod Emergency
use sovereign_stack.Base.{
  ℕ, ◌*◌, ◌^◌, Bool, true, false, ◌&&◌, Text, Float, pos, lt_float, if◌then◌else◌,
}
use sovereign_stack.Runtime.Identity.{SafetyLevel, exceeds}

pub data Reason : Type 0 where
  stop_active stop_tier development_tier : Reason
  over_critical_limit over_physical_limit : (magnitude : Float) → Reason
  over_ceiling : (level : SafetyLevel) → Reason

pub data SafetyVerdict : Type 0 where
  clear : SafetyVerdict
  conditional blocked halt : Reason → SafetyVerdict

unfoldable pub is_clear : SafetyVerdict → Bool
is_clear clear = true
is_clear (conditional _) = true
is_clear _ = false

unfoldable pub is_blocked : SafetyVerdict → Bool
is_blocked (blocked _) = true
is_blocked (halt _) = true
is_blocked _ = false

pub data SafetyCommandType : Type 0 where
  move grasp release rotate thrust actuate capture broadcast : SafetyCommandType
  custom : Text → SafetyCommandType

pub record SafetyCommand : Type 0 where
  pub command_type : SafetyCommandType
  pub target : Text
  pub magnitude : Float
  pub requester_did : Text
  pub safety_level : SafetyLevel

pub data SafetyTier : Type 0 where
  development production critical_zone emergency : SafetyTier

pub record SafetySupervisor : Type 0 where
  pub tier : SafetyTier
  pub emergency_stop_active : Bool

-- The `f32` nearest to 0.25 and to 0.85, in units of 2 ^ -149.
abbrev pub critical_limit : Float
critical_limit = pos (2 ^ 147)

abbrev pub physical_limit : Float
physical_limit = pos (14260634 * 2 ^ 125)

unfoldable pub new : SafetyTier → SafetySupervisor
new tier = record { tier = tier; emergency_stop_active = false }

unfoldable pub emergency_stop : SafetySupervisor → SafetySupervisor
emergency_stop s = record s { emergency_stop_active = true; tier = SafetyTier.emergency }

unfoldable pub clear_emergency : SafetySupervisor → SafetySupervisor
clear_emergency s = record s { emergency_stop_active = false }

-- `matches!(cmd.command_type, Move | Grasp | …)`
abbrev pub is_physical : SafetyCommandType → Bool
is_physical capture = false
is_physical broadcast = false
is_physical (custom _) = false
is_physical _ = true

unfoldable pub check_production : SafetyCommand → SafetyVerdict
check_production cmd =
    if exceeds cmd.safety_level SafetyLevel.elevated
    then blocked (over_ceiling cmd.safety_level)
    else if is_physical cmd.command_type && lt_float physical_limit cmd.magnitude
    then blocked (over_physical_limit cmd.magnitude)
    else clear

-- the `match` on the tier
abbrev pub by_tier : SafetyTier → SafetyCommand → SafetyVerdict
by_tier SafetyTier.development cmd = conditional development_tier
by_tier SafetyTier.production cmd = check_production cmd
by_tier SafetyTier.critical_zone cmd =
    if lt_float critical_limit cmd.magnitude
    then blocked (over_critical_limit cmd.magnitude)
    else check_production cmd
by_tier SafetyTier.emergency cmd = halt stop_tier

unfoldable pub evaluate : SafetySupervisor → SafetyCommand → SafetyVerdict
evaluate s cmd = if s.emergency_stop_active then halt stop_active else by_tier s.tier cmd
