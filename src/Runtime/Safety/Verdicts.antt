-- ===== src/Runtime/Safety/Verdicts.antt =====
-- Which commands pass the supervisor of sovereign-runtime/src/safety.rs.
use sovereign_stack.Base.{
  Bool-cases, inl, inr, if◌then◌else◌, ◌≤◌, ◌≡◌, refl, ◌↔◌, ◌⊎◌, Bool, true, false, nan, lt_float,
  arith,
}
use sovereign_stack.Runtime.Identity.{SafetyLevel, level}
use sovereign_stack.Runtime.Safety.{
  SafetyVerdict, SafetyCommand, SafetySupervisor, SafetyTier, clear, halt, stop_active, is_clear,
  is_blocked, critical_limit, physical_limit, is_physical, check_production, evaluate, by_tier,
}

-- What the production tier asks of a command.
pub record IsModerate (cmd : SafetyCommand) : Type 0 where
  pub under_ceiling : level cmd.safety_level ≤ level SafetyLevel.elevated
  pub in_limit : is_physical cmd.command_type ≡ true → lt_float physical_limit cmd.magnitude ≡ false

-- What each tier asks.
abbrev pub Passes : SafetyTier → SafetyCommand → Type 0
Passes SafetyTier.development cmd = Unit
Passes SafetyTier.production cmd = IsModerate cmd
Passes SafetyTier.critical_zone cmd =
    (lt_float critical_limit cmd.magnitude ≡ false) × IsModerate cmd
Passes SafetyTier.emergency cmd = ⊥

check_production_iff :
    (cmd : SafetyCommand) → (is_clear (check_production cmd) ≡ true) ↔ IsModerate cmd
unfolding check_production is_clear
check_production_iff cmd = (
  λ e. record { under_ceiling = ground arith; in_limit = λ p. ground arith },
  λ v. ground (arith, v.in_limit),
)

by_tier_iff :
    (t : SafetyTier) (cmd : SafetyCommand) → (is_clear (by_tier t cmd) ≡ true) ↔ Passes t cmd
unfolding is_clear
by_tier_iff SafetyTier.development cmd = (λ e. tt, λ h. refl)
by_tier_iff SafetyTier.production cmd = check_production_iff cmd
by_tier_iff SafetyTier.critical_zone cmd =
    elim (Bool-cases (lt_float critical_limit cmd.magnitude)) [
      | inl over ↦ rw over (λ e. cc, λ h. cc (h.0))
      | inr under ↦
          rw under
            (λ e. (refl, (check_production_iff cmd).0 e), λ h. (check_production_iff cmd).1 h.1)
    ]
by_tier_iff SafetyTier.emergency cmd = (λ e. cc, λ h. absurd h)

gate_iff :
    (b : Bool) (t : SafetyTier) (cmd : SafetyCommand)
    → (is_clear (if b then halt stop_active else by_tier t cmd) ≡ true)
      ↔ ((b ≡ false) × Passes t cmd)
unfolding is_clear
gate_iff true t cmd = (λ e. cc, λ h. cc (h.0))
gate_iff false t cmd = (λ e. (refl, (by_tier_iff t cmd).0 e), λ h. (by_tier_iff t cmd).1 h.1)

clear_or_blocked : (v : SafetyVerdict) → (is_clear v ≡ false) ↔ (is_blocked v ≡ true)
unfolding is_clear is_blocked
clear_or_blocked v = (λ e. ground arith, λ e. ground arith)

-- A command passes exactly when no emergency stop is active and it meets its tier: any command in
-- development, none under emergency, in production one up to the elevated level that, if it
-- actuates, does not exceed 0.85, and in the critical zone one that does not exceed 0.25 either.
-- What does not pass is blocked.
pub evaluate-Passes :
    (s : SafetySupervisor) (cmd : SafetyCommand)
    → ((is_clear (evaluate s cmd) ≡ true) ↔ ((s.emergency_stop_active ≡ false) × Passes s.tier cmd))
      × ((is_clear (evaluate s cmd) ≡ false) ↔ (is_blocked (evaluate s cmd) ≡ true))
unfolding evaluate
evaluate-Passes s cmd =
    (gate_iff s.emergency_stop_active s.tier cmd, clear_or_blocked (evaluate s cmd))

-- A magnitude that is not a number passes every limit: the supervisor clears any actuation up to
-- the elevated level, in production and in the critical zone.
evaluate-nan :
    (s : SafetySupervisor) (cmd : SafetyCommand)
    → cmd.magnitude ≡ nan
    → level cmd.safety_level ≤ level SafetyLevel.elevated
    → s.emergency_stop_active ≡ false
    → (s.tier ≡ SafetyTier.production) ⊎ (s.tier ≡ SafetyTier.critical_zone)
    → evaluate s cmd ≡ clear
unfolding evaluate check_production lt_float
evaluate-nan s cmd m l e t = ground arith
