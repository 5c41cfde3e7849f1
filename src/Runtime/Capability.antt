-- ===== src/Runtime/Capability.antt =====
-- sovereign-runtime/src/capability.rs: the decision function of the capability kernel. A denial
-- reason keeps the values that the program formats into its message.
pub mod Resources
pub mod Authorization
use sovereign_stack.Base.{
  ℕ, Bool, true, false, not, ◌||◌, Option, none, some, List, [], ◌∷◌, Text, Text_discrete, is_empty,
  starts_with, ends_with, drop_last, eqb, ltb, if◌then◌else◌,
}
use sovereign_stack.Runtime.Identity.{SafetyLevel, exceeds}
use sovereign_stack.Runtime.Principal.{Principal}

pub data CapabilityAction : Type 0 where
  capture simulate claim delegate attest publish route execute read write admin : CapabilityAction

unfoldable pub CapabilityAction_discrete : Discrete CapabilityAction
CapabilityAction_discrete = hlevel

pub data Constraint : Type 0 where
  max_rate : (per_minute : ℕ) → Constraint
  geo_fence : (tile_ids : List Text) → Constraint
  time_window : (start until : ℕ) → Constraint
  data_class : (allowed : List Text) → Constraint
  custom : (rule : Text) → Constraint

pub record Capability : Type 0 where
  pub capability_id : Text
  pub granted_to : Text
  pub action : CapabilityAction
  pub resource : Text
  pub constraints : List Constraint
  pub safety_level : SafetyLevel
  pub granted_at : ℕ
  pub expires_at : Option ℕ
  pub delegated_by : Option Text
  pub signature : Text

pub data DenialReason : Type 0 where
  different_principal expired empty_geofence : DenialReason
  action_mismatch : (need has : CapabilityAction) → DenialReason
  resource_not_covered : (resource pattern : Text) → DenialReason
  exceeds_ceiling : (capability ceiling : SafetyLevel) → DenialReason
  outside_window : (start until : ℕ) → DenialReason

pub record AuthorizationDecision : Type 0 where
  pub granted : Bool
  pub principal_id : Text
  pub capability_id : Text
  pub action : CapabilityAction
  pub resource : Text
  pub denial_reason : Option DenialReason
  pub evaluated_at : ℕ

-- `b'*'` is the glob's star.
unfoldable pub resource_matches : Text → Text → Bool
resource_matches pattern resource =
    if ends_with b'*' pattern
    then starts_with (drop_last pattern) resource
    else eqb Text_discrete pattern resource

unfoldable pub evaluate_constraint : Constraint → ℕ → Option DenialReason
evaluate_constraint (time_window start until) now =
    if ltb now start || ltb until now then some (outside_window start until) else none
evaluate_constraint (geo_fence tile_ids) now =
    if is_empty tile_ids then some empty_geofence else none
evaluate_constraint _ now = none

-- the loop over the constraints: the first that is violated
unfoldable pub first_violation : List Constraint → ℕ → Option DenialReason
first_violation [] now = none
first_violation (c ∷ cs) now = elim (evaluate_constraint c now) [
  | some reason ↦ some reason
  | none ↦ first_violation cs now
]

abbrev pub is_past : Option ℕ → ℕ → Bool
is_past none now = false
is_past (some expiry) now = ltb expiry now

unfoldable pub evaluate :
    Principal → Capability → CapabilityAction → Text → ℕ → AuthorizationDecision
evaluate principal capability action resource now =
    if not (eqb Text_discrete capability.granted_to principal.chain.principal_id)
    then deny different_principal
    else if not (eqb CapabilityAction_discrete capability.action action)
    then deny (action_mismatch action capability.action)
    else if not (resource_matches capability.resource resource)
    then deny (resource_not_covered resource capability.resource)
    else if is_past capability.expires_at now
    then deny expired
    else if exceeds capability.safety_level principal.safety_level
    then deny (exceeds_ceiling capability.safety_level principal.safety_level)
    else elim (first_violation capability.constraints now) [
      | some reason ↦ deny reason
      | none ↦ record base { granted = true }
    ]
  where
    base : AuthorizationDecision
    base = record {
      granted = false;
      principal_id = principal.chain.principal_id;
      capability_id = capability.capability_id;
      action = action;
      resource = resource;
      denial_reason = none;
      evaluated_at = now;
    }

    deny : DenialReason → AuthorizationDecision
    deny reason = record base { denial_reason = some reason }
