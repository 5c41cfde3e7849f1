-- ===== src/Runtime/Execution.antt =====
-- sovereign-runtime/src/execution.rs and chain.rs: one consequential operation from its
-- authorization to its receipt. The function that is run is a parameter.
pub mod Gate
use sovereign_stack.Base.{
  ℕ, ◌≡◌, ◌≢◌, ◌↔◌, refl, sym, ap, ◌∙◌, Bool, true, false, Bool-cases, inl, inr, if◌then◌else◌, not,
  Option, none, some, List, [], ◌∷◌, ◌++◌, Text, text, Result, ok, err, arith, Option-cases,
}
use sovereign_stack.Runtime.Principal.{Principal, RuntimeError, validate}
use sovereign_stack.Runtime.Capability.{
  Capability, CapabilityAction, AuthorizationDecision, DenialReason, evaluate,
}
use sovereign_stack.Runtime.Receipt.{
  ActionReceipt, ActionOutcome, Failure, Evidence, EvidenceBundle, Hashes, success, failure, denied,
  new, denied_receipt, null, is_denied_outcome, invalid, refused, unexplained, failed,
}

pub record ExecutionContext : Type 0 where
  pub principal : Principal
  pub capability : Option Capability
  pub action : CapabilityAction
  pub resource : Text
  pub params : Text
  pub evidence : EvidenceBundle
  pub started_at : ℕ

unfoldable pub add_evidence : ExecutionContext → Evidence → ExecutionContext
add_evidence ctx e = record ctx { evidence = ctx.evidence ++ (e ∷ []) }

-- `self.capability.as_ref().map(|c| c.capability_id.clone())`
abbrev pub cap_id : Option Capability → Option Text
cap_id none = none
cap_id (some c) = some c.capability_id

unfoldable pub complete : Hashes → Text → ExecutionContext → Text → ℕ → ActionReceipt
complete h uuid ctx result now =
    new h uuid ctx.principal ctx.action ctx.resource (cap_id ctx.capability) ctx.params result
      success ctx.evidence ctx.started_at now

unfoldable pub fail : Hashes → Text → ExecutionContext → Text → ℕ → ActionReceipt
fail h uuid ctx reason now =
    record (new h uuid ctx.principal ctx.action ctx.resource (cap_id ctx.capability) ctx.params null
      failure ctx.evidence ctx.started_at now) { error = some (failed reason) }

-- `decision.denial_reason.unwrap_or_else(|| "denied".into())`
abbrev pub reason_of : AuthorizationDecision → Failure
reason_of d = elim d.denial_reason [ none ↦ unexplained | some reason ↦ refused reason ]

-- The capability's decision, if one is given and it is a denial.
unfoldable pub refusal :
    Principal → Option Capability → CapabilityAction → Text → ℕ → Option Failure
refusal principal none action resource now = none
refusal principal (some cap) action resource now =
    let decision = evaluate principal cap action resource now in
    if not decision.granted then some (reason_of decision) else none

unfoldable pub begin :
    Hashes
    → Text
    → Principal
    → Option Capability
    → CapabilityAction
    → (resource params : Text) → ℕ
    → Result ActionReceipt ExecutionContext
begin h uuid principal capability action resource params now = elim (validate principal) [
  | err e ↦ err (denied_receipt h uuid principal action resource (invalid e) now)
  | ok _ ↦ elim (refusal principal capability action resource now) [
    | some reason ↦ err (denied_receipt h uuid principal action resource reason now)
    | none ↦ ok (record {
      principal = principal;
      capability = capability;
      action = action;
      resource = resource;
      params = params;
      evidence = [];
      started_at = now;
    })
  ]
]

unfoldable pub run_sovereign :
    Hashes
    → Text
    → Principal
    → Option Capability
    → CapabilityAction
    → (resource params : Text) → ℕ
    → (ExecutionContext → ExecutionContext × Result Text Text)
    → ActionReceipt
run_sovereign h uuid principal capability action resource params now execute_fn =
    elim (begin h uuid principal capability action resource params now) [
      | err denied_receipt ↦ denied_receipt
      | ok ctx ↦ elim ((execute_fn ctx).1) [
        | ok result ↦ complete h uuid ((execute_fn ctx).0) result now
        | err e ↦ fail h uuid ((execute_fn ctx).0) e now
      ]
    ]
