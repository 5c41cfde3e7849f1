-- ===== src/Runtime/Examples.antt =====
-- Principals, capabilities, commands and receipts of sovereign-runtime at concrete values.
use sovereign_stack.Base.{
  ◌≡◌, ◌↔◌, refl, true, false, none, some, [], ◌∷◌, Text, text, ok, Result, nan, arith, ends_with,
  starts_with, drop_last,
}
use sovereign_stack.Runtime.Identity.{SafetyLevel}
use sovereign_stack.Runtime.Principal.{Principal, from_did}
use sovereign_stack.Runtime.Capability.{
  Capability, CapabilityAction, time_window, resource_matches, evaluate,
}
use sovereign_stack.Runtime.Capability.Resources.{resource_matches-exact}
use sovereign_stack.Runtime.Capability.Authorization.{IsAuthorized, evaluate-IsAuthorized}
use sovereign_stack.Runtime.Safety.{
  SafetyCommand, SafetySupervisor, SafetyTier, SafetyCommandType, clear, is_clear, is_blocked,
  emergency_stop, clear_emergency,
}
use sovereign_stack.Runtime.Safety
use sovereign_stack.Runtime.Safety.Verdicts.{Passes, evaluate-Passes}
use sovereign_stack.Runtime.Safety.Emergency.{here, next, release, stopped_stays}
use sovereign_stack.Runtime.Receipt.{
  ActionReceipt, Hashes, success, denied, null, is_sep1_conformant,
}
use sovereign_stack.Runtime.Receipt.Work.{namespace, new_work_id, namespace-new_work_id}
use sovereign_stack.Runtime.Receipt.Conformance.{
  new-conformant, IsHash, IsEvidence, issued, conformant_iff,
}
use sovereign_stack.Runtime.Execution.{ExecutionContext, run_sovereign}
use sovereign_stack.Runtime.Execution.Gate.{IsAdmitted, run_sovereign-denied}
use sovereign_stack.Runtime.Embodiment.{PowerSnapshot, PowerState, PowerSource}

abbrev alice : Principal
unfolding from_did
alice = from_did (text "did:ara:alice") (text "agent:1") (text "u") (text "v") (text "w")

abbrev camera : Capability
camera = record {
  capability_id = text "cap:1";
  granted_to = text "did:ara:alice";
  action = CapabilityAction.capture;
  resource = text "cam/*";
  constraints = time_window 10 20 ∷ [];
  safety_level = SafetyLevel.low;
  granted_at = 0;
  expires_at = some 30;
  delegated_by = none;
  signature = [];
}

abbrev resource : Text
resource = text "cam/0"

camera-IsAuthorized : IsAuthorized alice camera CapabilityAction.capture resource 15
unfolding resource_matches alice ends_with starts_with drop_last
camera-IsAuthorized = record {
  holder = refl;
  action = refl;
  resource = refl;
  current = omega arith;
  ceiling = omega arith;
  constraints = ((omega arith, omega arith), tt);
}

resource_matches-exact_example :
    (resource_matches (text "cam/1") resource ≡ true) ↔ (text "cam/1" ≡ resource)
unfolding ends_with
resource_matches-exact_example = resource_matches-exact (text "cam/1") resource refl

evaluate-IsAuthorized_example :
    (((evaluate alice camera CapabilityAction.capture resource 15).granted ≡ true)
      ↔ IsAuthorized alice camera CapabilityAction.capture resource 15)
    × (((evaluate alice camera CapabilityAction.capture resource 15).granted ≡ true)
        ↔ ((evaluate alice camera CapabilityAction.capture resource 15).denial_reason ≡ none))
evaluate-IsAuthorized_example =
    evaluate-IsAuthorized alice camera CapabilityAction.capture resource 15

abbrev thrust : SafetyCommand
thrust = record {
  command_type = SafetyCommandType.thrust;
  target = text "rotor";
  magnitude = nan;
  requester_did = text "did:ara:alice";
  safety_level = SafetyLevel.standard;
}

abbrev supervisor : SafetySupervisor
supervisor = record { tier = SafetyTier.critical_zone; emergency_stop_active = false }

evaluate-Passes_example :
    ((is_clear (Safety.evaluate supervisor thrust) ≡ true)
      ↔ ((supervisor.emergency_stop_active ≡ false) × Passes SafetyTier.critical_zone thrust))
    × ((is_clear (Safety.evaluate supervisor thrust) ≡ false)
        ↔ (is_blocked (Safety.evaluate supervisor thrust) ≡ true))
evaluate-Passes_example = evaluate-Passes supervisor thrust

stopped_stays_example :
    is_clear (Safety.evaluate (clear_emergency (emergency_stop supervisor)) thrust) ≡ false
stopped_stays_example =
    stopped_stays supervisor thrust (next here (release (emergency_stop supervisor)))

abbrev snapshot : PowerSnapshot
snapshot = record { state = PowerState.normal; source = PowerSource.battery; battery_pct = some 55 }

abbrev hashes : Hashes
hashes = record { blake3 = λ s. 1 ∷ s; sha256 = λ s. 2 ∷ s }

hashes-IsHash : IsHash hashes
hashes-IsHash s e = cc

namespace-new_work_id_example :
    namespace (new_work_id (text "vcp") (text "a:b")) ≡ some (text "vcp")
namespace-new_work_id_example = namespace-new_work_id (text "vcp") (text "a:b") (omega arith)

abbrev receipt : ActionReceipt
receipt =
    issued hashes (text "1234") alice CapabilityAction.capture resource (some (text "cap:1")) null
      null success [] 15 15 (text "sig")

receipt_conformant : is_sep1_conformant hashes receipt ≡ true
unfolding alice
receipt_conformant =
    new-conformant hashes (text "1234") alice CapabilityAction.capture resource
      (some (text "cap:1")) null null success [] 15 15 (text "sig") hashes-IsHash (λ e. cc)
      (λ e. cc)

conformant_iff_example : (is_sep1_conformant hashes receipt ≡ true) ↔ IsEvidence hashes receipt
conformant_iff_example = conformant_iff hashes receipt hashes-IsHash

abbrev photograph : ExecutionContext → ExecutionContext × Result Text Text
photograph ctx = (ctx, ok (text "done"))

run_sovereign-denied_example :
    ((run_sovereign hashes
        (text "1234")
        alice
        (some camera)
        CapabilityAction.capture
        resource
        null
        15
        photograph).outcome
      ≡ denied)
    ↔ (¬ IsAdmitted alice (some camera) CapabilityAction.capture resource 15)
run_sovereign-denied_example =
    run_sovereign-denied hashes (text "1234") alice (some camera) CapabilityAction.capture resource
      null 15 photograph
