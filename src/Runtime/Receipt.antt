-- ===== src/Runtime/Receipt.antt =====
-- sovereign-runtime/src/receipt.rs and evidence.rs, with the shared primitives of
-- sovereign-types/src/proof.rs and work_id.rs. BLAKE3, SHA-256 and Ed25519 are parameters.
pub mod Work
pub mod Conformance
use sovereign_stack.Base.{
  ℕ, zero, suc, ◌+◌, ◌/◌, ◌%◌, Bool, true, false, not, ◌&&◌, ◌||◌, Option, none, some, List, [],
  ◌∷◌, ◌++◌, Text, Text_discrete, text, is_empty, eqb, leb, ltb, ◌==◌, if◌then◌else◌, length,
  Result, ok, err,
}
use sovereign_stack.Runtime.Principal.{Principal, RuntimeError}
use sovereign_stack.Runtime.Capability.{CapabilityAction, DenialReason}
use Work.{WorkId, new_work_id, namespace, compute_id, hash_prefix, blake3_of_json}

pub data ActionOutcome : Type 0 where
  success partial failure denied : ActionOutcome

unfoldable pub is_conclusive : ActionOutcome → Bool
is_conclusive denied = false
is_conclusive _ = true

-- Why an action did not succeed, in place of the message that is formatted from it.
pub data Failure : Type 0 where
  invalid : RuntimeError → Failure
  refused : DenialReason → Failure
  unexplained : Failure
  failed : Text → Failure

pub data EvidenceKind : Type 0 where
  sensor_capture gaussian_splat slum_map proof_hash witness_signature policy_evaluation
        simulation_trace audio_capture video_capture custom :
      EvidenceKind

pub record Evidence : Type 0 where
  pub evidence_id : Text
  pub kind : EvidenceKind
  pub content_hash : Text
  pub uri : Option Text
  pub metadata : Text
  pub captured_at : ℕ

-- `EvidenceBundle`
abbrev pub EvidenceBundle : Type 0
EvidenceBundle = List Evidence

abbrev pub bundle_bytes : EvidenceBundle → Text
bundle_bytes [] = []
bundle_bytes (e ∷ es) = (e.evidence_id ++ e.content_hash) ++ bundle_bytes es

unfoldable pub merkle_root : (Text → Text) → EvidenceBundle → Text
merkle_root sha256 es = text "sha256:" ++ sha256 (bundle_bytes es)

pub record PoCwProof : Type 0 where
  pub steps : ℕ
  pub bb_bound : ℕ
  pub tape_hash : Text

unfoldable pub is_valid : PoCwProof → Bool
is_valid p = leb p.bb_bound p.steps && not (is_empty p.tape_hash)

unfoldable pub min_for_tier : ℕ → ℕ
min_for_tier zero = 0
min_for_tier (suc zero) = 21
min_for_tier (suc (suc zero)) = 107
min_for_tier _ = 47176870

-- `PoCwProof::tier`
unfoldable pub tier_of : PoCwProof → ℕ
tier_of p =
    if leb 47176870 p.steps
    then 3
    else if leb 107 p.steps
    then 2
    else if leb 21 p.steps
    then 1
    else 0

pub data Confidence : Type 0 where
  observed inferred speculative model_output : Confidence

unfoldable pub strength : Confidence → ℕ
strength observed = 3
strength inferred = 2
strength model_output = 1
strength speculative = 0

unfoldable pub is_economically_assertable : Confidence → Bool
unfolding strength
is_economically_assertable c = leb (strength inferred) (strength c)

pub data EnsembleDisagreement : Type 0 where
  unanimous strong moderate severe : EnsembleDisagreement

pub data SimPlane : Type 0 where
  physical digital hybrid verified : SimPlane

pub record ActionReceipt : Type 0 where
  pub receipt_id : Text
  pub work_id : WorkId
  pub principal_id : Text
  pub agent_id : Text
  pub session_id : Text
  pub execution_id : Text
  pub action : CapabilityAction
  pub resource : Text
  pub capability_id : Option Text
  pub params : Text
  pub result : Text
  pub outcome : ActionOutcome
  pub error : Option Failure
  pub input_hash : Text
  pub output_hash : Text
  pub evidence_root : Text
  pub evidence_count : ℕ
  pub started_at : ℕ
  pub completed_at : ℕ
  pub previous_hash : Option Text
  pub proof_of_work : Option PoCwProof
  pub epistemic_severity : Option Confidence
  pub ensemble_disagreement : Option EnsembleDisagreement
  pub plane : SimPlane
  pub signature : Text

-- `format!("{:?}", action)`
abbrev pub action_string : CapabilityAction → Text
action_string CapabilityAction.capture = text "Capture"
action_string CapabilityAction.simulate = text "Simulate"
action_string CapabilityAction.claim = text "Claim"
action_string CapabilityAction.delegate = text "Delegate"
action_string CapabilityAction.attest = text "Attest"
action_string CapabilityAction.publish = text "Publish"
action_string CapabilityAction.route = text "Route"
action_string CapabilityAction.execute = text "Execute"
action_string CapabilityAction.read = text "Read"
action_string CapabilityAction.write = text "Write"
action_string CapabilityAction.admin = text "Admin"

-- `Value::Null`
abbrev pub null : Text
null = text "null"

-- The two hashes, each the hex text of a digest.
pub record Hashes : Type 0 where
  pub blake3 : Text → Text
  pub sha256 : Text → Text

-- `compute_id` on the receipt's own fields
abbrev pub expected_id : Hashes → ActionReceipt → Text
expected_id h r =
    compute_id h.blake3 r.work_id r.principal_id r.agent_id (action_string r.action) r.input_hash
      r.output_hash r.completed_at

-- `uuid` is the fresh UUID.
unfoldable pub new :
    Hashes
    → Text
    → Principal
    → CapabilityAction
    → Text
    → Option Text
    → (params result : Text) → ActionOutcome
    → EvidenceBundle
    → (started_at completed_at : ℕ) → ActionReceipt
unfolding merkle_root
new h uuid p action resource capability_id params result outcome evidence started_at completed_at =
    record {
      receipt_id =
          compute_id h.blake3 work_id p.chain.principal_id p.chain.agent_id (action_string action)
            input_hash output_hash completed_at;
      work_id = work_id;
      principal_id = p.chain.principal_id;
      agent_id = p.chain.agent_id;
      session_id = p.chain.session_id;
      execution_id = p.chain.execution_id;
      action = action;
      resource = resource;
      capability_id = capability_id;
      params = params;
      result = result;
      outcome = outcome;
      error = none;
      input_hash = input_hash;
      output_hash = output_hash;
      evidence_root = merkle_root h.sha256 evidence;
      evidence_count = length evidence;
      started_at = started_at;
      completed_at = completed_at;
      previous_hash = none;
      proof_of_work = none;
      epistemic_severity = none;
      ensemble_disagreement = none;
      plane = physical;
      signature = [];
    }
  where
    work_id : WorkId
    work_id = new_work_id (text "real") uuid

    input_hash : Text
    input_hash = blake3_of_json h.blake3 params

    output_hash : Text
    output_hash = blake3_of_json h.blake3 result

unfoldable pub denied_receipt :
    Hashes → Text → Principal → CapabilityAction → Text → Failure → ℕ → ActionReceipt
unfolding new
denied_receipt h uuid p action resource reason now =
    record (new h uuid p action resource none null null denied [] now now) {
      error = some reason;
      evidence_root = hash_prefix ++ text "empty";
    }

unfoldable pub recompute_id : Hashes → ActionReceipt → ActionReceipt
recompute_id h r = record r { receipt_id = expected_id h r }

unfoldable pub with_work_id : Hashes → ActionReceipt → WorkId → ActionReceipt
unfolding recompute_id
with_work_id h r work_id = recompute_id h (record r { work_id = work_id })

unfoldable pub with_previous : Hashes → ActionReceipt → Text → ActionReceipt
with_previous h r prev = record r { previous_hash = some (hash_prefix ++ h.blake3 prev) }

unfoldable pub with_pocw : ActionReceipt → PoCwProof → ActionReceipt
with_pocw r proof = record r { proof_of_work = some proof }

unfoldable pub is_signed : ActionReceipt → Bool
is_signed r = not (is_empty r.signature)

unfoldable pub meets_pocw_floor : ActionReceipt → ℕ → Bool
meets_pocw_floor r tier = if tier == 0 then true else elim r.proof_of_work [
  | none ↦ false
  | some proof ↦ leb (min_for_tier tier) proof.steps && is_valid proof
]

abbrev pub is_denied_outcome : ActionOutcome → Bool
is_denied_outcome denied = true
is_denied_outcome _ = false

abbrev pub has_namespace : WorkId → Bool
has_namespace w = elim (namespace w) [ none ↦ false | some _ ↦ true ]

unfoldable pub is_sep1_conformant : Hashes → ActionReceipt → Bool
unfolding is_signed
is_sep1_conformant h r =
    if is_empty r.receipt_id
      || is_empty r.work_id
      || is_empty r.principal_id
      || is_empty r.agent_id
      || is_empty (action_string r.action)
      || is_empty r.input_hash
      || is_empty r.output_hash
    then false
    else if not (has_namespace r.work_id)
    then false
    else if not (eqb Text_discrete r.input_hash (blake3_of_json h.blake3 r.params))
    then false
    else if not (eqb Text_discrete r.output_hash (blake3_of_json h.blake3 r.result))
    then false
    else if not (eqb Text_discrete r.receipt_id (expected_id h r))
    then false
    else if not (is_denied_outcome r.outcome) && not (is_signed r)
    then false
    else true
