-- ===== src/Runtime/Receipt/Conformance.antt =====
-- Which receipts pass the SEP-1 gate of sovereign-runtime/src/receipt.rs.
use sovereign_stack.Base.{
  ℕ, ◌≡◌, ◌≢◌, ◌↔◌, refl, sym, ◌∙◌, Bool, true, false, ◌&&◌, ◌||◌, Bool-cases, inl, inr, split_once,
  if◌then◌else◌, not, Option, [], ◌∷◌, Text, Text_discrete, text, is_empty, eqb, eqb_iff, arith,
}
use sovereign_stack.Runtime.Principal.{Principal}
use sovereign_stack.Runtime.Capability.{CapabilityAction}
use sovereign_stack.Runtime.Receipt.{
  ActionReceipt, ActionOutcome, EvidenceBundle, Hashes, action_string, expected_id, new, is_signed,
  is_denied_outcome, has_namespace, is_sep1_conformant,
}
use sovereign_stack.Runtime.Receipt.Work.{
  WorkId, namespace, new_work_id, namespace-new_work_id, compute_id, blake3_of_json,
}

-- SHA-256 and BLAKE3 have digests of 64 hexadecimal digits: never the empty text.
abbrev pub IsHash : Hashes → Type 0
IsHash h = (s : Text) → h.blake3 s ≢ []

-- What SEP-1 asks of a receipt.
pub record IsEvidence (h : Hashes) (r : ActionReceipt) : Type 0 where
  pub work : has_namespace r.work_id ≡ true
  pub principal : r.principal_id ≢ []
  pub agent : r.agent_id ≢ []
  pub input : r.input_hash ≡ blake3_of_json h.blake3 r.params
  pub output : r.output_hash ≡ blake3_of_json h.blake3 r.result
  pub id : r.receipt_id ≡ expected_id h r
  pub signed : is_denied_outcome r.outcome ≡ false → is_signed r ≡ true

-- The tests of the gate, as Booleans.
abbrev gate : (a b c d e f g n i o k w s : Bool) → Bool
gate a b c d e f g n i o k w s =
    if a || b || c || d || e || f || g
    then false
    else if not n
    then false
    else if not i
    then false
    else if not o
    then false
    else if not k
    then false
    else if not w && not s
    then false
    else true

record Opens (a b c d e f g n i o k w s : Bool) : Type 0 where
  id : a ≡ false
  work : b ≡ false
  principal : c ≡ false
  agent : d ≡ false
  action : e ≡ false
  input : f ≡ false
  output : g ≡ false
  namespaced : n ≡ true
  input_bound : i ≡ true
  output_bound : o ≡ true
  id_bound : k ≡ true
  signed : w ≡ false → s ≡ true

gate-Opens :
    (a b c d e f g n i o k w s : Bool)
    → gate a b c d e f g n i o k w s ≡ true
    → Opens a b c d e f g n i o k w s
gate-Opens a b c d e f g n i o k w s h = ground arith

Opens-gate :
    (a b c d e f g n i o k w s : Bool)
    → Opens a b c d e f g n i o k w s
    → gate a b c d e f g n i o k w s ≡ true
Opens-gate a b c d e f g n i o k w s v = ground (arith, v.signed)

is_empty_iff : (s : Text) → (is_empty s ≡ false) ↔ (s ≢ [])
is_empty_iff [] = (λ e. cc, λ h. absurd (h refl))
is_empty_iff (x ∷ s) = (λ e p. cc, λ h. refl)

action_string_some : (a : CapabilityAction) → is_empty (action_string a) ≡ false
action_string_some CapabilityAction.capture = refl
action_string_some _ = refl

work_id_some : (w : WorkId) → has_namespace w ≡ true → w ≢ []
unfolding namespace split_once
work_id_some [] h e = ground arith
work_id_some (x ∷ w) h e = cc

prefixed : (blake3 : Text → Text) (s : Text) → blake3_of_json blake3 s ≢ []
unfolding blake3_of_json
prefixed blake3 s e = cc

module _ (h : Hashes) (r : ActionReceipt) where
  conformant-Opens :
      is_sep1_conformant h r ≡ true
      → Opens
          (is_empty r.receipt_id)
          (is_empty r.work_id)
          (is_empty r.principal_id)
          (is_empty r.agent_id)
          (is_empty (action_string r.action))
          (is_empty r.input_hash)
          (is_empty r.output_hash)
          (has_namespace r.work_id)
          (eqb Text_discrete r.input_hash (blake3_of_json h.blake3 r.params))
          (eqb Text_discrete r.output_hash (blake3_of_json h.blake3 r.result))
          (eqb Text_discrete r.receipt_id (expected_id h r))
          (is_denied_outcome r.outcome)
          (is_signed r)
  unfolding is_sep1_conformant
  conformant-Opens e = gate-Opens _ _ _ _ _ _ _ _ _ _ _ _ _ e

  pub conformant-IsEvidence : is_sep1_conformant h r ≡ true → IsEvidence h r
  conformant-IsEvidence e =
      let v = conformant-Opens e in
      record {
        work = v.namespaced;
        principal = (is_empty_iff r.principal_id).0 v.principal;
        agent = (is_empty_iff r.agent_id).0 v.agent;
        input = (eqb_iff Text_discrete _ _).0 v.input_bound;
        output = (eqb_iff Text_discrete _ _).0 v.output_bound;
        id = (eqb_iff Text_discrete _ _).0 v.id_bound;
        signed = v.signed;
      }

  pub IsEvidence-conformant : IsHash h → IsEvidence h r → is_sep1_conformant h r ≡ true
  unfolding is_sep1_conformant compute_id
  IsEvidence-conformant hash v = Opens-gate _ _ _ _ _ _ _ _ _ _ _ _ _ (record {
    id = (is_empty_iff r.receipt_id).1 (λ e. hash _ (sym v.id ∙ e));
    work = (is_empty_iff r.work_id).1 (work_id_some r.work_id v.work);
    principal = (is_empty_iff r.principal_id).1 v.principal;
    agent = (is_empty_iff r.agent_id).1 v.agent;
    action = action_string_some r.action;
    input = (is_empty_iff r.input_hash).1 (λ e. prefixed h.blake3 r.params (sym v.input ∙ e));
    output = (is_empty_iff r.output_hash).1 (λ e. prefixed h.blake3 r.result (sym v.output ∙ e));
    namespaced = v.work;
    input_bound = (eqb_iff Text_discrete _ _).1 v.input;
    output_bound = (eqb_iff Text_discrete _ _).1 v.output;
    id_bound = (eqb_iff Text_discrete _ _).1 v.id;
    signed = v.signed;
  })

-- The gate passes exactly the receipts whose work id has a namespace, whose principal and agent are
-- named, whose hashes are those of the parameters and the result, whose id is the hash of the
-- canonical fields, and which are signed unless they report a denial.
pub conformant_iff :
    (h : Hashes) (r : ActionReceipt) → IsHash h → (is_sep1_conformant h r ≡ true) ↔ IsEvidence h r
conformant_iff h r hash = (conformant-IsEvidence h r, IsEvidence-conformant h r hash)

real_namespace : (uuid : Text) → has_namespace (new_work_id (text "real") uuid) ≡ true
real_namespace uuid = rw (namespace-new_work_id (text "real") uuid (omega arith), has_namespace)

module _ (h : Hashes) (uuid : Text) (p : Principal) (a : CapabilityAction) (resource : Text)
    (capability_id : Option Text) (params result : Text) (outcome : ActionOutcome)
    (evidence : EvidenceBundle) (started completed : ℕ) (signature : Text) where
  -- A new receipt with the signature put in.
  abbrev pub issued : ActionReceipt
  issued =
      record (new h uuid p a resource capability_id params result outcome evidence started
        completed) { signature = signature }

  issued-IsEvidence :
      p.chain.principal_id ≢ []
      → p.chain.agent_id ≢ []
      → (is_denied_outcome outcome ≡ false → not (is_empty signature) ≡ true)
      → IsEvidence h issued
  unfolding new is_signed
  issued-IsEvidence hp ha s = record {
    work = real_namespace uuid;
    principal = hp;
    agent = ha;
    input = refl;
    output = refl;
    id = refl;
    signed = s;
  }

  unsigned_fails :
      is_sep1_conformant h issued ≡ true
      → is_denied_outcome outcome ≡ false
      → not (is_empty signature) ≡ true
  unfolding new is_signed
  unsigned_fails e = IsEvidence.signed (conformant-IsEvidence h issued e)

  one_of : (a b : Bool) → (a ≡ false → b ≡ true) → a || b ≡ true
  one_of true b f = refl
  one_of false b f = f refl

  -- A receipt that is made for a principal with both identifiers passes the gate exactly if it
  -- reports a denial or carries a signature.
  pub new-conformant :
      IsHash h
      → p.chain.principal_id ≢ []
      → p.chain.agent_id ≢ []
      → is_sep1_conformant h issued ≡ (is_denied_outcome outcome || not (is_empty signature))
  new-conformant hash hp ha =
      elim (Bool-cases (is_denied_outcome outcome || not (is_empty signature))) [
        | inl opens ↦
            IsEvidence-conformant h issued hash
              (issued-IsEvidence hp ha (λ e. ground (arith, opens, e)))
            ∙ sym opens
        | inr shut ↦ elim (Bool-cases (is_sep1_conformant h issued)) [
          | inl passes ↦
              let report =
                one_of (is_denied_outcome outcome) (not (is_empty signature))
                  (unsigned_fails passes) in
              passes ∙ sym report
          | inr stops ↦ stops ∙ sym shut
        ]
      ]

-- Replacing the result of a receipt, or its parameters, passes the gate only with a value of the
-- same hash.
tampering :
    (h : Hashes) (r : ActionReceipt) (params result : Text)
    → is_sep1_conformant h r ≡ true
    → is_sep1_conformant h (record r { params = params; result = result }) ≡ true
    → (blake3_of_json h.blake3 params ≡ blake3_of_json h.blake3 r.params)
      × (blake3_of_json h.blake3 result ≡ blake3_of_json h.blake3 r.result)
tampering h r params result e f =
    let v = conformant-IsEvidence h r e in
    let w = conformant-IsEvidence h (record r { params = params; result = result }) f in
    (sym w.input ∙ v.input, sym w.output ∙ v.output)
