-- ===== src/Twin/Attested.antt =====
-- What a receipt of `prove` in twin-protocol/src/osovm.rs shows of its run, its witnesses and its
-- signature.
use sovereign_stack.Base.{
  ℕ, ◌≤◌, ◌≡◌, ◌≢◌, refl, sym, ap, subst, ◌∙◌, true, not, List, [], ◌∷◌, map, Text, text,
  Text_discrete, eqb_iff, length, ltb, All, Result, ok, err, guard, bind-eq-ok, ok-injective,
  Bool-cases, Result-cases, inl, inr,
}
use sovereign_stack.Runtime.Identity.{IdentityChain}
use sovereign_stack.Shared.Merkle.{hash_bytes}
use sovereign_stack.Twin.Simulation.{
  SimPolicy, WitnessAttestation, TspError, insufficient_witnesses, Services, SimulationReceipt,
  has_id, any, commit,
}
use sovereign_stack.Twin.Proof.{build_iff}
use sovereign_stack.Twin.Engine.{
  SimScenario, OsovmRunResult, OsovmEngine, Twin, Arithmetic, run, claim_of, commitment_of_run,
  witness, prove,
}

module _ {F : Type 0} (s : Services F) where
  -- The attestations of a commitment by witnesses in turn, each with the signature by its key, or
  -- with the text "invalid" where the key cannot sign.
  pub data Attests (commitment : Text) (now : ℕ)
      : List (Text × Text) → List WitnessAttestation → Type 0 where
    no_more : Attests commitment now [] []
    signs :
        {did key sig : Text} {keys : List (Text × Text)} {ws : List WitnessAttestation}
        → s.sign commitment key ≡ ok sig
        → Attests commitment now keys ws
        → Attests commitment now ((did, key) ∷ keys) (
            record {
              witness_id = did;
              merkle_commitment = commitment;
              timestamp = now;
              signature = sig;
            }
            ∷ ws)
    cannot_sign :
        {did key : Text} {e : TspError} {keys : List (Text × Text)} {ws : List WitnessAttestation}
        → s.sign commitment key ≡ err e
        → Attests commitment now keys ws
        → Attests commitment now ((did, key) ∷ keys) (
            record {
              witness_id = did;
              merkle_commitment = commitment;
              timestamp = now;
              signature = text "invalid";
            }
            ∷ ws)

any-All :
    {F : Type 0} (id : Text) (ps : List (SimPolicy F))
    → any (has_id id) ps ≡ true
    → ¬ All (λ p. p.id ≢ id) ps
any-All id [] h all = cc
any-All id (p ∷ ps) h all = elim (Bool-cases (has_id id p)) [
  | inl same ↦ all.0 ((eqb_iff Text_discrete p.id id).0 same)
  | inr other ↦ any-All id ps (rw other at h) all.1
]

module _ {F : Type 0} (a : Arithmetic F)
    (run_real : Text → Twin F → SimScenario → Result TspError (OsovmRunResult F))
    (s : Services F) where
  witness-Attests :
      (m : Text) (now : ℕ) (keys : List (Text × Text))
      → Attests s m now keys (map (witness a run_real s now m) keys)
  unfolding witness
  witness-Attests m now [] = no_more
  witness-Attests m now ((did, key) ∷ keys) = elim (Result-cases (s.sign m key)) [
    | inl (sig, e) ↦ rw (witness, e) (signs e (witness-Attests m now keys))
    | inr (why, e) ↦ rw (witness, e) (cannot_sign e (witness-Attests m now keys))
  ]

  module _ (run_uuid uuid : Text) (now now_secs : ℕ) (engine : OsovmEngine) (twin : Twin F)
      (scenario : SimScenario) (identity : IdentityChain) (private_key : Text)
      (witness_keys : List (Text × Text)) where
    -- A receipt of a run of the engine for the twin, all of whose policies are hashed into the
    -- commitment, which the witnesses attest to and the key signs.
    pub record IsAttested (r : SimulationReceipt F) : Type 0 where
      pub result : OsovmRunResult F
      pub simulated : run a run_real run_uuid now_secs engine twin scenario ≡ ok result
      pub of_run : r.all_policies ≡ result.candidate_policies
      pub twin_id : r.twin_id ≡ twin.twin_id
      pub identity_chain : r.identity ≡ identity
      pub policies : 2 ≤ length r.all_policies
      pub selected : ¬ All (λ p. p.id ≢ r.selected_policy_id) r.all_policies
      pub policies_text : Text
      pub serialised : s.policies_json r.all_policies ≡ ok policies_text
      pub hashed : r.all_policies_hash ≡ hash_bytes s.hashing policies_text
      pub committed :
          r.merkle_commitment
          ≡ commit s r.all_policies_hash r.robot_model r.sim_engine r.trajectory_count r.twin_id
      pub witnesses : 2 ≤ length r.witness_sigs
      pub witness_ids : r.witness_ids ≡ map (λ w. w.witness_id) r.witness_sigs
      pub attested : Attests s r.merkle_commitment now witness_keys r.witness_sigs
      pub signed : s.sign r.merkle_commitment private_key ≡ ok r.signature

    pub prove-IsAttested :
        (r : SimulationReceipt F)
        → prove a run_real s run_uuid uuid now now_secs engine twin scenario identity private_key
            witness_keys
          ≡ ok r
        → IsAttested r
    unfolding prove commitment_of_run
    prove-IsAttested r h =
        let (u, g, q1) =
          bind-eq-ok
            (guard (not (ltb (length witness_keys) 2))
              (insufficient_witnesses (length witness_keys)))
            _ h in
        let (result, f, q2) =
          bind-eq-ok (run a run_real run_uuid now_secs engine twin scenario) _ q1 in
        let (t, f2, q3) = bind-eq-ok (s.policies_json result.candidate_policies) _ q2 in
        let m = commitment_of_run a run_real s result t twin.twin_id in
        let ws = map (witness a run_real s now m) witness_keys in
        let claim = claim_of a run_real result twin.twin_id identity private_key ws in
        let (proven, made) = (build_iff s uuid now claim r).0 q3 in
        let text_same : proven.policies_text ≡ t = ok-injective (sym proven.serialised ∙ f2) in
        let m_same : r.merkle_commitment ≡ m =
          proven.committed
          ∙ ap
              (λ k.
                commit s k result.scenario.robot_model result.engine_version
                  result.scenario.trajectory_count twin.twin_id)
              (proven.hashed ∙ ap (hash_bytes s.hashing) text_same) in
        subst IsAttested (sym made) (record {
          result = result;
          simulated = f;
          of_run = refl;
          twin_id = refl;
          identity_chain = refl;
          policies = proven.policies;
          selected = any-All result.selected_policy_id result.candidate_policies proven.selected;
          policies_text = proven.policies_text;
          serialised = proven.serialised;
          hashed = proven.hashed;
          committed = proven.committed;
          witnesses = proven.witnesses;
          witness_ids = refl;
          attested =
              subst (λ k. Attests s k now witness_keys ws) (sym m_same)
                (witness-Attests m now witness_keys);
          signed = proven.signed;
        })
