-- ===== src/Twin/Witnessed.antt =====
-- The two ways to a receipt in twin-protocol/src/osovm.rs.
use sovereign_stack.Base.{
  ℕ, suc, ◌≤◌, ◌≡◌, ◌↔◌, refl, sym, ap, subst, ◌∙◌, Bool, true, false, not, ◌&&◌, none, List, [],
  ◌∷◌, map, Text, length, All, ltb, Result, ok, ◌>>◌, guard, bind-eq-ok, ok-injective, arith,
}
use sovereign_stack.Runtime.Identity.{IdentityChain}
use sovereign_stack.Emission.Allocator.{is_sabbath}
use sovereign_stack.Shared.Merkle.{hash_bytes}
use sovereign_stack.Twin.Simulation.{
  WitnessAttestation, TspError, Services, SimulationReceipt, Claim, commit, build, receipt_of,
}
use sovereign_stack.Twin.Proof.{IsProven, build_iff}
use sovereign_stack.Twin.Engine.{
  SimScenario, OsovmRunResult, OsovmEngine, Twin, Arithmetic, run_stub, run, claim_of,
  commitment_of_run, witness, prove, run_and_commitment, prove_with_attestations,
}
use sovereign_stack.Twin.Rollout.{Comparable, IsRun, stub_policies, run_stub_total}

module _ {F : Type 0} (a : Arithmetic F)
    (run_real : Text → Twin F → SimScenario → Result TspError (OsovmRunResult F))
    (s : Services F) where
  -- Attestations of the commitment of a run are what a receipt asks for.
  module _ (uuid : Text) (now : ℕ) (r : OsovmRunResult F) (twin_id : Text)
      (identity : IdentityChain) (private_key : Text) (witnesses : List WitnessAttestation) where
    abbrev Claimed : Claim F
    Claimed = claim_of a run_real r twin_id identity private_key witnesses

    attested_build :
        (policies_text signature : Text)
        → IsRun a r
        → s.policies_json r.candidate_policies ≡ ok policies_text
        → 2 ≤ length witnesses
        → All
            (λ w. w.merkle_commitment ≡ commitment_of_run a run_real s r policies_text twin_id)
            witnesses
        → s.sign (commitment_of_run a run_real s r policies_text twin_id) private_key ≡ ok signature
        → build s uuid now Claimed
          ≡ ok (
              receipt_of uuid now Claimed
                (hash_bytes s.hashing policies_text)
                (commitment_of_run a run_real s r policies_text twin_id)
                signature)
    unfolding commitment_of_run
    attested_build t g v p two all k =
        (build_iff s uuid now Claimed (
            receipt_of uuid now Claimed (hash_bytes s.hashing t)
              (commitment_of_run a run_real s r t twin_id) g)).1
          (
            record {
              policies = v.policies;
              selected = v.selected;
              witnesses = two;
              policies_text = t;
              serialised = p;
              hashed = refl;
              committed = refl;
              attested = all;
              signed = k;
            },
            refl,
          )

  witnesses_attest :
      (now : ℕ) (m : Text) (keys : List (Text × Text))
      → All (λ w. w.merkle_commitment ≡ m) (map (witness a run_real s now m) keys)
  unfolding witness
  witnesses_attest now m [] = tt
  witnesses_attest now m ((did, key) ∷ keys) = (refl, witnesses_attest now m keys)

  length-witnesses :
      (now : ℕ) (m : Text) (keys : List (Text × Text))
      → length (map (witness a run_real s now m) keys) ≡ length keys
  length-witnesses now m [] = refl
  length-witnesses now m (k ∷ keys) = ap suc (length-witnesses now m keys)

  run-stub :
      (uuid : Text) (now_secs : ℕ) (engine : OsovmEngine) (twin : Twin F) (scenario : SimScenario)
      → engine.endpoint ≡ none
      → (not engine.bypass_sabbath && is_sabbath now_secs) ≡ false
      → run a run_real uuid now_secs engine twin scenario ≡ run_stub a uuid engine twin scenario
  unfolding run run_stub
  run-stub uuid now_secs engine twin scenario e open_day = rw (run, open_day, e) refl

  -- Without a real engine, outside the Sabbath and without NaN, a proof of simulation with two
  -- witnesses or more succeeds as soon as its policies can be written and its own key can sign:
  -- the receipt is proven, and its attestations are the witnesses', whether their keys can sign
  -- or not.
  pub prove_total :
      (run_uuid uuid : Text) (now now_secs : ℕ) (engine : OsovmEngine) (twin : Twin F)
      (scenario : SimScenario) (identity : IdentityChain) (private_key : Text)
      (witness_keys : List (Text × Text)) (policies_text : Text)
      → engine.endpoint ≡ none
      → (not engine.bypass_sabbath && is_sabbath now_secs) ≡ false
      → Comparable a scenario.selection_objective (stub_policies a run_uuid twin scenario)
      → 2 ≤ length witness_keys
      → s.policies_json (stub_policies a run_uuid twin scenario) ≡ ok policies_text
      → ((m : Text) → (g : Text) × (s.sign m private_key ≡ ok g))
      → (c : Claim F) × (r : SimulationReceipt F) × (prove a run_real s run_uuid uuid now now_secs
            engine twin scenario identity private_key witness_keys
          ≡ ok r)
        × IsProven s c r
        × (r.witness_sigs ≡ map (witness a run_real s now r.merkle_commitment) witness_keys)
  unfolding prove
  prove_total run_uuid uuid now now_secs engine twin scenario identity private_key witness_keys t
        offline open_day finite two p sign =
      let (r, e, v, same) = run_stub_total a run_uuid engine twin scenario finite in
      let p' : s.policies_json r.candidate_policies ≡ ok t = ap s.policies_json same ∙ p in
      let m = commitment_of_run a run_real s r t twin.twin_id in
      let (g, k) = sign m in
      let ws = map (witness a run_real s now m) witness_keys in
      let enough : not (ltb (length witness_keys) 2) ≡ true = ground arith in
      let claim = claim_of a run_real r twin.twin_id identity private_key ws in
      let q = receipt_of uuid now claim (hash_bytes s.hashing t) m g in
      let built =
        attested_build uuid now r twin.twin_id identity private_key ws t g v p'
          (subst (λ n. 2 ≤ n) (sym (length-witnesses now m witness_keys)) two)
          (witnesses_attest now m witness_keys) k in
      (
        claim,
        q,
        rw (enough, run-stub run_uuid now_secs engine twin scenario offline open_day, e, p') built,
        ((build_iff s uuid now claim q).0 built).0,
        refl,
      )

  -- The commitment of the first phase.
  commitment_given :
      (run_uuid : Text) (now_secs : ℕ) (engine : OsovmEngine) (twin : Twin F)
      (scenario : SimScenario) (r : OsovmRunResult F) (m : Text)
      → run_and_commitment a run_real s run_uuid now_secs engine twin scenario ≡ ok (r, m)
      → (t : Text) × (s.policies_json r.candidate_policies ≡ ok t)
        × (m ≡ commitment_of_run a run_real s r t twin.twin_id)
  unfolding run_and_commitment
  commitment_given run_uuid now_secs engine twin scenario r m h =
      let (r', e, h') = bind-eq-ok (run a run_real run_uuid now_secs engine twin scenario) _ h in
      let (t, p, h'') = bind-eq-ok (s.policies_json r'.candidate_policies) _ h' in
      let pair = ok-injective h'' in
      let same : r' ≡ r = ap (λ x. x.0) pair in
      (
        t,
        ap (λ (x : OsovmRunResult F). s.policies_json x.candidate_policies) (sym same) ∙ p,
        sym (ap (λ x. x.1) pair)
            ∙ ap (λ (x : OsovmRunResult F). commitment_of_run a run_real s x t twin.twin_id) same,
      )

  guard-ok :
      {A : Type 0} (b : Bool) (e : TspError) (k : Result TspError A) (x : A)
      → (guard b e >> k) ≡ ok x
      → (b ≡ true) × (k ≡ ok x)
  guard-ok true e k x h = (refl, h)
  guard-ok false e k x h = cc

  -- In the two-phase protocol, with the run and the commitment of the first phase, the second phase
  -- succeeds exactly when the run has two policies or more, the selected one among them, two
  -- attestations or more have come in, all of that commitment, and the key can sign it.
  pub two_phase_iff :
      (run_uuid uuid : Text) (now now_secs : ℕ) (engine : OsovmEngine) (twin : Twin F)
      (scenario : SimScenario) (identity : IdentityChain) (private_key : Text)
      (attestations : List WitnessAttestation) (r : OsovmRunResult F) (m : Text)
      → run_and_commitment a run_real s run_uuid now_secs engine twin scenario ≡ ok (r, m)
      → ((q : SimulationReceipt F) × (prove_with_attestations a run_real s uuid now r twin.twin_id
              identity private_key attestations
            ≡ ok q))
        ↔ (IsRun a r
            × (2 ≤ length attestations)
            × All (λ w. w.merkle_commitment ≡ m) attestations
            × ((g : Text) × (s.sign m private_key ≡ ok g)))
  unfolding prove_with_attestations commitment_of_run
  two_phase_iff run_uuid uuid now now_secs engine twin scenario identity private_key attestations r
        m h =
      let (t, p, same) = commitment_given run_uuid now_secs engine twin scenario r m h in
      let claim = claim_of a run_real r twin.twin_id identity private_key attestations in
      (
        λ (q, built).
            let (enough, b) =
              guard-ok (not (ltb (length attestations) 2)) _ (build s uuid now claim) q built in
            let w = ((build_iff s uuid now claim q).0 b).0 in
            let text_same : w.policies_text ≡ t = ok-injective (sym w.serialised ∙ p) in
            let m_same : q.merkle_commitment ≡ m =
              w.committed
              ∙ ap
                  (λ k.
                    commit s k r.scenario.robot_model r.engine_version r.scenario.trajectory_count
                      twin.twin_id)
                  (w.hashed ∙ ap (hash_bytes s.hashing) text_same)
              ∙ sym same in
            (
              record { policies = w.policies; selected = w.selected },
              w.witnesses,
              subst (λ k. All (λ u. u.merkle_commitment ≡ k) attestations) m_same w.attested,
              (q.signature, subst (λ k. s.sign k private_key ≡ ok q.signature) m_same w.signed),
            ),
        λ (v, two, all, (g, k)).
            let enough : not (ltb (length attestations) 2) ≡ true = ground arith in
            let built =
              attested_build uuid now r twin.twin_id identity private_key attestations t g v p two
                (subst (λ k. All (λ u. u.merkle_commitment ≡ k) attestations) same all)
                (subst (λ k. s.sign k private_key ≡ ok g) same k) in
            (
              receipt_of uuid now claim (hash_bytes s.hashing t)
                  (commitment_of_run a run_real s r t twin.twin_id) g,
              rw enough built,
            ),
      )
