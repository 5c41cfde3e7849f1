-- ===== src/Twin/Engine.antt =====
-- twin-protocol/src/osovm.rs: the simulation engine, its stub, and the two ways to a receipt. The
-- arithmetic of `f32`, the real engine, the clock and fresh ids are parameters.
mod Scenario
unfoldable pub use Scenario.*
use sovereign_stack.Base.{
  ℕ, zero, suc, ◌+◌, Bool, true, false, not, ◌&&◌, Option, none, some, List, [], ◌∷◌, ◌++◌, map,
  Text, text, Text_discrete, eqb, length, ltb, ◌==◌, Ordering, Result, ok, err, ◌>>=◌, ◌>>◌, guard,
  if◌then◌else◌,
}
use sovereign_stack.Runtime.Identity.{IdentityChain}
use sovereign_stack.Emission.Allocator.{is_sabbath}
use sovereign_stack.Shared.Merkle.{hash_bytes}
use sovereign_stack.Twin.Simulation.{
  SimPolicy, WitnessAttestation, TspError, insufficient_policies, insufficient_witnesses,
  sabbath_freeze, panicked, Services, SimulationReceipt, Claim, commit, build,
}

module _ {F : Type 0} (a : Arithmetic F) where
  unfoldable pub trajectory : (run_id : Text) (f1 : F) (i : ℕ) → TrajectoryResult F
  trajectory run_id f1 i =
      let n = a.from_u32 i in
      let noise = a.mul (a.sin (a.mul n (a.decimal 7 2))) (a.decimal 5 2) in
      let risk =
        a.min
          (a.max (a.add (a.sub (a.decimal 15 2) (a.mul f1 (a.decimal 1 1))) noise) (a.decimal 0 0))
          (a.decimal 1 0) in
      record {
        trajectory_id = text "traj:" ++ (run_id ++ (text ":" ++ a.display i));
        policy_id = policy_name a.display i;
        success = a.lt risk (a.decimal 5 1);
        energy_j =
            a.add (a.decimal 120 0) (a.mul (a.sin (a.mul n (a.decimal 123 1))) (a.decimal 30 0));
        risk_score = risk;
        duration_s =
            a.add (a.decimal 18 0) (a.mul (a.cos (a.mul n (a.decimal 9 1))) (a.decimal 5 0));
        metrics = some (a.grounding_json f1);
      }

  -- the trajectories from the `i`-th on, of which `n` are left
  unfoldable pub trajectories_from : (run_id : Text) (f1 : F) (n i : ℕ) → List (TrajectoryResult F)
  trajectories_from run_id f1 zero i = []
  trajectories_from run_id f1 (suc n) i =
      trajectory run_id f1 i ∷ trajectories_from run_id f1 n (suc i)

  abbrev add_to : TrajectoryResult F → Tally F → Tally F
  add_to t e = record {
    energy = a.add e.energy t.energy_j;
    risk = a.add e.risk t.risk_score;
    duration = a.add e.duration t.duration_s;
    count = e.count + 1;
  }

  abbrev nothing : Tally F
  nothing = record {
    energy = a.decimal 0 0;
    risk = a.decimal 0 0;
    duration = a.decimal 0 0;
    count = 0;
  }

  -- `policy_map.entry(id).or_insert(zeros)` and the sums, in a map sorted by its keys
  unfoldable pub tally : TrajectoryResult F → List (Text × Tally F) → List (Text × Tally F)
  tally t [] = (t.policy_id, add_to t nothing) ∷ []
  tally t ((k, e) ∷ m) =
      let rest = tally t m in
      if eqb Text_discrete k t.policy_id
      then (k, add_to t e) ∷ m
      else if less t.policy_id k
      then (t.policy_id, add_to t nothing) ∷ (k, e) ∷ m
      else (k, e) ∷ rest

  unfoldable pub tally_all :
      List (TrajectoryResult F) → List (Text × Tally F) → List (Text × Tally F)
  tally_all [] m = m
  tally_all (t ∷ ts) m = tally_all ts (tally t m)

  abbrev pub average : Text × Tally F → SimPolicy F
  average (id, e) =
      let n = a.from_u32 e.count in
      record {
        id = id;
        energy = a.div e.energy n;
        risk = a.div e.risk n;
        duration_s = a.div e.duration n;
        metrics = some (a.count_json n);
      }

  -- what `min_by` compares
  unfoldable pub measure : Text → SimPolicy F → F
  measure objective p =
      if eqb Text_discrete objective (text "min_energy")
      then p.energy
      else if eqb Text_discrete objective (text "min_risk")
      then p.risk
      else if eqb Text_discrete objective (text "max_throughput")
      then p.duration_s
      else a.add (a.mul p.energy (a.decimal 4 1))
          (a.mul (a.mul p.risk (a.decimal 100 0)) (a.decimal 6 1))

  -- `min_by`: the earlier of two stays unless the later one is less; no answer is a panic.
  unfoldable pub best_from : Text → SimPolicy F → List (SimPolicy F) → Option (SimPolicy F)
  best_from objective p [] = some p
  best_from objective p (q ∷ qs) =
      let stay = best_from objective p qs in
      let switch = best_from objective q qs in
      elim (a.compare (measure objective p) (measure objective q)) [
        | none ↦ none
        | some c ↦ elim c [ Ordering.gt ↦ switch | _ ↦ stay ]
      ]

  -- Without policies the index of `policies[0]` panics.
  unfoldable pub select_policy : List (SimPolicy F) → Text → Result TspError Text
  select_policy [] objective = err panicked
  select_policy (p ∷ ps) objective = elim (best_from objective p ps) [
    | none ↦ err panicked
    | some best ↦ ok best.id
  ]

  unfoldable pub run_stub :
      (uuid : Text) → OsovmEngine → Twin F → SimScenario → Result TspError (OsovmRunResult F)
  run_stub uuid engine twin scenario =
      let run_id = text "osovm:run:" ++ uuid in
      let trajectories =
        trajectories_from run_id twin.f1_score (max_2 scenario.trajectory_count) 0 in
      let candidate_policies = map average (tally_all trajectories []) in
      do
        guard (not (ltb (length candidate_policies) 2))
            (insufficient_policies (length candidate_policies))
        selected ← select_policy candidate_policies scenario.selection_objective
        ok (record {
          engine_version = engine.engine_version;
          scenario = scenario;
          trajectories = trajectories;
          candidate_policies = candidate_policies;
          selected_policy_id = selected;
          run_id = run_id;
          wall_ms = 0;
        })

  -- `run`, with the real engine at an endpoint as a parameter
  module _ (run_real : Text → Twin F → SimScenario → Result TspError (OsovmRunResult F)) where
    unfoldable pub run :
        (uuid : Text) (now_secs : ℕ)
        → OsovmEngine
        → Twin F
        → SimScenario
        → Result TspError (OsovmRunResult F)
    run uuid now_secs engine twin scenario =
        let stub = run_stub uuid engine twin scenario in
        if not engine.bypass_sabbath && is_sabbath now_secs
        then err sabbath_freeze
        else elim engine.endpoint [
          | none ↦ stub
          | some e ↦ elim (run_real e twin scenario) [ ok result ↦ ok result | err _ ↦ stub ]
        ]

    abbrev pub claim_of :
        OsovmRunResult F → Text → IdentityChain → Text → List WitnessAttestation → Claim F
    claim_of r twin_id identity private_key witnesses = record {
      identity = identity;
      twin_id = twin_id;
      sim_engine = r.engine_version;
      robot_model = r.scenario.robot_model;
      trajectory_count = r.scenario.trajectory_count;
      all_policies = r.candidate_policies;
      selected_policy_id = r.selected_policy_id;
      selection_criteria = r.scenario.selection_objective;
      witnesses = witnesses;
      private_key = private_key;
    }

    module _ (s : Services F) where
      unfoldable pub commitment_of_run : OsovmRunResult F → Text → Text → Text
      commitment_of_run r policies_json twin_id =
          commit s (hash_bytes s.hashing policies_json) r.scenario.robot_model r.engine_version
            r.scenario.trajectory_count twin_id

      -- `sign(..).unwrap_or_else(|_| "invalid".into())`
      unfoldable pub witness : (now : ℕ) (commitment : Text) → Text × Text → WitnessAttestation
      witness now commitment (did, key) = record {
        witness_id = did;
        merkle_commitment = commitment;
        timestamp = now;
        signature = elim (s.sign commitment key) [ ok sig ↦ sig | err _ ↦ text "invalid" ];
      }

      unfoldable pub prove :
          (run_uuid uuid : Text) (now now_secs : ℕ)
          → OsovmEngine
          → Twin F
          → SimScenario
          → IdentityChain
          → (private_key : Text) → List (Text × Text)
          → Result TspError (SimulationReceipt F)
      prove run_uuid uuid now now_secs engine twin scenario identity private_key witness_keys = do
        guard (not (ltb (length witness_keys) 2)) (insufficient_witnesses (length witness_keys))
        r ← run run_uuid now_secs engine twin scenario
        policies_json ← s.policies_json r.candidate_policies
        let commitment = commitment_of_run r policies_json twin.twin_id
        build s uuid now (
            claim_of r twin.twin_id identity private_key
              (map (witness now commitment) witness_keys))

      unfoldable pub run_and_commitment :
          (uuid : Text) (now_secs : ℕ)
          → OsovmEngine
          → Twin F
          → SimScenario
          → Result TspError (OsovmRunResult F × Text)
      run_and_commitment uuid now_secs engine twin scenario = do
        r ← run uuid now_secs engine twin scenario
        policies_json ← s.policies_json r.candidate_policies
        ok (r, commitment_of_run r policies_json twin.twin_id)

      unfoldable pub prove_with_attestations :
          (uuid : Text) (now : ℕ)
          → OsovmRunResult F
          → (twin_id : Text) → IdentityChain
          → (private_key : Text) → List WitnessAttestation
          → Result TspError (SimulationReceipt F)
      prove_with_attestations uuid now r twin_id identity private_key attestations = do
        guard (not (ltb (length attestations) 2)) (insufficient_witnesses (length attestations))
        build s uuid now (claim_of r twin_id identity private_key attestations)
