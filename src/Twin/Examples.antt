-- ===== src/Twin/Examples.antt =====
-- Proofs of simulation at concrete values: the numbers are naturals, and a text is its own digest.
use sovereign_stack.Base.{
  ℕ, ◌+◌, ◌-◌, ◌*◌, ◌/◌, ◌≡◌, ◌≤◌, ◌↔◌, ◌⊎◌, refl, some, none, true, List, [], ◌∷◌, Text, text,
  Text_discrete, map, length, All, compare, ltb, min, replicate, length-replicate, Result, ok, err,
  arith,
}
use sovereign_stack.Runtime.Identity.{IdentityChain}
use sovereign_stack.Shared.Merkle.{Hashing, IsHashing, hash_bytes}
use sovereign_stack.Shared.Leaves.{Collision}
use sovereign_stack.Twin.Simulation.{
  WitnessAttestation, TspError, Services, SimulationReceipt, Claim, receipt_of,
}
use sovereign_stack.Twin.Proof.{IsProven}
use sovereign_stack.Twin.Binding.{IsJson, IsSame, commitment_binds}
use sovereign_stack.Twin.Engine.{
  SimScenario, OsovmRunResult, OsovmEngine, Twin, Arithmetic, bypassing_sabbath, with_endpoint_opt,
  new_engine, run_stub, run, commitment_of_run, select_policy, best_from, witness, prove,
  run_and_commitment, prove_with_attestations, trajectories_from, trajectory, policy_name,
  tally_all, tally, less, measure, max_2,
}
use sovereign_stack.Twin.Rollout.{Comparable, IsRun, stub_policies}
use sovereign_stack.Twin.Witnessed.{prove_total, two_phase_iff}

abbrev plain : Hashing
plain = record { sha256 = λ t. replicate 32 0; hex = λ t. t }

plain-IsHashing : IsHashing plain
plain-IsHashing = record {
  digest_length = λ t. length-replicate {A = ℕ} 32 0;
  hex_injective = λ s t e. e;
}

abbrev services : Services ℕ
services = record {
  hashing = plain;
  policies_json = λ ps. ok (text "[]");
  string_json = λ t. t;
  number_json = λ n. n ∷ [];
  sign = λ m key. ok m;
}

services-IsJson : IsJson services
services-IsJson = record { string_injective = λ t u e. e; number_injective = λ m n e. cc }

abbrev naturals : Arithmetic ℕ
naturals = record {
  decimal = λ m d. m;
  from_u32 = λ n. n;
  add = λ m n. m + n;
  sub = λ m n. m - n;
  mul = λ m n. m * n;
  div = λ m n. m / n;
  max = λ m n. m + n - min m n;
  min = min;
  sin = λ n. n;
  cos = λ n. n;
  lt = ltb;
  compare = λ m n. some (compare m n);
  display = λ n. n ∷ [];
  count_json = λ n. n ∷ [];
  grounding_json = λ n. n ∷ [];
}

abbrev scenario : SimScenario
scenario = record {
  name = text "lab";
  robot_model = text "Go2";
  trajectory_count = 1;
  selection_objective = text "min_risk";
  params = none;
}

abbrev twin : Twin ℕ
twin = record { twin_id = text "twin:1"; f1_score = 1 }

abbrev engine : OsovmEngine
engine = record { engine_version = text "osovm/2.0"; endpoint = none; bypass_sabbath = true }

built : bypassing_sabbath (with_endpoint_opt (new_engine (text "osovm/2.0")) none) ≡ engine
unfolding bypassing_sabbath with_endpoint_opt new_engine
built = refl

abbrev identity : IdentityChain
identity = record {
  principal_id = text "did:p";
  agent_id = text "did:a";
  session_id = text "s";
  execution_id = text "e";
  receipt_id = text "r";
}

abbrev offline : Text → Twin ℕ → SimScenario → Result TspError (OsovmRunResult ℕ)
offline endpoint _ _ = err (TspError.simulation_error endpoint)

abbrev keys : List (Text × Text)
keys = (text "did:w:1", text "k1") ∷ (text "did:w:2", text "k2") ∷ []

comparable : Comparable naturals (text "min_risk") (stub_policies naturals (text "u") twin scenario)
unfolding trajectories_from trajectory policy_name tally_all tally less measure max_2 Text_discrete
comparable = ((λ e. cc, tt), (tt, tt))

prove_total_example :
    (c : Claim ℕ) × (r : SimulationReceipt ℕ) × (prove naturals offline services
        (text "u")
        (text "v")
        5
        7
        engine
        twin
        scenario
        identity
        (text "key")
        keys
      ≡ ok r)
    × IsProven services c r
    × (r.witness_sigs ≡ map (witness naturals offline services 5 r.merkle_commitment) keys)
prove_total_example =
    prove_total naturals offline services (text "u") (text "v") 5 7 engine twin scenario identity
      (text "key") keys (text "[]") refl refl comparable (omega arith) refl (λ m. (m, refl))

abbrev rolled : OsovmRunResult ℕ
rolled = record {
  engine_version = text "osovm/2.0";
  scenario = scenario;
  trajectories = trajectories_from naturals (text "osovm:run:u") 1 2 0;
  candidate_policies = stub_policies naturals (text "u") twin scenario;
  selected_policy_id = text "policy:balanced";
  run_id = text "osovm:run:u";
  wall_ms = 0;
}

abbrev commitment : Text
commitment = commitment_of_run naturals offline services rolled (text "[]") (text "twin:1")

first_phase :
    run_and_commitment naturals offline services (text "u") 7 engine twin scenario
    ≡ ok (rolled, commitment)
unfolding run_and_commitment run run_stub trajectories_from trajectory policy_name tally_all tally
    less measure max_2 Text_discrete select_policy best_from
first_phase = refl

rolled-IsRun : IsRun naturals rolled
unfolding trajectories_from trajectory policy_name tally_all tally less measure max_2 Text_discrete
rolled-IsRun = record { policies = omega arith; selected = refl }

abbrev attestations : List WitnessAttestation
attestations = map (witness naturals offline services 5 commitment) keys

two_phase_iff_example :
    ((q : SimulationReceipt ℕ) × (prove_with_attestations naturals offline services
          (text "v")
          5
          rolled
          (text "twin:1")
          identity
          (text "key")
          attestations
        ≡ ok q))
    ↔ (IsRun naturals rolled
        × (2 ≤ length attestations)
        × All (λ w. w.merkle_commitment ≡ commitment) attestations
        × ((g : Text) × (Services.sign services commitment (text "key") ≡ ok g)))
two_phase_iff_example =
    two_phase_iff naturals offline services (text "u") (text "v") 5 7 engine twin scenario identity
      (text "key") attestations rolled commitment first_phase

abbrev claim : Claim ℕ
claim = record {
  identity = identity;
  twin_id = text "twin:1";
  sim_engine = text "osovm/2.0";
  robot_model = text "Go2";
  trajectory_count = 1;
  all_policies = stub_policies naturals (text "u") twin scenario;
  selected_policy_id = text "policy:balanced";
  selection_criteria = text "min_risk";
  witnesses = attestations;
  private_key = text "key";
}

abbrev receipt : SimulationReceipt ℕ
receipt = receipt_of (text "v") 5 claim (hash_bytes plain (text "[]")) commitment commitment

proven : IsProven services claim receipt
unfolding trajectories_from trajectory policy_name tally_all tally less measure max_2 Text_discrete
    witness commitment_of_run
proven = record {
  policies = omega arith;
  selected = refl;
  witnesses = omega arith;
  policies_text = text "[]";
  serialised = refl;
  hashed = refl;
  committed = refl;
  attested = (refl, (refl, tt));
  signed = refl;
}

commitment_binds_example : IsSame services claim claim ⊎ Collision plain plain-IsHashing
commitment_binds_example =
    commitment_binds services plain-IsHashing services-IsJson claim claim receipt receipt proven
      proven refl
