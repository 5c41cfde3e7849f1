-- ===== src/Twin/Simulation.antt =====
-- twin-protocol/src/simulation.rs: the receipt of a proof of simulation. SHA-256 and `hex` come as
-- in Shared/Merkle; JSON texts and Ed25519 signatures are parameters.
use sovereign_stack.Base.{
  ℕ, Bool, true, false, not, Option, none, some, List, [], ◌∷◌, ◌++◌, map, Text, text,
  Text_discrete, eqb, length, find?, ltb, Result, ok, err, ◌>>=◌, ◌>>◌, guard, if◌then◌else◌,
}
use sovereign_stack.Runtime.Identity.{IdentityChain}
use sovereign_stack.Shared.Merkle.{Hashing, merkle_root, hash_bytes}

pub record SimPolicy (F : Type 0) : Type 0 where
  pub id : Text
  pub energy : F
  pub risk : F
  pub duration_s : F
  pub metrics : Option Text

pub record WitnessAttestation : Type 0 where
  pub witness_id : Text
  pub merkle_commitment : Text
  pub timestamp : ℕ
  pub signature : Text

-- `TspError`, as far as simulations give it. The mismatch has the commitment and what the witness
-- attested to; a panic is a value too, which nothing catches.
pub data TspError : Type 0 where
  insufficient_policies insufficient_witnesses : ℕ → TspError
  policy_not_found json crypto simulation_error : Text → TspError
  merkle_root_mismatch : (expected got : Text) → TspError
  sabbath_freeze panicked : TspError

-- What the crates `serde_json` and `ed25519-dalek` do for this code.
pub record Services (F : Type 0) : Type 0 where
  pub hashing : Hashing
  pub policies_json : List (SimPolicy F) → Result TspError Text
  pub string_json : Text → Text
  pub number_json : ℕ → Text
  -- the text and the private key
  pub sign : Text → Text → Result TspError Text

pub record SimulationReceipt (F : Type 0) : Type 0 where
  pub kind : Text
  pub receipt_id : Text
  pub twin_id : Text
  pub identity : IdentityChain
  pub sim_engine : Text
  pub robot_model : Text
  pub trajectory_count : ℕ
  pub all_policies_hash : Text
  pub all_policies : List (SimPolicy F)
  pub selected_policy_id : Text
  pub selection_criteria : Text
  pub merkle_commitment : Text
  pub witness_ids : List Text
  pub witness_sigs : List WitnessAttestation
  pub timestamp : ℕ
  pub signature : Text

-- The arguments of `build`.
pub record Claim (F : Type 0) : Type 0 where
  pub identity : IdentityChain
  pub twin_id : Text
  pub sim_engine : Text
  pub robot_model : Text
  pub trajectory_count : ℕ
  pub all_policies : List (SimPolicy F)
  pub selected_policy_id : Text
  pub selection_criteria : Text
  pub witnesses : List WitnessAttestation
  pub private_key : Text

-- Without fuel there is no text; it never happens, since roots are total.
abbrev pub text_of : Option Text → Text
text_of none = []
text_of (some t) = t

abbrev pub has_id : {F : Type 0} → Text → SimPolicy F → Bool
has_id id p = eqb Text_discrete p.id id

abbrev pub any : {A : Type 0} → (A → Bool) → List A → Bool
any p [] = false
any p (x ∷ xs) = if p x then true else any p xs

-- `Ok(Self { .. })`
abbrev pub receipt_of :
    {F : Type 0}
    → (uuid : Text) (now : ℕ) → Claim F
    → (policies_hash commitment signature : Text) → SimulationReceipt F
receipt_of uuid now c policies_hash commitment signature = record {
  kind = text "proof_of_simulation";
  receipt_id = text "rcpt:sim:" ++ uuid;
  twin_id = c.twin_id;
  identity = c.identity;
  sim_engine = c.sim_engine;
  robot_model = c.robot_model;
  trajectory_count = c.trajectory_count;
  all_policies_hash = policies_hash;
  all_policies = c.all_policies;
  selected_policy_id = c.selected_policy_id;
  selection_criteria = c.selection_criteria;
  merkle_commitment = commitment;
  witness_ids = map (λ w. w.witness_id) c.witnesses;
  witness_sigs = c.witnesses;
  timestamp = now;
  signature = signature;
}

module _ {F : Type 0} (s : Services F) where
  -- the fields of the commitment, in the order of their keys
  unfoldable pub commitment_fields :
      (policies_hash robot_model sim_engine : Text) (trajectory_count : ℕ) (twin_id : Text)
      → List (Text × Text)
  commitment_fields policies_hash robot_model sim_engine trajectory_count twin_id =
      (text "all_policies_hash", s.string_json policies_hash)
      ∷ (text "robot_model", s.string_json robot_model)
      ∷ (text "sim_engine", s.string_json sim_engine)
      ∷ (text "trajectory_count", s.number_json trajectory_count)
      ∷ (text "twin_id", s.string_json twin_id)
      ∷ []

  unfoldable pub commit :
      (policies_hash robot_model sim_engine : Text) (trajectory_count : ℕ) (twin_id : Text) → Text
  commit policies_hash robot_model sim_engine trajectory_count twin_id = text_of (
      merkle_root s.hashing
        (commitment_fields policies_hash robot_model sim_engine trajectory_count twin_id))

  -- the loop over the witnesses
  unfoldable pub check_witnesses : Text → List WitnessAttestation → Result TspError (Unit {0})
  check_witnesses commitment [] = ok tt
  check_witnesses commitment (w ∷ ws) =
      if eqb Text_discrete w.merkle_commitment commitment
      then check_witnesses commitment ws
      else err (merkle_root_mismatch commitment w.merkle_commitment)

  -- `build`, at a time and with a fresh id
  unfoldable pub build : (uuid : Text) (now : ℕ) → Claim F → Result TspError (SimulationReceipt F)
  build uuid now c = do
    guard (not (ltb (length c.all_policies) 2)) (insufficient_policies (length c.all_policies))
    guard (any (has_id c.selected_policy_id) c.all_policies) (policy_not_found c.selected_policy_id)
    guard (not (ltb (length c.witnesses) 2)) (insufficient_witnesses (length c.witnesses))
    policies_json ← s.policies_json c.all_policies
    let all_policies_hash = hash_bytes s.hashing policies_json
    let commitment =
        commit all_policies_hash c.robot_model c.sim_engine c.trajectory_count c.twin_id
    check_witnesses commitment c.witnesses
    signature ← s.sign commitment c.private_key
    ok (receipt_of uuid now c all_policies_hash commitment signature)

unfoldable pub selected_policy : {F : Type 0} → SimulationReceipt F → Option (SimPolicy F)
selected_policy r = find? (has_id r.selected_policy_id) r.all_policies
