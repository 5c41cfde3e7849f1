-- ===== src/Twin/Binding.antt =====
-- What the signature of a receipt of twin-protocol/src/simulation.rs is bound to.
use sovereign_stack.Base.{
  ℕ, ◌≡◌, ◌⊎◌, inl, inr, refl, sym, ap, ◌∙◌, Option, some, List, map, Text, Text_discrete, ok,
}
use sovereign_stack.Shared.Merkle.{IsHashing, merkle_root, hash_bytes}
use sovereign_stack.Shared.Leaves.{Collision}
use sovereign_stack.Shared.Commitment.{merkle_root_total, merkle_root_binds, same_root}
use sovereign_stack.Twin.Simulation.{
  Services, SimulationReceipt, Claim, commitment_fields, commit, text_of,
}
use sovereign_stack.Twin.Proof.{IsProven}

-- The JSON texts of strings and of numbers can be parsed back.
pub record IsJson {F : Type 0} (s : Services F) : Type 0 where
  pub string_injective : (t u : Text) → s.string_json t ≡ s.string_json u → t ≡ u
  pub number_injective : (m n : ℕ) → s.number_json m ≡ s.number_json n → m ≡ n

-- The same simulation: engine, model, number of rollouts, twin and policies.
pub record IsSame {F : Type 0} (s : Services F) (c d : Claim F) : Type 0 where
  pub robot_model : c.robot_model ≡ d.robot_model
  pub sim_engine : c.sim_engine ≡ d.sim_engine
  pub trajectory_count : c.trajectory_count ≡ d.trajectory_count
  pub twin_id : c.twin_id ≡ d.twin_id
  pub policies : s.policies_json c.all_policies ≡ s.policies_json d.all_policies

module _ {F : Type 0} (s : Services F) (laws : IsHashing s.hashing) (json : IsJson s) where
  abbrev Clash : Type 0
  Clash = Collision s.hashing laws

  same_option :
      (o p : Option Text) (a b : Text) → o ≡ some a → p ≡ some b → text_of o ≡ text_of p → o ≡ p
  same_option o p a b x y e =
      let same : a ≡ b = sym (ap text_of x) ∙ e ∙ ap text_of y in x ∙ ap some same ∙ sym y

  fields_bind :
      (fs gs : List (Text × Text))
      → map (λ f. f.0) fs ≡ map (λ f. f.0) gs
      → text_of (merkle_root s.hashing fs) ≡ text_of (merkle_root s.hashing gs)
      → (fs ≡ gs) ⊎ Clash
  fields_bind fs gs k e =
      let (d, p, i) = merkle_root_total s.hashing laws fs in
      let (d', p', i') = merkle_root_total s.hashing laws gs in
      merkle_root_binds s.hashing laws fs gs k (same_option _ _ _ _ p p' e)

  hash_binds : (t u : Text) → hash_bytes s.hashing t ≡ hash_bytes s.hashing u → (t ≡ u) ⊎ Clash
  unfolding hash_bytes
  hash_binds t u e = elim (Text_discrete t u) [
    | yes same ↦ inl same
    | no other ↦
        inr (t, u, other, same_root s.hashing laws (s.hashing.sha256 t) (s.hashing.sha256 u) e)
  ]

  abbrev fields : Claim F → SimulationReceipt F → List (Text × Text)
  fields c r =
      commitment_fields s r.all_policies_hash c.robot_model c.sim_engine c.trajectory_count
        c.twin_id

  same_keys :
      (c d : Claim F) (r q : SimulationReceipt F)
      → map (λ (f : Text × Text). f.0) (fields c r) ≡ map (λ f. f.0) (fields d q)
  unfolding commitment_fields
  same_keys c d r q = refl

  abbrev SameValues : (c d : Claim F) (r q : SimulationReceipt F) → Type 0
  SameValues c d r q =
      (r.all_policies_hash ≡ q.all_policies_hash)
      × (c.robot_model ≡ d.robot_model)
      × (c.sim_engine ≡ d.sim_engine)
      × (c.trajectory_count ≡ d.trajectory_count)
      × (c.twin_id ≡ d.twin_id)

  same_values :
      (c d : Claim F) (r q : SimulationReceipt F) → fields c r ≡ fields d q → SameValues c d r q
  unfolding commitment_fields
  same_values c d r q e = (
    json.string_injective r.all_policies_hash q.all_policies_hash (cc),
    json.string_injective c.robot_model d.robot_model (cc),
    json.string_injective c.sim_engine d.sim_engine (cc),
    json.number_injective c.trajectory_count d.trajectory_count (cc),
    json.string_injective c.twin_id d.twin_id (cc),
  )

  IsSame-claims :
      (c d : Claim F) (r q : SimulationReceipt F)
      → IsProven s c r
      → IsProven s d q
      → SameValues c d r q
      → IsSame s c d ⊎ Clash
  IsSame-claims c d r q v w (h, m, n, t, i) =
      elim (hash_binds v.policies_text w.policies_text (sym v.hashed ∙ h ∙ w.hashed)) [
        | inr clash ↦ inr clash
        | inl e ↦ inl (record {
          robot_model = m;
          sim_engine = n;
          trajectory_count = t;
          twin_id = i;
          policies = v.serialised ∙ ap ok e ∙ sym w.serialised;
        })
      ]

  -- A commitment, and so the signature over it, stands for one simulation: claims with receipts of
  -- the same commitment agree on the engine, the robot model, the number of rollouts, the twin and
  -- the text of all policies, or two different texts with the same SHA-256 digest are at hand.
  pub commitment_binds :
      (c d : Claim F) (r q : SimulationReceipt F)
      → IsProven s c r
      → IsProven s d q
      → r.merkle_commitment ≡ q.merkle_commitment
      → IsSame s c d ⊎ Clash
  unfolding commit
  commitment_binds c d r q v w e =
      let roots = sym v.committed ∙ e ∙ w.committed in
      elim (fields_bind (fields c r) (fields d q) (same_keys c d r q) roots) [
        | inr clash ↦ inr clash
        | inl same ↦ IsSame-claims c d r q v w (same_values c d r q same)
      ]
