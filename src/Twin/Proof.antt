-- ===== src/Twin/Proof.antt =====
-- When twin-protocol/src/simulation.rs gives a receipt, and what the receipt commits to.
use sovereign_stack.Base.{
  ℕ, ◌≤◌, ◌≡◌, ◌↔◌, refl, ap, subst, ◌∙◌, Bool, true, false, not, List, [], ◌∷◌, Text,
  Text_discrete, eqb_iff, length, ltb, All, Result, ok, ◌>>=◌, ◌>>◌, guard, bind-eq-ok,
  ok-injective, arith,
}
use sovereign_stack.Shared.Merkle.{hash_bytes}
use sovereign_stack.Twin.Simulation.{
  WitnessAttestation, TspError, insufficient_policies, policy_not_found, insufficient_witnesses,
  Services, SimulationReceipt, Claim, has_id, any, commit, check_witnesses, build, receipt_of,
}

-- A chain of three guards, two results and a check, taken apart.
module _ {A : Type 0} (text_result : Result TspError Text)
    (check : Text → Result TspError (Unit {0})) (sign : Text → Result TspError Text)
    (make : Text → Text → A) where
  abbrev Passes : A → Type 0
  Passes a =
      (t : Text) × (g : Text) × (text_result ≡ ok t)
      × (check t ≡ ok tt)
      × (sign t ≡ ok g)
      × (make t g ≡ a)

  abbrev Chain : (b b' b'' : Bool) (e e' e'' : TspError) → Result TspError A
  Chain b b' b'' e e' e'' = do
    guard b e
    guard b' e'
    guard b'' e''
    t ← text_result
    check t
    g ← sign t
    ok (make t g)

  chain-ok :
      (b b' b'' : Bool) (e e' e'' : TspError) (a : A)
      → Chain b b' b'' e e' e'' ≡ ok a
      → (b ≡ true) × (b' ≡ true) × (b'' ≡ true) × Passes a
  chain-ok false b' b'' e e' e'' a h = cc
  chain-ok true false b'' e e' e'' a h = cc
  chain-ok true true false e e' e'' a h = cc
  chain-ok true true true e e' e'' a h =
      let (t, p, h') = bind-eq-ok text_result _ h in
      let (u, q, h'') = bind-eq-ok (check t) _ h' in
      let (g, r, k) = bind-eq-ok (sign t) (λ g. ok (make t g)) h'' in
      (refl, refl, refl, (t, g, p, q, r, ok-injective k))

  ok-chain :
      (b b' b'' : Bool) (e e' e'' : TspError) (a : A)
      → b ≡ true
      → b' ≡ true
      → b'' ≡ true
      → Passes a
      → Chain b b' b'' e e' e'' ≡ ok a
  ok-chain b b' b'' e e' e'' a x y z (t, g, p, q, r, k) = rw (x, y, z, p, q, r) (ap ok k)

module _ {F : Type 0} (s : Services F) where
  -- What is behind a receipt.
  pub record IsProven (c : Claim F) (r : SimulationReceipt F) : Type 0 where
    pub policies : 2 ≤ length c.all_policies
    pub selected : any (has_id c.selected_policy_id) c.all_policies ≡ true
    pub witnesses : 2 ≤ length c.witnesses
    pub policies_text : Text
    pub serialised : s.policies_json c.all_policies ≡ ok policies_text
    pub hashed : r.all_policies_hash ≡ hash_bytes s.hashing policies_text
    pub committed :
        r.merkle_commitment
        ≡ commit s r.all_policies_hash c.robot_model c.sim_engine c.trajectory_count c.twin_id
    pub attested : All (λ w. w.merkle_commitment ≡ r.merkle_commitment) c.witnesses
    pub signed : s.sign r.merkle_commitment c.private_key ≡ ok r.signature

  check_witnesses-ok :
      (m : Text) (ws : List WitnessAttestation)
      → check_witnesses s m ws ≡ ok tt
      → All (λ w. w.merkle_commitment ≡ m) ws
  unfolding check_witnesses
  check_witnesses-ok m [] h = tt
  check_witnesses-ok m (w ∷ ws) h =
      ground (arith, eqb_iff Text_discrete w.merkle_commitment m, check_witnesses-ok m ws)

  check_witnesses-All :
      (m : Text) (ws : List WitnessAttestation)
      → All (λ w. w.merkle_commitment ≡ m) ws
      → check_witnesses s m ws ≡ ok tt
  unfolding check_witnesses
  check_witnesses-All m [] h = refl
  check_witnesses-All m (w ∷ ws) h =
      rw ((eqb_iff Text_discrete w.merkle_commitment m).1 h.0) (check_witnesses-All m ws h.1)

  module _ (uuid : Text) (now : ℕ) (c : Claim F) where
    abbrev commitment_of : Text → Text
    commitment_of t =
        commit s (hash_bytes s.hashing t) c.robot_model c.sim_engine c.trajectory_count c.twin_id

    abbrev make : Text → Text → SimulationReceipt F
    make t g = receipt_of uuid now c (hash_bytes s.hashing t) (commitment_of t) g

    abbrev enough : Bool
    enough = not (ltb (length c.all_policies) 2)

    abbrev chosen : Bool
    chosen = any (has_id c.selected_policy_id) c.all_policies

    abbrev watched : Bool
    watched = not (ltb (length c.witnesses) 2)

    abbrev PassesBuild : SimulationReceipt F → Type 0
    PassesBuild r =
        Passes (s.policies_json c.all_policies)
          (λ t. check_witnesses s (commitment_of t) c.witnesses)
          (λ t. s.sign (commitment_of t) c.private_key) make r

    abbrev IsReceiptOf : SimulationReceipt F → Type 0
    IsReceiptOf r = r ≡ receipt_of uuid now c r.all_policies_hash r.merkle_commitment r.signature

    proven :
        (r : SimulationReceipt F)
        → (enough ≡ true) × (chosen ≡ true) × (watched ≡ true) × PassesBuild r
        → IsProven c r × IsReceiptOf r
    proven r (x, y, z, (t, g, p, q, k, e)) =
        subst (λ r. IsProven c r × IsReceiptOf r) e
          (
            record {
              policies = ground arith;
              selected = y;
              witnesses = ground arith;
              policies_text = t;
              serialised = p;
              hashed = refl;
              committed = refl;
              attested = check_witnesses-ok (commitment_of t) c.witnesses q;
              signed = k;
            },
            refl,
          )

    accepted :
        (r : SimulationReceipt F)
        → IsProven c r × IsReceiptOf r
        → (enough ≡ true) × (chosen ≡ true) × (watched ≡ true) × PassesBuild r
    accepted r (v, same) =
        let m : r.merkle_commitment ≡ commitment_of v.policies_text =
          v.committed
          ∙ ap (λ t. commit s t c.robot_model c.sim_engine c.trajectory_count c.twin_id) v.hashed in
        (
          ground (arith, v.policies),
          v.selected,
          ground (arith, v.witnesses),
          (
            v.policies_text,
            r.signature,
            v.serialised,
            check_witnesses-All _ c.witnesses
                (subst (λ k. All (λ w. w.merkle_commitment ≡ k) c.witnesses) m v.attested),
            subst (λ k. s.sign k c.private_key ≡ ok r.signature) m v.signed,
            cc (v.hashed, m, same),
          ),
        )

    -- A receipt is built exactly for two policies or more that hold the selected one, with two
    -- witnesses or more who all attest to the commitment of the receipt; the receipt is the
    -- claim's, with the hash of all its policies and a signature of the commitment.
    pub build_iff :
        (r : SimulationReceipt F)
        → (build s uuid now c ≡ ok r) ↔ (
            IsProven c r
            × (r ≡ receipt_of uuid now c r.all_policies_hash r.merkle_commitment r.signature))
    unfolding build
    build_iff r = (
      λ h. proven r (
          chain-ok (s.policies_json c.all_policies)
            (λ t. check_witnesses s (commitment_of t) c.witnesses)
            (λ t. s.sign (commitment_of t) c.private_key) make enough chosen watched
            (insufficient_policies (length c.all_policies)) (policy_not_found c.selected_policy_id)
            (insufficient_witnesses (length c.witnesses)) r h),
      λ h.
          let (x, y, z, p) = accepted r h in
          ok-chain (s.policies_json c.all_policies)
            (λ t. check_witnesses s (commitment_of t) c.witnesses)
            (λ t. s.sign (commitment_of t) c.private_key) make enough chosen watched
            (insufficient_policies (length c.all_policies)) (policy_not_found c.selected_policy_id)
            (insufficient_witnesses (length c.witnesses)) r x y z p,
    )
