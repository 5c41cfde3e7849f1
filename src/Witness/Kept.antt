-- ===== src/Witness/Kept.antt =====
-- What the broker of witness-broker/src/bin/main.rs keeps of an attestation.
use sovereign_stack.Base.{
  ℕ, ◌≡◌, ◌≢◌, refl, ap, ◌∙◌, Option, none, some, Text, Text_discrete, lookup, lookup-insert_other,
  lookup-modify, map_option, ite,
}
use sovereign_stack.Witness.Broker.{
  WitnessAttestation, ObservationBundle, AttestationRequest, Digests, BrokerState,
  submit_observation, create_attestation, sign_attestation, attestation_of, canonical_hash,
  with_signature, hash_if_there,
}

module _ {G : Type 0} (d : Digests G) where
  signing_keeps :
      {P : Type 0} (x : Dec P) (signature : Text) (o : Option (WitnessAttestation G))
      → hash_if_there d (ite x (map_option Text_discrete (with_signature signature) o) o)
        ≡ hash_if_there d o
  unfolding canonical_hash
  signing_keeps (yes p) signature none = refl
  signing_keeps (yes p) signature (some a) = refl
  signing_keeps (no p) signature o = refl

module _ {F G : Type 0} (d : Digests G) where
  -- the canonical hash that is stored under an id
  abbrev hash_under : Text → BrokerState F G → Option Text
  hash_under id s = hash_if_there d (lookup Text_discrete id s.attestations)

  -- A request that is no creation under the id in question.
  data Step (id : Text) (s : BrokerState F G) : BrokerState F G → Type 0 where
    submitted : (b : ObservationBundle F G) → Step id s (submit_observation d s b).0
    created :
        (uuid : Text) (now : ℕ) (req : AttestationRequest G)
        → uuid ≢ id
        → Step id s (create_attestation d uuid now s req).0
    signed : (other signature : Text) → Step id s (sign_attestation d s other signature).0

  data Reach (id : Text) (s : BrokerState F G) : BrokerState F G → Type 0 where
    here : Reach id s s
    next : {t u : BrokerState F G} → Reach id s t → Step id t u → Reach id s u

  Step-keeps : (id : Text) (s t : BrokerState F G) → Step id s t → hash_under id t ≡ hash_under id s
  unfolding submit_observation create_attestation sign_attestation
  Step-keeps id s _ (submitted b) = refl
  Step-keeps id s _ (created uuid now req n) =
      ap (hash_if_there d) (
        lookup-insert_other Text_discrete uuid id (attestation_of d uuid now s req) s.attestations
          n)
  Step-keeps id s _ (signed other signature) =
      ap (hash_if_there d)
        (lookup-modify Text_discrete other id (with_signature signature) s.attestations)
      ∙ signing_keeps d (Text_discrete other id) signature (lookup Text_discrete id s.attestations)

  -- The canonical hash under an id is the same after any requests but a creation under that id:
  -- neither signatures nor bundles that come later change it.
  Reach-keeps :
      (id : Text) (s t : BrokerState F G) → Reach id s t → hash_under id t ≡ hash_under id s
  Reach-keeps id s _ here = refl
  Reach-keeps id s _ (next p q) = Step-keeps id _ _ q ∙ Reach-keeps id s _ p
