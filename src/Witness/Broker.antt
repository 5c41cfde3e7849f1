-- ===== src/Witness/Broker.antt =====
-- witness-types/src/attestation.rs and observation.rs, and the handlers of
-- witness-broker/src/bin/main.rs. The hash functions of the standard library are parameters; `F` and
-- `G` stand for `f32` and `f64`.
use sovereign_stack.Base.{
  ℕ, Option, none, some, List, [], ◌∷◌, ◌++◌, map, Text, Text_discrete, text, Dict, lookup, insert,
  modify,
}

pub data AttestationKind : Type 0 where
  policy_execution sensor_observation twin_capture anomaly_report : AttestationKind

pub data AttestationStatus : Type 0 where
  pending signed published anchored : AttestationStatus

pub record WitnessAttestation (G : Type 0) : Type 0 where
  pub attest_id : Text
  pub kind : AttestationKind
  pub vcp_session_id : Text
  pub device_id : Text
  pub agent_id : Text
  pub sim_receipt_id : Option Text
  pub observation_hash : Text
  pub outcome : Text
  pub status : AttestationStatus
  pub latitude : Option G
  pub longitude : Option G
  pub altitude_m : Option G
  pub nostr_event_id : Option Text
  pub zangbeto_anchor : Option Text
  pub arp_receipt_id : Option Text
  pub timestamp : ℕ
  pub signature : Text

pub record SensorReading (F G : Type 0) : Type 0 where
  pub channel : Text
  pub value : G
  pub unit : Text
  pub timestamp_ms : ℕ
  pub quality : F

pub record ObservationBundle (F G : Type 0) : Type 0 where
  pub bundle_id : Text
  pub device_id : Text
  pub session_id : Text
  pub readings : List (SensorReading F G)
  pub duration_ms : ℕ
  pub hash : Text
  pub captured_at : ℕ

-- The body of a request; its `kind` is not read.
pub record AttestationRequest (G : Type 0) : Type 0 where
  pub vcp_session_id : Text
  pub device_id : Text
  pub agent_id : Text
  pub bundle_id : Text
  pub outcome : Text
  pub kind : Option Text
  pub sim_receipt_id : Option Text
  pub latitude : Option G
  pub longitude : Option G
  pub altitude_m : Option G

-- The texts of numbers, and `sha256_hex` and the hash of a bundle on the joined text.
pub record Digests (G : Type 0) : Type 0 where
  pub display : ℕ → Text
  pub display_value : G → Text
  pub seconds : ℕ → ℕ
  pub attestation_hash : Text → Text
  pub bundle_hash : Text → Text

pub record BrokerState (F G : Type 0) : Type 0 where
  pub attestations : Dict Text (WitnessAttestation G)
  pub bundles : Dict Text (ObservationBundle F G)

unfoldable pub new_state : {F G : Type 0} → BrokerState F G
new_state = record { attestations = []; bundles = [] }

-- `join("|")`
unfoldable pub join_bars : List Text → Text
join_bars [] = []
join_bars (t ∷ []) = t
join_bars (t ∷ u ∷ us) = t ++ (text "|" ++ join_bars (u ∷ us))

abbrev pub colon : Text → Text → Text
colon a b = a ++ (text ":" ++ b)

abbrev pub tag : Text → Text → List Text
tag name value = name ∷ value ∷ []

-- the tag of the simulation, if there is one
abbrev pub sim_tag : Option Text → List (List Text)
sim_tag none = []
sim_tag (some id) = tag (text "sim_receipt") id ∷ []

unfoldable pub to_nostr_tags : {G : Type 0} → WitnessAttestation G → List (List Text)
to_nostr_tags a =
    tag (text "d") a.attest_id
    ∷ tag (text "t") (text "witness")
    ∷ tag (text "session") a.vcp_session_id
    ∷ tag (text "device") a.device_id
    ∷ tag (text "observation_hash") a.observation_hash
    ∷ tag (text "outcome") a.outcome
    ∷ sim_tag a.sim_receipt_id

abbrev pub with_signature : {G : Type 0} → Text → WitnessAttestation G → WitnessAttestation G
with_signature signature a = record a { signature = signature; status = signed }

module _ {G : Type 0} (d : Digests G) where
  unfoldable pub canonical_hash : WitnessAttestation G → Text
  canonical_hash a = d.attestation_hash (
      colon a.attest_id (
        colon a.vcp_session_id
          (colon a.observation_hash (colon a.outcome (d.display (d.seconds a.timestamp))))))

  abbrev pub hash_if_there : Option (WitnessAttestation G) → Option Text
  hash_if_there none = none
  hash_if_there (some a) = some (canonical_hash a)

module _ {F G : Type 0} (d : Digests G) where
  abbrev pub reading_text : SensorReading F G → Text
  reading_text r = colon r.channel (colon (d.display_value r.value) (d.display r.timestamp_ms))

  unfoldable pub compute_hash : ObservationBundle F G → Text
  compute_hash b = d.bundle_hash (join_bars (map reading_text b.readings))

  -- the new state, the id and the hash
  unfoldable pub submit_observation :
      BrokerState F G → ObservationBundle F G → BrokerState F G × Text × Text
  submit_observation s bundle =
      let hash = compute_hash bundle in
      (
        record s {
          bundles = insert Text_discrete bundle.bundle_id (record bundle { hash = hash }) s.bundles;
        },
        bundle.bundle_id,
        hash,
      )

  unfoldable pub get_observation : BrokerState F G → Text → Option (ObservationBundle F G)
  get_observation s id = lookup Text_discrete id s.bundles

  abbrev pub hash_or_unknown : Text → Option (ObservationBundle F G) → Text
  hash_or_unknown id none = text "bundle_unknown:" ++ id
  hash_or_unknown id (some b) = b.hash

  unfoldable pub attestation_of :
      (uuid : Text) (now : ℕ) → BrokerState F G → AttestationRequest G → WitnessAttestation G
  attestation_of uuid now s req = record {
    attest_id = uuid;
    kind = policy_execution;
    vcp_session_id = req.vcp_session_id;
    device_id = req.device_id;
    agent_id = req.agent_id;
    sim_receipt_id = req.sim_receipt_id;
    observation_hash = hash_or_unknown req.bundle_id (lookup Text_discrete req.bundle_id s.bundles);
    outcome = req.outcome;
    status = pending;
    latitude = req.latitude;
    longitude = req.longitude;
    altitude_m = req.altitude_m;
    nostr_event_id = none;
    zangbeto_anchor = none;
    arp_receipt_id = none;
    timestamp = now;
    signature = [];
  }

  -- the new state, the id, the hash and the tags
  unfoldable pub create_attestation :
      (uuid : Text) (now : ℕ)
      → BrokerState F G
      → AttestationRequest G
      → BrokerState F G × Text × Text × List (List Text)
  create_attestation uuid now s req =
      let a = attestation_of uuid now s req in
      (
        record s { attestations = insert Text_discrete uuid a s.attestations },
        uuid,
        canonical_hash d a,
        to_nostr_tags a,
      )

  unfoldable pub get_attestation : BrokerState F G → Text → Option (WitnessAttestation G)
  get_attestation s id = lookup Text_discrete id s.attestations

  unfoldable pub list_attestations : BrokerState F G → List (WitnessAttestation G)
  list_attestations s = map (λ e. e.1) s.attestations

  -- the new state and the hash, or nothing where there is no such attestation
  unfoldable pub sign_attestation :
      BrokerState F G → (id signature : Text) → BrokerState F G × Option Text
  sign_attestation s id signature =
      let after = modify Text_discrete id (with_signature signature) s.attestations in
      (record s { attestations = after }, hash_if_there d (lookup Text_discrete id after))
