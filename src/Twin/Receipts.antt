-- ===== src/Twin/Receipts.antt =====
-- twin-protocol/src/capture.rs and scene.rs: the receipts of a capture (kind 31020) and of the scene
-- assembled from it (kind 31030). The UUID and the clock are arguments.
use sovereign_stack.Base.{
  ℕ, Option, none, some, List, [], ◌∷◌, ◌++◌, map, Text, text, Result, ok, ◌>>=◌, ◌>>◌,
}
use sovereign_stack.Runtime.Identity.{IdentityChain}
use sovereign_stack.Shared.Merkle.{merkle_root, hash_bytes}
use sovereign_stack.Twin.Simulation.{text_of}
use sovereign_stack.Twin.Asset.{
  Modality, PrivacyFlag, LicenseType, TwinRegion, TwinAsset, AssetError, AssetServices, gate,
  splat_of,
}

pub record CaptureReceipt (F G : Type 0) : Type 0 where
  pub kind : ℕ
  pub receipt_id : Text
  pub identity : IdentityChain
  pub device_ids : List Text
  pub modalities : List Modality
  pub region : TwinRegion F G
  pub capture_epoch : ℕ × ℕ
  pub f1_score : F
  pub coverage_pct : F
  pub frame_count : ℕ
  pub duration_ms : ℕ
  pub raw_hashes : List (Text × Text)
  pub novelty_score : F
  pub delta_coverage : F
  pub privacy_flags : List PrivacyFlag
  pub merkle_root : Text
  pub signature : Text
  pub timestamp : ℕ

-- The arguments of `CaptureReceipt::build`; the raw data is a `BTreeMap`, in the order of its keys.
pub record CaptureRun (F G : Type 0) : Type 0 where
  pub identity : IdentityChain
  pub device_ids : List Text
  pub modalities : List Modality
  pub region : TwinRegion F G
  pub capture_epoch : ℕ × ℕ
  pub f1_score : F
  pub coverage_pct : F
  pub frame_count : ℕ
  pub duration_ms : ℕ
  pub raw_data : List (Text × Text)
  pub novelty_score : F
  pub delta_coverage : F
  pub privacy_flags : List PrivacyFlag
  pub private_key : Text

pub record SceneReceipt (F : Type 0) : Type 0 where
  pub kind : ℕ
  pub receipt_id : Text
  pub twin_id : Text
  pub version : ℕ
  pub identity : IdentityChain
  pub capture_receipt_ids : List Text
  pub reconstruction_engine : Text
  pub splat_hash : Text
  pub geometry_hash : Option Text
  pub semantic_hash : Option Text
  pub f1_score : F
  pub coverage_pct : F
  pub gaussian_count : Option ℕ
  pub sui_object_id : Option Text
  pub ip_root_tx : Option Text
  pub license_type : LicenseType
  pub merkle_root : Text
  pub signature : Text
  pub timestamp : ℕ

unfoldable pub with_sui : {F : Type 0} → SceneReceipt F → (object_id tx : Text) → SceneReceipt F
with_sui r object_id tx = record r { sui_object_id = some object_id; ip_root_tx = some tx }

module _ {F G : Type 0} (s : AssetServices F G) where
  abbrev pub hash_entry : Text × Text → Text × Text
  hash_entry (modality, bytes) = (modality, hash_bytes s.hashing bytes)

  -- the fields of the root, in the order of their keys
  unfoldable pub capture_root : (receipt_id : Text) (now : ℕ) → CaptureRun F G → Text
  capture_root receipt_id now c = text_of (
      merkle_root s.hashing (
        (text "capture_epoch", s.epoch_json c.capture_epoch)
        ∷ (text "coverage_pct", s.float_json c.coverage_pct)
        ∷ (text "device_ids", s.strings_json c.device_ids)
        ∷ (text "f1_score", s.float_json c.f1_score)
        ∷ (text "frame_count", s.number_json c.frame_count)
        ∷ (text "identity", s.identity_json c.identity)
        ∷ (text "kind", s.number_json 31020)
        ∷ (text "modalities", s.modalities_json c.modalities)
        ∷ (text "novelty_score", s.float_json c.novelty_score)
        ∷ (text "privacy_flags", s.flags_json c.privacy_flags)
        ∷ (text "raw_hashes", s.map_json (map hash_entry c.raw_data))
        ∷ (text "receipt_id", s.string_json receipt_id)
        ∷ (text "region", s.region_json c.region)
        ∷ (text "timestamp", s.number_json now)
        ∷ []))

  abbrev pub capture_of :
      (receipt_id : Text) (now : ℕ) → CaptureRun F G → (root signature : Text) → CaptureReceipt F G
  capture_of receipt_id now c root signature = record {
    kind = 31020;
    receipt_id = receipt_id;
    identity = c.identity;
    device_ids = c.device_ids;
    modalities = c.modalities;
    region = c.region;
    capture_epoch = c.capture_epoch;
    f1_score = c.f1_score;
    coverage_pct = c.coverage_pct;
    frame_count = c.frame_count;
    duration_ms = c.duration_ms;
    raw_hashes = map hash_entry c.raw_data;
    novelty_score = c.novelty_score;
    delta_coverage = c.delta_coverage;
    privacy_flags = c.privacy_flags;
    merkle_root = root;
    signature = signature;
    timestamp = now;
  }

  -- `CaptureReceipt::build`
  unfoldable pub build_capture :
      (uuid : Text) (now : ℕ) → CaptureRun F G → Result (AssetError F) (CaptureReceipt F G)
  build_capture uuid now c =
      gate s c.f1_score
      >> (let receipt_id = text "rcpt:31020:" ++ uuid in
          let root = capture_root receipt_id now c in
          s.sign root c.private_key >>= λ signature.
          ok (capture_of receipt_id now c root signature))

  unfoldable pub verify_integrity : CaptureReceipt F G → Result (AssetError F) (Unit {0})
  verify_integrity r = gate s r.f1_score

  abbrev pub ids_of : List (CaptureReceipt F G) → List Text
  ids_of captures = map (λ c. c.receipt_id) captures

  -- the fields of the root, in the order of their keys
  unfoldable pub scene_root :
      (receipt_id : Text) (now : ℕ)
      → IdentityChain
      → TwinAsset F G
      → List (CaptureReceipt F G)
      → (splat_hash : Text) → Text
  scene_root receipt_id now identity twin captures splat_hash = text_of (
      merkle_root s.hashing (
        (text "capture_receipt_ids", s.strings_json (ids_of captures))
        ∷ (text "coverage_pct", s.float_json twin.quality.coverage_pct)
        ∷ (text "f1_score", s.float_json twin.quality.f1_score)
        ∷ (text "identity", s.identity_json identity)
        ∷ (text "kind", s.number_json 31030)
        ∷ (text "receipt_id", s.string_json receipt_id)
        ∷ (text "splat_hash", s.string_json splat_hash)
        ∷ (text "timestamp", s.number_json now)
        ∷ (text "twin_id", s.string_json twin.twin_id)
        ∷ (text "version", s.number_json twin.version)
        ∷ []))

  abbrev pub scene_of :
      (receipt_id : Text) (now : ℕ)
      → IdentityChain
      → TwinAsset F G
      → List (CaptureReceipt F G)
      → (engine splat_hash root signature : Text) → SceneReceipt F
  scene_of receipt_id now identity twin captures engine splat_hash root signature = record {
    kind = 31030;
    receipt_id = receipt_id;
    twin_id = twin.twin_id;
    version = twin.version;
    identity = identity;
    capture_receipt_ids = ids_of captures;
    reconstruction_engine = engine;
    splat_hash = splat_hash;
    geometry_hash = twin.data_hashes.geometry;
    semantic_hash = twin.data_hashes.semantic;
    f1_score = twin.quality.f1_score;
    coverage_pct = twin.quality.coverage_pct;
    gaussian_count = twin.quality.gaussian_count;
    sui_object_id = none;
    ip_root_tx = none;
    license_type = twin.license.license_type;
    merkle_root = root;
    signature = signature;
    timestamp = now;
  }

  -- `SceneReceipt::build`
  unfoldable pub build_scene :
      (uuid : Text) (now : ℕ)
      → IdentityChain
      → TwinAsset F G
      → List (CaptureReceipt F G)
      → (engine private_key : Text) → Result (AssetError F) (SceneReceipt F)
  build_scene uuid now identity twin captures engine private_key = do
    splat_hash ← splat_of s twin.data_hashes.splat
    gate s twin.quality.f1_score
    let receipt_id = text "rcpt:31030:" ++ uuid
    let root = scene_root receipt_id now identity twin captures splat_hash
    signature ← s.sign root private_key
    ok (scene_of receipt_id now identity twin captures engine splat_hash root signature)
