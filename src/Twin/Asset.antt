-- ===== src/Twin/Asset.antt =====
-- twin-protocol/src/quality.rs, region.rs and twin.rs: the quality gate and the twin asset, with
-- the types of sovereign-types/src/identity.rs that they use. `F` stands for `f32` and `G` for `f64`.
use sovereign_stack.Base.{
  ℕ, zero, suc, ◌-◌, Bool, true, false, Option, none, some, List, [], ◌∷◌, ◌++◌, Text, text, length,
  starts_with, Result, ok, err, ◌>>=◌, ◌>>◌, guard, not,
}
use sovereign_stack.Runtime.Identity.{IdentityChain}
use sovereign_stack.Shared.Merkle.{Hashing, hash_bytes}

pub data Modality : Type 0 where
  rgb depth lidar imu slam thermal acoustic : Modality

pub data PrivacyFlag : Type 0 where
  faces_detected license_plates_detected personal_data_present : PrivacyFlag

pub data UsageRight : Type 0 where
  view simulate annotate derive distribute commercial : UsageRight

pub data LicenseType : Type 0 where
  exclusive non_exclusive open_access research_only : LicenseType

pub record TwinRegion (F G : Type 0) : Type 0 where
  pub min_lat : G
  pub min_lon : G
  pub max_lat : G
  pub max_lon : G
  pub min_alt_m : Option F
  pub max_alt_m : Option F
  pub label : Option Text

pub record TwinDataHashes : Type 0 where
  pub rgb : Option Text
  pub depth : Option Text
  pub lidar : Option Text
  pub imu : Option Text
  pub slam : Option Text
  pub splat : Option Text
  pub geometry : Option Text
  pub semantic : Option Text
  pub environment : Option Text
  pub custom : Option (List (Text × Text))

-- `TspError`, as far as assets give it.
pub data AssetError (F : Type 0) : Type 0 where
  quality_gate_failed : (score : F) → AssetError F
  missing_hash crypto : Text → AssetError F

-- The operations of `f32`, and the crates `sha2`, `hex`, `ed25519-dalek` and `serde_json`: the JSON
-- text of each type of field.
pub record AssetServices (F G : Type 0) : Type 0 where
  pub lt : F → F → Bool
  -- the literal 0.777
  pub f1_gate : F
  pub hashing : Hashing
  -- the text and the private key
  pub sign : Text → Text → Result (AssetError F) Text
  pub string_json : Text → Text
  pub number_json : ℕ → Text
  pub float_json : F → Text
  pub epoch_json : ℕ × ℕ → Text
  pub strings_json : List Text → Text
  pub identity_json : IdentityChain → Text
  pub modalities_json : List Modality → Text
  pub flags_json : List PrivacyFlag → Text
  pub map_json : List (Text × Text) → Text
  pub region_json : TwinRegion F G → Text
  pub data_hashes_json : TwinDataHashes → Text

pub record TwinQuality (F : Type 0) : Type 0 where
  pub f1_score : F
  pub coverage_pct : F
  pub reconstruction_engine : Text
  pub frame_count : ℕ
  pub gaussian_count : Option ℕ
  pub validated : Bool

pub record TwinProvenance : Type 0 where
  pub capture_receipt_ids : List Text
  pub capture_epoch : Option (ℕ × ℕ)
  pub device_ids : List Text
  pub camera_ids : List Text
  pub pose_estimate_hashes : List Text
  pub calibration_version : Text
  pub evidence_ids : List Text

pub record ContributorSplit (F : Type 0) : Type 0 where
  pub did : Text
  pub pct : F

pub record RevenueSplit (F : Type 0) : Type 0 where
  pub owner_pct : F
  pub contributors : List (ContributorSplit F)
  pub protocol_fee : F

pub record TwinLicenseConfig (F : Type 0) : Type 0 where
  pub license_type : LicenseType
  pub usage_rights : List UsageRight
  pub revenue_split : RevenueSplit F
  pub transferable : Bool

pub record TwinAsset (F G : Type 0) : Type 0 where
  pub twin_id : Text
  pub version : ℕ
  pub owner_did : Text
  pub creator_did : Text
  pub contributors : List Text
  pub region : TwinRegion F G
  pub data_hashes : TwinDataHashes
  pub quality : TwinQuality F
  pub provenance : TwinProvenance
  pub license : TwinLicenseConfig F
  pub sui_object_id : Option Text
  pub merkle_root : Text
  pub signature : Text
  pub created_at : ℕ
  pub updated_at : ℕ

-- `str::replace`: `skip` is what is left of a match of `p`.
unfoldable pub replace_from : ℕ → (p r : Text) → Text → Text
replace_from skip p r [] = []
replace_from (suc skip) p r (c ∷ s) = replace_from skip p r s
replace_from zero p r (c ∷ s) = elim (starts_with p (c ∷ s)) [
  | true ↦ r ++ replace_from (length p - 1) p r s
  | false ↦ c ∷ replace_from zero p r s
]

module _ {F G : Type 0} (s : AssetServices F G) where
  -- the gate that `new`, `assert_valid` and the receipts share
  abbrev pub gate : F → Result (AssetError F) (Unit {0})
  gate f1_score = guard (not (s.lt f1_score s.f1_gate)) (quality_gate_failed f1_score)

  unfoldable pub new_quality :
      (f1_score coverage_pct : F) (engine : Text) → Result (AssetError F) (TwinQuality F)
  new_quality f1_score coverage_pct engine =
      gate f1_score
      >> ok (record {
        f1_score = f1_score;
        coverage_pct = coverage_pct;
        reconstruction_engine = engine;
        frame_count = 0;
        gaussian_count = none;
        validated = false;
      })

  unfoldable pub assert_valid : TwinQuality F → Result (AssetError F) (Unit {0})
  assert_valid q = gate q.f1_score

  unfoldable pub twin_id_from_hashes : TwinDataHashes → Text
  twin_id_from_hashes hashes =
      replace_from 0 (text "sha256:") (text "twin:sha256:")
        (hash_bytes s.hashing (s.data_hashes_json hashes))

  -- `has_splat`
  abbrev pub splat_of : Option Text → Result (AssetError F) Text
  splat_of none = err (missing_hash (text "splat"))
  splat_of (some hash) = ok hash

  unfoldable pub validate_twin : TwinAsset F G → Result (AssetError F) (Unit {0})
  unfolding assert_valid
  validate_twin twin = do assert_valid twin.quality; hash ← splat_of twin.data_hashes.splat; ok tt
