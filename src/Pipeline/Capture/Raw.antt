-- ===== src/Pipeline/Capture/Raw.antt =====
-- sovereign-pipeline/src/capture_pipeline.rs: what a capture is made of, and what surrounds it.
use sovereign_stack.Base.{
  ℕ, ◌-◌, Bool, true, ◌||◌, ◌&&◌, Option, none, some, List, [], ◌∷◌, ◌++◌, Text, text,
  Text_discrete, eqb, length, leb, drop, contains_text, if◌then◌else◌, Result,
}
use sovereign_stack.Runtime.Identity.{IdentityChain}
use sovereign_stack.Vcp.Manifest.{VcpError}
use sovereign_stack.Vcp.Session.{VcpSession, VcpSessionReceipt, record_command}
use sovereign_stack.Twin.Simulation.{TspError}
use sovereign_stack.Twin.Asset.{
  Modality, PrivacyFlag, TwinRegion, TwinLicenseConfig, TwinAsset, AssetError,
}
use sovereign_stack.Twin.Receipts.{CaptureReceipt, SceneReceipt}
use sovereign_stack.Pipeline.Bus.{BusError}

-- `tsp` of the source has the errors of assets and those of simulations; `CaptureFailed` is only
-- given with the text of an error of the bus.
pub data PipelineError (F G : Type 0) : Type 0 where
  vcp : VcpError G → PipelineError F G
  asset : AssetError F → PipelineError F G
  simulation : TspError → PipelineError F G
  capture_failed : BusError → PipelineError F G

pub record RawCapture (F : Type 0) : Type 0 where
  pub rgb_frames : Option Text
  pub lidar_cloud : Option Text
  pub imu_log : Option Text
  pub splat : Option Text
  pub frame_count : ℕ
  pub duration_ms : ℕ
  pub f1_score : F
  pub coverage_pct : F
  pub novelty_score : F
  pub delta_coverage : F

abbrev pub entry : Text → Option Text → List (Text × Text)
entry modality none = []
entry modality (some bytes) = (modality, bytes) ∷ []

-- The `BTreeMap` in the order of its keys.
unfoldable pub to_raw_data_map : {F : Type 0} → RawCapture F → List (Text × Text)
to_raw_data_map raw =
    entry (text "imu") raw.imu_log
    ++ (entry (text "lidar") raw.lidar_cloud
        ++ (entry (text "rgb") raw.rgb_frames ++ entry (text "splat") raw.splat))

abbrev pub active : Modality → Option Text → List Modality
active modality none = []
active modality (some bytes) = modality ∷ []

unfoldable pub active_modalities : {F : Type 0} → RawCapture F → List Modality
active_modalities raw =
    active Modality.rgb raw.rgb_frames
    ++ active Modality.lidar raw.lidar_cloud
    ++ active Modality.imu raw.imu_log

pub record SplatConfig : Type 0 where
  pub bin : Text
  pub output_dir : Text
  pub steps : ℕ
  pub method : Text

-- `decimal m d` is the literal m / 10 ^ d; `capture_from_go2` is a capture from the device of that
-- id, and `run_splat` takes the frames, their number and the id of the device.
pub record Devices (F : Type 0) : Type 0 where
  pub decimal : ℕ → ℕ → F
  pub capture_from_go2 : Text → Result Text (RawCapture F)
  pub run_splat : (rgb : Text) (frame_count : ℕ) (device_id : Text) → SplatConfig → Result Text Text

pub record PipelineConfig (F G : Type 0) : Type 0 where
  pub region : TwinRegion F G
  pub reconstruction_engine : Text
  pub owner_did : Text
  pub privacy_flags : List PrivacyFlag
  pub license : TwinLicenseConfig F
  pub splat_bin : Option Text
  pub splat_output_dir : Option Text
  pub splat_steps : ℕ

pub record PipelineOutput (F G : Type 0) : Type 0 where
  pub capture_receipt : CaptureReceipt F G
  pub twin : TwinAsset F G
  pub scene_receipt : SceneReceipt F
  pub session_receipt : VcpSessionReceipt

pub record CapturePipeline (F G : Type 0) : Type 0 where
  pub config : PipelineConfig F G
  pub agent_key : Text
  pub identity : IdentityChain

-- The UUIDs and the clock readings of a run, in the order in which it takes them.
pub record Readings : Type 0 where
  pub camera : Text × ℕ
  pub lidar : Text × ℕ
  pub telemetry : Text × ℕ
  pub ended : ℕ
  pub captured : Text × ℕ
  pub assembled : ℕ
  pub scene : Text × ℕ
  pub closed : Text × ℕ

-- `s.ends_with(p)`
unfoldable pub ends_with_text : (p s : Text) → Bool
ends_with_text p s = leb (length p) (length s) && eqb Text_discrete (drop (length s - length p) s) p

unfoldable pub splat_method : Text → Text
splat_method bin =
    if ends_with_text (text ".py") bin || contains_text (text "gsplat") bin
    then text "gsplat"
    else text "gaussian-splatting"

unfoldable pub splat_config : {F G : Type 0} → PipelineConfig F G → Text → SplatConfig
splat_config config bin = record {
  bin = bin;
  output_dir = elim config.splat_output_dir [
    | none ↦ text "/tmp/sovereign-splats"
    | some dir ↦ dir
  ];
  steps = config.splat_steps;
  method = splat_method bin;
}

-- the loop over the recorded commands
unfoldable pub record_all : {G : Type 0} → VcpSession G → List (Text × Bool) → VcpSession G
record_all session [] = session
record_all session ((capability, success) ∷ recorded) =
    record_all (record_command session capability success) recorded

abbrev pub recorded : List (Text × Bool)
recorded = (text "camera", true) ∷ (text "lidar", true) ∷ (text "telemetry", true) ∷ []
