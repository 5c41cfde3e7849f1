-- ===== src/Pipeline/Capture.antt =====
-- sovereign-pipeline/src/capture_pipeline.rs: a capture over a session, its receipts and its twin.
-- The device behind its WebSocket and the splatting program are parameters; UUIDs and clock readings
-- are arguments.
mod Raw
unfoldable pub use Raw.*
use sovereign_stack.Base.{
  ℕ, ◌-◌, Bool, true, ◌||◌, ◌&&◌, Option, none, some, List, [], ◌∷◌, ◌++◌, Text, text,
  Text_discrete, eqb, length, leb, drop, contains_text, lookup, if◌then◌else◌, Result, ok, err,
  ◌>>=◌, map_err,
}
use sovereign_stack.Runtime.Identity.{IdentityChain}
use sovereign_stack.Vcp.Manifest.{VcpError}
use sovereign_stack.Vcp.Grant.{VcpCapabilityGrant, Signing}
use sovereign_stack.Vcp.Command.{VcpCommand, new_command}
use sovereign_stack.Vcp.Session.{
  VcpSession, VcpSessionReceipt, VcpSessionOutcome, record_command, add_evidence, close,
}
use sovereign_stack.Twin.Simulation.{TspError}
use sovereign_stack.Twin.Asset.{
  Modality, PrivacyFlag, TwinRegion, TwinDataHashes, TwinQuality, TwinLicenseConfig, TwinAsset,
  AssetError, AssetServices, new_quality, twin_id_from_hashes,
}
use sovereign_stack.Twin.Receipts.{
  CaptureReceipt, CaptureRun, SceneReceipt, build_capture, build_scene,
}
use sovereign_stack.Pipeline.Bus.{BusError}

module _ {F G : Type 0} (s : AssetServices F G) (sg : Signing G) (devices : Devices F) where
  unfoldable pub stub_capture : RawCapture F
  stub_capture = record {
    rgb_frames = some (text "STUB_RGB_FRAME_DATA");
    lidar_cloud = some (text "STUB_LIDAR_PCD_DATA");
    imu_log = some (text "STUB_IMU_LOG_DATA");
    splat = some (text "STUB_SPLAT_PLY_DATA");
    frame_count = 120;
    duration_ms = 1;
    f1_score = devices.decimal 832 3;
    coverage_pct = devices.decimal 784 1;
    novelty_score = devices.decimal 61 2;
    delta_coverage = devices.decimal 123 1;
  }

  -- a capture from the device of that id, or else the stub
  unfoldable pub capture_or_stub : (live_device_id : Option Text) → RawCapture F
  capture_or_stub none = stub_capture
  capture_or_stub (some device_id) = elim (devices.capture_from_go2 device_id) [
    | ok raw ↦ raw
    | err e ↦ stub_capture
  ]

  -- one command of the driver: made and thrown away
  unfoldable pub command_for :
      VcpCapabilityGrant G
      → (agent_key : Text) → Text × ℕ
      → (capability action : Text) → Result (PipelineError F G) (VcpCommand G)
  command_for grant agent_key (uuid, now) capability action =
      map_err vcp (new_command sg uuid now grant capability action [] agent_key)

  -- `Go2CaptureDriver::capture`; the recorded commands are `recorded`
  unfoldable pub drive :
      Readings
      → (live_device_id : Option Text) → VcpCapabilityGrant G
      → (agent_key : Text) → Result (PipelineError F G) (RawCapture F)
  drive t live_device_id grant agent_key = do
    camera ← command_for grant agent_key t.camera (text "camera") (text "capture_frame")
    lidar ← command_for grant agent_key t.lidar (text "lidar") (text "capture_pointcloud")
    telemetry ← command_for grant agent_key t.telemetry (text "telemetry") (text "poll")
    ok (capture_or_stub live_device_id)

  -- phase 1b: a splat that cannot be made leaves the capture as it is
  unfoldable pub splatted : PipelineConfig F G → (device_id : Text) → RawCapture F → RawCapture F
  splatted config device_id raw = elim config.splat_bin [
    | none ↦ raw
    | some bin ↦ elim raw.rgb_frames [
      | none ↦ raw
      | some rgb ↦
          elim (devices.run_splat rgb raw.frame_count device_id (splat_config config bin)) [
            | err e ↦ raw
            | ok ply ↦ record raw { splat = some ply }
          ]
    ]
  ]

  unfoldable pub capture_run :
      CapturePipeline F G → (device_id : Text) (ended : ℕ) → RawCapture F → CaptureRun F G
  capture_run pipeline device_id ended raw = record {
    identity = pipeline.identity;
    device_ids = device_id ∷ [];
    modalities = active_modalities raw;
    region = pipeline.config.region;
    capture_epoch = (ended - raw.duration_ms, ended);
    f1_score = raw.f1_score;
    coverage_pct = raw.coverage_pct;
    frame_count = raw.frame_count;
    duration_ms = raw.duration_ms;
    raw_data = to_raw_data_map raw;
    novelty_score = raw.novelty_score;
    delta_coverage = raw.delta_coverage;
    privacy_flags = pipeline.config.privacy_flags;
    private_key = pipeline.agent_key;
  }

  unfoldable pub data_hashes_of : CaptureReceipt F G → TwinDataHashes
  data_hashes_of r = record {
    rgb = lookup Text_discrete (text "rgb") r.raw_hashes;
    depth = none;
    lidar = lookup Text_discrete (text "lidar") r.raw_hashes;
    imu = lookup Text_discrete (text "imu") r.raw_hashes;
    slam = none;
    splat = lookup Text_discrete (text "splat") r.raw_hashes;
    geometry = none;
    semantic = none;
    environment = none;
    custom = none;
  }

  abbrev pub twin_of :
      Readings
      → CapturePipeline F G
      → (device_id : Text) → RawCapture F
      → CaptureReceipt F G
      → TwinQuality F
      → TwinAsset F G
  twin_of t pipeline device_id raw r quality = record {
    twin_id = twin_id_from_hashes s (data_hashes_of r);
    version = 1;
    owner_did = pipeline.config.owner_did;
    creator_did = pipeline.identity.agent_id;
    contributors = [];
    region = pipeline.config.region;
    data_hashes = data_hashes_of r;
    quality = quality;
    provenance = record {
      capture_receipt_ids = r.receipt_id ∷ [];
      capture_epoch = some (t.ended - raw.duration_ms, t.ended);
      device_ids = device_id ∷ [];
      camera_ids = (device_id ++ text ":front_rgb") ∷ [];
      pose_estimate_hashes = [];
      calibration_version = text "vcp/1";
      evidence_ids = [];
    };
    license = pipeline.config.license;
    sui_object_id = none;
    merkle_root = [];
    signature = [];
    created_at = t.assembled;
    updated_at = t.assembled;
  }

  -- phases 2 to 5: the receipts, the twin and the end of the session
  unfoldable pub conclude :
      Readings
      → CapturePipeline F G
      → VcpSession G
      → RawCapture F
      → Result (PipelineError F G) (PipelineOutput F G)
  conclude t pipeline session raw = do
    let device_id = session.grant.device_id
    receipt ←
        map_err asset
          (build_capture s t.captured.0 t.captured.1 (capture_run pipeline device_id t.ended raw))
    quality ←
        map_err asset
          (new_quality s raw.f1_score raw.coverage_pct pipeline.config.reconstruction_engine)
    let twin = twin_of t pipeline device_id raw receipt quality
    scene ← map_err asset (
        build_scene s t.scene.0 t.scene.1 pipeline.identity twin (receipt ∷ [])
          pipeline.config.reconstruction_engine pipeline.agent_key)
    ok (record {
      capture_receipt = receipt;
      twin = twin;
      scene_receipt = scene;
      session_receipt =
          close t.closed.0 t.closed.1 (add_evidence session receipt.receipt_id)
            VcpSessionOutcome.completed;
    })

  -- `CapturePipeline::run`
  unfoldable pub run_capture :
      Readings
      → CapturePipeline F G
      → VcpSession G
      → (live_device_id : Option Text) → Result (PipelineError F G) (PipelineOutput F G)
  run_capture t pipeline session live_device_id =
      drive t live_device_id session.grant pipeline.agent_key >>= λ raw.
      conclude t pipeline (record_all session recorded)
        (splatted pipeline.config session.grant.device_id raw)
