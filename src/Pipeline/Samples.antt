-- ===== src/Pipeline/Samples.antt =====
-- Values for the tests of the pipeline: the numbers are naturals, JSON texts are short, and a
-- signature is what was signed.
use sovereign_stack.Base.{
  ℕ, ◌+◌, ◌-◌, ◌*◌, ◌/◌, min, Result, some, none, true, List, [], ◌∷◌, Text, text, ok, err, ltb,
  replicate, compare,
}
use sovereign_stack.Runtime.Identity.{IdentityChain}
use sovereign_stack.Shared.Merkle.{Hashing}
use sovereign_stack.Vcp.Grant.{VcpCapabilityGrant, VcpGrantedCapability, Signing}
use sovereign_stack.Vcp.Session.{VcpSession}
use sovereign_stack.Twin.Asset.{AssetServices, LicenseType}
use sovereign_stack.Pipeline.Capture.{Devices, Readings, CapturePipeline}
use sovereign_stack.Twin.Simulation.{Services, TspError}
use sovereign_stack.Twin.Engine.{SimScenario, OsovmRunResult, Twin, Arithmetic}
use sovereign_stack.Twin.Anchor.{SuiNode}
use sovereign_stack.Dip.Router.{vantage_address, nostr_address}
use sovereign_stack.Dip.Envelope.{EnvelopeServices, Draft, DipKind}
use sovereign_stack.Pipeline.Bus.{Payloads}
use sovereign_stack.Pipeline.Chain.{ProofChain, ChainDraws}

abbrev pub plain : Hashing
plain = record { sha256 = λ t. replicate 32 0; hex = λ t. t }

abbrev pub assets : AssetServices ℕ ℕ
assets = record {
  lt = ltb;
  f1_gate = 777;
  hashing = plain;
  sign = λ m key. ok m;
  string_json = λ t. t;
  number_json = λ n. n ∷ [];
  float_json = λ x. x ∷ [];
  epoch_json = λ e. e.0 ∷ e.1 ∷ [];
  strings_json = λ ts. [];
  identity_json = λ c. c.agent_id;
  modalities_json = λ ms. [];
  flags_json = λ fs. [];
  map_json = λ m. [];
  region_json = λ r. [];
  data_hashes_json = λ h. [];
}

abbrev pub commands : Signing ℕ
commands = record {
  serialize = λ c. [];
  decimal = λ n. n ∷ [];
  merkle_root = λ fields. [];
  sign = λ bytes key. ok bytes;
  default_speed = 15;
  max_fps = 150;
  max_hz = 100;
}

abbrev pub devices : Devices ℕ
devices = record {
  decimal = λ m d. m;
  capture_from_go2 = λ id. err id;
  run_splat = λ rgb n id config. err id;
}

abbrev pub identity : IdentityChain
identity = record {
  principal_id = text "did:p";
  agent_id = text "did:a";
  session_id = text "s";
  execution_id = text "e";
  receipt_id = text "r";
}

abbrev pub granted : Text → VcpGrantedCapability ℕ
granted id = record { id = id; limits = [] }

abbrev pub grant : VcpCapabilityGrant ℕ
grant = record {
  grant_id = text "grant:u";
  request_id = text "req:1";
  session_id = text "sess:v";
  identity = identity;
  device_id = text "unitree:go2:1";
  capabilities = granted (text "camera") ∷ granted (text "lidar") ∷ granted (text "telemetry") ∷ [];
  denied = [];
  issued_at = 0;
  expires_at = 100;
  revocable = true;
  merkle_root = [];
  signature = [];
}

abbrev pub session : VcpSession ℕ
session = record {
  grant = grant;
  started_at = 5;
  commands_issued = 0;
  commands_success = 0;
  commands_failed = 0;
  capabilities_used = [];
  evidence_ids = [];
}

abbrev pub pipeline : CapturePipeline ℕ ℕ
pipeline = record {
  config = record {
    region = record {
      min_lat = 0;
      min_lon = 0;
      max_lat = 1;
      max_lon = 1;
      min_alt_m = none;
      max_alt_m = none;
      label = none;
    };
    reconstruction_engine = text "nerfstudio/gaussian-splatting";
    owner_did = text "did:p";
    privacy_flags = [];
    license = record {
      license_type = LicenseType.non_exclusive;
      usage_rights = [];
      revenue_split = record { owner_pct = 70; contributors = []; protocol_fee = 2 };
      transferable = true;
    };
    splat_bin = none;
    splat_output_dir = none;
    splat_steps = 1000;
  };
  agent_key = text "key";
  identity = identity;
}

abbrev pub readings : Readings
readings = record {
  camera = (text "1", 10);
  lidar = (text "2", 11);
  telemetry = (text "3", 12);
  ended = 20;
  captured = (text "4", 21);
  assembled = 22;
  scene = (text "5", 23);
  closed = (text "6", 24);
}

abbrev pub services : Services ℕ
services = record {
  hashing = plain;
  policies_json = λ ps. ok (text "[]");
  string_json = λ t. t;
  number_json = λ n. n ∷ [];
  sign = λ m key. ok m;
}

abbrev pub naturals : Arithmetic ℕ
naturals = record {
  decimal = λ m d. m;
  from_u32 = λ n. n;
  add = λ m n. m + n;
  sub = λ m n. m - n;
  mul = λ m n. m * n;
  div = λ m n. m / n;
  max = λ m n. m + n - min m n;
  min = min;
  sin = λ n. n;
  cos = λ n. n;
  lt = ltb;
  compare = λ m n. some (compare m n);
  display = λ n. n ∷ [];
  count_json = λ n. n ∷ [];
  grounding_json = λ n. n ∷ [];
}

abbrev pub scenario : SimScenario
scenario = record {
  name = text "lab";
  robot_model = text "Go2";
  trajectory_count = 1;
  selection_objective = text "min_risk";
  params = none;
}

abbrev pub keys : List (Text × Text)
keys = (text "did:w:1", text "k1") ∷ (text "did:w:2", text "k2") ∷ []

abbrev pub unreachable : Text → Twin ℕ → SimScenario → Result TspError (OsovmRunResult ℕ)
unreachable endpoint _ _ = err (TspError.simulation_error endpoint)

abbrev pub envelopes : EnvelopeServices Text
envelopes = record {
  hashing = plain;
  sign = λ m key. ok m;
  verify = λ m g key. ok tt;
  string_json = λ t. t;
  number_json = λ n. n ∷ [];
  address_json = λ a. a.address;
  identity_json = λ c. c.agent_id;
  kind_json = λ k. [];
  value_json = λ v. v;
}

abbrev pub draft : Draft Text
draft = record {
  origin = vantage_address (text "did:a");
  destination = nostr_address (text "npub1xyz");
  identity = identity;
  kind = DipKind.message;
  payload = text "hello";
  ttl_secs = 300;
  private_key = text "key";
}

abbrev pub payloads : Payloads ℕ ℕ Text
payloads = record {
  capture_value = λ r. r.receipt_id;
  scene_value = λ r. r.receipt_id;
  session_value = λ r. r.receipt_id;
  scene_to_value = λ r. ok r.receipt_id;
}

abbrev pub chain : ProofChain
chain = record {
  config = record {
    scenario = scenario;
    osovm_version = text "osovm/2.0";
    sui_rpc = text "https://sui";
    sui_address = text "0x1";
    sui_key = text "stubkey";
    nostr_npub = some (text "npub1xyz");
    vantage_did = text "did:vantage";
    bypass_sabbath = true;
  };
  agent_key = text "key";
  identity = identity;
}

abbrev pub draws : ChainDraws
draws = record {
  run_uuid = text "u";
  proof_uuid = text "v";
  now = 5;
  now_secs = 7;
  capture = record { uuid = text "1"; built = 5; routed = 6 };
  scene = record { uuid = text "2"; built = 7; routed = 8 };
  session = record { uuid = text "3"; built = 9; routed = 10 };
  nostr = record { uuid = text "4"; built = 11; routed = 12 };
}

abbrev pub sui : SuiNode ℕ
sui = record {
  thousandths = λ n. n;
  hundredths = λ n. n;
  decode_key = λ k. none;
  mint_real = λ url seed r. err url;
}
