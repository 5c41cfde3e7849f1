-- ===== src/Vcp/Examples.antt =====
-- A device, a grant and a session of vcp at concrete values.
use sovereign_stack.Base.{
  ℕ, ◌+◌, ◌≤◌, ◌≡◌, ◌↔◌, refl, true, false, none, some, List, [], ◌∷◌, Text_discrete, text, ok, ltb,
  contains, lookup, arith,
}
use sovereign_stack.Runtime.Identity.{IdentityChain, SafetyLevel}
use sovereign_stack.Vcp.Manifest.{AgentDeviceManifest, is_grantable, capability}
use sovereign_stack.Vcp.Grant.{
  Signing, VcpCapabilityRequest, VcpCapabilityGrant, number, VcpDenyReason, sort_out, issue,
  duration_of, default_limits, is_expired, covers,
}
use sovereign_stack.Vcp.Issued.{IsGrantable, is_grantable_iff}
use sovereign_stack.Vcp.Command.{VcpCommand, validate_command, check_speed}
use sovereign_stack.Vcp.Command.Checks.{accepted-IsGrantable}
use sovereign_stack.Vcp.Session.{
  Event, command, evidence, IsAccount, close, play, new_session, close-IsAccount, completed,
}

abbrev chain : IdentityChain
chain = record {
  principal_id = text "did:p";
  agent_id = text "did:a";
  session_id = text "s";
  execution_id = text "e";
  receipt_id = text "r";
}

abbrev walker : AgentDeviceManifest ℕ
walker = record {
  device_id = text "go2";
  capabilities =
      record {
        id = text "locomotion";
        description = [];
        params = none;
        requires_grant = true;
        safety_level = SafetyLevel.standard;
        ungrantable = false;
      }
      ∷ record {
        id = text "firmware.update";
        description = [];
        params = none;
        requires_grant = true;
        safety_level = SafetyLevel.critical;
        ungrantable = true;
      }
      ∷ [];
  safety = record {
    emergency_stop = true;
    geofence = true;
    collision_avoidance = none;
    max_speed_ms = some 15;
    ungrantable = text "firmware.update" ∷ [];
  };
}

abbrev signing : Signing ℕ
signing = record {
  serialize = λ c. [];
  decimal = λ n. n ∷ [];
  merkle_root = λ fields. [];
  sign = λ bytes key. ok bytes;
  default_speed = 15;
  max_fps = 150;
  max_hz = 100;
}

abbrev asked : VcpCapabilityRequest
asked = record {
  request_id = text "req:1";
  identity = chain;
  capabilities = text "locomotion" ∷ text "firmware.update" ∷ [];
  duration = record { requested_min = 15; preferred_min = 15; max_min = 60 };
}

abbrev grant : VcpCapabilityGrant ℕ
grant = record {
  grant_id = text "grant:u";
  request_id = text "req:1";
  session_id = text "sess:v";
  identity = chain;
  device_id = text "go2";
  capabilities =
      record { id = text "locomotion"; limits = default_limits signing (text "locomotion") walker }
      ∷ [];
  denied = record { id = text "firmware.update"; reason = VcpDenyReason.ungrantable } ∷ [];
  issued_at = 1000;
  expires_at = 901000;
  revocable = true;
  merkle_root = [];
  signature = [];
}

issued : issue signing (text "u") (text "v") 1000 walker asked [] ≡ ok grant
unfolding issue sort_out is_grantable capability duration_of Text_discrete contains default_limits
issued = refl

abbrev walk : VcpCommand ℕ
walk = record {
  cmd_id = text "cmd:1";
  session_id = text "sess:v";
  grant_id = text "grant:u";
  identity = chain;
  capability = text "locomotion";
  action = text "walk";
  params = (text "speed_ms", number 12) ∷ [];
  timestamp = 2000;
  signature = [];
}

accepted : validate_command ltb 2000 walk grant ≡ ok tt
unfolding validate_command is_expired covers check_speed Text_discrete lookup default_limits
accepted = refl

is_grantable_iff_example :
    (is_grantable walker (text "firmware.update") ≡ ok tt)
    ↔ IsGrantable walker (text "firmware.update")
is_grantable_iff_example = is_grantable_iff walker (text "firmware.update")

accepted-IsGrantable_example : IsGrantable walker (text "locomotion") × (2000 ≤ 1000 + 86400000)
accepted-IsGrantable_example =
    accepted-IsGrantable signing ltb (text "u") (text "v") 1000 2000 walker asked [] grant walk
      issued accepted

abbrev events : List Event
events =
    command (text "locomotion") true
    ∷ evidence (text "rcpt:1")
    ∷ command (text "locomotion") false
    ∷ []

close-IsAccount_example :
    IsAccount grant events (close (text "u") 5000 (play (new_session 2000 grant) events) completed)
close-IsAccount_example = close-IsAccount (text "u") 2000 5000 grant events completed (omega arith)
