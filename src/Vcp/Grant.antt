-- ===== src/Vcp/Grant.antt =====
-- vcp/src/grant.rs: the issuing of a grant and what it covers. Hashing, signing and serialisation are
-- parameters; the clock and the fresh ids are arguments.
use sovereign_stack.Base.{
  ℕ, ◌+◌, ◌*◌, min, ◌%◌, ◌^◌, Bool, true, none, some, List, [], ◌∷◌, ◌++◌, Text, Text_discrete,
  text, eqb, find?, ltb, if◌then◌else◌, Result, ok, err, ok_or, ◌>>=◌, Dict,
}
use sovereign_stack.Runtime.Identity.{IdentityChain}
use sovereign_stack.Vcp.Manifest.{
  AgentDeviceManifest, VcpError, grant_expired, grant_mismatch, is_grantable,
}

-- A JSON value as far as it is read: a number or anything else.
pub data JsonValue (F : Type 0) : Type 0 where
  number : F → JsonValue F
  other : Text → JsonValue F

-- A JSON object.
abbrev pub JsonObject : Type 0 → Type 0
JsonObject F = Dict Text (JsonValue F)

pub record VcpDuration : Type 0 where
  pub requested_min : ℕ
  pub preferred_min : ℕ
  pub max_min : ℕ

pub record VcpCapabilityRequest : Type 0 where
  pub request_id : Text
  pub identity : IdentityChain
  pub capabilities : List Text
  pub duration : VcpDuration

pub record VcpGrantedCapability (F : Type 0) : Type 0 where
  pub id : Text
  pub limits : JsonObject F

pub data VcpDenyReason : Type 0 where
  ungrantable insufficient_auth unsupported_limit unavailable : VcpDenyReason

pub record VcpDeniedCapability : Type 0 where
  pub id : Text
  pub reason : VcpDenyReason

pub record VcpCapabilityGrant (F : Type 0) : Type 0 where
  pub grant_id : Text
  pub request_id : Text
  pub session_id : Text
  pub identity : IdentityChain
  pub device_id : Text
  pub capabilities : List (VcpGrantedCapability F)
  pub denied : List VcpDeniedCapability
  pub issued_at : ℕ
  pub expires_at : ℕ
  pub revocable : Bool
  pub merkle_root : Text
  pub signature : Text

pub record Signing (F : Type 0) : Type 0 where
  pub serialize : List (VcpGrantedCapability F) → Text
  pub decimal : ℕ → Text
  pub merkle_root : List (Text × Text) → Text
  pub sign : Text → Text → Result (VcpError F) Text
  -- 1.5, 15 and 10
  pub default_speed : F
  pub max_fps : F
  pub max_hz : F

module _ {F : Type 0} (sg : Signing F) where
  unfoldable pub default_limits : Text → AgentDeviceManifest F → JsonObject F
  default_limits cap_id m =
      if eqb Text_discrete cap_id (text "locomotion")
      then ((
        text "max_speed_ms",
        number (elim m.safety.max_speed_ms [ none ↦ sg.default_speed | some v ↦ v ]),
      )
          ∷ (
            text "geofence_enabled",
            other (if m.safety.geofence then text "true" else text "false"),
          )
          ∷ (text "collision_avoidance", other (text "required"))
          ∷ [])
      else if eqb Text_discrete cap_id (text "camera.read")
      then ((text "max_resolution", other (text "720p")) ∷ (text "max_fps", number sg.max_fps) ∷ [])
      else if eqb Text_discrete cap_id (text "telemetry.read")
      then ((text "max_hz", number sg.max_hz) ∷ [])
      else []

  -- the loop over the requested capabilities
  unfoldable pub sort_out :
      AgentDeviceManifest F → List Text → List (VcpGrantedCapability F) × List VcpDeniedCapability
  sort_out m [] = ([], [])
  sort_out m (cap_id ∷ ids) =
      let rest = sort_out m ids in
      elim (is_grantable m cap_id) [
        | err (VcpError.ungrantable _) ↦
            (rest.0, record { id = cap_id; reason = VcpDenyReason.ungrantable } ∷ rest.1)
        | err _ ↦ (rest.0, record { id = cap_id; reason = unavailable } ∷ rest.1)
        | ok _ ↦ (record { id = cap_id; limits = default_limits cap_id m } ∷ rest.0, rest.1)
      ]

  unfoldable pub duration_of : VcpDuration → ℕ
  duration_of d = min (min d.preferred_min d.max_min) 1440

  -- `u v` are the two UUIDs.
  unfoldable pub issue :
      (u v : Text)
      → ℕ
      → AgentDeviceManifest F
      → VcpCapabilityRequest
      → Text
      → Result (VcpError F) (VcpCapabilityGrant F)
  issue u v now m request device_private_key =
      let grant_id = text "grant:" ++ u in
      let session_id = text "sess:" ++ v in
      let expires_at = (now + duration_of request.duration * 60000) % 2 ^ 64 in
      let sorted = sort_out m request.capabilities in
      let root = sg.merkle_root (
        (text "capabilities", sg.serialize sorted.0)
        ∷ (text "device_id", m.device_id)
        ∷ (text "expires_at", sg.decimal expires_at)
        ∷ (text "grant_id", grant_id)
        ∷ (text "issued_at", sg.decimal now)
        ∷ (text "session_id", session_id)
        ∷ []) in
      sg.sign root device_private_key >>= λ sig. ok (record {
        grant_id = grant_id;
        request_id = request.request_id;
        session_id = session_id;
        identity = request.identity;
        device_id = m.device_id;
        capabilities = sorted.0;
        denied = sorted.1;
        issued_at = now;
        expires_at = expires_at;
        revocable = true;
        merkle_root = root;
        signature = sig;
      })

unfoldable pub is_expired : {F : Type 0} → ℕ → VcpCapabilityGrant F → Bool
is_expired now g = ltb g.expires_at now

unfoldable pub covers :
    {F : Type 0} → ℕ → VcpCapabilityGrant F → Text → Result (VcpError F) (VcpGrantedCapability F)
unfolding is_expired
covers now g capability_id =
    if is_expired now g
    then err grant_expired
    else ok_or (find? (λ c. eqb Text_discrete c.id capability_id) g.capabilities)
        (grant_mismatch capability_id)
