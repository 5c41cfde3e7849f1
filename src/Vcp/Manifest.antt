-- ===== src/Vcp/Manifest.antt =====
-- vcp/src/manifest.rs and error.rs: what a device declares. `F` is the type of the floats.
use sovereign_stack.Base.{
  Bool, true, false, not, ◌&&◌, ◌||◌, Option, none, some, List, [], ◌∷◌, Text, Text_discrete,
  contains, eqb, find?, text, if◌then◌else◌, Result, ok, err,
}
use sovereign_stack.Runtime.Identity.{SafetyLevel}

-- The reason of a failed handshake is left out where it is a message.
pub data VcpError (F : Type 0) : Type 0 where
  ungrantable capability_not_found grant_mismatch : Text → VcpError F
  grant_expired : VcpError F
  speed_limit_exceeded : (requested granted : F) → VcpError F
  handshake_failed : (step : Text) → VcpError F
  sovereign : VcpError F

pub record VcpCapabilityDecl : Type 0 where
  pub id : Text
  pub description : Text
  pub params : Option Text
  pub requires_grant : Bool
  pub safety_level : SafetyLevel
  pub ungrantable : Bool

pub record VcpSafetyConfig (F : Type 0) : Type 0 where
  pub emergency_stop : Bool
  pub geofence : Bool
  pub collision_avoidance : Option Text
  pub max_speed_ms : Option F
  pub ungrantable : List Text

-- The fields that the program reads; the labels, the transports and the signature are left out.
pub record AgentDeviceManifest (F : Type 0) : Type 0 where
  pub device_id : Text
  pub capabilities : List VcpCapabilityDecl
  pub safety : VcpSafetyConfig F

-- the loop over the declarations: whether each listed one is marked
unfoldable pub all_marked : List Text → List VcpCapabilityDecl → Bool
all_marked listed [] = true
all_marked listed (cap ∷ caps) =
    let rest = all_marked listed caps in
    if contains Text_discrete cap.id listed && not cap.ungrantable then false else rest

unfoldable pub validate_manifest :
    {F : Type 0} → AgentDeviceManifest F → Result (VcpError F) (Unit {0})
validate_manifest m =
    if not m.safety.emergency_stop
    then err (handshake_failed (text "manifest_validation"))
    else if not (all_marked m.safety.ungrantable m.capabilities)
    then err (handshake_failed (text "manifest_validation"))
    else ok tt

unfoldable pub capability : {F : Type 0} → AgentDeviceManifest F → Text → Option VcpCapabilityDecl
capability m id = find? (λ c. eqb Text_discrete c.id id) m.capabilities

unfoldable pub is_grantable :
    {F : Type 0} → AgentDeviceManifest F → Text → Result (VcpError F) (Unit {0})
unfolding capability
is_grantable m id = elim (capability m id) [
  | none ↦ err (capability_not_found id)
  | some cap ↦
      if cap.ungrantable || contains Text_discrete id m.safety.ungrantable
      then err (ungrantable id)
      else ok tt
]
