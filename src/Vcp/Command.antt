-- ===== src/Vcp/Command.antt =====
-- vcp/src/command.rs: commands under a grant. `lt` is the comparison of floats; one clock reading
-- serves a whole call.
pub mod Checks
use sovereign_stack.Base.{
  ℕ, Bool, true, false, Option, none, some, List, [], ◌∷◌, ◌++◌, Text, Text_discrete, text, eqb,
  lookup, if◌then◌else◌, Result, ok, err, ◌>>=◌, ◌>>◌,
}
use sovereign_stack.Runtime.Identity.{IdentityChain}
use sovereign_stack.Vcp.Manifest.{VcpError, grant_expired, speed_limit_exceeded}
use sovereign_stack.Vcp.Grant.{
  JsonValue, JsonObject, number, other, VcpCapabilityGrant, VcpGrantedCapability, Signing,
  is_expired, covers,
}

-- Parameters that are no JSON object are the empty one: every lookup in them fails.
pub record VcpCommand (F : Type 0) : Type 0 where
  pub cmd_id : Text
  pub session_id : Text
  pub grant_id : Text
  pub identity : IdentityChain
  pub capability : Text
  pub action : Text
  pub params : JsonObject F
  pub timestamp : ℕ
  pub signature : Text

-- `VcpCommand::new`; `u` is the UUID.
unfoldable pub new_command :
    {F : Type 0}
    → Signing F
    → Text
    → ℕ
    → VcpCapabilityGrant F
    → (capability action : Text) → JsonObject F
    → Text
    → Result (VcpError F) (VcpCommand F)
unfolding covers
new_command sg u now g capability action params private_key = covers now g capability >>= λ c.
    let cmd_id = text "cmd:" ++ u in
    sg.sign (cmd_id ++ (text ":" ++ (capability ++ (text ":" ++ sg.decimal now)))) private_key
    >>= λ sig. ok (record {
      cmd_id = cmd_id;
      session_id = g.session_id;
      grant_id = g.grant_id;
      identity = g.identity;
      capability = capability;
      action = action;
      params = params;
      timestamp = now;
      signature = sig;
    })

-- `object.get(key).and_then(|v| v.as_f64())`
abbrev pub as_number : {F : Type 0} → Option (JsonValue F) → Option F
as_number none = none
as_number (some (number x)) = some x
as_number (some (other _)) = none

abbrev pub get_number : {F : Type 0} → Text → JsonObject F → Option F
get_number key object = as_number (lookup Text_discrete key object)

-- the check of a speed against the limit of the grant, if both are there
unfoldable pub check_speed :
    {F : Type 0} → (F → F → Bool) → Option F → Option F → Result (VcpError F) (Unit {0})
check_speed lt none limit = ok tt
check_speed lt (some speed) none = ok tt
check_speed lt (some speed) (some limit) =
    if lt limit speed then err (speed_limit_exceeded speed limit) else ok tt

unfoldable pub validate_command :
    {F : Type 0}
    → (F → F → Bool)
    → ℕ
    → VcpCommand F
    → VcpCapabilityGrant F
    → Result (VcpError F) (Unit {0})
unfolding is_expired
validate_command lt now cmd g =
    if is_expired now g
    then err grant_expired
    else (covers now g cmd.capability >>= λ c.
        if eqb Text_discrete cmd.capability (text "locomotion")
        then elim (get_number (text "speed_ms") cmd.params) [
          | none ↦ ok tt
          | some speed ↦ covers now g (text "locomotion") >>= λ granted.
              check_speed lt (some speed) (get_number (text "max_speed_ms") granted.limits)
        ]
        else ok tt)
