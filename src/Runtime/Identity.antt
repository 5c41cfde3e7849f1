-- ===== src/Runtime/Identity.antt =====
-- sovereign-types/src/identity.rs: safety levels and the identity chain.
use sovereign_stack.Base.{ℕ, ◌++◌, Bool, not, Text, text, is_empty, Result, ok, ◌>>◌, guard, ltb}

pub data SafetyLevel : Type 0 where
  none low standard elevated critical : SafetyLevel

-- The derived order of the enum is that of its declaration.
abbrev pub level : SafetyLevel → ℕ
level SafetyLevel.none = 0
level SafetyLevel.low = 1
level SafetyLevel.standard = 2
level SafetyLevel.elevated = 3
level SafetyLevel.critical = 4

-- `a > b`
abbrev pub exceeds : SafetyLevel → SafetyLevel → Bool
exceeds a b = ltb (level b) (level a)

pub record IdentityChain : Type 0 where
  pub principal_id : Text
  pub agent_id : Text
  pub session_id : Text
  pub execution_id : Text
  pub receipt_id : Text

-- the name of the missing field
pub data SovereignError : Type 0 where
  incomplete_identity : Text → SovereignError

-- `u v w` are the three UUIDs, as texts.
unfoldable pub new_chain : (principal_id agent_id u v w : Text) → IdentityChain
new_chain principal_id agent_id u v w = record {
  principal_id = principal_id;
  agent_id = agent_id;
  session_id = text "sess:" ++ u;
  execution_id = text "exec:" ++ v;
  receipt_id = text "rcpt:" ++ w;
}

unfoldable pub with_session : IdentityChain → Text → IdentityChain
with_session c session_id = record c { session_id = session_id }

unfoldable pub validate_chain : IdentityChain → Result SovereignError (Unit {0})
validate_chain c = do
  guard (not (is_empty c.principal_id)) (incomplete_identity (text "principal_id"))
  guard (not (is_empty c.agent_id)) (incomplete_identity (text "agent_id"))
  guard (not (is_empty c.session_id)) (incomplete_identity (text "session_id"))
  ok tt
