-- ===== src/Arp/Broker.antt =====
-- arp-types/src/principal.rs and receipt.rs, and the handlers of arp-broker/src/bin/main.rs. The JSON
-- text of the hashed fields is a parameter, and SHA-256 and `hex` come as in Shared/Merkle. The parts
-- of a receipt that are only stored are kept as JSON texts.
use sovereign_stack.Base.{
  ℕ, ◌+◌, Bool, true, false, Option, none, some, List, [], ◌∷◌, ◌++◌, Text, Text_discrete, eqb,
  Dict, lookup, insert, length, if◌then◌else◌,
}
use sovereign_stack.Shared.Merkle.{Hashing}

pub data PrincipalKind : Type 0 where
  human agent daemon contract federated : PrincipalKind

pub record CapabilityRef : Type 0 where
  pub capability : Text
  pub required_tier : Option Text
  pub grant_id : Option Text

pub record Principal : Type 0 where
  pub principal_id : Text
  pub kind : PrincipalKind
  pub agent_id : Text
  pub session_id : Option Text
  pub agent_tier : Option Text
  pub capabilities : List CapabilityRef

pub data ReceiptKind : Type 0 where
  compute vcp_session emission twin_capture twin_scene simulation governance economic : ReceiptKind
  agent_lifecycle witness mesh_event custom : ReceiptKind

pub record ActionSpec : Type 0 where
  pub kind : Text
  pub target : Text
  pub outcome : Text
  pub params : Text

pub record ActionReceipt : Type 0 where
  pub receipt_id : Text
  pub kind : ReceiptKind
  pub kind_ext : Option Text
  pub principal : Principal
  pub action : ActionSpec
  pub evidence_ids : List Text
  pub witness_attestations : List Text
  pub throne_evaluations : List Text
  pub consensus_receipt : Option Text
  pub physical_attestation : Option Text
  pub zangbeto_anchor : Option Text
  pub nostr_event_id : Option Text
  pub timestamp : ℕ
  pub execution_id : Option Text
  pub previous_hash : Option Text
  pub signature : Text

-- The fields that are hashed.
pub record Canonical : Type 0 where
  pub receipt_id : Text
  pub kind : ReceiptKind
  pub principal_id : Text
  pub agent_id : Text
  pub action : ActionSpec
  pub timestamp : ℕ
  pub previous_hash : Option Text

unfoldable pub canonical : ActionReceipt → Canonical
canonical r = record {
  receipt_id = r.receipt_id;
  kind = r.kind;
  principal_id = r.principal.principal_id;
  agent_id = r.principal.agent_id;
  action = r.action;
  timestamp = r.timestamp;
  previous_hash = r.previous_hash;
}

pub record BrokerState : Type 0 where
  pub receipts : Dict Text ActionReceipt
  pub by_agent : Dict Text (List Text)

abbrev pub new_broker : BrokerState
new_broker = record { receipts = []; by_agent = [] }

abbrev pub last? : {A : Type 0} → List A → Option A
last? [] = none
last? (x ∷ []) = some x
last? (x ∷ y ∷ xs) = last? (y ∷ xs)

abbrev pub or_default : {A : Type 0} → Option (List A) → List A
or_default none = []
or_default (some xs) = xs

-- The ids of an agent's receipts, in the order of their submission.
unfoldable pub ids_of : BrokerState → Text → List Text
ids_of s agent_id = or_default (lookup Text_discrete agent_id s.by_agent)

-- `filter_map` over the ids
unfoldable pub resolve : Dict Text ActionReceipt → List Text → List ActionReceipt
resolve m [] = []
resolve m (i ∷ ids) = elim (lookup Text_discrete i m) [
  | none ↦ resolve m ids
  | some r ↦ r ∷ resolve m ids
]

unfoldable pub get_receipt : BrokerState → Text → Option ActionReceipt
get_receipt s id = lookup Text_discrete id s.receipts

unfoldable pub list_agent_receipts : BrokerState → Text → List ActionReceipt
list_agent_receipts s agent_id = resolve s.receipts (ids_of s agent_id)

-- The second critical section of `submit_receipt`: both tables are written.
unfoldable pub store : BrokerState → ActionReceipt → BrokerState
unfolding ids_of
store s r = record {
  receipts = insert Text_discrete r.receipt_id r s.receipts;
  by_agent =
      insert Text_discrete r.principal.agent_id
        (ids_of s r.principal.agent_id ++ (r.receipt_id ∷ [])) s.by_agent;
}

pub data Response : Type 0 where
  created : (receipt_id hash agent_id : Text) → Response
  conflict : (receipt_id : Text) → Response

pub data Verification : Type 0 where
  valid : (length : ℕ) (tip_hash : Option Text) → Verification
  broken : (broken_at : ℕ) (expected_hash : Text) (got_hash : Option Text) → Verification

module _ (h : Hashing) (json : Canonical → Text) where
  unfoldable pub hash : ActionReceipt → Text
  hash r = h.hex (h.sha256 (json (canonical r)))

  unfoldable pub chain_valid : ActionReceipt → ActionReceipt → Bool
  chain_valid r prev = elim r.previous_hash [
    | none ↦ false
    | some p ↦ eqb Text_discrete p (hash prev)
  ]

  -- `.and_then(|id| rmap.get(id)).map(|prev| &prev.hash() == prev_hash).unwrap_or(false)`
  abbrev pub last_matches : Text → Option ActionReceipt → Bool
  last_matches p none = false
  last_matches p (some prev) = eqb Text_discrete (hash prev) p

  abbrev pub and_get : BrokerState → Option Text → Option ActionReceipt
  and_get s none = none
  and_get s (some id) = lookup Text_discrete id s.receipts

  -- The first critical section of `submit_receipt`: the link is compared with the last receipt of
  -- the agent.
  unfoldable pub check : BrokerState → ActionReceipt → Bool
  check s r = elim r.previous_hash [
    | none ↦ true
    | some p ↦ last_matches p (and_get s (last? (ids_of s r.principal.agent_id)))
  ]

  -- `submit_receipt`, with nobody else between the two sections
  unfoldable pub submit_receipt : BrokerState → ActionReceipt → BrokerState × Response
  submit_receipt s r =
      if check s r
      then (store s r, created r.receipt_id (hash r) r.principal.agent_id)
      else (s, conflict r.receipt_id)

  -- the loop over the windows of two, of which the first has the number `i`
  unfoldable pub verify_from : ℕ → ActionReceipt → List ActionReceipt → (length : ℕ) → Verification
  verify_from i prev [] n = valid n (some (hash prev))
  verify_from i prev (curr ∷ rest) n =
      let next = verify_from (i + 1) curr rest n in
      if chain_valid curr prev then next else broken (i + 1) (hash prev) curr.previous_hash

  unfoldable pub verify_chain : List ActionReceipt → Verification
  unfolding verify_from
  verify_chain [] = valid 0 none
  verify_chain (r ∷ rs) = verify_from 0 r rs (length (r ∷ rs))
